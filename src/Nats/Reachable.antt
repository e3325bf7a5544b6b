-- ===== src/Nats/Reachable.antt =====
-- nats/nats.go: every state that the package can be in, whatever its environment answers.
use tcg.Common.{
  ◌≡◌, refl, sym, subst, inl, inr, ◌⊎◌, Bool, true, false, not, ◌&&◌, Option, none, some, List, [],
  ◌∷◌, String, ℕ, zero, suc, ltb, Outcome, returns, panics, OnReturn, arith, Bool-cases,
}
use tcg.Nats.{
  Config, Env, Msg, State, library, Attempt, init, start_server, connect_publisher, read_options,
  stop_server, start_dispatcher, stop_dispatcher, publish, handle_pubchan, EndedMove, leaves, takes,
  reconnects, taken, ended_pubchan, ended_fetch, pick, published, failed, no_connection,
  is_started_server, is_started_dispatcher,
}

-- A call of the package, with what the environment answers to it.
pub data Op : Type 0 where
  starts_server : Env → Config → Op
  stops_server : Op
  starts_dispatcher : Env → List String → Op
  stops_dispatcher : Op
  publishes : Msg → Op
  handles : ℕ → Attempt → Bool → Op
  runs_on : EndedMove → Op
  stops_fetching : Op

unfoldable pub step : Op → State → Outcome State
unfolding start_server stop_server start_dispatcher stop_dispatcher publish handle_pubchan
    ended_pubchan ended_fetch
step (starts_server env config) s = returns (start_server env config s).0
step stops_server s = stop_server s
step (starts_dispatcher env durables) s = returns (start_dispatcher env durables s).0
step stops_dispatcher s = returns (stop_dispatcher s)
step (publishes msg) s = returns (publish msg s).0
step (handles n first second) s = returns (handle_pubchan n first second s).0
step (runs_on move) s = ended_pubchan move s
step stops_fetching s = returns (ended_fetch s)

pub data Reachable : State → Type 0 where
  initial : Reachable init
  steps : (op : Op) (s t : State) → Reachable s → step op s ≡ returns t → Reachable t

abbrev pub imp : Bool → Bool → Bool
imp true b = b
imp false b = true

abbrev pub is_empty : List String → Bool
is_empty [] = true
is_empty (x ∷ xs) = false

-- A dispatcher connection needs the server; the publisher's and every loop need that `cancel` has been
-- set; a loop that runs has the server and its connection; and fetch loops have a context only while
-- it can be cancelled.
pub record IsConsistent (s : State) : Type 0 where
  pub dispatching : imp (is_started_dispatcher s) (is_started_server s) ≡ true
  pub publishing : imp s.nc_publisher s.cancel ≡ true
  pub looping : imp s.pub_loop (is_started_server s && s.nc_publisher) ≡ true
  pub ended : imp (ltb 0 s.ended_loops) s.cancel ≡ true
  pub fetches : imp (not s.dispatcher_cancel) (is_empty s.fetching) ≡ true

stop_dispatcher-IsConsistent : (s : State) → IsConsistent s → IsConsistent (stop_dispatcher s)
unfolding stop_dispatcher
stop_dispatcher-IsConsistent s v = ground arith

stop_server-IsConsistent : (s : State) → IsConsistent s → OnReturn IsConsistent (stop_server s)
unfolding stop_server
stop_server-IsConsistent s v = ground arith

publish-IsConsistent : (m : Msg) (s : State) → IsConsistent s → IsConsistent (publish m s).0
unfolding publish
publish-IsConsistent m s v = ground arith

taken-IsConsistent :
    (a : Attempt) (b : Bool) (s : State) (r : Msg × List Msg)
    → IsConsistent s
    → s.cancel ≡ true
    → OnReturn IsConsistent (taken a b s r)
taken-IsConsistent published b s (m, ms) v c = ground arith
taken-IsConsistent failed b s (m, ms) v c = ground arith
taken-IsConsistent no_connection b s (m, ms) v c = ground arith

handled-IsConsistent :
    (a : Attempt) (b : Bool) (n : ℕ) (s : State)
    → IsConsistent s
    → IsConsistent (handle_pubchan n a b s).0
unfolding handle_pubchan
handled-IsConsistent a b n s v = ground arith

picked-IsConsistent :
    (o : Option (Msg × List Msg)) (a : Attempt) (b : Bool) (s : State)
    → IsConsistent s
    → s.cancel ≡ true
    → OnReturn IsConsistent (elim o [ none ↦ returns s | some r ↦ taken a b s r ])
picked-IsConsistent none a b s v c = v
picked-IsConsistent (some r) a b s v c = taken-IsConsistent a b s r v c

moved-IsConsistent :
    (move : EndedMove) (s : State)
    → IsConsistent s
    → s.cancel ≡ true
    → (left : ℕ)
    → OnReturn IsConsistent (elim move [
      | leaves ↦ returns (record s { ended_loops = left })
      | reconnects ↦ returns (record s { nc_publisher = true })
      | takes n first second ↦ elim (pick n s.pending) [
        | none ↦ returns s
        | some r ↦ taken first second s r
      ]
    ])
moved-IsConsistent leaves s v c left = ground arith
moved-IsConsistent reconnects s v c left = ground arith
moved-IsConsistent (takes n a b) s v c left = picked-IsConsistent (pick n s.pending) a b s v c

ended_pubchan-IsConsistent :
    (move : EndedMove) (s : State) → IsConsistent s → OnReturn IsConsistent (ended_pubchan move s)
unfolding ended_pubchan
ended_pubchan-IsConsistent move s v = elim (zero_or_suc s.ended_loops) [
  | inl e ↦ rw (e, ended_pubchan) v
  | inr (left, e) ↦ rw (e, ended_pubchan) (moved-IsConsistent move s v (ground arith) left)
]
  where
    zero_or_suc : (n : ℕ) → (n ≡ 0) ⊎ ((m : ℕ) × (n ≡ suc m))
    zero_or_suc zero = inl refl
    zero_or_suc (suc m) = inr (m, refl)

ended_fetch-IsConsistent : (s : State) → IsConsistent s → IsConsistent (ended_fetch s)
unfolding ended_fetch
ended_fetch-IsConsistent s v = ground arith

connect_publisher-IsConsistent :
    (env : Env) (s : State)
    → IsConsistent s
    → is_started_server s ≡ true
    → IsConsistent (connect_publisher env s).0
unfolding connect_publisher
connect_publisher-IsConsistent env s v e = ground arith

start_server_started :
    (env : Env) (config : Config) (s : State)
    → s.server ≡ true
    → start_server env config s ≡ (s, none)
unfolding start_server
start_server_started env config s on = ground arith

start_server-IsConsistent :
    (env : Env) (config : Config) (s : State)
    → IsConsistent s
    → IsConsistent (start_server env config s).0
unfolding start_server
start_server-IsConsistent env config s v = elim (Bool-cases s.server) [
  | inl on ↦ subst (λ r. IsConsistent r.0) (sym (start_server_started env config s on)) v
  | inr off ↦
      let t : State = record s { config = config; server = true } in
      let next = connect_publisher-IsConsistent env t (ground arith) refl in ground arith
]

start_dispatcher-IsConsistent :
    (env : Env) (durables : List String) (s : State)
    → IsConsistent s
    → IsConsistent (start_dispatcher env durables s).0
unfolding start_dispatcher
start_dispatcher-IsConsistent env durables s v = ground (arith, stop_dispatcher-IsConsistent s v)

step-IsConsistent : (op : Op) (s : State) → IsConsistent s → OnReturn IsConsistent (step op s)
unfolding step
step-IsConsistent (starts_server env config) s v = start_server-IsConsistent env config s v
step-IsConsistent stops_server s v = stop_server-IsConsistent s v
step-IsConsistent (starts_dispatcher env durables) s v =
    start_dispatcher-IsConsistent env durables s v
step-IsConsistent stops_dispatcher s v = stop_dispatcher-IsConsistent s v
step-IsConsistent (publishes m) s v = publish-IsConsistent m s v
step-IsConsistent (handles n a b) s v = handled-IsConsistent a b n s v
step-IsConsistent (runs_on move) s v = ended_pubchan-IsConsistent move s v
step-IsConsistent stops_fetching s v = ended_fetch-IsConsistent s v

-- In every state that calls and loops, also those whose context is done, can reach without a panic,
-- whatever the environment answers: a dispatcher connection comes with a server, a publishing loop
-- whose context is not done with a server and a publisher connection, a publisher connection and a
-- loop whose context is done with a cancel function, and fetch loops whose context is not done with
-- the dispatcher's cancel function.
pub Reachable-IsConsistent : (s : State) → Reachable s → IsConsistent s
Reachable-IsConsistent s initial = record {
  dispatching = refl;
  publishing = refl;
  looping = refl;
  ended = refl;
  fetches = refl;
}
Reachable-IsConsistent _ (steps op s t r e) =
    subst (OnReturn IsConsistent) e (step-IsConsistent op s (Reachable-IsConsistent s r))

-- If StartServer, called on the package's first state with readable options, cannot connect its
-- publisher, the server counts as started and StopServer panics on the nil cancel function.
pub failed_connect_panics :
    (env : Env) (config : Config) (e : String)
    → read_options env config ≡ none
    → env.new_server config ≡ none
    → env.connect_publisher ≡ some e
    → ((start_server env config init).1 ≡ some (library e))
      × (is_started_server (start_server env config init).0 ≡ true)
      × (stop_server (start_server env config init).0 ≡ panics)
unfolding start_server connect_publisher stop_server
failed_connect_panics env config e o n c = rw (o, n, c) (refl, refl, refl)
