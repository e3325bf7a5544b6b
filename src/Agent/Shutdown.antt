-- ===== src/Agent/Shutdown.antt =====
-- services/agent.go: exit and resetNats, from start to end.
use tcg.Common.{
  ◌+◌, ◌≡◌, refl, ap, ◌∙◌, inl, inr, Bool, true, false, not, ◌&&◌, none, List, ◌∷◌, String, returns,
  arith, Bool-cases, filter_by, if◌then◌else◌,
}
use tcg.Nats.{
  Config, Env, State, start_server, connect_publisher, read_options, stop_server, stop_dispatcher,
  start_dispatcher, is_started_dispatcher, is_started_server,
}
use tcg.Agent.{
  Agent, Exiting, GwConnection, is_connector_configured, start_nats, stop_nats, start_transport,
  stop_transport, make_subscriptions, reset_nats, stop_controller, exit,
}

-- What is left of NATS after stopNats.
abbrev stopped : State → State
stopped s = record s {
  pub_loop = false;
  ended_loops = if s.pub_loop then s.ended_loops + 1 else s.ended_loops;
  nc_publisher = false;
  nc_dispatcher = false;
  server = false;
}

stop_nats_on :
    (a : Agent)
    → is_started_server a.nats ≡ true
    → a.nats.cancel ≡ true
    → stop_nats a ≡ returns (record a { nats = stopped (stop_transport a).nats })
unfolding stop_nats stop_transport stop_server stop_dispatcher
stop_nats_on a e c = ground arith

stop_nats_off : (a : Agent) → is_started_server a.nats ≡ false → stop_nats a ≡ returns a
unfolding stop_nats
stop_nats_off a e = ground arith

stop_transport_server :
    (a : Agent) → is_started_server (stop_transport a).nats ≡ is_started_server a.nats
unfolding stop_transport stop_dispatcher
stop_transport_server a = ground arith

-- The agent after the quit signal, where its channel has room.
abbrev after_quit : Bool → Agent → Agent
after_quit true b = record b { quits = b.quits + 1 }
after_quit false b = b

nats-after_quit : (room : Bool) (b : Agent) → (after_quit room b).nats ≡ b.nats
nats-after_quit true b = refl
nats-after_quit false b = refl

controller-after_quit : (room : Bool) (b : Agent) → (after_quit room b).controller ≡ b.controller
controller-after_quit true b = refl
controller-after_quit false b = refl

exit_stopping :
    (x : Exiting) (a b : Agent)
    → x.tickers_take ≡ true
    → x.handler_ends ≡ true
    → stop_nats (stop_transport (stop_controller (record a { exits = a.exits + 1 }))) ≡ returns b
    → exit x a ≡ returns (after_quit x.quit_has_room b, x.quit_has_room)
unfolding exit
exit_stopping x a b t h e = elim (Bool-cases x.quit_has_room) [
  | inl q ↦ rw (t, h, e, q) refl
  | inr q ↦ rw (t, h, e, q) refl
]

stopped_controller : (a : Agent) → (stop_transport (stop_controller a)).controller ≡ false
unfolding stop_transport stop_controller
stopped_controller a = ground arith

stopped_dispatcher : (a : Agent) → is_started_dispatcher (stop_transport a).nats ≡ false
unfolding stop_transport stop_dispatcher
stopped_dispatcher a = ground arith

stop_transport_cancel : (a : Agent) → (stop_transport a).nats.cancel ≡ a.nats.cancel
unfolding stop_transport stop_dispatcher
stop_transport_cancel a = ground arith

stop_controller_nats : (a : Agent) → (stop_controller a).nats ≡ a.nats
unfolding stop_controller
stop_controller_nats a = ground arith

-- Where the tickers of the batchers take the signal to end, the exit handler comes back without a
-- panic, and a server that is started can be cancelled, exit stops the server, the dispatcher and the
-- controller, and it comes back exactly where the channel of the quit signal has room.
pub exit_stops :
    (x : Exiting) (a : Agent)
    → x.tickers_take ≡ true
    → x.handler_ends ≡ true
    → is_started_server a.nats && not a.nats.cancel ≡ false
    → (b : Agent) × (exit x a ≡ returns (b, x.quit_has_room))
      × (is_started_server b.nats ≡ false)
      × (is_started_dispatcher b.nats ≡ false)
      × (b.controller ≡ false)
exit_stops x a t e h =
    let room = x.quit_has_room in
    let begun : Agent = record a { exits = a.exits + 1 } in
    let c : Agent = stop_controller begun in
    let d : Agent = stop_transport c in
    let same = stop_controller_nats begun in
    let server = stop_transport_server c ∙ ap is_started_server same in
    let cancel = stop_transport_cancel c ∙ ap (λ (s : State). s.cancel) same in
    elim (Bool-cases (is_started_server d.nats)) [
      | inl on ↦
          let b : Agent = record d { nats = stopped (stop_transport d).nats } in
          (
            after_quit room b,
            exit_stopping x a b t e (stop_nats_on d on (ground arith)),
            ap is_started_server (nats-after_quit room b),
            ap is_started_dispatcher (nats-after_quit room b),
            controller-after_quit room b ∙ stopped_controller begun,
          )
      | inr off ↦ (
        after_quit room d,
        exit_stopping x a d t e (stop_nats_off d off),
        ap is_started_server (nats-after_quit room d) ∙ off,
        ap is_started_dispatcher (nats-after_quit room d) ∙ stopped_dispatcher c,
        controller-after_quit room d ∙ stopped_controller begun,
      )
    ]

start_server_ok :
    (env : Env) (c : Config) (s : State)
    → read_options env c ≡ none
    → env.new_server c ≡ none
    → is_started_server (start_server env c s).0 ≡ true
unfolding start_server connect_publisher
start_server_ok env c s o n = ground arith

start_dispatcher_ok :
    (env : Env) (ds : List String) (s : State)
    → is_started_server s ≡ true
    → env.connect_dispatcher ≡ none
    → (is_started_dispatcher (start_dispatcher env ds s).0 ≡ true)
      × (is_started_server (start_dispatcher env ds s).0 ≡ true)
unfolding start_dispatcher stop_dispatcher
start_dispatcher_ok env ds s on e = ground arith

start_transport_ok :
    (env : Env) (a : Agent) (g : GwConnection) (gs : List GwConnection)
    → is_connector_configured a.settings.connector ≡ true
    → filter_by (λ c. c.enabled) a.settings.gw_connections ≡ g ∷ gs
    → is_started_server a.nats ≡ true
    → env.connect_dispatcher ≡ none
    → (is_started_dispatcher (start_transport env a).0.nats ≡ true)
      × (is_started_server (start_transport env a).0.nats ≡ true)
unfolding start_transport
start_transport_ok env a g gs c f on e =
    rw (c, f) (start_dispatcher_ok env (make_subscriptions (g ∷ gs)) a.nats on e)

reset_nats_running :
    (env : Env) (a b : Agent)
    → stop_nats a ≡ returns b
    → is_started_server a.nats ≡ true
    → is_started_dispatcher a.nats ≡ true
    → reset_nats env a ≡ returns (start_transport env (start_nats env b).0).0
unfolding reset_nats
reset_nats_running env a b e on run = rw e (
    ap
      (λ (t : Bool). returns (
        if t
        then (start_transport env (if is_started_server a.nats then (start_nats env b).0 else b)).0
        else (if is_started_server a.nats then (start_nats env b).0 else b)))
      run
    ∙ ap (λ (t : Bool). returns (start_transport env (if t then (start_nats env b).0 else b)).0) on)

-- If the server and the dispatcher run and can be cancelled, the connector is configured with an
-- enabled connection, and the server and the connections can be made again, resetNats returns with
-- both running.
pub reset_nats_restores :
    (env : Env) (a : Agent) (g : GwConnection) (gs : List GwConnection)
    → is_started_server a.nats ≡ true
    → is_started_dispatcher a.nats ≡ true
    → a.nats.cancel ≡ true
    → is_connector_configured a.settings.connector ≡ true
    → filter_by (λ c. c.enabled) a.settings.gw_connections ≡ g ∷ gs
    → read_options env a.settings.connector.nats ≡ none
    → env.new_server a.settings.connector.nats ≡ none
    → env.connect_dispatcher ≡ none
    → (b : Agent) × (reset_nats env a ≡ returns b)
      × (is_started_server b.nats ≡ true)
      × (is_started_dispatcher b.nats ≡ true)
unfolding start_nats
reset_nats_restores env a g gs on run cancel conf en o n c =
    let b : Agent = record a { nats = stopped (stop_transport a).nats } in
    let d : Agent = (start_nats env b).0 in
    let up = start_server_ok env a.settings.connector.nats b.nats o n in
    let (run', up') = start_transport_ok env d g gs conf en up c in
    (
      (start_transport env d).0,
      reset_nats_running env a b (stop_nats_on a on cancel) on run,
      up',
      run',
    )
