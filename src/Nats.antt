-- ===== src/Nats.antt =====
-- nats/nats.go: the embedded server, its stream, the publisher and the dispatcher's connection. What
-- the server, the client library and the file system answer is `Env`; an answer is none for no
-- error. A connection counts as set or not. Logging is left out, and draining a connection is taken
-- to close it.
pub mod Stream
pub mod Reachable
mod Tests
use tcg.Common.{
  Dict, ℕ, zero, suc, ◌+◌, ◌*◌, ◌/◌, ◌<◌, Bool, true, false, not, ◌||◌, ◌&&◌, Option, none, some,
  List, [], ◌∷◌, ◌++◌, String, ℤ, pos, ltb, ltb_ℤ, Outcome, returns, panics, Bytes, length, str_eq,
  if◌then◌else◌,
}
use tcg.Nats.Stream.{StreamConfig, StreamEnv, define_stream}
use tcg.Dispatcher.{Dispatcher}

-- Config: the fields that the code reads, but for the server options that it only hands on.
pub record Config : Type 0 where
  pub max_payload : ℤ
  pub store_type : String
  pub store_max_age : ℤ
  pub store_max_bytes : ℤ
  pub store_max_msgs : ℤ
  pub config_file : String

pub data Error : Type 0 where
  unavailable payload_lim bad_config_path : Error
  library : String → Error

-- The answers of os.Open, ProcessConfigFile, NewServer, Connect (for the publisher and for the
-- dispatcher), the stream's, and whether OpenDurable gets a consumer for a durable.
pub record Env : Type 0 where
  pub open_file : String → Bool
  pub process_file : String → Option String
  pub new_server : Config → Option String
  pub connect_publisher : Option String
  pub connect_dispatcher : Option String
  pub stream : StreamEnv
  pub consumer : String → Bool

-- A message for the publisher.
pub record Msg : Type 0 where
  pub subject : String
  pub header : Dict (List String)
  pub payload : Bytes

-- `state` and the dispatcher's own fields. `fetching` are the durables whose fetch loops have a context
-- that is not done, and `pub_loop` tells whether a handlePubchan has one. Those whose context is done
-- run on until they see it: `ended_loops` and `ended_fetches`. `pending` are the messages of the
-- goroutines that Pub started, in the order of the calls; the channel takes them in any order.
pub record State : Type 0 where
  pub config : Config
  pub server : Bool
  pub nc_dispatcher : Bool
  pub nc_publisher : Bool
  pub cancel : Bool
  pub pub_loop : Bool
  pub ended_loops : ℕ
  pub pending : List Msg
  pub dispatcher_cancel : Bool
  pub fetching : List String
  pub ended_fetches : List String
  pub caches : Dispatcher

abbrev pub no_config : Config
no_config = record {
  max_payload = pos 0;
  store_type = "";
  store_max_age = pos 0;
  store_max_bytes = pos 0;
  store_max_msgs = pos 0;
  config_file = "";
}

abbrev pub no_caches : Dispatcher
no_caches = record { dura_seqs = []; retries = [] }

-- The package's variables before any call.
abbrev pub init : State
init = record {
  config = no_config;
  server = false;
  nc_dispatcher = false;
  nc_publisher = false;
  cancel = false;
  pub_loop = false;
  ended_loops = 0;
  pending = [];
  dispatcher_cancel = false;
  fetching = [];
  ended_fetches = [];
  caches = no_caches;
}

abbrev pub is_started_dispatcher : State → Bool
is_started_dispatcher s = s.nc_dispatcher

abbrev pub is_started_server : State → Bool
is_started_server s = s.server

-- The options of StartServer: the errors of a configuration file.
unfoldable pub read_options : Env → Config → Option Error
read_options env config =
    if str_eq config.config_file ""
    then none
    else if not (env.open_file config.config_file)
    then some bad_config_path
    else elim (env.process_file config.config_file) [ none ↦ none | some e ↦ some (library e) ]

abbrev pub lib_error : Option String → Option Error
lib_error none = none
lib_error (some e) = some (library e)

-- StartServer from the connection of the publisher on, with the server started.
unfoldable pub connect_publisher : Env → State → State × Option Error
unfolding define_stream
connect_publisher env s = elim env.connect_publisher [
  | some e ↦ (s, some (library e))
  | none ↦
      let t = record s { nc_publisher = true; cancel = true } in
      elim (define_stream env.stream s.config.store_type (record {
        max_age = s.config.store_max_age;
        max_bytes = s.config.store_max_bytes;
        max_msgs = s.config.store_max_msgs;
        memory = false;
      })).0 [ some e ↦ (t, some (library e)) | none ↦ (record t { pub_loop = true }, none) ]
]

-- StartServer
unfoldable pub start_server : Env → Config → State → State × Option Error
unfolding read_options connect_publisher
start_server env config s = if s.server then (s, none) else elim (read_options env config) [
  | some e ↦ (s, some e)
  | none ↦
      let t = record s { config = config } in
      elim (env.new_server config) [
        | some e ↦ (t, some (library e))
        | none ↦ connect_publisher env (record t { server = true })
      ]
]

-- StopServer; calling a nil `cancel` panics. It does not wait for the loop whose context it ends.
unfoldable pub stop_server : State → Outcome State
stop_server s =
    if s.cancel
    then returns (record s {
      pub_loop = false;
      ended_loops = if s.pub_loop then s.ended_loops + 1 else s.ended_loops;
      nc_publisher = false;
      nc_dispatcher = false;
      server = false;
    })
    else panics

-- StopDispatcher, which returns no error; it ends the context of the fetch loops.
unfoldable pub stop_dispatcher : State → State
stop_dispatcher s = record s {
  fetching = if s.dispatcher_cancel then [] else s.fetching;
  ended_fetches = if s.dispatcher_cancel then s.ended_fetches ++ s.fetching else s.ended_fetches;
  dispatcher_cancel = false;
  nc_dispatcher = false;
}

-- OpenDurable over the durables.
unfoldable pub open_durables : Env → List String → List String
open_durables env [] = []
open_durables env (d ∷ ds) =
    let rest = open_durables env ds in if env.consumer d then d ∷ rest else rest

-- The caches are flushed, and the durables opened.
abbrev pub dispatch : Env → List String → State → State
dispatch env durables s = record s {
  nc_dispatcher = true;
  caches = no_caches;
  dispatcher_cancel = true;
  fetching = s.fetching ++ open_durables env durables;
}

-- StartDispatcher
unfoldable pub start_dispatcher : Env → List String → State → State × Option Error
unfolding stop_dispatcher open_durables
start_dispatcher env durables s =
    let t = stop_dispatcher s in
    if not t.server
    then (t, some unavailable)
    else if t.nc_dispatcher
    then (dispatch env durables t, none)
    else elim env.connect_dispatcher [
      | some e ↦ (t, some (library e))
      | none ↦ (dispatch env durables t, none)
    ]

-- Pub: a goroutine for the message.
unfoldable pub publish : Msg → State → State × Option Error
publish msg s =
    if ltb_ℤ s.config.max_payload (pos (length msg.payload))
    then (s, some payload_lim)
    else (record s { pending = s.pending ++ msg ∷ [] }, none)

-- One message of handlePubchan: whether PublishMsg fails, and then whether it fails once more on a
-- new connection; the message is given up after that. The second part is what was published.
pub data Attempt : Type 0 where
  published failed no_connection : Attempt

-- The message that the channel gives, by its place, and the others.
unfoldable pub pick : ℕ → List Msg → Option (Msg × List Msg)
pick n [] = none
pick zero (m ∷ ms) = some (m, ms)
pick (suc n) (m ∷ ms) = elim (pick n ms) [ none ↦ none | some (x, rest) ↦ some (x, m ∷ rest) ]

unfoldable pub handle_pubchan : ℕ → Attempt → Bool → State → State × List Msg
unfolding pick
handle_pubchan n first second s = elim s.pub_loop [
  | false ↦ (s, [])
  | true ↦ elim (pick n s.pending) [
    | none ↦ (s, [])
    | some (m, ms) ↦
        let t = record s { pending = ms } in
        elim first [
          | published ↦ (t, m ∷ [])
          | no_connection ↦ (t, [])
          | failed ↦ (record t { nc_publisher = true }, if second then m ∷ [] else [])
        ]
  ]
]

-- What a loop whose context is done can do yet: return; take one more message, since select picks any
-- case that is ready, which fails on a nil connection and then panics on a nil server; and set the
-- connection that it asked for before the server was stopped, with or without its message published.
pub data EndedMove : Type 0 where
  leaves : EndedMove
  takes : ℕ → Attempt → Bool → EndedMove
  reconnects : EndedMove

abbrev pub taken : Attempt → Bool → State → Msg × List Msg → Outcome State
taken published second s (m, ms) =
    if s.nc_publisher then returns (record s { pending = ms }) else panics
taken no_connection second s (m, ms) =
    if s.server then returns (record s { pending = ms }) else panics
taken failed second s (m, ms) =
    if s.server then returns (record s { pending = ms; nc_publisher = true }) else panics

unfoldable pub ended_pubchan : EndedMove → State → Outcome State
unfolding pick
ended_pubchan move s = elim s.ended_loops [
  | zero ↦ returns s
  | suc left ↦ elim move [
    | leaves ↦ returns (record s { ended_loops = left })
    | reconnects ↦ returns (record s { nc_publisher = true })
    | takes n first second ↦ elim (pick n s.pending) [
      | none ↦ returns s
      | some r ↦ taken first second s r
    ]
  ]
]

-- A fetch loop whose context is done returns.
unfoldable pub ended_fetch : State → State
ended_fetch s = elim s.ended_fetches [ [] ↦ s | f ∷ fs ↦ record s { ended_fetches = fs } ]
