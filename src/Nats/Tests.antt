-- ===== src/Nats/Tests.antt =====
-- nats/nats.go in a given environment.
use tcg.Common.{eq_ℤ, if◌then◌else◌, ◌≡◌, refl, true, false, Option, none, some, pos}
use tcg.Nats.Stream.{StreamConfig, StreamEnv, Call, CallError, create, not_found, define_stream}
use tcg.Nats.Stream.Bounds.{IsBounded, define_stream-IsBounded}
use tcg.Nats.{Config, Env, State, init, no_config}
use tcg.Nats.Reachable.{starts_server, step, initial, steps, IsConsistent, Reachable-IsConsistent}

-- The disk is too small for ten megabytes.
abbrev too_small : Call → Option CallError
too_small (create c) =
    if eq_ℤ c.max_bytes (pos 10000000)
    then some (record { text = "insufficient storage"; storage = true })
    else none
too_small _ = none

abbrev stream_env : StreamEnv
stream_env = record {
  jetstream = none;
  lookup = not_found;
  call = too_small;
  disk_free = some 8000000;
}

abbrev wanted : StreamConfig
wanted = record { max_age = pos 10; max_bytes = pos 10000000; max_msgs = pos 1000; memory = false }

define_stream-IsBounded_example : IsBounded wanted (define_stream stream_env "FILE" wanted).1
define_stream-IsBounded_example = define_stream-IsBounded stream_env "FILE" wanted 10000000 refl

reduced : (define_stream stream_env "FILE" wanted).0 ≡ none
unfolding define_stream
reduced = refl

abbrev config : Config
config = record no_config { max_payload = pos 100; store_max_bytes = pos 10000000 }

abbrev env : Env
env = record {
  open_file = λ f. true;
  process_file = λ f. none;
  new_server = λ c. none;
  connect_publisher = none;
  connect_dispatcher = none;
  stream = stream_env;
  consumer = λ d. true;
}

abbrev started : State
started = record init {
  config = config;
  server = true;
  nc_publisher = true;
  cancel = true;
  pub_loop = true;
}

Reachable-IsConsistent_example : IsConsistent started
unfolding step
Reachable-IsConsistent_example =
    Reachable-IsConsistent started (steps (starts_server env config) init started initial refl)

abbrev refused : Env
refused = record env { connect_publisher = some "no servers" }
