-- ===== src/Nats/Stream.antt =====
-- defineStream of nats/nats.go: the stream is made or updated, with less storage if the disk asks.
pub mod Bounds
use tcg.Common.{
  ℕ, ◌+◌, ◌*◌, ◌/◌, ◌^◌, ◌≤◌, ◌<◌, ◌≡◌, refl, Bool, true, false, not, ◌||◌, ◌&&◌, Option, none,
  some, List, [], ◌∷◌, String, ℤ, pos, negsuc, eq_ℤ, uint_of_int64, int64_of_uint, five_eighths,
  equal_fold, ltb, arith, All, if◌then◌else◌,
}

-- The fields of jetstream.StreamConfig that differ between calls.
pub record StreamConfig : Type 0 where
  pub max_age : ℤ
  pub max_bytes : ℤ
  pub max_msgs : ℤ
  pub memory : Bool

-- What Stream and its Info answer.
pub data Lookup : Type 0 where
  found : StreamConfig → Lookup
  not_found : Lookup
  lookup_failed : String → Lookup

-- A call of CreateStream or UpdateStream; an error tells whether isJSStorageErr holds of it.
pub data Call : Type 0 where
  create update : StreamConfig → Call

pub record CallError : Type 0 where
  pub text : String
  pub storage : Bool

-- The answers of jetstream.New, the lookup, the calls, and disk.Usage's free bytes.
pub record StreamEnv : Type 0 where
  pub jetstream : Option String
  pub lookup : Lookup
  pub call : Call → Option CallError
  pub disk_free : Option ℕ

unfoldable pub equal_stream_config : StreamConfig → StreamConfig → Bool
equal_stream_config c d =
    (eq_ℤ c.max_age d.max_age && eq_ℤ c.max_bytes d.max_bytes)
    && (eq_ℤ c.max_msgs d.max_msgs && (if c.memory then d.memory else not d.memory))

-- Whether the storage can be reduced to five eighths of what is free.
unfoldable pub repairable : ℕ → ℤ → Bool
repairable free max_bytes =
    not (ltb (uint_of_int64 max_bytes) (free / 8 * 5)) && not (ltb free (1024 * 1024))

abbrev pub text_of : Option CallError → Option String
text_of none = none
text_of (some e) = some e.text

-- The call `fn`, and its repetition with smaller storage; the calls made are the second part.
unfoldable pub call_stream :
    StreamEnv → (StreamConfig → Call) → StreamConfig → Option String × List Call
unfolding repairable five_eighths int64_of_uint
call_stream env fn sc = elim (env.call (fn sc)) [
  | none ↦ (none, fn sc ∷ [])
  | some e ↦ if not e.storage || sc.memory then (some e.text, fn sc ∷ []) else elim env.disk_free [
    | none ↦ (some e.text, fn sc ∷ [])
    | some free ↦
        if repairable free sc.max_bytes
        then (let less = fn (record sc { max_bytes = five_eighths (int64_of_uint free) }) in
            (text_of (env.call less), fn sc ∷ less ∷ []))
        else (some e.text, fn sc ∷ [])
  ]
]

-- defineStream, for the store type and the configuration; `memory` is set by the former.
unfoldable pub define_stream : StreamEnv → String → StreamConfig → Option String × List Call
unfolding call_stream equal_stream_config equal_fold
define_stream env store_type config =
    let sc = record config { memory = equal_fold store_type "MEMORY" } in
    elim env.jetstream [
      | some e ↦ (some e, [])
      | none ↦ elim env.lookup [
        | lookup_failed e ↦ (some e, [])
        | not_found ↦ call_stream env create sc
        | found c ↦ if equal_stream_config sc c then (none, []) else call_stream env update sc
      ]
    ]
