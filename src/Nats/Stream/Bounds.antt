-- ===== src/Nats/Stream/Bounds.antt =====
-- The calls that defineStream of nats/nats.go makes.
use tcg.Common.{
  ℕ, ◌≤◌, ◌≡◌, refl, subst, ◌∙◌, inl, inr, true, false, List, String, ℤ, pos, negsuc, ltb_ℤ,
  int64_of_uint, five_eighths, equal_fold, arith, All, length, Bool-cases, Option-cases,
}
use tcg.Nats.Stream.{
  StreamConfig, StreamEnv, Call, create, update, define_stream, call_stream, repairable,
}

abbrev pub config_of : Call → StreamConfig
config_of (create sc) = sc
config_of (update sc) = sc

-- A call that keeps the limits on age and number, and asks for no more than the given storage.
abbrev pub Within : StreamConfig → Call → Type 0
Within config c =
    ((config_of c).max_age ≡ config.max_age)
    × ((config_of c).max_msgs ≡ config.max_msgs)
    × (ltb_ℤ config.max_bytes (config_of c).max_bytes ≡ false)

abbrev pub IsBounded : StreamConfig → List Call → Type 0
IsBounded config calls = All (Within config) calls × (length calls ≤ 2)

ltb_ℤ_irrefl : (i : ℤ) → ltb_ℤ i i ≡ false
ltb_ℤ_irrefl (pos n) = ground arith
ltb_ℤ_irrefl (negsuc n) = ground arith

reduced :
    (free n : ℕ)
    → repairable free (pos n) ≡ true
    → ltb_ℤ (pos n) (five_eighths (int64_of_uint free)) ≡ false
unfolding repairable five_eighths int64_of_uint
reduced free n h = ground arith

module _ (env : StreamEnv) (config : StreamConfig) (fn : StreamConfig → Call)
    (fn_config : (sc : StreamConfig) → config_of (fn sc) ≡ sc) where
  same-Within :
      (sc : StreamConfig)
      → sc.max_age ≡ config.max_age
      → sc.max_msgs ≡ config.max_msgs
      → sc.max_bytes ≡ config.max_bytes
      → Within config (fn sc)
  same-Within sc a m b = rw (fn_config sc, a, m, b) (refl, refl, ltb_ℤ_irrefl config.max_bytes)

  less-Within :
      (sc : StreamConfig) (free n : ℕ)
      → config.max_bytes ≡ pos n
      → sc.max_age ≡ config.max_age
      → sc.max_msgs ≡ config.max_msgs
      → sc.max_bytes ≡ config.max_bytes
      → repairable free sc.max_bytes ≡ true
      → Within config (fn (record sc { max_bytes = five_eighths (int64_of_uint free) }))
  less-Within sc free n e a m b r =
      let less : StreamConfig = record sc { max_bytes = five_eighths (int64_of_uint free) } in
      let bound = reduced free n (subst (λ k. repairable free k ≡ true) (b ∙ e) r) in
      rw (fn_config less, e) (a, m, bound)

  call_stream-IsBounded :
      (sc : StreamConfig) (n : ℕ)
      → config.max_bytes ≡ pos n
      → sc.max_age ≡ config.max_age
      → sc.max_msgs ≡ config.max_msgs
      → sc.max_bytes ≡ config.max_bytes
      → IsBounded config (call_stream env fn sc).1
  unfolding call_stream
  call_stream-IsBounded sc n e a m b =
      let one = same-Within sc a m b in
      elim (Option-cases env.disk_free) [
        | inl d ↦ ground arith
        | inr (free, d) ↦ elim (Bool-cases (repairable free sc.max_bytes)) [
          | inl r ↦ let two = less-Within sc free n e a m b r in ground arith
          | inr r ↦ ground arith
        ]
      ]

-- If the configured storage is not negative, every call that defineStream makes keeps the limits on
-- age and number and asks for at most the configured storage, and there are at most two calls.
pub define_stream-IsBounded :
    (env : StreamEnv) (store_type : String) (config : StreamConfig) (n : ℕ)
    → config.max_bytes ≡ pos n
    → IsBounded config (define_stream env store_type config).1
unfolding define_stream
define_stream-IsBounded env store_type config n e =
    let sc : StreamConfig = record config { memory = equal_fold store_type "MEMORY" } in
    let c = call_stream-IsBounded env config create (λ x. refl) sc n e refl refl refl in
    let u = call_stream-IsBounded env config update (λ x. refl) sc n e refl refl refl in
    ground arith
