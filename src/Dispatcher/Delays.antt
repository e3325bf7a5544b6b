-- ===== src/Dispatcher/Delays.antt =====
-- nats/dispatcher.go, the loop of fetch: the delay it reads and the replies it sends.
use tcg.Common.{
  ℕ, zero, suc, ◌<◌, ◌≡◌, refl, ap, ◌∙◌, inl, inr, true, false, Option, none, some, List, [], ◌∷◌,
  String, returns, arith, length, Bool-cases, Bool,
}
use tcg.Dispatcher.{
  Msg, Verdict, Dispatcher, Processed, Reply, ack, nak, reply_of, process_msg, offer, process_batch,
  delay_at, fetch_round,
}

-- The replies of a batch: acknowledgements, then only refusals.
unfoldable pub AllNak : List Reply → Type 0
AllNak [] = true ≡ true
AllNak (r ∷ rs) = (r ≡ nak) × AllNak rs

unfoldable pub IsAckThenNak : List Reply → Type 0
unfolding AllNak
IsAckThenNak [] = true ≡ true
IsAckThenNak (ack ∷ rs) = IsAckThenNak rs
IsAckThenNak (nak ∷ rs) = AllNak rs

delay_at_total : (i : ℕ) (xs : List ℕ) → i < length xs → (x : ℕ) × (delay_at i xs ≡ returns x)
unfolding delay_at
delay_at_total i [] h = ground arith
delay_at_total zero (x ∷ xs) h = (x, refl)
delay_at_total (suc i) (x ∷ xs) h = delay_at_total i xs (omega arith)

module _ (delays : List ℕ) (durable : String) where
  -- A message that is not done has an attempt for which there is a delay.
  abbrev pub HasDelay : Processed → Type 0
  HasDelay s = s.done ≡ false → s.retry < length delays

  process_msg-HasDelay :
      (msg : Msg) (verdict : Verdict) (expired : Bool) (retry : ℕ) (d : Dispatcher)
      → HasDelay (process_msg delays durable msg verdict expired retry d)
  unfolding process_msg
  process_msg-HasDelay msg verdict expired retry d h = ground arith

  offer_stopped :
      (msg : Msg) (verdict : Verdict) (expired : Bool) (s : Processed)
      → s.done ≡ false
      → offer delays durable msg verdict expired s ≡ s
  unfolding offer
  offer_stopped msg verdict expired s e = rw e refl

  offer_running :
      (msg : Msg) (verdict : Verdict) (expired : Bool) (s : Processed)
      → s.done ≡ true
      → offer delays durable msg verdict expired s
        ≡ process_msg delays durable msg verdict expired s.retry s.state
  unfolding offer
  offer_running msg verdict expired s e = rw e refl

  offer-HasDelay :
      (msg : Msg) (verdict : Verdict) (expired : Bool) (s : Processed)
      → HasDelay s
      → HasDelay (offer delays durable msg verdict expired s)
  offer-HasDelay msg verdict expired s h = elim (Bool-cases s.done) [
    | inl e ↦
        rw (offer_running msg verdict expired s e)
          (process_msg-HasDelay msg verdict expired s.retry s.state)
    | inr e ↦ rw (offer_stopped msg verdict expired s e) h
  ]

  process_batch-HasDelay :
      (ms : List (Msg × Verdict × Bool)) (s : Processed)
      → HasDelay s
      → HasDelay (process_batch delays durable ms s).0
  unfolding process_batch
  process_batch-HasDelay [] s h = h
  process_batch-HasDelay ((msg, verdict, expired) ∷ ms) s h =
      process_batch-HasDelay ms (offer delays durable msg verdict expired s)
        (offer-HasDelay msg verdict expired s h)

  process_batch-AllNak :
      (ms : List (Msg × Verdict × Bool)) (s : Processed)
      → s.done ≡ false
      → AllNak (process_batch delays durable ms s).1
  unfolding process_batch AllNak
  process_batch-AllNak [] s e = refl
  process_batch-AllNak ((msg, verdict, expired) ∷ ms) s e =
      let stop = offer_stopped msg verdict expired s e in
      (
        ap (λ (t : Processed). reply_of t.done) stop ∙ ap reply_of e,
        process_batch-AllNak ms _ (ap (λ (t : Processed). t.done) stop ∙ e),
      )

  process_batch-IsAckThenNak :
      (ms : List (Msg × Verdict × Bool)) (s : Processed)
      → IsAckThenNak (process_batch delays durable ms s).1
  unfolding process_batch IsAckThenNak
  process_batch-IsAckThenNak [] s = refl
  process_batch-IsAckThenNak ((msg, verdict, expired) ∷ ms) s =
      let t = offer delays durable msg verdict expired s in
      elim (Bool-cases t.done) [
        | inl e ↦ rw e (process_batch-IsAckThenNak ms t)
        | inr e ↦ rw e (process_batch-AllNak ms t e)
      ]

  -- A round of fetch never reads a delay that does not exist, and its replies are acknowledgements
  -- followed only by refusals, whatever the messages, the verdicts and the caches.
  pub fetch_round_total :
      (ms : List (Msg × Verdict × Bool)) (d : Dispatcher)
      → (d' : Dispatcher) × (replies : List Reply) × (wait : Option ℕ) × (fetch_round delays durable
            ms d
          ≡ returns (d', replies, wait))
        × IsAckThenNak replies
  unfolding fetch_round
  fetch_round_total ms d =
      let start : Processed = record { state = d; retry = 0; done = true } in
      let s = process_batch delays durable ms start in
      elim (Bool-cases s.0.done) [
        | inl e ↦ (s.0.state, s.1, none, rw e refl, process_batch-IsAckThenNak ms start)
        | inr e ↦
            let (x, eq) =
              delay_at_total s.0.retry delays
                (process_batch-HasDelay ms start (λ b. ground arith) e) in
            (s.0.state, s.1, some x, rw (e, eq) refl, process_batch-IsAckThenNak ms start)
      ]
