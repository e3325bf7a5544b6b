-- ===== src/Dispatcher/Retries.antt =====
-- nats/dispatcher.go, processMsg over the rounds of fetch that redeliver one message.
use tcg.Common.{
  if◌then◌else◌, ◌+◌, leb, ℕ, zero, suc, ◌<◌, ◌≤◌, ◌≡◌, refl, ap, ◌∙◌, inl, inr, false, none, some,
  List, [], ◌∷◌, String, arith, length, Bool-cases, lookup, insert, lookup-insert, Dict, eq_iff,
  str_eq,
}
use tcg.Dispatcher.{
  transient, Dispatcher, Processed, process_msg, conclude, retry_or_stop, remove, attempt_after,
}

lookup-remove : {V : Type 0} (k : String) (m : Dict V) → lookup k (remove k m) ≡ none
unfolding lookup remove
lookup-remove k [] = refl
lookup-remove k ((j, v) ∷ m) = elim (Bool-cases (str_eq j k)) [
  | inl e ↦ rw e (lookup-remove k m)
  | inr e ↦ rw (e, e) (lookup-remove k m)
]

succ : (k : ℕ) → k + 1 ≡ suc k
succ k = omega arith

lookup-same : (k : String) (n : ℕ) (m : Dict ℕ) → lookup k (insert k n m) ≡ some n
lookup-same k n m = ground (arith, lookup-insert k k n m, eq_iff k k)

module _ (delays : List ℕ) (durable : String) where
  retry-again :
      (r : ℕ) (d : Dispatcher)
      → r < length delays
      → retry_or_stop delays durable r d ≡ record {
        state = record d { retries = insert durable r d.retries };
        retry = r;
        done = false;
      }
  unfolding retry_or_stop
  retry-again r d h = ground arith

  retry_or_stop_lem :
      (k : ℕ) (d : Dispatcher)
      → ((retry_or_stop delays durable k d).retry ≡ k)
        × ((retry_or_stop delays durable k d).done ≡ leb (length delays) k)
        × (lookup durable (retry_or_stop delays durable k d).state.retries
            ≡ (if leb (length delays) k then none else some k))
  unfolding retry_or_stop
  retry_or_stop_lem k d = elim (Bool-cases (leb (length delays) k)) [
    | inl stop ↦ rw stop (refl, refl, lookup-remove durable d.retries)
    | inr again ↦ rw again (refl, refl, lookup-same durable k d.retries)
  ]

  module _ (seq : ℕ) where
    -- One round in which the message of the given sequence fails with a transient error.
    unfoldable pub fail : Dispatcher → Processed
    unfolding process_msg
    fail d = process_msg delays durable (record { stream_seq = some seq }) transient false 0 d

    -- The caches after the given number of such rounds.
    unfoldable pub after : ℕ → Dispatcher → Dispatcher
    unfolding fail
    after zero d = d
    after (suc k) d = (fail (after k d)).state

    fail_lem :
        (k : ℕ) (d : Dispatcher)
        → attempt_after (lookup durable d.retries) ≡ k
        → fail d ≡ retry_or_stop delays durable k d
    unfolding fail process_msg conclude
    fail_lem k d e = ap (λ (n : ℕ). retry_or_stop delays durable n d) e

    attempts_counted :
        (k : ℕ) (d : Dispatcher)
        → lookup durable d.retries ≡ none
        → k ≤ length delays
        → attempt_after (lookup durable (after k d).retries) ≡ k
    unfolding after
    attempts_counted zero d e h = ap attempt_after e
    attempts_counted (suc k) d e h =
        let step =
          fail_lem k (after k d) (attempts_counted k d e (omega arith))
          ∙ retry-again k (after k d) (omega arith) in
        ap (λ (p : Processed). attempt_after (lookup durable p.state.retries)) step
        ∙ ap attempt_after (lookup-same durable k (after k d).retries)
        ∙ succ k

    -- A message that keeps failing with a transient error, from caches without a retry of its
    -- durable and while none expires: for each number of failed rounds up to the number of delays,
    -- the next round has that number as its attempt, refuses the message and keeps the attempt
    -- while a delay is left, and else acknowledges it undelivered and deletes the attempt.
    pub gives_up :
        (k : ℕ) (d : Dispatcher)
        → lookup durable d.retries ≡ none
        → k ≤ length delays
        → ((fail (after k d)).retry ≡ k)
          × ((fail (after k d)).done ≡ leb (length delays) k)
          × (lookup durable (fail (after k d)).state.retries
              ≡ (if leb (length delays) k then none else some k))
    gives_up k d e h =
        rw (fail_lem k (after k d) (attempts_counted k d e h)) (retry_or_stop_lem k (after k d))
