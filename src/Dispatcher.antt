-- ===== src/Dispatcher.antt =====
-- nats/dispatcher.go. The caches are go-cache's: a text-keyed map, and for the retries a flag with
-- each read that tells whether the entry has outlived its half hour. A message is its stream
-- sequence, none if Metadata fails; a handler's error is transient or not, as errors.Is tells.
pub mod Delays
pub mod Retries
mod Tests
use tcg.Common.{
  ℕ, zero, suc, ◌+◌, Bool, true, false, Option, none, some, List, [], ◌∷◌, ◌++◌, String, Outcome,
  returns, panics, ◌>>=◌, Dict, lookup, insert, length, leb, str_eq, if◌then◌else◌,
}

pub data Verdict : Type 0 where
  delivered permanent transient : Verdict

pub record Msg : Type 0 where
  pub stream_seq : Option ℕ

pub record Dispatcher : Type 0 where
  pub dura_seqs : Dict ℕ
  pub retries : Dict ℕ

-- `cache.Delete`
unfoldable pub remove {ℓ} : {V : Type ℓ} → String → Dict V → Dict V
remove k [] = []
remove k ((j, v) ∷ m) = let rest = remove k m in if str_eq j k then rest else (j, v) ∷ rest

-- `cache.Get` of the retries: an expired entry is not found.
abbrev pub get_retry : Bool → String → Dict ℕ → Option ℕ
get_retry true k m = none
get_retry false k m = lookup k m

abbrev pub attempt_after : Option ℕ → ℕ
attempt_after none = 0
attempt_after (some r) = r + 1

-- What processMsg leaves: the caches, `retry.Retry` where it was written, and whether it is done.
pub record Processed : Type 0 where
  pub state : Dispatcher
  pub retry : ℕ
  pub done : Bool

pub data Reply : Type 0 where
  ack nak : Reply

abbrev pub reply_of : Bool → Reply
reply_of true = ack
reply_of false = nak

-- RetryDelays[i]; Go panics where the index is out of range.
unfoldable pub delay_at : ℕ → List ℕ → Outcome ℕ
delay_at i [] = panics
delay_at zero (x ∷ xs) = returns x
delay_at (suc i) (x ∷ xs) = delay_at i xs

module _ (delays : List ℕ) (durable : String) where
  -- The transient case, with the attempt that is due.
  unfoldable pub retry_or_stop : ℕ → Dispatcher → Processed
  retry_or_stop r d =
      if leb (length delays) r
      then record {
        state = record d { retries = remove durable d.retries };
        retry = r;
        done = true;
      }
      else record {
        state = record d { retries = insert durable r d.retries };
        retry = r;
        done = false;
      }

  -- What follows the handler's verdict on the message of the given sequence.
  unfoldable pub conclude : ℕ → Verdict → Bool → ℕ → Dispatcher → Processed
  unfolding retry_or_stop
  conclude seq delivered expired retry d = record {
    state = record d { dura_seqs = insert durable seq d.dura_seqs };
    retry = retry;
    done = true;
  }
  conclude seq permanent expired retry d = record { state = d; retry = retry; done = true }
  conclude seq transient expired retry d =
      retry_or_stop (attempt_after (get_retry expired durable d.retries)) d

  -- processMsg; the handler is not called for a message without metadata.
  unfoldable pub process_msg : Msg → Verdict → Bool → ℕ → Dispatcher → Processed
  unfolding conclude
  process_msg msg verdict expired retry d = elim msg.stream_seq [
    | none ↦ record { state = d; retry = retry; done = true }
    | some seq ↦ conclude seq verdict expired retry d
  ]

  -- One message of a batch: once a message is not done the rest is refused.
  unfoldable pub offer : Msg → Verdict → Bool → Processed → Processed
  unfolding process_msg
  offer msg verdict expired s = elim s.done [
    | false ↦ s
    | true ↦ process_msg msg verdict expired s.retry s.state
  ]

  -- The loop over one batch: each message with the verdict that its handler would give, and whether
  -- the retry entry has expired when it is read.
  unfoldable pub process_batch : List (Msg × Verdict × Bool) → Processed → Processed × List Reply
  unfolding offer
  process_batch [] s = (s, [])
  process_batch ((msg, verdict, expired) ∷ ms) s =
      let t = offer msg verdict expired s in
      let (end, replies) = process_batch ms t in (end, reply_of t.done ∷ replies)

  -- One round of fetch: the state, the replies, and the wait before the next round.
  unfoldable pub fetch_round :
      List (Msg × Verdict × Bool) → Dispatcher → Outcome (Dispatcher × List Reply × Option ℕ)
  unfolding process_batch delay_at
  fetch_round ms d =
      let (s, replies) = process_batch ms (record { state = d; retry = 0; done = true }) in
      if s.done
      then returns (s.state, replies, none)
      else (delay_at s.retry delays >>= λ x. returns (s.state, replies, some x))
