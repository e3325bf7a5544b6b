-- ===== src/Batcher.antt =====
-- batcher/batcher.go. The builder is one of the two below it, or any other; the handler's calls are
-- returned in their order, its errors are only logged. Spans and statistics are left out.
pub mod Events
pub mod Metrics
pub mod Critical
pub mod Bounds
mod Tests
use tcg.Common.{
  ℕ, ◌+◌, ◌-◌, ◌^◌, Bool, true, false, List, [], ◌∷◌, ◌++◌, Outcome, returns, ◌>>=◌, Bytes, length,
  ltb, ◌==◌, if◌then◌else◌,
}

-- The ticker's period stands beside the buffer; a period of 0 means never, math.MaxInt64.
pub record Batcher : Type 0 where
  pub buf : List Bytes
  pub buf_size : ℕ
  pub max_bytes : ℕ
  pub period : ℕ
  pub running : Bool

abbrev pub period_of : ℕ → ℕ
period_of d = if d == 0 then 2 ^ 63 - 1 else d

unfoldable pub new_batcher : ℕ → ℕ → Batcher
new_batcher d max_bytes = record {
  buf = [];
  buf_size = 0;
  max_bytes = max_bytes;
  period = period_of d;
  running = true;
}

-- The section of Add under the lock.
unfoldable pub append : Bytes → Batcher → Batcher
append p bt = record bt { buf = bt.buf ++ p ∷ []; buf_size = bt.buf_size + length p }

-- The section of Batch under the lock: the buffer is taken and a new one begun.
unfoldable pub swap : Batcher → List Bytes × Batcher
swap bt = (bt.buf, record bt { buf = []; buf_size = 0 })

-- Clear
unfoldable pub clear : Batcher → Batcher
clear bt = record bt { buf = []; buf_size = 0 }

-- Empty payloads are not handed on.
unfoldable pub deliver : List Bytes → List Bytes
deliver [] = []
deliver (p ∷ ps) = if ltb 0 (length p) then p ∷ deliver ps else deliver ps

-- BatchBuilder: the limit, and the buffer that becomes another one.
abbrev pub Builder : Type 0
Builder = ℕ → List Bytes → Outcome (List Bytes)

module _ (build : Builder) where
  -- What Batch does with the buffer that it took: the payloads for which the handler is called.
  unfoldable pub process : ℕ → List Bytes → Outcome (List Bytes)
  unfolding deliver
  process max_bytes [] = returns []
  process max_bytes (p ∷ ps) = build max_bytes (p ∷ ps) >>= λ out. returns (deliver out)

  unfoldable pub batch : Batcher → Outcome (Batcher × List Bytes)
  unfolding process swap
  batch bt = let (buf, rest) = swap bt in process bt.max_bytes buf >>= λ sent. returns (rest, sent)

  unfoldable pub add : Bytes → Batcher → Outcome (Batcher × List Bytes)
  unfolding batch append
  add p bt =
      let bt' = append p bt in
      if ltb bt'.max_bytes bt'.buf_size then batch bt' else returns (bt', [])

  unfoldable pub reset : ℕ → ℕ → Batcher → Outcome (Batcher × List Bytes)
  unfolding batch
  reset d max_bytes bt =
      batch bt >>= λ r. returns (record (r.0) { max_bytes = max_bytes; period = period_of d }, r.1)

  -- The goroutine of NewBatcher: one signal of the ticker, or of Exit, after which it returns.
  pub data Signal : Type 0 where
    tick exit : Signal

  unfoldable pub handle_signal : Signal → Batcher → Outcome (Batcher × List Bytes)
  unfolding batch
  handle_signal sig bt = elim bt.running [
    | false ↦ returns (bt, [])
    | true ↦ elim sig [
      | tick ↦ batch bt
      | exit ↦ (batch bt >>= λ r. returns (record (r.0) { running = false }, r.1))
    ]
  ]
