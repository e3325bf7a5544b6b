-- ===== src/Logger.antt =====
-- logzer/logzer.go: the buffer of the last records. A level of zerolog is its number. `container/ring`
-- is the list of the slots from the current one on, and none of a slot is nil.
pub mod Recent
pub mod File
pub mod Writers
pub mod Kept
mod Tests
use tcg.Common.{
  ℕ, zero, suc, Bool, true, false, Option, none, some, List, [], ◌∷◌, ◌++◌, ℤ, pos, negsuc, ltb_ℤ,
  Bytes, Outcome, returns, panics, ◌>>=◌, if◌then◌else◌,
}

abbrev pub Level : Type 0
Level = ℤ

pub record LogRecord : Type 0 where
  pub buf : Bytes
  pub lvl : Level

-- `done` tells whether the once has run; no slots are a nil ring.
pub record LogBuffer : Type 0 where
  pub done : Bool
  pub ring : List (Option LogRecord)
  pub level : Level
  pub size : ℤ

abbrev pub empty_slots : ℕ → List (Option LogRecord)
empty_slots zero = []
empty_slots (suc n) = none ∷ empty_slots n

-- ring.New
abbrev pub ring_new : ℤ → List (Option LogRecord)
ring_new (pos n) = empty_slots n
ring_new (negsuc n) = []

-- The values that Do finds, without the nil ones.
abbrev pub values_of : List (Option LogRecord) → List LogRecord
values_of [] = []
values_of (none ∷ slots) = values_of slots
values_of (some r ∷ slots) = r ∷ values_of slots

abbrev pub new_buffer : Level → ℤ → LogBuffer
new_buffer level size = record { done = false; ring = []; level = level; size = size }

unfoldable pub started : LogBuffer → LogBuffer
started b = elim b.done [ true ↦ b | false ↦ record b { done = true; ring = ring_new b.size } ]

unfoldable pub clear : LogBuffer → LogBuffer
unfolding started
clear b = record (started b) { ring = ring_new b.size }

unfoldable pub resize : ℤ → LogBuffer → LogBuffer
resize n b = record b { done = true; size = n; ring = ring_new n }

-- A negative capacity panics.
unfoldable pub records : LogBuffer → Outcome (LogBuffer × List LogRecord)
unfolding started
records b = elim b.size [
  | pos n ↦ returns (started b, values_of (started b).ring)
  | negsuc n ↦ panics
]

-- The value of the current slot, and the next slot is the current one.
unfoldable pub put_record : LogRecord → List (Option LogRecord) → LogBuffer → Outcome LogBuffer
put_record r [] b = panics
put_record r (x ∷ slots) b = returns (record b { ring = slots ++ some r ∷ [] })

unfoldable pub write_level : Level → Bytes → LogBuffer → Outcome LogBuffer
unfolding started put_record
write_level lvl p b =
    if ltb_ℤ lvl b.level
    then returns (started b)
    else put_record (record { buf = p; lvl = lvl }) (started b).ring (started b)

-- The calls of the buffer, in an order.
pub data Op : Type 0 where
  write_op : Level → Bytes → Op
  clear_op : Op
  resize_op : ℤ → Op
  read_op : Op

abbrev pub without_records : LogBuffer × List LogRecord → Outcome LogBuffer
without_records r = returns (r.0)

unfoldable pub apply : Op → LogBuffer → Outcome LogBuffer
unfolding write_level clear resize records
apply (write_op lvl p) b = write_level lvl p b
apply clear_op b = returns (clear b)
apply (resize_op n) b = returns (resize n b)
apply read_op b = records b >>= without_records

unfoldable pub run : List Op → LogBuffer → Outcome LogBuffer
unfolding apply
run [] b = returns b
run (op ∷ ops) b = apply op b >>= λ c. run ops c
