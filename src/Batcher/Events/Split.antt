-- ===== src/Batcher/Events/Split.antt =====
-- The parts into which xxl2qq of batcher/events/events.go cuts an oversized payload.
use mathlib.Core.List.{append-nil, append_assoc}
use native.Mathlib.Nat.{zero-add}
use tcg.Common.{
  ℕ, zero, suc, ◌+◌, ◌-◌, ◌≤◌, ◌<◌, ◌≡◌, refl, sym, ap, subst, ◌∙◌, inl, inr, true, List, [], ◌∷◌,
  ◌++◌, arith, length, slice, drop, ltb, ltb→lt, ltb→le, le→ltb, All, Bool-cases, take-append-drop,
  drop-add, drop_all, take_all, length-take, length-drop,
}
use tcg.Transit.Events.{GroundworkEvent, EventsRequest}
use tcg.Batcher.Events.{split_loop, split}

-- The events of a list of requests, in order.
abbrev pub all_events : List EventsRequest → List GroundworkEvent
all_events [] = []
all_events (q ∷ qs) = q.events ++ all_events qs

pub all_events-append :
    (xs ys : List EventsRequest) → all_events (xs ++ ys) ≡ all_events xs ++ all_events ys
all_events-append [] ys = refl
all_events-append (x ∷ xs) ys =
    ap (λ zs. x.events ++ zs) (all_events-append xs ys) ∙ sym (append_assoc x.events _ _)

-- A part that ends before the list does, and what follows it.
slice-append-drop :
    (i lim : ℕ) (xs : List GroundworkEvent) → slice i (i + lim) xs ++ drop (i + lim) xs ≡ drop i xs
slice-append-drop i lim xs = rw (drop-add i lim xs, span) (take-append-drop lim (drop i xs))
  where
    span : i + lim - i ≡ lim
    span = omega arith

-- The last part.
slice_last :
    (i lim : ℕ) (xs : List GroundworkEvent)
    → length xs ≤ i + lim
    → slice i (length xs) xs ≡ drop i xs
slice_last i lim xs h = take_all (length xs - i) (drop i xs) (omega (arith, length-drop i xs))

past : {i j : ℕ} → ltb i j ≡ true → i < j
past {i} {j} h = ltb→lt i j h

-- Past the end the loop stops.
split_loop_past :
    (fuel lim i j : ℕ) (xs : List GroundworkEvent) → length xs ≤ i → split_loop fuel lim i j xs ≡ []
unfolding split_loop
split_loop_past zero lim i j xs h = refl
split_loop_past (suc fuel) lim i j xs h = rw (le→ltb i (length xs) h)

split_loop-all :
    (fuel lim i : ℕ) (xs : List GroundworkEvent)
    → 0 < lim
    → length xs < fuel + i
    → all_events (split_loop fuel lim i (i + lim) xs) ≡ drop i xs
unfolding split_loop
split_loop-all zero lim i xs h k = sym (drop_all i xs (omega arith))
split_loop-all (suc fuel) lim i xs h k = elim (Bool-cases (ltb i (length xs))) [
  | inr done ↦ rw done (sym (drop_all i xs (ltb→le i (length xs) done)))
  | inl more ↦ rw more (elim (Bool-cases (ltb (length xs) (i + lim))) [
    | inr inside ↦ rw inside (
        ap (λ zs. slice i (i + lim) xs ++ zs)
          (split_loop-all fuel lim (i + lim) xs h (omega (arith, ltb→lt i (length xs) more)))
        ∙ slice-append-drop i lim xs)
    | inl last ↦
        rw
          (
            last,
            split_loop_past fuel lim (i + lim) (length xs + lim) xs (omega (arith, past last)),
            append-nil,
          )
          (slice_last i lim xs (omega (arith, past last)))
  ])
]

-- The parts of an oversized payload, put together, are its events in their order.
pub all_events-split :
    (lim : ℕ) (events : List GroundworkEvent) → 0 < lim → all_events (split lim events) ≡ events
unfolding split
all_events-split lim events h =
    ap (λ k. all_events (split_loop (suc (length events)) lim 0 k events)) (sym (zero-add lim))
    ∙ split_loop-all (suc (length events)) lim 0 events h (omega arith)

-- A part has at least one event and at most `lim`.
abbrev pub IsPart : ℕ → EventsRequest → Type 0
IsPart lim q = (0 < length q.events) × (length q.events ≤ lim)

length-slice : (i j : ℕ) (xs : List GroundworkEvent) → j ≤ length xs → length (slice i j xs) ≡ j - i
length-slice i j xs h = omega (arith, length-take (j - i) (drop i xs), length-drop i xs)

split_loop-IsPart :
    (fuel lim i : ℕ) (xs : List GroundworkEvent)
    → 0 < lim
    → All (IsPart lim) (split_loop fuel lim i (i + lim) xs)
unfolding split_loop
split_loop-IsPart zero lim i xs h = tt
split_loop-IsPart (suc fuel) lim i xs h = elim (Bool-cases (ltb i (length xs))) [
  | inr done ↦ rw done tt
  | inl more ↦ rw more (elim (Bool-cases (ltb (length xs) (i + lim))) [
    | inr inside ↦
        let n = length-slice i (i + lim) xs (ltb→le (length xs) (i + lim) inside) in
        rw inside ((omega arith, omega arith), split_loop-IsPart fuel lim (i + lim) xs h)
    | inl last ↦
        let n = length-slice i (length xs) xs (omega arith) in
        rw
          (last, split_loop_past fuel lim (i + lim) (length xs + lim) xs (omega (arith, past last)))
          ((omega (arith, past more), omega (arith, past more, past last)), tt)
  ])
]

-- Each part of an oversized payload has an event, and at most as many as the limit.
pub split-IsPart :
    (lim : ℕ) (events : List GroundworkEvent) → 0 < lim → All (IsPart lim) (split lim events)
unfolding split
split-IsPart lim events h =
    subst (λ k. All (IsPart lim) (split_loop (suc (length events)) lim 0 k events)) (zero-add lim)
      (split_loop-IsPart (suc (length events)) lim 0 events h)
