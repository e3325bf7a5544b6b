-- ===== src/Logger/Recent.antt =====
-- logzer/logzer.go, LogBuffer: the records that a reader finds, against the whole history.
use tcg.Common.{
  ℕ, zero, suc, ◌+◌, ◌-◌, ◌≤◌, ◌<◌, ◌≡◌, refl, ap, sym, ◌∙◌, subst, Bool, true, false, Bool-cases,
  inl, inr, Option, some, List, [], ◌∷◌, ◌++◌, map, ℤ, pos, negsuc, ltb_ℤ, Bytes, All, length, drop,
  arith, length-append, returns, ◌>>=◌, if◌then◌else◌,
}
use mathlib.Core.List.{append_assoc, append-nil, map-append}
use tcg.Logger.{
  Level, LogRecord, LogBuffer, empty_slots, values_of, new_buffer, started, clear, resize, records,
  put_record, write_level, Op, write_op, clear_op, resize_op, read_op, apply, run,
}

-- What a buffer promises: the last `size` of the records kept since it was last emptied.
pub record History : Type 0 where
  pub size : ℕ
  pub kept : List LogRecord

unfoldable pub note : Level → Op → History → History
note level (write_op lvl p) h =
    if ltb_ℤ lvl level
    then h
    else record h { kept = h.kept ++ (record { buf = p; lvl = lvl }) ∷ [] }
note level clear_op h = record h { kept = [] }
note level (resize_op (pos n)) h = record { size = n; kept = [] }
note level (resize_op (negsuc n)) h = h
note level read_op h = h

unfoldable pub noted : Level → List Op → History → History
unfolding note
noted level [] h = h
noted level (op ∷ ops) h = noted level ops (note level op h)

abbrev pub recent : History → List LogRecord
recent h = drop (length h.kept - h.size) h.kept

-- The calls whose size is positive.
abbrev pub HasSize : Op → Type 0
HasSize (resize_op (pos (suc n))) = Unit
HasSize (resize_op _) = ⊥
HasSize _ = Unit

abbrev pub window : ℕ → List LogRecord → List (Option LogRecord)
window n h = drop (length h) (empty_slots n ++ map some h)

length-empty_slots : (n : ℕ) → length (empty_slots n) ≡ n
length-empty_slots zero = refl
length-empty_slots (suc n) = ap suc (length-empty_slots n)

length-map-some : (h : List LogRecord) → length (map (λ r. some r) h) ≡ length h
length-map-some [] = refl
length-map-some (r ∷ h) = ap suc (length-map-some h)

drop_cons :
    (k : ℕ) (xs : List (Option LogRecord))
    → k < length xs
    → (x : Option LogRecord) × (drop k xs ≡ x ∷ drop (suc k) xs)
drop_cons zero [] h = absurd (omega arith)
drop_cons zero (x ∷ xs) h = (x, refl)
drop_cons (suc k) [] h = absurd (omega arith)
drop_cons (suc k) (x ∷ xs) h = drop_cons k xs (omega arith)

drop-append_le :
    (k : ℕ) (xs ys : List (Option LogRecord)) → k ≤ length xs → drop k (xs ++ ys) ≡ drop k xs ++ ys
drop-append_le zero xs ys h = refl
drop-append_le (suc k) [] ys h = absurd (omega arith)
drop-append_le (suc k) (x ∷ xs) ys h = drop-append_le k xs ys (omega arith)

values_of_all : (h : List LogRecord) → values_of (map some h) ≡ h
values_of_all [] = refl
values_of_all (r ∷ h) = ap (◌∷◌ r) (values_of_all h)

values_of_slots :
    (n : ℕ) (xs : List (Option LogRecord)) → values_of (empty_slots n ++ xs) ≡ values_of xs
values_of_slots zero xs = refl
values_of_slots (suc n) xs = values_of_slots n xs

values-drop_all : (k : ℕ) (h : List LogRecord) → values_of (drop k (map some h)) ≡ drop k h
values-drop_all zero h = values_of_all h
values-drop_all (suc k) [] = refl
values-drop_all (suc k) (r ∷ h) = values-drop_all k h

values-drop :
    (k n : ℕ) (h : List LogRecord)
    → values_of (drop k (empty_slots n ++ map some h)) ≡ drop (k - n) h
values-drop zero n h =
    let e : zero ≡ 0 - n = omega arith in
    values_of_slots n (map some h) ∙ values_of_all h ∙ ap (λ j. drop j h) e
values-drop (suc k) zero h =
    let e : suc k ≡ suc k - zero = omega arith in values-drop_all (suc k) h ∙ ap (λ j. drop j h) e
values-drop (suc k) (suc n) h =
    let e : k - n ≡ suc k - suc n = omega arith in values-drop k n h ∙ ap (λ j. drop j h) e

length_slots : (n : ℕ) (h : List LogRecord) → length (empty_slots n ++ map some h) ≡ n + length h
length_slots n h =
    length-append (empty_slots n) (map some h) ∙ rw (length-empty_slots, length-map-some) refl

window_grown :
    (m : ℕ) (h : List LogRecord) (r : LogRecord)
    → drop (suc (length h)) (empty_slots (suc m) ++ map some h) ++ some r ∷ []
      ≡ window (suc m) (h ++ r ∷ [])
window_grown m h r =
    let slots = empty_slots (suc m) in
    let l : suc (length h) ≡ length (h ++ r ∷ []) = omega (arith, length-append h (r ∷ [])) in
    sym (
      drop-append_le (suc (length h)) (slots ++ map some h) (some r ∷ [])
        (omega (arith, length_slots (suc m) h)))
    ∙ ap (drop (suc (length h))) (
        append_assoc slots (map some h) (some r ∷ [])
        ∙ ap (◌++◌ slots) (sym (map-append some h (r ∷ []))))
    ∙ ap (λ k. drop k (slots ++ map some (h ++ r ∷ []))) l

put-window :
    (m : ℕ) (h : List LogRecord) (r : LogRecord) (b : LogBuffer)
    → put_record r (window (suc m) h) b ≡ returns (record b { ring = window (suc m) (h ++ r ∷ []) })
unfolding put_record
put-window m h r b =
    let (x, e) =
      drop_cons (length h) (empty_slots (suc m) ++ map some h)
        (omega (arith, length_slots (suc m) h)) in
    ap (λ l. put_record r l b) e ∙ ap (λ l. returns (record b { ring = l })) (window_grown m h r)

-- The buffer that has this history.
abbrev pub held : Level → ℕ → List LogRecord → LogBuffer
held level n kept = record { done = true; ring = window n kept; level = level; size = pos n }

abbrev pub held_history : Level → History → LogBuffer
held_history level h = held level h.size h.kept

pub window_empty : (n : ℕ) → empty_slots n ≡ window n []
window_empty n = sym (append-nil (empty_slots n))

abbrev pub emptied : (level : Level) (n : ℕ) (l : List (Option LogRecord)) → LogBuffer
emptied level n l = record { done = true; ring = l; level = level; size = pos n }

pub write_level-held :
    (level : Level) (m : ℕ) (kept : List LogRecord) (lvl : Level) (p : Bytes)
    → write_level lvl p (held level (suc m) kept)
      ≡ returns
          (held_history level (note level (write_op lvl p) (record { size = suc m; kept = kept })))
unfolding write_level note started
write_level-held level m kept lvl p = elim (Bool-cases (ltb_ℤ lvl level)) [
  | inl e ↦ rw e refl
  | inr e ↦ rw e (put-window m kept (record { buf = p; lvl = lvl }) (held level (suc m) kept))
]

apply-held :
    (level : Level) (m : ℕ) (kept : List LogRecord) (op : Op)
    → HasSize op
    → apply op (held level (suc m) kept)
      ≡ returns (held_history level (note level op (record { size = suc m; kept = kept })))
unfolding apply note clear resize records started
apply-held level m kept (write_op lvl p) h = write_level-held level m kept lvl p
apply-held level m kept clear_op h =
    ap (λ l. returns (emptied level (suc m) l)) (window_empty (suc m))
apply-held level m kept (resize_op (pos zero)) h = absurd h
apply-held level m kept (resize_op (pos (suc n))) h =
    ap (λ l. returns (emptied level (suc n) l)) (window_empty (suc n))
apply-held level m kept (resize_op (negsuc n)) h = absurd h
apply-held level m kept read_op h = refl

note_positive :
    (level : Level) (m : ℕ) (kept : List LogRecord) (op : Op)
    → HasSize op
    → (n : ℕ) × ((note level op (record { size = suc m; kept = kept })).size ≡ suc n)
unfolding note
note_positive level m kept (write_op lvl p) h = elim (Bool-cases (ltb_ℤ lvl level)) [
  | inl e ↦ (m, rw e refl)
  | inr e ↦ (m, rw e refl)
]
note_positive level m kept clear_op h = (m, refl)
note_positive level m kept (resize_op (pos zero)) h = absurd h
note_positive level m kept (resize_op (pos (suc n))) h = (n, refl)
note_positive level m kept (resize_op (negsuc n)) h = absurd h
note_positive level m kept read_op h = (m, refl)

run-held :
    (level : Level) (ops : List Op) (h : History) (m : ℕ)
    → h.size ≡ suc m
    → All HasSize ops
    → run ops (held_history level h) ≡ returns (held_history level (noted level ops h))
unfolding run noted
run-held level [] h m e s = refl
run-held level (op ∷ ops) h m e s =
    let sized : History = record { size = suc m; kept = h.kept } in
    let (n, f) = note_positive level m h.kept op (s.0) in
    subst
      (λ g.
        run (op ∷ ops) (held_history level g)
        ≡ returns (held_history level (noted level (op ∷ ops) g)))
      (sym (ap (λ k. record { size = k; kept = h.kept }) e))
      (ap (λ o. o >>= λ c. run ops c) (apply-held level m h.kept op (s.0))
        ∙ run-held level ops (note level op sized) n f (s.1))

started-held : (level : Level) (n : ℕ) → started (new_buffer level (pos n)) ≡ held level n []
unfolding started
started-held level n = ap (emptied level n) (window_empty n)

apply-started :
    (op : Op) (done : Bool) (ring : List (Option LogRecord)) (level : Level) (size : ℤ)
    → apply op (started (record { done = done; ring = ring; level = level; size = size }))
      ≡ apply op (record { done = done; ring = ring; level = level; size = size })
unfolding apply started clear resize records write_level
apply-started (write_op lvl p) true ring level size = refl
apply-started (write_op lvl p) false ring level size = refl
apply-started clear_op true ring level size = refl
apply-started clear_op false ring level size = refl
apply-started (resize_op n) true ring level size = refl
apply-started (resize_op n) false ring level size = refl
apply-started read_op true ring level size = refl
apply-started read_op false ring level (pos n) = refl
apply-started read_op false ring level (negsuc n) = refl

pub records-held :
    (level : Level) (h : History)
    → records (held_history level h) ≡ returns (held_history level h, recent h)
unfolding records started
records-held level h =
    ap (λ l. returns (held_history level h, l)) (values-drop (length h.kept) h.size h.kept)

-- After any calls whose sizes are positive, on a new buffer with a positive size, in any order: none
-- of them panics, and the records that a reader finds are the last ones, as many as the size, of those
-- of the level or above that were written since the buffer was last emptied, in their order.
pub run-recent :
    (level : Level) (n : ℕ) (op : Op) (ops : List Op)
    → All HasSize (op ∷ ops)
    → (b : LogBuffer) × (run (op ∷ ops) (new_buffer level (pos (suc n))) ≡ returns b)
      × (records b
          ≡ returns (b, recent (noted level (op ∷ ops) (record { size = suc n; kept = [] }))))
unfolding run
run-recent level n op ops s =
    let start : History = record { size = suc n; kept = [] } in
    let h = noted level (op ∷ ops) start in
    (
      held_history level h,
      ap (λ o. o >>= λ c. run ops c)
            (sym (apply-started op false [] level (pos (suc n)))
              ∙ ap (apply op) (started-held level (suc n)))
          ∙ run-held level (op ∷ ops) start n refl s,
      records-held level h,
    )
