-- ===== src/Connectors/Sanitized.antt =====
-- connectors/connectors.go, SanitizeString: what a sanitized text looks like.
use Prim.Native.String.{[] as empty, ◌∷◌ as after}
use Prim.Native.Char.{Char, code}
use tcg.Common.{
  ◌≡◌, refl, sym, ap, subst, ◌∙◌, inl, inr, Bool, true, false, not, ◌&&◌, String, returns, arith,
  ◌==◌, Bool-cases, if-either, if◌then◌else◌,
}
use tcg.Connectors.Build.{
  is_clean, underscore, has_no_text, clean, remove_underscore_duplicates, trim_underscore,
  drop_last_underscore, sanitize_string,
}

-- Every character is an ASCII letter, a digit or one of - _ . :
abbrev pub all_clean : String → Bool
all_clean empty = true
all_clean (after c s) = is_clean (code c) && all_clean s

-- No underscore follows another; `last` tells whether one stands before the text.
abbrev pub no_doubles : Bool → String → Bool
no_doubles last empty = true
no_doubles last (after c s) = not (last && code c == 95) && no_doubles (code c == 95) s

abbrev pub ends_in_underscore : String → Bool
ends_in_underscore empty = false
ends_in_underscore (after c s) = if has_no_text s then code c == 95 else ends_in_underscore s

is_clean_underscore : is_clean 95 ≡ true
unfolding is_clean
is_clean_underscore = refl

left_of : (a b : Bool) → (a && b) ≡ true → a ≡ true
left_of a b h = ground arith

right_of : (a b : Bool) → (a && b) ≡ true → b ≡ true
right_of a b h = ground arith

nand : (a b : Bool) → not (a && b) ≡ true → b ≡ true → a ≡ false
nand a b h k = ground arith

and_true : (a b : Bool) → a ≡ true → b ≡ true → (a && b) ≡ true
and_true a b h k = ground arith

all_clean-clean : (s : String) → all_clean (clean s) ≡ true
unfolding clean
all_clean-clean empty = refl
all_clean-clean (after c s) = elim (Bool-cases (is_clean (code c))) [
  | inl e ↦ rw (e, clean) (and_true (is_clean (code c)) (all_clean (clean s)) e (all_clean-clean s))
  | inr e ↦
      rw (e, clean)
        (and_true (is_clean 95) (all_clean (clean s)) is_clean_underscore (all_clean-clean s))
]

remove-all_clean :
    (last : Bool) (s : String)
    → all_clean s ≡ true
    → all_clean (remove_underscore_duplicates last s) ≡ true
unfolding remove_underscore_duplicates
remove-all_clean last empty h = refl
remove-all_clean last (after c s) h =
    let rest = remove-all_clean (code c == 95) s (right_of (is_clean (code c)) (all_clean s) h) in
    if-either (λ t. all_clean t ≡ true) (last && code c == 95)
      (remove_underscore_duplicates (code c == 95) s)
      (after c (remove_underscore_duplicates (code c == 95) s)) rest
      (and_true (is_clean (code c)) _ (left_of (is_clean (code c)) (all_clean s) h) rest)

remove-no_doubles :
    (last : Bool) (s : String) → no_doubles last (remove_underscore_duplicates last s) ≡ true
unfolding remove_underscore_duplicates
remove-no_doubles last empty = refl
remove-no_doubles last (after c s) = elim (Bool-cases (last && code c == 95)) [
  | inl e ↦
      rw (e, remove_underscore_duplicates)
        (subst (λ b. no_doubles b (remove_underscore_duplicates (code c == 95) s) ≡ true)
          (right_of last (code c == 95) e ∙ sym (left_of last (code c == 95) e))
          (remove-no_doubles (code c == 95) s))
  | inr e ↦
      rw (e, remove_underscore_duplicates)
        (and_true (not (last && code c == 95)) _ (ap not e) (remove-no_doubles (code c == 95) s))
]

trim-all_clean : (s : String) → all_clean s ≡ true → all_clean (trim_underscore s) ≡ true
unfolding trim_underscore
trim-all_clean empty h = refl
trim-all_clean (after c s) h =
    if-either (λ t. all_clean t ≡ true) (has_no_text s && code c == 95) empty
      (after c (trim_underscore s)) refl
      (and_true (is_clean (code c)) _ (left_of (is_clean (code c)) (all_clean s) h)
        (trim-all_clean s (right_of (is_clean (code c)) (all_clean s) h)))

trim-no_doubles :
    (last : Bool) (s : String)
    → no_doubles last s ≡ true
    → no_doubles last (trim_underscore s) ≡ true
unfolding trim_underscore
trim-no_doubles last empty h = refl
trim-no_doubles last (after c s) h =
    if-either (λ t. no_doubles last t ≡ true) (has_no_text s && code c == 95) empty
      (after c (trim_underscore s)) refl
      (and_true (not (last && code c == 95)) _ (left_of _ _ h)
        (trim-no_doubles (code c == 95) s (right_of (not (last && code c == 95)) _ h)))

trim-ends :
    (last : Bool) (s : String)
    → no_doubles last s ≡ true
    → ends_in_underscore (trim_underscore s) ≡ false
unfolding trim_underscore
trim-ends last empty h = refl
trim-ends last (after c empty) h = elim (Bool-cases (code c == 95)) [
  | inl e ↦ rw (e, trim_underscore) refl
  | inr e ↦ rw (e, trim_underscore) e
]
trim-ends last (after c (after d s)) h = elim (Bool-cases (has_no_text s && code d == 95)) [
  | inl e ↦
      rw (e, trim_underscore)
        (nand (code c == 95) (code d == 95)
          (left_of _ _ (right_of (not (last && code c == 95)) _ h))
          (right_of (has_no_text s) (code d == 95) e))
  | inr e ↦
      rw (e, trim_underscore)
        (rw (e, trim_underscore) at
          (trim-ends (code c == 95) (after d s) (right_of (not (last && code c == 95)) _ h)))
]

-- Of a text that is not empty SanitizeString returns one of clean characters, without two
-- underscores in a row, that does not end in one.
pub sanitize_string_lem :
    (s : String)
    → has_no_text s ≡ false
    → (r : String) × (sanitize_string s ≡ returns r)
      × (all_clean r ≡ true)
      × (no_doubles false r ≡ true)
      × (ends_in_underscore r ≡ false)
unfolding sanitize_string drop_last_underscore clean remove_underscore_duplicates
sanitize_string_lem empty h = cc
sanitize_string_lem (after c s) h =
    let text = remove_underscore_duplicates false (clean (after c s)) in
    let doubles = remove-no_doubles false (clean (after c s)) in
    (
      trim_underscore text,
      rw (starts_lem c s) refl,
      trim-all_clean text
          (remove-all_clean false (clean (after c s)) (all_clean-clean (after c s))),
      trim-no_doubles false text doubles,
      trim-ends false text doubles,
    )
  where
    starts_lem :
        (c : Char) (s : String)
        → has_no_text (remove_underscore_duplicates false (clean (after c s))) ≡ false
    starts_lem c s =
        if-either (λ t. has_no_text (remove_underscore_duplicates false t) ≡ false)
          (is_clean (code c)) (after c (clean s)) (after underscore (clean s)) refl refl
