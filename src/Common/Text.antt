-- ===== src/Common/Text.antt =====
-- Functions of Go's strings: EqualFold, and ToUpper before a comparison, against upper-case ASCII text,
-- then prefixes, suffixes, trimming, replacement and sort.Strings.
use Prim.Native.Nat.{ℕ, zero, suc, ◌-◌}
use Prim.Native.String.{String, [], ◌∷◌, ◌++◌, len, slice}
use text.Mathlib.Text.{◌==◌ as str_eq}
use Prim.Native.Char.{code}
use mathlib.Core.Bool.{Bool, true, false, ◌&&◌, ◌||◌}
use mathlib.Core.List.{List, [] as empty, ◌∷◌ as ◌after◌}
use tcg.Common.Tests.{leb, ◌==◌, if◌then◌else◌}

-- U+017F folds to S and U+212A to K; other letters outside ASCII fold to none of its letters.
abbrev fold : ℕ → ℕ
fold n =
    if n == 383 then 83 else if n == 8490 then 75 else if leb 97 n && leb n 122 then n - 32 else n

unfoldable pub equal_fold : String → String → Bool
equal_fold [] [] = true
equal_fold [] (d ∷ t) = false
equal_fold (c ∷ s) [] = false
equal_fold (c ∷ s) (d ∷ t) = (fold (code c) == fold (code d)) && equal_fold s t

-- strings.HasPrefix, and strings.Contains.
unfoldable pub has_prefix : String → String → Bool
has_prefix s [] = true
has_prefix [] (d ∷ p) = false
has_prefix (c ∷ s) (d ∷ p) = (code c == code d) && has_prefix s p

unfoldable pub contains : String → String → Bool
unfolding has_prefix
contains [] sub = has_prefix [] sub
contains (c ∷ s) sub = has_prefix (c ∷ s) sub || contains s sub

-- strings.HasSuffix.
unfoldable pub has_suffix : String → String → Bool
has_suffix [] suffix = str_eq [] suffix
has_suffix (c ∷ s) suffix = str_eq (c ∷ s) suffix || has_suffix s suffix

-- strings.TrimLeft and strings.TrimRight of one character, given by its code.
unfoldable pub trim_left_of : ℕ → String → String
trim_left_of k [] = []
trim_left_of k (c ∷ s) = let rest = trim_left_of k s in if code c == k then rest else c ∷ s

unfoldable pub trim_right_of : ℕ → String → String
trim_right_of k [] = []
trim_right_of k (c ∷ s) =
    let rest = trim_right_of k s in if str_eq rest "" && (code c == k) then "" else c ∷ rest

-- strings.TrimSuffix, of a suffix that is not empty.
unfoldable pub trim_suffix : String → String → String
trim_suffix [] suffix = []
trim_suffix (c ∷ s) suffix =
    let rest = trim_suffix s suffix in if str_eq (c ∷ s) suffix then "" else c ∷ rest

-- strings.TrimPrefix.
unfoldable pub trim_prefix : String → String → String
unfolding has_prefix
trim_prefix s prefix = if has_prefix s prefix then slice s (len prefix) (len s) else s

-- strings.ReplaceAll of a text that is not empty: `skip` counts what an occurrence still covers.
unfoldable pub replace_from : String → String → ℕ → String → String
unfolding has_prefix
replace_from old new skip [] = []
replace_from old new (suc skip) (c ∷ s) = replace_from old new skip s
replace_from old new zero (c ∷ s) =
    let found = has_prefix (c ∷ s) old in
    let rest = replace_from old new (if found then len old - 1 else 0) s in
    if found then new ++ rest else c ∷ rest

unfoldable pub replace_all : String → String → String → String
unfolding replace_from
replace_all s old new = replace_from old new 0 s

-- sort.Strings: texts are compared by their bytes, whose order is that of the characters.
unfoldable pub leb_text : String → String → Bool
leb_text [] t = true
leb_text (c ∷ s) [] = false
leb_text (c ∷ s) (d ∷ t) =
    let rest = leb_text s t in if code c == code d then rest else leb (code c) (code d)

unfoldable pub insert_text : String → List String → List String
unfolding leb_text
insert_text x empty = x after empty
insert_text x (y after ys) =
    let rest = insert_text x ys in if leb_text x y then x after (y after ys) else y after rest

unfoldable pub sort_texts : List String → List String
unfolding insert_text
sort_texts empty = empty
sort_texts (x after xs) = insert_text x (sort_texts xs)
