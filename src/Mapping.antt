-- ===== src/Mapping.antt =====
-- sdk/mapping/mapping.go. Go's regexp is a parameter: what FindAllStringSubmatchIndex finds, in its
-- order, nothing for nil, and the text that ExpandString appends for a match. A pattern that was not
-- compiled is a nil pointer, and reading it panics.
pub mod Compiled
pub mod Sequence
mod Tests
use Prim.Native.String.{[] as empty, ◌∷◌ as after, ◌++◌ as join}
use Prim.Native.Char.{code}
use tcg.Common.{
  ℕ, ◌+◌, Bool, true, false, ◌&&◌, ◌||◌, ◌⊎◌, inl, inr, Option, none, some, List, [], ◌∷◌, ◌++◌,
  String, Outcome, returns, panics, deref, ◌>>=◌, Dict, lookup, str_eq, leb, ◌==◌, if◌then◌else◌,
}

pub data Error : Type 0 where
  missed_tag mismatched_tag : Error
  compile_error : ℕ → Error

-- strings.Split at the comma, and strings.TrimSpace.
abbrev prefix_first : String → List String → List String
prefix_first c [] = c ∷ []
prefix_first c (s ∷ ss) = join c s ∷ ss

unfoldable pub split_comma : String → List String
split_comma empty = "" ∷ []
split_comma (after c s) =
    let rest = split_comma s in
    if code c == 44 then "" ∷ rest else prefix_first (after c empty) rest

abbrev is_space : ℕ → Bool
is_space n =
    ((leb 9 n && leb n 13) || (n == 32 || n == 133))
    || ((n == 160 || n == 5760) || ((leb 8192 n && leb n 8202) || (n == 8232 || n == 8233)))
    || (n == 8239 || (n == 8287 || n == 12288))

unfoldable pub trim_left : String → String
trim_left empty = empty
trim_left (after c s) = let rest = trim_left s in if is_space (code c) then rest else after c s

-- The spaces at the end are dropped where nothing else follows.
unfoldable pub trim_right : String → String
trim_right empty = empty
trim_right (after c s) =
    let rest = trim_right s in if is_space (code c) && str_eq rest "" then empty else after c rest

unfoldable pub trim_space : String → String
unfolding trim_left trim_right
trim_space s = trim_right (trim_left s)

unfoldable pub join_comma : List String → String
join_comma [] = ""
join_comma (s ∷ []) = s
join_comma (s ∷ t ∷ ts) = join s (join "," (join_comma (t ∷ ts)))

abbrev pub or_mismatch : Option String → Error ⊎ String
or_mismatch none = inl mismatched_tag
or_mismatch (some s) = inr s

-- The values of all the keys, if all are there.
unfoldable pub values : List String → Dict String → Option (List String)
unfolding trim_space
values [] tags = some []
values (k ∷ ks) tags =
    let rest = values ks tags in
    elim (lookup (trim_space k) tags) [
      | none ↦ none
      | some v ↦ elim rest [ none ↦ none | some vs ↦ some (v ∷ vs) ]
    ]

abbrev pub verdict : Bool → Bool → Error ⊎ String
verdict mismatched empty_list =
    if mismatched then inl mismatched_tag else if empty_list then inr "" else inl missed_tag

module _ (Pattern Match : Type 0) where
  pub record Regexp : Type 0 where
    pub compile : String → Option Pattern
    pub find_all : Pattern → String → List Match
    pub expand : Pattern → String → String → Match → String

  pub record Mapping : Type 0 where
    pub tag : String
    pub matcher : String
    pub template : String
    pub compiled : Option Pattern

module _ {Pattern Match : Type 0} (re : Regexp Pattern Match) where
  -- NewMapping: nil if the matcher does not compile.
  unfoldable pub new_mapping : String → String → String → Option (Mapping Pattern Match)
  new_mapping tag matcher template = elim (re.compile matcher) [
    | none ↦ none
    | some p ↦
        some (record { tag = tag; matcher = matcher; template = template; compiled = some p })
  ]

  -- Mappings.Compile, on the mappings from place `i` on: those before an error are compiled.
  unfoldable pub compile_from :
      ℕ → List (Mapping Pattern Match) → List (Mapping Pattern Match) × Option Error
  compile_from i [] = ([], none)
  compile_from i (m ∷ ms) =
      let (ns, e) = compile_from (i + 1) ms in
      elim (re.compile m.matcher) [
        | none ↦ (m ∷ ms, some (compile_error i))
        | some p ↦ (record m { compiled = some p } ∷ ns, e)
      ]

  -- The template expanded for every match, in order.
  unfoldable pub expand_all : Pattern → String → String → List Match → String
  expand_all p template content [] = ""
  expand_all p template content (x ∷ xs) =
      join (re.expand p template content x) (expand_all p template content xs)

  -- The result of one mapping on its content, as Apply and ApplyOR compute it.
  unfoldable pub matched : Mapping Pattern Match → String → Outcome (Option String)
  unfolding expand_all
  matched m content = do
    p ← deref m.compiled
    elim (re.find_all p content) [
      | [] ↦ returns none
      | x ∷ xs ↦ returns (some (expand_all p m.template content (x ∷ xs)))
    ]

  -- One round of the loop of Apply: what it appends.
  unfoldable pub apply_one : Mapping Pattern Match → Dict String → Outcome (Error ⊎ String)
  unfolding matched
  apply_one m tags =
      if str_eq m.tag "" then returns (inr m.template) else elim (lookup m.tag tags) [
        | none ↦ returns (inl missed_tag)
        | some content ↦ (matched m content >>= λ r. returns (or_mismatch r))
      ]

  -- Mappings.Apply, from the given result on.
  unfoldable pub apply :
      String → List (Mapping Pattern Match) → Dict String → Outcome (Error ⊎ String)
  unfolding apply_one
  apply result [] tags = returns (inr result)
  apply result (m ∷ ms) tags = apply_one m tags >>= λ r. elim r [
    | inl e ↦ returns (inl e)
    | inr s ↦ apply (join result s) ms tags
  ]

  -- The loop of Mappings.ApplyOR; the second flag tells whether there is no mapping at all.
  unfoldable pub apply_or_from :
      Bool → Bool → List (Mapping Pattern Match) → Dict String → Outcome (Error ⊎ String)
  unfolding values split_comma join_comma matched
  apply_or_from mismatched no_mapping [] tags = returns (verdict mismatched no_mapping)
  apply_or_from mismatched no_mapping (m ∷ ms) tags =
      if str_eq m.tag "" then returns (inr m.template) else elim (values (split_comma m.tag) tags) [
        | none ↦ apply_or_from mismatched false ms tags
        | some vs ↦
            (matched m (join_comma vs) >>= λ r. elim r [
              | none ↦ apply_or_from true false ms tags
              | some s ↦ returns (inr s)
            ])
      ]

  unfoldable pub apply_or : List (Mapping Pattern Match) → Dict String → Outcome (Error ⊎ String)
  unfolding apply_or_from
  apply_or ms tags = apply_or_from false true ms tags

  unfoldable pub match_any : String → List (Mapping Pattern Match) → Outcome Bool
  match_any s [] = returns false
  match_any s (m ∷ ms) = do
    p ← deref m.compiled
    elim (re.find_all p s) [ [] ↦ match_any s ms | _ ∷ _ ↦ returns true ]

  -- Mappings.MatchString
  unfoldable pub match_string : String → List (Mapping Pattern Match) → Outcome Bool
  unfolding match_any
  match_string s [] = returns true
  match_string s (m ∷ ms) = match_any s (m ∷ ms)
