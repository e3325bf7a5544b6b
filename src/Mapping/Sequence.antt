-- ===== src/Mapping/Sequence.antt =====
-- sdk/mapping/mapping.go: Apply on several mappings, and ApplyOR on one.
use Prim.Native.String.{◌++◌ as join}
use text.Mathlib.TextLemmas.{nil-append}
use tcg.Common.{
  ◌≡◌, refl, sym, ap, ◌∙◌, inl, inr, ◌⊎◌, true, false, Option, none, some, List, [], ◌∷◌, ◌++◌,
  String, Outcome, returns, panics, ◌>>=◌, Dict, lookup, str_eq, Bool-cases, Option-cases,
}
use tcg.Mapping.{
  Error, Regexp, Mapping, apply, apply_one, apply_or, apply_or_from, values, split_comma,
  trim_space, join_comma, matched, or_mismatch, verdict,
}

module _ {Pattern Match : Type 0} (re : Regexp Pattern Match) where
  -- What Apply does after some mappings: it stops at an error, and else goes on from the result.
  abbrev pub continue :
      List (Mapping Pattern Match) → Dict String → Error ⊎ String → Outcome (Error ⊎ String)
  continue ms tags (inl e) = returns (inl e)
  continue ms tags (inr s) = apply re s ms tags

  append-step :
      (ms ns : List (Mapping Pattern Match)) (result : String) (tags : Dict String)
      (o : Outcome (Error ⊎ String))
      → ((s : String)
          → apply re (join result s) (ms ++ ns) tags
            ≡ (apply re (join result s) ms tags >>= continue ns tags))
      → (o >>= λ r. elim r [
        | inl e ↦ returns (inl e)
        | inr s ↦ apply re (join result s) (ms ++ ns) tags
      ])
        ≡ (o
            >>= (λ r. elim r [ inl e ↦ returns (inl e) | inr s ↦ apply re (join result s) ms tags ])
            >>= continue ns tags)
  append-step ms ns result tags panics k = refl
  append-step ms ns result tags (returns (inl e)) k = refl
  append-step ms ns result tags (returns (inr s)) k = k s

  -- Apply on two lists of mappings, put together, is Apply on the second after Apply on the first.
  pub apply-append :
      (ms ns : List (Mapping Pattern Match)) (result : String) (tags : Dict String)
      → apply re result (ms ++ ns) tags ≡ (apply re result ms tags >>= continue ns tags)
  unfolding apply
  apply-append [] ns result tags = refl
  apply-append (m ∷ ms) ns result tags =
      append-step ms ns result tags (apply_one re m tags)
        (λ s. apply-append ms ns (join result s) tags)

  agree :
      (o : Outcome (Option String))
      → (o >>= λ r. elim r [ none ↦ returns (verdict true false) | some s ↦ returns (inr s) ]) ≡ (
          o >>= (λ r. returns (or_mismatch r)) >>= λ r. elim r [
            | inl e ↦ returns (inl e)
            | inr s ↦ returns (inr (join "" s))
          ])
  agree panics = refl
  agree (returns none) = refl
  agree (returns (some s)) = ap (λ (t : String). returns (inr t)) (sym (nil-append s))

  values_one :
      (tag : String) (tags : Dict String)
      → split_comma tag ≡ tag ∷ []
      → trim_space tag ≡ tag
      → values (split_comma tag) tags
        ≡ elim (lookup tag tags) [ none ↦ none | some v ↦ some (v ∷ []) ]
  values_one tag tags one trimmed =
      ap (λ ks. values ks tags) one
      ∙ (unfold values in
          ap
            (λ k. elim (lookup k tags) as (λ _. Option (List String)) [
              | none ↦ none
              | some v ↦ some (v ∷ [])
            ])
            trimmed)

  -- On one mapping whose tag has no comma and no space around it, ApplyOR does what Apply does.
  pub apply_or-apply :
      (m : Mapping Pattern Match) (tags : Dict String)
      → split_comma m.tag ≡ m.tag ∷ []
      → trim_space m.tag ≡ m.tag
      → apply_or re (m ∷ []) tags ≡ apply re "" (m ∷ []) tags
  apply_or-apply m tags one trimmed =
      unfold apply_or apply_or_from apply apply_one in
      rw (values_one m.tag tags one trimmed) (elim (Bool-cases (str_eq m.tag "")) [
        | inl e ↦ rw e (ap (λ (t : String). returns (inr t)) (sym (nil-append m.template)))
        | inr e ↦ rw e (elim (Option-cases (lookup m.tag tags)) [
          | inl n ↦ rw n refl
          | inr (v, f) ↦ rw f (unfold join_comma in agree (matched re m v))
        ])
      ])
