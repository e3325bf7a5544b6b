-- ===== src/Mapping/Compiled.antt =====
-- sdk/mapping/mapping.go: mappings that Compile has compiled.
use Prim.Native.String.{◌++◌ as join}
use tcg.Common.{
  ℕ, ◌+◌, ◌≡◌, ◌≢◌, refl, sym, ap, subst, ◌∙◌, inl, inr, ◌⊎◌, Bool, true, false, Option, none, some,
  is_some, List, [], ◌∷◌, String, Outcome, returns, panics, ◌>>=◌, Dict, lookup, str_eq, arith,
  Option-cases, All, if-either,
}
use tcg.Mapping.{
  Error, Regexp, Mapping, apply, apply_one, apply_or, apply_or_from, compile_from, matched, values,
  split_comma, join_comma,
}

module _ {Pattern Match : Type 0} (re : Regexp Pattern Match) where
  abbrev IsCompiled : List (Mapping Pattern Match) → Type 0
  IsCompiled ms = All (λ (m : Mapping Pattern Match). is_some m.compiled ≡ true) ms

  compile_cons :
      (i : ℕ) (m : Mapping Pattern Match) (ms : List (Mapping Pattern Match)) (p : Pattern)
      → re.compile m.matcher ≡ some p
      → compile_from re i (m ∷ ms) ≡ (
        record m { compiled = some p } ∷ (compile_from re (i + 1) ms).0,
        (compile_from re (i + 1) ms).1,
      )
  unfolding compile_from
  compile_cons i m ms p e = rw (e, compile_from) refl

  compile_failed :
      (i : ℕ) (m : Mapping Pattern Match) (ms : List (Mapping Pattern Match))
      → re.compile m.matcher ≡ none
      → (compile_from re i (m ∷ ms)).1 ≢ none
  unfolding compile_from
  compile_failed i m ms e = ground arith

  compile_from-IsCompiled :
      (i : ℕ) (ms : List (Mapping Pattern Match))
      → (compile_from re i ms).1 ≡ none
      → IsCompiled (compile_from re i ms).0
  compile_from-IsCompiled i [] h = unfold compile_from in tt
  compile_from-IsCompiled i (m ∷ ms) h = elim (Option-cases (re.compile m.matcher)) [
    | inl e ↦ absurd (compile_failed i m ms e h)
    | inr (p, e) ↦
        let eq = compile_cons i m ms p e in
        let rest =
          compile_from-IsCompiled (i + 1) ms
            (sym (ap (λ (r : List (Mapping Pattern Match) × Option Error). r.1) eq) ∙ h) in
        subst (λ r. IsCompiled r.0) (sym eq) (refl, rest)
  ]

  matched_ne :
      (m : Mapping Pattern Match) (content : String)
      → is_some m.compiled ≡ true
      → matched re m content ≢ panics
  unfolding matched
  matched_ne m content h = ground arith

  apply_one_ne :
      (m : Mapping Pattern Match) (tags : Dict String)
      → is_some m.compiled ≡ true
      → apply_one re m tags ≢ panics
  unfolding apply_one
  apply_one_ne m tags h = elim (Option-cases (lookup m.tag tags)) [
    | inl n ↦ ground arith
    | inr (v, f) ↦ let k = matched_ne m v h in ground arith
  ]

  bind_ne :
      (o : Outcome (Error ⊎ String)) (k : String → Outcome (Error ⊎ String))
      → o ≢ panics
      → ((s : String) → k s ≢ panics)
      → (o >>= λ r. elim r [ inl e ↦ returns (inl e) | inr s ↦ k s ]) ≢ panics
  bind_ne panics k h f = λ q. h refl
  bind_ne (returns (inl e)) k h f = λ q. cc
  bind_ne (returns (inr s)) k h f = f s

  apply_ne :
      (ms : List (Mapping Pattern Match)) (result : String) (tags : Dict String)
      → IsCompiled ms
      → apply re result ms tags ≢ panics
  unfolding apply
  apply_ne [] result tags h = λ q. cc
  apply_ne (m ∷ ms) result tags h =
      bind_ne (apply_one re m tags) (λ s. apply re (join result s) ms tags)
        (apply_one_ne m tags h.0) (λ s. apply_ne ms (join result s) tags h.1)

  or_ne :
      (o : Outcome (Option String)) (next : Outcome (Error ⊎ String))
      → o ≢ panics
      → next ≢ panics
      → (o >>= λ r. elim r [ none ↦ next | some s ↦ returns (inr s) ]) ≢ panics
  or_ne panics next h k = λ q. h refl
  or_ne (returns none) next h k = k
  or_ne (returns (some s)) next h k = λ q. cc

  values_ne :
      (m : Mapping Pattern Match) (o : Option (List String))
      (missed next : Outcome (Error ⊎ String))
      → is_some m.compiled ≡ true
      → missed ≢ panics
      → next ≢ panics
      → (elim o [
        | none ↦ missed
        | some vs ↦
            (matched re m (join_comma vs) >>= λ r. elim r [
              | none ↦ next
              | some s ↦ returns (inr s)
            ])
      ])
        ≢ panics
  values_ne m none missed next h k l = k
  values_ne m (some vs) missed next h k l =
      or_ne (matched re m (join_comma vs)) next (matched_ne m (join_comma vs) h) l

  apply_or_ne :
      (a b : Bool) (ms : List (Mapping Pattern Match)) (tags : Dict String)
      → IsCompiled ms
      → apply_or_from re a b ms tags ≢ panics
  unfolding apply_or_from
  apply_or_ne a b [] tags h = λ q. cc
  apply_or_ne a b (m ∷ ms) tags h =
      if-either (λ (o : Outcome (Error ⊎ String)). o ≢ panics) (str_eq m.tag "") _ _ (λ q. cc)
        (values_ne m (values (split_comma m.tag) tags) (apply_or_from re a false ms tags)
          (apply_or_from re true false ms tags) h.0 (apply_or_ne a false ms tags h.1)
          (apply_or_ne true false ms tags h.1))

  -- After Compile returned no error, neither Apply nor ApplyOR panics, whatever the tags.
  pub compile-safe :
      (ms ns : List (Mapping Pattern Match)) (tags : Dict String)
      → compile_from re 0 ms ≡ (ns, none)
      → (apply re "" ns tags ≢ panics) × (apply_or re ns tags ≢ panics)
  unfolding apply_or
  compile-safe ms ns tags e =
      let done =
        subst (λ r. IsCompiled r.0) e
          (compile_from-IsCompiled 0 ms
            (ap (λ (r : List (Mapping Pattern Match) × Option Error). r.1) e)) in
      (apply_ne ns "" tags done, apply_or_ne false true ns tags done)
