-- ===== src/Mapping/Tests.antt =====
-- sdk/mapping/mapping.go at given mappings: a test's pattern matches only the text that it is.
use tcg.Common.{
  lookup, ℕ, ◌≡◌, ◌≢◌, refl, inr, none, some, [], ◌∷◌, String, returns, panics, Dict, str_eq,
  if◌then◌else◌,
}
use tcg.Mapping.{Regexp, Mapping, apply, apply_or, compile_from}
use tcg.Mapping.Compiled.{compile-safe}

abbrev exact : Regexp String ℕ
exact = record {
  compile = λ p. if str_eq p "(" then none else some p;
  find_all = λ p s. if str_eq p s then 0 ∷ [] else [];
  expand = λ p template content x. template;
}

abbrev mapping : String → String → String → Mapping String ℕ
mapping tag matcher template = record {
  tag = tag;
  matcher = matcher;
  template = template;
  compiled = none;
}

abbrev ready : String → String → String → Mapping String ℕ
ready tag matcher template = record (mapping tag matcher template) { compiled = some matcher }

abbrev tags : Dict String
tags = ("host", "web") ∷ ("zone", "eu") ∷ []

compile-safe_example :
    (apply exact "" (ready "host" "web" "H" ∷ ready "" "" "-" ∷ []) tags ≢ panics)
    × (apply_or exact (ready "host" "web" "H" ∷ ready "" "" "-" ∷ []) tags ≢ panics)
unfolding compile_from
compile-safe_example =
    compile-safe exact (mapping "host" "web" "H" ∷ mapping "" "" "-" ∷ [])
      (ready "host" "web" "H" ∷ ready "" "" "-" ∷ []) tags refl

both_keys : apply_or exact (ready "host, zone" "web,eu" "HZ" ∷ []) tags ≡ returns (inr "HZ")
unfolding apply_or lookup
both_keys = refl
