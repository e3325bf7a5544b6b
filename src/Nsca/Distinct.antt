-- ===== src/Nsca/Distinct.antt =====
-- connectors/nsca/parser/parser.go, removeDuplicateServices: the first service with each name.
use tcg.Common.{
  ◌≡◌, inl, inr, refl, ap, sym, ◌∙◌, Bool, true, false, not, ◌&&◌, none, some, List, [], ◌∷◌,
  String, Dict, lookup, insert, lookup-insert, filter_by, str_eq, eq_iff, arith, is_none,
  Bool-cases, Option-cases,
}
use tcg.Transit.Monitored.{MonitoredService}
use tcg.Nsca.{first_of_names}

abbrev pub named_other : String → MonitoredService → Bool
named_other n s = not (str_eq s.info.name n)

abbrev pub nameless : MonitoredService → Bool
nameless s = str_eq s.info.name ""

-- The first service with each name.
abbrev pub distinct : List MonitoredService → List MonitoredService
distinct [] = []
distinct (s ∷ ss) = s ∷ filter_by (named_other s.info.name) (distinct ss)

filter_by-filter_by :
    (p q r : MonitoredService → Bool)
    → ((s : MonitoredService) → r s ≡ (p s && q s))
    → (ss : List MonitoredService) → filter_by p (filter_by q ss) ≡ filter_by r ss
filter_by-filter_by p q r h [] = refl
filter_by-filter_by p q r h (s ∷ ss) =
    let rest = filter_by-filter_by p q r h ss in ground (arith, h s)

abbrev pub unseen : Dict Bool → MonitoredService → Bool
unseen keys s = is_none (lookup s.info.name keys)

is_none-lookup-insert :
    (keys : Dict Bool) (n k : String)
    → is_none (lookup k (insert n true keys)) ≡ (is_none (lookup k keys) && not (str_eq k n))
is_none-lookup-insert keys n k =
    rw (lookup-insert n k true keys) (ground (arith, eq_iff n k, eq_iff k n))

unseen-other :
    (keys : Dict Bool) (n : String) {b : Bool} (s : MonitoredService)
    → lookup n keys ≡ some b
    → unseen keys s ≡ (unseen keys s && named_other n s)
unseen-other keys n s h = elim (Bool-cases (str_eq s.info.name n)) [
  | inl e ↦ rw ((eq_iff (s.info.name) n).0 e, h) refl
  | inr e ↦ rw e (ground arith)
]

pub keeps_head :
    (p : MonitoredService → Bool) (s : MonitoredService) (ss : List MonitoredService)
    → p s ≡ true
    → filter_by p (s ∷ ss) ≡ s ∷ filter_by p ss
keeps_head p s ss e = rw (e, filter_by) refl

pub drops_head :
    (p : MonitoredService → Bool) (s : MonitoredService) (ss : List MonitoredService)
    → p s ≡ false
    → filter_by p (s ∷ ss) ≡ filter_by p ss
drops_head p s ss e = rw (e, filter_by) refl

first_of_names_new :
    (keys : Dict Bool) (s : MonitoredService) (ss : List MonitoredService)
    → lookup s.info.name keys ≡ none
    → first_of_names keys (s ∷ ss) ≡ s ∷ first_of_names (insert s.info.name true keys) ss
unfolding first_of_names
first_of_names_new keys s ss e = rw (e, first_of_names) refl

first_of_names_old :
    (keys : Dict Bool) (s : MonitoredService) (ss : List MonitoredService) {b : Bool}
    → lookup s.info.name keys ≡ some b
    → first_of_names keys (s ∷ ss) ≡ first_of_names keys ss
unfolding first_of_names
first_of_names_old keys s ss e = rw (e, first_of_names) refl

pub first_of_names-distinct :
    (keys : Dict Bool) (ss : List MonitoredService)
    → first_of_names keys ss ≡ filter_by (unseen keys) (distinct ss)
unfolding first_of_names
first_of_names-distinct keys [] = refl
first_of_names-distinct keys (s ∷ ss) =
    let others = filter_by (named_other s.info.name) (distinct ss) in
    let next = insert s.info.name true keys in
    elim (Option-cases (lookup s.info.name keys)) [
      | inl e ↦
          first_of_names_new keys s ss e
          ∙ ap (◌∷◌ s) (
              first_of_names-distinct next ss
              ∙ sym (
                  filter_by-filter_by (unseen keys) (named_other s.info.name) (unseen next)
                    (λ t. is_none-lookup-insert keys (s.info.name) (t.info.name)) (distinct ss)))
          ∙ sym (keeps_head (unseen keys) s others (ap is_none e))
      | inr (b, e) ↦
          first_of_names_old keys s ss e
          ∙ first_of_names-distinct keys ss
          ∙ sym (
              filter_by-filter_by (unseen keys) (named_other s.info.name) (unseen keys)
                (λ t. unseen-other keys (s.info.name) t e) (distinct ss))
          ∙ sym (drops_head (unseen keys) s others (ap is_none e))
    ]

-- The names of a list that is made of one entry for each.
unfoldable pub take_first : List MonitoredService → List MonitoredService
take_first [] = []
take_first (s ∷ ss) = s ∷ []

filter_by-none :
    (p q : MonitoredService → Bool)
    → ((s : MonitoredService) → q s ≡ true → p s ≡ false)
    → (ss : List MonitoredService) → filter_by p (filter_by q ss) ≡ []
filter_by-none p q h [] = refl
filter_by-none p q h (s ∷ ss) = elim (Bool-cases (q s)) [
  | inl e ↦
      ap (filter_by p) (keeps_head q s ss e)
      ∙ drops_head p s (filter_by q ss) (h s e)
      ∙ filter_by-none p q h ss
  | inr e ↦ ap (filter_by p) (drops_head q s ss e) ∙ filter_by-none p q h ss
]

nameless-other :
    (n : String)
    → str_eq n "" ≡ false
    → (s : MonitoredService) → nameless s ≡ (nameless s && named_other n s)
nameless-other n e s = elim (Bool-cases (str_eq s.info.name "")) [
  | inl f ↦ rw (f, (eq_iff (s.info.name) "").0 f) (ground (arith, eq_iff "" n, eq_iff n "", e))
  | inr f ↦ rw f refl
]

nameless_once : (n k : String) → str_eq n "" ≡ true → not (str_eq k n) ≡ true → str_eq k "" ≡ false
nameless_once n k e f = ground (arith, eq_iff n "", eq_iff k n, eq_iff k "")

-- Of the nameless services only the first is left.
pub nameless-distinct :
    (ss : List MonitoredService)
    → filter_by nameless (distinct ss) ≡ take_first (filter_by nameless ss)
unfolding take_first
nameless-distinct [] = refl
nameless-distinct (s ∷ ss) =
    let others = filter_by (named_other s.info.name) (distinct ss) in
    elim (Bool-cases (nameless s)) [
      | inl e ↦
          keeps_head nameless s others e
          ∙ ap (◌∷◌ s) (
              filter_by-none nameless (named_other s.info.name)
                (λ t f. nameless_once (s.info.name) (t.info.name) e f) (distinct ss))
          ∙ ap take_first (sym (keeps_head nameless s ss e))
      | inr e ↦
          drops_head nameless s others e
          ∙ filter_by-filter_by nameless (named_other s.info.name) nameless
              (nameless-other (s.info.name) e) (distinct ss)
          ∙ nameless-distinct ss
          ∙ ap take_first (sym (drops_head nameless s ss e))
    ]
