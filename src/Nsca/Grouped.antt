-- ===== src/Nsca/Grouped.antt =====
-- connectors/nsca/parser/parser.go: the resources that the lines of a message become.
use tcg.Common.{
  ◌≡◌, ◌⊎◌, inl, inr, refl, ap, sym, ◌∙◌, Bool, Option, none, some, List, [], ◌∷◌, ◌++◌, String,
  lookup, lookup-insert, filter_by, str_eq, eq_iff, Bool-cases, if◌then◌else◌,
}
use mathlib.Core.List.{append_assoc, append-nil}
use tcg.Transit.Value.{Timestamp}
use tcg.Transit.Monitored.{MonitoredService}
use tcg.Nsca.Distinct.{distinct, unseen, keeps_head, drops_head, first_of_names-distinct}
use tcg.Nsca.Hosts.{resource_of, make_resource-distinct}
use tcg.Nsca.{
  ParseError, Env, Fields, MetricsMap, ServicesMap, ◌>>?◌, slice_at, append_at, first_of_names,
  remove_duplicate_services, make_resource, line_service, add_services, get_services,
}

-- The services of the lines, or the error of the first line that has one.
abbrev pub each :
    (String → ParseError ⊎ MonitoredService) → List String → ParseError ⊎ List MonitoredService
each f [] = inr []
each f (x ∷ xs) = f x >>? λ s. each f xs >>? λ ss. inr (s ∷ ss)

abbrev pub owned : String → MonitoredService → Bool
owned r s = str_eq s.info.owner r

-- The entry of a map whose slices are never empty.
abbrev pub entry_of : List MonitoredService → Option (List MonitoredService)
entry_of [] = none
entry_of (s ∷ ss) = some (s ∷ ss)

slice_of_entry :
    (k : String) (m : ServicesMap) (base : List MonitoredService)
    → lookup k m ≡ entry_of base
    → slice_at k m ≡ base
unfolding slice_at
slice_of_entry k m [] h = rw (h, slice_at) refl
slice_of_entry k m (s ∷ ss) h = rw (h, slice_at) refl

entry_of_last :
    (base : List MonitoredService) (s : MonitoredService)
    → some (base ++ s ∷ []) ≡ entry_of (base ++ s ∷ [])
entry_of_last [] s = refl
entry_of_last (t ∷ ts) s = refl

owned_append :
    (r : String) (s : MonitoredService) (ss : List MonitoredService)
    → filter_by (owned r) (s ∷ []) ++ filter_by (owned r) ss ≡ filter_by (owned r) (s ∷ ss)
owned_append r s ss = elim (Bool-cases (owned r s)) [
  | inl e ↦
      ap (λ l. l ++ filter_by (owned r) ss) (keeps_head (owned r) s [] e)
      ∙ sym (keeps_head (owned r) s ss e)
  | inr e ↦
      ap (λ l. l ++ filter_by (owned r) ss) (drops_head (owned r) s [] e)
      ∙ sym (drops_head (owned r) s ss e)
]

lookup-append_at :
    (r : String) (s : MonitoredService) (base : List MonitoredService) (m : ServicesMap)
    → lookup r m ≡ entry_of base
    → lookup r (append_at s.info.owner s m) ≡ entry_of (base ++ filter_by (owned r) (s ∷ []))
unfolding append_at
lookup-append_at r s base m h =
    let owner = s.info.owner in
    let grown = slice_at owner m ++ s ∷ [] in
    lookup-insert owner r grown m ∙ elim (Bool-cases (str_eq s.info.owner r)) [
      | inl e ↦
          ap (λ b. if b then some grown else lookup r m) e
          ∙ ap (λ l. some (l ++ s ∷ []))
              (ap (λ k. slice_at k m) ((eq_iff owner r).0 e) ∙ slice_of_entry r m base h)
          ∙ entry_of_last base s
          ∙ ap (λ l. entry_of (base ++ l)) (sym (keeps_head (owned r) s [] e))
      | inr e ↦
          ap (λ b. if b then some grown else lookup r m) e
          ∙ h
          ∙ ap entry_of (sym (append-nil base))
          ∙ ap (λ l. entry_of (base ++ l)) (sym (drops_head (owned r) s [] e))
    ]

Added :
    String
    → List MonitoredService
    → ParseError ⊎ List MonitoredService
    → ParseError ⊎ ServicesMap
    → Type 0
Added r base (inl e) (inl f) = e ≡ f
Added r base (inr ss) (inr m) = lookup r m ≡ entry_of (base ++ filter_by (owned r) ss)
Added r base _ _ = ⊥

Added-cons :
    (r : String) (base : List MonitoredService) (s : MonitoredService)
    → (o : ParseError ⊎ List MonitoredService) (m : ParseError ⊎ ServicesMap)
    → Added r (base ++ filter_by (owned r) (s ∷ [])) o m
    → Added r base (o >>? λ ss. inr (s ∷ ss)) m
unfolding Added
Added-cons r base s (inl e) (inl f) h = h
Added-cons r base s (inl e) (inr m) h = h
Added-cons r base s (inr ss) (inl f) h = h
Added-cons r base s (inr ss) (inr m) h =
    h
    ∙ ap entry_of (
        append_assoc base (filter_by (owned r) (s ∷ [])) (filter_by (owned r) ss)
        ∙ ap (◌++◌ base) (owned_append r s ss))

-- The entry of a resource, and what becomes of it.
abbrev pub Becomes :
    Timestamp → String → ParseError ⊎ List MonitoredService → ParseError ⊎ ServicesMap → Type 0
Becomes now r (inl e) (inl f) = e ≡ f
Becomes now r (inr ss) (inr m) =
    (lookup r m ≡ entry_of (distinct (filter_by (owned r) ss)))
    × (make_resource now (r, distinct (filter_by (owned r) ss))
        ≡ resource_of now r (filter_by (owned r) ss))
Becomes now r _ _ = ⊥

deduplicated : Option (List MonitoredService) → Option (List MonitoredService)
deduplicated none = none
deduplicated (some ss) = some (first_of_names [] ss)

lookup-deduplicated :
    (r : String) (m : ServicesMap)
    → lookup r (remove_duplicate_services m) ≡ deduplicated (lookup r m)
unfolding remove_duplicate_services lookup deduplicated
lookup-deduplicated r [] = refl
lookup-deduplicated r ((k, v) ∷ m) = elim (Bool-cases (str_eq k r)) [
  | inl e ↦ rw (e, lookup) refl
  | inr e ↦ rw (e, lookup) (lookup-deduplicated r m)
]

unseen_all : (ss : List MonitoredService) → filter_by (unseen []) ss ≡ ss
unfolding lookup
unseen_all [] = refl
unseen_all (s ∷ ss) = ap (◌∷◌ s) (unseen_all ss)

deduplicated-entry_of :
    (ss : List MonitoredService) → deduplicated (entry_of ss) ≡ entry_of (distinct ss)
unfolding deduplicated
deduplicated-entry_of [] = refl
deduplicated-entry_of (s ∷ ss) =
    ap some (first_of_names-distinct [] (s ∷ ss) ∙ unseen_all (distinct (s ∷ ss)))

lookup-remove :
    (r : String) (m : ServicesMap) (ss : List MonitoredService)
    → lookup r m ≡ entry_of ss
    → lookup r (remove_duplicate_services m) ≡ entry_of (distinct ss)
unfolding remove_duplicate_services lookup
lookup-remove r m ss h = lookup-deduplicated r m ∙ ap deduplicated h ∙ deduplicated-entry_of ss

module _ (env : Env) (find : String → Option Fields) (time : String → ParseError ⊎ Timestamp)
    (metrics : MetricsMap) (r : String) where
  Added-step :
      (base : List MonitoredService) (m : ServicesMap) (lines : List String)
      → (o : ParseError ⊎ MonitoredService)
      → ((s : MonitoredService)
          → Added r
              (base ++ filter_by (owned r) (s ∷ []))
              (each (line_service env find time metrics) lines)
              (add_services env find time metrics lines (append_at s.info.owner s m)))
      → Added r base
          (o >>? λ s. each (line_service env find time metrics) lines >>? λ ss. inr (s ∷ ss))
          (o >>? λ s. add_services env find time metrics lines (append_at s.info.owner s m))
  unfolding Added
  Added-step base m lines (inl e) h = refl
  Added-step base m lines (inr s) h = Added-cons r base s _ _ (h s)

  add_services-Added :
      (lines : List String) (base : List MonitoredService) (m : ServicesMap)
      → lookup r m ≡ entry_of base
      → Added r base
          (each (line_service env find time metrics) lines)
          (add_services env find time metrics lines m)
  unfolding Added add_services
  add_services-Added [] base m h = h ∙ ap entry_of (sym (append-nil base))
  add_services-Added (line ∷ lines) base m h =
      Added-step base m lines (line_service env find time metrics line) (λ s.
        add_services-Added lines (base ++ filter_by (owned r) (s ∷ [])) (append_at s.info.owner s m)
          (lookup-append_at r s base m h))

  Becomes-get :
      (o : ParseError ⊎ List MonitoredService) (p : ParseError ⊎ ServicesMap)
      → Added r [] o p
      → Becomes env.now r o (p >>? λ m. inr (remove_duplicate_services m))
  unfolding Added
  Becomes-get (inl e) (inl f) h = h
  Becomes-get (inl e) (inr m) h = h
  Becomes-get (inr ss) (inl f) h = h
  Becomes-get (inr ss) (inr m) h = (
    lookup-remove r m (filter_by (owned r) ss) h,
    make_resource-distinct env.now r (filter_by (owned r) ss),
  )

  -- The services of the lines of a message are grouped by their resource: an error is that of the
  -- first line that has one, and otherwise the entry of a resource holds, of the services of its
  -- lines in their order, the first with each name; there is no entry where no line is of the
  -- resource. The resource made of an entry has the services that have a name, and the state of the
  -- first service that has none, or else is up at the time of the call.
  pub get_services_lem :
      (lines : List String)
      → Becomes env.now r
          (each (line_service env find time metrics) lines)
          (get_services env find time metrics lines)
  unfolding get_services lookup
  get_services_lem lines =
      Becomes-get (each (line_service env find time metrics) lines)
        (add_services env find time metrics lines []) (add_services-Added lines [] [] refl)
