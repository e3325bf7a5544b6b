-- ===== src/TransitService/Ext/State.antt =====
-- services/transit.go, filterExtInfo: the properties that it keeps and those that it reads.
use tcg.Common.{
  ◌≡◌, ap, sym, ◌∙◌, inl, inr, refl, Option-cases, Bool-cases, if-either, eq_iff, ℤ, Bool, true,
  false, ◌||◌, Option, none, some, List, [], ◌∷◌, String, Dict, lookup, lookup-insert, returns,
  ◌>>=◌, deref, OnReturn, OnReturn-bind, arith, str_eq, if◌then◌else◌,
}
use tcg.Dispatcher.{remove}
use tcg.Transit.Value.{Timestamp, TypedValue}
use tcg.Transit.Monitored.{BaseInfo, MonitoredInfo}
use tcg.TransitService.Ext.{
  ExtState, kept, status_or_empty, text_or_empty, without, take_text, take_depth, take_time,
  take_state,
}

lookup-remove :
    (k j : String) (d : Dict TypedValue) → str_eq k j ≡ false → lookup j (remove k d) ≡ lookup j d
unfolding lookup remove
lookup-remove k j [] h = refl
lookup-remove k j ((i, v) ∷ d) h =
    let rest = lookup-remove k j d h in ground (arith, rest, eq_iff i k, eq_iff i j)

abbrev one_of : List String → String → Bool
one_of [] k = false
one_of (j ∷ js) k = str_eq j k || one_of js k

-- The properties with the given names, and no others.
abbrev pub Keeps : List String → Dict TypedValue → Dict TypedValue → Type 0
Keeps ks old new = (j : String) → lookup j new ≡ (if one_of ks j then lookup j old else none)

none_of :
    (j : String) (ks : List String) (d : Dict TypedValue) (k : String)
    → lookup k d ≡ none
    → (if one_of ks j then lookup j d else none)
      ≡ (if str_eq k j || one_of ks j then lookup j d else none)
none_of j ks d k e = elim (Bool-cases (str_eq k j)) [
  | inr f ↦ rw f refl
  | inl f ↦
      rw f
        (if-either (λ o. o ≡ none) (one_of ks j) (lookup j d) none (found f) refl ∙ sym (found f))
]
  where
    found : str_eq k j ≡ true → lookup j d ≡ none
    found f = ap (λ n. lookup n d) (sym ((eq_iff k j).0 f)) ∙ e

one_more :
    (k j : String) (v : TypedValue) (ks : List String) (props : Dict TypedValue)
    → lookup k props ≡ some v
    → lookup j (kept ks props) ≡ (if one_of ks j then lookup j props else none)
    → (if str_eq k j then some v else lookup j (kept ks props))
      ≡ (if str_eq k j || one_of ks j then lookup j props else none)
one_more k j v ks props e rest = elim (Bool-cases (str_eq k j)) [
  | inr f ↦ rw f rest
  | inl f ↦ rw f (sym (ap (λ n. lookup n props) (sym ((eq_iff k j).0 f)) ∙ e))
]

pub kept-Keeps : (ks : List String) (props : Dict TypedValue) → Keeps ks props (kept ks props)
unfolding kept lookup
kept-Keeps [] props j = refl
kept-Keeps (k ∷ ks) props j = elim (Option-cases (lookup k props)) [
  | inl e ↦ rw (e, kept) (kept-Keeps ks props j ∙ none_of j ks props k e)
  | inr (v, e) ↦
      rw (e, kept)
        (lookup-insert k j v (kept ks props) ∙ one_more k j v ks props e (kept-Keeps ks props j))
]

-- The state that properties carry: texts and numbers, empty ones where they are lacking, and the time
-- `now` of the last check.
abbrev pub text_in : Option TypedValue → Option String
text_in none = none
text_in (some v) = v.string_value

abbrev pub number_in : Option TypedValue → Option ℤ
number_in none = none
number_in (some v) = v.integer_value

abbrev pub time_in : Option Timestamp → Option TypedValue → Option Timestamp
time_in otherwise none = otherwise
time_in otherwise (some v) = v.time_value

abbrev pub state_of : Timestamp → Dict TypedValue → MonitoredInfo
state_of now props = record {
  status = status_or_empty (text_in (lookup "MonitorStatus" props));
  last_check_time = time_in (some now) (lookup "LastCheckTime" props);
  next_check_time = time_in none (lookup "NextCheckTime" props);
  last_plugin_output = text_or_empty (text_in (lookup "LastPluginOutput" props));
}

-- What taking a property changes: of the map that one entry only.
abbrev pub SameNames : BaseInfo → BaseInfo → Type 0
SameNames a b =
    (b.name ≡ a.name) × (b.type ≡ a.type) × (b.owner ≡ a.owner) × (b.description ≡ a.description)

-- The entries with other names are as they were.
abbrev pub Leaves : List String → BaseInfo → BaseInfo → Type 0
Leaves ks a b = (j : String) → one_of ks j ≡ false → lookup j b.properties ≡ lookup j a.properties

abbrev Takes : String → BaseInfo → BaseInfo → Type 0
Takes k a b =
    SameNames a b
    × ((j : String) → str_eq k j ≡ false → lookup j b.properties ≡ lookup j a.properties)

-- What is read, and what is left.
abbrev pub Reads : {A : Type 0} → String → BaseInfo → Option A → Option A × BaseInfo → Type 0
Reads k b o (found, left) = (found ≡ o) × Takes k b left

without-Takes : (k : String) (b : BaseInfo) → Takes k b (without k b)
without-Takes k b = ((refl, refl, refl, refl), λ j h. lookup-remove k j b.properties h)

nothing-Takes : (k : String) (b : BaseInfo) → Takes k b b
nothing-Takes k b = ((refl, refl, refl, refl), λ j h. refl)

pub take_text-Takes :
    (k : String) (b : BaseInfo)
    → OnReturn (Reads k b (text_in (lookup k b.properties))) (take_text k b)
unfolding take_text
take_text-Takes k b = elim (Option-cases (lookup k b.properties)) [
  | inl e ↦ rw (e, take_text) (refl, nothing-Takes k b)
  | inr (v, e) ↦ rw (e, take_text) (read v.string_value)
]
  where
    read :
        (o : Option String)
        → OnReturn (Reads k b o) (deref o >>= λ s. returns (some s, without k b))
    read none = tt
    read (some s) = (refl, without-Takes k b)

pub take_depth-Takes :
    (k : String) (b : BaseInfo)
    → OnReturn (Reads k b (number_in (lookup k b.properties))) (take_depth k b)
unfolding take_depth
take_depth-Takes k b = elim (Option-cases (lookup k b.properties)) [
  | inl e ↦ rw (e, take_depth) (refl, nothing-Takes k b)
  | inr (v, e) ↦ rw (e, take_depth) (read v.integer_value)
]
  where
    read : (o : Option ℤ) → OnReturn (Reads k b o) (deref o >>= λ s. returns (some s, without k b))
    read none = tt
    read (some s) = (refl, without-Takes k b)

pub take_time-Takes :
    (k : String) (otherwise : Option Timestamp) (b : BaseInfo)
    → Reads k b (time_in otherwise (lookup k b.properties)) (take_time k otherwise b)
unfolding take_time
take_time-Takes k otherwise b = elim (Option-cases (lookup k b.properties)) [
  | inl e ↦ rw (e, take_time) (refl, nothing-Takes k b)
  | inr (v, e) ↦ rw (e, take_time) (refl, without-Takes k b)
]

abbrev ext_names : List String
ext_names =
    "MonitorStatus" ∷ "LastPluginOutput" ∷ "LastCheckTime" ∷ "NextCheckTime"
    ∷ "ScheduledDowntimeDepth" ∷ []

-- The information that stays with a state: its names, and the properties that no state is made of.
abbrev pub Stays : BaseInfo → BaseInfo → Type 0
Stays a b = SameNames a b × Leaves ext_names a b

SameNames-trans : (a b c : BaseInfo) → SameNames a b → SameNames b c → SameNames a c
SameNames-trans a b c (n, t, o, d) (n', t', o', d') = (n' ∙ n, t' ∙ t, o' ∙ o, d' ∙ d)

neither : (s t : Bool) → (s || t) ≡ false → (s ≡ false) × (t ≡ false)
neither true t h = absurd cc
neither false t h = (refl, h)

abbrev pub IsState : Timestamp → BaseInfo → ExtState → Type 0
IsState now b t =
    Stays b t.info
    × (t.monitored ≡ state_of now b.properties)
    × (t.depth ≡ number_in (lookup "ScheduledDowntimeDepth" b.properties))

-- The five properties, one after the other.
five :
    (now : Timestamp) (b : BaseInfo) (s o : Option String × BaseInfo)
    → (last next : Option Timestamp × BaseInfo) (d : Option ℤ × BaseInfo)
    → Reads "MonitorStatus" b (text_in (lookup "MonitorStatus" b.properties)) s
    → Reads "LastPluginOutput" (s.1) (text_in (lookup "LastPluginOutput" s.1.properties)) o
    → Reads "LastCheckTime" (o.1) (time_in (some now) (lookup "LastCheckTime" o.1.properties)) last
    → Reads "NextCheckTime" (last.1) (time_in none (lookup "NextCheckTime" last.1.properties)) next
    → Reads "ScheduledDowntimeDepth"
        (next.1)
        (number_in (lookup "ScheduledDowntimeDepth" next.1.properties))
        d
    → IsState now b (record {
      info = d.1;
      monitored = record {
        status = status_or_empty s.0;
        last_check_time = last.0;
        next_check_time = next.0;
        last_plugin_output = text_or_empty o.0;
      };
      depth = d.0;
    })
five now b s o last next d (es, (ns, ls)) (eo, (names_o, lo)) (el, (nl, ll)) (en, (nn, ln))
      (ed, (nd, ld)) =
    let output = eo ∙ ap text_in (ls "LastPluginOutput" refl) in
    let checked =
      el ∙ ap (time_in (some now)) (lo "LastCheckTime" refl ∙ ls "LastCheckTime" refl) in
    let due =
      en
      ∙ ap (time_in none)
          (ll "NextCheckTime" refl ∙ (lo "NextCheckTime" refl ∙ ls "NextCheckTime" refl)) in
    let depth =
      ed
      ∙ ap number_in (
          ln "ScheduledDowntimeDepth" refl
          ∙ (ll "ScheduledDowntimeDepth" refl
              ∙ (lo "ScheduledDowntimeDepth" refl ∙ ls "ScheduledDowntimeDepth" refl))) in
    (
      (
        SameNames-trans b (s.1) (d.1) ns (
            SameNames-trans (s.1) (o.1) (d.1) names_o (
              SameNames-trans (o.1) (last.1) (d.1) nl
                (SameNames-trans (last.1) (next.1) (d.1) nn nd))),
        λ j h.
            let (h1, r1) = neither _ _ h in
            let (h2, r2) = neither _ _ r1 in
            let (h3, r3) = neither _ _ r2 in
            let (h4, r4) = neither _ _ r3 in
            let (h5, r5) = neither _ _ r4 in ld j h5 ∙ (ln j h4 ∙ (ll j h3 ∙ (lo j h2 ∙ ls j h1))),
      ),
      λ i. record {
        status = status_or_empty (es i);
        last_check_time = checked i;
        next_check_time = due i;
        last_plugin_output = text_or_empty (output i);
      },
      depth,
    )

pub take_state-IsState :
    (now : Timestamp) (b : BaseInfo) → OnReturn (IsState now b) (take_state now b)
unfolding take_state
take_state-IsState now b =
    OnReturn-bind (Reads "MonitorStatus" b (text_in (lookup "MonitorStatus" b.properties)))
      (IsState now b) (take_text "MonitorStatus" b) _ (take_text-Takes "MonitorStatus" b)
      (λ s hs.
        OnReturn-bind
          (Reads "LastPluginOutput" (s.1) (text_in (lookup "LastPluginOutput" s.1.properties)))
          (IsState now b) (take_text "LastPluginOutput" (s.1)) _
          (take_text-Takes "LastPluginOutput" (s.1))
          (λ o ho.
            let last = take_time "LastCheckTime" (some now) (o.1) in
            let hl = take_time-Takes "LastCheckTime" (some now) (o.1) in
            let next = take_time "NextCheckTime" none (last.1) in
            let hn = take_time-Takes "NextCheckTime" none (last.1) in
            OnReturn-bind
              (Reads "ScheduledDowntimeDepth" (next.1)
                (number_in (lookup "ScheduledDowntimeDepth" next.1.properties)))
              (IsState now b) (take_depth "ScheduledDowntimeDepth" (next.1)) _
              (take_depth-Takes "ScheduledDowntimeDepth" (next.1))
              (λ d hd. five now b s o last next d hs ho hl hn hd)))
