-- ===== src/TransitService/Ext/Readable.antt =====
-- services/transit.go, filterExtInfo: the properties on which it does not panic.
use tcg.Common.{
  ◌≡◌, refl, inl, inr, subst, sym, ap, ◌∙◌, Option, Option-cases, none, some, List, [], ◌∷◌, String,
  All, ℤ, Outcome, returns, ◌>>=◌, OnReturn, lookup,
}
use tcg.Transit.Value.{Timestamp, TypedValue}
use tcg.Transit.Monitored.{BaseInfo, InventoryService, InventoryResource}
use tcg.TransitService.Ext.{
  take_text, take_depth, take_time, take_state, filter_service, filter_services, filter_resource,
  filter_ext_info, without,
}
use tcg.TransitService.Ext.State.{Reads, text_in, take_text-Takes, take_time-Takes}

-- A property that is found has the value of the type that is read.
abbrev HasText : Option TypedValue → Type 0
HasText none = Unit
HasText (some v) = (s : String) × (v.string_value ≡ some s)

abbrev HasNumber : Option TypedValue → Type 0
HasNumber none = Unit
HasNumber (some v) = (n : ℤ) × (v.integer_value ≡ some n)

-- The status and the output are texts, and the depth a number, where there are such properties.
abbrev pub IsReadable : BaseInfo → Type 0
IsReadable b =
    HasText (lookup "MonitorStatus" b.properties)
    × HasText (lookup "LastPluginOutput" b.properties)
    × HasNumber (lookup "ScheduledDowntimeDepth" b.properties)

abbrev pub AreReadable : InventoryResource → Type 0
AreReadable r = IsReadable r.info × All (λ s. IsReadable s.info) r.services

abbrev pub Returns : {A : Type 0} → Outcome A → Type 0
Returns {A} o = (a : A) × (o ≡ returns a)

Returns-bind :
    {A B : Type 0} (o : Outcome A) (f : A → Outcome B)
    → Returns o
    → ((a : A) → o ≡ returns a → Returns (f a))
    → Returns (o >>= f)
Returns-bind o f (a, e) g = let (b, h) = g a e in (b, ap (λ p. p >>= f) e ∙ h)

take_text-Returns :
    (k : String) (b : BaseInfo) → HasText (lookup k b.properties) → Returns (take_text k b)
unfolding take_text
take_text-Returns k b h = elim (Option-cases (lookup k b.properties)) [
  | inl e ↦ rw (e, take_text) ((none, b), refl)
  | inr (v, e) ↦
      let (s, f) = subst HasText e h in rw (e, take_text) ((some s, without k b), rw f refl)
]

take_depth-Returns :
    (k : String) (b : BaseInfo) → HasNumber (lookup k b.properties) → Returns (take_depth k b)
unfolding take_depth
take_depth-Returns k b h = elim (Option-cases (lookup k b.properties)) [
  | inl e ↦ rw (e, take_depth) ((none, b), refl)
  | inr (v, e) ↦
      let (n, f) = subst HasNumber e h in rw (e, take_depth) ((some n, without k b), rw f refl)
]

-- What is read of one property does not change another.
text-Reads :
    (k : String) (b : BaseInfo) (r : Option String × BaseInfo)
    → take_text k b ≡ returns r
    → Reads k b (text_in (lookup k b.properties)) r
text-Reads k b r e =
    subst (OnReturn (Reads k b (text_in (lookup k b.properties)))) e (take_text-Takes k b)

take_state-Returns : (now : Timestamp) (b : BaseInfo) → IsReadable b → Returns (take_state now b)
unfolding take_state
take_state-Returns now b (hs, ho, hd) =
    Returns-bind (take_text "MonitorStatus" b) _ (take_text-Returns "MonitorStatus" b hs) (λ s es.
      let (fs, (ns, ls)) = text-Reads "MonitorStatus" b s es in
      Returns-bind (take_text "LastPluginOutput" (s.1)) _
        (take_text-Returns "LastPluginOutput" (s.1)
          (subst HasText (sym (ls "LastPluginOutput" refl)) ho))
        (λ o eo.
          let (fo, (names_o, lo)) = text-Reads "LastPluginOutput" (s.1) o eo in
          let last = take_time "LastCheckTime" (some now) (o.1) in
          let (fl, (nl, ll)) = take_time-Takes "LastCheckTime" (some now) (o.1) in
          let next = take_time "NextCheckTime" none (last.1) in
          let (fn, (nn, ln)) = take_time-Takes "NextCheckTime" none (last.1) in
          let same =
            ln "ScheduledDowntimeDepth" refl
            ∙ (ll "ScheduledDowntimeDepth" refl
                ∙ (lo "ScheduledDowntimeDepth" refl ∙ ls "ScheduledDowntimeDepth" refl)) in
          Returns-bind (take_depth "ScheduledDowntimeDepth" (next.1)) _
            (take_depth-Returns "ScheduledDowntimeDepth" (next.1) (subst HasNumber (sym same) hd))
            (λ d ed. (_, refl))))

module _ (now : Timestamp) where
  filter_service-Returns :
      (host : String) (svc : InventoryService)
      → IsReadable svc.info
      → Returns (filter_service now host svc)
  unfolding filter_service
  filter_service-Returns host svc h =
      Returns-bind (take_state now svc.info) _ (take_state-Returns now svc.info h)
        (λ t e. (_, refl))

  filter_services-Returns :
      (host : String) (svcs : List InventoryService)
      → All (λ s. IsReadable s.info) svcs
      → Returns (filter_services now host svcs)
  unfolding filter_services
  filter_services-Returns host [] h = (_, refl)
  filter_services-Returns host (svc ∷ svcs) (h, hs) =
      Returns-bind (filter_service now host svc) _ (filter_service-Returns host svc h) (λ r e.
        Returns-bind (filter_services now host svcs) _ (filter_services-Returns host svcs hs)
          (λ rest f. (_, refl)))

  filter_resource-Returns :
      (res : InventoryResource) → AreReadable res → Returns (filter_resource now res)
  unfolding filter_resource
  filter_resource-Returns res (h, hs) =
      Returns-bind (take_state now res.info) _ (take_state-Returns now res.info h) (λ t e.
        Returns-bind (filter_services now t.info.name res.services) _
          (filter_services-Returns t.info.name res.services hs) (λ r f. (_, refl)))

  pub filter_ext_info-Returns :
      (ress : List InventoryResource) → All AreReadable ress → Returns (filter_ext_info now ress)
  unfolding filter_ext_info
  filter_ext_info-Returns [] h = (_, refl)
  filter_ext_info-Returns (res ∷ ress) (h, hs) =
      Returns-bind (filter_resource now res) _ (filter_resource-Returns res h) (λ r e.
        Returns-bind (filter_ext_info now ress) _ (filter_ext_info-Returns ress hs)
          (λ rest f. (_, refl)))
