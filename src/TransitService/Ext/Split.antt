-- ===== src/TransitService/Ext/Split.antt =====
-- services/transit.go, filterExtInfo: what becomes of the properties of an inventory.
use tcg.Common.{All, ◌≡◌, subst, refl, List, [], ◌∷◌, String, returns, OnReturn, OnReturn-bind}
use tcg.Transit.Value.{Timestamp}
use tcg.Transit.Monitored.{
  BaseInfo, MonitoredInfo, InventoryService, InventoryResource, MonitoredService, MonitoredResource,
}
use tcg.TransitService.Ext.{
  Downtime, ExtState, kept, take_state, filter_service, filter_services, filter_resource,
  filter_ext_info,
}
use tcg.TransitService.Ext.State.{
  Keeps, kept-Keeps, SameNames, Stays, state_of, IsState, take_state-IsState,
}
use tcg.TransitService.Ext.Readable.{AreReadable, filter_ext_info-Returns}

-- What the inventory keeps, and the state, of the information of a host or a service.
pub record Splits (now : Timestamp) (ks : List String) (old inv mon : BaseInfo)
    (monitored : MonitoredInfo) : Type 0 where
  pub inventory : SameNames old inv
  pub keeps : Keeps ks old.properties inv.properties
  pub stays : Stays old mon
  pub state : monitored ≡ state_of now old.properties

abbrev pub ServicesSplit :
    Timestamp → List InventoryService → List InventoryService → List MonitoredService → Type 0
ServicesSplit now [] [] [] = Unit
ServicesSplit now (s ∷ ss) (i ∷ is) (m ∷ ms) =
    Splits now ("Notes" ∷ []) s.info i.info m.info m.monitored × ServicesSplit now ss is ms
ServicesSplit now _ _ _ = ⊥

abbrev pub ResourcesSplit :
    Timestamp → List InventoryResource → List InventoryResource → List MonitoredResource → Type 0
ResourcesSplit now [] [] [] = Unit
ResourcesSplit now (r ∷ rs) (i ∷ is) (m ∷ ms) =
    Splits now ("Alias" ∷ "Notes" ∷ []) r.info i.info m.info m.monitored
    × (i.device ≡ r.device)
    × (m.device ≡ r.device)
    × ServicesSplit now r.services i.services m.services
    × ResourcesSplit now rs is ms
ResourcesSplit now _ _ _ = ⊥

split_of :
    (now : Timestamp) (ks : List String) (b : BaseInfo) (t : ExtState)
    → IsState now b t
    → Splits now ks b (record b { properties = kept ks b.properties }) t.info t.monitored
split_of now ks b t (stays, state, depth) = record {
  inventory = (refl, refl, refl, refl);
  keeps = kept-Keeps ks b.properties;
  stays = stays;
  state = state;
}

module _ (now : Timestamp) where
  abbrev ServiceSplit :
      InventoryService → InventoryService × MonitoredService × List Downtime → Type 0
  ServiceSplit svc (i, m, ds) = Splits now ("Notes" ∷ []) svc.info i.info m.info m.monitored

  filter_service-Splits :
      (host : String) (svc : InventoryService)
      → OnReturn (ServiceSplit svc) (filter_service now host svc)
  unfolding filter_service
  filter_service-Splits host svc =
      OnReturn-bind (IsState now svc.info) (ServiceSplit svc) (take_state now svc.info) _
        (take_state-IsState now svc.info) (λ t h. split_of now ("Notes" ∷ []) svc.info t h)

  abbrev AllServices :
      List InventoryService → List InventoryService × List MonitoredService × List Downtime → Type 0
  AllServices svcs (is, ms, ds) = ServicesSplit now svcs is ms

  filter_services-Split :
      (host : String) (svcs : List InventoryService)
      → OnReturn (AllServices svcs) (filter_services now host svcs)
  unfolding filter_services
  filter_services-Split host [] = tt
  filter_services-Split host (svc ∷ svcs) =
      OnReturn-bind (ServiceSplit svc) (AllServices (svc ∷ svcs)) (filter_service now host svc) _
        (filter_service-Splits host svc)
        (λ r h.
          OnReturn-bind (AllServices svcs) (AllServices (svc ∷ svcs))
            (filter_services now host svcs) _ (filter_services-Split host svcs) (λ rest g. (h, g)))

  abbrev ResourceSplit :
      InventoryResource → InventoryResource × MonitoredResource × List Downtime → Type 0
  ResourceSplit res (i, m, ds) =
      Splits now ("Alias" ∷ "Notes" ∷ []) res.info i.info m.info m.monitored
      × (i.device ≡ res.device)
      × (m.device ≡ res.device)
      × ServicesSplit now res.services i.services m.services

  filter_resource-Splits :
      (res : InventoryResource) → OnReturn (ResourceSplit res) (filter_resource now res)
  unfolding filter_resource
  filter_resource-Splits res =
      OnReturn-bind (IsState now res.info) (ResourceSplit res) (take_state now res.info) _
        (take_state-IsState now res.info)
        (λ t h.
          OnReturn-bind (AllServices res.services) (ResourceSplit res)
            (filter_services now t.info.name res.services) _
            (filter_services-Split t.info.name res.services)
            (λ r g. (split_of now ("Alias" ∷ "Notes" ∷ []) res.info t h, refl, refl, g)))

  abbrev AllResources :
      List InventoryResource
      → List InventoryResource × List MonitoredResource × List Downtime
      → Type 0
  AllResources ress (is, ms, ds) = ResourcesSplit now ress is ms

  filter_ext_info-Split :
      (ress : List InventoryResource) → OnReturn (AllResources ress) (filter_ext_info now ress)
  unfolding filter_ext_info
  filter_ext_info-Split [] = tt
  filter_ext_info-Split (res ∷ ress) =
      OnReturn-bind (ResourceSplit res) (AllResources (res ∷ ress)) (filter_resource now res) _
        (filter_resource-Splits res)
        (λ r h.
          OnReturn-bind (AllResources ress) (AllResources (res ∷ ress)) (filter_ext_info now ress) _
            (filter_ext_info-Split ress) (λ rest g. (h.0, h.1, h.2, h.3, g)))

  -- Where the properties with the status and the output are texts and the one with the depth of a
  -- downtime is a number, in the resources and services that have them, filterExtInfo returns. It makes
  -- of each resource, in order, one of the inventory and one with the state, and the same of its
  -- services. All keep the names, the inventory has just the alias and the notes of a host's properties
  -- and the notes of a service's, the state is the one that the properties carry, and the resource or
  -- service with it keeps the properties that no state is made of.
  pub filter_ext_info_lem :
      (ress : List InventoryResource)
      → All AreReadable ress
      → (r : List InventoryResource × List MonitoredResource × List Downtime) × (filter_ext_info now
            ress
          ≡ returns r)
        × ResourcesSplit now ress (r.0) (r.1)
  filter_ext_info_lem ress h =
      let (r, e) = filter_ext_info-Returns now ress h in
      (r, e, subst (OnReturn (AllResources ress)) e (filter_ext_info-Split ress))
