-- ===== src/Elastic/Kept.antt =====
-- connectors/elastic/elastic.go: what the loops of a collection keep.
use tcg.Common.{
  ◌≡◌, inl, inr, ℤ, Bool, Option, none, some, List, [], ◌∷◌, String, Dict, lookup, insert, str_eq,
  Bool-cases,
}
use tcg.Transit.Value.{TimeInterval}
use tcg.Elastic.{
  MetricDefinition, MonitoringHost, MonitoringService, MonitoringState, update_host, update_all,
  update_hosts, updated_service,
}
use tcg.Elastic.Hosts.{Es, StoredQuery, GwAnswers, ExtConfig, can, init_monitoring_state}
use tcg.Elastic.Collect.{
  Collected, ElasticConnector, or_failed, filtered_query, query_interval, updated, count_each,
  count_query, collect_query, collect_queries, collect_stored_queries, collect_view, collect_views,
  copy_metrics, collected,
}
use tcg.Elastic.Keyed.{IsKeyed, IsNamed, IsNamed-lookup, IsKeyed-insert}
use tcg.Elastic.Started.{IsKeyed-started}

module _ {P : MonitoringState → Type 0}
    (hits : (values : Dict ℤ) (name : String) (interval : Option TimeInterval)
      → (st : MonitoringState) → P st
      → P (update_hosts values name interval st))
    (metrics_of : (metrics : Dict MetricDefinition) (st : MonitoringState)
      → P st
      → P (record st { metrics = metrics })) where
  P-or_failed :
      {A : Type 0} (st : MonitoringState) (o : Option A) (f : A → Collected)
      → P st
      → ((a : A) → P ((f a).state))
      → P ((or_failed st o f).state)
  P-or_failed st none f p h = p
  P-or_failed st (some a) f p h = h a

  module _ (es : Es) (cfg : ExtConfig) where
    P-count_query :
        (q : StoredQuery) (indexes : List String) (st : MonitoringState) (fields : Dict Bool)
        → P st
        → P ((count_query es cfg q indexes st fields).state)
    unfolding count_query updated
    P-count_query q indexes st fields p =
        let query = es.build_es_query q in
        let interval = query_interval es q.time_filter in
        let count = λ (host_name : String).
          es.count_hits_for_host host_name cfg.host_name_field indexes query in
        elim (Bool-cases (can fields cfg.host_name_field)) [
          | inl e ↦ rw e (
              P-or_failed st (es.count_hits cfg.host_name_field indexes query)
                (updated q.title interval st) p (λ result. hits result q.title interval st p))
          | inr e ↦ rw e (
              P-or_failed st (count_each count st.hosts [])
                (λ result. updated q.title interval st []) p
                (λ result. hits [] q.title interval st p))
        ]

    P-collect_query :
        (q : StoredQuery) (st : MonitoringState) → P st → P ((collect_query es cfg q st).state)
    unfolding collect_query
    P-collect_query q st p =
        let r = filtered_query cfg q in
        let indexes = es.retrieve_index_titles r in
        P-or_failed st (es.is_aggregatable (cfg.host_name_field ∷ []) indexes)
          (count_query es cfg r indexes st) p (λ fields. P-count_query r indexes st fields p)

    P-collect_queries :
        (qs : List StoredQuery) (st : MonitoringState)
        → P st
        → P ((collect_queries es cfg qs st).state)
    unfolding collect_queries
    P-collect_queries [] st p = p
    P-collect_queries (q ∷ qs) st p =
        let one = P-collect_query q st p in
        let rest = P-collect_queries qs ((collect_query es cfg q st).state) one in
        elim (Bool-cases ((collect_query es cfg q st).failed)) [
          | inl e ↦ rw e one
          | inr e ↦ rw e rest
        ]

    P-collect_view :
        (view : String) (metrics : Dict MetricDefinition) (st : MonitoringState)
        → P st
        → P ((collect_view es cfg view metrics st).state)
    unfolding collect_view collect_stored_queries
    P-collect_view view metrics st p =
        let copied = metrics_of (copy_metrics metrics st.metrics) st p in
        elim (Bool-cases (str_eq view "storedQueries")) [
          | inl e ↦ rw e (P-collect_queries _ _ copied)
          | inr e ↦ rw e copied
        ]

    pub collect_views-P :
        (views : Dict (Dict MetricDefinition)) (st : MonitoringState)
        → P st
        → P (collect_views es cfg views st)
    unfolding collect_views
    collect_views-P [] st p = p
    collect_views-P ((view, metrics) ∷ views) st p =
        let one = P-collect_view view metrics st p in
        let rest = collect_views-P views ((collect_view es cfg view metrics st).state) one in
        elim (Bool-cases ((collect_view es cfg view metrics st).failed)) [
          | inl e ↦ rw e one
          | inr e ↦ rw e rest
        ]

IsKeyed-updated :
    (service_name : String) (interval : Option TimeInterval) (k : String) (value : ℤ)
    → (h : MonitoringHost) (o : Option MonitoringService) (hosts : Dict MonitoringHost) → h.name ≡ k
    → IsKeyed hosts
    → IsKeyed (elim o [
      | none ↦ hosts
      | some s ↦
          insert k
            (record h {
              services = insert service_name (updated_service value interval s) h.services;
            })
            hosts
    ])
IsKeyed-updated service_name interval k value h none hosts e a = a
IsKeyed-updated service_name interval k value h (some s) hosts e a = IsKeyed-insert k _ hosts e a

IsKeyed-found :
    (service_name : String) (interval : Option TimeInterval) (k : String) (value : ℤ)
    → (o : Option MonitoringHost) (hosts : Dict MonitoringHost) → IsNamed k o
    → IsKeyed hosts
    → IsKeyed (elim o [
      | none ↦ hosts
      | some h ↦ elim (lookup service_name h.services) [
        | none ↦ hosts
        | some s ↦
            insert k
              (record h {
                services = insert service_name (updated_service value interval s) h.services;
              })
              hosts
      ]
    ])
IsKeyed-found service_name interval k value none hosts n a = a
IsKeyed-found service_name interval k value (some h) hosts n a =
    IsKeyed-updated service_name interval k value h (lookup service_name h.services) hosts n a

IsKeyed-update_all :
    (values : Dict ℤ) (service_name : String) (interval : Option TimeInterval)
    → (hosts : Dict MonitoringHost) → IsKeyed hosts
    → IsKeyed (update_all values service_name interval hosts)
unfolding update_all update_host
IsKeyed-update_all [] service_name interval hosts a = a
IsKeyed-update_all ((k, value) ∷ values) service_name interval hosts a =
    IsKeyed-update_all values service_name interval _ (
      IsKeyed-found service_name interval k value (lookup k hosts) hosts (IsNamed-lookup k hosts a)
        a)

-- After a collection every host stands under its name, whatever the state before and the answers are.
pub collected-IsKeyed :
    (es : Es) (answers : List GwAnswers) (c : ElasticConnector)
    → IsKeyed ((collected es answers c).monitoring_state.hosts)
unfolding collected update_hosts
collected-IsKeyed es answers c =
    let i = init_monitoring_state es answers c.done c.config c.monitoring_state in
    collect_views-P {P = λ st. IsKeyed st.hosts}
      (λ values name interval st a. IsKeyed-update_all values name interval st.hosts a)
      (λ metrics st a. a) es i.config i.config.views i.state
      (IsKeyed-started es answers c.done c.config c.monitoring_state)
