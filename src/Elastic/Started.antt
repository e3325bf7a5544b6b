-- ===== src/Elastic/Started.antt =====
-- connectors/elastic/model.go: a collection starts from the known hosts, with no hits.
use tcg.Common.{
  ◌≡◌, inl, inr, refl, ap, sym, subst, ◌∙◌, Bool, true, false, ◌||◌, Option, none, some, List, [],
  ◌∷◌, String, Dict, lookup, insert, lookup-insert, str_eq, arith, is_some, Bool-cases,
  Option-cases,
}
use tcg.Elastic.{MetricDefinition, MonitoringHost, MonitoringState}
use tcg.Elastic.Hosts.{
  Es, GwAnswers, ExtConfig, gw_hosts, init_es_hosts, put_host, monitored_metrics, no_services,
  nullified, nullify_services, init_monitoring_state,
}
use tcg.Elastic.Keyed.{IsKeyed, IsKeyed-init_gw, IsKeyed-init_es, IsKeyed-put_host, IsKeyed-nullify}

-- A host without hits of any service but the metrics.
abbrev pub IsNullified : Dict MetricDefinition → Option MonitoringHost → Type 0
IsNullified metrics none = Unit
IsNullified metrics (some h) = h.services ≡ no_services metrics

abbrev pub knows : String → Dict MonitoringHost → Bool
unfolding lookup
knows k hosts = is_some (lookup k hosts)

IsNullified-insert :
    (metrics : Dict MetricDefinition) (k j : String) (h : MonitoringHost)
    → (hosts : Dict MonitoringHost) → (str_eq j k ≡ false → IsNullified metrics (lookup k hosts))
    → IsNullified metrics (lookup k (insert j (nullified metrics h) hosts))
IsNullified-insert metrics k j h hosts other =
    subst (IsNullified metrics) (sym (lookup-insert j k (nullified metrics h) hosts))
      (elim (Bool-cases (str_eq j k)) [ inl e ↦ rw e refl | inr e ↦ rw e (other e) ])

IsNullified-lookup :
    (metrics : Dict MetricDefinition) (k : String) (hosts : Dict MonitoringHost)
    → knows k hosts ≡ false
    → IsNullified metrics (lookup k hosts)
unfolding knows
IsNullified-lookup metrics k hosts unknown = elim (Option-cases (lookup k hosts)) [
  | inl e ↦ rw e tt
  | inr (h, e) ↦ rw e cc
]

-- The entries of the list, by their keys, are nullified, and those that were.
IsNullified-nullify :
    (metrics : Dict MetricDefinition) (k : String) (list hosts : Dict MonitoringHost)
    → IsKeyed list
    → (knows k list ≡ false → IsNullified metrics (lookup k hosts))
    → IsNullified metrics (lookup k (nullify_services metrics list hosts))
unfolding nullify_services knows lookup
IsNullified-nullify metrics k [] hosts a other = other refl
IsNullified-nullify metrics k ((j, h) ∷ list) hosts (b, a) other =
    IsNullified-nullify metrics k list (insert h.name (nullified metrics h) hosts) a (λ unknown.
      IsNullified-insert metrics k h.name h hosts (λ e. other (rw (sym b) (rw e unknown))))

knows-insert :
    (k j : String) (h : MonitoringHost) (hosts : Dict MonitoringHost)
    → knows k (insert j h hosts) ≡ (str_eq j k || knows k hosts)
unfolding knows
knows-insert k j h hosts =
    ap is_some (lookup-insert j k h hosts)
    ∙ elim (Bool-cases (str_eq j k)) [ inl e ↦ rw e refl | inr e ↦ rw e refl ]

knows-cons :
    (k j : String) (h : MonitoringHost) (hosts : Dict MonitoringHost)
    → knows k ((j, h) ∷ hosts) ≡ (str_eq j k || knows k hosts)
unfolding knows lookup
knows-cons k j h hosts = elim (Bool-cases (str_eq j k)) [ inl e ↦ rw e refl | inr e ↦ rw e refl ]

knows-put_host :
    (k : String) (more hosts : Dict MonitoringHost)
    → IsKeyed more
    → knows k (put_host more hosts) ≡ (knows k more || knows k hosts)
unfolding put_host knows lookup
knows-put_host k [] hosts a = refl
knows-put_host k ((j, h) ∷ more) hosts (b, a) =
    let rest = knows-put_host k more (insert h.name h hosts) a in
    let first = knows-insert k h.name h hosts in
    let all = knows-cons k j h more in let same = ap (λ n. str_eq n k) b in ground arith

knows-nullify :
    (metrics : Dict MetricDefinition) (k : String) (list hosts : Dict MonitoringHost)
    → IsKeyed list
    → knows k (nullify_services metrics list hosts) ≡ (knows k list || knows k hosts)
unfolding nullify_services knows lookup
knows-nullify metrics k [] hosts a = refl
knows-nullify metrics k ((j, h) ∷ list) hosts (b, a) =
    let rest = knows-nullify metrics k list (insert h.name (nullified metrics h) hosts) a in
    let first = knows-insert k h.name (nullified metrics h) hosts in
    let all = knows-cons k j h list in let same = ap (λ n. str_eq n k) b in ground arith

IsKeyed-gw_hosts : (done : Bool) (answers : List GwAnswers) → IsKeyed (gw_hosts done answers)
IsKeyed-gw_hosts true answers = tt
IsKeyed-gw_hosts false answers = IsKeyed-init_gw answers [] tt

pub IsKeyed-started :
    (es : Es) (answers : List GwAnswers) (done : Bool) (cfg : ExtConfig)
    → (previous : MonitoringState)
    → IsKeyed ((init_monitoring_state es answers done cfg previous).state.hosts)
unfolding init_monitoring_state
IsKeyed-started es answers done cfg previous =
    let gw = gw_hosts done answers in
    let es_hosts = (init_es_hosts es cfg).0 in
    let old = put_host previous.hosts gw in
    IsKeyed-nullify (monitored_metrics cfg.views []) (put_host es_hosts old) (put_host es_hosts old)
      (IsKeyed-put_host es_hosts old
        (IsKeyed-put_host previous.hosts gw (IsKeyed-gw_hosts done answers)))

-- After initMonitoringState every host stands under its name, and its services are the monitored
-- metrics without hits; where the hosts of the state before stand under their names, the hosts are
-- those of Elasticsearch, of the state before and, the first time, of GroundWork.
pub init_monitoring_state_lem :
    (es : Es) (answers : List GwAnswers) (done : Bool) (cfg : ExtConfig)
    → (previous : MonitoringState) (k : String) → IsKeyed previous.hosts
    → let st = (init_monitoring_state es answers done cfg previous).state in
      IsKeyed st.hosts
      × IsNullified st.metrics (lookup k st.hosts)
      × (knows k st.hosts ≡ (
          knows k ((init_es_hosts es cfg).0)
          || (knows k previous.hosts || knows k (gw_hosts done answers))))
unfolding init_monitoring_state
init_monitoring_state_lem es answers done cfg previous k a =
    let metrics = monitored_metrics cfg.views [] in
    let gw = gw_hosts done answers in
    let es_hosts = (init_es_hosts es cfg).0 in
    let old = put_host previous.hosts gw in
    let hosts = put_host es_hosts old in
    let keyed =
      IsKeyed-put_host es_hosts old
        (IsKeyed-put_host previous.hosts gw (IsKeyed-gw_hosts done answers)) in
    let all = knows-nullify metrics k hosts hosts keyed in
    let es_known = knows-put_host k es_hosts old (IsKeyed-init_es es cfg) in
    let old_known = knows-put_host k previous.hosts gw a in
    (
      IsKeyed-started es answers done cfg previous,
      IsNullified-nullify metrics k hosts hosts keyed (IsNullified-lookup metrics k hosts),
      ground arith,
    )
