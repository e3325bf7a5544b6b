-- ===== src/Elastic/Keyed.antt =====
-- connectors/elastic/model.go: each host stands under its name in the state, and a collection starts
-- with no hits.
use tcg.Common.{
  ◌≡◌, inl, inr, refl, ◌∙◌, Option, none, some, List, [], ◌∷◌, String, Dict, lookup, insert, str_eq,
  eq_iff, Bool-cases, Option-cases, if◌then◌else◌,
}
use tcg.Elastic.{MetricDefinition, MonitoringHost}
use tcg.Elastic.Hosts.{
  Es, AggregationKey, GwHostGroup, GwAnswers, ExtConfig, with_groups, with_key_group, in_group,
  new_host, add_gw_services, add_gw_hosts, add_gw_groups, init_gw_hosts, add_keys, with_fields,
  init_es_hosts, put_host, nullified, nullify_services,
}

-- A host that stands under its name.
abbrev pub IsNamed : String → Option MonitoringHost → Type 0
IsNamed k none = Unit
IsNamed k (some h) = h.name ≡ k

abbrev pub IsKeyed : Dict MonitoringHost → Type 0
IsKeyed [] = Unit
IsKeyed ((k, h) ∷ hosts) = (h.name ≡ k) × IsKeyed hosts

pub IsKeyed-insert :
    (k : String) (h : MonitoringHost) (hosts : Dict MonitoringHost)
    → h.name ≡ k
    → IsKeyed hosts
    → IsKeyed (insert k h hosts)
unfolding insert
IsKeyed-insert k h [] e a = (e, tt)
IsKeyed-insert k h ((j, g) ∷ hosts) e (b, a) =
    let rest = IsKeyed-insert k h hosts e a in
    elim (Bool-cases (str_eq j k)) [ inl f ↦ rw f (e, a) | inr f ↦ rw f (b, rest) ]

pub IsNamed-lookup :
    (k : String) (hosts : Dict MonitoringHost) → IsKeyed hosts → IsNamed k (lookup k hosts)
unfolding lookup
IsNamed-lookup k [] a = tt
IsNamed-lookup k ((j, h) ∷ hosts) (b, a) =
    let rest = IsNamed-lookup k hosts a in
    elim (Bool-cases (str_eq j k)) [ inl f ↦ rw f (b ∙ (eq_iff j k).0 f) | inr f ↦ rw f rest ]

-- A change of the host that a lookup finds, by one with its name.
IsKeyed-change :
    (k : String) (hosts : Dict MonitoringHost) (o : Option MonitoringHost)
    → (f : MonitoringHost → MonitoringHost) → ((h : MonitoringHost) → (f h).name ≡ h.name)
    → IsNamed k o
    → IsKeyed hosts
    → IsKeyed (elim o [ none ↦ hosts | some h ↦ insert k (f h) hosts ])
IsKeyed-change k hosts none f same n a = a
IsKeyed-change k hosts (some h) f same n a = IsKeyed-insert k (f h) hosts (same h ∙ n) a

IsKeyed-add_services :
    (names : List String) (hosts : Dict MonitoringHost)
    → IsKeyed hosts
    → IsKeyed ((add_gw_services names hosts).0)
unfolding add_gw_services
IsKeyed-add_services [] hosts a = a
IsKeyed-add_services (n ∷ ns) hosts a = elim (Option-cases (lookup n hosts)) [
  | inl e ↦
      rw (e, add_gw_services)
        (IsKeyed-add_services ns (insert n (new_host n []) hosts)
          (IsKeyed-insert n (new_host n []) hosts refl a))
  | inr (h, e) ↦ rw (e, add_gw_services) (IsKeyed-add_services ns hosts a)
]

IsKeyed-add_hosts :
    (group : String) (names : List String) (hosts : Dict MonitoringHost)
    → IsKeyed hosts
    → IsKeyed (add_gw_hosts group names hosts)
unfolding add_gw_hosts
IsKeyed-add_hosts group [] hosts a = a
IsKeyed-add_hosts group (n ∷ ns) hosts a = IsKeyed-add_hosts group ns _ (
    IsKeyed-change n hosts (lookup n hosts) (in_group group) (λ h. refl) (IsNamed-lookup n hosts a)
      a)

IsKeyed-add_groups :
    (groups : List GwHostGroup) (hosts : Dict MonitoringHost)
    → IsKeyed hosts
    → IsKeyed (add_gw_groups groups hosts)
unfolding add_gw_groups
IsKeyed-add_groups [] hosts a = a
IsKeyed-add_groups (g ∷ gs) hosts a =
    IsKeyed-add_groups gs (add_gw_hosts g.name g.hosts hosts)
      (IsKeyed-add_hosts g.name g.hosts hosts a)

IsKeyed-answered :
    (hosts : Dict MonitoringHost) (o : Option (List GwHostGroup))
    → IsKeyed hosts
    → IsKeyed (elim o [ none ↦ hosts | some gs ↦ add_gw_groups gs hosts ])
IsKeyed-answered hosts none a = a
IsKeyed-answered hosts (some gs) a = IsKeyed-add_groups gs hosts a

IsKeyed-with_groups :
    (answers : GwAnswers) (hosts : Dict MonitoringHost) (names : List String)
    → IsKeyed hosts
    → IsKeyed (with_groups answers (hosts, names))
unfolding with_groups
IsKeyed-with_groups answers hosts [] a = a
IsKeyed-with_groups answers hosts (n ∷ ns) a =
    IsKeyed-answered hosts (answers.host_groups (n ∷ ns)) a

IsKeyed-connection :
    (answers : GwAnswers) (o : Option (List String)) (hosts : Dict MonitoringHost)
    → IsKeyed hosts
    → IsKeyed
        (elim o [ none ↦ hosts | some names ↦ with_groups answers (add_gw_services names hosts) ])
IsKeyed-connection answers none hosts a = a
IsKeyed-connection answers (some names) hosts a =
    IsKeyed-with_groups answers _ _ (IsKeyed-add_services names hosts a)

pub IsKeyed-init_gw :
    (answers : List GwAnswers) (hosts : Dict MonitoringHost)
    → IsKeyed hosts
    → IsKeyed (init_gw_hosts answers hosts)
unfolding init_gw_hosts
IsKeyed-init_gw [] hosts a = a
IsKeyed-init_gw (x ∷ xs) hosts a = IsKeyed-init_gw xs _ (IsKeyed-connection x x.services hosts a)

name-with_key_group : (o : Option String) (h : MonitoringHost) → (with_key_group o h).name ≡ h.name
name-with_key_group none h = refl
name-with_key_group (some g) h = refl

-- What a key of Elasticsearch makes of the hosts.
IsKeyed-key :
    (cfg : ExtConfig) (key : AggregationKey) (o : Option MonitoringHost)
    (hosts : Dict MonitoringHost)
    → IsNamed key.host o
    → IsKeyed hosts
    → IsKeyed (elim o [
      | some h ↦
          (if cfg.group_name_by_user
            then hosts
            else insert key.host (with_key_group key.host_group h) hosts)
      | none ↦
          insert key.host
            (if cfg.group_name_by_user
              then new_host key.host (cfg.host_group_field ∷ [])
              else with_key_group key.host_group (new_host key.host []))
            hosts
    ])
IsKeyed-key cfg key none hosts n a = elim (Bool-cases cfg.group_name_by_user) [
  | inl e ↦
      rw e (IsKeyed-insert key.host (new_host key.host (cfg.host_group_field ∷ [])) hosts refl a)
  | inr e ↦ rw e (
      IsKeyed-insert key.host (with_key_group key.host_group (new_host key.host [])) hosts
        (name-with_key_group key.host_group (new_host key.host [])) a)
]
IsKeyed-key cfg key (some h) hosts n a = elim (Bool-cases cfg.group_name_by_user) [
  | inl e ↦ rw e a
  | inr e ↦ rw e (
      IsKeyed-insert key.host (with_key_group key.host_group h) hosts
        (name-with_key_group key.host_group h ∙ n) a)
]

IsKeyed-add_keys :
    (cfg : ExtConfig) (ks : List AggregationKey) (hosts : Dict MonitoringHost)
    → IsKeyed hosts
    → IsKeyed (add_keys cfg ks hosts)
unfolding add_keys
IsKeyed-add_keys cfg [] hosts a = a
IsKeyed-add_keys cfg (key ∷ ks) hosts a =
    IsKeyed-add_keys cfg ks _
      (IsKeyed-key cfg key (lookup key.host hosts) hosts (IsNamed-lookup key.host hosts a) a)

IsKeyed-with_fields :
    (es : Es) (cfg : ExtConfig) (o : Option (String × Option String))
    → IsKeyed ((with_fields es cfg o).0)
unfolding with_fields
IsKeyed-with_fields es cfg none = tt
IsKeyed-with_fields es cfg (some (host, group)) =
    IsKeyed-add_keys ((with_fields es cfg (some (host, group))).1) (es.get_hosts host group) [] tt

pub IsKeyed-init_es : (es : Es) (cfg : ExtConfig) → IsKeyed ((init_es_hosts es cfg).0)
unfolding init_es_hosts
IsKeyed-init_es es cfg = IsKeyed-with_fields es cfg _

pub IsKeyed-put_host :
    (more hosts : Dict MonitoringHost) → IsKeyed hosts → IsKeyed (put_host more hosts)
unfolding put_host
IsKeyed-put_host [] hosts a = a
IsKeyed-put_host ((k, h) ∷ more) hosts a =
    IsKeyed-put_host more (insert h.name h hosts) (IsKeyed-insert h.name h hosts refl a)

pub IsKeyed-nullify :
    (metrics : Dict MetricDefinition) (list hosts : Dict MonitoringHost)
    → IsKeyed hosts
    → IsKeyed (nullify_services metrics list hosts)
unfolding nullify_services
IsKeyed-nullify metrics [] hosts a = a
IsKeyed-nullify metrics ((k, h) ∷ list) hosts a =
    IsKeyed-nullify metrics list _ (IsKeyed-insert h.name (nullified metrics h) hosts refl a)
