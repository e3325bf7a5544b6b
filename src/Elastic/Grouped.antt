-- ===== src/Elastic/Grouped.antt =====
-- connectors/elastic/model.go, buildGroups: the hosts of a group.
use tcg.Common.{
  ◌≡◌, inl, inr, refl, ap, ◌∙◌, Bool, false, not, ◌&&◌, ◌||◌, Option, none, some, List, [], ◌∷◌,
  String, lookup, insert, lookup-insert, str_eq, eq_iff, arith, is_some, Bool-cases, Option-cases,
  if◌then◌else◌, Dict,
}
use tcg.Elastic.{
  MonitoringHost, MonitoringState, Names, Groups, add_to_group, add_to_groups, grouped_hosts,
  build_groups,
}

abbrev has : String → Option Names → Bool
unfolding lookup
has host none = false
has host (some hosts) = is_some (lookup host hosts)

-- A host is in a group.
unfoldable pub is_member : String → String → Groups → Bool
unfolding lookup
is_member host group groups = has host (lookup group groups)

-- A group is one of those of a host; the group without a name is none.
abbrev pub listed : String → List String → Bool
listed group [] = false
listed group (g ∷ gs) = (not (str_eq g "") && str_eq g group) || listed group gs

abbrev pub belongs : String → String → Dict MonitoringHost → Bool
belongs host group [] = false
belongs host group ((k, h) ∷ hosts) =
    (str_eq k host && listed group h.host_groups) || belongs host group hosts

is_member-insert :
    (host group at : String) (hosts : Names) (groups : Groups)
    → is_member host group (insert at hosts groups)
      ≡ (if str_eq at group then is_some (lookup host hosts) else is_member host group groups)
unfolding is_member
is_member-insert host group at hosts groups =
    ap (has host) (lookup-insert at group hosts groups)
    ∙ elim (Bool-cases (str_eq at group)) [ inl e ↦ rw e refl | inr e ↦ rw e refl ]

is_some-insert :
    (host k : String) (hosts : Names)
    → is_some (lookup host (insert k tt hosts)) ≡ (str_eq k host || is_some (lookup host hosts))
is_some-insert host k hosts =
    ap is_some (lookup-insert k host tt hosts)
    ∙ elim (Bool-cases (str_eq k host)) [ inl e ↦ rw e refl | inr e ↦ rw e refl ]

-- The entry of a group to which a host is added.
added : String → Option Names → Names
added k none = (k, tt) ∷ []
added k (some hosts) = insert k tt hosts

has-added :
    (host k : String) (o : Option Names)
    → is_some (lookup host (added k o)) ≡ (str_eq k host || has host o)
unfolding added lookup
has-added host k none = ground arith
has-added host k (some hosts) = is_some-insert host k hosts

insert-added :
    (k at : String) (groups : Groups)
    → str_eq at "" ≡ false
    → add_to_group k at groups ≡ insert at (added k (lookup at groups)) groups
unfolding add_to_group added
insert-added k at groups named = elim (Option-cases (lookup at groups)) [
  | inl e ↦ rw (named, e) refl
  | inr (hosts, e) ↦ rw (named, e) refl
]

add_named :
    (host group k at : String) (groups : Groups)
    → str_eq at "" ≡ false
    → is_member host group (add_to_group k at groups)
      ≡ ((str_eq at group && str_eq k host) || is_member host group groups)
unfolding has is_member
add_named host group k at groups named =
    ap (is_member host group) (insert-added k at groups named)
    ∙ is_member-insert host group at (added k (lookup at groups)) groups
    ∙ elim (Bool-cases (str_eq at group)) [
      | inl e ↦ rw e (
          has-added host k (lookup at groups)
          ∙ ap (λ g. str_eq k host || is_member host g groups) ((eq_iff at group).0 e))
      | inr e ↦ rw e refl
    ]

is_member-add :
    (host group k at : String) (groups : Groups)
    → is_member host group (add_to_group k at groups)
      ≡ (((not (str_eq at "") && str_eq at group) && str_eq k host) || is_member host group groups)
unfolding add_to_group
is_member-add host group k at groups = elim (Bool-cases (str_eq at "")) [
  | inl e ↦ rw e refl
  | inr e ↦ add_named host group k at groups e ∙ rw e refl
]

is_member-add_all :
    (host group k : String) (gs : List String) (groups : Groups)
    → is_member host group (add_to_groups k gs groups)
      ≡ ((str_eq k host && listed group gs) || is_member host group groups)
unfolding add_to_groups
is_member-add_all host group k [] groups = ground arith
is_member-add_all host group k (g ∷ gs) groups =
    let rest = is_member-add_all host group k gs (add_to_group k g groups) in
    let first = is_member-add host group k g groups in ground arith

is_member-grouped_hosts :
    (host group : String) (hosts : Dict MonitoringHost) (groups : Groups)
    → is_member host group (grouped_hosts hosts groups)
      ≡ (belongs host group hosts || is_member host group groups)
unfolding grouped_hosts
is_member-grouped_hosts host group [] groups = refl
is_member-grouped_hosts host group ((k, h) ∷ hosts) groups =
    let rest = is_member-grouped_hosts host group hosts (add_to_groups k h.host_groups groups) in
    let first = is_member-add_all host group k h.host_groups groups in ground arith

-- A host is in a group of buildGroups exactly where an entry of the hosts has its name and lists the
-- group, and the group has a name; the empty name is no group.
pub build_groups_lem :
    (host group : String) (st : MonitoringState)
    → is_member host group ((build_groups st).host_groups) ≡ belongs host group st.hosts
unfolding build_groups is_member
build_groups_lem host group st = is_member-grouped_hosts host group st.hosts [] ∙ ground arith
