-- ===== src/Batcher/Metrics/Groups.antt =====
-- packGroups of batcher/metrics/metrics.go: groups of one type and name are joined, and the
-- resources of a group are told apart by type and name.
use Prim.Native.String.{◌++◌ as join}
use tcg.Common.{
  String, Option, none, some, List, [], ◌∷◌, ◌≡◌, refl, ap, ◌∙◌, inl, inr, Bool-cases, map, Dict,
  lookup, insert, lookup-insert, str_eq, eq_iff, if◌then◌else◌, length, ltb,
}
use tcg.Transit.Monitored.{ResourceRef, ResourceGroup}

-- RG: the group that came first, and the resources by key.
pub record Rg : Type 0 where
  pub group : ResourceGroup
  pub resources : Dict ResourceRef

unfoldable pub group_key : ResourceGroup → String
group_key g = join g.type (join ":" g.group_name)

unfoldable pub ref_key : ResourceRef → String
ref_key r = join r.type (join ":" r.name)

unfoldable pub put_refs : List ResourceRef → Dict ResourceRef → Dict ResourceRef
put_refs [] d = d
put_refs (r ∷ rs) d = put_refs rs (insert (ref_key r) r d)

abbrev pub found : ResourceGroup → Option Rg → Rg
found g none = record { group = g; resources = [] }
found g (some rg) = rg

abbrev pub join_group : ResourceGroup → Rg → Rg
join_group g rg = record rg { resources = put_refs g.resources rg.resources }

-- The map `m` after the first loop.
unfoldable pub group_map : List ResourceGroup → Dict Rg → Dict Rg
unfolding group_key put_refs ref_key
group_map [] m = m
group_map (g ∷ gs) m =
    group_map gs (insert (group_key g) (join_group g (found g (lookup (group_key g) m))) m)

-- The order in which `range` yields the entries of the two maps.
pub record MapOrder : Type 0 where
  pub groups : Dict Rg → List Rg
  pub refs : Dict ResourceRef → List ResourceRef

abbrev rebuild : MapOrder → Rg → ResourceGroup
rebuild o rg =
    let g = rg.group in
    if ltb 0 (length rg.resources) then record g { resources = o.refs rg.resources } else g

unfoldable pub pack_groups : MapOrder → List ResourceGroup → List ResourceGroup
unfolding group_map
pack_groups o [] = []
pack_groups o (g ∷ gs) = map (rebuild o) (o.groups (group_map (g ∷ gs) []))

-- The last resource of that key in a list, or else the given one.
abbrev pub last_ref : String → List ResourceRef → Option ResourceRef → Option ResourceRef
last_ref k [] o = o
last_ref k (r ∷ rs) o = last_ref k rs (if str_eq (ref_key r) k then some r else o)

-- The last resource of that key in the groups of that key.
abbrev pub last_in : String → String → List ResourceGroup → Option ResourceRef → Option ResourceRef
last_in gk rk [] o = o
last_in gk rk (g ∷ gs) o =
    last_in gk rk gs (if str_eq (group_key g) gk then last_ref rk g.resources o else o)

abbrev pub ref_of : String → Option Rg → Option ResourceRef
ref_of rk none = none
ref_of rk (some rg) = lookup rk rg.resources

lookup-put_refs :
    (k : String) (rs : List ResourceRef) (d : Dict ResourceRef)
    → lookup k (put_refs rs d) ≡ last_ref k rs (lookup k d)
unfolding put_refs
lookup-put_refs k [] d = refl
lookup-put_refs k (r ∷ rs) d = simp (lookup-put_refs k rs (insert (ref_key r) r d), lookup-insert)

ref_of-found :
    (rk : String) (g : ResourceGroup) (o : Option Rg)
    → lookup rk (found g o).resources ≡ ref_of rk o
unfolding lookup
ref_of-found rk g none = refl
ref_of-found rk g (some rg) = refl

ref_of-join :
    (rk : String) (g : ResourceGroup) (o : Option Rg)
    → lookup rk (join_group g (found g o)).resources ≡ last_ref rk g.resources (ref_of rk o)
ref_of-join rk g o =
    lookup-put_refs rk g.resources (found g o).resources
    ∙ ap (last_ref rk g.resources) (ref_of-found rk g o)

ref_of-insert :
    (gk rk : String) (g : ResourceGroup) (m : Dict Rg)
    → ref_of rk
        (lookup gk (insert (group_key g) (join_group g (found g (lookup (group_key g) m))) m))
      ≡ (if str_eq (group_key g) gk
          then last_ref rk g.resources (ref_of rk (lookup gk m))
          else ref_of rk (lookup gk m))
ref_of-insert gk rk g m = elim (Bool-cases (str_eq (group_key g) gk)) [
  | inl same ↦
      rw (lookup-insert (group_key g) gk (join_group g (found g (lookup (group_key g) m))) m, same)
        (ref_of-join rk g (lookup (group_key g) m)
          ∙ ap (λ k. last_ref rk g.resources (ref_of rk (lookup k m)))
              ((eq_iff (group_key g) gk).0 same))
  | inr other ↦
      rw (lookup-insert (group_key g) gk (join_group g (found g (lookup (group_key g) m))) m, other)
        refl
]

lookup-group_map :
    (gk rk : String) (gs : List ResourceGroup) (m : Dict Rg)
    → ref_of rk (lookup gk (group_map gs m)) ≡ last_in gk rk gs (ref_of rk (lookup gk m))
unfolding group_map
lookup-group_map gk rk [] m = refl
lookup-group_map gk rk (g ∷ gs) m =
    lookup-group_map gk rk gs _ ∙ ap (last_in gk rk gs) (ref_of-insert gk rk g m)

-- In the map that packGroups builds, a group has under each resource key the last resource of that
-- key among all the given groups with the group's key, and none where there is none.
pub group_map-last :
    (gk rk : String) (gs : List ResourceGroup)
    → ref_of rk (lookup gk (group_map gs [])) ≡ last_in gk rk gs none
group_map-last gk rk gs = unfold lookup in lookup-group_map gk rk gs []
