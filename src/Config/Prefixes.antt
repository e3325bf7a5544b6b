-- ===== src/Config/Prefixes.antt =====
-- config/config.go, loadAdvancedPrefixes: the prefix of a connection is the last one for it.
use tcg.Common.{
  ◌≡◌, refl, ap, ◌∙◌, Bool, true, false, Option, none, some, is_some, List, [], ◌∷◌, String, ℤ, map,
  if◌then◌else◌,
}
use tcg.Config.{Connector, GwConnection}
use tcg.Config.Load.{Prefix, http_encoded, prepare, fits, take_prefixes, load_prefix}

-- The last prefix for a connection, by its id, that is not empty.
abbrev pub prefix_of : List Prefix → ℤ → Option String
prefix_of [] id = none
prefix_of (p ∷ ps) id = elim (prefix_of ps id) [
  | some s ↦ some s
  | none ↦ if fits id p then some p.prefix else none
]

abbrev pub or_empty : Option String → String
or_empty none = ""
or_empty (some s) = s

-- The connection with its last prefix, or with what it had.
abbrev with_prefix : Option String → GwConnection → GwConnection
with_prefix none c = c
with_prefix (some s) c = record c { prefix_resource_names = true; resource_name_prefix = s }

-- What a connection of the data becomes.
abbrev pub loaded_connection : Connector → Bool → List Prefix → GwConnection → GwConnection
loaded_connection conn dynamic ps c = record c {
  prefix_resource_names = is_some (prefix_of ps c.id);
  resource_name_prefix = or_empty (prefix_of ps c.id);
  is_dynamic_inventory = dynamic;
  http_encode = http_encoded conn.gw_encode c;
}

abbrev put_prefix : String → Bool → GwConnection → GwConnection
put_prefix s t c =
    if t then record c { prefix_resource_names = true; resource_name_prefix = s } else c

id_kept : (s : String) (t : Bool) (c : GwConnection) → (put_prefix s t c).id ≡ c.id
id_kept s true c = refl
id_kept s false c = refl

step_prefix :
    (s : String) (t : Bool) (c : GwConnection) (o : Option String)
    → with_prefix o (put_prefix s t c)
      ≡ with_prefix
          (elim o as (λ x. Option String) [ some r ↦ some r | none ↦ if t then some s else none ])
          c
step_prefix s true c none = refl
step_prefix s false c none = refl
step_prefix s true c (some r) = refl
step_prefix s false c (some r) = refl

take_prefixes-with_prefix :
    (ps : List Prefix) (c : GwConnection) → take_prefixes ps c ≡ with_prefix (prefix_of ps c.id) c
unfolding take_prefixes
take_prefixes-with_prefix [] c = refl
take_prefixes-with_prefix (p ∷ ps) c =
    let d = put_prefix p.prefix (fits c.id p) c in
    take_prefixes-with_prefix ps d
    ∙ ap (λ id. with_prefix (prefix_of ps id) d) (id_kept p.prefix (fits c.id p) c)
    ∙ step_prefix p.prefix (fits c.id p) c (prefix_of ps c.id)

-- What a connection of the data becomes.
loaded_of :
    (conn : Connector) (c : GwConnection) (o : Option String)
    → prepare conn
        (with_prefix o (record c { prefix_resource_names = false; resource_name_prefix = "" }))
      ≡ record c {
        prefix_resource_names = is_some o;
        resource_name_prefix = or_empty o;
        is_dynamic_inventory = conn.is_dynamic_inventory;
        http_encode = http_encoded conn.gw_encode c;
      }
unfolding prepare
loaded_of conn c none = refl
loaded_of conn c (some s) = refl

prepare-load_prefix :
    (conn : Connector) (ps : List Prefix) (c : GwConnection)
    → prepare conn (load_prefix ps c) ≡ loaded_connection conn conn.is_dynamic_inventory ps c
unfolding load_prefix
prepare-load_prefix conn ps c =
    ap (prepare conn) (
      take_prefixes-with_prefix ps
        (record c { prefix_resource_names = false; resource_name_prefix = "" }))
    ∙ loaded_of conn c (prefix_of ps c.id)

pub loaded_all :
    (conn : Connector) (ps : List Prefix) (cs : List GwConnection)
    → map (prepare conn) (map (load_prefix ps) cs)
      ≡ map (loaded_connection conn conn.is_dynamic_inventory ps) cs
loaded_all conn ps [] = refl
loaded_all conn ps (c ∷ cs) = rw (prepare-load_prefix conn ps c, loaded_all conn ps cs) refl
