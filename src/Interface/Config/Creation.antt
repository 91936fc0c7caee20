-- ===== src/Interface/Config/Creation.antt =====
-- What ietf_interface_create_cb does with the changes that create interfaces: the entry of the
-- list and its leaves name, type and enabled, in the order of the YANG model.
use archived_sweetcomb.Prelude.{
  String, Bool, true, false, ◌≡◌, refl, ap, ◌∙◌, none, some, List, [], ◌∷◌, ◌++◌, if◌then◌else◌,
  is_empty, All, ◌||◌, ◌==◌, Bool-cases, inl, inr,
}
use archived_sweetcomb.Outcome.{Outcome, returns}
use archived_sweetcomb.Sysrepo.{
  SrError, ok, operation_failed, inval_arg, verify, created, deleted, SrType, list_t, string_t,
  identityref_t, bool_t, SrData, no_data, string_val, bool_val, Change, Session, Xpath,
  foreach_change,
}
use archived_sweetcomb.Vom.{Vom}
use archived_sweetcomb.Interface.{
  int_of_bool, InterfaceBuilder, Garbage, Locals, continue, commit, finish, start, build,
  write_intf,
}
use archived_sweetcomb.Interface.Config.{
  change_xpath, on_change, on_changes, ietf_interface_create_cb,
}

abbrev pub creation : String → SrType → SrData → Change
creation xpath type datum = record {
  op = created;
  old_val = none;
  new_val = some (record { xpath = xpath; type = type; datum = datum });
}

-- The change that reports a node that is gone.
abbrev pub deletion : String → SrType → SrData → Change
deletion xpath type datum = record {
  op = deleted;
  old_val = some (record { xpath = xpath; type = type; datum = datum });
  new_val = none;
}

-- A node below an entry: its XPath and its value.
pub record Leaf : Type 0 where
  pub path : String
  pub type : SrType
  pub datum : SrData

-- The deletions of some nodes.
abbrev pub deletions : List Leaf → List Change
deletions [] = []
deletions (leaf ∷ leaves) = deletion leaf.path leaf.type leaf.datum ∷ deletions leaves

-- A new interface: the XPaths of its entry and of three leaves, its name, its type, which is an
-- identity of YANG, and its state.
pub record NewInterface : Type 0 where
  pub entry_path : String
  pub name_path : String
  pub type_path : String
  pub enabled_path : String
  pub name : String
  pub type : String
  pub enabled : Bool

-- The changes that sysrepo reports for it.
abbrev pub creations : NewInterface → List Change
creations n =
    creation n.entry_path list_t no_data
    ∷ creation n.name_path string_t (string_val n.name)
    ∷ creation n.type_path identityref_t (string_val n.type)
    ∷ creation n.enabled_path bool_t (bool_val n.enabled)
    ∷ []

abbrev pub all_creations : List NewInterface → List Change
all_creations [] = []
all_creations (n ∷ ns) = creations n ++ all_creations ns

-- Each path ends in the node that it stands for, and the name is not empty.
pub record IsNamed (X : Xpath) (n : NewInterface) : Type 0 where
  pub entry_node : X.node_name n.entry_path ≡ "interface"
  pub name_node : X.node_name n.name_path ≡ "name"
  pub type_node : X.node_name n.type_path ≡ "type"
  pub enabled_node : X.node_name n.enabled_path ≡ "enabled"
  pub nonempty : is_empty n.name ≡ false

-- The type is the only one that the plugin supports.
abbrev pub is_ethernet : NewInterface → Bool
is_ethernet n = n.type == "iana-if-type:ethernetCsmacd"

-- One of the interfaces has that type.
abbrev pub any_ethernet : List NewInterface → NewInterface → Bool
any_ethernet [] last = is_ethernet last
any_ethernet (n ∷ ns) last = is_ethernet n || any_ethernet ns last

-- The builder that such changes leave behind, from the type that it had before.
abbrev pub builder_of : Bool → String → NewInterface → InterfaceBuilder
builder_of ethernet type n = record {
  m_name = n.name;
  m_type = if ethernet then "ETHERNET" else type;
  m_state = n.enabled;
}

if-or :
    (a b : Bool) (x y : String) → (if b then x else if a then x else y) ≡ (if a || b then x else y)
if-or true true x y = refl
if-or true false x y = refl
if-or false true x y = refl
if-or false false x y = refl

module _ (X : Xpath) (V : Vom) where
  -- The object that is built for it.
  abbrev pub object_of : NewInterface → V.Interface
  object_of n =
      V.interface n.name (V.type_from_string "ETHERNET") (V.admin_from_int (int_of_bool n.enabled))

  pub on_changes-creations :
      (n : NewInterface) (l : Locals V) (rest : List Change)
      → IsNamed X n
      → on_changes X V l (creations n ++ rest)
        ≡ on_changes X V
            (record l { builder = builder_of (is_ethernet n) l.builder.m_type n; create = true })
            rest
  unfolding on_changes on_change change_xpath
  on_changes-creations n l rest h = elim (Bool-cases (is_ethernet n)) [
    | inl same ↦ rw (h.entry_node, h.name_node, h.type_node, h.enabled_node, same) refl
    | inr other ↦ rw (h.entry_node, h.name_node, h.type_node, h.enabled_node, other) refl
  ]

  on_changes-all_creations :
      (ns : List NewInterface) (l : Locals V) (last : NewInterface)
      → All (IsNamed X) ns
      → IsNamed X last
      → on_changes X V l (all_creations ns ++ creations last)
        ≡ returns (
            continue (record l {
              builder = builder_of (any_ethernet ns last) l.builder.m_type last;
              create = true;
            }))
  unfolding on_changes
  on_changes-all_creations [] l last hs h = on_changes-creations last l [] h
  on_changes-all_creations (n ∷ ns) l last hs h =
      on_changes-creations n l (all_creations ns ++ creations last) hs.0
      ∙ on_changes-all_creations ns _ last hs.1 h
      ∙ ap
          (λ type. returns (
            continue (record l {
              builder = record { m_name = last.name; m_type = type; m_state = last.enabled };
              create = true;
            })))
          (if-or (is_ethernet n) (any_ethernet ns last) "ETHERNET" l.builder.m_type)

  -- The answer of the callback when it writes one object.
  abbrev pub written : V.Db → V.Interface → Outcome (SrError × V.Db)
  written db i =
      let (db', done) = V.write_interface db (V.key i) i in
      returns (if done then ok else operation_failed, db')

  -- When a verified transaction creates interfaces, each reported as its entry and the leaves name,
  -- type and enabled in this order, with a name that is not empty, the callback writes one object
  -- under its key, that of the interface created last, and answers SR_ERR_OK if VOM accepts it and
  -- SR_ERR_OPERATION_FAILED if not. It does so if any of the interfaces has the type
  -- ethernetCsmacd; if none has, it answers SR_ERR_INVAL_ARG and writes nothing. Whatever the
  -- uninitialised variables held, it does not matter.
  pub create_cb-creations :
      (g : Garbage) (session : Session) (xpath : String) (db : V.Db) (ns : List NewInterface)
      (last : NewInterface)
      → All (IsNamed X) ns
      → IsNamed X last
      → session.get_changes_iter xpath ≡ ok
      → session.changes xpath ≡ all_creations ns ++ creations last
      → ietf_interface_create_cb X V g session xpath verify db
        ≡ (if any_ethernet ns last then written db (object_of last) else returns (inval_arg, db))
  unfolding ietf_interface_create_cb foreach_change start commit finish build write_intf
  create_cb-creations g session xpath db ns last hs h ready e =
      let loop = on_changes-all_creations ns (start V g db) last hs h in
      elim (Bool-cases (any_ethernet ns last)) [
        | inl some_ethernet ↦ rw (ready, e, loop, h.nonempty, some_ethernet) refl
        | inr no_ethernet ↦ rw (ready, e, loop, h.nonempty, no_ethernet) refl
      ]
