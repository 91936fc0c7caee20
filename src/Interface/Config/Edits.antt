-- ===== src/Interface/Config/Edits.antt =====
-- Edits of the list of interfaces and the changes that sysrepo reports for them to
-- ietf_interface_create_cb of src/plugins/ietf/ietf_interface.cpp.
use archived_sweetcomb.Prelude.{
  String, Bool, true, false, ◌≡◌, refl, Option, some, List, [], ◌∷◌, ◌++◌, if◌then◌else◌, All,
}
use archived_sweetcomb.Sysrepo.{
  modified, bool_t, string_t, list_t, no_data, string_val, bool_val, Change, Xpath, node_name_eq,
}
use archived_sweetcomb.Vom.{Vom}
use archived_sweetcomb.Interface.{Locals, set_name}
use archived_sweetcomb.Interface.Config.{change_xpath, on_change, on_changes}
use archived_sweetcomb.Interface.Config.Creation.{
  NewInterface, IsNamed, creations, Leaf, deletion, deletions,
}

-- One edit of the running configuration: a new interface, a new value of the leaf enabled at a
-- path, or the removal of an entry, with the paths of the entry and of its name, the name, and the
-- nodes below the entry that are gone with it.
pub data Edit : Type 0 where
  create_entry : NewInterface → Edit
  set_enabled : String → String → Bool → Edit
  delete_entry : String → String → String → List Leaf → Edit

-- The changes that sysrepo reports for it.
abbrev pub changes_of : Edit → List Change
changes_of (create_entry n) = creations n
changes_of (set_enabled path name b) =
    record {
      op = modified;
      old_val =
          some
            (record { xpath = path; type = bool_t; datum = bool_val (if b then false else true) });
      new_val = some (record { xpath = path; type = bool_t; datum = bool_val b });
    }
    ∷ []
changes_of (delete_entry entry path name leaves) =
    deletion entry list_t no_data ∷ deletion path string_t (string_val name) ∷ deletions leaves

-- The paths of an edit lead to the nodes that it names.
abbrev pub IsPlaced : Xpath → Edit → Type 0
IsPlaced X (create_entry n) = IsNamed X n
IsPlaced X (set_enabled path name b) =
    (X.node_name path ≡ "enabled") × (X.key_value path "interface" "name" ≡ some name)
IsPlaced X (delete_entry entry path name leaves) =
    (X.node_name entry ≡ "interface")
    × (X.node_name path ≡ "name")
    × All (λ leaf. node_name_eq X leaf.path "name" ≡ false) leaves

-- The names of interfaces with their administrative states.
abbrev pub Configuration : Vom → Type 0
Configuration V = String → Option V.AdminState

module _ (X : Xpath) (V : Vom) where
  on_changes-deletions :
      (l : Locals V) (leaves : List Leaf) (rest : List Change)
      → All (λ leaf. node_name_eq X leaf.path "name" ≡ false) leaves
      → on_changes X V l (deletions leaves ++ rest) ≡ on_changes X V l rest
  unfolding on_changes on_change change_xpath
  on_changes-deletions l [] rest h = refl
  on_changes-deletions l (leaf ∷ leaves) rest h = rw h.0 (on_changes-deletions l leaves rest h.1)

  -- The rounds of an entry that is deleted.
  pub on_changes-delete :
      (l : Locals V) (rest : List Change) (entry path name : String) (leaves : List Leaf)
      → IsPlaced X (delete_entry entry path name leaves)
      → on_changes X V l (changes_of (delete_entry entry path name leaves) ++ rest)
        ≡ on_changes X V (record l { builder = set_name l.builder name; remove = true }) rest
  unfolding on_changes on_change change_xpath set_name
  on_changes-delete l rest entry path name leaves h =
      rw (h.0, h.1) (on_changes-deletions _ leaves rest h.2)
