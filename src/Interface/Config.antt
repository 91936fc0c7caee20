-- ===== src/Interface/Config.antt =====
-- ietf_interface_create_cb of src/plugins/ietf/ietf_interface.cpp, the callback for changes under
-- /ietf-interfaces:interfaces/interface. sysrepo's iterator yields the changes as a list; the
-- freeing of values and the logging of texts are left out, the pointers that they read are not.
pub mod Creation
pub mod Edits
pub mod Sequence
pub mod Tracking
pub mod Replay
pub mod Faults
pub mod Total
use archived_sweetcomb.Prelude.{String, true, not, none, some, List, [], ◌∷◌, if◌then◌else◌}
use archived_sweetcomb.Outcome.{Outcome, returns, ◌>>=◌, ◌>>◌, deref}
use archived_sweetcomb.Sysrepo.{
  SrError, ok, operation_failed, unsupported, is_ok, SrEvent, is_verify, created, modified, deleted,
  moved, SrVal, read_string, read_bool, Change, Session, Xpath, node_name_eq, foreach_change,
}
use archived_sweetcomb.Vom.{Vom}
use archived_sweetcomb.Interface.{
  int_of_bool, Garbage, set_name, set_type, set_state, Locals, Round, go_on, continue, nothing_todo,
  shared, finish, start,
}

-- `old_val ? old_val->xpath : new_val->xpath`
unfoldable pub change_xpath : Change → Outcome String
change_xpath c = elim c.old_val [
  | some v ↦ returns v.xpath
  | none ↦ elim c.new_val [ some v ↦ returns v.xpath | none ↦ deref none ]
]

module _ (X : Xpath) (V : Vom) where
  -- The branch SR_OP_MODIFIED, on the new value.
  unfoldable pub on_modified : Locals V → SrVal → Outcome (Round V)
  on_modified l v =
      if node_name_eq X v.xpath "enabled"
      then (do
        n ← deref (X.key_value v.xpath "interface" "name")
        elim (V.find l.db n) [
          | none ↦ returns (nothing_todo operation_failed l.db)
          | some r ↦ do
            b ← read_bool v
            returns (
                continue (record l {
                  db = V.set l.db r (V.admin_from_int (int_of_bool b));
                  intf = shared r;
                  modify = true;
                }))
        ])
      else returns (continue l)

  -- The branch SR_OP_CREATED, on the new value.
  unfoldable pub on_created : Locals V → SrVal → Outcome (Round V)
  unfolding set_name set_type set_state
  on_created l v =
      if node_name_eq X v.xpath "name"
      then (do
        n ← read_string v
        returns (continue (record l { builder = set_name l.builder n; create = true })))
      else if node_name_eq X v.xpath "type"
      then (do t ← read_string v; returns (continue (record l { builder = set_type l.builder t })))
      else if node_name_eq X v.xpath "enabled"
      then (do b ← read_bool v; returns (continue (record l { builder = set_state l.builder b })))
      else returns (continue l)

  -- The branch SR_OP_DELETED, on the old value.
  unfoldable pub on_deleted : Locals V → SrVal → Outcome (Round V)
  unfolding set_name
  on_deleted l v =
      if node_name_eq X v.xpath "name"
      then (do
        n ← read_string v
        returns (continue (record l { builder = set_name l.builder n; remove = true })))
      else returns (continue l)

  -- The switch over the operation.
  unfoldable pub on_change : Locals V → Change → Outcome (Round V)
  unfolding on_modified on_created on_deleted
  on_change l c = elim c.op [
    | modified ↦ deref c.new_val >>= on_modified l
    | created ↦ deref c.new_val >>= on_created l
    | deleted ↦ deref c.old_val >>= on_deleted l
    | moved ↦ returns (nothing_todo unsupported l.db)
  ]

  -- The loop.
  unfoldable pub on_changes : Locals V → List Change → Outcome (Round V)
  on_changes l [] = returns (continue l)
  on_changes l (c ∷ cs) = do
    change_xpath c
    round ← on_change l c
    go_on V (λ l'. on_changes l' cs) round

  unfoldable pub ietf_interface_create_cb :
      Garbage → Session → String → SrEvent → V.Db → Outcome (SrError × V.Db)
  unfolding on_changes
  ietf_interface_create_cb g session xpath event db =
      if not (is_verify event)
      then returns (ok, db)
      else if not (is_ok (session.get_changes_iter xpath))
      then returns (operation_failed, db)
      else on_changes (start V g db) (foreach_change event (session.changes xpath)) >>= finish V
