-- ===== src/Openconfig.antt =====
-- oc_interfaces_config_cb of src/plugins/openconfig/openconfig_interfaces.cpp, the callback for
-- changes under /openconfig-interfaces:interfaces/interface/config. The branches of its switch are
-- those of the IETF callback (Interface/Config.antt), the same statements in both files, and so are
-- the builder and the commit (Interface.antt).
pub mod Changes
pub mod Deletions
use archived_sweetcomb.Prelude.{String, not, Option, List, [], ◌∷◌, if◌then◌else◌, is_empty}
use archived_sweetcomb.Outcome.{Outcome, returns, ◌>>=◌, deref}
use archived_sweetcomb.Sysrepo.{
  SrError, ok, inval_arg, unsupported, is_ok, SrEvent, is_verify, created, modified, deleted, moved,
  SrVal, Change, Session, Xpath, foreach_change, arg_check2,
}
use archived_sweetcomb.Vom.{Vom}
use archived_sweetcomb.Interface.{
  Garbage, Locals, Round, go_on, continue, nothing_todo, finish, start,
}
use archived_sweetcomb.Interface.Config.{on_modified, on_created, on_deleted}

module _ (X : Xpath) (V : Vom) where
  -- The switch over the operation, for a change whose new value is ne.
  unfoldable pub oc_switch : Locals V → SrVal → Change → Outcome (Round V)
  oc_switch l ne c = elim c.op [
    | created ↦ on_created X V l ne
    | modified ↦ on_modified X V l ne
    | deleted ↦ deref c.old_val >>= on_deleted X V l
    | moved ↦ returns (nothing_todo unsupported l.db)
  ]

  -- A round of the loop. It reads the XPath of the new value, whatever the operation is.
  unfoldable pub oc_on_change : Locals V → Change → Outcome (Round V)
  unfolding oc_switch
  oc_on_change l c = do
    ne ← deref c.new_val
    intf_name ← deref (X.key_value ne.xpath "interface" "name")
    (if is_empty intf_name then returns (nothing_todo inval_arg l.db) else oc_switch l ne c)

  unfoldable pub oc_on_changes : Locals V → List Change → Outcome (Round V)
  oc_on_changes l [] = returns (continue l)
  oc_on_changes l (c ∷ cs) = do round ← oc_on_change l c; go_on V (λ l'. oc_on_changes l' cs) round

  -- The callback; a null session or a null XPath is `none`.
  unfoldable pub oc_interfaces_config_cb :
      Garbage → Option Session → Option String → SrEvent → V.Db → Outcome (SrError × V.Db)
  unfolding oc_on_changes
  oc_interfaces_config_cb g ds xpath event db =
      arg_check2 (returns (inval_arg, db)) ds xpath (λ ds' xpath'.
        if not (is_verify event)
        then returns (ok, db)
        else if not (is_ok (ds'.get_changes_iter xpath'))
        then returns (ok, db)
        else oc_on_changes (start V g db) (foreach_change event (ds'.changes xpath')) >>= finish V)
