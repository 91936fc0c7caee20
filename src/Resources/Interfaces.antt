-- ===== src/Resources/Interfaces.antt =====
-- What the callbacks for interfaces free, from the loop over the changes to their end:
-- ietf_interface_create_cb of src/plugins/ietf/ietf_interface.cpp and oc_interfaces_config_cb of
-- src/plugins/openconfig/openconfig_interfaces.cpp. What old_val and new_val hold when
-- sr_get_change_next has no more changes is sysrepo's matter: the list `dangling` has what
-- sr_free_val then frees through them.
pub mod Frees
use archived_sweetcomb.Prelude.{
  not, String, Option, ◌+◌, List, [], ◌∷◌, ◌++◌, if◌then◌else◌, is_empty,
}
use archived_sweetcomb.Outcome.{◌>>=◌, Outcome, returns, ◌>>=◌, ◌>>◌, deref}
use archived_sweetcomb.Sysrepo.{
  SrError, SrEvent, is_verify, ok, operation_failed, Session, arg_check2, foreach_change, inval_arg,
  is_ok, Change, Xpath,
}
use archived_sweetcomb.Vom.{Vom}
use archived_sweetcomb.Interface.{Garbage, Locals, Round, continue, nothing_todo, commit, start}
use archived_sweetcomb.Interface.Config.{change_xpath, on_change}
use archived_sweetcomb.Openconfig.{oc_switch}
use archived_sweetcomb.Resources.{Resource, iterator, Exit, next, label, leave, freeing_loop}

module _ (V : Vom) {E : Type 0} where
  -- The switch goes on, or jumps to nothing_todo.
  abbrev pub exit_of : Round V → Exit (Locals V) (SrError × V.Db) E
  exit_of (continue l) = next l
  exit_of (nothing_todo rc db) = label (rc, db)

  module _ (result : E → SrError × V.Db) where
    abbrev pub round_of : Exit (Locals V) (SrError × V.Db) E → Round V
    round_of (next l) = continue l
    round_of (label (rc, db)) = nothing_todo rc db
    round_of (leave e) = nothing_todo (result e).0 (result e).1

    -- Behind the loop: an error of the commit jumps to the label too.
    unfoldable pub freeing_end :
        List Resource
        → List Resource × Exit (Locals V) (SrError × V.Db) E
        → Outcome (List Resource × (SrError × V.Db))
    freeing_end dangling (freed, next l) = do
      r ← commit V l
      returns (freed ++ ((if is_ok r.0 then [] else dangling) ++ iterator ∷ []), r)
    freeing_end dangling (freed, label r) = returns (freed ++ iterator ∷ [], r)
    freeing_end dangling (freed, leave e) = returns (freed, result e)

module _ (X : Xpath) (V : Vom) where
  unfoldable pub create_round : Locals V → Change → Outcome (Exit (Locals V) (SrError × V.Db) ⊥)
  create_round l c = do change_xpath c; round ← on_change X V l c; returns (exit_of V round)

  -- The callback from foreach_change on, with what it frees.
  unfoldable pub create_freeing :
      Garbage → List Resource → List Change → V.Db → Outcome (List Resource × (SrError × V.Db))
  unfolding create_round freeing_end
  create_freeing g dangling changes db =
      freeing_loop create_round 0 (start V g db) changes >>= freeing_end V (λ e. absurd e) dangling

  unfoldable pub oc_round : Locals V → Change → Outcome (Exit (Locals V) (SrError × V.Db) V.Db)
  oc_round l c = do
    ne ← deref c.new_val
    intf_name ← deref (X.key_value ne.xpath "interface" "name")
    (if is_empty intf_name
        then returns (leave l.db)
        else (do round ← oc_switch X V l ne c; returns (exit_of V round)))

  unfoldable pub oc_freeing :
      Garbage → List Resource → List Change → V.Db → Outcome (List Resource × (SrError × V.Db))
  unfolding oc_round freeing_end
  oc_freeing g dangling changes db =
      freeing_loop oc_round 0 (start V g db) changes
      >>= freeing_end V (λ left. (inval_arg, left)) dangling

  -- The callbacks, with what they free; `left` has what sr_free_change_iter frees where
  -- sr_get_changes_iter fails.
  unfoldable pub create_frees :
      Garbage
      → List Resource
      → List Resource
      → Session
      → String
      → SrEvent
      → V.Db
      → Outcome (List Resource × (SrError × V.Db))
  unfolding create_freeing
  create_frees g left dangling session xpath event db =
      if not (is_verify event)
      then returns ([], (ok, db))
      else if not (is_ok (session.get_changes_iter xpath))
      then returns (left, (operation_failed, db))
      else create_freeing g dangling (foreach_change event (session.changes xpath)) db

  unfoldable pub oc_frees :
      Garbage
      → List Resource
      → List Resource
      → Option Session
      → Option String
      → SrEvent
      → V.Db
      → Outcome (List Resource × (SrError × V.Db))
  unfolding oc_freeing
  oc_frees g left dangling ds xpath event db =
      arg_check2 (returns ([], (inval_arg, db))) ds xpath (λ ds' xpath'.
        if not (is_verify event)
        then returns ([], (ok, db))
        else if not (is_ok (ds'.get_changes_iter xpath'))
        then returns (left, (ok, db))
        else oc_freeing g dangling (foreach_change event (ds'.changes xpath')) db)
