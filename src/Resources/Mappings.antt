-- ===== src/Resources/Mappings.antt =====
-- What nat_mapping_table_config_cb of src/plugins/ietf/ietf_nat.cpp frees, from the loop over the
-- changes to its end. It frees the iterator behind the loop, and an error behind that jumps to the
-- label that frees it as well. The list `dangling` has what sr_free_val frees through ol and ne when
-- they are what the last call of sr_get_change_next left.
pub mod Frees
pub mod Undefined
use archived_sweetcomb.Prelude.{ltb, not, String, Option, if◌then◌else◌, List, [], ◌∷◌, ◌++◌}
use archived_sweetcomb.Outcome.{◌>>=◌, Outcome, returns, crash}
use archived_sweetcomb.Sysrepo.{
  SrEvent, is_verify, ok, inval_arg, Session, arg_check2, foreach_change, SrError, is_ok, Change,
  Xpath,
}
use archived_sweetcomb.Vom.{Vom}
use archived_sweetcomb.Nat.{
  NatGarbage, NatLocals, NatState, NatRound, continue, error, nat_start, nat_commit, on_nat_change,
}
use archived_sweetcomb.Resources.{Resource, iterator, Exit, next, label, leave, freeing_loop, times}

module _ (V : Vom) where
  abbrev pub nat_exit : NatRound V → Exit (NatLocals V) SrError ⊥
  nat_exit (continue l) = next l
  nat_exit (error rc) = label rc

  abbrev pub nat_round_of : Exit (NatLocals V) SrError ⊥ → NatRound V
  nat_round_of (next l) = continue l
  nat_round_of (label rc) = error rc
  nat_round_of (leave e) = absurd e

  -- What `error` frees behind the loop: nothing where it is not reached.
  abbrev pub error_label : List Resource → SrError → List Resource
  error_label dangling rc = if is_ok rc then [] else (dangling ++ iterator ∷ [])

  unfoldable pub nat_freeing_end :
      List Resource
      → NatState V
      → List Resource × Exit (NatLocals V) SrError ⊥
      → List Resource × (SrError × NatState V)
  nat_freeing_end dangling s (freed, next l) =
      let r = nat_commit V l s in (freed ++ iterator ∷ error_label dangling r.0, r)
  nat_freeing_end dangling s (freed, label rc) = (freed ++ iterator ∷ [], (rc, s))
  nat_freeing_end dangling s (freed, leave e) = absurd e

module _ (X : Xpath) (V : Vom) where
  unfoldable pub nat_round : NatLocals V → Change → Outcome (Exit (NatLocals V) SrError ⊥)
  nat_round l c = do round ← on_nat_change X V l c; returns (nat_exit V round)

  -- The callback from foreach_change on, with what it frees.
  unfoldable pub nat_freeing :
      NatGarbage
      → List Resource
      → List Change
      → NatState V
      → Outcome (List Resource × (SrError × NatState V))
  unfolding nat_round nat_freeing_end
  nat_freeing g dangling changes s = do
    t ← freeing_loop nat_round 0 (nat_start V g) changes
    returns (nat_freeing_end V dangling s t)

  -- The callback, with what it frees. Where sr_get_changes_iter fails, `it` may still be what the
  -- stack held, and freeing that is undefined.
  unfoldable pub nat_frees :
      NatGarbage
      → Outcome (List Resource)
      → List Resource
      → Option Session
      → Option String
      → SrEvent
      → NatState V
      → Outcome (List Resource × (SrError × NatState V))
  unfolding nat_freeing
  nat_frees g left dangling ds xpath event s =
      arg_check2 (returns ([], (inval_arg, s))) ds xpath (λ ds' xpath'.
        if not (is_verify event)
        then returns ([], (ok, s))
        else if not (is_ok (ds'.get_changes_iter xpath'))
        then (left >>= λ freed. returns (freed, (ds'.get_changes_iter xpath', s)))
        else nat_freeing g dangling (foreach_change event (ds'.changes xpath')) s)

  -- The callback as it runs: to free the iterator a second time is undefined.
  unfoldable pub nat_guarded :
      NatGarbage
      → Outcome (List Resource)
      → List Resource
      → Option Session
      → Option String
      → SrEvent
      → NatState V
      → Outcome (SrError × NatState V)
  unfolding nat_frees
  nat_guarded g left dangling ds xpath event s = do
    t ← nat_frees g left dangling ds xpath event s
    (if ltb 1 (times iterator t.0) then crash else returns t.1)
