-- ===== src/Resources/Addresses.antt =====
-- What ietf_interface_ipv46_address_change_cb of src/plugins/ietf/ietf_interface.cpp frees, from the
-- loop over the changes to its end: the values of a round behind the try block or at the label
-- nothing_todo, and the iterator behind the loop or at that label.
pub mod Frees
use archived_sweetcomb.Prelude.{not, String, if◌then◌else◌, List, [], ◌∷◌, ◌++◌}
use archived_sweetcomb.Outcome.{◌>>=◌, Outcome, returns}
use archived_sweetcomb.Sysrepo.{
  is_ok, ok, is_apply, SrEvent, Session, foreach_change, SrError, Change, Xpath,
}
use archived_sweetcomb.Vom.{Vom}
use archived_sweetcomb.Address.{
  AddressState, AddressRound, continue, nothing_todo, initial, on_change,
}
use archived_sweetcomb.Resources.{Resource, iterator, Exit, next, label, leave, freeing_loop}

module _ (V : Vom) where
  abbrev pub address_exit : AddressRound V → Exit (AddressState V) (SrError × V.Db) ⊥
  address_exit (continue s) = next s
  address_exit (nothing_todo rc db) = label (rc, db)

  unfoldable pub address_freeing_end :
      List Resource × Exit (AddressState V) (SrError × V.Db) ⊥ → List Resource × (SrError × V.Db)
  address_freeing_end (freed, next s) = (freed ++ iterator ∷ [], (s.op_rc, s.db))
  address_freeing_end (freed, label r) = (freed ++ iterator ∷ [], r)
  address_freeing_end (freed, leave e) = absurd e

module _ (X : Xpath) (V : Vom) where
  unfoldable pub address_round :
      AddressState V → Change → Outcome (Exit (AddressState V) (SrError × V.Db) ⊥)
  address_round s c = do round ← on_change X V s c; returns (address_exit V round)

  -- The callback from foreach_change on, with what it frees.
  unfoldable pub address_freeing : List Change → V.Db → Outcome (List Resource × (SrError × V.Db))
  unfolding address_round address_freeing_end initial
  address_freeing changes db = do
    t ← freeing_loop address_round 0 (initial V db) changes
    returns (address_freeing_end V t)

  -- The callback, with what it frees; `left` has what sr_free_change_iter frees where
  -- sr_get_changes_iter fails.
  unfoldable pub address_frees :
      List Resource → Session → String → SrEvent → V.Db → Outcome (List Resource × (SrError × V.Db))
  unfolding address_freeing
  address_frees left session xpath event db =
      if is_apply event
      then returns ([], (ok, db))
      else if not (is_ok (session.get_changes_iter xpath))
      then returns (left, (session.get_changes_iter xpath, db))
      else address_freeing (foreach_change event (session.changes xpath)) db
