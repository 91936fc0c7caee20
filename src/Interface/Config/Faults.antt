-- ===== src/Interface/Config/Faults.antt =====
-- Where ietf_interface_create_cb refuses a transaction, and what it has changed by then.
use archived_sweetcomb.Prelude.{String, Bool, true, false, ◌≡◌, refl, ◌≢◌, none, some, ◌++◌}
use archived_sweetcomb.Outcome.{returns}
use archived_sweetcomb.Sysrepo.{
  ok, inval_arg, operation_failed, is_ok, SrEvent, verify, apply, abort, enabled, Session, Xpath,
  foreach_change,
}
use archived_sweetcomb.Vom.{Vom}
use archived_sweetcomb.Interface.{int_of_bool, Garbage, build, fresh_builder, commit, finish, start}
use archived_sweetcomb.Interface.Config.{
  change_xpath, on_change, on_changes, ietf_interface_create_cb,
}
use archived_sweetcomb.Interface.Config.Edits.{set_enabled, changes_of, IsPlaced}

module _ (X : Xpath) (V : Vom) (g : Garbage) (session : Session) (xpath : String) (db : V.Db) where
  -- Outside the phase SR_EV_VERIFY the callback answers SR_ERR_OK and leaves the database alone, and
  -- so it does, with SR_ERR_OPERATION_FAILED, in that phase if there is no iterator.
  pub create_cb_inert :
      (event : SrEvent)
      → (event ≢ verify → ietf_interface_create_cb X V g session xpath event db ≡ returns (ok, db))
        × (is_ok (session.get_changes_iter xpath) ≡ false
            → ietf_interface_create_cb X V g session xpath verify db
              ≡ returns (operation_failed, db))
  unfolding ietf_interface_create_cb
  create_cb_inert verify = (λ h. absurd (h refl), λ h. rw h refl)
  create_cb_inert apply = (λ h. refl, λ h. rw h refl)
  create_cb_inert abort = (λ h. refl, λ h. rw h refl)
  create_cb_inert enabled = (λ h. refl, λ h. rw h refl)

  module _ (ready : session.get_changes_iter xpath ≡ ok) where
    -- If the uninitialised flag create happens to be true, a verified transaction that sets the leaf
    -- enabled of an interface in the database is refused with SR_ERR_INVAL_ARG, and the object in
    -- VOM's database has been changed all the same, with nothing committed.
    pub create_cb-garbage :
        g.create ≡ true
        → (path name : String) (b : Bool) (r : V.InterfaceRef)
        → IsPlaced X (set_enabled path name b)
        → session.changes xpath ≡ changes_of (set_enabled path name b)
        → V.find db name ≡ some r
        → ietf_interface_create_cb X V g session xpath verify db
          ≡ returns (inval_arg, V.set db r (V.admin_from_int (int_of_bool b)))
    unfolding ietf_interface_create_cb foreach_change start finish commit on_changes on_change
        change_xpath build fresh_builder
    create_cb-garbage dirty path name b r h e found = rw (ready, e, h.0, h.1, found, dirty) refl

    -- A verified transaction that sets the leaf enabled of two interfaces, of which VOM knows the
    -- first and, once that one is set, not the second, is refused with SR_ERR_OPERATION_FAILED, and
    -- keeps the change of the first object.
    pub create_cb-half_done :
        (path path' name name' : String) (b b' : Bool) (r : V.InterfaceRef)
        → IsPlaced X (set_enabled path name b)
        → IsPlaced X (set_enabled path' name' b')
        → session.changes xpath
          ≡ changes_of (set_enabled path name b) ++ changes_of (set_enabled path' name' b')
        → V.find db name ≡ some r
        → V.find (V.set db r (V.admin_from_int (int_of_bool b))) name' ≡ none
        → ietf_interface_create_cb X V g session xpath verify db
          ≡ returns (operation_failed, V.set db r (V.admin_from_int (int_of_bool b)))
    unfolding ietf_interface_create_cb foreach_change start finish commit on_changes on_change
        change_xpath
    create_cb-half_done path path' name name' b b' r h h' e found absent =
        rw (ready, e, h.0, h.1, found, h'.0, h'.1, absent) refl
