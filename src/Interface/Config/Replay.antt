-- ===== src/Interface/Config/Replay.antt =====
-- ietf_interface_create_cb of src/plugins/ietf/ietf_interface.cpp on transactions with any number of
-- edits, against the abstract model of Interface/Config/Sequence.antt.
use mathlib.Core.Path.{fun_ext}
use archived_sweetcomb.Prelude.{
  String, Bool, true, false, ◌≡◌, refl, sym, ◌∙◌, some, List, ◌==◌, if◌then◌else◌, All, Bool-cases,
  inl, inr, eq_of_true,
}
use archived_sweetcomb.Outcome.{Outcome, returns, ◌>>=◌}
use archived_sweetcomb.Sysrepo.{
  SrError, ok, operation_failed, verify, Session, Xpath, foreach_change,
}
use archived_sweetcomb.Vom.{Vom}
use archived_sweetcomb.Interface.{
  int_of_bool, Garbage, fresh_builder, Locals, Round, build, commit, finish, start, write_intf,
}
use archived_sweetcomb.Interface.Laws.{InterfaceLaws}
use archived_sweetcomb.Interface.Config.{ietf_interface_create_cb}
use archived_sweetcomb.Interface.Config.Edits.{Edit, Configuration}
use archived_sweetcomb.Interface.Config.Sequence.{
  all_changes, IsValid, IsAllClear, Pending, idle, writes, removes, all_deferred, sets, enact,
  settle, transacted,
}
use archived_sweetcomb.Interface.Config.Tracking.{HasObject, Tracks, Reaches, on_changes-Reaches}

module _ (X : Xpath) (V : Vom) (L : InterfaceLaws V) where
  -- VOM refuses no interface.
  abbrev pub Accepts : Type 0
  Accepts = (db : V.Db) (k : String) (i : V.Interface) → (V.write_interface db k i).1 ≡ true

  -- The callback answers as the model does and leaves the model's configuration behind.
  abbrev pub Follows : SrError × Configuration V → Outcome (SrError × V.Db) → Type 0
  Follows answer m = (db : V.Db) × (m ≡ returns (answer.0, db)) × (L.view db ≡ answer.1)

  module _ (accepts : Accepts) where
    -- Writing an object of the database back changes nothing.
    write_again :
        (db : V.Db) (i : V.Interface)
        → L.view db (V.key i) ≡ some (L.admin i)
        → L.view (V.write_interface db (V.key i) i).0 ≡ L.view db
    write_again db i h = fun_ext (λ n.
        L.view-write db i n (accepts db (V.key i) i) ∙ elim (Bool-cases (n == V.key i)) [
          | inl same ↦ rw (same, eq_of_true same, h) refl
          | inr other ↦ rw other refl
        ])

    write_shared :
        (l : Locals V)
        → HasObject X V L l
        → (db : V.Db) × (write_intf V l.db l.intf ≡ returns (ok, db)) × (L.view db ≡ L.view l.db)
    unfolding write_intf
    write_shared l (r, points, held) =
        let i = V.pointee l.db r in
        (
          (V.write_interface l.db (V.key i) i).0,
          rw (points, accepts l.db (V.key i) i) refl,
          write_again l.db i held,
        )

    commit-Follows :
        (p : Pending) (t : Bool) (l : Locals V)
        → Tracks X V L p t l
        → Follows (settle V p t (L.view l.db)) (commit V l)
    unfolding commit build write_intf
    commit-Follows idle true l ((create, remove, type), modify, object) =
        rw (create, modify) (write_shared l (object refl))
    commit-Follows idle false l ((create, remove, type), modify, object) =
        rw (create, modify, remove) (l.db, refl, refl)
    commit-Follows (removes name) true l ((create, remove, same, type), modify, object) =
        rw (create, modify) (write_shared l (object refl))
    commit-Follows (removes name) false l ((create, remove, same, type), modify, object) =
        rw (create, modify, remove, same)
          (V.remove l.db name, refl, fun_ext (L.view-remove l.db name))
    commit-Follows (writes name b false) t l ((create, builder, named), modify, object) =
        rw (create, builder, named) (l.db, refl, refl)
    commit-Follows (writes name b true) t l ((create, builder, named), modify, object) =
        let i =
          V.interface name (V.type_from_string "ETHERNET") (V.admin_from_int (int_of_bool b)) in
        let done = accepts l.db (V.key i) i in
        rw (create, builder, named)
          (
            (V.write_interface l.db (V.key i) i).0,
            rw done refl,
            fun_ext
                (λ n. L.view-write l.db i n done ∙ rw (L.key-interface, L.admin-interface) refl),
          )

    finish-Follows :
        (p : Pending) (t : Bool) (end : Bool × Configuration V) (m : Outcome (Round V))
        → Reaches X V L p t end m
        → Follows (if end.0 then settle V p t end.1 else (operation_failed, end.1)) (m >>= finish V)
    unfolding finish
    finish-Follows p t (true, config) m (l, e, view, h) = rw (e, sym view) (commit-Follows p t l h)
    finish-Follows p t (false, config) m (db, e, view) = rw e (db, refl, view)

    -- What the callback does with a verified transaction of any number of edits, if no uninitialised
    -- flag happens to be true and VOM keeps the laws and refuses no interface. An edit creates an
    -- interface of any type, reported as its entry and the leaves name, type and enabled in this
    -- order, or sets a leaf enabled, or deletes an entry, reported as the entry, its name and any
    -- other nodes below it; the paths lead to these nodes and the names are not empty. The callback
    -- answers as the abstract model does, SR_ERR_OK, SR_ERR_OPERATION_FAILED for a leaf of an
    -- interface that is not there, or SR_ERR_INVAL_ARG for a new interface without the type
    -- ethernetCsmacd, and the configuration in VOM behind it is the one that the model computes.
    pub create_cb-Follows :
        (g : Garbage) (session : Session) (xpath : String) (db : V.Db) (edits : List Edit)
        → IsAllClear g
        → All (IsValid X) edits
        → session.get_changes_iter xpath ≡ ok
        → session.changes xpath ≡ all_changes edits
        → Follows
            (transacted V edits (L.view db))
            (ietf_interface_create_cb X V g session xpath verify db)
    unfolding ietf_interface_create_cb foreach_change start fresh_builder
    create_cb-Follows g session xpath db edits clear valid ready changed =
        rw (ready, changed)
          (finish-Follows (all_deferred edits idle) (sets edits false) (enact V edits (L.view db)) _
            (on_changes-Reaches X V L edits (start V g db) idle false
              ((clear.0, clear.2, refl), clear.1, λ h. absurd (cc)) valid))
