-- ===== src/System/Collision.antt =====
-- The keys of interfaces and of static mappings are the same kind of text: what a deletion of an
-- interface removes from VOM's database.
use mathlib.Core.List.{append-nil}
use mathlib.Core.Option
use mathlib.Core.Option.{none-ne-some}
use text.Mathlib.TextPositions.{eq_refl}
use archived_sweetcomb.Prelude.{
  ℕ, String, true, false, ◌≡◌, refl, sym, ap, ◌∙◌, none, some, List, [],
}
use archived_sweetcomb.Outcome.{returns}
use archived_sweetcomb.Sysrepo.{ok, is_ok, verify, Session, Xpath, foreach_change}
use archived_sweetcomb.Vom.{Vom}
use archived_sweetcomb.Prefix.{decimal}
use archived_sweetcomb.Interface.{
  Garbage, Locals, continue, set_name, start, fresh_builder, finish, commit,
}
use archived_sweetcomb.Interface.Config.{on_changes, ietf_interface_create_cb}
use archived_sweetcomb.Interface.Config.Creation.{Leaf}
use archived_sweetcomb.Interface.Config.Edits.{
  delete_entry, IsPlaced, changes_of, on_changes-delete,
}
use archived_sweetcomb.Nat.{NatState}
use archived_sweetcomb.Nat.Consistency.{NatLaws, IsConsistent}

module _ (X : Xpath) (V : Vom) where
  on_changes_delete_only :
      (l : Locals V) (entry path name : String) (leaves : List Leaf)
      → IsPlaced X (delete_entry entry path name leaves)
      → on_changes X V l (changes_of (delete_entry entry path name leaves))
        ≡ returns (continue (record l { builder = set_name l.builder name; remove = true }))
  unfolding on_changes
  on_changes_delete_only l entry path name leaves placed =
      ap (on_changes X V l) (sym (append-nil (changes_of (delete_entry entry path name leaves))))
      ∙ on_changes-delete X V l [] entry path name leaves placed

module _ (X : Xpath) (V : Vom) (L : NatLaws V) where
  -- With clear flags on the stack, the verification of a transaction that only deletes one interface,
  -- reported as its entry, its name and any other nodes below it, and whose name is the number of an
  -- entry of the table is accepted, and behind it the table and VOM are not in step: the static
  -- mapping of that entry is gone from VOM, and the table still has it.
  pub create_cb_collision :
      (g : Garbage) (session : Session) (xpath : String) (s : NatState V) (i : ℕ)
      (pair : V.Address × V.Address) (entry path : String) (leaves : List Leaf)
      → g.create ≡ false
      → g.modify ≡ false
      → is_ok (session.get_changes_iter xpath) ≡ true
      → IsPlaced X (delete_entry entry path (decimal i) leaves)
      → session.changes xpath ≡ changes_of (delete_entry entry path (decimal i) leaves)
      → s.table i ≡ some pair
      → (db : V.Db) × (ietf_interface_create_cb X V g session xpath verify s.db ≡ returns (ok, db))
        × (L.view db (decimal i) ≡ none)
        × ¬ IsConsistent V L (record s { db = db })
  unfolding ietf_interface_create_cb foreach_change start fresh_builder set_name finish commit
  create_cb_collision g session xpath s i pair entry path leaves create modify ready placed changes
        tabled =
      (
        V.remove s.db (decimal i),
        rw
            (
              ready,
              changes,
              on_changes_delete_only X V (start V g s.db) entry path (decimal i) leaves placed,
              create,
              modify,
            )
            refl,
        gone,
        λ h. none-ne-some _ (sym gone ∙ h i ∙ ap (Option.map (λ p. V.nat_static p.0 p.1)) tabled),
      )
    where
      gone : L.view (V.remove s.db (decimal i)) (decimal i) ≡ none
      gone = L.view-remove s.db (decimal i) (decimal i) ∙ rw (eq_refl (decimal i)) refl
