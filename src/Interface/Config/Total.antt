-- ===== src/Interface/Config/Total.antt =====
-- That ietf_interface_create_cb returns: on which changes it neither throws nor runs into undefined
-- behaviour.
use archived_sweetcomb.Prelude.{
  String, Bool, true, false, ◌≡◌, refl, Option, none, some, List, [], ◌∷◌, All, if-ind, Bool-cases,
  Option-cases, inl, inr,
}
use archived_sweetcomb.Outcome.{
  Outcome, returns, crash, >>=-eq-returns, ◌>>◌, Returns, Returns-some, Returns-bind,
}
use archived_sweetcomb.Sysrepo.{
  SrError, is_ok, SrEvent, verify, apply, abort, SrOper, created, modified, deleted, moved, SrVal,
  HasString, HasBool, Change, Session, Xpath, node_name_eq, foreach_change,
}
use archived_sweetcomb.Vom.{Vom}
use archived_sweetcomb.Interface.{
  Garbage, Locals, Round, go_on, continue, nothing_todo, shared, write_intf, commit, finish, start,
  build,
}
use archived_sweetcomb.Interface.Config.{
  change_xpath, on_modified, on_created, on_deleted, on_change, on_changes,
  ietf_interface_create_cb,
}

module _ (X : Xpath) where
  -- What sysrepo promises of a value before and of a value behind a change: a name is a text, a type
  -- is a text, and the leaf enabled is a truth value.
  pub record IsLeaf (v : SrVal) : Type 0 where
    pub name : node_name_eq X v.xpath "name" ≡ true → HasString v
    pub type : node_name_eq X v.xpath "type" ≡ true → HasString v
    pub enabled : node_name_eq X v.xpath "enabled" ≡ true → HasBool v

  -- A modified leaf is inside an interface.
  abbrev pub IsInsideInterface : SrVal → Type 0
  IsInsideInterface v = (n : String) × (X.key_value v.xpath "interface" "name" ≡ some n)

  -- A change has the values that its operation asks for.
  abbrev pub HasValues : SrOper → Option SrVal → Option SrVal → Type 0
  HasValues created old new = (v : SrVal) × (new ≡ some v) × IsLeaf v
  HasValues modified old new = (v : SrVal) × (new ≡ some v) × IsLeaf v × IsInsideInterface v
  HasValues deleted old new = (v : SrVal) × (old ≡ some v) × IsLeaf v
  HasValues moved old new = (v : SrVal) × (new ≡ some v)

  abbrev pub IsWellTyped : Change → Type 0
  IsWellTyped c = HasValues c.op c.old_val c.new_val

not_both : {b : Bool} → b ≡ false → b ≡ true → ⊥
not_both p q = cc

module _ (X : Xpath) (V : Vom) where
  -- The flag modify is set only where the callback has an object of VOM's.
  abbrev HasObject : Locals V → Type 0
  HasObject l = l.modify ≡ true → (r : V.InterfaceRef) × (l.intf ≡ shared r)

  abbrev IsSound : Round V → Type 0
  IsSound (continue l) = HasObject l
  IsSound (nothing_todo rc db) = Unit

  abbrev R : Outcome (Round V) → Type 0
  R = Returns IsSound

  on_created-Returns :
      (l : Locals V) (v : SrVal) → HasObject l → IsLeaf X v → R (on_created X V l v)
  unfolding on_created
  on_created-Returns l v h leaf =
      if-ind R (node_name_eq X v.xpath "name") (λ hit. let (s, e) = leaf.name hit in rw e h)
        (λ _.
          if-ind R (node_name_eq X v.xpath "type") (λ hit. let (s, e) = leaf.type hit in rw e h)
            (λ _.
              if-ind R (node_name_eq X v.xpath "enabled")
                (λ hit. let (b, e) = leaf.enabled hit in rw e h) (λ _. h)))

  on_deleted-Returns :
      (l : Locals V) (v : SrVal) → HasObject l → IsLeaf X v → R (on_deleted X V l v)
  unfolding on_deleted
  on_deleted-Returns l v h leaf =
      if-ind R (node_name_eq X v.xpath "name") (λ hit. let (s, e) = leaf.name hit in rw e h)
        (λ _. h)

  on_modified-Returns :
      (l : Locals V) (v : SrVal)
      → HasObject l
      → IsLeaf X v
      → IsInsideInterface X v
      → R (on_modified X V l v)
  unfolding on_modified
  on_modified-Returns l v h leaf (n, key) =
      if-ind R (node_name_eq X v.xpath "enabled")
        (λ hit.
          let (b, e) = leaf.enabled hit in
          elim (Option-cases (V.find l.db n)) [
            | inl absent ↦ rw (key, absent) tt
            | inr (r, found) ↦ rw (key, found, e) (λ _. (r, refl))
          ])
        (λ _. h)

  -- A round reads the XPath first.
  round-Returns :
      (l : Locals V) (op : SrOper) (old new : Option SrVal)
      → HasObject l
      → HasValues X op old new
      → let c : Change = record { op = op; old_val = old; new_val = new } in
        Returns IsSound (change_xpath c >> on_change X V l c)
  unfolding on_change change_xpath
  round-Returns l created none new h (v, e, leaf) = rw e (on_created-Returns l v h leaf)
  round-Returns l created (some o) new h (v, e, leaf) = rw e (on_created-Returns l v h leaf)
  round-Returns l modified none new h (v, e, leaf, inside) =
      rw e (on_modified-Returns l v h leaf inside)
  round-Returns l modified (some o) new h (v, e, leaf, inside) =
      rw e (on_modified-Returns l v h leaf inside)
  round-Returns l deleted old new h (v, e, leaf) = rw e (on_deleted-Returns l v h leaf)
  round-Returns l moved none new h (v, e) = rw e tt
  round-Returns l moved (some o) new h (v, e) = tt

  go_on-Returns :
      (k : Locals V → Outcome (Round V)) (round : Round V)
      → IsSound round
      → ((l : Locals V) → HasObject l → Returns IsSound (k l))
      → Returns IsSound (go_on V k round)
  go_on-Returns k (continue l) h rest = rest l h
  go_on-Returns k (nothing_todo rc db) h rest = tt

  on_changes-Returns :
      (cs : List Change) (l : Locals V)
      → HasObject l
      → All (IsWellTyped X) cs
      → Returns IsSound (on_changes X V l cs)
  unfolding on_changes
  on_changes-Returns [] l h typed = h
  on_changes-Returns (c ∷ cs) l h typed =
      let (round, e, sound) =
        Returns-some IsSound _ (round-Returns l c.op c.old_val c.new_val h typed.0) in
      let (path, read, turned) = >>=-eq-returns (change_xpath c) (λ _. on_change X V l c) e in
      rw (read, turned)
        (go_on-Returns (λ l'. on_changes X V l' cs) round sound
          (λ l' h'. on_changes-Returns cs l' h' typed.1))

  commit-Returns : (l : Locals V) → HasObject l → Returns (λ _. Unit) (commit V l)
  unfolding commit write_intf
  commit-Returns l h =
      let Done : Outcome (SrError × V.Db) → Type 0 = Returns (λ _. Unit {0}) in
      if-ind Done l.create
        (λ _. elim (Option-cases (build V l.builder)) [
          | inl missing ↦ rw missing tt
          | inr (i, built) ↦ rw built tt
        ])
        (λ _.
          if-ind Done l.modify (λ modify. let (r, e) = h modify in rw e tt)
            (λ _. if-ind Done l.remove (λ _. tt) (λ _. tt)))

  finish-Returns : (round : Round V) → IsSound round → Returns (λ _. Unit) (finish V round)
  unfolding finish
  finish-Returns (continue l) h = commit-Returns l h
  finish-Returns (nothing_todo rc db) h = tt

  create_cb-Returns :
      (g : Garbage) (session : Session) (xpath : String) (event : SrEvent) (db : V.Db)
      → g.modify ≡ false
      → All (IsWellTyped X) (session.changes xpath)
      → Returns (λ _. Unit) (ietf_interface_create_cb X V g session xpath event db)
  unfolding ietf_interface_create_cb foreach_change start
  create_cb-Returns g session xpath apply db clear typed = tt
  create_cb-Returns g session xpath abort db clear typed = tt
  create_cb-Returns g session xpath SrEvent.enabled db clear typed = tt
  create_cb-Returns g session xpath verify db clear typed =
      elim (Bool-cases (is_ok (session.get_changes_iter xpath))) [
        | inr failed ↦ rw failed tt
        | inl ready ↦
            let cs = session.changes xpath in
            let first = start V g db in
            let none_yet : HasObject first = λ dirty. absurd (not_both clear dirty) in
            rw ready (
              Returns-bind IsSound (λ _. Unit) (on_changes X V first cs) (finish V)
                (on_changes-Returns cs first none_yet typed) finish-Returns)
      ]

  -- Where the uninitialised flag modify happens to be false, the callback returns on every
  -- transaction whose changes have the values that their operations ask for, with the members that
  -- the YANG model asks for, in every phase: it throws no exception, reads no null pointer and no
  -- other member of the union.
  pub create_cb_total :
      (g : Garbage) (session : Session) (xpath : String) (event : SrEvent) (db : V.Db)
      → g.modify ≡ false
      → All (IsWellTyped X) (session.changes xpath)
      → (r : SrError × V.Db) × (ietf_interface_create_cb X V g session xpath event db ≡ returns r)
  create_cb_total g session xpath event db clear typed =
      let (r, e, _) =
        Returns-some (λ _. Unit) (ietf_interface_create_cb X V g session xpath event db)
          (create_cb-Returns g session xpath event db clear typed) in
      (r, e)

  -- If that flag happens to be true and create to be false, a verified transaction with no change
  -- reads through a null pointer.
  create_cb-null_read :
      (g : Garbage) (session : Session) (xpath : String) (db : V.Db)
      → g.create ≡ false
      → g.modify ≡ true
      → is_ok (session.get_changes_iter xpath) ≡ true
      → session.changes xpath ≡ []
      → ietf_interface_create_cb X V g session xpath verify db ≡ crash
  unfolding ietf_interface_create_cb foreach_change start on_changes finish commit write_intf
  create_cb-null_read g session xpath db keep dirty ready unchanged =
      rw (ready, unchanged, keep, dirty) refl
