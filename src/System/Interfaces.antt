-- ===== src/System/Interfaces.antt =====
-- The loops of the two callbacks for interfaces, and the callbacks, against the mappings in VOM's
-- database.
use archived_sweetcomb.Prelude.{
  String, refl, none, some, List, [], ◌∷◌, All, if-ind, Option, is_empty, not,
}
use archived_sweetcomb.Outcome.{deref, IfReturns, IfReturns-bind, IfReturns-each}
use archived_sweetcomb.Sysrepo.{
  is_ok, SrEvent, verify, apply, abort, is_verify, SrOper, created, modified, deleted, moved, SrVal,
  Change, Session, Xpath, foreach_change,
}
use archived_sweetcomb.Vom.{Vom}
use archived_sweetcomb.Prefix.RoundTrip.{decimal_not_empty}
use archived_sweetcomb.Interface.{Garbage, Locals, Round, start}
use archived_sweetcomb.Interface.Config.{
  change_xpath, on_modified, on_created, on_deleted, on_change, on_changes,
  ietf_interface_create_cb,
}
use archived_sweetcomb.Openconfig.{oc_switch, oc_on_change, oc_on_changes, oc_interfaces_config_cb}
use archived_sweetcomb.Nat.Consistency.{NatLaws}
use archived_sweetcomb.System.{OcDeletesNoNumber, DeletesNoNumber}
use archived_sweetcomb.System.Tame.{
  IsTame, IsTameRound, IsTameEnd, on_created-IsTame, on_deleted-IsTame, on_modified-IsTame,
  finish-IsTame, go_on-IsTame, deref-IsTame,
}
use archived_sweetcomb.System.Frame.{FrameLaws, SameMappings}

module _ (X : Xpath) (V : Vom) (L : NatLaws V) (F : FrameLaws V L) (before : V.Db) where
  abbrev Tame : Locals V → Type 0
  Tame = IsTame X V L F before

  abbrev RoundTame : Round V → Type 0
  RoundTame = IsTameRound X V L F before

  switch-IsTame :
      (l : Locals V) (op : SrOper) (old new : Option SrVal)
      → let c : Change = record { op = op; old_val = old; new_val = new } in
        Tame l → DeletesNoNumber X c → IfReturns RoundTame (on_change X V l c)
  unfolding on_change
  switch-IsTame l created old new h numbers =
      deref-IsTame X V L F before new (on_created X V l)
        (λ v _. on_created-IsTame X V L F before l v h)
  switch-IsTame l modified old new h numbers =
      deref-IsTame X V L F before new (on_modified X V l)
        (λ v _. on_modified-IsTame X V L F before l v h)
  switch-IsTame l deleted old new h numbers =
      deref-IsTame X V L F before old (on_deleted X V l)
        (λ v e. on_deleted-IsTame X V L F before l v h (λ name. numbers v name refl e))
  switch-IsTame l moved old new h numbers = h.0

  oc_switch-IsTame :
      (l : Locals V) (ne : SrVal) (op : SrOper) (old new : Option SrVal)
      → let c : Change = record { op = op; old_val = old; new_val = new } in
        Tame l → DeletesNoNumber X c → IfReturns RoundTame (oc_switch X V l ne c)
  unfolding oc_switch
  oc_switch-IsTame l ne created old new h numbers = on_created-IsTame X V L F before l ne h
  oc_switch-IsTame l ne modified old new h numbers = on_modified-IsTame X V L F before l ne h
  oc_switch-IsTame l ne deleted old new h numbers =
      deref-IsTame X V L F before old (on_deleted X V l)
        (λ v e. on_deleted-IsTame X V L F before l v h (λ name. numbers v name refl e))
  oc_switch-IsTame l ne moved old new h numbers = h.0

  on_changes-IsTame :
      (cs : List Change) (l : Locals V)
      → Tame l
      → All (DeletesNoNumber X) cs
      → IfReturns RoundTame (on_changes X V l cs)
  unfolding on_changes
  on_changes-IsTame [] l h numbers = h
  on_changes-IsTame (c ∷ cs) l h numbers = IfReturns-each RoundTame (change_xpath c) _ (λ _ _.
      IfReturns-bind RoundTame RoundTame (on_change X V l c) _
        (switch-IsTame l c.op c.old_val c.new_val h numbers.0)
        (λ round tame.
          go_on-IsTame X V L F before _ round tame (λ l' h'. on_changes-IsTame cs l' h' numbers.1)))

  oc_on_change-IsTame :
      (l : Locals V) (c : Change)
      → Tame l
      → DeletesNoNumber X c
      → IfReturns RoundTame (oc_on_change X V l c)
  unfolding oc_on_change
  oc_on_change-IsTame l c h numbers = IfReturns-each RoundTame (deref c.new_val) _ (λ ne _.
      IfReturns-each RoundTame (deref (X.key_value ne.xpath "interface" "name")) _ (λ name _.
        if-ind (IfReturns RoundTame) (is_empty name) (λ _. h.0)
          (λ _. oc_switch-IsTame l ne c.op c.old_val c.new_val h numbers)))

  oc_on_changes-IsTame :
      (cs : List Change) (l : Locals V)
      → Tame l
      → All (DeletesNoNumber X) cs
      → IfReturns RoundTame (oc_on_changes X V l cs)
  unfolding oc_on_changes
  oc_on_changes-IsTame [] l h numbers = h
  oc_on_changes-IsTame (c ∷ cs) l h numbers =
      IfReturns-bind RoundTame RoundTame (oc_on_change X V l c) _
        (oc_on_change-IsTame l c h numbers.0)
        (λ round tame.
          go_on-IsTame X V L F before _ round tame
            (λ l' h'. oc_on_changes-IsTame cs l' h' numbers.1))

  start-IsTame : (g : Garbage) → Tame (start V g before)
  unfolding start
  start-IsTame g = (λ i. refl, λ _. decimal_not_empty)

pub All-foreach_change :
    (P : Change → Type 0) (event : SrEvent) (cs : List Change)
    → All P cs
    → All P (foreach_change event cs)
unfolding foreach_change
All-foreach_change P abort cs h = tt
All-foreach_change P verify cs h = h
All-foreach_change P apply cs h = h
All-foreach_change P SrEvent.enabled cs h = h

module _ (X : Xpath) (V : Vom) (L : NatLaws V) (F : FrameLaws V L) (g : Garbage) (db : V.Db) where
  pub create_cb-SameMappings :
      (session : Session) (xpath : String) (event : SrEvent)
      → All (DeletesNoNumber X) (session.changes xpath)
      → IfReturns
          (λ r. SameMappings V L db r.1)
          (ietf_interface_create_cb X V g session xpath event db)
  unfolding ietf_interface_create_cb
  create_cb-SameMappings session xpath event numbers =
      if-ind (IfReturns (IsTameEnd X V L F db)) (not (is_verify event)) (λ _ i. refl)
        (λ _.
          if-ind (IfReturns (IsTameEnd X V L F db)) (not (is_ok (session.get_changes_iter xpath)))
            (λ _ i. refl)
            (λ _.
              IfReturns-bind (IsTameRound X V L F db) (IsTameEnd X V L F db)
                (on_changes X V (start V g db) (foreach_change event (session.changes xpath))) _
                (on_changes-IsTame X V L F db _ (start V g db) (start-IsTame X V L F db g)
                  (All-foreach_change _ event _ numbers))
                (finish-IsTame X V L F db)))

  pub oc_config_cb-SameMappings :
      (ds : Option Session) (xpath : Option String) (event : SrEvent)
      → OcDeletesNoNumber X V ds xpath
      → IfReturns (λ r. SameMappings V L db r.1) (oc_interfaces_config_cb X V g ds xpath event db)
  unfolding oc_interfaces_config_cb
  oc_config_cb-SameMappings none xpath event numbers = λ i. refl
  oc_config_cb-SameMappings (some session) none event numbers = λ i. refl
  oc_config_cb-SameMappings (some session) (some xpath) event numbers =
      if-ind (IfReturns (IsTameEnd X V L F db)) (not (is_verify event)) (λ _ i. refl)
        (λ _.
          if-ind (IfReturns (IsTameEnd X V L F db)) (not (is_ok (session.get_changes_iter xpath)))
            (λ _ i. refl)
            (λ _.
              IfReturns-bind (IsTameRound X V L F db) (IsTameEnd X V L F db)
                (oc_on_changes X V (start V g db) (foreach_change event (session.changes xpath))) _
                (oc_on_changes-IsTame X V L F db _ (start V g db) (start-IsTame X V L F db g)
                  (All-foreach_change _ event _ numbers))
                (finish-IsTame X V L F db)))
