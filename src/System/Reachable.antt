-- ===== src/System/Reachable.antt =====
-- The table of static mappings against VOM's database, over a history of calls of all plugins.
use archived_sweetcomb.Prelude.{◌∙◌}
use archived_sweetcomb.Outcome.{IfReturns-eq}
use archived_sweetcomb.Sysrepo.{SrError, Xpath}
use archived_sweetcomb.Vom.{Vom}
use archived_sweetcomb.Nat.{NatState}
use archived_sweetcomb.Nat.Consistency.{NatLaws, IsConsistent, mapping_cb-Keeps}
use archived_sweetcomb.System.{
  Step, IsHarmless, AllHarmless, interface, oc_interface, address, mapping, History, start, then,
}
use archived_sweetcomb.System.Frame.{FrameLaws, SameMappings}
use archived_sweetcomb.System.Interfaces.{create_cb-SameMappings, oc_config_cb-SameMappings}
use archived_sweetcomb.System.Addresses.{address_change_cb-SameMappings}

module _ (X : Xpath) (V : Vom) (L : NatLaws V) (F : FrameLaws V L) where
  -- The table alone and the mappings in the database make the consistency.
  IsConsistent-frame :
      (s : NatState V) (db : V.Db)
      → SameMappings V L s.db db
      → IsConsistent V L s
      → IsConsistent V L (record s { db = db })
  IsConsistent-frame s db same h i = same i ∙ h i

  Step-IsConsistent :
      (s s' : NatState V) (step : Step X V s s')
      → IsHarmless X V s s' step
      → IsConsistent V L s
      → IsConsistent V L s'
  Step-IsConsistent _ _ (interface g session xpath event s rc db e) numbers =
      IsConsistent-frame s db (
        IfReturns-eq (λ (r : SrError × V.Db). SameMappings V L s.db r.1) _ (rc, db)
          (create_cb-SameMappings X V L F g s.db session xpath event numbers) e)
  Step-IsConsistent _ _ (oc_interface g ds xpath event s rc db e) numbers =
      IsConsistent-frame s db (
        IfReturns-eq (λ (r : SrError × V.Db). SameMappings V L s.db r.1) _ (rc, db)
          (oc_config_cb-SameMappings X V L F g s.db ds xpath event numbers) e)
  Step-IsConsistent _ _ (address session xpath event s rc db e) harmless = IsConsistent-frame s db (
      IfReturns-eq (λ (r : SrError × V.Db). SameMappings V L s.db r.1) _ (rc, db)
        (address_change_cb-SameMappings X V L F session xpath event s.db) e)
  Step-IsConsistent _ _ (mapping g ds xpath event s rc s' e) accepted =
      (mapping_cb-Keeps V L X g ds xpath event s (rc, s') e).0 accepted

  -- Along every history of calls of the four configuration callbacks that starts with the table of
  -- static mappings and VOM's mappings in step, they stay in step: no call on an interface or on an
  -- address touches a mapping. The history deletes no interface with a number for its name, and VOM
  -- refuses none of its calls on the table.
  pub History-IsConsistent :
      (s s' : NatState V) (history : History X V s s')
      → AllHarmless X V s s' history
      → IsConsistent V L s
      → IsConsistent V L s'
  History-IsConsistent _ _ (start s) harmless h = h
  History-IsConsistent _ _ (then s s' s'' before step) harmless h =
      Step-IsConsistent s' s'' step harmless.1 (History-IsConsistent s s' before harmless.0 h)
