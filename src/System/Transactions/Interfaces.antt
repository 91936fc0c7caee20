-- ===== src/System/Transactions/Interfaces.antt =====
-- Transactions on the list of interfaces of src/plugins/ietf/ietf_interface.cpp.
use archived_sweetcomb.Prelude.{◌≡◌, refl, sym, ◌∙◌, List, ◌∷◌, All}
use archived_sweetcomb.Outcome.{Outcome, returns}
use archived_sweetcomb.Sysrepo.{verify, Xpath}
use archived_sweetcomb.Vom.{Vom}
use archived_sweetcomb.Interface.{Garbage}
use archived_sweetcomb.Interface.Laws.{InterfaceLaws}
use archived_sweetcomb.Interface.Config.{ietf_interface_create_cb}
use archived_sweetcomb.Interface.Config.Edits.{Edit, Configuration}
use archived_sweetcomb.Interface.Config.Sequence.{all_changes, IsValid, IsAllClear, transacted}
use archived_sweetcomb.Interface.Config.Replay.{Accepts, create_cb-Follows}
use archived_sweetcomb.System.Phases.{phases, create_cb-behind}
use archived_sweetcomb.System.Simulation.{run, replay, run-Simulates}
use archived_sweetcomb.System.Transactions.{Transaction, IsRegular}

module _ (X : Xpath) (V : Vom) where
  -- A transaction on the list of interfaces, in all its phases, and in the model.
  abbrev pub interface_phases : Transaction Garbage Edit → V.Db → Outcome V.Db
  interface_phases t =
      phases (ietf_interface_create_cb X V t.garbage t.session t.xpath) (verify ∷ t.ends)

  abbrev pub interface_model : Transaction Garbage Edit → Configuration V → Configuration V
  interface_model t config = (transacted V t.edits config).1

  abbrev pub IsInterfaceTransaction : Transaction Garbage Edit → Type 0
  IsInterfaceTransaction = IsRegular IsAllClear (IsValid X) all_changes

  module _ (L : InterfaceLaws V) (accepts : Accepts X V L) where
    interface_phases-model :
        (t : Transaction Garbage Edit) (db : V.Db) (config : Configuration V)
        → IsInterfaceTransaction t
        → L.view db ≡ config
        → (db' : V.Db) × (interface_phases t db ≡ returns db')
          × (L.view db' ≡ interface_model t config)
    unfolding phases
    interface_phases-model t db config h shows =
        let (db', answers, view) =
          create_cb-Follows X V L accepts t.garbage t.session t.xpath db t.edits h.clear h.valid
            h.ready h.changed in
        (
          db',
          create_cb-behind X V t.garbage t.session t.xpath db t.ends h.ended ∙ rw answers refl,
          rw (sym shows) view,
        )

    -- Any sequence of transactions, each verified and then applied or aborted and each with any number
    -- of edits, is run to its end by the callback, if no uninitialised flag happens to be true and
    -- VOM keeps the laws and refuses no interface. An edit creates an interface of any type, reported
    -- as its entry and the leaves name, type and enabled in this order, or sets a leaf enabled, or
    -- deletes an entry, reported as the entry, its name and any other nodes below it; the paths lead
    -- to these nodes and the names are not empty. The configuration in VOM behind the sequence is the
    -- one that the abstract model computes from the configuration before it, refused and aborted
    -- transactions included.
    pub interfaces-replay :
        (ts : List (Transaction Garbage Edit)) (db : V.Db)
        → All IsInterfaceTransaction ts
        → (db' : V.Db) × (run interface_phases ts db ≡ returns db')
          × (L.view db' ≡ replay interface_model ts (L.view db))
    interfaces-replay ts db h =
        run-Simulates interface_phases interface_model IsInterfaceTransaction
          (λ db config. L.view db ≡ config) interface_phases-model ts db (L.view db) h refl
