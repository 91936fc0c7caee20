-- ===== src/System/Transactions/Addresses.antt =====
-- Transactions on the addresses of interfaces of src/plugins/ietf/ietf_interface.cpp.
use archived_sweetcomb.Prelude.{String, Bool, ◌≡◌, refl, sym, ◌∙◌, List, ◌∷◌, All}
use archived_sweetcomb.Outcome.{Outcome, returns}
use archived_sweetcomb.Sysrepo.{verify, Xpath}
use archived_sweetcomb.Vom.{Vom}
use archived_sweetcomb.Address.{ietf_interface_ipv46_address_change_cb}
use archived_sweetcomb.Address.Store.{BindingLaws, AcceptsBindings}
use archived_sweetcomb.Address.Sequence.{
  AddressEdit, interface_of, all_changes, IsValid, IsNotKey, Bindings, transacted,
}
use archived_sweetcomb.Address.Replay.{Knows, address_change_cb-Follows}
use archived_sweetcomb.System.Phases.{phases, address_change_cb-behind}
use archived_sweetcomb.System.Simulation.{run, replay, run-Simulates}
use archived_sweetcomb.System.Transactions.{Transaction, IsRegular}

module _ (X : Xpath) (V : Vom) where
  -- A transaction in all its phases.
  abbrev pub address_phases : Transaction Unit AddressEdit → V.Db → Outcome V.Db
  address_phases t =
      phases (ietf_interface_ipv46_address_change_cb X V t.session t.xpath) (verify ∷ t.ends)

  -- The edits are on interfaces that are not named like the key of a binding.
  abbrev pub IsAddressTransaction : Transaction Unit AddressEdit → Type 0
  IsAddressTransaction t =
      IsRegular (λ _. Unit) (IsValid X) all_changes t
      × All (λ e. IsNotKey V (interface_of e)) t.edits

  module _ (known : String → Bool) where
    abbrev pub address_model : Transaction Unit AddressEdit → Bindings V → Bindings V
    address_model t store = (transacted V known t.edits store).1

    module _ (L : BindingLaws V) (accepts : AcceptsBindings V) where
      abbrev Shows : V.Db → Bindings V → Type 0
      Shows db store = (L.view db ≡ store) × Knows V L known db

      address_phases-model :
          (t : Transaction Unit AddressEdit) (db : V.Db) (store : Bindings V)
          → IsAddressTransaction t
          → Shows db store
          → (db' : V.Db) × (address_phases t db ≡ returns db') × Shows db' (address_model t store)
      unfolding phases
      address_phases-model t db store (h, free) (shows, knows) =
          let (db', answers, view, knows') =
            address_change_cb-Follows V L known accepts X t.session t.xpath db t.edits knows h.valid
              free h.ready h.changed in
          (
            db',
            address_change_cb-behind X V t.session t.xpath db t.ends h.ended ∙ rw answers refl,
            (rw (sym shows) view, knows'),
          )

      -- Any sequence of transactions, each verified and then applied or aborted and each with any
      -- number of edits of addresses, whose paths lead to the nodes that they name and whose
      -- interfaces have names that are not empty and not the key of a binding, is run to its end
      -- by the callback, if VOM keeps the laws and refuses no binding. The bindings in VOM behind
      -- it are those that the model computes from the bindings before it.
      pub addresses-replay :
          (ts : List (Transaction Unit AddressEdit)) (db : V.Db)
          → All IsAddressTransaction ts
          → Knows V L known db
          → (db' : V.Db) × (run address_phases ts db ≡ returns db')
            × (L.view db' ≡ replay address_model ts (L.view db))
      addresses-replay ts db h knows =
          let (db', runs, shows) =
            run-Simulates address_phases address_model IsAddressTransaction Shows
              address_phases-model ts db (L.view db) h (refl, knows) in
          (db', runs, shows.0)
