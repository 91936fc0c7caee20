-- ===== src/System/RoundTrips.antt =====
-- Two transactions of which the second one takes back what the first one did, with all the phases of
-- both.
use mathlib.Core.Path.{fun_ext}
use archived_sweetcomb.Prelude.{
  ℕ, String, Bool, true, false, ◌≡◌, refl, ◌∙◌, Option, none, some, List, [], ◌∷◌, ◌==◌, ◌||◌,
  if◌then◌else◌, Bool-cases, inl, inr, eq_of_true,
}
use archived_sweetcomb.Outcome.{returns}
use archived_sweetcomb.Sysrepo.{Xpath}
use archived_sweetcomb.Vom.{Vom}
use archived_sweetcomb.Interface.{Garbage}
use archived_sweetcomb.Interface.Laws.{InterfaceLaws}
use archived_sweetcomb.Interface.Config.Creation.{NewInterface, Leaf, is_ethernet}
use archived_sweetcomb.Interface.Config.Edits.{Edit, create_entry, delete_entry, Configuration}
use archived_sweetcomb.Interface.Config.Sequence.{put, state_of, settle, writes}
use archived_sweetcomb.Interface.Config.Replay.{Accepts}
use archived_sweetcomb.Address.Additions.{NewAddress, IsAddressOf}
use archived_sweetcomb.Address.Store.{BindingLaws, AcceptsBindings}
use archived_sweetcomb.Address.Sequence.{
  AddressEdit, add, remove, Bindings, binding_key, marked, transacted,
}
use archived_sweetcomb.Address.Replay.{Knows}
use archived_sweetcomb.System.Simulation.{run}
use archived_sweetcomb.System.Transactions.{Transaction}
use archived_sweetcomb.System.Transactions.Interfaces.{
  interface_phases, IsInterfaceTransaction, interfaces-replay,
}
use archived_sweetcomb.System.Transactions.Addresses.{
  address_phases, IsAddressTransaction, addresses-replay,
}

module _ (X : Xpath) (V : Vom) where
  module _ (L : InterfaceLaws V) (accepts : Accepts X V L) where
    put-put :
        (config : Configuration V) (name : String) (state : Option V.AdminState)
        → config name ≡ none
        → put V (put V config name state) name none ≡ config
    put-put config name state absent = fun_ext (λ k. elim (Bool-cases (k == name)) [
      | inl same ↦ rw (same, eq_of_true same, absent) refl
      | inr other ↦ rw other refl
    ])

    -- It is removed again, whether it was refused for its type or not.
    settle-put :
        (config : Configuration V) (name : String) (b typed : Bool)
        → config name ≡ none
        → put V (settle V (writes name b typed) false config).1 name none ≡ config
    settle-put config name b true absent = put-put config name (state_of V b) absent
    settle-put config name b false absent = fun_ext (λ k. elim (Bool-cases (k == name)) [
      | inl same ↦ rw (same, eq_of_true same, absent) refl
      | inr other ↦ rw other refl
    ])

    -- If a transaction creates one interface, of any type, which VOM does not have, and the next one
    -- deletes it again, with its name and whatever nodes there are below its entry, and each is
    -- verified and then applied or aborted, both run to their end and the configuration in VOM
    -- behind them is as it was. The paths lead to the nodes that they name, the name is not empty,
    -- no uninitialised flag happens to be true, and VOM keeps the laws and refuses no interface.
    pub interfaces_restored :
        (t t' : Transaction Garbage Edit) (n : NewInterface) (entry path : String)
        (leaves : List Leaf) (db : V.Db)
        → IsInterfaceTransaction X V t
        → IsInterfaceTransaction X V t'
        → t.edits ≡ create_entry n ∷ []
        → t'.edits ≡ delete_entry entry path n.name leaves ∷ []
        → L.view db n.name ≡ none
        → (db' : V.Db) × (run (interface_phases X V) (t ∷ t' ∷ []) db ≡ returns db')
          × (L.view db' ≡ L.view db)
    interfaces_restored t t' n entry path leaves db h h' creates deletes absent =
        let (db', runs, view) = interfaces-replay X V L accepts (t ∷ t' ∷ []) db (h, (h', tt)) in
        (
          db',
          runs,
          view
              ∙ rw (creates, deletes)
                  (settle-put (L.view db) n.name n.enabled (is_ethernet n || false) absent),
        )

  -- Two keys that are marked and then unmarked.
  unmark-mark :
      (store : String → Bool) (key key0 k : String)
      → store key ≡ false
      → store key0 ≡ false
      → (if k == key
          then false
          else if k == key0
          then false
          else if k == key
          then true
          else if k == key0
          then true
          else store k)
        ≡ store k
  unmark-mark store key key0 k absent absent0 = elim (Bool-cases (k == key)) [
    | inl same ↦ rw (same, eq_of_true same, absent) refl
    | inr other ↦ elim (Bool-cases (k == key0)) [
      | inl same ↦ rw (other, same, eq_of_true same, absent0) refl
      | inr other0 ↦ rw (other, other0) refl
    ]
  ]

  module _ (known : String → Bool) (L : BindingLaws V) (accepts : AcceptsBindings V) where
    -- What each of the two transactions does to the model.
    module _ (n : String) (a : NewAddress) (p p0 : V.VomPrefix) (placed : IsAddressOf X n a)
        (present : known n ≡ true) (parses : V.prefix_t a.ip a.prefix_length ≡ some p)
        (stale : V.prefix_t a.ip 0 ≡ some p0) where
      marked-known :
          (prefix : ℕ) (q : V.VomPrefix) (there : Bool) (store : Bindings V)
          → V.prefix_t a.ip prefix ≡ some q
          → (marked V known n a.ip prefix there store).1 ≡ λ k.
              if k == binding_key V n q then there else store k
      marked-known prefix q there store good = rw (present, good) refl

      transacted-add :
          (store : Bindings V)
          → (transacted V known (add n a ∷ []) store).1
            ≡ (marked V known n a.ip a.prefix_length true (marked V known n a.ip 0 true store).1).1
      transacted-add store = rw placed.nonempty refl

      transacted-remove :
          (store : Bindings V)
          → (transacted V known (remove n a ∷ []) store).1
            ≡ (marked V known n a.ip a.prefix_length false
                (marked V known n a.ip 0 false store).1).1
      transacted-remove store = rw placed.nonempty refl

      marked-twice :
          (there : Bool) (store : Bindings V)
          → (marked V known n a.ip a.prefix_length there (marked V known n a.ip 0 there store).1).1
            ≡ λ k.
                if k == binding_key V n p
                then there
                else if k == binding_key V n p0
                then there
                else store k
      marked-twice there store =
          marked-known a.prefix_length p there _ parses
          ∙ rw (marked-known 0 p0 there store stale) refl

      transacted-restored :
          (store : Bindings V)
          → store (binding_key V n p) ≡ false
          → store (binding_key V n p0) ≡ false
          → (transacted V known (remove n a ∷ []) (transacted V known (add n a ∷ []) store).1).1
            ≡ store
      transacted-restored store absent absent0 =
          let store' = (transacted V known (add n a ∷ []) store).1 in
          transacted-remove store'
          ∙ marked-twice false store'
          ∙ rw (transacted-add store ∙ marked-twice true store) (
              fun_ext
                (λ k. unmark-mark store (binding_key V n p) (binding_key V n p0) k absent absent0))

    -- If a transaction adds one address to an interface that VOM knows, where it is bound neither
    -- with its own length nor with the length 0, and the next one removes it again, and each is
    -- verified and then applied or aborted, both run to their end and the bindings in VOM behind
    -- them are as they were. The paths lead to the nodes that they name, the address makes a
    -- prefix with both lengths, the interface has a name that is not empty and not the key of a
    -- binding, and VOM keeps the laws and refuses no binding.
    pub addresses_restored :
        (t t' : Transaction Unit AddressEdit) (n : String) (a : NewAddress) (p p0 : V.VomPrefix)
        (db : V.Db)
        → IsAddressTransaction X V t
        → IsAddressTransaction X V t'
        → t.edits ≡ add n a ∷ []
        → t'.edits ≡ remove n a ∷ []
        → IsAddressOf X n a
        → Knows V L known db
        → known n ≡ true
        → V.prefix_t a.ip a.prefix_length ≡ some p
        → V.prefix_t a.ip 0 ≡ some p0
        → L.view db (binding_key V n p) ≡ false
        → L.view db (binding_key V n p0) ≡ false
        → (db' : V.Db) × (run (address_phases X V) (t ∷ t' ∷ []) db ≡ returns db')
          × (L.view db' ≡ L.view db)
    addresses_restored t t' n a p p0 db h h' adds removes placed knows present parses stale absent
          absent0 =
        let (db', runs, view) =
          addresses-replay X V known L accepts (t ∷ t' ∷ []) db (h, (h', tt)) knows in
        (
          db',
          runs,
          view
              ∙ rw (adds, removes)
                  (transacted-restored n a p p0 placed present parses stale (L.view db) absent
                    absent0),
        )
