-- ===== src/Address/Gone.antt =====
-- What the callback for addresses leaves of the addresses that a transaction removes.
use text.Mathlib.TextPositions.{eq_refl}
use archived_sweetcomb.Prelude.{
  ℕ, String, Bool, true, false, ◌≡◌, refl, ◌∙◌, ap, some, List, [], ◌∷◌, ◌++◌, ◌==◌, if◌then◌else◌,
  is_empty, map, All, Bool-cases, Option-cases, inl, inr,
}
use archived_sweetcomb.Outcome.{returns}
use archived_sweetcomb.Sysrepo.{SrError, ok, verify, Session, Xpath}
use archived_sweetcomb.Vom.{Vom}
use archived_sweetcomb.Address.{ietf_interface_ipv46_address_change_cb}
use archived_sweetcomb.Address.Store.{BindingLaws, AcceptsBindings}
use archived_sweetcomb.Address.Additions.{NewAddress, IsAddressOf}
use archived_sweetcomb.Address.Removals.{all_removals}
use archived_sweetcomb.Address.Sequence.{
  AddressEdit, remove, interface_of, all_changes, IsValid, Memory, blank, remembered, Operation,
  unbind, operations_of, operations, Bindings, binding_key, IsNotKey, marked, effects, transacted,
}
use archived_sweetcomb.Address.Replay.{Knows, address_change_cb-Follows}

module _ (V : Vom) (known : String → Bool) where
  -- No key comes into the store.
  abbrev pub Shrinks : Bindings V → Bindings V → Type 0
  Shrinks before behind = (k : String) → before k ≡ false → behind k ≡ false

  unmark : (b c : Bool) → b ≡ false → (if c then false else b) ≡ false
  unmark b true h = refl
  unmark b false h = h

  marked-Shrinks :
      (n addr : String) (prefix : ℕ) (store : Bindings V)
      → Shrinks store (marked V known n addr prefix false store).1
  marked-Shrinks n addr prefix store k h = elim (Bool-cases (known n)) [
    | inr unknown ↦ rw unknown h
    | inl present ↦ elim (Option-cases (V.prefix_t addr prefix)) [
      | inl bad ↦ rw (present, bad) h
      | inr (p, good) ↦ rw (present, good) (unmark (store k) (k == binding_key V n p) h)
    ]
  ]

  marked-own :
      (n addr : String) (prefix : ℕ) (store : Bindings V) (p : V.VomPrefix)
      → known n ≡ true
      → V.prefix_t addr prefix ≡ some p
      → (marked V known n addr prefix false store).1 (binding_key V n p) ≡ false
  marked-own n addr prefix store p present good = rw (present, good, eq_refl) refl

  module _ (X : Xpath) (n : String) (present : known n ≡ true) where
    -- The address is not bound to the interface with its own length.
    abbrev pub Gone : Bindings V → NewAddress → Type 0
    Gone store a =
        (p : V.VomPrefix)
        → V.prefix_t a.ip a.prefix_length ≡ some p
        → store (binding_key V n p) ≡ false

    -- What the rounds of one address that is removed come to if none was added.
    operations-remove :
        (m : Memory) (a : NewAddress) (rest : List Operation)
        → m.create ≡ false
        → is_empty a.ip ≡ false
        → operations_of m (remove n a) ++ rest
          ≡ unbind n a.ip m.old_prefix ∷ unbind n a.ip a.prefix_length ∷ rest
    operations-remove m a rest settled named = rw (settled, named) refl

    effects-Gone :
        (old : List NewAddress) (m : Memory) (r behind : SrError × Bindings V)
        → m.create ≡ false
        → All (IsAddressOf X n) old
        → behind ≡ effects V known (operations m (map (remove n) old)) r
        → Shrinks r.1 behind.1 × All (Gone behind.1) old
    effects-Gone [] m r behind settled placed e = (λ k h. rw e h, tt)
    effects-Gone (a ∷ old) m r behind settled placed e =
        let m' = remembered m (remove n a) in
        let r1 = marked V known n a.ip m.old_prefix false r.1 in
        let r2 = marked V known n a.ip a.prefix_length false r1.1 in
        let short =
          operations-remove m a (operations m' (map (remove n) old)) settled placed.0.nonempty in
        let (shrinks, gone) =
          effects-Gone old m' r2 behind settled placed.1
            (e ∙ ap (λ ops. effects V known ops r) short) in
        (
          λ k h. shrinks k (
              marked-Shrinks n a.ip a.prefix_length r1.1 k
                (marked-Shrinks n a.ip m.old_prefix r.1 k h)),
          (
            λ p good.
                shrinks (binding_key V n p) (marked-own n a.ip a.prefix_length r1.1 p present good),
            gone,
          ),
        )

    all_changes-remove :
        (old : List NewAddress) → all_removals old ≡ all_changes (map (remove n) old)
    all_changes-remove [] = refl
    all_changes-remove (a ∷ old) = rw (all_changes-remove old) refl

    All-remove :
        (P : AddressEdit → Type 0) (old : List NewAddress)
        → All (λ a. P (remove n a)) old
        → All P (map (remove n) old)
    All-remove P [] h = tt
    All-remove P (a ∷ old) h = (h.0, All-remove P old h.1)

    All-IsValid :
        (old : List NewAddress)
        → is_empty n ≡ false
        → All (IsAddressOf X n) old
        → All (λ a. IsValid X (remove n a)) old
    All-IsValid [] named h = tt
    All-IsValid (a ∷ old) named h = ((h.0, named), All-IsValid old named h.1)

    All-const : (P : Type 0) (old : List NewAddress) → P → All (λ a. P) old
    All-const P [] h = tt
    All-const P (a ∷ old) h = (h, All-const P old h)

    -- Behind a verified transaction that removes addresses, at paths that lead to their nodes,
    -- from an interface that VOM knows none of them is bound to it any more with its own length,
    -- and nothing is bound that was not bound before, if the interface has a name that is not
    -- empty and not the key of a binding and VOM keeps the laws and refuses no binding.
    pub address_change_cb-Gone :
        (L : BindingLaws V)
        → AcceptsBindings V
        → (old : List NewAddress) (session : Session) (xpath : String) (db : V.Db)
        → Knows V L known db
        → is_empty n ≡ false
        → IsNotKey V n
        → All (IsAddressOf X n) old
        → session.get_changes_iter xpath ≡ ok
        → session.changes xpath ≡ all_removals old
        → (rc : SrError) × (db' : V.Db) × (ietf_interface_ipv46_address_change_cb X V session xpath
              verify db
            ≡ returns (rc, db'))
          × Shrinks (L.view db) (L.view db')
          × All (Gone (L.view db')) old
    address_change_cb-Gone L accepts old session xpath db knows named free placed ready changed =
        let edits = map (remove n) old in
        let (db', answers, view, _) =
          address_change_cb-Follows V L known accepts X session xpath db edits knows
            (All-remove (IsValid X) old (All-IsValid old named placed))
            (All-remove (λ e. IsNotKey V (interface_of e)) old (All-const (IsNotKey V n) old free))
            ready (changed ∙ all_changes-remove old) in
        let model = transacted V known edits (L.view db) in
        let (shrinks, gone) =
          effects-Gone old blank (ok, L.view db) (model.0, L.view db') refl placed (rw view refl) in
        (model.0, db', answers, shrinks, gone)
