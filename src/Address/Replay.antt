-- ===== src/Address/Replay.antt =====
-- ietf_interface_ipv46_address_change_cb of src/plugins/ietf/ietf_interface.cpp on transactions with
-- any number of edits, against the store of bindings of Address/Sequence.antt.
use mathlib.Core.Path.{fun_ext, subst}
use archived_sweetcomb.Prelude.{
  ℕ, String, Bool, true, false, ◌≡◌, refl, sym, ◌∙◌, ap, Option, none, some, List, [], ◌∷◌, ◌++◌,
  ◌==◌, if◌then◌else◌, not, ◌&&◌, is_empty, All, Option-cases, inl, inr,
}
use archived_sweetcomb.Outcome.{returns}
use archived_sweetcomb.Sysrepo.{SrError, ok, verify, Session, Xpath}
use archived_sweetcomb.Vom.{Vom}
use archived_sweetcomb.Address.{
  l3_key, ipv46_config_add_remove, ietf_interface_ipv46_address_change_cb,
}
use archived_sweetcomb.Address.Store.{BindingLaws, AcceptsBindings}
use archived_sweetcomb.Address.Sequence.{
  AddressEdit, interface_of, all_changes, IsValid, Memory, blank, Operation, repeat, entered, left,
  addressed, deserted, remembered, operations_of, operations, perform, Bindings, binding_key,
  IsNotKey, marked, effects, transacted,
}
use archived_sweetcomb.Address.Operations.{address_change_cb-operations}

abbrev pub is_some {ℓ} : {A : Type ℓ} → Option A → Bool
is_some none = false
is_some (some a) = true

All-append {ℓ κ} :
    {A : Type ℓ} (P : A → Type κ) (xs ys : List A) → All P xs → All P ys → All P (xs ++ ys)
All-append P [] ys h k = k
All-append P (x ∷ xs) ys h k = (h.0, All-append P xs ys h.1 k)

abbrev place_of : Operation → String
place_of (Operation.bind n addr prefix) = n
place_of (Operation.unbind n addr prefix) = n

-- Every operation is on the interface of an edit.
module _ (P : String → Type 0) where
  abbrev At : List Operation → Type 0
  At = All (λ o. P (place_of o))

  if-At : (b : Bool) (o : Operation) → P (place_of o) → At (if b then o ∷ [] else [])
  if-At true o h = (h, tt)
  if-At false o h = tt

  repeat-At : (m : Memory) (n : String) → P n → At (repeat m n)
  repeat-At m n h =
      All-append _ _ _ (if-At (m.del && not (is_empty m.old_addr)) _ h)
        (if-At (m.create && not (is_empty m.new_addr)) _ h)

  three-At : (m m' m'' : Memory) (n : String) → P n → At (repeat m n ++ repeat m' n ++ repeat m'' n)
  three-At m m' m'' n h =
      All-append _ _ _ (All-append _ _ _ (repeat-At m n h) (repeat-At m' n h)) (repeat-At m'' n h)

  edit-At : (m : Memory) (e : AddressEdit) → P (interface_of e) → At (operations_of m e)
  edit-At m (AddressEdit.add n a) h =
      three-At (entered m) (addressed m a) (remembered m (AddressEdit.add n a)) n h
  edit-At m (AddressEdit.remove n a) h =
      three-At (left m) (deserted m a) (remembered m (AddressEdit.remove n a)) n h
  edit-At m (AddressEdit.resize c) h = repeat-At (remembered m (AddressEdit.resize c)) c.if_name h

  operations-At :
      (es : List AddressEdit) (m : Memory) → All (λ e. P (interface_of e)) es → At (operations m es)
  operations-At [] m h = tt
  operations-At (e ∷ es) m h =
      All-append _ (operations_of m e) (operations (remembered m e) es) (edit-At m e h.0)
        (operations-At es (remembered m e) h.1)

module _ (V : Vom) (L : BindingLaws V) (known : String → Bool) where
  -- The interfaces of the database are the known ones.
  abbrev pub Knows : V.Db → Type 0
  Knows db = (n : String) → IsNotKey V n → is_some (V.find db n) ≡ known n

  abbrev Shows : SrError × V.Db → SrError × Bindings V → Type 0
  Shows r model = (r.0 ≡ model.0) × (L.view r.1 ≡ model.1) × Knows r.1

  l3_key-binding_key :
      (db : V.Db) (n : String) (r : V.InterfaceRef) (p : V.VomPrefix)
      → V.find db n ≡ some r
      → l3_key V (V.l3_binding (V.pointee db r) p) ≡ binding_key V n p
  unfolding l3_key
  l3_key-binding_key db n r p found =
      rw (L.name-l3_itf, L.l3_prefix-l3_binding, L.name-find db n found) refl

  -- An operation on an interface that is not known or with a text that makes no prefix does nothing,
  -- so only the others need a proof.
  settled-Shows :
      (n addr : String) (prefix : ℕ) (there : Bool) (db : V.Db)
      → IsNotKey V n
      → Knows db
      → ((r : V.InterfaceRef) (p : V.VomPrefix)
          → V.find db n ≡ some r
          → V.prefix_t addr prefix ≡ some p
          → Shows
              (ipv46_config_add_remove V n addr prefix there db)
              (ok, λ k. if k == binding_key V n p then there else L.view db k))
      → Shows
          (ipv46_config_add_remove V n addr prefix there db)
          (marked V known n addr prefix there (L.view db))
  unfolding ipv46_config_add_remove
  settled-Shows n addr prefix there db free knows done = elim (Option-cases (V.find db n)) [
    | inl absent ↦ rw (sym (knows n free), absent, ipv46_config_add_remove) (refl, refl, knows)
    | inr (r, found) ↦ elim (Option-cases (V.prefix_t addr prefix)) [
      | inl bad ↦ rw (sym (knows n free), found, bad, ipv46_config_add_remove) (refl, refl, knows)
      | inr (p, good) ↦ rw (sym (knows n free), found, good) (done r p found good)
    ]
  ]

  module _ (accepts : AcceptsBindings V) where
    operation-Shows :
        (n addr : String) (prefix : ℕ) (there : Bool) (db : V.Db)
        → IsNotKey V n
        → Knows db
        → Shows
            (ipv46_config_add_remove V n addr prefix there db)
            (marked V known n addr prefix there (L.view db))
    unfolding ipv46_config_add_remove
    operation-Shows n addr prefix true db free knows =
        settled-Shows n addr prefix true db free knows (λ r p found good.
          let l3 = V.l3_binding (V.pointee db r) p in
          let k = l3_key V l3 in
          let done = accepts db k l3 in
          rw (found, good, done, ipv46_config_add_remove)
            (
              refl,
              fun_ext
                  (λ m. L.view-write db k l3 m done ∙ rw (l3_key-binding_key db n r p found) refl),
              λ m other. rw L.find-write (knows m other),
            ))
    operation-Shows n addr prefix false db free knows =
        settled-Shows n addr prefix false db free knows (λ r p found good.
          let l3 = V.l3_binding (V.pointee db r) p in
          let k = l3_key V l3 in
          let key : k ≡ binding_key V n p = l3_key-binding_key db n r p found in
          rw (found, good, ipv46_config_add_remove)
            (
              refl,
              fun_ext (λ m. L.view-remove db k m ∙ rw key refl),
              λ m other. ap is_some (L.find-remove db k m (rw key (other n p))) ∙ knows m other,
            ))

    perform-Shows :
        (ops : List Operation) (r : SrError × V.Db) (model : SrError × Bindings V)
        → At (IsNotKey V) ops
        → Shows r model
        → Shows (perform V ops r) (effects V known ops model)
    perform-Shows [] r model free h = h
    perform-Shows (Operation.bind n addr prefix ∷ ops) r model free (rc, view, knows) =
        perform-Shows ops _ _ free.1 (
          subst
            (λ b.
              Shows (ipv46_config_add_remove V n addr prefix true r.1)
                (marked V known n addr prefix true b))
            view (operation-Shows n addr prefix true r.1 free.0 knows))
    perform-Shows (Operation.unbind n addr prefix ∷ ops) r model free (rc, view, knows) =
        perform-Shows ops _ _ free.1 (
          subst
            (λ b.
              Shows (ipv46_config_add_remove V n addr prefix false r.1)
                (marked V known n addr prefix false b))
            view (operation-Shows n addr prefix false r.1 free.0 knows))

    -- A verified transaction with any number of edits, whose paths lead to the nodes that they
    -- name and whose interfaces have names that are not empty and not the key of a binding, is
    -- answered as the model answers it if VOM keeps the laws and refuses no binding, and the
    -- bindings in VOM behind it are those of the model. The interfaces that VOM knows are the
    -- same as before.
    pub address_change_cb-Follows :
        (X : Xpath) (session : Session) (xpath : String) (db : V.Db) (edits : List AddressEdit)
        → Knows db
        → All (IsValid X) edits
        → All (λ e. IsNotKey V (interface_of e)) edits
        → session.get_changes_iter xpath ≡ ok
        → session.changes xpath ≡ all_changes edits
        → let model = transacted V known edits (L.view db) in
          (db' : V.Db) × (ietf_interface_ipv46_address_change_cb X V session xpath verify db
            ≡ returns (model.0, db'))
          × (L.view db' ≡ model.1)
          × Knows db'
    address_change_cb-Follows X session xpath db edits knows valid free ready changed =
        let ops = operations blank edits in
        let (rc, view, knows') =
          perform-Shows ops (ok, db) (ok, L.view db) (operations-At (IsNotKey V) edits blank free)
            (refl, refl, knows) in
        (
          (perform V ops (ok, db)).1,
          address_change_cb-operations X V session xpath db edits valid ready changed
              ∙ rw (sym rc) refl,
          view,
          knows',
        )
