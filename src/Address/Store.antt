-- ===== src/Address/Store.antt =====
-- The callback for addresses against an abstract store, the set of the keys of the bindings in VOM's
-- database.
use text.Mathlib.TextPositions.{eq_refl}
use archived_sweetcomb.Prelude.{
  ℕ, String, ◌<>◌, Bool, true, false, ◌≡◌, refl, ◌∙◌, ap, some, List, [], ◌∷◌, ◌==◌, if◌then◌else◌,
  is_empty, All,
}
use archived_sweetcomb.Outcome.{returns}
use archived_sweetcomb.Sysrepo.{ok, verify, Session, Xpath}
use archived_sweetcomb.Vom.{Vom}
use archived_sweetcomb.Address.{
  l3_key, ipv46_config_add_remove, ietf_interface_ipv46_address_change_cb,
}
use archived_sweetcomb.Address.Additions.{
  NewAddress, IsAddressOf, all_additions, bindings, add_all, address_change_cb-additions,
}

-- What the callback relies on in VOM: a binding has the interface and the prefix that it was made
-- from, an interface that is found under a name has that name, writing a binding adds its key to the
-- store and removing a key drops it, and neither touches an interface under another name.
pub record BindingLaws (V : Vom) : Type 0 where
  pub view : V.Db → String → Bool
  pub name-l3_itf :
      (i : V.Interface) (p : V.VomPrefix) → V.name (V.l3_itf (V.l3_binding i p)) ≡ V.name i
  pub l3_prefix-l3_binding :
      (i : V.Interface) (p : V.VomPrefix) → V.l3_prefix (V.l3_binding i p) ≡ p
  pub view-write :
      (db : V.Db) (k : String) (l3 : V.L3Binding) (n : String)
      → (V.write_l3 db k l3).1 ≡ true
      → view (V.write_l3 db k l3).0 n ≡ (if n == k then true else view db n)
  pub find-write :
      (db : V.Db) (k : String) (l3 : V.L3Binding) (n : String)
      → V.find (V.write_l3 db k l3).0 n ≡ V.find db n
  pub name-write :
      (db : V.Db) (k : String) (l3 : V.L3Binding) (r : V.InterfaceRef)
      → V.name (V.pointee (V.write_l3 db k l3).0 r) ≡ V.name (V.pointee db r)
  pub view-remove :
      (db : V.Db) (k n : String) → view (V.remove db k) n ≡ (if n == k then false else view db n)
  pub find-remove :
      (db : V.Db) (k n : String) → (n == k) ≡ false → V.find (V.remove db k) n ≡ V.find db n
  pub name-find :
      (db : V.Db) (n : String) {r : V.InterfaceRef}
      → V.find db n ≡ some r
      → V.name (V.pointee db r) ≡ n

-- VOM refuses no binding.
abbrev pub AcceptsBindings : Vom → Type 0
AcceptsBindings V = (db : V.Db) (k : String) (l3 : V.L3Binding) → (V.write_l3 db k l3).1 ≡ true

either_way : (b : Bool) → (if b then true else true) ≡ true
either_way true = refl
either_way false = refl

chosen : (a k : String) (b : Bool) → k ≡ a → (if a == k then true else b) ≡ true
chosen a k b e = rw (e, eq_refl a) refl

module _ (V : Vom) (L : BindingLaws V) (if_name : String) (r : V.InterfaceRef) (name : String) where
  -- The key of the binding of a prefix on the interface with that name.
  abbrev pub key_of : V.VomPrefix → String
  key_of p = "l3_" <> (name <> ("_" <> V.prefix_to_string p))

  -- The interface is in the database, and every length makes a prefix of the text.
  abbrev IsKnown : V.Db → Type 0
  IsKnown db = (V.find db if_name ≡ some r) × (V.name (V.pointee db r) ≡ name)

  abbrev pub Parses : String → Type 0
  Parses ip = (n : ℕ) → (p : V.VomPrefix) × (V.prefix_t ip n ≡ some p)

  abbrev pub Stored : V.Db → String → ℕ → Type 0
  Stored db ip n = (p : V.VomPrefix) → V.prefix_t ip n ≡ some p → L.view db (key_of p) ≡ true

  abbrev pub Kept : V.Db → V.Db → Type 0
  Kept db db' = (k : String) → L.view db k ≡ true → L.view db' k ≡ true

  -- One binding that is added, and the database behind it.
  abbrev Adds : String → ℕ → V.Db → Type 0
  Adds ip n db =
      (db' : V.Db) × (ipv46_config_add_remove V if_name ip n true db ≡ (ok, db'))
      × IsKnown db'
      × Kept db db'
      × Stored db' ip n

  config_add-Adds :
      AcceptsBindings V → (ip : String) (n : ℕ) (db : V.Db) → IsKnown db → Parses ip → Adds ip n db
  unfolding ipv46_config_add_remove l3_key
  config_add-Adds accepts ip n db known parses =
      let (p, e) = parses n in
      let l3 = V.l3_binding (V.pointee db r) p in
      let k = l3_key V l3 in
      let key : k ≡ key_of p = rw (L.name-l3_itf, L.l3_prefix-l3_binding, known.1) refl in
      let accepted = accepts db k l3 in
      (
        (V.write_l3 db k l3).0,
        rw (known.0, e, accepted, ipv46_config_add_remove) refl,
        (L.find-write db k l3 if_name ∙ known.0, L.name-write db k l3 r ∙ known.1),
        λ m h. L.view-write db k l3 m accepted ∙ rw h (either_way (m == k)),
        λ q f.
            let same : p ≡ q = cc in
            L.view-write db k l3 (key_of q) accepted
            ∙ chosen (key_of q) k (L.view db (key_of q)) (key ∙ ap key_of same),
      )

  add_all-Stored :
      AcceptsBindings V
      → (bs : List (String × ℕ)) (db : V.Db) → IsKnown db
      → All (λ b. Parses b.0) bs
      → (db' : V.Db) × (add_all V if_name bs (ok, db) ≡ (ok, db'))
        × Kept db db'
        × All (λ b. Stored db' b.0 b.1) bs
  add_all-Stored accepts [] db known parse = (db, refl, λ k h. h, tt)
  add_all-Stored accepts ((ip, n) ∷ bs) db known parse =
      let (db1, added, known1, kept1, stored1) = config_add-Adds accepts ip n db known parse.0 in
      let (db', others, kept', stored') = add_all-Stored accepts bs db1 known1 parse.1 in
      (
        db',
        ap (add_all V if_name bs) added ∙ others,
        λ k h. kept' k (kept1 k h),
        (λ p f. kept' (key_of p) (stored1 p f), stored'),
      )

  bindings_parse :
      (new : List NewAddress) (stale : ℕ)
      → All (λ a. Parses a.ip) new
      → All (λ b. Parses b.0) (bindings stale new)
  bindings_parse [] stale parse = tt
  bindings_parse (a ∷ new) stale parse =
      (parse.0, (parse.0, bindings_parse new a.prefix_length parse.1))

  own_bindings :
      (new : List NewAddress) (stale : ℕ) (db : V.Db)
      → All (λ b. Stored db b.0 b.1) (bindings stale new)
      → All (λ a. Stored db a.ip a.prefix_length) new
  own_bindings [] stale db stored = tt
  own_bindings (a ∷ new) stale db stored =
      (stored.1.0, own_bindings new a.prefix_length db stored.1.1)

  -- If VOM keeps the laws and refuses no binding, a verified transaction that adds addresses, whose
  -- texts make prefixes, to an interface of the database is answered with SR_ERR_OK, and behind it
  -- each of the addresses is bound to the interface with its own length, and all that was bound
  -- before still is.
  pub address_change_cb-Stored :
      (X : Xpath) (new : List NewAddress) (session : Session) (xpath : String) (db : V.Db)
      → is_empty if_name ≡ false
      → AcceptsBindings V
      → IsKnown db
      → All (IsAddressOf X if_name) new
      → All (λ a. Parses a.ip) new
      → session.get_changes_iter xpath ≡ ok
      → session.changes xpath ≡ all_additions new
      → (db' : V.Db) × (ietf_interface_ipv46_address_change_cb X V session xpath verify db
          ≡ returns (ok, db'))
        × Kept db db'
        × All (λ a. Stored db' a.ip a.prefix_length) new
  address_change_cb-Stored X new session xpath db named accepts known placed parse ready changed =
      let (db', adds, kept, stored) =
        add_all-Stored accepts (bindings 0 new) db known (bindings_parse new 0 parse) in
      (
        db',
        address_change_cb-additions X V if_name named new session xpath db placed ready changed
            ∙ ap returns adds,
        kept,
        own_bindings new 0 db' stored,
      )
