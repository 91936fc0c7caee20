-- ===== src/Address/Operations.antt =====
-- ietf_interface_ipv46_address_change_cb of src/plugins/ietf/ietf_interface.cpp on transactions with
-- any number of edits: the operations on VOM that they come to.
use archived_sweetcomb.Prelude.{
  String, false, not, ◌&&◌, ◌≡◌, refl, sym, ◌∙◌, ap, some, List, [], ◌∷◌, ◌++◌, is_empty, All,
  Bool-cases, inl, inr,
}
use archived_sweetcomb.Outcome.{returns}
use archived_sweetcomb.Sysrepo.{SrError, ok, verify, Change, Session, Xpath, foreach_change}
use archived_sweetcomb.Vom.{Vom}
use archived_sweetcomb.Address.{
  AddressState, parse_change, new_or_old_xpath, delete_old, add_new, initial, on_change, on_changes,
  ietf_interface_ipv46_address_change_cb,
}
use archived_sweetcomb.Address.Sequence.{
  AddressEdit, add, remove, resize, all_changes, IsValid, Memory, blank, Operation, repeat, entered,
  left, addressed, deserted, remembered, operations_of, operations, perform, changes_of,
  interface_of,
}

module _ (V : Vom) where
  perform-append :
      (xs ys : List Operation) (r : SrError × V.Db)
      → perform V (xs ++ ys) r ≡ perform V ys (perform V xs r)
  perform-append [] ys r = refl
  perform-append (Operation.bind n addr prefix ∷ xs) ys r = perform-append xs ys _
  perform-append (Operation.unbind n addr prefix ∷ xs) ys r = perform-append xs ys _

  perform-three :
      (xs ys zs : List Operation) (r : SrError × V.Db)
      → perform V zs (perform V ys (perform V xs r)) ≡ perform V (xs ++ ys ++ zs) r
  perform-three xs ys zs r =
      sym (perform-append (xs ++ ys) zs r ∙ ap (perform V zs) (perform-append xs ys r))

  -- The variables of the callback, from what it remembers.
  abbrev variables : Memory → String → SrError × V.Db → AddressState V
  variables m n r = record {
    db = r.1;
    if_name = n;
    new_addr = m.new_addr;
    old_addr = m.old_addr;
    new_prefix = m.new_prefix;
    old_prefix = m.old_prefix;
    op_rc = r.0;
    create = m.create;
    del = m.del;
  }

  -- The end of a round.
  round-repeat :
      (m : Memory) (n : String) (r : SrError × V.Db)
      → add_new V (delete_old V (variables m n r)) ≡ variables m n (perform V (repeat m n) r)
  unfolding add_new delete_old
  round-repeat m n r = elim (Bool-cases (m.del && not (is_empty m.old_addr))) [
    | inl old ↦ elim (Bool-cases (m.create && not (is_empty m.new_addr))) [
      | inl new ↦ rw (old, new) refl
      | inr idle ↦ rw (old, idle) refl
    ]
    | inr kept ↦ elim (Bool-cases (m.create && not (is_empty m.new_addr))) [
      | inl new ↦ rw (kept, new) refl
      | inr idle ↦ rw (kept, idle) refl
    ]
  ]

module _ (X : Xpath) (V : Vom) where
  -- A round, from what it reads and what is remembered behind it.
  on_changes-round :
      (m m' : Memory) (last n path : String) (r : SrError × V.Db) (c : Change) (rest : List Change)
      → new_or_old_xpath c ≡ returns path
      → X.key_value path "interface" "name" ≡ some n
      → is_empty n ≡ false
      → parse_change X V (variables V m n r) c ≡ returns (variables V m' n r)
      → on_changes X V (variables V m last r) (c ∷ rest)
        ≡ on_changes X V (variables V m' n (perform V (repeat m' n) r)) rest
  unfolding on_changes on_change
  on_changes-round m m' last n path r c rest reads inside named parses =
      rw (reads, inside, named, parses, round-repeat V m' n r) refl

  -- The three rounds of an address that is added or removed, and the one of a length.
  on_changes-edit :
      (m : Memory) (e : AddressEdit) (last : String) (r : SrError × V.Db) (rest : List Change)
      → IsValid X e
      → on_changes X V (variables V m last r) (changes_of e ++ rest)
        ≡ on_changes X V
            (variables V (remembered m e) (interface_of e) (perform V (operations_of m e) r))
            rest
  unfolding new_or_old_xpath parse_change
  on_changes-edit m (add n a) last r rest (placed, named) =
      let r1 = perform V (repeat (entered m) n) r in
      let r2 = perform V (repeat (addressed m a) n) r1 in
      on_changes-round m (entered m) last n a.entry_path r _ _ refl placed.entry_in named refl
      ∙ on_changes-round (entered m) (addressed m a) n n a.ip_path r1 _ _ refl placed.ip_in named
          (rw placed.ip_node refl)
      ∙ on_changes-round (addressed m a) (remembered m (add n a)) n n a.length_path r2 _ _ refl
          placed.length_in named (rw placed.length_node refl)
      ∙ ap (λ q. on_changes X V (variables V (remembered m (add n a)) n q) rest)
          (perform-three V (repeat (entered m) n) (repeat (addressed m a) n)
            (repeat (remembered m (add n a)) n) r)
  on_changes-edit m (remove n a) last r rest (placed, named) =
      let r1 = perform V (repeat (left m) n) r in
      let r2 = perform V (repeat (deserted m a) n) r1 in
      on_changes-round m (left m) last n a.entry_path r _ _ refl placed.entry_in named refl
      ∙ on_changes-round (left m) (deserted m a) n n a.ip_path r1 _ _ refl placed.ip_in named
          (rw placed.ip_node refl)
      ∙ on_changes-round (deserted m a) (remembered m (remove n a)) n n a.length_path r2 _ _ refl
          placed.length_in named (rw placed.length_node refl)
      ∙ ap (λ q. on_changes X V (variables V (remembered m (remove n a)) n q) rest)
          (perform-three V (repeat (left m) n) (repeat (deserted m a) n)
            (repeat (remembered m (remove n a)) n) r)
  on_changes-edit m (resize c) last r rest h =
      on_changes-round m (remembered m (resize c)) last c.if_name c.path r _ _ refl h.inside h.named
        (rw h.node refl)

  on_changes-operations :
      (es : List AddressEdit) (m : Memory) (last : String) (r : SrError × V.Db)
      → All (IsValid X) es
      → on_changes X V (variables V m last r) (all_changes es)
        ≡ returns (perform V (operations m es) r)
  unfolding on_changes
  on_changes-operations [] m last r h = refl
  on_changes-operations (e ∷ es) m last r h =
      on_changes-edit m e last r (all_changes es) h.0
      ∙ on_changes-operations es (remembered m e) (interface_of e) _ h.1
      ∙ ap returns (sym (perform-append V (operations_of m e) (operations (remembered m e) es) r))

  -- What the callback asks of VOM in a verified transaction of any number of edits, on any
  -- interfaces with a name, whose paths lead to the nodes that they name: exactly the operations
  -- that the model lists, in this order, with the answer of the last one.
  pub address_change_cb-operations :
      (session : Session) (xpath : String) (db : V.Db) (edits : List AddressEdit)
      → All (IsValid X) edits
      → session.get_changes_iter xpath ≡ ok
      → session.changes xpath ≡ all_changes edits
      → ietf_interface_ipv46_address_change_cb X V session xpath verify db
        ≡ returns (perform V (operations blank edits) (ok, db))
  unfolding ietf_interface_ipv46_address_change_cb foreach_change initial
  address_change_cb-operations session xpath db edits h ready changed =
      rw (ready, changed) (on_changes-operations edits blank "" (ok, db) h)
