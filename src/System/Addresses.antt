-- ===== src/System/Addresses.antt =====
-- The callback for addresses against the mappings in VOM's database.
use archived_sweetcomb.Prelude.{
  ℕ, String, Bool, true, false, ◌≡◌, ◌∙◌, refl, Option, List, [], ◌∷◌, not, ◌&&◌, if-ind,
  Option-cases, inl, inr, is_empty,
}
use archived_sweetcomb.Outcome.{
  Outcome, returns, throws, crash, deref, IfReturns, IfReturns-bind, IfReturns-each,
}
use archived_sweetcomb.Sysrepo.{
  SrError, ok, inval_arg, operation_failed, is_ok, SrEvent, is_apply, created, modified, deleted,
  moved, SrOper, SrVal, Change, Session, Xpath, foreach_change,
}
use archived_sweetcomb.Vom.{Vom}
use archived_sweetcomb.Prefix.{decimal}
use archived_sweetcomb.Address.{
  new_or_old_xpath, catch, l3_key, ipv46_config_add_remove, AddressState, initial, delete_old,
  add_new, AddressRound, continue, nothing_todo, next_round, parse_new, parse_old,
  parse_interface_ipv46_address, parse_change, on_change, on_changes,
  ietf_interface_ipv46_address_change_cb,
}
use archived_sweetcomb.Nat.Consistency.{NatLaws}
use archived_sweetcomb.System.Frame.{
  FrameLaws, SameMappings, remove-SameMappings, l3_key-IsNotNumber,
}

-- A round of the loop is caught with what was assigned before the exception.
catch-IfReturns :
    {S : Type 0} (P : S → Type 0) (s : S) (m : Outcome S)
    → P s
    → IfReturns P m
    → IfReturns P (catch s m)
catch-IfReturns P s (returns s') h k = k
catch-IfReturns P s throws h k = h
catch-IfReturns P s crash h k = tt

module _ (X : Xpath) (V : Vom) where
  -- Reading a change leaves the database alone.
  module _ (db : V.Db) where
    abbrev Keeps : AddressState V → Type 0
    Keeps s = s.db ≡ db

    parse_new-Keeps :
        (s : AddressState V) (v : Option SrVal) → Keeps s → IfReturns Keeps (parse_new X V s v)
    unfolding parse_new
    parse_new-Keeps s v h =
        IfReturns-each Keeps (parse_interface_ipv46_address X V v s.new_addr s.new_prefix) _
          (λ _ _. h)

    parse_old-Keeps :
        (s : AddressState V) (v : Option SrVal) → Keeps s → IfReturns Keeps (parse_old X V s v)
    unfolding parse_old
    parse_old-Keeps s v h =
        IfReturns-each Keeps (parse_interface_ipv46_address X V v s.old_addr s.old_prefix) _
          (λ _ _. h)

    parse_change-Keeps :
        (s : AddressState V) (op : SrOper) (old new : Option SrVal)
        → Keeps s
        → let c : Change = record { op = op; old_val = old; new_val = new } in
          IfReturns Keeps (parse_change X V s c)
    unfolding parse_change
    parse_change-Keeps s created old new h =
        catch-IfReturns Keeps _ _ h (parse_new-Keeps (record s { create = true }) new h)
    parse_change-Keeps s modified old new h =
        let s1 : AddressState V = record s { create = true; del = true } in
        catch-IfReturns Keeps s1 _ h (
          IfReturns-bind Keeps Keeps (parse_old X V s1 old) _ (parse_old-Keeps s1 old h)
            (λ s2 k. catch-IfReturns Keeps s2 _ k (parse_new-Keeps s2 new k)))
    parse_change-Keeps s deleted old new h =
        catch-IfReturns Keeps _ _ h (parse_old-Keeps (record s { del = true }) old h)
    parse_change-Keeps s moved old new h = h

  -- Adding or removing a binding writes it, or removes its key, or does nothing.
  add_remove-ind :
      (P : SrError × V.Db → Type 0) (if_name addr : String) (length : ℕ) (add : Bool) (db : V.Db)
      → ((rc : SrError) → P (rc, db))
      → ((rc : SrError) (l3 : V.L3Binding) → P (rc, (V.write_l3 db (l3_key V l3) l3).0))
      → ((l3 : V.L3Binding) → P (ok, V.remove db (l3_key V l3)))
      → P (ipv46_config_add_remove V if_name addr length add db)
  unfolding ipv46_config_add_remove
  add_remove-ind P if_name addr length add db idle written removed =
      elim (Option-cases (V.find db if_name)) [
        | inl absent ↦ rw (absent, ipv46_config_add_remove) (idle inval_arg)
        | inr (r, found) ↦ elim (Option-cases (V.prefix_t addr length)) [
          | inl bad ↦ rw (found, bad, ipv46_config_add_remove) (idle operation_failed)
          | inr (p, good) ↦
              let l3 : V.L3Binding = V.l3_binding (V.pointee db r) p in
              rw (found, good, ipv46_config_add_remove)
                (if-ind P add (λ _. written _ l3) (λ _. removed l3))
        ]
      ]

  module _ (L : NatLaws V) (F : FrameLaws V L) (before : V.Db) where
    abbrev Same : V.Db → Type 0
    Same = SameMappings V L before

    abbrev SameEnd : SrError × V.Db → Type 0
    SameEnd r = Same r.1

    add_remove-Same :
        (if_name addr : String) (length : ℕ) (add : Bool) (db : V.Db)
        → Same db
        → Same (ipv46_config_add_remove V if_name addr length add db).1
    add_remove-Same if_name addr length add db same =
        add_remove-ind SameEnd if_name addr length add db (λ rc. same)
          (λ rc l3 i. F.view-write_l3 db (l3_key V l3) l3 (decimal i) ∙ same i)
          (λ l3. remove-SameMappings V L before db (l3_key V l3) (l3_key-IsNotNumber V L l3) same)

    delete_old-Same : (s : AddressState V) → Same s.db → Same (delete_old V s).db
    unfolding delete_old
    delete_old-Same s same =
        if-ind (λ (s' : AddressState V). Same s'.db) (s.del && not (is_empty s.old_addr))
          (λ _. add_remove-Same s.if_name s.old_addr s.old_prefix false s.db same) (λ _. same)

    add_new-Same : (s : AddressState V) → Same s.db → Same (add_new V s).db
    unfolding add_new
    add_new-Same s same =
        if-ind (λ (s' : AddressState V). Same s'.db) (s.create && not (is_empty s.new_addr))
          (λ _. add_remove-Same s.if_name s.new_addr s.new_prefix true s.db same) (λ _. same)

    abbrev SameRound : AddressRound V → Type 0
    SameRound (continue s) = Same s.db
    SameRound (nothing_todo rc db) = Same db

    on_change-Same :
        (s : AddressState V) (c : Change) → Same s.db → IfReturns SameRound (on_change X V s c)
    unfolding on_change
    on_change-Same s c same = IfReturns-each SameRound (new_or_old_xpath c) _ (λ path _.
        IfReturns-each SameRound (deref (X.key_value path "interface" "name")) _ (λ name _.
          if-ind (IfReturns SameRound) (is_empty name) (λ _. same)
            (λ _.
              IfReturns-bind (Keeps s.db) SameRound _ _
                (parse_change-Keeps s.db (record s { if_name = name }) c.op c.old_val c.new_val
                  refl)
                (λ s' kept. add_new-Same _ (delete_old-Same s' (rw kept same))))))

    next_round-Same :
        (k : AddressState V → Outcome (SrError × V.Db)) (round : AddressRound V)
        → SameRound round
        → ((s : AddressState V) → Same s.db → IfReturns SameEnd (k s))
        → IfReturns SameEnd (next_round V k round)
    next_round-Same k (continue s) h rest = rest s h
    next_round-Same k (nothing_todo rc db) h rest = h

    on_changes-Same :
        (cs : List Change) (s : AddressState V)
        → Same s.db
        → IfReturns SameEnd (on_changes X V s cs)
    unfolding on_changes
    on_changes-Same [] s same = same
    on_changes-Same (c ∷ cs) s same =
        IfReturns-bind SameRound SameEnd (on_change X V s c) _ (on_change-Same s c same)
          (λ round h. next_round-Same _ round h (on_changes-Same cs))

  pub address_change_cb-SameMappings :
      (L : NatLaws V) (F : FrameLaws V L) (session : Session) (xpath : String) (event : SrEvent)
      (db : V.Db)
      → IfReturns
          (λ r. SameMappings V L db r.1)
          (ietf_interface_ipv46_address_change_cb X V session xpath event db)
  unfolding ietf_interface_ipv46_address_change_cb initial
  address_change_cb-SameMappings L F session xpath event db =
      if-ind (IfReturns (SameEnd L F db)) (is_apply event) (λ _ i. refl)
        (λ _.
          if-ind (IfReturns (SameEnd L F db)) (not (is_ok (session.get_changes_iter xpath)))
            (λ _ i. refl)
            (λ _.
              on_changes-Same L F db (foreach_change event (session.changes xpath)) (initial V db)
                (λ i. refl)))
