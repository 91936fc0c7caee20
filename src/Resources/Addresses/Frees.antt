-- ===== src/Resources/Addresses/Frees.antt =====
-- That the callback for addresses frees what sysrepo allocated for it.
use archived_sweetcomb.Prelude.{
  String, ◌≤◌, ◌≡◌, refl, sym, ap, ◌∙◌, List, [], ◌∷◌, ◌++◌, true, false,
}
use archived_sweetcomb.Outcome.{
  Outcome, returns, throws, crash, ◌>>=◌, IfReturns-eq, >>=-eq-returns,
}
use archived_sweetcomb.Sysrepo.{
  SrError, is_ok, SrEvent, is_apply, Change, Session, Xpath, foreach_change,
}
use archived_sweetcomb.Vom.{Vom}
use archived_sweetcomb.Address.{
  AddressState, AddressRound, continue, nothing_todo, next_round, initial, on_change, on_changes,
  ietf_interface_ipv46_address_change_cb,
}
use archived_sweetcomb.Resources.{Resource, iterator, Exit, next, label, leave, freeing_loop, times}
use archived_sweetcomb.Resources.Loop.{
  Visits, all_values, HasFreed, freeing_loop-HasFreed, after_exit, IsTracedBy, loop-final,
}
use archived_sweetcomb.Resources.Once.{times-then_iterator}
use archived_sweetcomb.Resources.Addresses.{
  address_exit, address_freeing_end, address_round, address_freeing,
}

module _ (X : Xpath) (V : Vom) where
  abbrev pub final : Exit (AddressState V) (SrError × V.Db) ⊥ → Outcome (SrError × V.Db)
  final (next s) = returns (s.op_rc, s.db)
  final (label r) = returns r
  final (leave e) = absurd e

  exit-next_round :
      (m : Outcome (AddressRound V)) (k : AddressState V → Outcome (SrError × V.Db))
      → (m >>= next_round V k)
        ≡ ((m >>= λ round. returns (address_exit V round)) >>= after_exit final k)
  exit-next_round (returns (continue s)) k = refl
  exit-next_round (returns (nothing_todo rc db)) k = refl
  exit-next_round throws k = refl
  exit-next_round crash k = refl

  pub address-IsTracedBy : IsTracedBy final (on_changes X V) (address_round X V)
  unfolding on_changes address_round
  address-IsTracedBy = record {
    loop-nil = λ s. refl;
    loop-cons = λ s c cs. exit-next_round (on_change X V s c) _;
  }

  end-frees :
      (freed : List Resource) (exit : Exit (AddressState V) (SrError × V.Db) ⊥) (r : SrError × V.Db)
      → final exit ≡ returns r
      → address_freeing_end V (freed, exit) ≡ (freed ++ iterator ∷ [], r)
  unfolding address_freeing_end
  end-frees freed (next s) r e =
      ap (λ x. (freed ++ iterator ∷ [], x))
        (IfReturns-eq (λ x. (s.op_rc, s.db) ≡ x) (returns (s.op_rc, s.db)) r refl e)
  end-frees freed (label a) r e =
      ap (λ x. (freed ++ iterator ∷ [], x)) (IfReturns-eq (λ x. a ≡ x) (returns a) r refl e)
  end-frees freed (leave x) r e = absurd x

  -- If ietf_interface_ipv46_address_change_cb returns, in a phase in which it asks for the changes
  -- and is given them, it frees the old and the new value of each change that its loop goes through,
  -- as far as they are not null, the change at which it jumps to the label included, and then the
  -- iterator, each of them exactly once, whatever exceptions were caught.
  pub address_change_cb-frees :
      (session : Session) (xpath : String) (event : SrEvent) (db : V.Db) (r : SrError × V.Db)
      → is_apply event ≡ false
      → is_ok (session.get_changes_iter xpath) ≡ true
      → ietf_interface_ipv46_address_change_cb X V session xpath event db ≡ returns r
      → let cs = foreach_change event (session.changes xpath) in
        (trace : List Resource) × (address_freeing X V cs db ≡ returns (trace, r))
        × ((visited : List Change) × (exit : Exit (AddressState V) (SrError × V.Db) ⊥) × Visits
              (address_round X V)
              (initial V db)
              cs
              visited
              exit
            × (trace ≡ all_values 0 visited ++ iterator ∷ []))
        × ((x : Resource) → times x trace ≤ 1)
        × (times iterator trace ≡ 1)
  unfolding ietf_interface_ipv46_address_change_cb address_freeing
  address_change_cb-frees session xpath event db r active ready e =
      let cs = foreach_change event (session.changes xpath) in
      let loop = freeing_loop (address_round X V) 0 (initial V db) cs in
      let (t, ran, end) =
        >>=-eq-returns loop (λ t. final t.1)
          (sym (
              loop-final final (on_changes X V) (address_round X V) address-IsTracedBy 0
                (initial V db) cs)
            ∙ rw (active, ready) at e) in
      let (visited, visits, freed) =
        IfReturns-eq (HasFreed (address_round X V) 0 (initial V db) cs) loop t
          (freeing_loop-HasFreed (address_round X V) 0 (initial V db) cs) ran in
      let all = ap (λ xs. xs ++ iterator ∷ []) freed in
      let once = times-then_iterator visited (t.0 ++ iterator ∷ []) all in
      (
        t.0 ++ iterator ∷ [],
        ap (λ m. m >>= λ u. returns (address_freeing_end V u)) ran
            ∙ ap returns (end-frees t.0 t.1 r end),
        (visited, t.1, visits, all),
        once.0,
        once.1,
      )
