-- ===== src/Resources/Answers.antt =====
-- That the callbacks answer alike with and without the list of what they free.
use archived_sweetcomb.Prelude.{
  String, ◌≡◌, refl, sym, ap, ◌∙◌, Option, none, some, List, inl, inr, Bool-cases,
}
use archived_sweetcomb.Outcome.{Outcome, returns, ◌>>=◌, >>=-assoc, >>=-cong, >>=-returns}
use archived_sweetcomb.Sysrepo.{
  SrError, is_ok, SrEvent, is_verify, is_apply, Change, Session, Xpath, foreach_change,
}
use archived_sweetcomb.Vom.{Vom}
use archived_sweetcomb.Interface.{Garbage, Locals, Round, commit, finish, start}
use archived_sweetcomb.Interface.Config.{on_changes, ietf_interface_create_cb}
use archived_sweetcomb.Openconfig.{oc_on_changes, oc_interfaces_config_cb}
use archived_sweetcomb.Resources.{Resource, Exit, next, label, leave, freeing_loop}
use archived_sweetcomb.Resources.Loop.{IsTracedBy, loop-final}
use archived_sweetcomb.Address.{
  AddressState, initial, on_changes as address_on_changes, ietf_interface_ipv46_address_change_cb,
}
use archived_sweetcomb.Nat.{
  NatGarbage, NatLocals, NatState, on_nat_changes, nat_start, nat_finish,
  nat_mapping_table_config_cb,
}
use archived_sweetcomb.Resources.Addresses.{
  address_round, address_freeing_end, address_freeing, address_frees,
}
use archived_sweetcomb.Resources.Addresses.Frees.{final as address_final, address-IsTracedBy}
use archived_sweetcomb.Resources.Mappings.{
  nat_round_of, nat_round, nat_freeing_end, nat_freeing, nat_frees,
}
use archived_sweetcomb.Resources.Mappings.Frees.{final as nat_final, nat-IsTracedBy}
use archived_sweetcomb.Resources.Interfaces.{
  round_of, freeing_end, create_round, create_freeing, create_frees, oc_round, oc_freeing, oc_frees,
}
use archived_sweetcomb.Resources.Interfaces.Frees.{final, refusal, create-IsTracedBy, oc-IsTracedBy}

module _ (V : Vom) {E : Type 0} (result : E → SrError × V.Db) (dangling : List Resource) where
  end-answer :
      (freed : List Resource) (exit : Exit (Locals V) (SrError × V.Db) E)
      → finish V (round_of V result exit)
        ≡ (freeing_end V result dangling (freed, exit) >>= λ t. returns t.1)
  unfolding finish freeing_end
  end-answer freed (next l) = >>=-returns (commit V l) ∙ sym (>>=-assoc (commit V l) _ _)
  end-answer freed (label r) = refl
  end-answer freed (leave e) = refl

  loop-answer :
      (loop : Locals V → List Change → Outcome (Round V))
      (round : Locals V → Change → Outcome (Exit (Locals V) (SrError × V.Db) E)) (l : Locals V)
      (cs : List Change)
      → IsTracedBy (final V result) loop round
      → (loop l cs >>= finish V)
        ≡ ((freeing_loop round 0 l cs >>= freeing_end V result dangling) >>= λ t. returns t.1)
  loop-answer loop round l cs traced =
      let freeing = freeing_loop round 0 l cs in
      ap (λ m. m >>= finish V) (loop-final (final V result) loop round traced 0 l cs)
      ∙ >>=-assoc freeing _ _
      ∙ >>=-cong freeing _ _ (λ t. end-answer t.0 t.1)
      ∙ sym (>>=-assoc freeing _ _)

module _ (X : Xpath) (V : Vom) (left dangling : List Resource) where
  -- Whatever the pointers hold, ietf_interface_create_cb answers as it does with the list.
  pub create_frees-answer :
      (g : Garbage) (session : Session) (xpath : String) (event : SrEvent) (db : V.Db)
      → ietf_interface_create_cb X V g session xpath event db
        ≡ (create_frees X V g left dangling session xpath event db >>= λ t. returns t.1)
  unfolding ietf_interface_create_cb create_frees create_freeing
  create_frees-answer g session xpath event db = elim (Bool-cases (is_verify event)) [
    | inr other ↦ rw other refl
    | inl verifies ↦ elim (Bool-cases (is_ok (session.get_changes_iter xpath))) [
      | inr failed ↦ rw (verifies, failed) refl
      | inl ready ↦
          rw (verifies, ready)
            (loop-answer V (λ e. absurd e) dangling (on_changes X V) (create_round X V)
              (start V g db) (foreach_change event (session.changes xpath)) (create-IsTracedBy X V))
    ]
  ]

  pub oc_frees-answer :
      (g : Garbage) (ds : Option Session) (xpath : Option String) (event : SrEvent) (db : V.Db)
      → oc_interfaces_config_cb X V g ds xpath event db
        ≡ (oc_frees X V g left dangling ds xpath event db >>= λ t. returns t.1)
  unfolding oc_interfaces_config_cb oc_frees oc_freeing
  oc_frees-answer g none xpath event db = refl
  oc_frees-answer g (some ds) none event db = refl
  oc_frees-answer g (some ds) (some xpath) event db = elim (Bool-cases (is_verify event)) [
    | inr other ↦ rw other refl
    | inl verifies ↦ elim (Bool-cases (is_ok (ds.get_changes_iter xpath))) [
      | inr failed ↦ rw (verifies, failed) refl
      | inl ready ↦
          rw (verifies, ready)
            (loop-answer V (refusal X V) dangling (oc_on_changes X V) (oc_round X V) (start V g db)
              (foreach_change event (ds.changes xpath)) (oc-IsTracedBy X V))
    ]
  ]

  pub address_frees-answer :
      (session : Session) (xpath : String) (event : SrEvent) (db : V.Db)
      → ietf_interface_ipv46_address_change_cb X V session xpath event db
        ≡ (address_frees X V left session xpath event db >>= λ t. returns t.1)
  unfolding ietf_interface_ipv46_address_change_cb address_frees address_freeing address_freeing_end
  address_frees-answer session xpath event db = elim (Bool-cases (is_apply event)) [
    | inl applies ↦ rw applies refl
    | inr other ↦ elim (Bool-cases (is_ok (session.get_changes_iter xpath))) [
      | inr failed ↦ rw (other, failed) refl
      | inl ready ↦
          let cs = foreach_change event (session.changes xpath) in
          let freeing = freeing_loop (address_round X V) 0 (initial V db) cs in
          rw (other, ready)
            (loop-final (address_final X V) (address_on_changes X V) (address_round X V)
                (address-IsTracedBy X V) 0 (initial V db) cs
              ∙ >>=-cong freeing _ _ (λ t. address_end-answer t.0 t.1)
              ∙ sym (>>=-assoc freeing _ _))
    ]
  ]
    where
      address_end-answer :
          (freed : List Resource) (exit : Exit (AddressState V) (SrError × V.Db) ⊥)
          → address_final X V exit ≡ returns (address_freeing_end V (freed, exit)).1
      address_end-answer freed (next s) = refl
      address_end-answer freed (label r) = refl
      address_end-answer freed (leave e) = absurd e

  -- nat_mapping_table_config_cb does too, if `it` can be freed where sr_get_changes_iter fails.
  pub nat_frees-answer :
      (g : NatGarbage) (ds : Option Session) (xpath : Option String) (event : SrEvent)
      (s : NatState V)
      → nat_mapping_table_config_cb X V g ds xpath event s
        ≡ (nat_frees X V g (returns left) dangling ds xpath event s >>= λ t. returns t.1)
  unfolding nat_mapping_table_config_cb nat_frees nat_freeing nat_freeing_end nat_finish
  nat_frees-answer g none xpath event s = refl
  nat_frees-answer g (some ds) none event s = refl
  nat_frees-answer g (some ds) (some xpath) event s = elim (Bool-cases (is_verify event)) [
    | inr other ↦ rw other refl
    | inl verifies ↦ elim (Bool-cases (is_ok (ds.get_changes_iter xpath))) [
      | inr failed ↦ rw (verifies, failed) refl
      | inl ready ↦
          let cs = foreach_change event (ds.changes xpath) in
          let freeing = freeing_loop (nat_round X V) 0 (nat_start V g) cs in
          rw (verifies, ready)
            (ap (λ m. m >>= nat_finish X V s)
                (loop-final (nat_final X V) (on_nat_changes X V) (nat_round X V)
                  (nat-IsTracedBy X V) 0 (nat_start V g) cs)
              ∙ >>=-assoc freeing _ _
              ∙ >>=-cong freeing _ _ (λ t. nat_end-answer t.0 t.1)
              ∙ sym (>>=-assoc freeing _ _))
    ]
  ]
    where
      nat_end-answer :
          (freed : List Resource) (exit : Exit (NatLocals V) SrError ⊥)
          → nat_finish X V s (nat_round_of V exit)
            ≡ returns (nat_freeing_end V dangling s (freed, exit)).1
      nat_end-answer freed (next l) = refl
      nat_end-answer freed (label rc) = refl
      nat_end-answer freed (leave e) = absurd e
