-- ===== src/Resources/Mappings/Undefined.antt =====
-- Where nat_mapping_table_config_cb of src/plugins/ietf/ietf_nat.cpp returns, and where it frees what
-- it must not.
use archived_sweetcomb.Prelude.{
  String, Bool, true, false, ltb, ◌≡◌, refl, ap, some, [], All, if◌then◌else◌,
}
use archived_sweetcomb.Outcome.{returns, crash}
use archived_sweetcomb.Sysrepo.{
  SrError, inval_arg, operation_failed, is_ok, verify, Session, Xpath, foreach_change,
}
use archived_sweetcomb.Vom.{Vom}
use archived_sweetcomb.Nat.{NatGarbage, NatState, nat_mapping_table_config_cb}
use archived_sweetcomb.Nat.Total.{IsNatChange, mapping_cb_total}
use archived_sweetcomb.Resources.Mappings.{nat_frees, nat_guarded}
use archived_sweetcomb.Resources.Mappings.Frees.{iterator_frees, mapping_cb-frees}

-- The answers behind which the iterator has been freed twice.
abbrev pub is_double_free : SrError → Bool
is_double_free inval_arg = true
is_double_free operation_failed = true
is_double_free _ = false

ltb-iterator_frees : (rc : SrError) → ltb 1 (iterator_frees rc) ≡ is_double_free rc
ltb-iterator_frees inval_arg = refl
ltb-iterator_frees operation_failed = refl
ltb-iterator_frees _ = refl

module _ (X : Xpath) (V : Vom) (g : NatGarbage) (ds : Session) (xpath : String)
    (s : NatState V) where
  -- If the changes hold the members that the YANG model asks for, their new prefixes can be parsed,
  -- and sysrepo leaves null pointers behind where there are no more changes, a verification that is
  -- given the iterator comes to an answer, and it returns it unless it is SR_ERR_INVAL_ARG or
  -- SR_ERR_OPERATION_FAILED: then the iterator has been freed twice, which is undefined behaviour.
  pub nat_guarded_total :
      is_ok (ds.get_changes_iter xpath) ≡ true
      → All (IsNatChange X V) (ds.changes xpath)
      → (r : SrError × NatState V) × (nat_mapping_table_config_cb X V g
            (some ds)
            (some xpath)
            verify
            s
          ≡ returns r)
        × (nat_guarded X V g crash [] (some ds) (some xpath) verify s
            ≡ (if is_double_free r.0 then crash else returns r))
  unfolding nat_guarded nat_frees foreach_change
  nat_guarded_total ready typed =
      let (r, answers) = mapping_cb_total X V g ds xpath verify s typed in
      let (trace, freed, visits, twice) = mapping_cb-frees X V g ds xpath s r ready answers in
      (
        r,
        answers,
        rw (ready, freed, twice)
            (ap (λ b. if b then crash else returns r) (ltb-iterator_frees r.0)),
      )

  -- It is undefined too, whatever the changes are, if sr_get_changes_iter fails and the pointer to
  -- the iterator is still what the stack held.
  nat_guarded_failed :
      is_ok (ds.get_changes_iter xpath) ≡ false
      → nat_guarded X V g crash [] (some ds) (some xpath) verify s ≡ crash
  unfolding nat_guarded nat_frees
  nat_guarded_failed failed = rw failed refl
