-- ===== src/Nat/Deletions.antt =====
-- What nat_mapping_table_config_cb does with the change that deletes an entry of the mapping table.
use archived_sweetcomb.Prelude.{ℕ, String, true, false, ◌≡◌, refl, some, [], ◌∷◌}
use archived_sweetcomb.Outcome.{returns}
use archived_sweetcomb.Sysrepo.{
  ok, inval_arg, verify, uint32_t, uint32_val, Session, Xpath, foreach_change,
}
use archived_sweetcomb.Vom.{Vom}
use archived_sweetcomb.Prefix.{decimal}
use archived_sweetcomb.Interface.Config.Creation.{deletion}
use archived_sweetcomb.Nat.{
  NatGarbage, NatState, fresh_nat_builder, build_nat, erase, nat_start, write_mapping, nat_commit,
  nat_finish, on_nat_change, nat_mapping_table_config_cb,
}

-- A verified transaction that deletes the index of an entry removes the object with that key from
-- VOM and the entry from the table, and answers SR_ERR_OK, if the uninitialised flag create happens
-- to be false. If it happens to be true, nothing is removed, and the answer is SR_ERR_INVAL_ARG.
pub mapping_cb-deletion :
    (X : Xpath) (V : Vom) (g : NatGarbage) (ds : Session) (xpath : String) (s : NatState V)
    (path : String) (index : ℕ)
    → ds.get_changes_iter xpath ≡ ok
    → ds.changes xpath ≡ deletion path uint32_t (uint32_val index) ∷ []
    → X.node_name path ≡ "index"
    → (g.create ≡ false
        → nat_mapping_table_config_cb X V g (some ds) (some xpath) verify s
          ≡ returns
              (ok, record { db = V.remove s.db (decimal index); table = erase V s.table index }))
      × (g.create ≡ true
          → nat_mapping_table_config_cb X V g (some ds) (some xpath) verify s
            ≡ returns (inval_arg, s))
unfolding nat_mapping_table_config_cb foreach_change on_nat_change nat_start nat_finish nat_commit
    fresh_nat_builder build_nat write_mapping
mapping_cb-deletion X V g ds xpath s path index ready changed node =
    (λ clear. rw (ready, changed, node, clear) refl, λ dirty. rw (ready, changed, node, dirty) refl)
