-- ===== src/Nat/Mappings.antt =====
-- What nat_mapping_table_config_cb does with the changes that create one entry of the mapping table.
use archived_sweetcomb.Prelude.{
  ℕ, String, Bool, true, ◌≡◌, refl, ap, some, List, [], ◌∷◌, if◌then◌else◌,
}
use archived_sweetcomb.Outcome.{returns}
use archived_sweetcomb.Sysrepo.{
  SrError, ok, operation_failed, verify, list_t, no_data, string_t, uint32_t, enum_t, string_val,
  uint32_val, Change, Session, Xpath, foreach_change,
}
use archived_sweetcomb.Vom.{Vom}
use archived_sweetcomb.Prefix.{Prefix, make_prefix, decimal}
use archived_sweetcomb.Interface.Config.Creation.{creation}
use archived_sweetcomb.Nat.{
  NatGarbage, NatStaticBuilder, NatState, assign, nat_start, nat_commit, on_nat_change,
  nat_mapping_table_config_cb,
}
use archived_sweetcomb.Nat.Builder.{build_nat_lem}

-- An entry of the mapping table with the type static: the XPaths of its entry and of its leaves, its
-- index, and two texts for a pair of
-- addresses, an internal and an external one.
pub record Mapping : Type 0 where
  pub entry_path : String
  pub index_path : String
  pub type_path : String
  pub internal_path : String
  pub external_path : String
  pub index : ℕ
  pub internal : String
  pub external : String

-- The changes that sysrepo reports for a new one.
abbrev pub mapping_changes : Mapping → List Change
mapping_changes m =
    creation m.entry_path list_t no_data
    ∷ creation m.index_path uint32_t (uint32_val m.index)
    ∷ creation m.type_path enum_t (string_val "static")
    ∷ creation m.internal_path string_t (string_val m.internal)
    ∷ creation m.external_path string_t (string_val m.external)
    ∷ []

-- The paths lead to an index, a type and the two leaves with the names that are given.
pub record IsMapping (X : Xpath) (internal external : String) (m : Mapping) : Type 0 where
  pub entry_node : X.node_name m.entry_path ≡ "mapping-entry"
  pub index_node : X.node_name m.index_path ≡ "index"
  pub type_node : X.node_name m.type_path ≡ "type"
  pub internal_node : X.node_name m.internal_path ≡ internal
  pub external_node : X.node_name m.external_path ≡ external

module _ (V : Vom) (s : NatState V) where
  -- The answer of the callback when it writes one mapping.
  abbrev pub mapped : ℕ → V.Address → V.Address → SrError × NatState V
  mapped index inside outside =
      let (db', done) = V.write_nat s.db (decimal index) (V.nat_static inside outside) in
      if done
      then (ok, record { db = db'; table = assign V s.table index (inside, outside) })
      else (operation_failed, record s { db = db' })

  pub nat_commit-static :
      (b : NatStaticBuilder V) (xindex : ℕ) (remove : Bool)
      → b.m_type ≡ "static"
      → nat_commit V (record { builder = b; xindex = xindex; create = true; remove = remove }) s
        ≡ mapped xindex b.m_internal_src.m_address b.m_external_src.m_address
  unfolding nat_commit
  nat_commit-static b xindex remove e = rw ((build_nat_lem V b).0 e) refl

module _ (X : Xpath) (V : Vom) (g : NatGarbage) (ds : Session) (xpath : String) (s : NatState V)
    (ready : ds.get_changes_iter xpath ≡ ok) where
  module _ (m : Mapping) (changed : ds.changes xpath ≡ mapping_changes m) {p q : Prefix V}
      (parsed_internal : make_prefix V m.internal ≡ returns p)
      (parsed_external : make_prefix V m.external ≡ returns q) where
    -- A verified transaction that creates an entry with a source pair whose texts parse writes the
    -- static mapping of the two addresses under the index in decimal. Only if VOM accepts it, the
    -- table takes the pair at that index, and the answer is SR_ERR_OK.
    pub mapping_cb-source :
        IsMapping X "internal-src-address" "external-src-address" m
        → nat_mapping_table_config_cb X V g (some ds) (some xpath) verify s
          ≡ returns (mapped V s m.index p.m_address q.m_address)
    unfolding nat_mapping_table_config_cb foreach_change on_nat_change nat_start
    mapping_cb-source h =
        rw
          (
            ready, changed, h.entry_node, h.index_node, h.type_node, h.internal_node,
            parsed_internal, h.external_node, parsed_external,
          )
          (ap returns (nat_commit-static V s _ m.index g.remove refl))

    -- The same transaction with a destination pair is accepted too, but what it writes maps boost's
    -- default address to itself, not the addresses of the pair.
    pub mapping_cb-destination :
        IsMapping X "internal-dst-address" "external-dst-address" m
        → nat_mapping_table_config_cb X V g (some ds) (some xpath) verify s
          ≡ returns (mapped V s m.index V.no_address V.no_address)
    unfolding nat_mapping_table_config_cb foreach_change on_nat_change nat_start
    mapping_cb-destination h =
        rw
          (
            ready, changed, h.entry_node, h.index_node, h.type_node, h.internal_node,
            parsed_internal, h.external_node, parsed_external,
          )
          (ap returns (nat_commit-static V s _ m.index g.remove refl))
