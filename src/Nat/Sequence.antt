-- ===== src/Nat/Sequence.antt =====
-- What a transaction with any number of edits of the mapping table asks for, on the table alone: the
-- model against which nat_mapping_table_config_cb of src/plugins/ietf/ietf_nat.cpp is read.
use archived_sweetcomb.Prelude.{
  ℕ, String, ◌≡◌, All, false, none, some, eqb, if◌then◌else◌, List, [], ◌∷◌, ◌++◌,
}
use archived_sweetcomb.Outcome.{returns}
use archived_sweetcomb.Sysrepo.{Change, Xpath, node_name_eq, list_t, no_data, uint32_t, uint32_val}
use archived_sweetcomb.Vom.{Vom}
use archived_sweetcomb.Prefix.{Prefix, make_prefix}
use archived_sweetcomb.Interface.Config.Creation.{Leaf, deletion, deletions}
use archived_sweetcomb.Nat.{NatTable}
use archived_sweetcomb.Nat.Mappings.{Mapping, IsMapping, mapping_changes}

-- A new entry of the type static with a source pair or with a destination pair, and what its two
-- texts parse to, or the removal of an entry, with the paths of the entry and of its index, the
-- index, and the nodes below the entry that are gone with it.
pub data NatEdit (V : Vom) : Type 0 where
  add_source : Mapping → Prefix V → Prefix V → NatEdit V
  add_destination : Mapping → Prefix V → Prefix V → NatEdit V
  delete_mapping : String → String → ℕ → List Leaf → NatEdit V

-- The index that is written or erased at the end.
pub data PendingIndex : Type 0 where
  idle : PendingIndex
  writes : ℕ → PendingIndex
  erases : ℕ → PendingIndex

-- A removal behind a new entry only replaces the index.
abbrev pub redirected : ℕ → PendingIndex → PendingIndex
redirected i idle = erases i
redirected i (erases j) = erases i
redirected i (writes j) = writes i

module _ (V : Vom) where
  -- The changes that sysrepo reports.
  abbrev pub changes_of : NatEdit V → List Change
  changes_of (add_source m p q) = mapping_changes m
  changes_of (add_destination m p q) = mapping_changes m
  changes_of (delete_mapping entry path index leaves) =
      deletion entry list_t no_data ∷ deletion path uint32_t (uint32_val index) ∷ deletions leaves

  abbrev pub all_changes : List (NatEdit V) → List Change
  all_changes [] = []
  all_changes (e ∷ es) = changes_of e ++ all_changes es

  -- The paths lead to the nodes that the edit names, and its texts parse.
  abbrev pub IsValid : Xpath → NatEdit V → Type 0
  IsValid X (add_source m p q) =
      IsMapping X "internal-src-address" "external-src-address" m
      × (make_prefix V m.internal ≡ returns p)
      × (make_prefix V m.external ≡ returns q)
  IsValid X (add_destination m p q) =
      IsMapping X "internal-dst-address" "external-dst-address" m
      × (make_prefix V m.internal ≡ returns p)
      × (make_prefix V m.external ≡ returns q)
  IsValid X (delete_mapping entry path index leaves) =
      (X.node_name entry ≡ "mapping-entry")
      × (X.node_name path ≡ "index")
      × All (λ leaf. node_name_eq X leaf.path "index" ≡ false) leaves

  -- The index that is pending behind the edits.
  abbrev pub pending : List (NatEdit V) → PendingIndex → PendingIndex
  pending [] w = w
  pending (add_source m p q ∷ es) w = pending es (writes m.index)
  pending (add_destination m p q ∷ es) w = pending es (writes m.index)
  pending (delete_mapping entry path index leaves ∷ es) w = pending es (redirected index w)

  -- The addresses of the last source pair; a destination pair has no effect on them.
  abbrev pub last_pair : List (NatEdit V) → V.Address × V.Address → V.Address × V.Address
  last_pair [] pair = pair
  last_pair (add_source m p q ∷ es) pair = last_pair es (p.m_address, q.m_address)
  last_pair (add_destination m p q ∷ es) pair = last_pair es pair
  last_pair (delete_mapping entry path index leaves ∷ es) pair = last_pair es pair

  abbrev pub settle : PendingIndex → V.Address × V.Address → NatTable V → NatTable V
  settle idle pair table j = table j
  settle (writes i) pair table j = if eqb j i then some pair else table j
  settle (erases i) pair table j = if eqb j i then none else table j

  -- The table behind the edits of a transaction, which starts with boost's default address.
  abbrev pub transacted : List (NatEdit V) → NatTable V → NatTable V
  transacted es = settle (pending es idle) (last_pair es (V.no_address, V.no_address))
