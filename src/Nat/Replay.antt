-- ===== src/Nat/Replay.antt =====
-- nat_mapping_table_config_cb of src/plugins/ietf/ietf_nat.cpp on transactions with any number of
-- edits, against the model of Nat/Sequence.antt.
use archived_sweetcomb.Prelude.{
  ℕ, String, Bool, true, false, ◌≡◌, refl, ◌∙◌, some, List, [], ◌∷◌, ◌++◌, All,
}
use archived_sweetcomb.Outcome.{Outcome, returns}
use archived_sweetcomb.Sysrepo.{ok, verify, Session, Xpath, foreach_change, Change, node_name_eq}
use archived_sweetcomb.Vom.{Vom}
use archived_sweetcomb.Prefix.{decimal, default_prefix}
use archived_sweetcomb.Interface.Config.Creation.{Leaf, deletions}
use archived_sweetcomb.Nat.{
  NatGarbage, NatState, NatLocals, NatRound, continue, fresh_nat_builder, nat_start, nat_commit,
  nat_finish, on_nat_change, on_nat_changes, nat_mapping_table_config_cb, assign, erase,
}
use archived_sweetcomb.Nat.Mappings.{nat_commit-static}
use archived_sweetcomb.Nat.Consistency.{NatLaws, IsConsistent, mapping_cb-Keeps}
use archived_sweetcomb.Nat.Sequence.{
  NatEdit, add_source, add_destination, delete_mapping, PendingIndex, idle, writes, erases,
  redirected, all_changes, IsValid, pending, last_pair, settle, transacted,
}

-- Neither flag, which the code leaves uninitialised, is true.
abbrev pub IsClear : NatGarbage → Type 0
IsClear g = (g.create ≡ false) × (g.remove ≡ false)

-- The variables behind some edits stand for what is pending.
abbrev Stands : PendingIndex → Bool → Bool → ℕ → String → Type 0
Stands idle create remove i type = (create ≡ false) × (remove ≡ false)
Stands (writes j) create remove i type = (create ≡ true) × (i ≡ j) × (type ≡ "static")
Stands (erases j) create remove i type = (create ≡ false) × (remove ≡ true) × (i ≡ j)

redirected-Stands :
    (w : PendingIndex) (create remove : Bool) (i j : ℕ) (type : String)
    → Stands w create remove i type
    → Stands (redirected j w) create true j type
redirected-Stands idle create remove i j type h = (h.0, refl, refl)
redirected-Stands (erases k) create remove i j type h = (h.0, refl, refl)
redirected-Stands (writes k) create remove i j type h = (h.0, refl, h.2)

module _ (X : Xpath) (V : Vom) where
  abbrev Tracks : PendingIndex → V.Address × V.Address → NatLocals V → Type 0
  Tracks w pair l =
      Stands w l.create l.remove l.xindex l.builder.m_type
      × (l.builder.m_internal_src.m_address ≡ pair.0)
      × (l.builder.m_external_src.m_address ≡ pair.1)

  abbrev Reaches : PendingIndex → V.Address × V.Address → Outcome (NatRound V) → Type 0
  Reaches w pair m = (l : NatLocals V) × (m ≡ returns (continue l)) × Tracks w pair l

  on_nat_changes-deletions :
      (l : NatLocals V) (leaves : List Leaf) (rest : List Change)
      → All (λ leaf. node_name_eq X leaf.path "index" ≡ false) leaves
      → on_nat_changes X V l (deletions leaves ++ rest) ≡ on_nat_changes X V l rest
  unfolding on_nat_changes on_nat_change
  on_nat_changes-deletions l [] rest h = refl
  on_nat_changes-deletions l (leaf ∷ leaves) rest h =
      rw h.0 (on_nat_changes-deletions l leaves rest h.1)

  on_nat_changes-Reaches :
      (es : List (NatEdit V)) (l : NatLocals V) (w : PendingIndex) (pair : V.Address × V.Address)
      → Tracks w pair l
      → All (IsValid V X) es
      → Reaches (pending V es w) (last_pair V es pair) (on_nat_changes X V l (all_changes V es))
  unfolding on_nat_changes on_nat_change
  on_nat_changes-Reaches [] l w pair h valid = (l, refl, h)
  on_nat_changes-Reaches (add_source m p q ∷ es) l w pair h ((nodes, p1, q1), valid) =
      rw
        (
          nodes.entry_node, nodes.index_node, nodes.type_node, nodes.internal_node, p1,
          nodes.external_node, q1,
        )
        (on_nat_changes-Reaches es _ (writes m.index) (p.m_address, q.m_address)
          ((refl, refl, refl), refl, refl) valid)
  on_nat_changes-Reaches (add_destination m p q ∷ es) l w pair h ((nodes, p1, q1), valid) =
      rw
        (
          nodes.entry_node, nodes.index_node, nodes.type_node, nodes.internal_node, p1,
          nodes.external_node, q1,
        )
        (on_nat_changes-Reaches es _ (writes m.index) pair ((refl, refl, refl), h.1, h.2) valid)
  on_nat_changes-Reaches (delete_mapping entry path index leaves ∷ es) l w pair h (nodes, valid) =
      rw (nodes.0, nodes.1, on_nat_changes-deletions _ leaves (all_changes V es) nodes.2)
        (on_nat_changes-Reaches es _ (redirected index w) pair
          (redirected-Stands w l.create l.remove l.xindex index l.builder.m_type h.0, h.1, h.2)
          valid)

  -- VOM refuses no static mapping.
  abbrev pub Accepts : Type 0
  Accepts = (db : V.Db) (k : String) (ns : V.NatStatic) → (V.write_nat db k ns).1 ≡ true

  nat_commit-settle :
      Accepts
      → (w : PendingIndex) (pair : V.Address × V.Address) (l : NatLocals V) (s : NatState V)
      → Tracks w pair l
      → (db : V.Db) × (nat_commit V l s ≡ (ok, record { db = db; table = settle V w pair s.table }))
  unfolding nat_commit assign erase
  nat_commit-settle accepts idle pair l s ((create, remove), inside, outside) =
      (s.db, rw (create, remove) refl)
  nat_commit-settle accepts (erases i) pair l s ((create, remove, index), inside, outside) =
      (V.remove s.db (decimal i), rw (create, remove, index) refl)
  nat_commit-settle accepts (writes i) pair l s ((create, index, static), inside, outside) =
      let ns = V.nat_static pair.0 pair.1 in
      (
        (V.write_nat s.db (decimal i) ns).0,
        rw create (
            nat_commit-static V s l.builder l.xindex l.remove static
            ∙ rw (index, inside, outside, accepts s.db (decimal i) ns) refl),
      )

  -- A verified transaction with any number of edits is answered with SR_ERR_OK by the callback if
  -- neither uninitialised flag happens to be true and VOM keeps the laws and refuses no mapping. An
  -- edit creates an entry of the type static, reported as its entry and the leaves index, type and
  -- those of a source or of a destination pair in this order, whose texts parse, or it deletes an
  -- entry, reported as the entry, its index and any other nodes below it; the paths lead to these
  -- nodes. The table behind it is the one
  -- that the model computes, and VOM has the mappings of that table if it had those of the table
  -- before.
  pub mapping_cb-Follows :
      (L : NatLaws V)
      → Accepts
      → (g : NatGarbage) (ds : Session) (xpath : String) (s : NatState V) (edits : List (NatEdit V))
      → IsClear g
      → All (IsValid V X) edits
      → ds.get_changes_iter xpath ≡ ok
      → ds.changes xpath ≡ all_changes V edits
      → IsConsistent V L s
      → (s' : NatState V) × (nat_mapping_table_config_cb X V g (some ds) (some xpath) verify s
          ≡ returns (ok, s'))
        × (s'.table ≡ transacted V edits s.table)
        × IsConsistent V L s'
  unfolding nat_mapping_table_config_cb foreach_change nat_start fresh_nat_builder nat_finish
      default_prefix
  mapping_cb-Follows L accepts g ds xpath s edits clear valid ready changed consistent =
      let w = pending V edits idle in
      let pair = last_pair V edits (V.no_address, V.no_address) in
      let (l, loops, tracks) =
        on_nat_changes-Reaches edits (nat_start V g) idle (V.no_address, V.no_address)
          (clear, refl, refl) valid in
      let (db, commits) = nat_commit-settle accepts w pair l s tracks in
      let s' : NatState V = record { db = db; table = transacted V edits s.table } in
      let answers : nat_mapping_table_config_cb X V g (some ds) (some xpath) verify s
          ≡ returns (ok, s') =
        rw (ready, changed, loops, commits) refl in
      let keeps = mapping_cb-Keeps V L X g (some ds) (some xpath) verify s (ok, s') answers in
      (s', answers, refl, keeps.0 (λ e. cc) consistent)
