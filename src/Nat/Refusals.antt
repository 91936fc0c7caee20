-- ===== src/Nat/Refusals.antt =====
-- Which texts make a C++ exception leave nat_mapping_table_config_cb.
use archived_sweetcomb.Prelude.{
  String, true, ◌≡◌, refl, some, List, [], ◌∷◌, ◌++◌, All, ◌⊎◌, inl, inr,
}
use archived_sweetcomb.Outcome.{Outcome, throws, Returns-some}
use archived_sweetcomb.Sysrepo.{
  is_ok, verify, created, deleted, string_val, SrVal, Change, Session, Xpath, foreach_change,
}
use archived_sweetcomb.Vom.{Vom}
use archived_sweetcomb.Prefix.{make_prefix}
use archived_sweetcomb.Nat.{
  NatGarbage, NatLocals, NatState, NatRound, continue, error, next_round, nat_start, on_nat_created,
  on_nat_change, on_nat_changes, nat_mapping_table_config_cb,
}
use archived_sweetcomb.Nat.Total.{GoesOn, IsNatChange, on_nat_change-GoesOn}

module _ (X : Xpath) (V : Vom) where
  -- The four leaves that hold a prefix.
  abbrev pub IsPrefixNode : String → Type 0
  IsPrefixNode n =
      (n ≡ "internal-src-address")
      ⊎ ((n ≡ "external-src-address")
          ⊎ ((n ≡ "internal-dst-address") ⊎ (n ≡ "external-dst-address")))

  -- A new leaf with a text that the constructor of utils::prefix refuses.
  abbrev pub IsRefused : Change → Type 0
  IsRefused c =
      (c.op ≡ created)
      × ((v : SrVal) × (s : String) × (c.new_val ≡ some v)
          × IsPrefixNode (X.node_name v.xpath)
          × (v.datum ≡ string_val s)
          × (make_prefix V s ≡ throws))

  on_nat_created-throws :
      (l : NatLocals V) (v : SrVal) (s : String)
      → IsPrefixNode (X.node_name v.xpath)
      → v.datum ≡ string_val s
      → make_prefix V s ≡ throws
      → on_nat_created X V l v ≡ throws
  unfolding on_nat_created
  on_nat_created-throws l v s (inl n) e bad = rw (n, e, bad) refl
  on_nat_created-throws l v s (inr (inl n)) e bad = rw (n, e, bad) refl
  on_nat_created-throws l v s (inr (inr (inl n))) e bad = rw (n, e, bad) refl
  on_nat_created-throws l v s (inr (inr (inr n))) e bad = rw (n, e, bad) refl

  next_round-throws :
      (rest : NatLocals V → Outcome (NatRound V)) (round : NatRound V)
      → GoesOn X V round
      → ((l : NatLocals V) → rest l ≡ throws)
      → next_round V rest round ≡ throws
  next_round-throws rest (continue l) on h = h l
  next_round-throws rest (error rc) on h = absurd on

  on_nat_changes-throws :
      (before behind : List Change) (bad : Change) (l : NatLocals V)
      → All (IsNatChange X V) before
      → All (λ c. (c.op ≡ created) ⊎ (c.op ≡ deleted)) before
      → IsRefused bad
      → on_nat_changes X V l (before ++ bad ∷ behind) ≡ throws
  unfolding on_nat_changes on_nat_change
  on_nat_changes-throws [] behind bad l good edits (op, (v, s, new, node, e, refused)) =
      rw (op, new, on_nat_created-throws l v s node e refused) refl
  on_nat_changes-throws (c ∷ before) behind bad l good edits h =
      let (round, e, on) =
        Returns-some (GoesOn X V) _
          (on_nat_change-GoesOn X V l c.op c.old_val c.new_val edits.0 good.0) in
      rw e (
        next_round-throws (λ l'. on_nat_changes X V l' (before ++ bad ∷ behind)) round on
          (λ l'. on_nat_changes-throws before behind bad l' good.1 edits.1 h))

  -- In the verification of a transaction that creates a leaf whose prefix is refused, behind
  -- creations and deletions that are not, a C++ exception leaves the callback, whatever follows.
  pub mapping_cb-throws :
      (g : NatGarbage) (ds : Session) (xpath : String) (s : NatState V)
      (before behind : List Change) (bad : Change)
      → is_ok (ds.get_changes_iter xpath) ≡ true
      → ds.changes xpath ≡ before ++ bad ∷ behind
      → All (IsNatChange X V) before
      → All (λ c. (c.op ≡ created) ⊎ (c.op ≡ deleted)) before
      → IsRefused bad
      → nat_mapping_table_config_cb X V g (some ds) (some xpath) verify s ≡ throws
  unfolding nat_mapping_table_config_cb foreach_change
  mapping_cb-throws g ds xpath s before behind bad ready e good edits refused =
      rw (ready, e, on_nat_changes-throws before behind bad (nat_start V g) good edits refused) refl
