-- ===== src/Nat/Total.antt =====
-- That nat_mapping_table_config_cb returns: on which changes it neither throws nor runs into
-- undefined behaviour.
use archived_sweetcomb.Prelude.{
  String, true, ◌≡◌, refl, Option, some, List, [], ◌∷◌, All, if-ind, Bool-cases, ◌⊎◌, inl, inr,
}
use archived_sweetcomb.Outcome.{Outcome, returns, Returns, Returns-some, Returns-any, Returns-bind}
use archived_sweetcomb.Sysrepo.{
  SrError, is_ok, SrEvent, verify, apply, abort, created, modified, deleted, moved, SrOper,
  string_val, SrVal, HasString, HasUint32, Change, Session, Xpath, node_name_eq, foreach_change,
}
use archived_sweetcomb.Vom.{Vom}
use archived_sweetcomb.Prefix.{Prefix, make_prefix}
use archived_sweetcomb.Nat.{
  NatGarbage, NatLocals, NatState, NatRound, continue, error, next_round, with_prefix, nat_start,
  on_nat_created, on_nat_deleted, on_nat_change, on_nat_changes, nat_finish,
  nat_mapping_table_config_cb,
}

module _ (X : Xpath) (V : Vom) where
  -- The value is a text that the constructor of utils::prefix accepts.
  abbrev pub HasPrefix : SrVal → Type 0
  HasPrefix v =
      (s : String) × (p : Prefix V) × (v.datum ≡ string_val s) × (make_prefix V s ≡ returns p)

  -- What sysrepo promises of a value, and that its prefix can be read.
  pub record IsNatLeaf (v : SrVal) : Type 0 where
    pub index : node_name_eq X v.xpath "index" ≡ true → HasUint32 v
    pub type : node_name_eq X v.xpath "type" ≡ true → HasString v
    pub internal_src : node_name_eq X v.xpath "internal-src-address" ≡ true → HasPrefix v
    pub external_src : node_name_eq X v.xpath "external-src-address" ≡ true → HasPrefix v
    pub internal_dst : node_name_eq X v.xpath "internal-dst-address" ≡ true → HasPrefix v
    pub external_dst : node_name_eq X v.xpath "external-dst-address" ≡ true → HasPrefix v

  abbrev pub HasNatValues : SrOper → Option SrVal → Option SrVal → Type 0
  HasNatValues created old new = (v : SrVal) × (new ≡ some v) × IsNatLeaf v
  HasNatValues deleted old new = (v : SrVal) × (old ≡ some v) × IsNatLeaf v
  HasNatValues modified old new = Unit
  HasNatValues moved old new = Unit

  abbrev pub IsNatChange : Change → Type 0
  IsNatChange c = HasNatValues c.op c.old_val c.new_val

  abbrev pub GoesOn : NatRound V → Type 0
  GoesOn (continue l) = Unit
  GoesOn (error rc) = ⊥

  abbrev R : Outcome (NatRound V) → Type 0
  R = Returns GoesOn

  with_prefix-Returns :
      (v : SrVal) (update : Prefix V → NatLocals V) → HasPrefix v → R (with_prefix X V v update)
  with_prefix-Returns v update (s, p, e, parsed) = rw (e, parsed) tt

  on_nat_created-Returns : (l : NatLocals V) (v : SrVal) → IsNatLeaf v → R (on_nat_created X V l v)
  unfolding on_nat_created
  on_nat_created-Returns l v leaf =
      if-ind R (node_name_eq X v.xpath "index") (λ hit. let (i, e) = leaf.index hit in rw e tt)
        (λ _.
          if-ind R (node_name_eq X v.xpath "type") (λ hit. let (t, e) = leaf.type hit in rw e tt)
            (λ _.
              if-ind R (node_name_eq X v.xpath "internal-src-address")
                (λ hit. with_prefix-Returns v _ (leaf.internal_src hit))
                (λ _.
                  if-ind R (node_name_eq X v.xpath "external-src-address")
                    (λ hit. with_prefix-Returns v _ (leaf.external_src hit))
                    (λ _.
                      if-ind R (node_name_eq X v.xpath "internal-dst-address")
                        (λ hit. with_prefix-Returns v _ (leaf.internal_dst hit))
                        (λ _.
                          if-ind R (node_name_eq X v.xpath "external-dst-address")
                            (λ hit. with_prefix-Returns v _ (leaf.external_dst hit)) (λ _. tt))))))

  on_nat_deleted-Returns : (l : NatLocals V) (v : SrVal) → IsNatLeaf v → R (on_nat_deleted X V l v)
  unfolding on_nat_deleted
  on_nat_deleted-Returns l v leaf =
      if-ind R (node_name_eq X v.xpath "index") (λ hit. let (i, e) = leaf.index hit in rw e tt)
        (λ _. tt)

  pub on_nat_change-GoesOn :
      (l : NatLocals V) (op : SrOper) (old new : Option SrVal)
      → (op ≡ created) ⊎ (op ≡ deleted)
      → HasNatValues op old new
      → R (on_nat_change X V l (record { op = op; old_val = old; new_val = new }))
  unfolding on_nat_change
  on_nat_change-GoesOn l created old new edit (v, e, leaf) = rw e (on_nat_created-Returns l v leaf)
  on_nat_change-GoesOn l deleted old new edit (v, e, leaf) = rw e (on_nat_deleted-Returns l v leaf)
  on_nat_change-GoesOn l modified old new (inl e) h = cc
  on_nat_change-GoesOn l modified old new (inr e) h = cc
  on_nat_change-GoesOn l moved old new (inl e) h = cc
  on_nat_change-GoesOn l moved old new (inr e) h = cc

  on_nat_change-Returns :
      (l : NatLocals V) (op : SrOper) (old new : Option SrVal)
      → HasNatValues op old new
      → let c : Change = record { op = op; old_val = old; new_val = new } in
        Returns (λ _. Unit) (on_nat_change X V l c)
  unfolding on_nat_change
  on_nat_change-Returns l created old new h =
      Returns-any GoesOn _ (on_nat_change-GoesOn l created old new (inl refl) h)
  on_nat_change-Returns l deleted old new h =
      Returns-any GoesOn _ (on_nat_change-GoesOn l deleted old new (inr refl) h)
  on_nat_change-Returns l modified old new h = tt
  on_nat_change-Returns l moved old new h = tt

  next_round-Returns :
      (rest : NatLocals V → Outcome (NatRound V)) (round : NatRound V)
      → ((l : NatLocals V) → Returns (λ _. Unit) (rest l))
      → Returns (λ _. Unit) (next_round V rest round)
  next_round-Returns rest (continue l) h = h l
  next_round-Returns rest (error rc) h = tt

  on_nat_changes-Returns :
      (cs : List Change) (l : NatLocals V)
      → All IsNatChange cs
      → Returns (λ _. Unit) (on_nat_changes X V l cs)
  unfolding on_nat_changes
  on_nat_changes-Returns [] l h = tt
  on_nat_changes-Returns (c ∷ cs) l h =
      Returns-bind (λ _. Unit) (λ _. Unit) (on_nat_change X V l c) _
        (on_nat_change-Returns l c.op c.old_val c.new_val h.0)
        (λ round _.
          next_round-Returns (λ l'. on_nat_changes X V l' cs) round
            (λ l'. on_nat_changes-Returns cs l' h.1))

  nat_finish-Returns :
      (s : NatState V) (round : NatRound V) → Returns (λ _. Unit) (nat_finish X V s round)
  unfolding nat_finish
  nat_finish-Returns s (continue l) = tt
  nat_finish-Returns s (error rc) = tt

  mapping_cb-Returns :
      (g : NatGarbage) (ds : Session) (xpath : String) (event : SrEvent) (s : NatState V)
      → All IsNatChange (ds.changes xpath)
      → Returns (λ _. Unit) (nat_mapping_table_config_cb X V g (some ds) (some xpath) event s)
  unfolding nat_mapping_table_config_cb foreach_change
  mapping_cb-Returns g ds xpath apply s typed = tt
  mapping_cb-Returns g ds xpath abort s typed = tt
  mapping_cb-Returns g ds xpath SrEvent.enabled s typed = tt
  mapping_cb-Returns g ds xpath verify s typed =
      elim (Bool-cases (is_ok (ds.get_changes_iter xpath))) [
        | inr failed ↦ rw failed tt
        | inl ready ↦ rw ready (
            Returns-bind (λ _. Unit) (λ _. Unit)
              (on_nat_changes X V (nat_start V g) (ds.changes xpath)) (nat_finish X V s)
              (on_nat_changes-Returns (ds.changes xpath) (nat_start V g) typed)
              (λ round _. nat_finish-Returns s round))
      ]

  -- Apart from what it frees, which is undefined where it frees the iterator twice, the callback
  -- comes to an answer on every transaction whose changes hold the members that the YANG model asks
  -- for and whose new prefixes can be parsed, in every phase.
  pub mapping_cb_total :
      (g : NatGarbage) (ds : Session) (xpath : String) (event : SrEvent) (s : NatState V)
      → All IsNatChange (ds.changes xpath)
      → (r : SrError × NatState V) × (nat_mapping_table_config_cb X V g
            (some ds)
            (some xpath)
            event
            s
          ≡ returns r)
  mapping_cb_total g ds xpath event s typed =
      let (r, e, _) =
        Returns-some (λ _. Unit) (nat_mapping_table_config_cb X V g (some ds) (some xpath) event s)
          (mapping_cb-Returns g ds xpath event s typed) in
      (r, e)
