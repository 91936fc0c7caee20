-- ===== src/Resources/Mappings/Frees.antt =====
-- That nat_mapping_table_config_cb frees the iterator once too often where it fails.
use mathlib.Core.Path.{subst}
use archived_sweetcomb.Prelude.{
  ℕ, String, ◌≡◌, refl, sym, ap, ◌∙◌, none, some, List, [], ◌∷◌, ◌++◌, true, arith, if-ind, Option,
}
use archived_sweetcomb.Outcome.{
  Outcome, returns, throws, crash, ◌>>=◌, deref, IfReturns, IfReturns-eq, IfReturns-each,
  IfReturns-bind, >>=-eq-returns, >>=-assoc,
}
use archived_sweetcomb.Sysrepo.{
  SrError, inval_arg, unsupported, operation_failed, is_ok, SrOper, created, modified, deleted,
  moved, verify, SrVal, read_string, read_uint32, Change, Session, Xpath, node_name_eq,
  foreach_change,
}
use archived_sweetcomb.Vom.{Vom}
use archived_sweetcomb.Prefix.{Prefix, make_prefix}
use archived_sweetcomb.Nat.{
  NatGarbage, NatLocals, NatState, NatStaticBuilder, NatRound, continue, error, next_round,
  nat_start, write_mapping, build_nat, nat_commit, with_prefix, on_nat_created, on_nat_deleted,
  on_nat_change, on_nat_changes, nat_finish, nat_mapping_table_config_cb,
}
use archived_sweetcomb.Resources.{Resource, iterator, Exit, next, label, leave, freeing_loop, times}
use archived_sweetcomb.Resources.Loop.{
  Visits, all_values, HasFreed, freeing_loop-HasFreed, LabelHas, freeing_loop-LabelHas, after_exit,
  IsTracedBy, loop-final,
}
use archived_sweetcomb.Resources.Once.{times-append, times-all_values_iterator}
use archived_sweetcomb.Resources.Mappings.{
  nat_exit, nat_round_of, error_label, nat_freeing_end, nat_round, nat_freeing,
}

module _ (X : Xpath) (V : Vom) where
  abbrev pub final : Exit (NatLocals V) SrError ⊥ → Outcome (NatRound V)
  final exit = returns (nat_round_of V exit)

  exit-next_round :
      (m : Outcome (NatRound V)) (k : NatLocals V → Outcome (NatRound V))
      → (m >>= next_round V k)
        ≡ ((m >>= λ round. returns (nat_exit V round)) >>= after_exit final k)
  exit-next_round (returns (continue l)) k = refl
  exit-next_round (returns (error rc)) k = refl
  exit-next_round throws k = refl
  exit-next_round crash k = refl

  pub nat-IsTracedBy : IsTracedBy final (on_nat_changes X V) (nat_round X V)
  unfolding on_nat_changes nat_round
  nat-IsTracedBy = record {
    loop-nil = λ l. refl;
    loop-cons = λ l c cs. exit-next_round (on_nat_change X V l c) _;
  }

  -- Within the loop, only an unsupported operation jumps to the label.
  abbrev IsUnsupported : SrError → Type 0
  IsUnsupported rc = rc ≡ unsupported

  abbrev U : NatRound V → Type 0
  U (continue l) = Unit
  U (error rc) = rc ≡ unsupported

  with_prefix-U :
      (v : SrVal) (update : Prefix V → NatLocals V) → IfReturns U (with_prefix X V v update)
  with_prefix-U v update =
      IfReturns-each U (read_string v) _
        (λ text _. IfReturns-each U (make_prefix V text) _ (λ p _. tt))

  on_nat_created-U : (l : NatLocals V) (v : SrVal) → IfReturns U (on_nat_created X V l v)
  unfolding on_nat_created
  on_nat_created-U l v =
      if-ind (IfReturns U) (node_name_eq X v.xpath "index")
        (λ _. IfReturns-each U (read_uint32 v) _ (λ _ _. tt))
        (λ _.
          if-ind (IfReturns U) (node_name_eq X v.xpath "type")
            (λ _. IfReturns-each U (read_string v) _ (λ _ _. tt))
            (λ _.
              if-ind (IfReturns U) (node_name_eq X v.xpath "internal-src-address")
                (λ _. with_prefix-U v _)
                (λ _.
                  if-ind (IfReturns U) (node_name_eq X v.xpath "external-src-address")
                    (λ _. with_prefix-U v _)
                    (λ _.
                      if-ind (IfReturns U) (node_name_eq X v.xpath "internal-dst-address")
                        (λ _. with_prefix-U v _)
                        (λ _.
                          if-ind (IfReturns U) (node_name_eq X v.xpath "external-dst-address")
                            (λ _. with_prefix-U v _) (λ _. tt))))))

  on_nat_deleted-U : (l : NatLocals V) (v : SrVal) → IfReturns U (on_nat_deleted X V l v)
  unfolding on_nat_deleted
  on_nat_deleted-U l v =
      if-ind (IfReturns U) (node_name_eq X v.xpath "index")
        (λ _. IfReturns-each U (read_uint32 v) _ (λ _ _. tt)) (λ _. tt)

  on_nat_change-U :
      (l : NatLocals V) (op : SrOper) (old new : Option SrVal)
      → IfReturns U (on_nat_change X V l (record { op = op; old_val = old; new_val = new }))
  unfolding on_nat_change
  on_nat_change-U l created old new = IfReturns-each U (deref new) _ (λ v _. on_nat_created-U l v)
  on_nat_change-U l deleted old new = IfReturns-each U (deref old) _ (λ v _. on_nat_deleted-U l v)
  on_nat_change-U l modified old new = refl
  on_nat_change-U l moved old new = refl

  nat_exit-LabelHas : (round : NatRound V) → U round → LabelHas IsUnsupported (nat_exit V round)
  nat_exit-LabelHas (continue l) h = tt
  nat_exit-LabelHas (error rc) h = h

  nat_round-LabelHas :
      (l : NatLocals V) (c : Change) → IfReturns (LabelHas IsUnsupported) (nat_round X V l c)
  unfolding nat_round
  nat_round-LabelHas l c =
      IfReturns-bind U (LabelHas IsUnsupported) (on_nat_change X V l c) _
        (on_nat_change-U l c.op c.old_val c.new_val) nat_exit-LabelHas

-- What is freed a second time: the iterator, where the mapping is not built or not written.
abbrev pub second_free : SrError → List Resource
second_free inval_arg = iterator ∷ []
second_free operation_failed = iterator ∷ []
second_free _ = []

module _ (V : Vom) where
  -- The label behind the loop is reached with one of two codes.
  abbrev IsCommitted : SrError → Type 0
  IsCommitted rc = error_label V [] rc ≡ second_free rc

  write_mapping-IsCommitted :
      (s : NatState V) (xindex : ℕ) (built : NatStaticBuilder V × Option V.NatStatic)
      → IsCommitted (write_mapping V s xindex built).0
  unfolding write_mapping
  write_mapping-IsCommitted s xindex (b, none) = refl
  write_mapping-IsCommitted s xindex (b, some ns) =
      if-ind (λ (r : SrError × NatState V). IsCommitted r.0) (V.write_nat s.db _ ns).1 (λ _. refl)
        (λ _. refl)

  nat_commit-IsCommitted : (s : NatState V) (l : NatLocals V) → IsCommitted (nat_commit V l s).0
  unfolding nat_commit
  nat_commit-IsCommitted s l =
      if-ind (λ (r : SrError × NatState V). IsCommitted r.0) l.create
        (λ _. write_mapping-IsCommitted s l.xindex (build_nat V l.builder))
        (λ _.
          if-ind (λ (r : SrError × NatState V). IsCommitted r.0) l.remove (λ _. refl) (λ _. refl))

-- How often the iterator is freed under an answer.
abbrev pub iterator_frees : SrError → ℕ
iterator_frees inval_arg = 2
iterator_frees operation_failed = 2
iterator_frees _ = 1

times-second_free : (rc : SrError) → times iterator (iterator ∷ second_free rc) ≡ iterator_frees rc
times-second_free inval_arg = refl
times-second_free operation_failed = refl
times-second_free _ = refl

module _ (X : Xpath) (V : Vom) where
  end-frees :
      (s : NatState V) (freed : List Resource) (exit : Exit (NatLocals V) SrError ⊥)
      (r : SrError × NatState V)
      → LabelHas (IsUnsupported X V) exit
      → nat_finish X V s (nat_round_of V exit) ≡ returns r
      → nat_freeing_end V [] s (freed, exit) ≡ (freed ++ iterator ∷ second_free r.0, r)
  unfolding nat_finish nat_freeing_end
  end-frees s freed (next l) r _ e =
      let p = IfReturns-eq (λ x. nat_commit V l s ≡ x) (returns (nat_commit V l s)) r refl e in
      ap (λ (x : SrError × NatState V). (freed ++ iterator ∷ error_label V [] x.0, x)) p
      ∙ ap (λ xs. (freed ++ iterator ∷ xs, r))
          (subst (λ (x : SrError × NatState V). IsCommitted V x.0) p (nat_commit-IsCommitted V s l))
  end-frees s freed (label rc) r only e =
      let q = IfReturns-eq (λ x. (rc, s) ≡ x) (returns (rc, s)) r refl e in
      let once : second_free r.0 ≡ [] =
        subst (λ (x : SrError × NatState V). second_free x.0 ≡ []) q (rw only refl) in
      ap (λ x. (freed ++ iterator ∷ [], x)) q ∙ ap (λ xs. (freed ++ iterator ∷ xs, r)) (sym once)
  end-frees s freed (leave x) r _ e = absurd x

  -- A verification of nat_mapping_table_config_cb that returns frees the values of each change that
  -- its loop goes through, as far as they are not null, the change at which it jumps to the label
  -- included, and then the iterator, if sysrepo leaves null pointers behind where there
  -- are no more changes: once, and a second time where the mapping cannot be built or VOM refuses
  -- it, which are the answers SR_ERR_INVAL_ARG and SR_ERR_OPERATION_FAILED.
  pub mapping_cb-frees :
      (g : NatGarbage) (ds : Session) (xpath : String) (s : NatState V) (r : SrError × NatState V)
      → is_ok (ds.get_changes_iter xpath) ≡ true
      → nat_mapping_table_config_cb X V g (some ds) (some xpath) verify s ≡ returns r
      → (trace : List Resource) × (nat_freeing X V g [] (ds.changes xpath) s ≡ returns (trace, r))
        × ((visited : List Change) × (exit : Exit (NatLocals V) SrError ⊥) × Visits
              (nat_round X V)
              (nat_start V g)
              (ds.changes xpath)
              visited
              exit
            × (trace ≡ all_values 0 visited ++ iterator ∷ second_free r.0))
        × (times iterator trace ≡ iterator_frees r.0)
  unfolding nat_mapping_table_config_cb foreach_change nat_freeing
  mapping_cb-frees g ds xpath s r ready e =
      let cs = ds.changes xpath in
      let start = nat_start V g in
      let loop = freeing_loop (nat_round X V) 0 start cs in
      let (t, ran, end) =
        >>=-eq-returns loop (λ t. nat_finish X V s (nat_round_of V t.1))
          (sym (
              ap (λ m. m >>= nat_finish X V s)
                (loop-final (final X V) (on_nat_changes X V) (nat_round X V) (nat-IsTracedBy X V) 0
                  start cs)
              ∙ >>=-assoc loop _ _)
            ∙ rw ready at e) in
      let (visited, visits, freed) =
        IfReturns-eq (HasFreed (nat_round X V) 0 start cs) loop t
          (freeing_loop-HasFreed (nat_round X V) 0 start cs) ran in
      let only =
        IfReturns-eq
          (λ (u : List Resource × Exit (NatLocals V) SrError ⊥). LabelHas (IsUnsupported X V) u.1)
          loop t
          (freeing_loop-LabelHas (IsUnsupported X V) (nat_round X V) (nat_round-LabelHas X V) 0
            start cs)
          ran in
      let all = ap (λ xs. xs ++ iterator ∷ second_free r.0) freed in
      (
        t.0 ++ iterator ∷ second_free r.0,
        ap (λ m. m >>= λ u. returns (nat_freeing_end V [] s u)) ran
            ∙ ap returns (end-frees s t.0 t.1 r only end),
        (visited, t.1, visits, all),
        rw all (
            omega (
              arith,
              times-append iterator (all_values 0 visited) (iterator ∷ second_free r.0),
              times-all_values_iterator visited,
              times-second_free r.0,
            )),
      )
