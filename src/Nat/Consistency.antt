-- ===== src/Nat/Consistency.antt =====
-- The table of static mappings against VOM's database.
use text.Mathlib.TextEquality.{eq_iff}
use text.Mathlib.TextPositions.{eq_refl}
use mathlib.Core.Option
use mathlib.Core.Path.{subst}
use archived_sweetcomb.Prelude.{
  ℕ, String, Bool, true, false, ◌≡◌, refl, ◌∙◌, ◌≢◌, Option, none, some, arith, ◌==◌, eqb,
  if◌then◌else◌, Bool-cases, inl, inr,
}
use archived_sweetcomb.Outcome.{Outcome, returns, >>=-eq-returns}
use archived_sweetcomb.Sysrepo.{
  SrError, ok, inval_arg, operation_failed, is_ok, SrEvent, verify, apply, abort, enabled, Session,
  Xpath, foreach_change,
}
use archived_sweetcomb.Vom.{Vom}
use archived_sweetcomb.Prefix.{decimal}
use archived_sweetcomb.Prefix.RoundTrip.{decimal_injective}
use archived_sweetcomb.Nat.Builder.{build_nat_lem}
use archived_sweetcomb.Nat.{
  NatGarbage, NatStaticBuilder, build_nat, NatState, NatLocals, assign, erase, nat_start,
  write_mapping, nat_commit, NatRound, continue, error, on_nat_changes, nat_finish,
  nat_mapping_table_config_cb,
}

-- What the callback relies on in VOM: the database maps keys to static mappings, a successful write
-- sets the mapping of its key, and a removal drops it.
pub record NatLaws (V : Vom) : Type 0 where
  pub view : V.Db → String → Option V.NatStatic
  pub view-write :
      (db : V.Db) (k : String) (ns : V.NatStatic) (n : String)
      → (V.write_nat db k ns).1 ≡ true
      → view (V.write_nat db k ns).0 n ≡ (if n == k then some ns else view db n)
  pub view-remove :
      (db : V.Db) (k n : String) → view (V.remove db k) n ≡ (if n == k then none else view db n)

not_both {ℓ} : {A : Type ℓ} (b : Bool) → b ≡ true → b ≡ false → A
not_both b p q = absurd (cc)

decimal-eqb : (i j : ℕ) → (decimal i == decimal j) ≡ eqb i j
decimal-eqb i j = elim (Bool-cases (eqb i j)) [
  | inl same ↦ let e : i ≡ j = ground arith in rw (e, eq_refl) (ground arith)
  | inr differ ↦ elim (Bool-cases (decimal i == decimal j)) [
    | inl equal ↦ let e : i ≡ j = decimal_injective i j ((eq_iff _ _).0 equal) in ground arith
    | inr other ↦ rw (other, differ) refl
  ]
]

module _ (V : Vom) (L : NatLaws V) where
  -- The mapping in VOM under each index in decimal is that of the pair in the table.
  abbrev pub IsConsistent : NatState V → Type 0
  IsConsistent s =
      (i : ℕ)
      → L.view s.db (decimal i) ≡ Option.map (λ pair. V.nat_static pair.0 pair.1) (s.table i)

  -- From one state to the next under an answer: any but SR_ERR_OPERATION_FAILED, which VOM's refusal
  -- gives, keeps the two in step, and any but SR_ERR_OK leaves the table alone.
  abbrev pub Keeps : NatState V → SrError × NatState V → Type 0
  Keeps s (rc, s') =
      (rc ≢ operation_failed → IsConsistent s → IsConsistent s') × (rc ≢ ok → s'.table ≡ s.table)

  write_mapping-Keeps :
      (s : NatState V) (xindex : ℕ) (b : NatStaticBuilder V) (ns : V.NatStatic)
      → ns ≡ V.nat_static b.m_inside b.m_outside
      → Keeps s (write_mapping V s xindex (b, some ns))
  unfolding write_mapping assign
  write_mapping-Keeps s xindex b ns e = elim (Bool-cases (V.write_nat s.db (decimal xindex) ns).1) [
    | inl done ↦ rw done (
      λ _ c i.
          L.view-write s.db (decimal xindex) ns (decimal i) done
          ∙ rw (decimal-eqb i xindex, c i, e) (ground arith),
      λ n. absurd (n refl),
    )
    | inr refused ↦ rw refused (λ p. absurd (p refl), λ _. refl)
  ]

  create-Keeps :
      (s : NatState V) (xindex : ℕ) (b : NatStaticBuilder V)
      → Keeps s (write_mapping V s xindex (build_nat V b))
  unfolding write_mapping
  create-Keeps s xindex b = elim (Bool-cases (b.m_type == "static")) [
    | inl same ↦
        let built : NatStaticBuilder V = record b {
          m_inside = b.m_internal_src.m_address;
          m_outside = b.m_external_src.m_address;
        } in
        rw ((build_nat_lem V b).0 ((eq_iff _ _).0 same))
          (write_mapping-Keeps s xindex built (V.nat_static built.m_inside built.m_outside) refl)
    | inr other ↦
        rw ((build_nat_lem V b).1 (λ e. not_both (b.m_type == "static") ((eq_iff _ _).1 e) other))
          (λ _ c. c, λ _. refl)
  ]

  remove-Keeps :
      (s : NatState V) (xindex : ℕ)
      → Keeps s (ok, record { db = V.remove s.db (decimal xindex); table = erase V s.table xindex })
  unfolding erase
  remove-Keeps s xindex = (
    λ _ c i.
        L.view-remove s.db (decimal xindex) (decimal i)
        ∙ rw (decimal-eqb i xindex, c i) (ground arith),
    λ n. absurd (n refl),
  )

  nat_commit-Keeps : (s : NatState V) (l : NatLocals V) → Keeps s (nat_commit V l s)
  unfolding nat_commit
  nat_commit-Keeps s l = elim (Bool-cases l.create) [
    | inl create ↦ rw create (create-Keeps s l.xindex l.builder)
    | inr keep ↦ elim (Bool-cases l.remove) [
      | inl remove ↦ rw (keep, remove) (remove-Keeps s l.xindex)
      | inr idle ↦ rw (keep, idle) (λ _ c. c, λ n. refl)
    ]
  ]

  nat_finish-Keeps :
      (X : Xpath) (s : NatState V) (round : NatRound V) (r : SrError × NatState V)
      → nat_finish X V s round ≡ returns r
      → Keeps s r
  unfolding nat_finish
  nat_finish-Keeps X s (continue l) r e =
      let same : nat_commit V l s ≡ r = cc in subst (Keeps s) same (nat_commit-Keeps s l)
  nat_finish-Keeps X s (error rc) r e =
      let same : ◌≡◌ {A = SrError × NatState V} (rc, s) r = cc in
      subst (Keeps s) same (λ _ c. c, λ _. refl)

  idle-Keeps :
      (s : NatState V) (rc : SrError) (r : SrError × NatState V)
      → ◌≡◌ {A = Outcome (SrError × NatState V)} (returns (rc, s)) (returns r)
      → Keeps s r
  idle-Keeps s rc r e =
      let same : ◌≡◌ {A = SrError × NatState V} (rc, s) r = cc in
      subst (Keeps s) same (λ _ c. c, λ _. refl)

  -- Whatever the phase, the changes and the uninitialised variables are: if the callback returns a
  -- code other than SR_ERR_OPERATION_FAILED, the table and VOM's database are in step if they were,
  -- and if it returns a code other than SR_ERR_OK, the table is as it was.
  pub mapping_cb-Keeps :
      (X : Xpath) (g : NatGarbage) (ds : Option Session) (xpath : Option String) (event : SrEvent)
      (s : NatState V) (r : SrError × NatState V)
      → nat_mapping_table_config_cb X V g ds xpath event s ≡ returns r
      → Keeps s r
  unfolding nat_mapping_table_config_cb foreach_change
  mapping_cb-Keeps X g none xpath event s r e = idle-Keeps s inval_arg r e
  mapping_cb-Keeps X g (some ds) none event s r e = idle-Keeps s inval_arg r e
  mapping_cb-Keeps X g (some ds) (some xpath) apply s r e = idle-Keeps s ok r e
  mapping_cb-Keeps X g (some ds) (some xpath) abort s r e = idle-Keeps s ok r e
  mapping_cb-Keeps X g (some ds) (some xpath) enabled s r e = idle-Keeps s ok r e
  mapping_cb-Keeps X g (some ds) (some xpath) verify s r e =
      elim (Bool-cases (is_ok (ds.get_changes_iter xpath))) [
        | inr failed ↦ idle-Keeps s (ds.get_changes_iter xpath) r (rw failed at e)
        | inl ready ↦
            let loop = on_nat_changes X V (nat_start V g) (ds.changes xpath) in
            let (round, _, done) = >>=-eq-returns loop (nat_finish X V s) (rw ready at e) in
            nat_finish-Keeps X s round r done
      ]
