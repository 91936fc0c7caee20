-- ===== src/System/Tame.antt =====
-- What a round of the two callbacks for interfaces, and the commit behind their loops, do to the
-- mappings in VOM's database.
use archived_sweetcomb.Prelude.{
  String, Bool, true, false, ◌≡◌, ◌∙◌, refl, none, some, if-ind, Option, ◌==◌, Option-cases, inl,
  inr,
}
use archived_sweetcomb.Outcome.{Outcome, ◌>>=◌, deref, IfReturns}
use archived_sweetcomb.Sysrepo.{
  SrError, SrVal, string_val, read_string, read_string-cases, read_bool, read_bool-cases, Xpath,
  node_name_eq,
}
use archived_sweetcomb.Vom.{Vom}
use archived_sweetcomb.Prefix.{decimal}
use archived_sweetcomb.Interface.{
  InterfaceBuilder, set_type, InterfacePtr, null, shared, fresh, Locals, Round, go_on, continue,
  nothing_todo, write_intf, commit, finish, int_of_bool, build,
}
use archived_sweetcomb.Interface.Config.{on_modified, on_created, on_deleted}
use archived_sweetcomb.Nat.Consistency.{NatLaws}
use archived_sweetcomb.System.{IsNotNumber}
use archived_sweetcomb.System.Frame.{FrameLaws, SameMappings, remove-SameMappings}

m_name-set_type : (b : InterfaceBuilder) (t : String) → (set_type b t).m_name ≡ b.m_name
unfolding set_type
m_name-set_type b t =
    if-ind (λ (x : InterfaceBuilder). x.m_name ≡ b.m_name) (t == "iana-if-type:ethernetCsmacd")
      (λ _. refl) (λ _. refl)

-- What is done with the text or the truth value of a datum.
module _ {A : Type 0} (P : A → Type 0) (v : SrVal) where
  IfReturns-read_string :
      (f : String → Outcome A)
      → ((t : String) → v.datum ≡ string_val t → IfReturns P (f t))
      → IfReturns P (read_string v >>= f)
  IfReturns-read_string f h = elim (read_string-cases v) [
    | inl (t, e) ↦ rw e (h t e)
    | inr crashes ↦ rw crashes tt
  ]

  IfReturns-read_bool :
      (f : Bool → Outcome A) → ((t : Bool) → IfReturns P (f t)) → IfReturns P (read_bool v >>= f)
  IfReturns-read_bool f h = elim (read_bool-cases v) [
    | inl (b, e) ↦ rw e (h b)
    | inr crashes ↦ rw crashes tt
  ]

module _ (X : Xpath) (V : Vom) (L : NatLaws V) (F : FrameLaws V L) (before : V.Db) where
  -- The database has the mappings it had, and unless an interface is created, the name of the builder
  -- is not a number.
  abbrev pub IsTame : Locals V → Type 0
  IsTame l = SameMappings V L before l.db × (l.create ≡ false → IsNotNumber l.builder.m_name)

  abbrev pub IsTameRound : Round V → Type 0
  IsTameRound (continue l) = IsTame l
  IsTameRound (nothing_todo rc db) = SameMappings V L before db

  abbrev pub T : Outcome (Round V) → Type 0
  T = IfReturns IsTameRound

  abbrev pub IsTameEnd : SrError × V.Db → Type 0
  IsTameEnd r = SameMappings V L before r.1

  pub on_created-IsTame : (l : Locals V) (v : SrVal) → IsTame l → T (on_created X V l v)
  unfolding on_created
  on_created-IsTame l v (same, named) =
      if-ind T (node_name_eq X v.xpath "name")
        (λ _. IfReturns-read_string IsTameRound v _ (λ t _. (same, λ e. absurd (cc))))
        (λ _.
          if-ind T (node_name_eq X v.xpath "type")
            (λ _.
              IfReturns-read_string IsTameRound v _
                (λ t _. (same, λ e. rw (m_name-set_type l.builder t) (named e))))
            (λ _.
              if-ind T (node_name_eq X v.xpath "enabled")
                (λ _. IfReturns-read_bool IsTameRound v _ (λ b. (same, named)))
                (λ _. (same, named))))

  pub on_deleted-IsTame :
      (l : Locals V) (v : SrVal)
      → IsTame l
      → ((name : String)
          → node_name_eq X v.xpath "name" ≡ true
          → v.datum ≡ string_val name
          → IsNotNumber name)
      → T (on_deleted X V l v)
  unfolding on_deleted
  on_deleted-IsTame l v (same, named) h =
      if-ind T (node_name_eq X v.xpath "name")
        (λ hit. IfReturns-read_string IsTameRound v _ (λ t e. (same, λ _. h t hit e)))
        (λ _. (same, named))

  pub on_modified-IsTame : (l : Locals V) (v : SrVal) → IsTame l → T (on_modified X V l v)
  unfolding on_modified
  on_modified-IsTame l v (same, named) =
      if-ind T (node_name_eq X v.xpath "enabled")
        (λ hit. elim (Option-cases (X.key_value v.xpath "interface" "name")) [
          | inl outside ↦ rw outside tt
          | inr (n, key) ↦ elim (Option-cases (V.find l.db n)) [
            | inl absent ↦ rw (key, absent) same
            | inr (r, found) ↦
                rw (key, found)
                  (IfReturns-read_bool IsTameRound v _ (λ b. (
                    λ i. F.view-set l.db r (V.admin_from_int (int_of_bool b)) (decimal i) ∙ same i,
                    named,
                  )))
          ]
        ])
        (λ _. (same, named))

  write_intf-IsTame :
      (db : V.Db) (p : InterfacePtr V)
      → SameMappings V L before db
      → IfReturns IsTameEnd (write_intf V db p)
  unfolding write_intf
  write_intf-IsTame db null same = tt
  write_intf-IsTame db (shared r) same =
      λ i. F.view-write_interface db (V.key (V.pointee db r)) (V.pointee db r) (decimal i) ∙ same i
  write_intf-IsTame db (fresh o) same =
      λ i. F.view-write_interface db (V.key o) o (decimal i) ∙ same i

  commit-IsTame : (l : Locals V) → IsTame l → IfReturns IsTameEnd (commit V l)
  unfolding commit
  commit-IsTame l (same, named) =
      if-ind (IfReturns IsTameEnd) l.create
        (λ _. elim (Option-cases (build V l.builder)) [
          | inl nothing ↦ rw nothing same
          | inr (o, built) ↦ rw built (write_intf-IsTame l.db (fresh o) same)
        ])
        (λ keep.
          if-ind (IfReturns IsTameEnd) l.modify (λ _. write_intf-IsTame l.db l.intf same)
            (λ _.
              if-ind (IfReturns IsTameEnd) l.remove
                (λ _. remove-SameMappings V L before l.db l.builder.m_name (named keep) same)
                (λ _. same)))

  pub finish-IsTame : (round : Round V) → IsTameRound round → IfReturns IsTameEnd (finish V round)
  unfolding finish
  finish-IsTame (continue l) h = commit-IsTame l h
  finish-IsTame (nothing_todo rc db) h = h

  pub go_on-IsTame :
      (k : Locals V → Outcome (Round V)) (round : Round V)
      → IsTameRound round
      → ((l : Locals V) → IsTame l → T (k l))
      → T (go_on V k round)
  go_on-IsTame k (continue l) h rest = rest l h
  go_on-IsTame k (nothing_todo rc db) h rest = h

  pub deref-IsTame :
      (o : Option SrVal) (f : SrVal → Outcome (Round V))
      → ((v : SrVal) → o ≡ some v → T (f v))
      → T (deref o >>= f)
  deref-IsTame none f h = tt
  deref-IsTame (some v) f h = h v refl
