-- ===== src/Resources/Interfaces/Frees.antt =====
-- That the callbacks for interfaces free what sysrepo allocated for them.
use mathlib.Core.List.{append-nil}
use archived_sweetcomb.Prelude.{
  String, ◌≤◌, Bool, true, false, ◌≡◌, refl, sym, ap, ◌∙◌, some, List, [], ◌∷◌, ◌++◌, if◌then◌else◌,
  is_empty,
}
use archived_sweetcomb.Outcome.{
  Outcome, returns, throws, crash, ◌>>=◌, deref, IfReturns-eq, >>=-eq-returns, >>=-assoc, >>=-cong,
}
use archived_sweetcomb.Sysrepo.{
  SrError, inval_arg, is_ok, verify, SrVal, Change, Session, Xpath, foreach_change,
}
use archived_sweetcomb.Vom.{Vom}
use archived_sweetcomb.Interface.{
  Garbage, Locals, Round, go_on, continue, nothing_todo, finish, start,
}
use archived_sweetcomb.Interface.Config.{
  change_xpath, on_change, on_changes, ietf_interface_create_cb,
}
use archived_sweetcomb.Openconfig.{oc_switch, oc_on_change, oc_on_changes, oc_interfaces_config_cb}
use archived_sweetcomb.Resources.{Resource, iterator, Exit, next, label, leave, freeing_loop, times}
use archived_sweetcomb.Resources.Loop.{
  Visits, all_values, HasFreed, freeing_loop-HasFreed, after_exit, IsTracedBy, loop-final,
}
use archived_sweetcomb.Resources.Once.{times-then_iterator}
use archived_sweetcomb.Resources.Interfaces.{
  exit_of, round_of, freeing_end, create_round, create_freeing, oc_round, oc_freeing,
}

module _ (V : Vom) {E : Type 0} (result : E → SrError × V.Db) where
  abbrev pub final : Exit (Locals V) (SrError × V.Db) E → Outcome (Round V)
  final exit = returns (round_of V result exit)

  -- An exit is followed by what follows the round.
  exit-go_on :
      (m : Outcome (Round V)) (k : Locals V → Outcome (Round V))
      → (m >>= go_on V k) ≡ ((m >>= λ round. returns (exit_of V round)) >>= after_exit final k)
  exit-go_on (returns (continue l)) k = refl
  exit-go_on (returns (nothing_todo rc db)) k = refl
  exit-go_on throws k = refl
  exit-go_on crash k = refl

module _ (X : Xpath) (V : Vom) where
  pub create-IsTracedBy : IsTracedBy (final V (λ e. absurd e)) (on_changes X V) (create_round X V)
  unfolding on_changes create_round
  create-IsTracedBy = record {
    loop-nil = λ l. refl;
    loop-cons = λ l c cs.
        >>=-cong (change_xpath c) _ _ (λ _. exit-go_on V (λ e. absurd e) (on_change X V l c) _)
        ∙ sym (>>=-assoc (change_xpath c) _ _);
  }

  abbrev pub refusal : V.Db → SrError × V.Db
  refusal left = (inval_arg, left)

  switch-go_on :
      (empty : Bool) (l : Locals V) (m : Outcome (Round V)) (k : Locals V → Outcome (Round V))
      → ((if empty then returns (nothing_todo inval_arg l.db) else m) >>= go_on V k) ≡ (
          (if empty then returns (leave l.db) else (m >>= λ round. returns (exit_of V round)))
          >>= after_exit (final V refusal) k)
  switch-go_on true l m k = refl
  switch-go_on false l m k = exit-go_on V refusal m k

  pub oc-IsTracedBy : IsTracedBy (final V refusal) (oc_on_changes X V) (oc_round X V)
  unfolding oc_on_changes oc_on_change oc_round
  oc-IsTracedBy = record {
    loop-nil = λ l. refl;
    loop-cons = λ l c cs.
        >>=-assoc (deref c.new_val) _ _
        ∙ >>=-cong (deref c.new_val) _ _ (λ ne.
          >>=-assoc (deref (X.key_value ne.xpath "interface" "name")) _ _
          ∙ >>=-cong (deref (X.key_value ne.xpath "interface" "name")) _ _
              (λ name. switch-go_on (is_empty name) l (oc_switch X V l ne c) _)
          ∙ sym (>>=-assoc (deref (X.key_value ne.xpath "interface" "name")) _ _))
        ∙ sym (>>=-assoc (deref c.new_val) _ _);
  }

module _ (V : Vom) {E : Type 0} (result : E → SrError × V.Db) where
  -- The iterator is freed, except where the callback returns from within the loop.
  abbrev pub tail_of : Exit (Locals V) (SrError × V.Db) E → List Resource
  tail_of (next l) = iterator ∷ []
  tail_of (label r) = iterator ∷ []
  tail_of (leave e) = []

  no_dangling : (b : Bool) → ((if b then [] else []) ++ iterator ∷ []) ≡ iterator ∷ []
  no_dangling true = refl
  no_dangling false = refl

  end-frees :
      (freed : List Resource) (exit : Exit (Locals V) (SrError × V.Db) E) (r : SrError × V.Db)
      → finish V (round_of V result exit) ≡ returns r
      → freeing_end V result [] (freed, exit) ≡ returns (freed ++ tail_of exit, r)
  unfolding finish freeing_end
  end-frees freed (next l) r e =
      rw e (ap (λ xs. returns (freed ++ xs, r)) (no_dangling (is_ok r.0)))
  end-frees freed (label (rc, db)) r e =
      ap (λ o. o >>= λ r'. returns (freed ++ iterator ∷ [], r')) e
  end-frees freed (leave x) r e =
      ap (λ o. o >>= λ r'. returns (freed, r')) e
      ∙ ap (λ xs. returns (xs, r)) (sym (append-nil freed))

  -- What a traced loop and what follows it free: the values of the changes that the loop visits, and
  -- then what its end asks for.
  abbrev pub Freed :
      (Locals V → Change → Outcome (Exit (Locals V) (SrError × V.Db) E))
      → Locals V
      → List Change
      → SrError × V.Db
      → List Resource
      → Type 0
  Freed round l cs r trace =
      (visited : List Change) × (exit : Exit (Locals V) (SrError × V.Db) E) × Visits round l cs
        visited exit
      × (finish V (round_of V result exit) ≡ returns r)
      × (trace ≡ all_values 0 visited ++ tail_of exit)

  loop-frees :
      (loop : Locals V → List Change → Outcome (Round V))
      (round : Locals V → Change → Outcome (Exit (Locals V) (SrError × V.Db) E)) (l : Locals V)
      (cs : List Change) (r : SrError × V.Db)
      → IsTracedBy (final V result) loop round
      → (loop l cs >>= finish V) ≡ returns r
      → (trace : List Resource) × ((freeing_loop round 0 l cs >>= freeing_end V result [])
          ≡ returns (trace, r))
        × Freed round l cs r trace
  loop-frees loop round l cs r traced e =
      let (t, ran, end) =
        >>=-eq-returns (freeing_loop round 0 l cs) (λ t. finish V (round_of V result t.1))
          (sym (
              ap (λ m. m >>= finish V) (loop-final (final V result) loop round traced 0 l cs)
              ∙ >>=-assoc (freeing_loop round 0 l cs) _ _)
            ∙ e) in
      let (visited, visits, freed) =
        IfReturns-eq (HasFreed round 0 l cs) (freeing_loop round 0 l cs) t
          (freeing_loop-HasFreed round 0 l cs) ran in
      (
        t.0 ++ tail_of t.1,
        ap (λ m. m >>= freeing_end V result []) ran ∙ end-frees t.0 t.1 r end,
        (visited, t.1, visits, end, ap (λ xs. xs ++ tail_of t.1) freed),
      )

module _ (X : Xpath) (V : Vom) where
  -- A verification of ietf_interface_create_cb that returns frees the old and the new value of each
  -- change that its loop goes through, as far as they are not null, the change at which it jumps to
  -- the label included, and then the iterator, each of them exactly once, if sysrepo leaves null
  -- pointers behind where there are no more changes. This holds on every path, errors included.
  pub create_cb-frees :
      (g : Garbage) (session : Session) (xpath : String) (db : V.Db) (r : SrError × V.Db)
      → is_ok (session.get_changes_iter xpath) ≡ true
      → ietf_interface_create_cb X V g session xpath verify db ≡ returns r
      → (trace : List Resource) × (create_freeing X V g [] (session.changes xpath) db
          ≡ returns (trace, r))
        × ((visited : List Change) × (exit : Exit (Locals V) (SrError × V.Db) ⊥) × Visits
              (create_round X V)
              (start V g db)
              (session.changes xpath)
              visited
              exit
            × (trace ≡ all_values 0 visited ++ iterator ∷ []))
        × ((x : Resource) → times x trace ≤ 1)
        × (times iterator trace ≡ 1)
  unfolding ietf_interface_create_cb foreach_change create_freeing
  create_cb-frees g session xpath db r ready e =
      let (trace, ran, (visited, exit, visits, end, h)) =
        loop-frees V (λ e. absurd e) (on_changes X V) (create_round X V) (start V g db)
          (session.changes xpath) r (create-IsTracedBy X V) (rw ready at e) in
      let all = h ∙ ap (λ tail. all_values 0 visited ++ tail) (always_freed exit) in
      let once = times-then_iterator visited trace all in
      (trace, ran, (visited, exit, visits, all), once.0, once.1)
    where
      always_freed :
          (exit : Exit (Locals V) (SrError × V.Db) ⊥)
          → tail_of V (λ e. absurd e) exit ≡ iterator ∷ []
      always_freed (next l) = refl
      always_freed (label r) = refl
      always_freed (leave e) = absurd e

  -- A verification of oc_interfaces_config_cb that returns frees the values of each change that its
  -- loop goes through, as far as they are not null, and then the iterator, if sysrepo leaves null
  -- pointers behind where there are no more changes. The only exception is a return from within the
  -- loop, which frees neither the iterator nor the values of its change.
  pub oc_config_cb-frees :
      (g : Garbage) (session : Session) (xpath : String) (db : V.Db) (r : SrError × V.Db)
      → is_ok (session.get_changes_iter xpath) ≡ true
      → oc_interfaces_config_cb X V g (some session) (some xpath) verify db ≡ returns r
      → (trace : List Resource) × (oc_freeing X V g [] (session.changes xpath) db
          ≡ returns (trace, r))
        × Freed V (refusal X V) (oc_round X V) (start V g db) (session.changes xpath) r trace
  unfolding oc_interfaces_config_cb foreach_change oc_freeing
  oc_config_cb-frees g session xpath db r ready e =
      loop-frees V (refusal X V) (oc_on_changes X V) (oc_round X V) (start V g db)
        (session.changes xpath) r (oc-IsTracedBy X V) (rw ready at e)

  -- A first change outside every interface, whose name is empty, leaves all of them behind.
  oc_config_cb-leaks :
      (g : Garbage) (db : V.Db) (c : Change) (behind : List Change) (v : SrVal) (name : String)
      → c.new_val ≡ some v
      → X.key_value v.xpath "interface" "name" ≡ some name
      → is_empty name ≡ true
      → oc_freeing X V g [] (c ∷ behind) db ≡ returns ([], (inval_arg, db))
  unfolding oc_freeing freeing_loop oc_round start freeing_end
  oc_config_cb-leaks g db c behind v name new key nameless = rw (new, key, nameless) refl
