-- ===== src/Init/Failures.antt =====
-- What a run of sc_call_all_init_function does that breaks off, and what the next run does then.
use mathlib.Core.Path.{subst}
use mathlib.Core.List.{append_assoc}
use archived_sweetcomb.Prelude.{
  ℕ, false, ◌≡◌, refl, sym, ◌∙◌, ap, List, [], ◌∷◌, ◌++◌, arith, All, Bool-cases, inl, inr,
}
use archived_sweetcomb.Sysrepo.{SrError, ok, is_ok, is_ok-ok}
use archived_sweetcomb.Init.{
  set_called, PluginMain, mark_init, init_loop, sc_call_all_init_function,
}
use archived_sweetcomb.Init.Calls.{
  IsMonotone, IsCalled, init_loop_skip, init_loop_step, init_loop_stop, init_loop-functions,
  init_loop-All,
}

module _ (S : Type 0) (call : ℕ → PluginMain S → SrError × PluginMain S) where
  -- A run over fs breaks off at `f`: the functions of `before`, called or passed over, end with
  -- SR_ERR_OK, `f` is due then, and its answer and its state are those of the run.
  pub record Stops (fs : List ℕ) (pm : PluginMain S) : Type 0 where
    pub before : List ℕ
    pub f : ℕ
    pub behind : List ℕ
    pub split : fs ≡ before ++ f ∷ behind
    pub worked : (init_loop S call before ok pm).0 ≡ ok
    pub due : (init_loop S call before ok pm).1.init_functions.is_called f ≡ false
    pub ended : init_loop S call fs ok pm ≡ call f (mark_init S f (init_loop S call before ok pm).1)

  Stops-step :
      (f : ℕ) (fs : List ℕ) (pm pm' : PluginMain S)
      → ((gs : List ℕ) → init_loop S call (f ∷ gs) ok pm ≡ init_loop S call gs ok pm')
      → Stops fs pm'
      → Stops (f ∷ fs) pm
  Stops-step f fs pm pm' step h = record {
    before = f ∷ h.before;
    f = h.f;
    behind = h.behind;
    split = ap (λ gs. f ∷ gs) h.split;
    worked = rw (step h.before) h.worked;
    due = rw (step h.before) h.due;
    ended = rw (step fs, step h.before) h.ended;
  }

  init_loop-Stops :
      (fs : List ℕ) (pm : PluginMain S) → is_ok (init_loop S call fs ok pm).0 ≡ false → Stops fs pm
  unfolding init_loop
  init_loop-Stops [] pm e = cc
  init_loop-Stops (f ∷ fs) pm e = elim (Bool-cases (pm.init_functions.is_called f)) [
    | inl done ↦
        let step : (gs : List ℕ) → init_loop S call (f ∷ gs) ok pm ≡ init_loop S call gs ok pm =
          λ gs. init_loop_skip S call f gs ok pm done in
        Stops-step f fs pm pm step
          (init_loop-Stops fs pm (subst (λ t. is_ok t.0 ≡ false) (step fs) e))
    | inr due ↦
        let (r, pm') = call f (mark_init S f pm) in
        elim (Bool-cases (is_ok r)) [
          | inl worked ↦
              let step : (gs : List ℕ)
                  → init_loop S call (f ∷ gs) ok pm ≡ init_loop S call gs ok pm' =
                λ gs.
                  init_loop_step S call f gs ok pm due worked
                  ∙ ap (λ c. init_loop S call gs c pm') (is_ok-ok r worked) in
              Stops-step f fs pm pm' step
                (init_loop-Stops fs pm' (subst (λ t. is_ok t.0 ≡ false) (step fs) e))
          | inr failed ↦ record {
            before = [];
            f = f;
            behind = fs;
            split = refl;
            worked = refl;
            due = due;
            ended = init_loop_stop S call f fs ok pm due failed;
          }
        ]
  ]

  init_loop_over :
      (fs gs : List ℕ) (pm : PluginMain S)
      → All (IsCalled S call pm) fs
      → init_loop S call (fs ++ gs) ok pm ≡ init_loop S call gs ok pm
  init_loop_over [] gs pm h = refl
  init_loop_over (f ∷ fs) gs pm h =
      init_loop_skip S call f (fs ++ gs) ok pm h.0 ∙ init_loop_over fs gs pm h.1

  module _ (M : IsMonotone S call) where
    call-IsCalled :
        (f : ℕ) (pm : PluginMain S) (fs : List ℕ)
        → All (IsCalled S call pm) fs
        → All (IsCalled S call (call f (mark_init S f pm)).1) (fs ++ f ∷ [])
    unfolding set_called
    call-IsCalled f pm [] h = (M.called_kept f f (mark_init S f pm) (ground arith), tt)
    call-IsCalled f pm (g ∷ fs) h =
        (M.called_kept f g (mark_init S f pm) (ground (arith, h.0)), call-IsCalled f pm fs h.1)

    init_loop_again :
        (fs : List ℕ) (pm : PluginMain S) (h : Stops fs pm)
        → let pm' = (init_loop S call fs ok pm).1 in
          init_loop S call fs ok pm' ≡ init_loop S call h.behind ok pm'
    init_loop_again fs pm h =
        let pm' = (init_loop S call fs ok pm).1 in
        let pm1 = (init_loop S call h.before ok pm).1 in
        let done : All (IsCalled S call pm') (h.before ++ h.f ∷ []) =
          subst (λ t. All (IsCalled S call t.1) (h.before ++ h.f ∷ [])) (sym h.ended)
            (call-IsCalled h.f pm1 h.before (init_loop-All S call M h.before ok pm h.worked)) in
        ap (λ gs. init_loop S call gs ok pm')
          (h.split ∙ sym (append_assoc h.before (h.f ∷ []) h.behind))
        ∙ init_loop_over (h.before ++ h.f ∷ []) h.behind pm' done

    -- Where no init function takes anything off the list or clears a flag, a run that answers with
    -- an error breaks off at a function of the list that is due when the functions before it have
    -- ended with SR_ERR_OK. That function is not called again: the next run goes on behind it in
    -- the list, as if it had worked.
    pub call_all_init_after_failure :
        (pm : PluginMain S)
        → is_ok (sc_call_all_init_function S call pm).0 ≡ false
        → (h : Stops pm.init_functions.functions pm) × (let pm' =
              (sc_call_all_init_function S call pm).1 in
            sc_call_all_init_function S call pm' ≡ init_loop S call h.behind ok pm')
    unfolding sc_call_all_init_function
    call_all_init_after_failure pm e =
        let fs = pm.init_functions.functions in
        let h = init_loop-Stops fs pm e in
        (h, rw (init_loop-functions S call M fs ok pm) (init_loop_again fs pm h))
