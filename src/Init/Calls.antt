-- ===== src/Init/Calls.antt =====
-- In which order, how often and how far the init functions are called.
use mathlib.Core.Path.{subst}
use archived_sweetcomb.Prelude.{
  ℕ, Bool, true, false, ◌≡◌, refl, sym, ◌∙◌, ap, ◌≢◌, List, [], ◌∷◌, arith, if◌then◌else◌, All,
  Bool-cases, inl, inr,
}
use archived_sweetcomb.Sysrepo.{SrError, ok, is_ok, is_ok-ok, not_ok}
use archived_sweetcomb.Init.{
  Registry, set_called, PluginMain, mark_init, init_loop, sc_call_all_init_function,
}

abbrev pub Distinct : List ℕ → Type 0
Distinct [] = Unit
Distinct (f ∷ fs) = All (λ g. g ≢ f) fs × Distinct fs

-- The functions whose flags are not set, in the order of the list.
abbrev pub pending : (ℕ → Bool) → List ℕ → List ℕ
pending flags [] = []
pending flags (f ∷ fs) = if flags f then pending flags fs else f ∷ pending flags fs

pub pending-set_called :
    (flags : ℕ → Bool) (f : ℕ) (fs : List ℕ)
    → All (λ g. g ≢ f) fs
    → pending (set_called flags f true) fs ≡ pending flags fs
unfolding set_called
pending-set_called flags f [] h = refl
pending-set_called flags f (g ∷ fs) h = ground (arith, h.0, pending-set_called flags f fs h.1)

module _ (S : Type 0) (call : ℕ → PluginMain S → SrError × PluginMain S) where
  -- The functions are called one after the other, each with its flag set, up to the first that
  -- fails.
  abbrev pub run_init : List ℕ → PluginMain S → SrError × PluginMain S
  run_init [] pm = (ok, pm)
  run_init (f ∷ fs) pm =
      let (r, pm') = call f (mark_init S f pm) in
      let rest = run_init fs pm' in if is_ok r then rest else (r, pm')

  -- No init function touches the list of init functions.
  pub record IsLocal : Type 0 where
    pub local : (f : ℕ) (pm : PluginMain S) → (call f pm).1.init_functions ≡ pm.init_functions

  -- An init function may call others, but takes nothing off the list and clears no flag.
  pub record IsMonotone : Type 0 where
    pub functions_kept :
        (f : ℕ) (pm : PluginMain S)
        → (call f pm).1.init_functions.functions ≡ pm.init_functions.functions
    pub called_kept :
        (f g : ℕ) (pm : PluginMain S)
        → pm.init_functions.is_called g ≡ true
        → (call f pm).1.init_functions.is_called g ≡ true

  abbrev pub IsCalled : PluginMain S → ℕ → Type 0
  IsCalled pm f = pm.init_functions.is_called f ≡ true

  -- The three ways of a round.
  module _ (f : ℕ) (fs : List ℕ) (ret : SrError) (pm : PluginMain S) where
    pub init_loop_skip :
        pm.init_functions.is_called f ≡ true
        → init_loop S call (f ∷ fs) ret pm ≡ init_loop S call fs ret pm
    unfolding init_loop
    init_loop_skip done = rw done refl

    pub init_loop_step :
        pm.init_functions.is_called f ≡ false
        → is_ok (call f (mark_init S f pm)).0 ≡ true
        → init_loop S call (f ∷ fs) ret pm
          ≡ init_loop S call fs (call f (mark_init S f pm)).0 (call f (mark_init S f pm)).1
    unfolding init_loop
    init_loop_step due worked = rw (due, worked) refl

    pub init_loop_stop :
        pm.init_functions.is_called f ≡ false
        → is_ok (call f (mark_init S f pm)).0 ≡ false
        → init_loop S call (f ∷ fs) ret pm ≡ call f (mark_init S f pm)
    unfolding init_loop
    init_loop_stop due failed = rw (due, failed) refl

  init_loop-run_init :
      IsLocal
      → (fs : List ℕ) (pm : PluginMain S) → Distinct fs
      → init_loop S call fs ok pm ≡ run_init (pending pm.init_functions.is_called fs) pm
  unfolding init_loop
  init_loop-run_init L [] pm d = refl
  init_loop-run_init L (f ∷ fs) pm d = elim (Bool-cases (pm.init_functions.is_called f)) [
    | inl done ↦ rw done (init_loop-run_init L fs pm d.1)
    | inr due ↦ elim (Bool-cases (is_ok (call f (mark_init S f pm)).0)) [
      | inr failed ↦ rw (due, failed) refl
      | inl worked ↦
          let pm' = (call f (mark_init S f pm)).1 in
          let same : pending pm'.init_functions.is_called fs
              ≡ pending pm.init_functions.is_called fs =
            ap (λ (r : Registry). pending r.is_called fs) (L.local f (mark_init S f pm))
            ∙ pending-set_called pm.init_functions.is_called f fs d.0 in
          rw (due, worked, is_ok-ok _ worked)
            (init_loop-run_init L fs pm' d.1 ∙ ap (λ l. run_init l pm') same)
    ]
  ]

  -- sc_call_all_init_function calls the functions whose flags are not set, each once, with its flag
  -- set by then, in the order of the list, and stops at the first that fails, with its code. The
  -- list holds each function once, and the functions do not touch the list.
  pub call_all_init-run_init :
      IsLocal
      → (pm : PluginMain S) → Distinct pm.init_functions.functions
      → sc_call_all_init_function S call pm
        ≡ run_init (pending pm.init_functions.is_called pm.init_functions.functions) pm
  unfolding sc_call_all_init_function
  call_all_init-run_init L pm d = init_loop-run_init L pm.init_functions.functions pm d

  module _ (M : IsMonotone) where
    init_loop-called :
        (fs : List ℕ) (ret : SrError) (pm : PluginMain S) (g : ℕ)
        → pm.init_functions.is_called g ≡ true
        → (init_loop S call fs ret pm).1.init_functions.is_called g ≡ true
    unfolding init_loop set_called
    init_loop-called [] ret pm g h = h
    init_loop-called (f ∷ fs) ret pm g h = ground (
      arith,
      M.called_kept f g (mark_init S f pm),
      init_loop-called fs ret pm g h,
      init_loop-called fs (call f (mark_init S f pm)).0 (call f (mark_init S f pm)).1 g,
    )

    pub init_loop-functions :
        (fs : List ℕ) (ret : SrError) (pm : PluginMain S)
        → (init_loop S call fs ret pm).1.init_functions.functions ≡ pm.init_functions.functions
    unfolding init_loop
    init_loop-functions [] ret pm = refl
    init_loop-functions (f ∷ fs) ret pm = ground (
      arith,
      M.functions_kept f (mark_init S f pm),
      init_loop-functions fs ret pm,
      init_loop-functions fs (call f (mark_init S f pm)).0 (call f (mark_init S f pm)).1,
    )

    pub init_loop-All :
        (fs : List ℕ) (ret : SrError) (pm : PluginMain S)
        → (init_loop S call fs ret pm).0 ≡ ok
        → All (IsCalled (init_loop S call fs ret pm).1) fs
    unfolding init_loop set_called
    init_loop-All [] ret pm e = tt
    init_loop-All (f ∷ fs) ret pm e =
        let (r, pm') = call f (mark_init S f pm) in
        elim (Bool-cases (pm.init_functions.is_called f)) [
          | inl done ↦
              let step = init_loop_skip f fs ret pm done in
              subst (λ t. All (IsCalled t.1) (f ∷ fs)) (sym step)
                (
                  init_loop-called fs ret pm f done,
                  init_loop-All fs ret pm (subst (λ t. t.0 ≡ ok) step e),
                )
          | inr due ↦ elim (Bool-cases (is_ok (call f (mark_init S f pm)).0)) [
            | inl worked ↦
                let step = init_loop_step f fs ret pm due worked in
                subst (λ t. All (IsCalled t.1) (f ∷ fs)) (sym step)
                  (
                    init_loop-called fs r pm' f
                        (M.called_kept f f (mark_init S f pm) (ground arith)),
                    init_loop-All fs r pm' (subst (λ t. t.0 ≡ ok) step e),
                  )
            | inr failed ↦
                absurd (
                  not_ok r failed (subst (λ t. t.0 ≡ ok) (init_loop_stop f fs ret pm due failed) e))
          ]
        ]

    init_loop_idle :
        (fs : List ℕ) (ret : SrError) (pm : PluginMain S)
        → All (λ f. pm.init_functions.is_called f ≡ true) fs
        → init_loop S call fs ret pm ≡ (ret, pm)
    unfolding init_loop
    init_loop_idle [] ret pm h = refl
    init_loop_idle (f ∷ fs) ret pm h = rw (h.0) (init_loop_idle fs ret pm h.1)

    -- Where no init function takes anything off the list or clears a flag, every function of the
    -- list has its flag set after a run that answers SR_ERR_OK, and a second run calls nothing: it
    -- answers SR_ERR_OK and changes nothing.
    pub call_all_init_twice :
        (pm : PluginMain S)
        → (sc_call_all_init_function S call pm).0 ≡ ok
        → let pm' = (sc_call_all_init_function S call pm).1 in
          All (λ f. pm'.init_functions.is_called f ≡ true) pm'.init_functions.functions
          × (sc_call_all_init_function S call pm' ≡ (ok, pm'))
    unfolding sc_call_all_init_function
    call_all_init_twice pm e =
        let fs = pm.init_functions.functions in
        let pm' = (init_loop S call fs ok pm).1 in
        let same : pm'.init_functions.functions ≡ fs = init_loop-functions fs ok pm in
        let called = init_loop-All fs ok pm e in rw same (called, init_loop_idle fs ok pm' called)
