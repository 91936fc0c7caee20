-- ===== src/Init/Single.antt =====
-- The call of one init function, by which a plugin asks for another one to be initialised first.
use archived_sweetcomb.Prelude.{
  ℕ, true, false, ◌≡◌, refl, ◌∙◌, ap, ◌≢◌, List, [], ◌∷◌, ◌++◌, arith, eqb, All,
}
use archived_sweetcomb.Sysrepo.{SrError, ok}
use archived_sweetcomb.Init.{
  PluginMain, mark_init, call_init_loop, sc_call_init_function, set_called,
}
use archived_sweetcomb.Init.Calls.{IsMonotone}

module _ (S : Type 0) (call : ℕ → PluginMain S → SrError × PluginMain S) (f : ℕ)
    (pm : PluginMain S) where
  call_init_loop_found :
      (before behind : List ℕ)
      → All (λ g. g ≢ f) before
      → pm.init_functions.is_called f ≡ false
      → call_init_loop S call f (before ++ f ∷ behind) pm ≡ call f (mark_init S f pm)
  unfolding call_init_loop
  call_init_loop_found [] behind others due =
      let same : eqb f f ≡ true = ground arith in rw (same, due) refl
  call_init_loop_found (g ∷ before) behind others due =
      let differs : eqb g f ≡ false = ground (arith, others.0) in
      rw differs (call_init_loop_found before behind others.1 due)

  call_init_loop_idle :
      (fs : List ℕ)
      → pm.init_functions.is_called f ≡ true
      → call_init_loop S call f fs pm ≡ (ok, pm)
  unfolding call_init_loop
  call_init_loop_idle [] called = refl
  call_init_loop_idle (g ∷ fs) called = ground (arith, call_init_loop_idle fs called)

  call_init_loop_missing :
      (fs : List ℕ) → All (λ g. g ≢ f) fs → call_init_loop S call f fs pm ≡ (ok, pm)
  unfolding call_init_loop
  call_init_loop_missing [] others = refl
  call_init_loop_missing (g ∷ fs) others =
      ground (arith, others.0, call_init_loop_missing fs others.1)

  -- sc_call_init_function of a registered function that has not been called calls it, with its flag
  -- set by then and still set behind the call, where no function clears a flag; so neither this
  -- macro nor the run through all functions calls it again. If the function has been called, or is
  -- not in the list, nothing is called and the answer is SR_ERR_OK.
  pub call_init_function_lem :
      IsMonotone S call
      → ((before behind : List ℕ)
          → pm.init_functions.functions ≡ before ++ f ∷ behind
          → All (λ g. g ≢ f) before
          → pm.init_functions.is_called f ≡ false
          → (sc_call_init_function S call f pm ≡ call f (mark_init S f pm))
            × ((call f (mark_init S f pm)).1.init_functions.is_called f ≡ true))
        × (pm.init_functions.is_called f ≡ true → sc_call_init_function S call f pm ≡ (ok, pm))
        × (All (λ g. g ≢ f) pm.init_functions.functions
            → sc_call_init_function S call f pm ≡ (ok, pm))
  unfolding sc_call_init_function set_called
  call_init_function_lem M = (
    λ before behind e others due. (
      ap (λ l. call_init_loop S call f l pm) e ∙ call_init_loop_found before behind others due,
      M.called_kept f f (mark_init S f pm) (ground arith),
    ),
    λ called. call_init_loop_idle pm.init_functions.functions called,
    λ others. call_init_loop_missing pm.init_functions.functions others,
  )
