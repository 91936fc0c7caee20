-- ===== src/Init/Exits.antt =====
-- In which order and how often the exit functions are called.
use archived_sweetcomb.Prelude.{ℕ, ◌≡◌, refl, ◌∙◌, ap, List, [], ◌∷◌, Bool-cases, inl, inr}
use archived_sweetcomb.Init.{Registry, PluginMain, mark_exit, exit_loop, sc_call_all_exit_function}
use archived_sweetcomb.Init.Calls.{Distinct, pending, pending-set_called}

module _ (S : Type 0) (call : ℕ → PluginMain S → PluginMain S) where
  -- The functions are called one after the other, each with its flag set.
  abbrev pub run_exit : List ℕ → PluginMain S → PluginMain S
  run_exit [] pm = pm
  run_exit (f ∷ fs) pm = run_exit fs (call f (mark_exit S f pm))

  -- No exit function touches the list of exit functions.
  pub record IsLocalExit : Type 0 where
    pub local : (f : ℕ) (pm : PluginMain S) → (call f pm).exit_functions ≡ pm.exit_functions

  exit_loop-run_exit :
      IsLocalExit
      → (fs : List ℕ) (pm : PluginMain S) → Distinct fs
      → exit_loop S call fs pm ≡ run_exit (pending pm.exit_functions.is_called fs) pm
  unfolding exit_loop
  exit_loop-run_exit L [] pm d = refl
  exit_loop-run_exit L (f ∷ fs) pm d = elim (Bool-cases (pm.exit_functions.is_called f)) [
    | inl called ↦ rw called (exit_loop-run_exit L fs pm d.1)
    | inr due ↦
        let after = call f (mark_exit S f pm) in
        let flags : pending after.exit_functions.is_called fs
            ≡ pending pm.exit_functions.is_called fs =
          ap (λ (r : Registry). pending r.is_called fs) (L.local f (mark_exit S f pm))
          ∙ pending-set_called pm.exit_functions.is_called f fs d.0 in
        rw due (exit_loop-run_exit L fs after d.1 ∙ ap (λ l. run_exit l after) flags)
  ]

  -- sc_call_all_exit_function calls the exit functions whose flags are not set, every one of them
  -- and each once, with its flag set by then, in the order of the list. The list holds each
  -- function once, and the functions do not touch the list.
  pub call_all_exit-run_exit :
      IsLocalExit
      → (pm : PluginMain S) → Distinct pm.exit_functions.functions
      → sc_call_all_exit_function S call pm
        ≡ run_exit (pending pm.exit_functions.is_called pm.exit_functions.functions) pm
  unfolding sc_call_all_exit_function
  call_all_exit-run_exit L pm d = exit_loop-run_exit L pm.exit_functions.functions pm d
