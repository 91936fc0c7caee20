-- ===== src/Tests/Lists.antt =====
-- The theorems on the lists of init and exit functions and on what they subscribe, at concrete
-- lists.
use archived_sweetcomb.Prelude.{
  if◌then◌else◌, ◌+◌, ℕ, true, false, ◌≡◌, refl, List, [], ◌∷◌, arith, All, eqb,
}
use archived_sweetcomb.Sysrepo.{SrError, ok, nomem, is_ok}
use archived_sweetcomb.Init.{PluginMain, init_loop, sc_call_all_init_function, set_called}
use archived_sweetcomb.Tests.{no_exits}
use archived_sweetcomb.Subscriptions.{Subscription, call_plugin}
use archived_sweetcomb.Subscriptions.Startup.{
  all_subscriptions, Subscribes, call_all_init-Subscribes,
}
use archived_sweetcomb.Init.Calls.{
  IsLocal, IsMonotone, run_init, call_all_init-run_init, call_all_init_twice,
}
use archived_sweetcomb.Init.Failures.{Stops, call_all_init_after_failure}

-- The functions write down their numbers; the function 2 fails.
abbrev logging : ℕ → PluginMain (List ℕ) → SrError × PluginMain (List ℕ)
logging f pm = (elim (eqb f 2) [ true ↦ nomem | false ↦ ok ], record pm { state = f ∷ pm.state })

-- Two functions that work, of which the second one is called already.
abbrev working : PluginMain (List ℕ)
working = record {
  state = [];
  init_functions = record { functions = 7 ∷ 5 ∷ 3 ∷ []; is_called = λ f. eqb f 5 };
  exit_functions = no_exits;
}

-- The second function fails.
abbrev failing : PluginMain (List ℕ)
failing = record working {
  init_functions = record { functions = 7 ∷ 2 ∷ 3 ∷ []; is_called = λ _. false };
}

abbrev logging-IsLocal : IsLocal (List ℕ) logging
logging-IsLocal = record { local = λ f pm. refl }

abbrev logging-IsMonotone : IsMonotone (List ℕ) logging
logging-IsMonotone = record { functions_kept = λ f pm. refl; called_kept = λ f g pm h. h }

call_all_init-run_init_example :
    sc_call_all_init_function (List ℕ) logging working
    ≡ run_init (List ℕ) logging (7 ∷ 3 ∷ []) working
call_all_init-run_init_example =
    call_all_init-run_init (List ℕ) logging logging-IsLocal working
      ((ground arith, (ground arith, tt)), ((ground arith, tt), (tt, tt)))

working_runs : (sc_call_all_init_function (List ℕ) logging working).0 ≡ ok
unfolding sc_call_all_init_function init_loop set_called
working_runs = refl

call_all_init_twice_example :
    let pm' = (sc_call_all_init_function (List ℕ) logging working).1 in
    All (λ f. pm'.init_functions.is_called f ≡ true) pm'.init_functions.functions
    × (sc_call_all_init_function (List ℕ) logging pm' ≡ (ok, pm'))
call_all_init_twice_example =
    call_all_init_twice (List ℕ) logging logging-IsMonotone working working_runs

failing_fails : is_ok (sc_call_all_init_function (List ℕ) logging failing).0 ≡ false
unfolding sc_call_all_init_function init_loop set_called
failing_fails = refl

call_all_init_after_failure_example :
    (h : Stops (List ℕ) logging (7 ∷ 2 ∷ 3 ∷ []) failing) × (let pm' =
        (sc_call_all_init_function (List ℕ) logging failing).1 in
      sc_call_all_init_function (List ℕ) logging pm' ≡ init_loop (List ℕ) logging h.behind ok pm')
call_all_init_after_failure_example =
    call_all_init_after_failure (List ℕ) logging logging-IsMonotone failing failing_fails

-- The exit functions write down their numbers.
abbrev logging_exit : ℕ → PluginMain (List ℕ) → PluginMain (List ℕ)
logging_exit f pm = record pm { state = f ∷ pm.state }

abbrev leaving : PluginMain (List ℕ)
leaving = record working {
  exit_functions = record { functions = 4 ∷ 9 ∷ 6 ∷ []; is_called = λ f. eqb f 9 };
}

-- A sysrepo that counts the subscriptions and refuses the seventh.
abbrev counting : Subscription → ℕ → SrError × ℕ
counting x s = (if eqb s 6 then nomem else ok, s + 1)

-- The three init functions, registered as the linker put them.
abbrev starting : PluginMain ℕ
starting = record {
  state = 0;
  init_functions = record { functions = 1 ∷ 0 ∷ 2 ∷ []; is_called = λ f. false };
  exit_functions = no_exits;
}

call_all_init-Subscribes_example :
    Subscribes ℕ counting
      (all_subscriptions (1 ∷ 0 ∷ 2 ∷ []))
      0
      (sc_call_all_init_function ℕ (call_plugin ℕ counting) starting)
call_all_init-Subscribes_example =
    call_all_init-Subscribes ℕ counting starting
      ((ground arith, (ground arith, tt)), ((ground arith, tt), (tt, tt)))
      (refl, (refl, (refl, tt)))
