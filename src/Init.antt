-- ===== src/Init.antt =====
-- src/plugins/sc_init.h and sc_init.c: the lists of init and exit functions of the plugins. Each
-- registered function f has one list element, a static variable of the function that the macro
-- SC_DECLARE_FUNCTION makes from f; so an element is named by its function, and the functions by
-- numbers. What a registered function does is a parameter: it may change anything, the flags too.
pub mod Registration
pub mod Calls
pub mod Failures
pub mod Exits
pub mod Single
use archived_sweetcomb.Prelude.{ℕ, Bool, true, false, not, ◌&&◌, List, [], ◌∷◌, eqb, if◌then◌else◌}
use archived_sweetcomb.Outcome.{Outcome, returns, crash, ◌>>=◌}
use archived_sweetcomb.Sysrepo.{SrError, ok, is_ok}

-- One of the two lists, with the flags is_called of the elements.
pub record Registry : Type 0 where
  pub functions : List ℕ
  pub is_called : ℕ → Bool

unfoldable pub set_called : (ℕ → Bool) → ℕ → Bool → ℕ → Bool
set_called flags f b g = if eqb g f then b else flags g

-- The constructor __sc_add_init_function_f, and that for exit functions.
unfoldable pub add_function : ℕ → Registry → Registry
unfolding set_called
add_function f r = record {
  functions = f ∷ r.functions;
  is_called = set_called r.is_called f false;
}

-- The loop of the destructor, behind an element that is not f.
unfoldable pub unlink : ℕ → ℕ → List ℕ → List ℕ
unlink f p [] = p ∷ []
unlink f p (q ∷ rest) = let more = unlink f q rest in if eqb q f then p ∷ rest else p ∷ more

-- The destructor __sc_rm_init_function_f: it reads through the head of the list unchecked.
unfoldable pub remove_function : ℕ → Registry → Outcome Registry
unfolding unlink
remove_function f r = elim r.functions [
  | [] ↦ crash
  | p ∷ rest ↦ returns (record r { functions = if eqb p f then rest else unlink f p rest })
]

-- sc_plugin_main_t, over the state that the functions work on (the session, the subscription and
-- all that they reach).
pub record PluginMain (S : Type 0) : Type 0 where
  pub state : S
  pub init_functions : Registry
  pub exit_functions : Registry

module _ (S : Type 0) where
  abbrev pub mark_init : ℕ → PluginMain S → PluginMain S
  mark_init f pm = record pm {
    init_functions = record r { is_called = set_called r.is_called f true };
  }
    where
      r : Registry
      r = pm.init_functions

  abbrev pub mark_exit : ℕ → PluginMain S → PluginMain S
  mark_exit f pm = record pm {
    exit_functions = record r { is_called = set_called r.is_called f true };
  }
    where
      r : Registry
      r = pm.exit_functions

  module _ (call : ℕ → PluginMain S → SrError × PluginMain S) where
    -- The loop of sc_call_all_init_function.
    unfoldable pub init_loop : List ℕ → SrError → PluginMain S → SrError × PluginMain S
    init_loop [] ret pm = (ret, pm)
    init_loop (f ∷ fs) ret pm =
        let (r, pm') = call f (mark_init f pm) in
        let skipped = init_loop fs ret pm in
        let continued = init_loop fs r pm' in
        if not (pm.init_functions.is_called f)
        then (if is_ok r then continued else (r, pm'))
        else skipped

    unfoldable pub sc_call_all_init_function : PluginMain S → SrError × PluginMain S
    unfolding init_loop
    sc_call_all_init_function pm = init_loop pm.init_functions.functions ok pm

    -- The macro sc_call_init_function, by which one plugin's function can call another's.
    unfoldable pub call_init_loop : ℕ → List ℕ → PluginMain S → SrError × PluginMain S
    call_init_loop f [] pm = (ok, pm)
    call_init_loop f (p ∷ rest) pm =
        let more = call_init_loop f rest pm in
        if eqb p f && not (pm.init_functions.is_called p) then call p (mark_init p pm) else more

    unfoldable pub sc_call_init_function : ℕ → PluginMain S → SrError × PluginMain S
    unfolding call_init_loop
    sc_call_init_function f pm = call_init_loop f pm.init_functions.functions pm

  module _ (call : ℕ → PluginMain S → PluginMain S) where
    -- The loop of sc_call_all_exit_function.
    unfoldable pub exit_loop : List ℕ → PluginMain S → PluginMain S
    exit_loop [] pm = pm
    exit_loop (f ∷ fs) pm =
        exit_loop fs (if not (pm.exit_functions.is_called f) then call f (mark_exit f pm) else pm)

    unfoldable pub sc_call_all_exit_function : PluginMain S → PluginMain S
    unfolding exit_loop
    sc_call_all_exit_function pm = exit_loop pm.exit_functions.functions pm

    -- The macro sc_call_exit_function.
    unfoldable pub call_exit_loop : ℕ → List ℕ → PluginMain S → PluginMain S
    call_exit_loop f [] pm = pm
    call_exit_loop f (p ∷ rest) pm =
        let more = call_exit_loop f rest pm in
        if eqb p f && not (pm.exit_functions.is_called p) then call p (mark_exit p pm) else more

    unfoldable pub sc_call_exit_function : ℕ → PluginMain S → PluginMain S
    unfolding call_exit_loop
    sc_call_exit_function f pm = call_exit_loop f pm.exit_functions.functions pm
