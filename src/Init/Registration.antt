-- ===== src/Init/Registration.antt =====
-- The registration of a function and its removal from the list.
use archived_sweetcomb.Prelude.{ℕ, ◌≡◌, refl, ◌≢◌, ap, List, [], ◌∷◌, ◌++◌, arith, All}
use archived_sweetcomb.Outcome.{returns}
use archived_sweetcomb.Init.{Registry, add_function, unlink, remove_function}

unlink-append :
    (f p : ℕ) (before behind : List ℕ)
    → All (λ g. g ≢ f) before
    → unlink f p (before ++ f ∷ behind) ≡ p ∷ before ++ behind
unfolding unlink
unlink-append f p [] behind h = ground arith
unlink-append f p (q ∷ before) behind h = ground (arith, h.0, unlink-append f q before behind h.1)

-- The functions that are registered after f, the last one first.
abbrev pub add_functions : List ℕ → Registry → Registry
add_functions [] r = r
add_functions (g ∷ gs) r = add_function g (add_functions gs r)

functions-add_functions :
    (gs : List ℕ) (r : Registry) → (add_functions gs r).functions ≡ gs ++ r.functions
unfolding add_function
functions-add_functions [] r = refl
functions-add_functions (g ∷ gs) r = ap (◌∷◌ g) (functions-add_functions gs r)

-- Removing f, after others were registered behind it, leaves these others in front of the list as it
-- was before f was registered.
pub remove_function-add_function :
    (f : ℕ) (later : List ℕ) (r : Registry)
    → All (λ g. g ≢ f) later
    → (r' : Registry) × (remove_function f (add_functions later (add_function f r)) ≡ returns r')
      × (r'.functions ≡ later ++ r.functions)
unfolding remove_function add_function
remove_function-add_function f [] r h =
    (record (add_function f r) { functions = r.functions }, ground arith, refl)
remove_function-add_function f (g ∷ gs) r h = (
  record (add_functions (g ∷ gs) (add_function f r)) { functions = g ∷ gs ++ r.functions },
  rw (functions-add_functions, unlink-append f g gs r.functions h.1) (ground (arith, h.0)),
  refl,
)
