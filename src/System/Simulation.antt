-- ===== src/System/Simulation.antt =====
-- Runs of fallible steps on a state against a model on an abstract state.
use archived_sweetcomb.Prelude.{◌≡◌, refl, List, [], ◌∷◌, All}
use archived_sweetcomb.Outcome.{Outcome, returns, ◌>>=◌}

-- All steps, one after the other, and the model's.
abbrev pub run : {T S : Type 0} → (T → S → Outcome S) → List T → S → Outcome S
run step [] s = returns s
run step (t ∷ ts) s = step t s >>= run step ts

abbrev pub replay : {T A : Type 0} → (T → A → A) → List T → A → A
replay model [] a = a
replay model (t ∷ ts) a = replay model ts (model t a)

module _ {T S A : Type 0} (step : T → S → Outcome S) (model : T → A → A) where
  module _ (IsRegular : T → Type 0) (Shows : S → A → Type 0) where
    -- One step returns, and what it leaves behind is the model's.
    abbrev pub Simulates : Type 0
    Simulates =
        (t : T) (s : S) (a : A)
        → IsRegular t
        → Shows s a
        → (s' : S) × (step t s ≡ returns s') × Shows s' (model t a)

    pub run-Simulates :
        Simulates
        → (ts : List T) (s : S) (a : A) → All IsRegular ts
        → Shows s a
        → (s' : S) × (run step ts s ≡ returns s') × Shows s' (replay model ts a)
    run-Simulates each [] s a h shows = (s, refl, shows)
    run-Simulates each (t ∷ ts) s a h shows =
        let (s1, steps, shows1) = each t s a h.0 shows in
        let (s', runs, shows') = run-Simulates each ts s1 (model t a) h.1 shows1 in
        (s', rw steps runs, shows')
