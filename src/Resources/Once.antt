-- ===== src/Resources/Once.antt =====
-- That the values of different rounds are different resources.
use archived_sweetcomb.Prelude.{
  ℕ, suc, ◌+◌, ◌≤◌, ◌≡◌, Option, none, some, List, [], ◌∷◌, ◌++◌, arith, Bool-cases, inl, inr, eqb,
  leb, if◌then◌else◌,
}
use archived_sweetcomb.Sysrepo.{SrVal, Change}
use archived_sweetcomb.Resources.{Resource, iterator, old_value, new_value, same, times}
use archived_sweetcomb.Resources.Loop.{present, all_values}

pub times-append :
    (r : Resource) (xs ys : List Resource) → times r (xs ++ ys) ≡ times r xs + times r ys
times-append r [] ys = omega arith
times-append r (x ∷ xs) ys = elim (Bool-cases (same r x)) [
  | inl hit ↦ rw hit (omega (arith, times-append r xs ys))
  | inr miss ↦ rw miss (times-append r xs ys)
]

-- How often the resource can be freed in the round k, and from there on.
abbrev hits : Resource → ℕ → ℕ
hits iterator k = 0
hits (old_value j) k = if eqb j k then 1 else 0
hits (new_value j) k = if eqb j k then 1 else 0

abbrev hits_from : Resource → ℕ → ℕ
hits_from iterator k = 0
hits_from (old_value j) k = if leb k j then 1 else 0
hits_from (new_value j) k = if leb k j then 1 else 0

hits_from-suc : (r : Resource) (k : ℕ) → hits r k + hits_from r (suc k) ≤ hits_from r k
hits_from-suc iterator k = omega arith
hits_from-suc (old_value j) k = ground arith
hits_from-suc (new_value j) k = ground arith

hits_from_small : (r : Resource) (k : ℕ) → hits_from r k ≤ 1
hits_from_small iterator k = omega arith
hits_from_small (old_value j) k = ground arith
hits_from_small (new_value j) k = ground arith

times-present :
    (r : Resource) (k : ℕ) (old new : Option SrVal)
    → times r (present old (old_value k) ++ present new (new_value k)) ≤ hits r k
times-present iterator k none none = omega arith
times-present iterator k none (some n) = omega arith
times-present iterator k (some o) none = omega arith
times-present iterator k (some o) (some n) = omega arith
times-present (old_value j) k none none = ground arith
times-present (old_value j) k none (some n) = ground arith
times-present (old_value j) k (some o) none = ground arith
times-present (old_value j) k (some o) (some n) = ground arith
times-present (new_value j) k none none = ground arith
times-present (new_value j) k none (some n) = ground arith
times-present (new_value j) k (some o) none = ground arith
times-present (new_value j) k (some o) (some n) = ground arith

times-all_values :
    (r : Resource) (k : ℕ) (cs : List Change) → times r (all_values k cs) ≤ hits_from r k
times-all_values r k [] = omega arith
times-all_values r k (c ∷ cs) = omega (
  arith,
  times-append r (present c.old_val (old_value k) ++ present c.new_val (new_value k))
      (all_values (suc k) cs),
  times-present r k c.old_val c.new_val,
  times-all_values r (suc k) cs,
  hits_from-suc r k,
)

-- No value is freed twice, and the iterator is none of them.
pub times-all_values_small : (r : Resource) (cs : List Change) → times r (all_values 0 cs) ≤ 1
times-all_values_small r cs = omega (arith, times-all_values r 0 cs, hits_from_small r 0)

pub times-all_values_iterator : (cs : List Change) → times iterator (all_values 0 cs) ≡ 0
times-all_values_iterator cs = omega (arith, times-all_values iterator 0 cs)

-- The values and one iterator behind them.
pub times-then_iterator :
    (cs : List Change) (trace : List Resource)
    → trace ≡ all_values 0 cs ++ iterator ∷ []
    → ((x : Resource) → times x trace ≤ 1) × (times iterator trace ≡ 1)
times-then_iterator cs trace e = (λ x. rw e (at_most x), rw e exactly)
  where
    exactly : times iterator (all_values 0 cs ++ iterator ∷ []) ≡ 1
    exactly = omega (
      arith,
      times-append iterator (all_values 0 cs) (iterator ∷ []),
      times-all_values_iterator cs,
    )

    at_most : (x : Resource) → times x (all_values 0 cs ++ iterator ∷ []) ≤ 1
    at_most iterator = omega (arith, exactly)
    at_most (old_value j) = omega (
      arith,
      times-append (old_value j) (all_values 0 cs) (iterator ∷ []),
      times-all_values_small (old_value j) cs,
    )
    at_most (new_value j) = omega (
      arith,
      times-append (new_value j) (all_values 0 cs) (iterator ∷ []),
      times-all_values_small (new_value j) cs,
    )
