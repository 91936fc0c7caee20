-- ===== src/Resources.antt =====
-- What the configuration callbacks free: the iterator over the changes and the old and the new value
-- of each change, which sysrepo allocates and the callbacks release with sr_free_change_iter and
-- sr_free_val. The loops of src/plugins/ietf/ietf_interface.cpp, src/plugins/ietf/ietf_nat.cpp and
-- src/plugins/openconfig/openconfig_interfaces.cpp are run with the list of what they free. The two
-- values of a round are listed old one first, whichever of them the code frees first.
pub mod Loop
pub mod Once
pub mod Interfaces
pub mod Mappings
pub mod Addresses
pub mod Answers
use archived_sweetcomb.Prelude.{
  ℕ, suc, Bool, true, false, Option, none, some, List, [], ◌∷◌, ◌++◌, eqb, if◌then◌else◌,
}
use archived_sweetcomb.Outcome.{Outcome, returns, ◌>>=◌}
use archived_sweetcomb.Sysrepo.{SrVal, Change}

-- The iterator, and the values that the round with that number was given.
pub data Resource : Type 0 where
  iterator : Resource
  old_value new_value : ℕ → Resource

-- `sr_free_val(p)`, where p holds that resource or is null.
abbrev pub free_val : Option SrVal → Resource → List Resource
free_val none r = []
free_val (some v) r = r ∷ []

-- `sr_free_val(old_val); sr_free_val(new_val);` in the round k
unfoldable pub free_values : ℕ → Change → List Resource
free_values k c = free_val c.old_val (old_value k) ++ free_val c.new_val (new_value k)

-- How a round of a loop ends: with the next change, by `goto` to the label that frees the values of
-- the round and the iterator, or by a return that frees nothing.
pub data Exit (L A E : Type 0) : Type 0 where
  next : L → Exit L A E
  label : A → Exit L A E
  leave : E → Exit L A E

module _ {L A E : Type 0} where
  -- What follows the round k: the loop, the label, or the caller.
  abbrev pub after_round :
      ℕ
      → Change
      → (L → Outcome (List Resource × Exit L A E))
      → Exit L A E
      → Outcome (List Resource × Exit L A E)
  after_round k c loop (next l) = do rest ← loop l; returns (free_values k c ++ rest.0, rest.1)
  after_round k c loop (label a) = returns (free_values k c, label a)
  after_round k c loop (leave e) = returns ([], leave e)

  -- The loop, from the round k on: what it frees, with the values that the label frees in the round
  -- that jumps to it, and how it ends.
  unfoldable pub freeing_loop :
      (L → Change → Outcome (Exit L A E))
      → ℕ
      → L
      → List Change
      → Outcome (List Resource × Exit L A E)
  freeing_loop round k l [] = returns ([], next l)
  freeing_loop round k l (c ∷ cs) =
      round l c >>= after_round k c (λ l'. freeing_loop round (suc k) l' cs)

abbrev pub same : Resource → Resource → Bool
same iterator iterator = true
same (old_value j) (old_value k) = eqb j k
same (new_value j) (new_value k) = eqb j k
same _ _ = false

-- How often a resource is freed.
abbrev pub times : Resource → List Resource → ℕ
times r [] = 0
times r (x ∷ xs) = let rest = times r xs in if same r x then suc rest else rest
