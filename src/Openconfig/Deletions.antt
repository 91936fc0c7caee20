-- ===== src/Openconfig/Deletions.antt =====
-- What oc_interfaces_config_cb does with a change that has no new value.
use archived_sweetcomb.Prelude.{false, ◌≡◌}
use archived_sweetcomb.Outcome.{Outcome, returns, throws, crash}
use archived_sweetcomb.Sysrepo.{is_ok, Xpath}
use archived_sweetcomb.Vom.{Vom}
use archived_sweetcomb.Interface.{Round, continue, nothing_todo}

module _ (X : Xpath) (V : Vom) where
  -- Nothing is thrown, and `goto nothing_todo` is reached with an error only.
  abbrev EndsBadly : Outcome (Round V) → Type 0
  EndsBadly (returns (continue l)) = Unit
  EndsBadly (returns (nothing_todo rc db)) = is_ok rc ≡ false
  EndsBadly throws = ⊥
  EndsBadly crash = Unit

  -- The loop does not reach its end: it faults, or it is left with an error.
  abbrev IsLeft : Outcome (Round V) → Type 0
  IsLeft (returns (continue l)) = ⊥
  IsLeft (returns (nothing_todo rc db)) = is_ok rc ≡ false
  IsLeft throws = ⊥
  IsLeft crash = Unit
