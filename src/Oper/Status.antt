-- ===== src/Oper/Status.antt =====
-- The administrative and the operational status that ietf_interface_state_cb reports.
use text.Mathlib.TextEquality.{eq_iff}
use archived_sweetcomb.Prelude.{ℕ, zero, suc, ◌+◌, ◌<◌, String, ◌≡◌, ◌≢◌, List, [], ◌∷◌, arith}
use archived_sweetcomb.Sysrepo.{SrData, no_data, string_val, SrVal}
use archived_sweetcomb.Oper.Details.{Details, StatusFlags}
use archived_sweetcomb.Oper.Interfaces.{interface_values}

-- The datum of the value at a place of an answer.
abbrev pub datum_at : ℕ → List SrVal → SrData
datum_at n [] = no_data
datum_at zero (v ∷ vs) = v.datum
datum_at (suc n) (v ∷ vs) = datum_at n vs

module _ (F : StatusFlags) (xpath : String) (d : Details) where
  -- The administrative and the operational status are never reported as "up" together, where VPP's
  -- two flags are different numbers.
  pub interface_values-not_both_up :
      F.admin_up ≢ F.link_up
      → datum_at 0 (interface_values F xpath d) ≡ string_val "up"
      → datum_at 1 (interface_values F xpath d) ≡ string_val "down"
  unfolding interface_values
  interface_values-not_both_up differ up = ground (arith, eq_iff "down" "up")

  -- An interface with both flags set, none of which is 0, is reported as "down" in both.
  pub interface_values-both_set :
      0 < F.admin_up
      → 0 < F.link_up
      → d.flags ≡ F.admin_up + F.link_up
      → (datum_at 0 (interface_values F xpath d) ≡ string_val "down")
        × (datum_at 1 (interface_values F xpath d) ≡ string_val "down")
  unfolding interface_values
  interface_values-both_set h k e = (ground arith, ground arith)
