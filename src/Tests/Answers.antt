-- ===== src/Tests/Answers.antt =====
-- The theorems on the answers to requests for state, at concrete dumps.
use archived_sweetcomb.Oper.Dump.{DumpRequest}
use archived_sweetcomb.Prelude.{ℕ, ◌<◌, ◌≡◌, refl, List, [], ◌∷◌, length, false, eqb, ◌&&◌, arith}
use archived_sweetcomb.Outcome.{returns}
use archived_sweetcomb.Sysrepo.{SrError, ok}
use archived_sweetcomb.Oper.Details.{Details, StatusFlags}
use archived_sweetcomb.Oper.Interfaces.{state_room, ietf_interface_state_cb}
use archived_sweetcomb.Oper.Openconfig.{oc_interfaces_state_cb}
use archived_sweetcomb.Oper.Bounds.{
  all_values, state_cb-all_values, state_leaves, oc_state_cb-state_values,
}
use archived_sweetcomb.Tests.{paths}

abbrev flags : StatusFlags
flags = record { admin_up = 1; link_up = 2 }

abbrev up_and_running : Details
up_and_running = record {
  interface_name = "eth0";
  flags = 3;
  mac0 = 2;
  mac1 = 254;
  mac2 = 0;
  mac3 = 0;
  mac4 = 0;
  mac5 = 1;
  sw_if_index = 1;
  link_speed = 1_000_000;
  link_mtu = 9000;
}

abbrev allowed : ℕ → SrError
allowed n = ok

abbrev two : List Details
two = up_and_running ∷ up_and_running ∷ []

state_cb-all_values_example :
    (ietf_interface_state_cb paths flags allowed two "interface"
      ≡ returns (record { rc = ok; values = all_values flags "interface" two }))
    × (length (all_values flags "interface" two) ≡ 10)
    × (length (all_values flags "interface" two) < state_room two)
state_cb-all_values_example = state_cb-all_values paths flags allowed two "interface" refl refl

-- The interface is up in both respects, and both statuses are DOWN.
oc_state_cb-state_values_example :
    (oc_interfaces_state_cb paths flags allowed (λ name. two) "name"
      ≡ returns (record { rc = ok; values = state_leaves flags "eth0" up_and_running }))
    × ((d : Details) → (eqb 1 d.flags && eqb 2 d.flags) ≡ false)
oc_state_cb-state_values_example =
    oc_state_cb-state_values paths flags allowed (λ name. two) "name" "eth0" refl refl refl
      (ground arith)

abbrev only_admin : Details
only_admin = record up_and_running { flags = 1 }

-- A request with six bytes for the filter in a buffer of eight, which hold garbage.
abbrev garbled : DumpRequest
garbled = record {
  name_filter_valid = 7;
  filter_length = 6;
  filter_buf = 1 ∷ 2 ∷ 3 ∷ 4 ∷ 5 ∷ 6 ∷ 7 ∷ 8 ∷ [];
}
