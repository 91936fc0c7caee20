-- ===== src/Oper.antt =====
-- The callbacks that answer requests for state data: ietf_interface_state_cb and
-- interface_statistics_cb of src/plugins/ietf/ietf_interface.cpp, oc_interfaces_state_cb of
-- src/plugins/openconfig/openconfig_interfaces.cpp and nat_cap_state_cb of
-- src/plugins/ietf/ietf_nat.cpp. An answer is an array of values that sr_new_values allocates; what
-- is written into it stands here in order, and a write past its end is undefined behaviour.
pub mod Details
pub mod Interfaces
pub mod Statistics
pub mod Openconfig
pub mod Bounds
pub mod Status
pub mod Dump
use archived_sweetcomb.Prelude.{ℕ, List, [], ◌∷◌, ◌++◌, ltb, if◌then◌else◌, length}
use archived_sweetcomb.Outcome.{Outcome, returns, crash, ◌>>=◌}
use archived_sweetcomb.Sysrepo.{SrError, SrVal}

-- `*values` and `*values_cnt` with the return code. Where the code returns without writing them, the
-- list is empty: no value is handed out, and what the caller's variables held stays there.
pub record Reply : Type 0 where
  pub rc : SrError
  pub values : List SrVal

-- The array with room for so many values, and those written so far.
pub record Values : Type 0 where
  pub room : ℕ
  pub written : List SrVal

unfoldable pub new_values : ℕ → Values
new_values n = record { room = n; written = [] }

-- One value at the next place: sr_val_build_xpath, the type and the datum, and `cnt++`.
unfoldable pub put : SrVal → Values → Outcome Values
put v a =
    if ltb (length a.written) a.room
    then returns (record a { written = a.written ++ v ∷ [] })
    else crash

unfoldable pub put_all : List SrVal → Values → Outcome Values
unfolding put
put_all [] a = returns a
put_all (v ∷ vs) a = do a' ← put v a; put_all vs a'
