-- ===== src/Netmask.antt =====
-- utils::netmask_to_plen of src/plugins/sys_util.h. The variable n is an in_addr_t, 32 bits wide,
-- into which inet_pton stores four octets in the order of the network, and which a little-endian
-- host reads with the first octet lowest. The counter i is a uint8_t.
pub mod Masks
use archived_sweetcomb.Prelude.{
  ℕ, zero, suc, ◌+◌, ◌*◌, ◌/◌, ◌%◌, Option, none, some, ltb, if◌then◌else◌,
}
use archived_sweetcomb.Outcome.{Outcome, returns, throws, crash, ◌>>=◌, or_throw}
use archived_sweetcomb.Vom.{Vom, Octets}

-- The value of n behind inet_pton.
unfoldable pub little_endian : Octets → ℕ
little_endian o = o.first + 256 * o.second + 65_536 * o.third + 16_777_216 * o.fourth

-- `while (n > 0) { n = n >> 1; i++; }` on fuel; `none` means that the fuel ran out.
unfoldable pub shift_loop : ℕ → ℕ → ℕ → Option ℕ
shift_loop zero n i = none
shift_loop (suc fuel) n i =
    let rest = shift_loop fuel (n / 2) ((i + 1) % 256) in if ltb 0 n then rest else some i

-- A number of 32 bits takes at most 32 rounds and the test that ends the loop.
abbrev pub rounds : ℕ
rounds = 33

unfoldable pub count_bits : ℕ → Outcome ℕ
count_bits n = elim (shift_loop rounds n 0) [ none ↦ crash | some i ↦ returns i ]

unfoldable pub netmask_to_plen : (V : Vom) → V.Address → Outcome ℕ
netmask_to_plen V netmask =
    if V.is_v4 netmask
    then (do o ← or_throw (V.inet_pton (V.address_to_string netmask)); count_bits (little_endian o))
    -- sixteen octets are stored behind the four that n has
    else if V.is_v6 netmask
    then (if V.inet_pton6 (V.address_to_string netmask) then crash else throws)
    else throws
