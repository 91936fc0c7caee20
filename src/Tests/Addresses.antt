-- ===== src/Tests/Addresses.antt =====
-- The theorems on the callback for addresses, on netmasks and on prefixes, at concrete inputs.
use archived_sweetcomb.Prelude.{
  All, ℕ, String, false, ◌≡◌, refl, List, [], ◌∷◌, is_empty, ◌≤◌, arith,
}
use archived_sweetcomb.Outcome.{returns}
use archived_sweetcomb.Sysrepo.{ok, verify}
use archived_sweetcomb.Address.{ietf_interface_ipv46_address_change_cb}
use archived_sweetcomb.Address.Additions.{NewAddress, IsAddressOf, all_additions}
use archived_sweetcomb.Address.Store.{Kept, Stored, address_change_cb-Stored}
use archived_sweetcomb.Netmask.{little_endian, netmask_to_plen}
use archived_sweetcomb.Netmask.Masks.{
  mask, IsBitLength, netmask_to_plen-IsBitLength, netmask_to_plen-mask,
}
use archived_sweetcomb.Prefix.{Prefix, make_prefix, prefix_to_string}
use archived_sweetcomb.Prefix.RoundTrip.{make_prefix-prefix_to_string}
use archived_sweetcomb.Tests.{
  Database, memory, memory_binding_laws, paths, session_with, one_interface,
}

abbrev pub two_addresses : List NewAddress
two_addresses =
    record {
      entry_path = "address";
      ip_path = "ip";
      length_path = "prefix-length";
      ip = "10.0.0.1";
      prefix_length = 24;
    }
    ∷ record {
      entry_path = "address";
      ip_path = "ip";
      length_path = "prefix-length";
      ip = "10.9.0.1";
      prefix_length = 16;
    }
    ∷ []

placed :
    (ip : String) (n : ℕ)
    → is_empty ip ≡ false
    → IsAddressOf paths "eth0" (record {
      entry_path = "address";
      ip_path = "ip";
      length_path = "prefix-length";
      ip = ip;
      prefix_length = n;
    })
placed ip n full = record {
  entry_in = refl;
  ip_in = refl;
  length_in = refl;
  ip_node = refl;
  length_node = refl;
  nonempty = full;
}

pub two_placed : All (IsAddressOf paths "eth0") two_addresses
two_placed = (placed "10.0.0.1" 24 refl, (placed "10.9.0.1" 16 refl, tt))

address_change_cb-Stored_example :
    (db' : Database) × (ietf_interface_ipv46_address_change_cb paths memory
        (session_with (all_additions two_addresses))
        ""
        verify
        one_interface
      ≡ returns (ok, db'))
    × Kept memory memory_binding_laws "eth0" "eth0" "eth0" one_interface db'
    × All
        (λ a. Stored memory memory_binding_laws "eth0" "eth0" "eth0" db' a.ip a.prefix_length)
        two_addresses
address_change_cb-Stored_example =
    address_change_cb-Stored memory memory_binding_laws "eth0" "eth0" "eth0" paths two_addresses
      (session_with (all_additions two_addresses)) "" one_interface refl (λ db k l3. refl)
      (refl, refl) two_placed (λ n. (("10.0.0.1", n), refl), (λ n. (("10.9.0.1", n), refl), tt))
      refl refl

netmask_to_plen-IsBitLength_example :
    (k : ℕ) × (netmask_to_plen memory "255.255.252.0" ≡ returns k)
    × (k ≤ 32)
    × IsBitLength (little_endian (mask 22)) k
netmask_to_plen-IsBitLength_example =
    netmask_to_plen-IsBitLength memory "255.255.252.0" refl (mask 22)
      (omega arith, omega arith, omega arith, omega arith) refl

-- A mask with 22 ones is turned into 24.
netmask_to_plen-mask_example : netmask_to_plen memory "255.255.252.0" ≡ returns 24
netmask_to_plen-mask_example =
    netmask_to_plen-mask memory "255.255.252.0" refl 22 (omega arith) refl

abbrev host_prefix : Prefix memory
host_prefix = record { m_address = "10.0.0.1"; m_prefix_len = 24 }

make_prefix-prefix_to_string_example :
    make_prefix memory (prefix_to_string memory host_prefix) ≡ returns host_prefix
make_prefix-prefix_to_string_example =
    make_prefix-prefix_to_string memory host_prefix refl (omega arith)
