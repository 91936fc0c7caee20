-- ===== src/Tests/Totals.antt =====
-- The theorems on when the configuration callbacks return and when they do not, at concrete
-- transactions.
use mathlib.Core.Option.{none-ne-some, some-injective}
use mathlib.Core.Path.{subst}
use archived_sweetcomb.Prelude.{
  if◌then◌else◌, true, ◌≡◌, refl, none, some, [], ◌∷◌, ◌==◌, inl, inr, arith, Bool-cases,
}
use archived_sweetcomb.Outcome.{crash, returns, throws}
use archived_sweetcomb.Sysrepo.{
  SrError, verify, created, Change, string_t, bool_t, uint32_t, string_val, bool_val, uint32_val,
  SrVal,
}
use archived_sweetcomb.Netmask.Masks.{IsOctets}
use archived_sweetcomb.Interface.Config.{ietf_interface_create_cb}
use archived_sweetcomb.Interface.Config.Total.{IsLeaf, create_cb_total}
use archived_sweetcomb.Address.{new_or_old_xpath, ietf_interface_ipv46_address_change_cb}
use archived_sweetcomb.Address.Total.{StoresOctets, IsAddressLeaf, address_change_cb_total}
use archived_sweetcomb.Prefix.{make_prefix, parse_prefix, split_last}
use archived_sweetcomb.Nat.{NatState, nat_mapping_table_config_cb}
use archived_sweetcomb.Nat.Total.{IsNatLeaf}
use archived_sweetcomb.Nat.Refusals.{mapping_cb-throws}
use archived_sweetcomb.Resources.Mappings.{nat_guarded}
use archived_sweetcomb.Resources.Mappings.Undefined.{is_double_free, nat_guarded_total}
use archived_sweetcomb.Tests.Mappings.{no_mappings}
use archived_sweetcomb.Tests.{
  Database, memory, paths, session_with, one_interface, all_clear, nat_garbage,
}

abbrev leaf_name : SrVal
leaf_name = record { xpath = "name"; type = string_t; datum = string_val "eth0" }

abbrev leaf_enabled : SrVal
leaf_enabled = record { xpath = "enabled"; type = bool_t; datum = bool_val true }

abbrev creation : SrVal → Change
creation v = record { op = created; old_val = none; new_val = some v }

leaf_name-IsLeaf : IsLeaf paths leaf_name
leaf_name-IsLeaf = record {
  name = λ _. ("eth0", refl);
  type = λ _. ("eth0", refl);
  enabled = λ h. absurd (cc);
}

leaf_enabled-IsLeaf : IsLeaf paths leaf_enabled
leaf_enabled-IsLeaf = record {
  name = λ h. absurd (cc);
  type = λ h. absurd (cc);
  enabled = λ _. (true, refl);
}

create_cb_total_example :
    (r : SrError × Database) × (ietf_interface_create_cb paths memory all_clear
        (session_with (creation leaf_name ∷ creation leaf_enabled ∷ []))
        ""
        verify
        one_interface
      ≡ returns r)
create_cb_total_example =
    create_cb_total paths memory all_clear
      (session_with (creation leaf_name ∷ creation leaf_enabled ∷ [])) "" verify one_interface refl
      ((leaf_name, refl, leaf_name-IsLeaf), ((leaf_enabled, refl, leaf_enabled-IsLeaf), tt))

memory-StoresOctets : StoresOctets memory
memory-StoresOctets text o h = elim (Bool-cases (text == "255.255.252.0")) [
  | inl hit ↦
      subst IsOctets (some-injective _ _ (rw hit at h))
        (omega arith, omega arith, omega arith, omega arith)
  | inr miss ↦ absurd (none-ne-some _ (rw miss at h))
]

abbrev leaf_netmask : SrVal
leaf_netmask = record { xpath = "netmask"; type = string_t; datum = string_val "255.0.255.0" }

-- A netmask that inet_pton refuses.
leaf_netmask-IsAddressLeaf : IsAddressLeaf paths memory leaf_netmask
leaf_netmask-IsAddressLeaf = record {
  ip = λ h. absurd (cc);
  length = λ h. absurd (cc);
  netmask = λ _. ("255.0.255.0", refl, λ a e. refl);
}

address_change_cb_total_example :
    (r : SrError × Database) × (ietf_interface_ipv46_address_change_cb paths memory
        (session_with (creation leaf_netmask ∷ []))
        ""
        verify
        one_interface
      ≡ returns r)
unfolding new_or_old_xpath
address_change_cb_total_example =
    address_change_cb_total paths memory memory-StoresOctets
      (session_with (creation leaf_netmask ∷ [])) "" verify one_interface
      (
        record {
          path = "netmask";
          if_name = "eth0";
          pathed = refl;
          inside = refl;
          before = tt;
          behind = λ _. leaf_netmask-IsAddressLeaf;
        },
        tt,
      )

abbrev leaf_index : SrVal
leaf_index = record { xpath = "index"; type = uint32_t; datum = uint32_val 7 }

abbrev leaf_without_length : SrVal
leaf_without_length = record {
  xpath = "internal-src-address";
  type = string_t;
  datum = string_val "10.0.0.1";
}

leaf_index-IsNatLeaf : IsNatLeaf paths memory leaf_index
leaf_index-IsNatLeaf = record {
  index = λ _. (7, refl);
  type = λ h. absurd (cc);
  internal_src = λ h. absurd (cc);
  external_src = λ h. absurd (cc);
  internal_dst = λ h. absurd (cc);
  external_dst = λ h. absurd (cc);
}

-- The flag create happens to be set, and there is nothing to build: the iterator is freed twice.
nat_guarded_total_example :
    (r : SrError × NatState memory) × (nat_mapping_table_config_cb paths memory nat_garbage
        (some (session_with (creation leaf_index ∷ [])))
        (some "")
        verify
        no_mappings
      ≡ returns r)
    × (nat_guarded paths memory nat_garbage crash []
          (some (session_with (creation leaf_index ∷ [])))
          (some "")
          verify
          no_mappings
        ≡ (if is_double_free r.0 then crash else returns r))
nat_guarded_total_example =
    nat_guarded_total paths memory nat_garbage (session_with (creation leaf_index ∷ [])) ""
      no_mappings refl ((leaf_index, refl, leaf_index-IsNatLeaf), tt)

-- An address without its length, behind an index.
without_length : make_prefix memory "10.0.0.1" ≡ throws
unfolding make_prefix parse_prefix split_last
without_length = refl

mapping_cb-throws_example :
    nat_mapping_table_config_cb paths memory nat_garbage
      (some (session_with (creation leaf_index ∷ creation leaf_without_length ∷ [])))
      (some "")
      verify
      no_mappings
    ≡ throws
mapping_cb-throws_example =
    mapping_cb-throws paths memory nat_garbage
      (session_with (creation leaf_index ∷ creation leaf_without_length ∷ [])) "" no_mappings
      (creation leaf_index ∷ []) [] (creation leaf_without_length) refl refl
      ((leaf_index, refl, leaf_index-IsNatLeaf), tt) (inl refl, tt)
      (refl, (leaf_without_length, "10.0.0.1", refl, inl refl, refl, without_length))
