-- ===== src/Tests/Frees.antt =====
-- The theorems on what the callbacks free, at concrete transactions.
use archived_sweetcomb.Prelude.{◌≤◌, ◌≡◌, refl, none, some, List, [], ◌∷◌, ◌++◌}
use archived_sweetcomb.Outcome.{returns}
use archived_sweetcomb.Sysrepo.{
  SrError, ok, inval_arg, verify, created, string_t, uint32_t, string_val, uint32_val, Change,
  Xpath, foreach_change,
}
use archived_sweetcomb.Interface.Config.Creation.{creations, create_cb-creations}
use archived_sweetcomb.Openconfig.{oc_interfaces_config_cb, oc_on_changes, oc_on_change}
use archived_sweetcomb.Interface.{Locals, finish, start}
use archived_sweetcomb.Interface.Config.Creation.{deletion}
use archived_sweetcomb.Nat.Deletions.{mapping_cb-deletion}
use archived_sweetcomb.Address.{AddressState, initial}
use archived_sweetcomb.Nat.{NatLocals, nat_start}
use archived_sweetcomb.Resources.{Resource, Exit, iterator, times}
use archived_sweetcomb.Resources.Loop.{Visits, all_values}
use archived_sweetcomb.Resources.Interfaces.{create_round, create_freeing, oc_round, oc_freeing}
use archived_sweetcomb.Resources.Interfaces.Frees.{
  Freed, refusal, create_cb-frees, oc_config_cb-frees,
}
use archived_sweetcomb.Address.Additions.{all_additions, add_all, address_change_cb-additions}
use archived_sweetcomb.Resources.Addresses.{address_round, address_freeing}
use archived_sweetcomb.Resources.Addresses.Frees.{address_change_cb-frees}
use archived_sweetcomb.Tests.Addresses.{two_addresses, two_placed}
use archived_sweetcomb.Resources.Mappings.{nat_round, nat_freeing}
use archived_sweetcomb.Resources.Mappings.Frees.{mapping_cb-frees}
use archived_sweetcomb.Tests.{
  Database, memory, paths, session_with, empty_db, one_interface, put, all_clear, nat_garbage,
}
use archived_sweetcomb.Tests.Interfaces.{eth1, eth1-IsNamed}
use archived_sweetcomb.Tests.Mappings.{no_mappings}

abbrev with_eth1 : SrError × Database
with_eth1 = (ok, record empty_db { states = put (λ _. none) "eth1" (some 1) })

create_cb-frees_example :
    (trace : List Resource) × (create_freeing paths memory all_clear [] (creations eth1) empty_db
      ≡ returns (trace, with_eth1))
    × ((visited : List Change) × (exit : Exit (Locals memory) (SrError × Database) ⊥) × Visits
          (create_round paths memory)
          (start memory all_clear empty_db)
          (creations eth1)
          visited
          exit
        × (trace ≡ all_values 0 visited ++ iterator ∷ []))
    × ((x : Resource) → times x trace ≤ 1)
    × (times iterator trace ≡ 1)
create_cb-frees_example =
    create_cb-frees paths memory all_clear (session_with (creations eth1)) "" empty_db with_eth1
      refl
      (create_cb-creations paths memory all_clear (session_with (creations eth1)) "" empty_db []
        eth1 tt eth1-IsNamed refl refl)

-- XPaths outside every interface.
abbrev no_paths : Xpath
no_paths = record { node_name = λ p. p; key_value = λ p node key. some "" }

abbrev outside : List Change
outside =
    record {
      op = created;
      old_val = none;
      new_val = some (record { xpath = "name"; type = string_t; datum = string_val "eth0" });
    }
    ∷ []

refused :
    oc_interfaces_config_cb no_paths memory all_clear
      (some (session_with outside))
      (some "")
      verify
      empty_db
    ≡ returns (inval_arg, empty_db)
unfolding oc_interfaces_config_cb oc_on_changes oc_on_change foreach_change start finish
refused = refl

oc_config_cb-frees_example :
    (trace : List Resource) × (oc_freeing no_paths memory all_clear [] outside empty_db
      ≡ returns (trace, (inval_arg, empty_db)))
    × Freed memory
        (refusal no_paths memory)
        (oc_round no_paths memory)
        (start memory all_clear empty_db)
        outside
        (inval_arg, empty_db)
        trace
oc_config_cb-frees_example =
    oc_config_cb-frees no_paths memory all_clear (session_with outside) "" empty_db
      (inval_arg, empty_db) refl refused

-- A mapping that cannot be built, since the flag create happens to be set: the iterator is freed
-- twice.
mapping_cb-frees_example :
    (trace : List Resource) × (nat_freeing paths memory nat_garbage []
        (deletion "index" uint32_t (uint32_val 5) ∷ [])
        no_mappings
      ≡ returns (trace, (inval_arg, no_mappings)))
    × ((visited : List Change) × (exit : Exit (NatLocals memory) SrError ⊥) × Visits
          (nat_round paths memory)
          (nat_start memory nat_garbage)
          (deletion "index" uint32_t (uint32_val 5) ∷ [])
          visited
          exit
        × (trace ≡ all_values 0 visited ++ iterator ∷ iterator ∷ []))
    × (times iterator trace ≡ 2)
mapping_cb-frees_example =
    mapping_cb-frees paths memory nat_garbage
      (session_with (deletion "index" uint32_t (uint32_val 5) ∷ [])) "" no_mappings
      (inval_arg, no_mappings) refl
      ((mapping_cb-deletion paths memory nat_garbage
          (session_with (deletion "index" uint32_t (uint32_val 5) ∷ [])) "" no_mappings "index" 5
          refl refl refl).1
        refl)

-- Two addresses, each bound twice.
abbrev four_bindings : SrError × Database
four_bindings =
    add_all memory "eth0"
      (("10.0.0.1", 0) ∷ ("10.0.0.1", 24) ∷ ("10.9.0.1", 24) ∷ ("10.9.0.1", 16) ∷ [])
      (ok, one_interface)

address_change_cb-frees_example :
    (trace : List Resource) × (address_freeing paths memory
        (foreach_change verify (all_additions two_addresses))
        one_interface
      ≡ returns (trace, four_bindings))
    × ((visited : List Change) × (exit : Exit (AddressState memory) (SrError × Database) ⊥) × Visits
          (address_round paths memory)
          (initial memory one_interface)
          (foreach_change verify (all_additions two_addresses))
          visited
          exit
        × (trace ≡ all_values 0 visited ++ iterator ∷ []))
    × ((x : Resource) → times x trace ≤ 1)
    × (times iterator trace ≡ 1)
address_change_cb-frees_example =
    address_change_cb-frees paths memory (session_with (all_additions two_addresses)) "" verify
      one_interface four_bindings refl refl
      (address_change_cb-additions paths memory "eth0" refl two_addresses
        (session_with (all_additions two_addresses)) "" one_interface two_placed refl refl)
