-- ===== src/Tests/Histories.antt =====
-- The theorems on the callbacks together, at concrete histories.
use archived_sweetcomb.Prelude.{inr, ◌≡◌, refl, none, some, [], ◌∷◌}
use archived_sweetcomb.Outcome.{returns}
use archived_sweetcomb.Sysrepo.{abort, ok, verify, identityref_t, string_val}
use archived_sweetcomb.Prefix.{decimal}
use archived_sweetcomb.Interface.Config.{ietf_interface_create_cb}
use archived_sweetcomb.Interface.Config.Creation.{creations, create_cb-creations}
use archived_sweetcomb.Interface.Config.Edits.{Edit, delete_entry, changes_of}
use archived_sweetcomb.Nat.{nat_mapping_table_config_cb, NatState, assign}
use archived_sweetcomb.Nat.Mappings.{mapping_changes, mapped, mapping_cb-source}
use archived_sweetcomb.Nat.Consistency.{IsConsistent}
use archived_sweetcomb.System.{Step, interface, mapping, start, then}
use archived_sweetcomb.System.Phases.{phases, phases-keep_verified}
use archived_sweetcomb.Address.{ietf_interface_ipv46_address_change_cb}
use archived_sweetcomb.Openconfig.{oc_interfaces_config_cb}
use archived_sweetcomb.System.Reachable.{History-IsConsistent}
use archived_sweetcomb.System.Collision.{create_cb_collision}
use archived_sweetcomb.Tests.{
  Database, memory, memory_nat_laws, memory_frame_laws, paths, session_with, put, all_clear,
  nat_garbage,
}
use archived_sweetcomb.Tests.Interfaces.{eth1, eth1-IsNamed}
use archived_sweetcomb.Tests.Mappings.{
  no_mappings, source_mapping, source-IsMapping, inside-parsed, outside-parsed,
}

-- The mapping 5 is created, and then an interface.
abbrev one_mapping : NatState memory
one_mapping = (mapped memory no_mappings 5 "10.0.0.1" "192.0.2.1").1

abbrev one_of_each : NatState memory
one_of_each = record one_mapping {
  db = record one_mapping.db { states = put one_mapping.db.states "eth1" (some 1) };
}

abbrev creates_mapping : Step paths memory no_mappings one_mapping
creates_mapping =
    mapping nat_garbage (some (session_with (mapping_changes source_mapping))) (some "") verify
      no_mappings ok one_mapping
      (mapping_cb-source paths memory nat_garbage (session_with (mapping_changes source_mapping)) ""
        no_mappings refl source_mapping refl inside-parsed outside-parsed source-IsMapping)

abbrev creates_interface : Step paths memory one_mapping one_of_each
creates_interface =
    interface all_clear (session_with (creations eth1)) "" verify one_mapping ok one_of_each.db (
      create_cb-creations paths memory all_clear (session_with (creations eth1)) "" one_mapping.db
        [] eth1 tt eth1-IsNamed refl refl)

History-IsConsistent_example : IsConsistent memory memory_nat_laws one_of_each
History-IsConsistent_example =
    History-IsConsistent paths memory memory_nat_laws memory_frame_laws no_mappings one_of_each
      (then no_mappings one_mapping one_of_each
        (then no_mappings no_mappings one_mapping (start no_mappings) creates_mapping)
        creates_interface)
      (
        (tt, λ e. cc),
        (
          λ v name op. absurd (cc),
          (λ v name op. absurd (cc), (λ v name op. absurd (cc), (λ v name op. absurd (cc), tt))),
        ),
      )
      (λ i. refl)

-- The deletion of an interface with the name 5, with its type.
abbrev delete_5 : Edit
delete_5 = delete_entry "interface" "name" (decimal 5) (
    record { path = "type"; type = identityref_t; datum = string_val "iana-if-type:ethernetCsmacd" }
    ∷ [])

create_cb_collision_example :
    (db : Database) × (ietf_interface_create_cb paths memory all_clear
        (session_with (changes_of delete_5))
        ""
        verify
        one_mapping.db
      ≡ returns (ok, db))
    × (db.mappings (decimal 5) ≡ none)
    × ¬ IsConsistent memory memory_nat_laws (record one_mapping { db = db })
unfolding assign
create_cb_collision_example =
    create_cb_collision paths memory memory_nat_laws all_clear (session_with (changes_of delete_5))
      "" one_mapping 5 ("10.0.0.1", "192.0.2.1") "interface" "name"
      (record {
        path = "type";
        type = identityref_t;
        datum = string_val "iana-if-type:ethernetCsmacd";
      }
        ∷ [])
      refl refl refl (refl, refl, (refl, tt)) refl refl

-- An interface is created, a mapping too, and then the transaction is aborted.
phases-keep_verified_example :
    (phases
        (ietf_interface_create_cb paths memory all_clear (session_with (creations eth1)) "")
        (verify ∷ abort ∷ [])
        one_mapping.db
      ≡ phases
          (ietf_interface_create_cb paths memory all_clear (session_with (creations eth1)) "")
          (verify ∷ [])
          one_mapping.db)
    × (phases
          (oc_interfaces_config_cb paths memory all_clear none none)
          (verify ∷ abort ∷ [])
          one_mapping.db
        ≡ phases
            (oc_interfaces_config_cb paths memory all_clear none none)
            (verify ∷ [])
            one_mapping.db)
    × (phases
          (ietf_interface_ipv46_address_change_cb paths memory (session_with (creations eth1)) "")
          (verify ∷ abort ∷ [])
          one_mapping.db
        ≡ phases
            (ietf_interface_ipv46_address_change_cb paths memory (session_with (creations eth1)) "")
            (verify ∷ [])
            one_mapping.db)
    × (phases
          (nat_mapping_table_config_cb paths memory nat_garbage none none)
          (verify ∷ abort ∷ [])
          no_mappings
        ≡ phases
            (nat_mapping_table_config_cb paths memory nat_garbage none none)
            (verify ∷ [])
            no_mappings)
phases-keep_verified_example =
    phases-keep_verified paths memory all_clear nat_garbage (session_with (creations eth1)) none ""
      none one_mapping.db no_mappings (abort ∷ []) (inr refl, tt)
