-- ===== src/Tests/Sequences.antt =====
-- The theorems on transactions with several edits, and on several transactions, at concrete inputs.
use archived_sweetcomb.Prelude.{true, false, ◌≡◌, refl, some, none, List, [], ◌∷◌, inl, inr}
use archived_sweetcomb.Outcome.{returns}
use archived_sweetcomb.Sysrepo.{
  identityref_t, bool_t, string_val, bool_val, enum_t, ok, apply, abort, verify,
}
use archived_sweetcomb.Interface.{Garbage}
use archived_sweetcomb.Interface.Config.{ietf_interface_create_cb}
use archived_sweetcomb.Interface.Config.Creation.{Leaf}
use archived_sweetcomb.Interface.Config.Edits.{Edit, create_entry, set_enabled, delete_entry}
use archived_sweetcomb.Interface.Config.Sequence.{transacted, all_changes}
use archived_sweetcomb.Interface.Config.Replay.{Follows, create_cb-Follows}
use archived_sweetcomb.Nat.{NatGarbage, NatState, nat_mapping_table_config_cb}
use archived_sweetcomb.Nat.Consistency.{IsConsistent}
use archived_sweetcomb.Nat.Sequence.{
  NatEdit, add_source, delete_mapping, all_changes as all_nat_changes, transacted as nat_transacted,
}
use archived_sweetcomb.Nat.Replay.{mapping_cb-Follows}
use archived_sweetcomb.System.Simulation.{run, replay}
use archived_sweetcomb.System.Transactions.{Transaction}
use archived_sweetcomb.System.Transactions.Interfaces.{
  interface_phases, interface_model, interfaces-replay,
}
use archived_sweetcomb.System.Transactions.Mappings.{mapping_phases, mapping_model, mappings-replay}
use archived_sweetcomb.System.RoundTrips.{interfaces_restored}
use archived_sweetcomb.Tests.{
  Database, memory, memory_laws, memory_nat_laws, paths, session_with, one_interface, all_clear,
  nat_garbage,
}
use archived_sweetcomb.Tests.Interfaces.{eth1, eth1-IsNamed}
use archived_sweetcomb.Tests.Mappings.{
  no_mappings, inside_host, outside_host, source_mapping, source-IsMapping, inside-parsed,
  outside-parsed,
}

-- What is below an entry.
abbrev leaves_gone : List Leaf
leaves_gone =
    record { path = "type"; type = identityref_t; datum = string_val "iana-if-type:ethernetCsmacd" }
    ∷ record { path = "enabled"; type = bool_t; datum = bool_val true }
    ∷ []

-- The leaf enabled of eth0 is set, eth1 is created, and then the entry eth0 is deleted: the object
-- of eth1 is written under the name eth0.
abbrev three_edits : List Edit
three_edits =
    set_enabled "enabled" "eth0" true
    ∷ create_entry eth1
    ∷ delete_entry "interface" "name" "eth0" leaves_gone
    ∷ []

create_cb-Follows_example :
    Follows paths memory memory_laws (transacted memory three_edits one_interface.states) (
      ietf_interface_create_cb paths memory all_clear
        (session_with (all_changes three_edits))
        ""
        verify
        one_interface)
create_cb-Follows_example =
    create_cb-Follows paths memory memory_laws (λ db k i. refl) all_clear
      (session_with (all_changes three_edits)) "" one_interface three_edits (refl, refl, refl)
      (((refl, refl), tt), ((eth1-IsNamed, tt), (((refl, refl, (refl, (refl, tt))), refl), tt)))
      refl refl

-- That transaction is applied, and one that takes eth0 down is aborted.
abbrev three_applied : Transaction Garbage Edit
three_applied = record {
  garbage = all_clear;
  session = session_with (all_changes three_edits);
  xpath = "";
  edits = three_edits;
  ends = apply ∷ [];
}

abbrev down_aborted : Transaction Garbage Edit
down_aborted = record {
  garbage = all_clear;
  session = session_with (all_changes (set_enabled "enabled" "eth0" false ∷ []));
  xpath = "";
  edits = set_enabled "enabled" "eth0" false ∷ [];
  ends = abort ∷ [];
}

interfaces-replay_example :
    (db : Database) × (run
        (interface_phases paths memory)
        (three_applied ∷ down_aborted ∷ [])
        one_interface
      ≡ returns db)
    × (db.states
        ≡ replay
            (interface_model paths memory)
            (three_applied ∷ down_aborted ∷ [])
            one_interface.states)
interfaces-replay_example =
    interfaces-replay paths memory memory_laws (λ db k i. refl) (three_applied ∷ down_aborted ∷ [])
      one_interface
      (
        record {
          clear = (refl, refl, refl);
          valid = (
            ((refl, refl), tt),
            ((eth1-IsNamed, tt), (((refl, refl, (refl, (refl, tt))), refl), tt)),
          );
          ready = refl;
          changed = refl;
          ended = (inl refl, tt);
        },
        (
          record {
            clear = (refl, refl, refl);
            valid = (((refl, refl), tt), tt);
            ready = refl;
            changed = refl;
            ended = (inr refl, tt);
          },
          tt,
        ),
      )

-- The mapping 5 is created, and the entry 6 deleted: the mapping is written at 6.
abbrev clear_garbage : NatGarbage
clear_garbage = record nat_garbage { create = false; remove = false }

abbrev mapping_gone : List Leaf
mapping_gone = record { path = "type"; type = enum_t; datum = string_val "static" } ∷ []

abbrev two_edits : List (NatEdit memory)
two_edits =
    add_source source_mapping inside_host outside_host
    ∷ delete_mapping "mapping-entry" "index" 6 mapping_gone
    ∷ []

mapping_cb-Follows_example :
    (s' : NatState memory) × (nat_mapping_table_config_cb paths memory clear_garbage
        (some (session_with (all_nat_changes memory two_edits)))
        (some "")
        verify
        no_mappings
      ≡ returns (ok, s'))
    × (s'.table ≡ nat_transacted memory two_edits (λ _. none))
    × IsConsistent memory memory_nat_laws s'
mapping_cb-Follows_example =
    mapping_cb-Follows paths memory memory_nat_laws (λ db k ns. refl) clear_garbage
      (session_with (all_nat_changes memory two_edits)) "" no_mappings two_edits (refl, refl)
      ((source-IsMapping, inside-parsed, outside-parsed), ((refl, refl, (refl, tt)), tt)) refl refl
      (λ i. refl)

abbrev edits_applied : Transaction NatGarbage (NatEdit memory)
edits_applied = record {
  garbage = clear_garbage;
  session = session_with (all_nat_changes memory two_edits);
  xpath = "";
  edits = two_edits;
  ends = apply ∷ [];
}

abbrev deletion_applied : Transaction NatGarbage (NatEdit memory)
deletion_applied = record {
  garbage = clear_garbage;
  session =
      session_with
        (all_nat_changes memory (delete_mapping "mapping-entry" "index" 6 mapping_gone ∷ []));
  xpath = "";
  edits = delete_mapping "mapping-entry" "index" 6 mapping_gone ∷ [];
  ends = apply ∷ [];
}

mappings-replay_example :
    (s' : NatState memory) × (run
        (mapping_phases paths memory)
        (edits_applied ∷ deletion_applied ∷ [])
        no_mappings
      ≡ returns s')
    × (s'.table
        ≡ replay (mapping_model paths memory) (edits_applied ∷ deletion_applied ∷ []) (λ _. none))
    × IsConsistent memory memory_nat_laws s'
mappings-replay_example =
    mappings-replay paths memory memory_nat_laws (λ db k ns. refl)
      (edits_applied ∷ deletion_applied ∷ []) no_mappings
      (
        record {
          clear = (refl, refl);
          valid =
              ((source-IsMapping, inside-parsed, outside-parsed), ((refl, refl, (refl, tt)), tt));
          ready = refl;
          changed = refl;
          ended = (inl refl, tt);
        },
        (
          record {
            clear = (refl, refl);
            valid = ((refl, refl, (refl, tt)), tt);
            ready = refl;
            changed = refl;
            ended = (inl refl, tt);
          },
          tt,
        ),
      )
      (λ i. refl)

-- The interface eth1 is created, and the next transaction deletes it.
abbrev eth1_created : Transaction Garbage Edit
eth1_created = record {
  garbage = all_clear;
  session = session_with (all_changes (create_entry eth1 ∷ []));
  xpath = "";
  edits = create_entry eth1 ∷ [];
  ends = apply ∷ [];
}

abbrev eth1_deleted : Transaction Garbage Edit
eth1_deleted = record {
  garbage = all_clear;
  session = session_with (all_changes (delete_entry "interface" "name" "eth1" leaves_gone ∷ []));
  xpath = "";
  edits = delete_entry "interface" "name" "eth1" leaves_gone ∷ [];
  ends = apply ∷ [];
}

interfaces_restored_example :
    (db : Database) × (run
        (interface_phases paths memory)
        (eth1_created ∷ eth1_deleted ∷ [])
        one_interface
      ≡ returns db)
    × (db.states ≡ one_interface.states)
interfaces_restored_example =
    interfaces_restored paths memory memory_laws (λ db k i. refl) eth1_created eth1_deleted eth1
      "interface" "name" leaves_gone one_interface
      (record {
        clear = (refl, refl, refl);
        valid = ((eth1-IsNamed, tt), tt);
        ready = refl;
        changed = refl;
        ended = (inl refl, tt);
      })
      (record {
        clear = (refl, refl, refl);
        valid = (((refl, refl, (refl, (refl, tt))), refl), tt);
        ready = refl;
        changed = refl;
        ended = (inl refl, tt);
      })
      refl refl refl
