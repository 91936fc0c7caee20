-- ===== src/Tests/Interfaces.antt =====
-- The theorems on the callbacks for interfaces, at concrete transactions.
use archived_sweetcomb.Prelude.{true, false, ◌≡◌, refl, none, some, [], ◌∷◌, ◌++◌}
use archived_sweetcomb.Outcome.{returns}
use archived_sweetcomb.Sysrepo.{ok, verify, modified, bool_t, bool_val}
use archived_sweetcomb.Interface.Config.{ietf_interface_create_cb}
use archived_sweetcomb.Interface.Config.Creation.{
  NewInterface, IsNamed, creations, create_cb-creations,
}
use archived_sweetcomb.Interface.Config.Edits.{Edit, set_enabled, changes_of}
use archived_sweetcomb.Openconfig.{oc_interfaces_config_cb}
use archived_sweetcomb.Openconfig.Changes.{IsInside, oc_config_cb-eq-create_cb}
use archived_sweetcomb.Tests.{
  memory, paths, session_with, empty_db, one_interface, put, all_set, all_clear,
}

abbrev pub eth1 : NewInterface
eth1 = record {
  entry_path = "interface";
  name_path = "name";
  type_path = "type";
  enabled_path = "enabled";
  name = "eth1";
  type = "iana-if-type:ethernetCsmacd";
  enabled = true;
}

abbrev eth2 : NewInterface
eth2 = record eth1 { name = "eth2"; type = "iana-if-type:softwareLoopback" }

pub eth1-IsNamed : IsNamed paths eth1
eth1-IsNamed = record {
  entry_node = refl;
  name_node = refl;
  type_node = refl;
  enabled_node = refl;
  nonempty = refl;
}

eth2-IsNamed : IsNamed paths eth2
eth2-IsNamed = record {
  entry_node = refl;
  name_node = refl;
  type_node = refl;
  enabled_node = refl;
  nonempty = refl;
}

-- Two interfaces in one transaction: only the second one is written.
create_cb-creations_example :
    ietf_interface_create_cb paths memory all_set
      (session_with (creations eth1 ++ creations eth2))
      ""
      verify
      empty_db
    ≡ returns (ok, record empty_db { states = put (λ _. none) "eth2" (some 1) })
create_cb-creations_example =
    create_cb-creations paths memory all_set (session_with (creations eth1 ++ creations eth2)) ""
      empty_db (eth1 ∷ []) eth2 (eth1-IsNamed, tt) eth2-IsNamed refl refl

abbrev enable_eth0 : Edit
enable_eth0 = set_enabled "enabled" "eth0" true

oc_config_cb-eq-create_cb_example :
    oc_interfaces_config_cb paths memory all_clear
      (some (session_with (changes_of enable_eth0)))
      (some "")
      verify
      one_interface
    ≡ ietf_interface_create_cb paths memory all_clear
        (session_with (changes_of enable_eth0))
        ""
        verify
        one_interface
oc_config_cb-eq-create_cb_example =
    oc_config_cb-eq-create_cb paths memory all_clear (session_with (changes_of enable_eth0)) ""
      one_interface refl (inside, tt)
  where
    inside : IsInside paths (record {
      op = modified;
      old_val = some (record { xpath = "enabled"; type = bool_t; datum = bool_val false });
      new_val = some (record { xpath = "enabled"; type = bool_t; datum = bool_val true });
    })
    inside = record {
      ne = record { xpath = "enabled"; type = bool_t; datum = bool_val true };
      if_name = "eth0";
      present = refl;
      inside = refl;
      named = refl;
    }
