-- ===== src/System.antt =====
-- The callbacks of all plugins on one state: they share VOM's database, in which an interface, a
-- binding of an address and a static mapping each stand under a key that is a text. sysrepo calls
-- the callbacks that src/plugins/ietf/ietf_interface.cpp, src/plugins/ietf/ietf_nat.cpp and
-- src/plugins/openconfig/openconfig_interfaces.cpp subscribe one after the other, so a history of
-- the plugin is a sequence of calls.
pub mod Frame
pub mod Tame
pub mod Interfaces
pub mod Addresses
pub mod Reachable
pub mod Collision
pub mod Phases
pub mod Simulation
pub mod Transactions
pub mod RoundTrips
use archived_sweetcomb.Prelude.{ℕ, String, true, ◌≡◌, ◌≢◌, Option, some, All}
use archived_sweetcomb.Outcome.{returns}
use archived_sweetcomb.Sysrepo.{
  SrError, operation_failed, SrEvent, deleted, string_val, SrVal, Change, Session, Xpath,
  node_name_eq,
}
use archived_sweetcomb.Vom.{Vom}
use archived_sweetcomb.Prefix.{decimal}
use archived_sweetcomb.Interface.{Garbage}
use archived_sweetcomb.Interface.Config.{ietf_interface_create_cb}
use archived_sweetcomb.Openconfig.{oc_interfaces_config_cb}
use archived_sweetcomb.Address.{ietf_interface_ipv46_address_change_cb}
use archived_sweetcomb.Nat.{NatGarbage, NatState, nat_mapping_table_config_cb}

-- A text that no number prints to.
abbrev pub IsNotNumber : String → Type 0
IsNotNumber s = (i : ℕ) → decimal i ≢ s

module _ (X : Xpath) where
  -- If the change deletes an interface, the name is not a number.
  abbrev pub DeletesNoNumber : Change → Type 0
  DeletesNoNumber c =
      (v : SrVal) (name : String)
      → c.op ≡ deleted
      → c.old_val ≡ some v
      → node_name_eq X v.xpath "name" ≡ true
      → v.datum ≡ string_val name
      → IsNotNumber name

  module _ (V : Vom) where
    -- A call of one of the four callbacks that returns, from the state before it to the state behind
    -- it.
    pub data Step : NatState V → NatState V → Type 0 where
      interface :
          (g : Garbage) (session : Session) (xpath : String) (event : SrEvent) (s : NatState V)
          (rc : SrError) (db : V.Db)
          → ietf_interface_create_cb X V g session xpath event s.db ≡ returns (rc, db)
          → Step s (record s { db = db })
      oc_interface :
          (g : Garbage) (ds : Option Session) (xpath : Option String) (event : SrEvent)
          (s : NatState V) (rc : SrError) (db : V.Db)
          → oc_interfaces_config_cb X V g ds xpath event s.db ≡ returns (rc, db)
          → Step s (record s { db = db })
      address :
          (session : Session) (xpath : String) (event : SrEvent) (s : NatState V) (rc : SrError)
          (db : V.Db)
          → ietf_interface_ipv46_address_change_cb X V session xpath event s.db ≡ returns (rc, db)
          → Step s (record s { db = db })
      mapping :
          (g : NatGarbage) (ds : Option Session) (xpath : Option String) (event : SrEvent)
          (s : NatState V) (rc : SrError) (s' : NatState V)
          → nat_mapping_table_config_cb X V g ds xpath event s ≡ returns (rc, s')
          → Step s s'

    -- A history: calls one after the other.
    pub data History : NatState V → NatState V → Type 0 where
      start : (s : NatState V) → History s s
      then : (s s' s'' : NatState V) → History s s' → Step s' s'' → History s s''

    -- No change of an OpenConfig session deletes an interface with a number for its name.
    abbrev pub OcDeletesNoNumber : Option Session → Option String → Type 0
    OcDeletesNoNumber (some session) (some path) = All DeletesNoNumber (session.changes path)
    OcDeletesNoNumber _ _ = Unit

    -- A call that deletes no interface with a number for its name and is not refused by VOM.
    abbrev pub IsHarmless : (s s' : NatState V) → Step s s' → Type 0
    IsHarmless _ _ (interface g session xpath event s rc db e) =
        All DeletesNoNumber (session.changes xpath)
    IsHarmless _ _ (oc_interface g ds xpath event s rc db e) = OcDeletesNoNumber ds xpath
    IsHarmless _ _ (address session xpath event s rc db e) = Unit
    IsHarmless _ _ (mapping g ds xpath event s rc s' e) = rc ≢ operation_failed

    abbrev pub AllHarmless : (s s' : NatState V) → History s s' → Type 0
    AllHarmless _ _ (start s) = Unit
    AllHarmless _ _ (then s s' s'' before step) = AllHarmless s s' before × IsHarmless s' s'' step
