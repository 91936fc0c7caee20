-- ===== src/Interface.antt =====
-- What the interface plugins of both YANG families share: the class interface_builder (the same
-- text stands in src/plugins/ietf/ietf_interface.cpp and
-- src/plugins/openconfig/openconfig_interfaces.cpp), the variables of a configuration callback and
-- the commit that follows its loop over the changes.
pub mod Config
pub mod Laws
use archived_sweetcomb.Prelude.{
  ℕ, String, ◌<>◌, Bool, true, false, ◌||◌, Option, none, some, ◌==◌, if◌then◌else◌, is_empty,
}
use archived_sweetcomb.Outcome.{Outcome, returns, crash, ◌>>=◌}
use archived_sweetcomb.Sysrepo.{SrError, ok, inval_arg, operation_failed}
use archived_sweetcomb.Vom.{Vom}

-- Conversion of a bool to an int.
abbrev pub int_of_bool : Bool → ℕ
int_of_bool true = 1
int_of_bool false = 0

pub record InterfaceBuilder : Type 0 where
  pub m_name : String
  pub m_type : String
  pub m_state : Bool

-- What the stack holds where the code leaves a variable uninitialised: the flags of a callback and
-- the member m_state of its builder.
pub record Garbage : Type 0 where
  pub create : Bool
  pub remove : Bool
  pub modify : Bool
  pub state : Bool

-- `interface_builder() {}`: the texts are empty and m_state is not set.
unfoldable pub fresh_builder : Bool → InterfaceBuilder
fresh_builder garbage = record { m_name = ""; m_type = ""; m_state = garbage }

-- `name` and `to_string`
abbrev pub builder_name : InterfaceBuilder → String
builder_name b = b.m_name

unfoldable pub builder_to_string : InterfaceBuilder → String
builder_to_string b = b.m_name <> ("," <> (b.m_type <> ("," <> (if b.m_state then "1" else "0"))))

unfoldable pub set_name : InterfaceBuilder → String → InterfaceBuilder
set_name b n = record b { m_name = n }

unfoldable pub set_type : InterfaceBuilder → String → InterfaceBuilder
set_type b t = if t == "iana-if-type:ethernetCsmacd" then (record b { m_type = "ETHERNET" }) else b

unfoldable pub set_state : InterfaceBuilder → Bool → InterfaceBuilder
set_state b enable = record b { m_state = enable }

module _ (V : Vom) where
  unfoldable pub build : InterfaceBuilder → Option V.Interface
  build b =
      if is_empty b.m_name || is_empty b.m_type
      then none
      else some (
          V.interface b.m_name (V.type_from_string b.m_type)
            (V.admin_from_int (int_of_bool b.m_state)))

  -- A shared_ptr<interface>: null, one of the database's objects, or a new object.
  pub data InterfacePtr : Type 0 where
    null : InterfacePtr
    shared : V.InterfaceRef → InterfacePtr
    fresh : V.Interface → InterfacePtr

  -- `*intf`, in the state of the database at that time
  unfoldable pub read_interface : V.Db → InterfacePtr → Outcome V.Interface
  read_interface db null = crash
  read_interface db (shared r) = returns (V.pointee db r)
  read_interface db (fresh i) = returns i

  -- The variables of a configuration callback, and the database.
  pub record Locals : Type 0 where
    pub db : V.Db
    pub builder : InterfaceBuilder
    pub intf : InterfacePtr
    pub create : Bool
    pub remove : Bool
    pub modify : Bool

  -- How a round of the loop ends: with the next change, or by `goto nothing_todo`.
  pub data Round : Type 0 where
    continue : Locals → Round
    nothing_todo : SrError → V.Db → Round

  -- What follows a round: the rest of the loop, or `goto nothing_todo`.
  abbrev pub go_on : (Locals → Outcome Round) → Round → Outcome Round
  go_on rest (continue l) = rest l
  go_on rest (nothing_todo rc db) = returns (nothing_todo rc db)

  -- `OM::write(intf->key(), *intf)` and its check
  unfoldable pub write_intf : V.Db → InterfacePtr → Outcome (SrError × V.Db)
  unfolding read_interface
  write_intf db p = do
    i ← read_interface db p
    let (db', done) = V.write_interface db (V.key i) i
    returns (if done then ok else operation_failed, db')

  -- From `if (create)` behind the loop to the end.
  unfoldable pub commit : Locals → Outcome (SrError × V.Db)
  unfolding build write_intf
  commit l =
      if l.create
      then elim (build l.builder) [
        | none ↦ returns (inval_arg, l.db)
        | some i ↦ write_intf l.db (fresh i)
      ]
      else if l.modify
      then write_intf l.db l.intf
      else if l.remove
      then returns (ok, V.remove l.db (builder_name l.builder))
      else returns (ok, l.db)

  unfoldable pub finish : Round → Outcome (SrError × V.Db)
  unfolding commit
  finish (continue l) = commit l
  finish (nothing_todo rc db) = returns (rc, db)

  unfoldable pub start : Garbage → V.Db → Locals
  unfolding fresh_builder
  start g db = record {
    db = db;
    builder = fresh_builder g.state;
    intf = null;
    create = g.create;
    remove = g.remove;
    modify = g.modify;
  }
