-- ===== src/Address.antt =====
-- The callback for addresses of src/plugins/ietf/ietf_interface.cpp: ipv46_config_add_remove,
-- parse_interface_ipv46_address and ietf_interface_ipv46_address_change_cb. A C++ exception that is
-- thrown inside the try block of a round is caught there, and what was assigned before it stays.
pub mod Additions
pub mod Removals
pub mod Lengths
pub mod Sequence
pub mod Operations
pub mod Replay
pub mod Moves
pub mod Gone
pub mod Store
pub mod Total
use archived_sweetcomb.Prelude.{
  ℕ, String, ◌<>◌, Bool, true, false, not, ◌&&◌, Option, none, some, List, [], ◌∷◌, if◌then◌else◌,
  is_empty,
}
use archived_sweetcomb.Outcome.{Outcome, returns, throws, crash, ◌>>=◌, deref, or_throw}
use archived_sweetcomb.Sysrepo.{
  SrError, ok, inval_arg, operation_failed, is_ok, SrEvent, is_apply, created, modified, deleted,
  moved, SrType, list_t, SrVal, read_string, read_uint8, Change, Session, Xpath, node_name_eq,
  foreach_change,
}
use archived_sweetcomb.Vom.{Vom}
use archived_sweetcomb.Netmask.{netmask_to_plen}

-- `SR_LIST_T == val->type`
abbrev is_list : SrType → Bool
is_list list_t = true
is_list _ = false

-- `new_val ? new_val->xpath : old_val->xpath`
unfoldable pub new_or_old_xpath : Change → Outcome String
new_or_old_xpath c = elim c.new_val [
  | some v ↦ returns v.xpath
  | none ↦ elim c.old_val [ some v ↦ returns v.xpath | none ↦ crash ]
]

-- `catch (std::exception &exc)`, which goes on with the state s.
abbrev pub catch {ℓ} : {S : Type ℓ} → S → Outcome S → Outcome S
catch s (returns s') = returns s'
catch s throws = returns s
catch s crash = crash

module _ (V : Vom) where
  -- The macro KEY.
  unfoldable pub l3_key : V.L3Binding → String
  l3_key l3 = "l3_" <> (V.name (V.l3_itf l3) <> ("_" <> V.prefix_to_string (V.l3_prefix l3)))

  unfoldable pub ipv46_config_add_remove : String → String → ℕ → Bool → V.Db → SrError × V.Db
  ipv46_config_add_remove if_name addr prefix add db = elim (V.find db if_name) [
    | none ↦ (inval_arg, db)
    | some intf ↦ elim (V.prefix_t addr prefix) [
      | none ↦ (operation_failed, db)
      | some pfx ↦
          let l3 = V.l3_binding (V.pointee db intf) pfx in
          if add
          then (let (db', done) = V.write_l3 db (l3_key l3) l3 in
              (if done then ok else operation_failed, db'))
          else (ok, V.remove db (l3_key l3))
    ]
  ]

  -- The variables of the callback, and the database.
  pub record AddressState : Type 0 where
    pub db : V.Db
    pub if_name : String
    pub new_addr : String
    pub old_addr : String
    pub new_prefix : ℕ
    pub old_prefix : ℕ
    pub op_rc : SrError
    pub create : Bool
    pub del : Bool

  unfoldable pub initial : V.Db → AddressState
  initial db = record {
    db = db;
    if_name = "";
    new_addr = "";
    old_addr = "";
    new_prefix = 0;
    old_prefix = 0;
    op_rc = ok;
    create = false;
    del = false;
  }

  -- `if (del && !old_addr.empty())`
  unfoldable pub delete_old : AddressState → AddressState
  delete_old s =
      if s.del && not (is_empty s.old_addr)
      then (let (rc, db') = ipv46_config_add_remove s.if_name s.old_addr s.old_prefix false s.db in
          record s { db = db'; op_rc = rc })
      else s

  -- `if (create && !new_addr.empty())`
  unfoldable pub add_new : AddressState → AddressState
  add_new s =
      if s.create && not (is_empty s.new_addr)
      then (let (rc, db') = ipv46_config_add_remove s.if_name s.new_addr s.new_prefix true s.db in
          record s { db = db'; op_rc = rc })
      else s

-- How a round of the loop ends: with the next change, or by `goto nothing_todo`.
pub data AddressRound (V : Vom) : Type 0 where
  continue : AddressState V → AddressRound V
  nothing_todo : SrError → V.Db → AddressRound V

module _ (V : Vom) where
  -- What follows a round: the rest of the loop, or the return behind `nothing_todo`.
  abbrev pub next_round :
      (AddressState V → Outcome (SrError × V.Db)) → AddressRound V → Outcome (SrError × V.Db)
  next_round rest (continue s) = rest s
  next_round rest (nothing_todo rc db) = returns (rc, db)

module _ (X : Xpath) (V : Vom) where
  -- The text and the length behind the call, from those before it.
  unfoldable pub parse_interface_ipv46_address : Option SrVal → String → ℕ → Outcome (String × ℕ)
  parse_interface_ipv46_address none addr prefix = throws
  parse_interface_ipv46_address (some val) addr prefix =
      if is_list val.type
      then returns ("", prefix)
      else if node_name_eq X val.xpath "ip"
      then (do text ← read_string val; returns (text, prefix))
      else if node_name_eq X val.xpath "prefix-length"
      then (do length ← read_uint8 val; returns (addr, length))
      else if node_name_eq X val.xpath "netmask"
      then (do
        text ← read_string val
        netmask ← or_throw (V.from_string text)
        length ← netmask_to_plen V netmask
        returns (addr, length))
      else returns (addr, prefix)

  unfoldable pub parse_new : AddressState V → Option SrVal → Outcome (AddressState V)
  unfolding parse_interface_ipv46_address
  parse_new s val = do
    parsed ← parse_interface_ipv46_address val s.new_addr s.new_prefix
    returns (record s { new_addr = parsed.0; new_prefix = parsed.1 })

  unfoldable pub parse_old : AddressState V → Option SrVal → Outcome (AddressState V)
  unfolding parse_interface_ipv46_address
  parse_old s val = do
    parsed ← parse_interface_ipv46_address val s.old_addr s.old_prefix
    returns (record s { old_addr = parsed.0; old_prefix = parsed.1 })

  -- The try block with its switch over the operation.
  unfoldable pub parse_change : AddressState V → Change → Outcome (AddressState V)
  unfolding parse_new parse_old
  parse_change s c = elim c.op [
    | created ↦
        let s1 : AddressState V = record s { create = true } in catch s1 (parse_new s1 c.new_val)
    | modified ↦
        let s1 : AddressState V = record s { create = true; del = true } in
        catch s1 (parse_old s1 c.old_val >>= λ s2. catch s2 (parse_new s2 c.new_val))
    | deleted ↦
        let s1 : AddressState V = record s { del = true } in catch s1 (parse_old s1 c.old_val)
    | moved ↦ returns s
  ]

  unfoldable pub on_change : AddressState V → Change → Outcome (AddressRound V)
  unfolding new_or_old_xpath parse_change delete_old add_new
  on_change s c = do
    xpath ← new_or_old_xpath c
    if_name ← deref (X.key_value xpath "interface" "name")
    (if is_empty if_name then returns (nothing_todo operation_failed s.db) else (do
      s' ← parse_change (record s { if_name = if_name }) c
      returns (continue (add_new V (delete_old V s')))))

  -- The loop, and the returns behind it.
  unfoldable pub on_changes : AddressState V → List Change → Outcome (SrError × V.Db)
  on_changes s [] = returns (s.op_rc, s.db)
  on_changes s (c ∷ cs) = do round ← on_change s c; next_round V (λ s'. on_changes s' cs) round

  unfoldable pub ietf_interface_ipv46_address_change_cb :
      Session → String → SrEvent → V.Db → Outcome (SrError × V.Db)
  unfolding on_changes initial
  ietf_interface_ipv46_address_change_cb session xpath event db =
      let rc = session.get_changes_iter xpath in
      if is_apply event
      then returns (ok, db)
      else if not (is_ok rc)
      then returns (rc, db)
      else on_changes (initial V db) (foreach_change event (session.changes xpath))
