-- ===== src/Address/Removals.antt =====
-- What the callback for addresses does with the changes that remove addresses from an interface.
use archived_sweetcomb.Prelude.{
  ℕ, String, true, false, ◌≡◌, refl, ◌∙◌, some, List, [], ◌∷◌, ◌++◌, is_empty, All,
}
use archived_sweetcomb.Outcome.{returns}
use archived_sweetcomb.Sysrepo.{
  SrError, ok, verify, list_t, string_t, uint8_t, no_data, string_val, uint8_val, Change, Session,
  Xpath, foreach_change,
}
use archived_sweetcomb.Vom.{Vom}
use archived_sweetcomb.Address.{
  AddressState, parse_change, new_or_old_xpath, ipv46_config_add_remove, delete_old, add_new,
  initial, on_change, on_changes, ietf_interface_ipv46_address_change_cb,
}
use archived_sweetcomb.Interface.Config.Creation.{deletion}
use archived_sweetcomb.Address.Additions.{NewAddress, IsAddressOf, bindings}

-- The changes that sysrepo reports for an address that is gone.
abbrev pub removals : NewAddress → List Change
removals a =
    deletion a.entry_path list_t no_data
    ∷ deletion a.ip_path string_t (string_val a.ip)
    ∷ deletion a.length_path uint8_t (uint8_val a.prefix_length)
    ∷ []

abbrev pub all_removals : List NewAddress → List Change
all_removals [] = []
all_removals (a ∷ rest) = removals a ++ all_removals rest

module _ (V : Vom) (if_name : String) where
  -- Removing bindings one after the other; the answer is that of the last one.
  abbrev pub remove_all : List (String × ℕ) → SrError × V.Db → SrError × V.Db
  remove_all [] (rc, db) = (rc, db)
  remove_all ((ip, length) ∷ rest) (rc, db) =
      remove_all rest (ipv46_config_add_remove V if_name ip length false db)

module _ (X : Xpath) (V : Vom) (if_name : String) (named : is_empty if_name ≡ false) where
  -- The state behind a binding that is removed.
  abbrev removed : AddressState V → AddressState V
  removed s =
      let r = ipv46_config_add_remove V s.if_name s.old_addr s.old_prefix false s.db in
      record s { db = r.1; op_rc = r.0 }

  module _ (s : AddressState V) (rest : List Change) (settled : s.create ≡ false) where
    on_changes-entry :
        (path : String)
        → X.key_value path "interface" "name" ≡ some if_name
        → on_changes X V s (deletion path list_t no_data ∷ rest)
          ≡ on_changes X V (record s { if_name = if_name; old_addr = ""; del = true }) rest
    unfolding on_changes on_change new_or_old_xpath parse_change delete_old add_new
    on_changes-entry path h = rw (h, named, settled) refl

    on_changes-ip :
        (path ip : String)
        → X.key_value path "interface" "name" ≡ some if_name
        → X.node_name path ≡ "ip"
        → is_empty ip ≡ false
        → on_changes X V s (deletion path string_t (string_val ip) ∷ rest)
          ≡ on_changes X V
              (removed (record s { if_name = if_name; old_addr = ip; del = true }))
              rest
    unfolding on_changes on_change new_or_old_xpath parse_change delete_old add_new
    on_changes-ip path ip h node full = rw (h, named, node, settled, full) refl

    on_changes-length :
        (path : String) (length : ℕ)
        → X.key_value path "interface" "name" ≡ some if_name
        → X.node_name path ≡ "prefix-length"
        → is_empty s.old_addr ≡ false
        → on_changes X V s (deletion path uint8_t (uint8_val length) ∷ rest)
          ≡ on_changes X V
              (removed (record s { if_name = if_name; old_prefix = length; del = true }))
              rest
    unfolding on_changes on_change new_or_old_xpath parse_change delete_old add_new
    on_changes-length path length h node full = rw (h, named, node, settled, full) refl

  on_changes-all_removals :
      (old : List NewAddress) (s : AddressState V)
      → All (IsAddressOf X if_name) old
      → s.create ≡ false
      → on_changes X V s (all_removals old)
        ≡ returns (remove_all V if_name (bindings s.old_prefix old) (s.op_rc, s.db))
  unfolding on_changes
  on_changes-all_removals [] s h settled = refl
  on_changes-all_removals (a ∷ rest) s h settled =
      let s1 : AddressState V = record s { if_name = if_name; old_addr = ""; del = true } in
      let s2 : AddressState V = removed (record s1 { old_addr = a.ip }) in
      let s3 : AddressState V = removed (record s2 { old_prefix = a.prefix_length }) in
      let more = all_removals rest in
      let last = deletion a.length_path uint8_t (uint8_val a.prefix_length) ∷ more in
      on_changes-entry s (deletion a.ip_path string_t (string_val a.ip) ∷ last) settled a.entry_path
        h.0.entry_in
      ∙ on_changes-ip s1 last settled a.ip_path a.ip h.0.ip_in h.0.ip_node h.0.nonempty
      ∙ on_changes-length s2 more settled a.length_path a.prefix_length h.0.length_in
          h.0.length_node h.0.nonempty
      ∙ on_changes-all_removals rest s3 h.1 settled

  -- When the changes of a verified transaction remove addresses from one interface, the callback
  -- removes two bindings of each from VOM: first that with the prefix length of the address before
  -- it (0 for the first address), then that with its own. It answers what the last removal
  -- answered.
  pub address_change_cb-removals :
      (old : List NewAddress) (session : Session) (xpath : String) (db : V.Db)
      → All (IsAddressOf X if_name) old
      → session.get_changes_iter xpath ≡ ok
      → session.changes xpath ≡ all_removals old
      → ietf_interface_ipv46_address_change_cb X V session xpath verify db
        ≡ returns (remove_all V if_name (bindings 0 old) (ok, db))
  unfolding ietf_interface_ipv46_address_change_cb foreach_change initial
  address_change_cb-removals old session xpath db h ready e =
      rw (ready, e) (on_changes-all_removals old (initial V db) h refl)
