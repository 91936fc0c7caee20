-- ===== src/Address/Additions.antt =====
-- What the callback for addresses does with the changes that add addresses to an interface: the
-- entry of the list, its leaf ip, and its leaf prefix-length.
use archived_sweetcomb.Prelude.{
  ℕ, String, true, false, ◌≡◌, refl, ◌∙◌, some, List, [], ◌∷◌, ◌++◌, is_empty, All,
}
use archived_sweetcomb.Outcome.{returns}
use archived_sweetcomb.Sysrepo.{
  SrError, ok, verify, list_t, string_t, uint8_t, no_data, string_val, uint8_val, Change, Session,
  Xpath, foreach_change,
}
use archived_sweetcomb.Vom.{Vom}
use archived_sweetcomb.Interface.Config.Creation.{creation}
use archived_sweetcomb.Address.{
  AddressState, parse_change, new_or_old_xpath, ipv46_config_add_remove, delete_old, add_new,
  initial, on_change, on_changes, ietf_interface_ipv46_address_change_cb,
}

-- A new address: the XPaths of its entry and of its two leaves, its text and its length.
pub record NewAddress : Type 0 where
  pub entry_path : String
  pub ip_path : String
  pub length_path : String
  pub ip : String
  pub prefix_length : ℕ

abbrev pub additions : NewAddress → List Change
additions a =
    creation a.entry_path list_t no_data
    ∷ creation a.ip_path string_t (string_val a.ip)
    ∷ creation a.length_path uint8_t (uint8_val a.prefix_length)
    ∷ []

abbrev pub all_additions : List NewAddress → List Change
all_additions [] = []
all_additions (a ∷ rest) = additions a ++ all_additions rest

-- The paths lead to the nodes that they stand for, inside the interface.
pub record IsAddressOf (X : Xpath) (if_name : String) (a : NewAddress) : Type 0 where
  pub entry_in : X.key_value a.entry_path "interface" "name" ≡ some if_name
  pub ip_in : X.key_value a.ip_path "interface" "name" ≡ some if_name
  pub length_in : X.key_value a.length_path "interface" "name" ≡ some if_name
  pub ip_node : X.node_name a.ip_path ≡ "ip"
  pub length_node : X.node_name a.length_path ≡ "prefix-length"
  pub nonempty : is_empty a.ip ≡ false

-- The bindings that the callback asks VOM for, in this order: each address first with the length
-- that the variable new_prefix still holds, and then with its own.
abbrev pub bindings : ℕ → List NewAddress → List (String × ℕ)
bindings stale [] = []
bindings stale (a ∷ rest) = (a.ip, stale) ∷ (a.ip, a.prefix_length) ∷ bindings a.prefix_length rest

module _ (V : Vom) (if_name : String) where
  -- Adding bindings one after the other; the answer is that of the last one.
  abbrev pub add_all : List (String × ℕ) → SrError × V.Db → SrError × V.Db
  add_all [] (rc, db) = (rc, db)
  add_all ((ip, length) ∷ rest) (rc, db) =
      add_all rest (ipv46_config_add_remove V if_name ip length true db)

module _ (X : Xpath) (V : Vom) (if_name : String) (named : is_empty if_name ≡ false) where
  -- The state behind a binding that is added.
  abbrev added : AddressState V → AddressState V
  added s =
      let r = ipv46_config_add_remove V s.if_name s.new_addr s.new_prefix true s.db in
      record s { db = r.1; op_rc = r.0 }

  module _ (s : AddressState V) (rest : List Change) (fresh : s.del ≡ false) where
    on_changes-entry :
        (path : String)
        → X.key_value path "interface" "name" ≡ some if_name
        → on_changes X V s (creation path list_t no_data ∷ rest)
          ≡ on_changes X V (record s { if_name = if_name; new_addr = ""; create = true }) rest
    unfolding on_changes on_change new_or_old_xpath parse_change delete_old add_new
    on_changes-entry path h = rw (h, named, fresh) refl

    on_changes-ip :
        (path ip : String)
        → X.key_value path "interface" "name" ≡ some if_name
        → X.node_name path ≡ "ip"
        → is_empty ip ≡ false
        → on_changes X V s (creation path string_t (string_val ip) ∷ rest)
          ≡ on_changes X V
              (added (record s { if_name = if_name; new_addr = ip; create = true }))
              rest
    unfolding on_changes on_change new_or_old_xpath parse_change delete_old add_new
    on_changes-ip path ip h node full = rw (h, named, node, fresh, full) refl

    on_changes-length :
        (path : String) (length : ℕ)
        → X.key_value path "interface" "name" ≡ some if_name
        → X.node_name path ≡ "prefix-length"
        → is_empty s.new_addr ≡ false
        → on_changes X V s (creation path uint8_t (uint8_val length) ∷ rest)
          ≡ on_changes X V
              (added (record s { if_name = if_name; new_prefix = length; create = true }))
              rest
    unfolding on_changes on_change new_or_old_xpath parse_change delete_old add_new
    on_changes-length path length h node full = rw (h, named, node, fresh, full) refl

  -- The additions make the bindings, whatever the state was.
  on_changes-all_additions :
      (new : List NewAddress) (s : AddressState V)
      → All (IsAddressOf X if_name) new
      → s.del ≡ false
      → on_changes X V s (all_additions new)
        ≡ returns (add_all V if_name (bindings s.new_prefix new) (s.op_rc, s.db))
  unfolding on_changes
  on_changes-all_additions [] s h fresh = refl
  on_changes-all_additions (a ∷ rest) s h fresh =
      let s1 : AddressState V = record s { if_name = if_name; new_addr = ""; create = true } in
      let s2 : AddressState V = added (record s1 { new_addr = a.ip }) in
      let s3 : AddressState V = added (record s2 { new_prefix = a.prefix_length }) in
      let more = all_additions rest in
      let last = creation a.length_path uint8_t (uint8_val a.prefix_length) ∷ more in
      on_changes-entry s (creation a.ip_path string_t (string_val a.ip) ∷ last) fresh a.entry_path
        h.0.entry_in
      ∙ on_changes-ip s1 last fresh a.ip_path a.ip h.0.ip_in h.0.ip_node h.0.nonempty
      ∙ on_changes-length s2 more fresh a.length_path a.prefix_length h.0.length_in h.0.length_node
          h.0.nonempty
      ∙ on_changes-all_additions rest s3 h.1 fresh

  -- When the changes of a verified transaction add addresses to one interface, the callback asks VOM
  -- for two bindings of each: first with the prefix length of the address before it (0 for the first
  -- address), then with its own. It answers what the last of these requests answered.
  pub address_change_cb-additions :
      (new : List NewAddress) (session : Session) (xpath : String) (db : V.Db)
      → All (IsAddressOf X if_name) new
      → session.get_changes_iter xpath ≡ ok
      → session.changes xpath ≡ all_additions new
      → ietf_interface_ipv46_address_change_cb X V session xpath verify db
        ≡ returns (add_all V if_name (bindings 0 new) (ok, db))
  unfolding ietf_interface_ipv46_address_change_cb foreach_change initial
  address_change_cb-additions new session xpath db h ready e =
      rw (ready, e) (on_changes-all_additions new (initial V db) h refl)
