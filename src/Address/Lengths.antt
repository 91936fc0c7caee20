-- ===== src/Address/Lengths.antt =====
-- What the callback for addresses does with the changes that give addresses another prefix length,
-- and in the phases in which it does nothing.
use archived_sweetcomb.Prelude.{
  ℕ, String, not, true, false, ◌≡◌, refl, ◌∙◌, some, List, [], ◌∷◌, map, if◌then◌else◌, is_empty,
  All,
}
use archived_sweetcomb.Outcome.{Outcome, returns}
use archived_sweetcomb.Sysrepo.{
  SrError, ok, is_ok, modified, abort, apply, verify, uint8_t, uint8_val, Change, Session, Xpath,
  foreach_change,
}
use archived_sweetcomb.Vom.{Vom}
use archived_sweetcomb.Address.{
  AddressState, parse_change, new_or_old_xpath, delete_old, add_new, initial, on_change, on_changes,
  ietf_interface_ipv46_address_change_cb,
}

same_answer {ℓ} :
    {D : Type ℓ} (rc : SrError) (db : D)
    → if◌then◌else◌ {A = Outcome (SrError × D)}
        (not (is_ok rc))
        (returns (rc, db))
        (returns (ok, db))
      ≡ returns (rc, db)
same_answer ok db = refl
same_answer _ db = refl

-- A new prefix length: the interface, the path of the leaf, the length before and the length after.
pub record NewLength : Type 0 where
  pub if_name : String
  pub path : String
  pub before : ℕ
  pub later : ℕ

abbrev pub length_change : NewLength → Change
length_change n = record {
  op = modified;
  old_val = some (record { xpath = n.path; type = uint8_t; datum = uint8_val n.before });
  new_val = some (record { xpath = n.path; type = uint8_t; datum = uint8_val n.later });
}

pub record IsLengthOf (X : Xpath) (n : NewLength) : Type 0 where
  pub inside : X.key_value n.path "interface" "name" ≡ some n.if_name
  pub named : is_empty n.if_name ≡ false
  pub node : X.node_name n.path ≡ "prefix-length"

module _ (X : Xpath) (V : Vom) where
  on_changes-length_change :
      (n : NewLength) (s : AddressState V) (rest : List Change)
      → IsLengthOf X n
      → s.new_addr ≡ ""
      → s.old_addr ≡ ""
      → on_changes X V s (length_change n ∷ rest)
        ≡ on_changes X V
            (record s {
              if_name = n.if_name;
              new_prefix = n.later;
              old_prefix = n.before;
              create = true;
              del = true;
            })
            rest
  unfolding on_changes on_change new_or_old_xpath parse_change delete_old add_new
  on_changes-length_change n s rest h no_new no_old =
      rw (h.inside, h.named, h.node, no_new, no_old) refl

  on_changes-length_changes :
      (ns : List NewLength) (s : AddressState V)
      → All (IsLengthOf X) ns
      → s.new_addr ≡ ""
      → s.old_addr ≡ ""
      → on_changes X V s (map length_change ns) ≡ returns (s.op_rc, s.db)
  unfolding on_changes
  on_changes-length_changes [] s h no_new no_old = refl
  on_changes-length_changes (n ∷ ns) s h no_new no_old =
      on_changes-length_change n s (map length_change ns) h.0 no_new no_old
      ∙ on_changes-length_changes ns _ h.1 no_new no_old

  module _ (session : Session) (xpath : String) (db : V.Db) where
    -- A verified transaction that only gives addresses, however many, another prefix length is
    -- answered with SR_ERR_OK, and nothing is asked of VOM: its database stays as it was.
    pub address_change_cb-lengths :
        (ns : List NewLength)
        → All (IsLengthOf X) ns
        → session.get_changes_iter xpath ≡ ok
        → session.changes xpath ≡ map length_change ns
        → ietf_interface_ipv46_address_change_cb X V session xpath verify db ≡ returns (ok, db)
    unfolding ietf_interface_ipv46_address_change_cb foreach_change initial
    address_change_cb-lengths ns h ready e =
        rw (ready, e) (on_changes-length_changes ns (initial V db) h refl refl)

    -- In the phases SR_EV_APPLY and SR_EV_ABORT the callback leaves VOM's database alone, whatever
    -- the changes are: it answers SR_ERR_OK when a transaction is applied, and when one is aborted
    -- the code of the change iterator.
    pub address_change_cb_inert :
        (ietf_interface_ipv46_address_change_cb X V session xpath apply db ≡ returns (ok, db))
        × (ietf_interface_ipv46_address_change_cb X V session xpath abort db
            ≡ returns (session.get_changes_iter xpath, db))
    unfolding ietf_interface_ipv46_address_change_cb foreach_change initial on_changes
    address_change_cb_inert = (refl, same_answer (session.get_changes_iter xpath) db)
