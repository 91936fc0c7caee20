-- ===== src/Address/Total.antt =====
-- That the callback for addresses returns: no exception leaves it, and on which changes it reads no
-- null pointer and no other member of a union than the one stored.
use mathlib.Core.Path.{subst}
use archived_sweetcomb.Prelude.{
  sym, not, if◌then◌else◌, ℕ, String, true, false, ◌≡◌, refl, Option, none, some, List, [], ◌∷◌,
  All, if-ind, Bool-cases, Option-cases, inl, inr, is_empty,
}
use archived_sweetcomb.Outcome.{
  Outcome, or_throw, returns, throws, crash, ◌>>=◌, Returns, Returns-some, Returns-bind, Survives,
  Survives-bind,
}
use archived_sweetcomb.Sysrepo.{
  string_val, read_string, SrError, is_ok, SrEvent, verify, apply, abort, created, modified,
  deleted, moved, SrOper, SrVal, HasString, HasUint8, Change, Session, Xpath, node_name_eq,
  foreach_change,
}
use archived_sweetcomb.Vom.{Vom, Octets}
use archived_sweetcomb.Netmask.{netmask_to_plen}
use archived_sweetcomb.Netmask.Masks.{IsOctets, netmask_to_plen-IsBitLength}
use archived_sweetcomb.Address.{
  is_list, catch, AddressState, AddressRound, continue, nothing_todo, next_round, initial,
  parse_interface_ipv46_address, parse_new, parse_old, parse_change, new_or_old_xpath, on_change,
  on_changes, ietf_interface_ipv46_address_change_cb,
}

-- inet_pton stores octets.
abbrev pub StoresOctets : Vom → Type 0
StoresOctets V = (text : String) (o : Octets) → V.inet_pton text ≡ some o → IsOctets o

module _ (X : Xpath) (V : Vom) where
  abbrev pub HasNetmask : SrVal → Type 0
  HasNetmask v =
      (text : String) × (v.datum ≡ string_val text)
      × ((a : V.Address) → V.from_string text ≡ some a → V.is_v4 a ≡ true)

  -- What sysrepo promises of a value: an entry of the list has no member, and the leaves hold those of
  -- the YANG model. A netmask is one of IPv4.
  pub record IsAddressLeaf (v : SrVal) : Type 0 where
    pub ip : node_name_eq X v.xpath "ip" ≡ true → HasString v
    pub length : node_name_eq X v.xpath "prefix-length" ≡ true → HasUint8 v
    pub netmask : node_name_eq X v.xpath "netmask" ≡ true → HasNetmask v

  abbrev pub IsReadable : Option SrVal → Type 0
  IsReadable none = Unit
  IsReadable (some v) = is_list v.type ≡ false → IsAddressLeaf v

  -- A change has an XPath, inside an interface, and its values can be read.
  pub record IsAddressChange (c : Change) : Type 0 where
    pub path : String
    pub if_name : String
    pub pathed : new_or_old_xpath c ≡ returns path
    pub inside : X.key_value path "interface" "name" ≡ some if_name
    pub before : IsReadable c.old_val
    pub behind : IsReadable c.new_val

  module _ (stores : StoresOctets V) where
    netmask_to_plen-Survives : (a : V.Address) → V.is_v4 a ≡ true → Survives (netmask_to_plen V a)
    netmask_to_plen-Survives a v4 = elim (Option-cases (V.inet_pton (V.address_to_string a))) [
      | inl refused ↦
          let e : netmask_to_plen V a ≡ throws = unfold netmask_to_plen in rw (v4, refused) refl in
          subst Survives (sym e) tt
      | inr (o, read) ↦
          let (k, e, _, _) = netmask_to_plen-IsBitLength V a v4 o (stores _ o read) read in
          subst Survives (sym e) tt
    ]

    netmask-Survives :
        (v : SrVal) (addr : String)
        → HasNetmask v
        → Survives {A = String × ℕ} (do
          text ← read_string v
          netmask ← or_throw (V.from_string text)
          length ← netmask_to_plen V netmask
          returns (addr, length))
    netmask-Survives v addr (text, e, v4) = elim (Option-cases (V.from_string text)) [
      | inl refused ↦ rw (e, refused) tt
      | inr (a, parsed) ↦
          rw (e, parsed)
            (Survives-bind (netmask_to_plen V a) _ (netmask_to_plen-Survives a (v4 a parsed))
              (λ n. tt))
    ]

    parse-Survives :
        (val : Option SrVal) (addr : String) (prefix : ℕ)
        → IsReadable val
        → Survives (parse_interface_ipv46_address X V val addr prefix)
    unfolding parse_interface_ipv46_address
    parse-Survives none addr prefix h = tt
    parse-Survives (some v) addr prefix h =
        let S : Outcome (String × ℕ) → Type 0 = Survives in
        if-ind S (is_list v.type) (λ _. tt)
          (λ leaf.
            if-ind S (node_name_eq X v.xpath "ip")
              (λ hit. let (text, e) = (h leaf).ip hit in rw e tt)
              (λ _.
                if-ind S (node_name_eq X v.xpath "prefix-length")
                  (λ hit. let (n, e) = (h leaf).length hit in rw e tt)
                  (λ _.
                    if-ind S (node_name_eq X v.xpath "netmask")
                      (λ hit. netmask-Survives v addr ((h leaf).netmask hit)) (λ _. tt))))

    parse_new-Survives :
        (s : AddressState V) (val : Option SrVal) → IsReadable val → Survives (parse_new X V s val)
    unfolding parse_new
    parse_new-Survives s val h =
        Survives-bind (parse_interface_ipv46_address X V val s.new_addr s.new_prefix) _
          (parse-Survives val s.new_addr s.new_prefix h) (λ parsed. tt)

    parse_old-Survives :
        (s : AddressState V) (val : Option SrVal) → IsReadable val → Survives (parse_old X V s val)
    unfolding parse_old
    parse_old-Survives s val h =
        Survives-bind (parse_interface_ipv46_address X V val s.old_addr s.old_prefix) _
          (parse-Survives val s.old_addr s.old_prefix h) (λ parsed. tt)

    catch-Returns {ℓ} :
        {S : Type ℓ} (s : S) (m : Outcome S) → Survives m → Returns (λ _. Unit) (catch s m)
    catch-Returns s (returns t) h = tt
    catch-Returns s throws h = tt
    catch-Returns s crash h = absurd h

    catch-Survives {ℓ} : {S : Type ℓ} (s : S) (m : Outcome S) → Survives m → Survives (catch s m)
    catch-Survives s (returns t) h = tt
    catch-Survives s throws h = tt
    catch-Survives s crash h = absurd h

    parse_change-Returns :
        (s : AddressState V) (op : SrOper) (old new : Option SrVal)
        → IsReadable old
        → IsReadable new
        → Returns
            (λ _. Unit)
            (parse_change X V s (record { op = op; old_val = old; new_val = new }))
    unfolding parse_change
    parse_change-Returns s created old new h k =
        catch-Returns _ _ (parse_new-Survives (record s { create = true }) new k)
    parse_change-Returns s modified old new h k =
        let s1 : AddressState V = record s { create = true; del = true } in
        catch-Returns s1 _ (
          Survives-bind (parse_old X V s1 old) (λ s2. catch s2 (parse_new X V s2 new))
            (parse_old-Survives s1 old h)
            (λ s2. catch-Survives s2 (parse_new X V s2 new) (parse_new-Survives s2 new k)))
    parse_change-Returns s deleted old new h k =
        catch-Returns _ _ (parse_old-Survives (record s { del = true }) old h)
    parse_change-Returns s moved old new h k = tt

    on_change-Returns :
        (s : AddressState V) (c : Change)
        → IsAddressChange c
        → Returns (λ _. Unit) (on_change X V s c)
    unfolding on_change
    on_change-Returns s c h = elim (Bool-cases (is_empty h.if_name)) [
      | inl nameless ↦ rw (h.pathed, h.inside, nameless) tt
      | inr named ↦
          let s1 : AddressState V = record s { if_name = h.if_name } in
          rw (h.pathed, h.inside, named)
            (Returns-bind (λ _. Unit) (λ _. Unit) (parse_change X V s1 c) _
              (parse_change-Returns s1 c.op c.old_val c.new_val h.before h.behind) (λ s' _. tt))
    ]

    next_round-Returns :
        (rest : AddressState V → Outcome (SrError × V.Db)) (round : AddressRound V)
        → ((s : AddressState V) → Returns (λ _. Unit) (rest s))
        → Returns (λ _. Unit) (next_round V rest round)
    next_round-Returns rest (continue s) h = h s
    next_round-Returns rest (nothing_todo rc db) h = tt

    on_changes-Returns :
        (cs : List Change) (s : AddressState V)
        → All IsAddressChange cs
        → Returns (λ _. Unit) (on_changes X V s cs)
    unfolding on_changes
    on_changes-Returns [] s h = tt
    on_changes-Returns (c ∷ cs) s h =
        Returns-bind (λ _. Unit) (λ _. Unit) (on_change X V s c) _ (on_change-Returns s c h.0)
          (λ round _.
            next_round-Returns (λ s'. on_changes X V s' cs) round
              (λ s'. on_changes-Returns cs s' h.1))

    loop-Returns :
        (rc : SrError) (cs : List Change) (db : V.Db)
        → All IsAddressChange cs
        → Returns
            (λ _. Unit)
            (if◌then◌else◌ {A = Outcome (SrError × V.Db)}
              (not (is_ok rc))
              (returns (rc, db))
              (on_changes X V (initial V db) cs))
    loop-Returns rc cs db h = elim (Bool-cases (is_ok rc)) [
      | inr failed ↦ rw failed tt
      | inl ready ↦ rw ready (on_changes-Returns cs (initial V db) h)
    ]

    address_change_cb-Returns :
        (session : Session) (xpath : String) (event : SrEvent) (db : V.Db)
        → All IsAddressChange (session.changes xpath)
        → Returns (λ _. Unit) (ietf_interface_ipv46_address_change_cb X V session xpath event db)
    unfolding ietf_interface_ipv46_address_change_cb foreach_change
    address_change_cb-Returns session xpath apply db h = tt
    address_change_cb-Returns session xpath abort db h =
        loop-Returns (session.get_changes_iter xpath) [] db tt
    address_change_cb-Returns session xpath verify db h =
        loop-Returns (session.get_changes_iter xpath) (session.changes xpath) db h
    address_change_cb-Returns session xpath SrEvent.enabled db h =
        loop-Returns (session.get_changes_iter xpath) (session.changes xpath) db h

    -- In every phase the callback returns on every transaction whose changes are inside an interface
    -- and hold the members that the YANG model asks for, with netmasks of IPv4 only: whatever boost
    -- and VOM refuse, no exception leaves it.
    pub address_change_cb_total :
        (session : Session) (xpath : String) (event : SrEvent) (db : V.Db)
        → All IsAddressChange (session.changes xpath)
        → (r : SrError × V.Db) × (ietf_interface_ipv46_address_change_cb X V session xpath event db
            ≡ returns r)
    address_change_cb_total session xpath event db h =
        let (r, e, _) =
          Returns-some (λ _. Unit)
            (ietf_interface_ipv46_address_change_cb X V session xpath event db)
            (address_change_cb-Returns session xpath event db h) in
        (r, e)
