-- ===== src/Oper/Bounds.antt =====
-- What each callback answers, and whether it writes past the end of its array.
use mathlib.Core.List.{append_assoc, append-nil}
use archived_sweetcomb.Prelude.{
  ℕ, ◌+◌, ◌*◌, ◌≤◌, ◌<◌, String, true, false, ◌≡◌, refl, sym, ◌∙◌, ap, none, some, if◌then◌else◌,
  Bool-cases, inl, inr, List, [], ◌∷◌, ◌++◌, arith, length, length-append, is_empty, ltb, Bool, not,
  ◌&&◌, eqb, ◌<>◌, ◌%◌, ◌≢◌,
}
use archived_sweetcomb.Outcome.{Outcome, returns, crash, ◌>>=◌}
use archived_sweetcomb.Sysrepo.{
  SrError, ok, inval_arg, is_ok, is_ok-ok, SrVal, SrType, SrData, Xpath, string_t, identityref_t,
  uint16_t, uint32_t, bool_t, enum_t, string_val, uint16_val, uint32_val, bool_val,
}
use archived_sweetcomb.Vom.{Vom}
use archived_sweetcomb.Oper.{Reply, Values, new_values, put_all}
use archived_sweetcomb.Oper.Details.{Details, StatusFlags}
use archived_sweetcomb.Oper.Interfaces.{
  interface_values, put_interfaces, state_room, ietf_interface_state_cb,
}
use archived_sweetcomb.Oper.Statistics.{Stats, counters, interface_statistics_cb}
use archived_sweetcomb.Oper.Openconfig.{state_root, state_values, oc_interfaces_state_cb}

put_all_fits :
    (vs : List SrVal) (a : Values)
    → length a.written + length vs ≤ a.room
    → put_all vs a ≡ returns (record a { written = a.written ++ vs })
unfolding put_all
put_all_fits [] a h = ap (λ w. returns (record a { written = w })) (sym (append-nil a.written))
put_all_fits (v ∷ vs) a h = rw (room_left) (
    put_all_fits vs (record a { written = a.written ++ v ∷ [] })
      (omega (arith, length-append {0} a.written (v ∷ [])))
    ∙ ap (λ w. returns (record a { written = w })) (append_assoc a.written (v ∷ []) vs))
  where
    room_left : ltb (length a.written) a.room ≡ true
    room_left = ground arith

-- The values of the interfaces of a dump, one interface after the other.
abbrev pub all_values : StatusFlags → String → List Details → List SrVal
all_values F xpath [] = []
all_values F xpath (d ∷ ds) = interface_values F xpath d ++ all_values F xpath ds

put_interfaces_fits :
    (F : StatusFlags) (xpath : String) (ds : List Details) (a : Values)
    → length a.written + 5 * length ds ≤ a.room
    → put_interfaces F xpath ds a
      ≡ returns (record a { written = a.written ++ all_values F xpath ds })
unfolding put_interfaces
put_interfaces_fits F xpath [] a h =
    ap (λ w. returns (record a { written = w })) (sym (append-nil a.written))
put_interfaces_fits F xpath (d ∷ ds) a h =
    let five = interface_values F xpath d in
    rw (put_all_fits five a (omega arith)) (
      put_interfaces_fits F xpath ds (record a { written = a.written ++ five })
        (omega (arith, length-append {0} a.written five))
      ∙ ap (λ w. returns (record a { written = w }))
          (append_assoc a.written five (all_values F xpath ds)))

length-all_values :
    (F : StatusFlags) (xpath : String) (ds : List Details)
    → length (all_values F xpath ds) ≡ 5 * length ds
unfolding interface_values
length-all_values F xpath [] = refl
length-all_values F xpath (d ∷ ds) = omega (arith, length-all_values F xpath ds)

-- On the path of an interface, with its array allocated, the callback for the state of interfaces
-- returns: five values for each interface of the dump, in the order of the dump, so fewer than the
-- array has room for.
pub state_cb-all_values :
    (X : Xpath) (F : StatusFlags) (sr_new_values : ℕ → SrError) (dump : List Details)
    (xpath : String)
    → X.node_name xpath ≡ "interface"
    → sr_new_values (state_room dump) ≡ ok
    → (ietf_interface_state_cb X F sr_new_values dump xpath
        ≡ returns (record { rc = ok; values = all_values F xpath dump }))
      × (length (all_values F xpath dump) ≡ 5 * length dump)
      × (length (all_values F xpath dump) < state_room dump)
unfolding ietf_interface_state_cb new_values
state_cb-all_values X F sr_new_values dump xpath node allocated = (
  rw (node, allocated)
      (rw (put_interfaces_fits F xpath dump (new_values (state_room dump)) (omega arith)) refl),
  length-all_values F xpath dump,
  omega (arith, length-all_values F xpath dump),
)

-- Inside an interface whose name is not empty, the callback for statistics returns: no value and
-- SR_ERR_OK if VOM does not know the interface, no value and the error if the array cannot be
-- allocated, and if it can, the eight counters of that interface. If the path has no name, the null
-- pointer is read, and an empty name is answered with SR_ERR_INVAL_ARG.
pub statistics_cb-counters :
    (X : Xpath) (V : Vom) (get_stats : V.Db → V.InterfaceRef → Stats) (sr_new_values : ℕ → SrError)
    (db : V.Db) (xpath : String)
    → let answer = interface_statistics_cb X V get_stats sr_new_values db xpath in
      (X.key_value xpath "interface" "name" ≡ none → answer ≡ crash)
      × (X.key_value xpath "interface" "name" ≡ some ""
          → answer ≡ returns (record { rc = inval_arg; values = [] }))
      × ((name : String)
          → X.key_value xpath "interface" "name" ≡ some name
          → is_empty name ≡ false
          → (V.find db name ≡ none → answer ≡ returns (record { rc = ok; values = [] }))
            × ((r : V.InterfaceRef)
                → V.find db name ≡ some r
                → answer
                  ≡ returns (record {
                    rc = sr_new_values 8;
                    values =
                        if is_ok (sr_new_values 8) then counters xpath (get_stats db r) else [];
                  })))
unfolding interface_statistics_cb new_values put_all
statistics_cb-counters X V get_stats sr_new_values db xpath = (
  λ missing. rw missing refl,
  λ nameless. rw nameless refl,
  λ name key named. (
    λ absent. rw (key, named, absent) refl,
    λ r found. elim (Bool-cases (is_ok (sr_new_values 8))) [
      | inl allocated ↦ let fits = is_ok-ok _ allocated in rw (key, named, found, fits) refl
      | inr failed ↦ rw (key, named, found, failed) refl
    ],
  ),
)

abbrev up_or_down : Bool → String
up_or_down true = "UP"
up_or_down false = "DOWN"

-- The leaf of that name under the state of an interface.
abbrev leaf_of : String → String → SrType → SrData → SrVal
leaf_of name leaf type datum = record {
  xpath = state_root name <> leaf;
  type = type;
  datum = datum;
}

-- The seven leaves for an element of a dump. A status is UP where the flags are that flag alone.
abbrev pub state_leaves : StatusFlags → String → Details → List SrVal
state_leaves F name d =
    leaf_of name "/name" string_t (string_val d.interface_name)
    ∷ leaf_of name "/type" identityref_t (string_val "ianaift:ethernetCsmacd")
    ∷ leaf_of name "/mtu" uint16_t (uint16_val (d.link_mtu % 65_536))
    ∷ leaf_of name "/enabled" bool_t (bool_val (ltb 0 d.flags))
    ∷ leaf_of name "/ifindex" uint32_t (uint32_val d.sw_if_index)
    ∷ leaf_of name "/admin-status" enum_t (string_val (up_or_down (eqb F.admin_up d.flags)))
    ∷ leaf_of name "/oper-status" enum_t (string_val (up_or_down (eqb F.link_up d.flags)))
    ∷ []

-- What is answered from a dump: the first element is taken, and there may be none.
abbrev pub from_first : StatusFlags → String → List Details → Outcome Reply
from_first F name [] = crash
from_first F name (d ∷ others) = returns (record { rc = ok; values = state_leaves F name d })

word-eq : (a b : ℕ) → (if eqb a b then "UP" else "DOWN") ≡ up_or_down (eqb b a)
word-eq a b = ground arith

enabled-eq : (n : ℕ) → not (eqb n 0) ≡ ltb 0 n
enabled-eq n = ground arith

state_values-eq :
    (F : StatusFlags) (name : String) (d : Details)
    → state_values F (state_root name) d ≡ state_leaves F name d
unfolding state_values
state_values-eq F name d =
    rw (enabled-eq d.flags, word-eq d.flags F.admin_up, word-eq d.flags F.link_up) refl

first-eq :
    (F : StatusFlags) (name : String) (ds : List Details)
    → Path
        (Outcome Reply)
        (elim ds [
          | [] ↦ crash
          | reply ∷ others ↦ do
            a ← put_all (state_values F (state_root name) reply) (new_values 7)
            returns (record { rc = ok; values = a.written })
        ])
        (from_first F name ds)
unfolding new_values put_all
first-eq F name [] = refl
first-eq F name (d ∷ others) = rw (state_values-eq F name d) refl

-- Inside an interface whose name is not empty, with its array allocated, the OpenConfig callback
-- for the state returns the seven leaves name, type, mtu, enabled, ifindex, admin-status and
-- oper-status of the first element of the dump that it asks for by name; if that dump has no
-- element, it reads past its end. A status is UP only where the flags are that flag alone, so the
-- two flags being different, admin-status and oper-status are never both UP.
pub oc_state_cb-state_values :
    (X : Xpath) (F : StatusFlags) (sr_new_values : ℕ → SrError) (dump : String → List Details)
    (xpath name : String)
    → X.key_value xpath "interface" "name" ≡ some name
    → is_empty name ≡ false
    → sr_new_values 7 ≡ ok
    → F.admin_up ≢ F.link_up
    → (oc_interfaces_state_cb X F sr_new_values dump xpath ≡ from_first F name (dump name))
      × ((d : Details) → (eqb F.admin_up d.flags && eqb F.link_up d.flags) ≡ false)
unfolding oc_interfaces_state_cb
oc_state_cb-state_values X F sr_new_values dump xpath name key named allocated differ =
    (rw (key, named, allocated) (first-eq F name (dump name)), λ d. ground arith)
