-- ===== src/Tests/Moves.antt =====
-- The theorems on sequences of edits of addresses, at concrete inputs.
use text.Mathlib.TextLemmas.{cons-append, head-eq_of_cons-eq}
use archived_sweetcomb.Prelude.{
  String, Bool, true, false, ◌≡◌, refl, sym, arith, ◌∙◌, ap, some, List, [], ◌∷◌, ◌==◌, ◌||◌, inl,
  inr, code, if◌then◌else◌, eq_of_true, Bool-cases, All,
}
use archived_sweetcomb.Outcome.{returns}
use archived_sweetcomb.Sysrepo.{SrError, ok, apply, abort, verify, Session, Xpath}
use archived_sweetcomb.Address.{ietf_interface_ipv46_address_change_cb}
use archived_sweetcomb.Address.Additions.{NewAddress, IsAddressOf}
use archived_sweetcomb.Address.Removals.{all_removals}
use archived_sweetcomb.Address.Sequence.{
  AddressEdit, add, remove, IsNotKey, binding_key, perform, operations, blank, all_changes,
  transacted,
}
use archived_sweetcomb.Address.Operations.{address_change_cb-operations}
use archived_sweetcomb.Address.Replay.{Knows, is_some, address_change_cb-Follows}
use archived_sweetcomb.Address.Moves.{address_change_cb-moved}
use archived_sweetcomb.Address.Gone.{Shrinks, Gone, address_change_cb-Gone}
use archived_sweetcomb.System.Simulation.{run, replay}
use archived_sweetcomb.System.Transactions.{Transaction}
use archived_sweetcomb.System.Transactions.Addresses.{
  address_phases, address_model, addresses-replay,
}
use archived_sweetcomb.System.RoundTrips.{addresses_restored}
use archived_sweetcomb.Tests.{
  Database, memory, memory_binding_laws, paths, session_with, one_interface,
}
use archived_sweetcomb.Tests.Addresses.{two_addresses, two_placed}

-- Texts that begin with the letter e.
e_name-IsNotKey : (s t : String) → s ≡ String.◌∷◌ "e" t → IsNotKey memory s
e_name-IsNotKey s t begins other p = elim (Bool-cases (s == binding_key memory other p)) [
  | inr differ ↦ differ
  | inl same ↦
      let e : s ≡ binding_key memory other p = eq_of_true same in
      absurd (differs (ap code (head-eq_of_cons-eq (sym begins ∙ e ∙ cons-append _ _ _))))
]
  where
    differs : ¬ (code "e" ≡ code "l")
    differs h = omega (arith, h)

eth0-IsNotKey : IsNotKey memory "eth0"
eth0-IsNotKey = e_name-IsNotKey "eth0" "th0" refl

eth1-IsNotKey : IsNotKey memory "eth1"
eth1-IsNotKey = e_name-IsNotKey "eth1" "th1" refl

abbrev knows_eth0 : String → Bool
knows_eth0 n = is_some (memory.find one_interface n)

-- Three leaves are inside eth1, and all others inside eth0.
abbrev is_eth1 : String → Bool
is_eth1 p = p == "eth1" || (p == "eth1/ip" || p == "eth1/length")

abbrev two_interfaces : Xpath
two_interfaces = record {
  node_name =
      λ p. if p == "eth1/ip" then "ip" else if p == "eth1/length" then "prefix-length" else p;
  key_value = λ p node key. some (if is_eth1 p then "eth1" else "eth0");
}

abbrev stays : NewAddress
stays = record {
  entry_path = "address";
  ip_path = "ip";
  length_path = "prefix-length";
  ip = "10.0.0.1";
  prefix_length = 24;
}

abbrev moves : NewAddress
moves = record stays { entry_path = "eth1"; ip_path = "eth1/ip"; length_path = "eth1/length" }

stays-IsAddressOf : IsAddressOf two_interfaces "eth0" stays
stays-IsAddressOf = record {
  entry_in = refl;
  ip_in = refl;
  length_in = refl;
  ip_node = refl;
  length_node = refl;
  nonempty = refl;
}

moves-IsAddressOf : IsAddressOf two_interfaces "eth1" moves
moves-IsAddressOf = record {
  entry_in = refl;
  ip_in = refl;
  length_in = refl;
  ip_node = refl;
  length_node = refl;
  nonempty = refl;
}

-- The address moves from eth0 to eth1.
abbrev move : List AddressEdit
move = add "eth1" moves ∷ remove "eth0" stays ∷ []

abbrev move_session : Session
move_session = session_with (all_changes move)

address_change_cb-operations_example :
    ietf_interface_ipv46_address_change_cb two_interfaces memory move_session "" verify
      one_interface
    ≡ returns (perform memory (operations blank move) (ok, one_interface))
address_change_cb-operations_example =
    address_change_cb-operations two_interfaces memory move_session "" one_interface move
      ((moves-IsAddressOf, refl), ((stays-IsAddressOf, refl), tt)) refl refl

address_change_cb-Follows_example :
    (db' : Database) × (ietf_interface_ipv46_address_change_cb two_interfaces memory move_session ""
        verify one_interface
      ≡ returns ((transacted memory knows_eth0 move (λ k. false)).0, db'))
    × (db'.bound ≡ (transacted memory knows_eth0 move (λ k. false)).1)
    × Knows memory memory_binding_laws knows_eth0 db'
address_change_cb-Follows_example =
    address_change_cb-Follows memory memory_binding_laws knows_eth0 (λ db k l3. refl) two_interfaces
      move_session "" one_interface move (λ n free. refl)
      ((moves-IsAddressOf, refl), ((stays-IsAddressOf, refl), tt))
      (eth1-IsNotKey, (eth0-IsNotKey, tt)) refl refl

address_change_cb-moved_example :
    (db' : Database) × (ietf_interface_ipv46_address_change_cb two_interfaces memory move_session ""
        verify one_interface
      ≡ returns (ok, db'))
    × (db'.bound (binding_key memory "eth0" ("10.0.0.1", 24)) ≡ true)
address_change_cb-moved_example =
    address_change_cb-moved two_interfaces memory memory_binding_laws knows_eth0 move_session ""
      one_interface "eth1" "eth0" moves stays ("10.0.0.1", 24) (λ db k l3. refl) (λ n free. refl)
      (moves-IsAddressOf, refl) (stays-IsAddressOf, refl) eth1-IsNotKey eth0-IsNotKey refl refl refl
      refl

address_change_cb-Gone_example :
    (rc : SrError) × (db' : Database) × (ietf_interface_ipv46_address_change_cb paths memory
        (session_with (all_removals two_addresses))
        ""
        verify
        one_interface
      ≡ returns (rc, db'))
    × Shrinks memory knows_eth0 (λ k. false) db'.bound
    × All (Gone memory knows_eth0 paths "eth0" refl db'.bound) two_addresses
address_change_cb-Gone_example =
    address_change_cb-Gone memory knows_eth0 paths "eth0" refl memory_binding_laws (λ db k l3. refl)
      two_addresses (session_with (all_removals two_addresses)) "" one_interface (λ n free. refl)
      refl eth0-IsNotKey two_placed refl refl

-- The move is aborted, and behind it the address is removed from eth0 once more.
abbrev move_aborted : Transaction Unit AddressEdit
move_aborted = record {
  garbage = tt;
  session = move_session;
  xpath = "";
  edits = move;
  ends = abort ∷ [];
}

abbrev removal_applied : Transaction Unit AddressEdit
removal_applied = record {
  garbage = tt;
  session = session_with (all_changes (remove "eth0" stays ∷ []));
  xpath = "";
  edits = remove "eth0" stays ∷ [];
  ends = apply ∷ [];
}

addresses-replay_example :
    (db' : Database) × (run
        (address_phases two_interfaces memory)
        (move_aborted ∷ removal_applied ∷ [])
        one_interface
      ≡ returns db')
    × (db'.bound
        ≡ replay
            (address_model two_interfaces memory knows_eth0)
            (move_aborted ∷ removal_applied ∷ [])
            (λ k. false))
addresses-replay_example =
    addresses-replay two_interfaces memory knows_eth0 memory_binding_laws (λ db k l3. refl)
      (move_aborted ∷ removal_applied ∷ []) one_interface
      (
        (
          record {
            clear = tt;
            valid = ((moves-IsAddressOf, refl), ((stays-IsAddressOf, refl), tt));
            ready = refl;
            changed = refl;
            ended = (inr refl, tt);
          },
          (eth1-IsNotKey, (eth0-IsNotKey, tt)),
        ),
        (
          (
            record {
              clear = tt;
              valid = ((stays-IsAddressOf, refl), tt);
              ready = refl;
              changed = refl;
              ended = (inl refl, tt);
            },
            (eth0-IsNotKey, tt),
          ),
          tt,
        ),
      )
      (λ n free. refl)

-- An address is added to eth0, and the next transaction removes it.
abbrev addition_applied : Transaction Unit AddressEdit
addition_applied = record {
  garbage = tt;
  session = session_with (all_changes (add "eth0" stays ∷ []));
  xpath = "";
  edits = add "eth0" stays ∷ [];
  ends = apply ∷ [];
}

addresses_restored_example :
    (db' : Database) × (run
        (address_phases two_interfaces memory)
        (addition_applied ∷ removal_applied ∷ [])
        one_interface
      ≡ returns db')
    × (db'.bound ≡ λ k. false)
addresses_restored_example =
    addresses_restored two_interfaces memory knows_eth0 memory_binding_laws (λ db k l3. refl)
      addition_applied removal_applied "eth0" stays ("10.0.0.1", 24) ("10.0.0.1", 0) one_interface
      (
        record {
          clear = tt;
          valid = ((stays-IsAddressOf, refl), tt);
          ready = refl;
          changed = refl;
          ended = (inl refl, tt);
        },
        (eth0-IsNotKey, tt),
      )
      (
        record {
          clear = tt;
          valid = ((stays-IsAddressOf, refl), tt);
          ready = refl;
          changed = refl;
          ended = (inl refl, tt);
        },
        (eth0-IsNotKey, tt),
      )
      refl refl stays-IsAddressOf (λ n free. refl) refl refl refl refl refl
