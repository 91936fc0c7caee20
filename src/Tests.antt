-- ===== src/Tests.antt =====
-- Small instances of what the repository does not contain (a database of VOM, XPaths, a host with
-- VPP), and below this file the theorems at concrete inputs.
mod Interfaces
mod Addresses
mod Mappings
mod Lists
mod Processes
mod Answers
mod Totals
mod Histories
mod Frees
mod Sequences
mod Moves
use mathlib.Core.Option
use text.Mathlib.TextPositions.{eq_refl}
use archived_sweetcomb.Prelude.{
  ℕ, ◌+◌, ◌%◌, String, Bool, true, false, ◌≡◌, refl, Option, none, some, List, [], ◌∷◌, ◌==◌, ltb,
  eqb, inr, if◌then◌else◌,
}
use archived_sweetcomb.Sysrepo.{ok, Change, Session, Xpath}
use archived_sweetcomb.Vom.{Vom}
use archived_sweetcomb.Netmask.Masks.{mask}
use archived_sweetcomb.Interface.{Garbage}
use archived_sweetcomb.Interface.Laws.{InterfaceLaws}
use archived_sweetcomb.Address.Store.{BindingLaws}
use archived_sweetcomb.Nat.{NatGarbage}
use archived_sweetcomb.Nat.Consistency.{NatLaws}
use archived_sweetcomb.System.Frame.{FrameLaws}
use archived_sweetcomb.Init.{Registry, PluginMain}
use archived_sweetcomb.Procfs.{Dirent, codes}
use archived_sweetcomb.Plugins.{Host}

-- An interface is its name and its state; a database maps names to states and keys to mappings, and
-- lists the prefixes that were bound and marks
-- the keys of the bindings.
pub record Device : Type 0 where
  pub name : String
  pub admin : ℕ

pub record Database : Type 0 where
  pub states : String → Option ℕ
  pub mappings : String → Option (String × String)
  pub bindings : List (String × ℕ)
  pub bound : String → Bool

abbrev pub put {ℓ} : {A : Type ℓ} → (String → Option A) → String → Option A → String → Option A
put f k v n = if n == k then v else f n

abbrev pub state_or_down : Option ℕ → ℕ
state_or_down none = 0
state_or_down (some a) = a

abbrev pub memory : Vom
memory = record {
  Db = Database;
  InterfaceType = String;
  AdminState = ℕ;
  Interface = Device;
  InterfaceRef = String;
  VomPrefix = String × ℕ;
  L3Binding = Device × (String × ℕ);
  Address = String;
  NatStatic = String × String;
  type_from_string = λ t. t;
  admin_from_int = λ n. n;
  interface = λ n t a. record { name = n; admin = a };
  key = λ i. i.name;
  name = λ i. i.name;
  find = λ db n. Option.map (λ _. n) (db.states n);
  pointee = λ db r. record { name = r; admin = state_or_down (db.states r) };
  set = λ db r a. record db { states = put db.states r (some a) };
  prefix_t = λ addr n. some (addr, n);
  prefix_to_string = λ p. p.0;
  l3_binding = λ i p. (i, p);
  l3_itf = λ l3. l3.0;
  l3_prefix = λ l3. l3.1;
  no_address = "0.0.0.0";
  from_string = λ s. some s;
  address_to_string = λ a. a;
  is_v4 = λ _. true;
  is_v6 = λ _. false;
  inet_pton = λ s. if s == "255.255.252.0" then some (mask 22) else none;
  inet_pton6 = λ _. false;
  nat_static = λ a b. (a, b);
  write_interface = λ db k i. (record db { states = put db.states k (some i.admin) }, true);
  write_l3 = λ db k l3. (
    record db { bindings = l3.1 ∷ db.bindings; bound = λ n. if n == k then true else db.bound n },
    true,
  );
  write_nat = λ db k ns. (record db { mappings = put db.mappings k (some ns) }, true);
  remove = λ db k. record db {
    states = put db.states k none;
    mappings = put db.mappings k none;
    bound = λ n. if n == k then false else db.bound n;
  };
}

pub map-some : (n : String) (o : Option ℕ) {a : ℕ} → o ≡ some a → Option.map (λ _. n) o ≡ some n
map-some n none e = cc
map-some n (some b) e = refl

pub same_name : (n : String) (o : Option ℕ) {r : String} → Option.map (λ _. n) o ≡ some r → r ≡ n
same_name n none e = cc
same_name n (some a) e = cc

abbrev pub memory_laws : InterfaceLaws memory
memory_laws = record {
  view = λ db n. db.states n;
  admin = λ i. i.admin;
  key-interface = λ n t a. refl;
  admin-interface = λ n t a. refl;
  find_absent = λ db n e. rw e refl;
  find_present = λ db n e. (n, map-some n (db.states n) e, refl);
  key-set = λ db r a. refl;
  admin-set = λ db r a. rw (eq_refl r) refl;
  view-set = λ db r a n. refl;
  view-write = λ db i n done. refl;
  view-remove = λ db k n. refl;
}

abbrev pub memory_nat_laws : NatLaws memory
memory_nat_laws = record {
  view = λ db n. db.mappings n;
  view-write = λ db k ns n done. refl;
  view-remove = λ db k n. refl;
}

abbrev pub memory_binding_laws : BindingLaws memory
memory_binding_laws = record {
  view = λ db n. db.bound n;
  name-l3_itf = λ i p. refl;
  l3_prefix-l3_binding = λ i p. refl;
  view-write = λ db k l3 n done. refl;
  find-write = λ db k l3 n. refl;
  name-write = λ db k l3 r. refl;
  view-remove = λ db k n. refl;
  find-remove = λ db k n other. rw other refl;
  name-find = λ db n e. same_name n (db.states n) e;
}

abbrev pub memory_frame_laws : FrameLaws memory memory_nat_laws
memory_frame_laws = record {
  view-set = λ db r a n. refl;
  view-write_interface = λ db k i n. refl;
  view-write_l3 = λ db k l3 n. refl;
}

-- A path is the name of its last node, and all paths are inside one interface.
abbrev pub paths : Xpath
paths = record { node_name = λ p. p; key_value = λ p node key. some "eth0" }

abbrev pub session_with : List Change → Session
session_with cs = record { get_changes_iter = λ _. ok; changes = λ _. cs }

abbrev pub empty_db : Database
empty_db = record { states = λ _. none; mappings = λ _. none; bindings = []; bound = λ _. false }

-- A database with one interface, which is down.
abbrev pub one_interface : Database
one_interface = record {
  states = put (λ _. none) "eth0" (some 0);
  mappings = λ _. none;
  bindings = [];
  bound = λ _. false;
}

abbrev pub all_set : Garbage
all_set = record { create = true; remove = true; modify = true; state = true }

abbrev pub all_clear : Garbage
all_clear = record { create = false; remove = false; modify = false; state = false }

abbrev pub nat_garbage : NatGarbage
nat_garbage = record {
  create = true;
  remove = true;
  xindex = 77;
  internal_src_len = 1;
  external_src_len = 2;
  internal_dest_len = 3;
  external_dest_len = 4;
}

-- A host whose VPP comes up at the second attempt to connect; the state counts the attempts. Its one
-- init function works.
abbrev pub running : List Dirent
running = record { d_name = "9"; is_dir = true } ∷ []

abbrev pub clock_host : Host
clock_host = record {
  Rest = ℕ;
  hw_init = λ w. w;
  om_init = λ w. w;
  connect = λ w. (record w { state = w.state + 1 }, eqb (w.state % 2) 1);
  hw_disconnect = λ w. w;
  populate = λ w. some w;
  replay = λ w. w;
  call_init = λ f w. (ok, w);
  call_exit = λ f w. w;
  unsubscribe = λ w. w;
  proc = λ w. record {
    opendir = inr (if ltb w.state 2 then [] else running);
    readdir_error = none;
    fopen = λ path. inr (codes "vpp");
    fread_error = λ path. none;
  };
  errno = λ w. 0;
}

abbrev pub no_exits : Registry
no_exits = record { functions = []; is_called = λ f. false }

-- The world behind so many attempts, with no init function called or with it called.
abbrev pub attempts : ℕ → PluginMain ℕ
attempts n = record {
  state = n;
  init_functions = record { functions = 1 ∷ []; is_called = λ f. false };
  exit_functions = no_exits;
}
