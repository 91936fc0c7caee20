-- ===== src/Vom.antt =====
-- VPP's object model VOM, boost's addresses and inet_pton, which the plugins call and the
-- repository does not contain: one record of operations, a parameter of the handlers. An object in
-- VOM's database is reached through a shared pointer, so that a change through it is a change of
-- the database.
use archived_sweetcomb.Prelude.{ℕ, String, Bool, Option}

-- An IPv4 address in the order of the network.
pub record Octets : Type 0 where
  pub first : ℕ
  pub second : ℕ
  pub third : ℕ
  pub fourth : ℕ

-- VOM::interface, l3_binding and nat_static, the prefix and address classes, and the database.
pub record Vom : Type 1 where
  pub Db : Type 0
  pub InterfaceType : Type 0
  pub AdminState : Type 0
  pub Interface : Type 0
  pub InterfaceRef : Type 0
  pub VomPrefix : Type 0
  pub L3Binding : Type 0
  pub Address : Type 0
  pub NatStatic : Type 0
  -- type_t::from_string, admin_state_t::from_int and the constructor of interface
  pub type_from_string : String → InterfaceType
  pub admin_from_int : ℕ → AdminState
  pub interface : String → InterfaceType → AdminState → Interface
  pub key : Interface → String
  pub name : Interface → String
  -- interface::find, `*p`, and interface::set through the pointer
  pub find : Db → String → Option InterfaceRef
  pub pointee : Db → InterfaceRef → Interface
  pub set : Db → InterfaceRef → AdminState → Db
  -- route::prefix_t, which throws on a bad address, and l3_binding with its getters
  pub prefix_t : String → ℕ → Option VomPrefix
  pub prefix_to_string : VomPrefix → String
  pub l3_binding : Interface → VomPrefix → L3Binding
  pub l3_itf : L3Binding → Interface
  pub l3_prefix : L3Binding → VomPrefix
  -- boost::asio::ip::address: the default one, from_string (which throws), printing
  pub no_address : Address
  pub from_string : String → Option Address
  pub address_to_string : Address → String
  pub is_v4 : Address → Bool
  pub is_v6 : Address → Bool
  -- inet_pton: the four octets that it stores for AF_INET, first octet first, and whether it
  -- succeeds for AF_INET6, where it stores sixteen
  pub inet_pton : String → Option Octets
  pub inet_pton6 : String → Bool
  pub nat_static : Address → Address → NatStatic
  -- OM::write for each kind of object (true for rc_t::OK) and OM::remove
  pub write_interface : Db → String → Interface → Db × Bool
  pub write_l3 : Db → String → L3Binding → Db × Bool
  pub write_nat : Db → String → NatStatic → Db × Bool
  pub remove : Db → String → Db
