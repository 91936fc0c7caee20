-- ===== src/Subscriptions.antt =====
-- The init functions of the plugins, which subscribe their callbacks to sysrepo:
-- ietf_interface_init of src/plugins/ietf/ietf_interface.cpp, ietf_nat_init of
-- src/plugins/ietf/ietf_nat.cpp and openconfig_interface_init of
-- src/plugins/openconfig/openconfig_interfaces.cpp. Each registers itself by SC_INIT_FUNCTION, in
-- an order that the linker chooses. What a subscription does is a parameter.
pub mod Startup
use archived_sweetcomb.Prelude.{ℕ, zero, suc, String}
use archived_sweetcomb.Sysrepo.{SrError, ok}
use archived_sweetcomb.Init.{PluginMain}

-- The callbacks that are subscribed.
pub data Callback : Type 0 where
  interface_create address_change interface_state interface_statistics nat_instance
        nat_mapping_table nat_cap_state oc_interfaces_config oc_interfaces_state :
      Callback

-- A call of sr_subtree_change_subscribe, with its priority, or of sr_dp_get_items_subscribe.
pub data Subscription : Type 0 where
  subtree_change : String → Callback → ℕ → Subscription
  dp_get_items : String → Callback → Subscription

-- `if (SR_ERR_OK != rc) goto error;` and what follows it
abbrev pub or_error {ℓ} : {S : Type ℓ} → SrError × S → (S → SrError × S) → SrError × S
or_error (ok, s) k = k s
or_error (rc, s) k = (rc, s)

-- A subscription and those behind it.
infixr 4 ◌>>◌
abbrev pub ◌>>◌ {ℓ} : {S : Type ℓ} → (S → SrError × S) → (S → SrError × S) → S → SrError × S
(first >> rest) s = or_error (first s) rest

-- `return SR_ERR_OK;`
abbrev pub finished {ℓ} : {S : Type ℓ} → S → SrError × S
finished s = (ok, s)

module _ (S : Type 0) (subscribe : Subscription → S → SrError × S) where
  unfoldable pub ietf_interface_init : S → SrError × S
  ietf_interface_init =
      subscribe (subtree_change "/ietf-interfaces:interfaces/interface" interface_create 100)
      >> subscribe (
          subtree_change "/ietf-interfaces:interfaces/interface/ietf-ip:ipv4/address" address_change
            99)
      >> subscribe (
          subtree_change "/ietf-interfaces:interfaces/interface/ietf-ip:ipv6/address" address_change
            98)
      >> subscribe (dp_get_items "/ietf-interfaces:interfaces-state" interface_state)
      >> subscribe (
          dp_get_items "/ietf-interfaces:interfaces-state/interface/statistics"
            interface_statistics)
      >> finished

  unfoldable pub ietf_nat_init : S → SrError × S
  ietf_nat_init =
      subscribe (subtree_change "/ietf-nat:nat/instances/instance" nat_instance 1)
      >> subscribe (
          subtree_change "/ietf-nat:nat/instances/instance/mapping-table/mapping-entry"
            nat_mapping_table 10)
      >> subscribe (dp_get_items "/ietf-nat:nat/instances/instance/capabilities" nat_cap_state)
      >> finished

  unfoldable pub openconfig_interface_init : S → SrError × S
  openconfig_interface_init =
      subscribe (
        subtree_change "/openconfig-interfaces:interfaces/interface/config" oc_interfaces_config 98)
      >> subscribe
          (dp_get_items "/openconfig-interfaces:interfaces/interface/state" oc_interfaces_state)
      >> finished

  -- The registered functions by their numbers: 0, 1, and any other number for the last one.
  unfoldable pub plugin_init : ℕ → S → SrError × S
  unfolding ietf_interface_init ietf_nat_init openconfig_interface_init
  plugin_init zero s = ietf_interface_init s
  plugin_init (suc zero) s = ietf_nat_init s
  plugin_init (suc (suc n)) s = openconfig_interface_init s

  -- A call through the pointer of a list element. The functions change the subscription only.
  unfoldable pub call_plugin : ℕ → PluginMain S → SrError × PluginMain S
  unfolding plugin_init
  call_plugin f pm = let (rc, s) = plugin_init f pm.state in (rc, record pm { state = s })
