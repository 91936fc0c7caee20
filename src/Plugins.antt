-- ===== src/Plugins.antt =====
-- src/plugins/sc_plugins.c: the three entry points of the sysrepo plugin, and the static variable
-- vpp_pid_start.
pub mod Health
use archived_sweetcomb.Prelude.{
  ℕ, zero, suc, Bool, true, false, not, ◌&&◌, Option, none, some, eqb, if◌then◌else◌,
}
use archived_sweetcomb.Sysrepo.{SrError, ok, disconnect, is_ok}
use archived_sweetcomb.Prefix.{CInt}
use archived_sweetcomb.Init.{PluginMain, sc_call_all_init_function, sc_call_all_exit_function}
use archived_sweetcomb.Procfs.{FileSystem, get_vpp_pid}

abbrev pub is_negative : CInt → Bool
is_negative (sign, n) = sign && not (eqb n 0)

abbrev pub same_int : CInt → CInt → Bool
same_int (true, m) (true, n) = eqb m n
same_int (false, m) (false, n) = eqb m n
same_int (true, m) (false, n) = eqb m 0 && eqb n 0
same_int (false, m) (true, n) = eqb m 0 && eqb n 0

-- The connection to VPP (VOM's HW and OM), sysrepo, /proc and errno around the plugin, and what a call
-- of a registered function does. `none` of populate is an exception. Everything that changes is in
-- the state of sc_plugin_main, the lists included.
pub record Host : Type 1 where
  pub Rest : Type 0
  pub hw_init : PluginMain Rest → PluginMain Rest
  pub om_init : PluginMain Rest → PluginMain Rest
  pub connect : PluginMain Rest → PluginMain Rest × Bool
  pub hw_disconnect : PluginMain Rest → PluginMain Rest
  pub populate : PluginMain Rest → Option (PluginMain Rest)
  pub replay : PluginMain Rest → PluginMain Rest
  pub call_init : ℕ → PluginMain Rest → SrError × PluginMain Rest
  pub call_exit : ℕ → PluginMain Rest → PluginMain Rest
  pub unsubscribe : PluginMain Rest → PluginMain Rest
  pub proc : PluginMain Rest → FileSystem
  pub errno : PluginMain Rest → ℕ

-- How an entry point ends: it returns, it ends the process by exit(1), or it still waits for VPP
-- when the fuel is used up.
pub data Entry {ℓ} (A : Type ℓ) : Type ℓ where
  done : A → Entry A
  exited : Entry A
  waiting : Entry A

module _ (H : Host) where
  abbrev pub World : Type 0
  World = PluginMain H.Rest

  abbrev pub call_all_init : World → SrError × World
  call_all_init = sc_call_all_init_function H.Rest H.call_init

  abbrev pub call_all_exit : World → World
  call_all_exit = sc_call_all_exit_function H.Rest H.call_exit

  abbrev pub current_pid : World → CInt
  current_pid w = get_vpp_pid (H.proc w) (H.errno w)

  -- The static variable vpp_pid_start, in its world.
  pub record PluginState : Type 0 where
    pub world : World
    pub vpp_pid_start : CInt

  -- `while (HW::connect() != true);` on fuel
  unfoldable pub connect_loop : ℕ → World → Option World
  connect_loop zero w = none
  connect_loop (suc fuel) w =
      let rest = connect_loop fuel (H.connect w).0 in
      if (H.connect w).1 then some (H.connect w).0 else rest

  -- What follows the populated database.
  unfoldable pub init_plugins : CInt → World → SrError × PluginState
  init_plugins start w =
      let (rc, w') = call_all_init w in
      let pid = current_pid w' in
      if not (is_ok rc)
      then (rc, record { world = w'; vpp_pid_start = start })
      else (if is_negative pid then disconnect else ok, record { world = w'; vpp_pid_start = pid })

  unfoldable pub sr_plugin_init_cb : ℕ → PluginState → Entry (SrError × PluginState)
  unfolding connect_loop init_plugins
  sr_plugin_init_cb fuel s = elim (connect_loop fuel (H.om_init (H.hw_init s.world))) [
    | none ↦ waiting
    | some w ↦ elim (H.populate w) [
      | none ↦ exited
      | some w' ↦ done (init_plugins s.vpp_pid_start w')
    ]
  ]

  -- private_ctx is null or the subscription.
  unfoldable pub sr_plugin_cleanup_cb : Bool → PluginState → PluginState
  sr_plugin_cleanup_cb has_ctx s =
      let w = call_all_exit s.world in
      record s { world = H.hw_disconnect (if has_ctx then H.unsubscribe w else w) }

  unfoldable pub sr_plugin_health_check_cb : ℕ → PluginState → Entry (SrError × PluginState)
  unfolding connect_loop
  sr_plugin_health_check_cb fuel s =
      let pid = current_pid s.world in
      if same_int pid s.vpp_pid_start
      then done (ok, s)
      else elim (connect_loop fuel (H.hw_disconnect s.world)) [
        | none ↦ waiting
        | some w ↦ done (ok, record { world = H.replay w; vpp_pid_start = pid })
      ]
