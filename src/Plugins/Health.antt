-- ===== src/Plugins/Health.antt =====
-- The waiting for VPP, and what a health check leaves behind.
use archived_sweetcomb.Prelude.{
  ℕ, zero, suc, ◌<◌, true, false, ◌≡◌, refl, none, some, if◌then◌else◌, arith, inl, inr,
  Option-cases,
}
use archived_sweetcomb.Sysrepo.{SrError, ok, disconnect, is_ok, is_ok-ok}
use archived_sweetcomb.Prefix.{CInt}
use archived_sweetcomb.Plugins.{
  Host, World, call_all_init, current_pid, same_int, is_negative, done, exited, PluginState,
  connect_loop, init_plugins, sr_plugin_init_cb, sr_plugin_health_check_cb,
}

-- From the world w, k attempts to connect fail and the next one leads to the world w'.
pub data Connects (H : Host) : ℕ → World H → World H → Type 0 where
  now : {w w' : World H} → H.connect w ≡ (w', true) → Connects H zero w w'
  later :
      {k : ℕ} {w v w' : World H}
      → H.connect w ≡ (v, false)
      → Connects H k v w'
      → Connects H (suc k) w w'

module _ (H : Host) where
  connect_loop_enough :
      (fuel : ℕ) {k : ℕ} {w w' : World H}
      → Connects H k w w'
      → k < fuel
      → connect_loop H fuel w ≡ some w'
  unfolding connect_loop
  connect_loop_enough zero c h = absurd (omega arith)
  connect_loop_enough (suc fuel) (now e) h = rw e refl
  connect_loop_enough (suc fuel) (later e c) h = rw e (connect_loop_enough fuel c (omega arith))

  -- If the process of VPP is the one that was known, a health check changes nothing. If it is
  -- another one, or none, and connecting succeeds behind k failures, the check reconnects with more
  -- than k rounds of fuel, replays the configuration and keeps the pid that it read before it
  -- reconnected. It answers SR_ERR_OK either way.
  pub health_check_lem :
      (s : PluginState H) (fuel : ℕ)
      → (same_int (current_pid H s.world) s.vpp_pid_start ≡ true
          → sr_plugin_health_check_cb H fuel s ≡ done (ok, s))
        × (same_int (current_pid H s.world) s.vpp_pid_start ≡ false
            → (k : ℕ) (w : World H) → Connects H k (H.hw_disconnect s.world) w
            → k < fuel
            → sr_plugin_health_check_cb H fuel s
              ≡ done (ok, record { world = H.replay w; vpp_pid_start = current_pid H s.world }))
  unfolding sr_plugin_health_check_cb
  health_check_lem s fuel = (
    λ same. rw same refl,
    λ other k w c enough. rw (other, connect_loop_enough fuel c enough) refl,
  )

  -- A check that reads the pid while VPP is not there, and reconnects when it is back under another
  -- pid, is followed by a check that disconnects, reconnects and replays once more, though VPP has
  -- not crashed again.
  pub health_check_twice :
      (s : PluginState H) (fuel k k' : ℕ) (w w' : World H)
      → same_int (current_pid H s.world) s.vpp_pid_start ≡ false
      → Connects H k (H.hw_disconnect s.world) w
      → k < fuel
      → same_int (current_pid H (H.replay w)) (current_pid H s.world) ≡ false
      → Connects H k' (H.hw_disconnect (H.replay w)) w'
      → k' < fuel
      → (t : PluginState H) × (sr_plugin_health_check_cb H fuel s ≡ done (ok, t))
        × (sr_plugin_health_check_cb H fuel t
            ≡ done (ok, record { world = H.replay w'; vpp_pid_start = current_pid H (H.replay w) }))
  health_check_twice s fuel k k' w w' other c enough changed c' enough' =
      let t : PluginState H = record {
        world = H.replay w;
        vpp_pid_start = current_pid H s.world;
      } in
      (
        t,
        (health_check_lem s fuel).1 other k w c enough,
        (health_check_lem t fuel).1 changed k' w' c' enough',
      )

  abbrev Started : PluginState H → Type 0
  Started t =
      (t.vpp_pid_start ≡ current_pid H t.world)
      × (is_negative t.vpp_pid_start ≡ false)
      × ((w : World H) × (call_all_init H w ≡ (ok, t.world)))

  init_plugins-Started :
      (start : CInt) (w : World H) (t : PluginState H)
      → init_plugins H start w ≡ (ok, t)
      → Started t
  unfolding init_plugins
  init_plugins-Started start w t e =
      (ground arith, ground arith, (w, ground (arith, is_ok-ok (call_all_init H w).0)))

  -- If the entry point of the plugin answers SR_ERR_OK, all init functions answered SR_ERR_OK, and
  -- the pid that is kept is that of a running VPP: the one read in the world that they left, and
  -- not negative.
  pub init_cb-ok :
      (fuel : ℕ) (s t : PluginState H)
      → sr_plugin_init_cb H fuel s ≡ done (ok, t)
      → (t.vpp_pid_start ≡ current_pid H t.world)
        × (is_negative t.vpp_pid_start ≡ false)
        × ((w : World H) × (call_all_init H w ≡ (ok, t.world)))
  unfolding sr_plugin_init_cb init_plugins
  init_cb-ok fuel s t e =
      elim (Option-cases (connect_loop H fuel (H.om_init (H.hw_init s.world)))) [
        | inl waits ↦ absurd (cc (rw (waits, sr_plugin_init_cb) at e))
        | inr (w, up) ↦ elim (Option-cases (H.populate w)) [
          | inl fails ↦ absurd (cc (rw (up, fails, sr_plugin_init_cb) at e))
          | inr (w', full) ↦
              let e' : done (init_plugins H s.vpp_pid_start w') ≡ done (ok, t) =
                rw (up, full, sr_plugin_init_cb) at e in
              init_plugins-Started s.vpp_pid_start w' t (cc)
        ]
      ]

  -- Where connecting to VPP succeeds behind k failures, with more than k rounds of fuel, the entry
  -- point of the plugin ends: the process exits if the database cannot be populated. If it can, the
  -- answer is the code of the init functions, if that is not SR_ERR_OK, with the pid of before. If
  -- it is, the pid is read, and the answer is SR_ERR_OK, or SR_ERR_DISCONNECT for a negative pid.
  pub init_cb_lem :
      (s : PluginState H) (fuel k : ℕ) (w : World H)
      → Connects H k (H.om_init (H.hw_init s.world)) w
      → k < fuel
      → (H.populate w ≡ none → sr_plugin_init_cb H fuel s ≡ exited)
        × ((v v' : World H) (rc : SrError)
            → H.populate w ≡ some v
            → call_all_init H v ≡ (rc, v')
            → (is_ok rc ≡ false
                → sr_plugin_init_cb H fuel s
                  ≡ done (rc, record { world = v'; vpp_pid_start = s.vpp_pid_start }))
              × (is_ok rc ≡ true
                  → sr_plugin_init_cb H fuel s
                    ≡ done (
                      if is_negative (current_pid H v') then disconnect else ok,
                      record { world = v'; vpp_pid_start = current_pid H v' },
                    )))
  unfolding sr_plugin_init_cb init_plugins
  init_cb_lem s fuel k w c enough = (
    λ fails. rw (connect_loop_enough fuel c enough, fails, sr_plugin_init_cb) refl,
    λ v v' rc full calls. (
      λ failed.
          rw
            (
              connect_loop_enough fuel c enough,
              full,
              calls,
              failed,
              sr_plugin_init_cb,
              init_plugins,
            )
            refl,
      λ worked.
          rw
            (
              connect_loop_enough fuel c enough,
              full,
              calls,
              worked,
              sr_plugin_init_cb,
              init_plugins,
            )
            refl,
    ),
  )
