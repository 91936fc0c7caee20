-- ===== src/Tests/Processes.antt =====
-- The theorems on the search for VPP and on the entry points, on a small /proc and a small host.
use archived_sweetcomb.Prelude.{
  ℕ, ◌++◌, ◌<◌, All, true, false, ◌≡◌, refl, ◌∙◌, ap, none, some, inl, inr, List, [], ◌∷◌, arith,
  ◌==◌, if◌then◌else◌,
}
use archived_sweetcomb.Prefix.{is_space, is_digit, leading}
use archived_sweetcomb.Sysrepo.{SrError, ok, disconnect, is_ok}
use archived_sweetcomb.Procfs.{
  pid_loop, codes, Dirent, FileSystem, first_token, names_vpp, atoi, find_vpp, get_vpp_pid,
}
use archived_sweetcomb.Plugins.{
  current_pid, call_all_init, is_negative, done, exited, PluginState, same_int, sr_plugin_init_cb,
  sr_plugin_health_check_cb,
}
use archived_sweetcomb.Procfs.Search.{is_vpp, get_vpp_pid-found, get_vpp_pid-missed}
use archived_sweetcomb.Plugins.Health.{Connects, now, later, health_check_lem, init_cb_lem}
use archived_sweetcomb.Tests.{clock_host, attempts}
use archived_sweetcomb.Init.{
  PluginMain, mark_init, set_called, sc_call_all_init_function, init_loop,
}

abbrev dot : Dirent
dot = record { d_name = "."; is_dir = true }

abbrev shell : Dirent
shell = record { d_name = "12"; is_dir = true }

abbrev vpp : Dirent
vpp = record { d_name = "340"; is_dir = true }

-- The command lines of two processes; other files cannot be opened, with errno 2.
abbrev proc : List Dirent → FileSystem
proc es = record {
  opendir = inr es;
  readdir_error = none;
  fopen = λ path.
      if path == "/proc/340/cmdline"
      then inr (codes "/usr/bin/vpp" ++ 0 ∷ codes "-c")
      else if path == "/proc/7/cmdline"
      then inr (codes "bash")
      else inl 2;
  fread_error = λ path. none;
}

others : All (λ e. is_vpp (proc (dot ∷ shell ∷ vpp ∷ [])) e ≡ false) (dot ∷ shell ∷ [])
unfolding is_vpp
others = (refl, (refl, tt))

vpp_seen : is_vpp (proc (dot ∷ shell ∷ vpp ∷ [])) vpp ≡ true
unfolding is_vpp names_vpp first_token
vpp_seen = refl

get_vpp_pid-found_example : find_vpp (proc (dot ∷ shell ∷ vpp ∷ [])) 0 ≡ ((false, 340), false)
unfolding atoi is_space is_digit leading
get_vpp_pid-found_example =
    get_vpp_pid-found (proc (dot ∷ shell ∷ vpp ∷ [])) 0 (dot ∷ shell ∷ []) others vpp [] refl
      vpp_seen

only_others : All (λ e. is_vpp (proc (dot ∷ shell ∷ [])) e ≡ false) (dot ∷ shell ∷ [])
unfolding is_vpp
only_others = (refl, (refl, tt))

-- A process that ended while /proc was read makes the answer -ENOENT.
get_vpp_pid-missed_example : find_vpp (proc (dot ∷ shell ∷ [])) 0 ≡ ((true, 2), true)
get_vpp_pid-missed_example =
    get_vpp_pid-missed (proc (dot ∷ shell ∷ [])) 0 (dot ∷ shell ∷ []) only_others refl

abbrev stopped : PluginState clock_host
stopped = record { world = attempts 0; vpp_pid_start = (false, 7) }

-- The pid that is read behind 0, 2 and 4 attempts.
pid_before : current_pid clock_host (attempts 0) ≡ (true, 3)
unfolding get_vpp_pid pid_loop
pid_before = refl

up_again : Connects clock_host 1 (attempts 0) (attempts 2)
up_again = later refl (now refl)

pid_found : current_pid clock_host (attempts 2) ≡ (false, 9)
unfolding atoi is_space is_digit leading is_vpp names_vpp first_token get_vpp_pid
pid_found =
    ap (λ r. r.0)
      (get_vpp_pid-found (clock_host.proc (attempts 2)) 0 [] tt
        (record { d_name = "9"; is_dir = true }) [] refl refl)

health_check_lem_example :
    (same_int (current_pid clock_host (attempts 0)) (false, 7) ≡ true
      → sr_plugin_health_check_cb clock_host 5 stopped ≡ done (ok, stopped))
    × (same_int (current_pid clock_host (attempts 0)) (false, 7) ≡ false
        → (k : ℕ) (w : PluginMain ℕ) → Connects clock_host k (attempts 0) w
        → k < 5
        → sr_plugin_health_check_cb clock_host 5 stopped
          ≡ done (ok, record { world = w; vpp_pid_start = current_pid clock_host (attempts 0) }))
health_check_lem_example = health_check_lem clock_host stopped 5

-- The world behind the start of the plugin.
abbrev started : PluginMain ℕ
started = mark_init ℕ 1 (attempts 2)

started_pid : current_pid clock_host started ≡ (false, 9)
started_pid = pid_found

init_calls : call_all_init clock_host (attempts 2) ≡ (ok, started)
unfolding sc_call_all_init_function init_loop set_called
init_calls = refl

init_run :
    sr_plugin_init_cb clock_host 5 stopped
    ≡ done (ok, record { world = started; vpp_pid_start = current_pid clock_host started })
init_run =
    ((init_cb_lem clock_host stopped 5 1 (attempts 2) up_again (omega arith)).1 (attempts 2) started
        ok refl init_calls).1
      refl
    ∙ rw started_pid refl

init_cb_lem_example :
    (clock_host.populate (attempts 2) ≡ none → sr_plugin_init_cb clock_host 5 stopped ≡ exited)
    × ((v v' : PluginMain ℕ) (rc : SrError)
        → clock_host.populate (attempts 2) ≡ some v
        → call_all_init clock_host v ≡ (rc, v')
        → (is_ok rc ≡ false
            → sr_plugin_init_cb clock_host 5 stopped
              ≡ done (rc, record { world = v'; vpp_pid_start = (false, 7) }))
          × (is_ok rc ≡ true
              → sr_plugin_init_cb clock_host 5 stopped
                ≡ done (
                  if is_negative (current_pid clock_host v') then disconnect else ok,
                  record { world = v'; vpp_pid_start = current_pid clock_host v' },
                )))
init_cb_lem_example = init_cb_lem clock_host stopped 5 1 (attempts 2) up_again (omega arith)
