-- ===== src/Subscriptions/Startup.antt =====
-- What the start of the plugin subscribes to, in which order and up to where.
use mathlib.Core.Path.{fun_ext, subst}
use archived_sweetcomb.Prelude.{
  ℕ, zero, suc, false, ◌≡◌, refl, sym, ◌∙◌, ap, true, List, [], ◌∷◌, ◌++◌, Bool, All, Bool-cases,
  inl, inr,
}
use archived_sweetcomb.Sysrepo.{SrError, ok, is_ok}
use archived_sweetcomb.Init.{PluginMain, mark_init, sc_call_all_init_function}
use archived_sweetcomb.Init.Calls.{Distinct, pending, run_init, call_all_init-run_init}
use archived_sweetcomb.Subscriptions.{
  interface_create, address_change, interface_state, interface_statistics, nat_instance,
  nat_mapping_table, nat_cap_state, oc_interfaces_config, oc_interfaces_state, Subscription,
  subtree_change, dp_get_items, or_error, plugin_init, call_plugin,
}

-- The subscriptions of each plugin.
abbrev pub subscriptions_of : ℕ → List Subscription
subscriptions_of zero =
    subtree_change "/ietf-interfaces:interfaces/interface" interface_create 100
    ∷ subtree_change "/ietf-interfaces:interfaces/interface/ietf-ip:ipv4/address" address_change 99
    ∷ subtree_change "/ietf-interfaces:interfaces/interface/ietf-ip:ipv6/address" address_change 98
    ∷ dp_get_items "/ietf-interfaces:interfaces-state" interface_state
    ∷ dp_get_items "/ietf-interfaces:interfaces-state/interface/statistics" interface_statistics
    ∷ []
subscriptions_of (suc zero) =
    subtree_change "/ietf-nat:nat/instances/instance" nat_instance 1
    ∷ subtree_change "/ietf-nat:nat/instances/instance/mapping-table/mapping-entry"
        nat_mapping_table 10
    ∷ dp_get_items "/ietf-nat:nat/instances/instance/capabilities" nat_cap_state
    ∷ []
subscriptions_of (suc (suc n)) =
    subtree_change "/openconfig-interfaces:interfaces/interface/config" oc_interfaces_config 98
    ∷ dp_get_items "/openconfig-interfaces:interfaces/interface/state" oc_interfaces_state
    ∷ []

abbrev pub all_subscriptions : List ℕ → List Subscription
all_subscriptions [] = []
all_subscriptions (f ∷ fs) = subscriptions_of f ++ all_subscriptions fs

pending_all :
    (flags : ℕ → Bool) (fs : List ℕ) → All (λ f. flags f ≡ false) fs → pending flags fs ≡ fs
pending_all flags [] due = refl
pending_all flags (f ∷ fs) due = rw (due.0) (ap (◌∷◌ f) (pending_all flags fs due.1))

module _ (S : Type 0) (subscribe : Subscription → S → SrError × S) where
  -- Subscribing one after the other, up to the first failure.
  abbrev pub subscribe_all : List Subscription → S → SrError × S
  subscribe_all [] s = (ok, s)
  subscribe_all (x ∷ xs) s = or_error (subscribe x s) (subscribe_all xs)

  or_error_assoc :
      (r : SrError × S) (k k' : S → SrError × S)
      → or_error (or_error r k) k' ≡ or_error r (λ s. or_error (k s) k')
  or_error_assoc (ok, s) k k' = refl
  or_error_assoc (_, s) k k' = refl

  subscribe_all-append :
      (xs ys : List Subscription) (s : S)
      → subscribe_all (xs ++ ys) s ≡ or_error (subscribe_all xs s) (subscribe_all ys)
  subscribe_all-append [] ys s = refl
  subscribe_all-append (x ∷ xs) ys s =
      ap (or_error (subscribe x s)) (fun_ext (λ s'. subscribe_all-append xs ys s'))
      ∙ sym (or_error_assoc (subscribe x s) (subscribe_all xs) (subscribe_all ys))

  plugin_init-subscribe_all :
      (f : ℕ) (s : S) → plugin_init S subscribe f s ≡ subscribe_all (subscriptions_of f) s
  unfolding plugin_init
  plugin_init-subscribe_all zero s = refl
  plugin_init-subscribe_all (suc zero) s = refl
  plugin_init-subscribe_all (suc (suc n)) s = refl

  or_error_ok : (r : SrError × S) (k : S → SrError × S) → is_ok r.0 ≡ true → or_error r k ≡ k r.1
  or_error_ok (ok, s) k worked = refl
  or_error_ok (_, s) k worked = cc

  or_error_stop : (r : SrError × S) (k : S → SrError × S) → is_ok r.0 ≡ false → or_error r k ≡ r
  or_error_stop (ok, s) k failed = cc
  or_error_stop (_, s) k failed = refl

  -- The code and the subscription are those that the list of subscriptions leads to.
  abbrev pub Subscribes : List Subscription → S → SrError × PluginMain S → Type 0
  Subscribes xs s (rc, pm) = (rc ≡ (subscribe_all xs s).0) × (pm.state ≡ (subscribe_all xs s).1)

  run_init-Subscribes :
      (fs : List ℕ) (pm : PluginMain S)
      → Subscribes (all_subscriptions fs) pm.state (run_init S (call_plugin S subscribe) fs pm)
  unfolding call_plugin
  run_init-Subscribes [] pm = (refl, refl)
  run_init-Subscribes (f ∷ fs) pm =
      let first = subscribe_all (subscriptions_of f) pm.state in
      let rest = subscribe_all (all_subscriptions fs) in
      let split = subscribe_all-append (subscriptions_of f) (all_subscriptions fs) pm.state in
      elim (Bool-cases (is_ok first.0)) [
        | inl worked ↦
            let next : PluginMain S = record (mark_init S f pm) { state = first.1 } in
            rw (plugin_init-subscribe_all f pm.state, worked, split, or_error_ok first rest worked)
              (run_init-Subscribes fs next)
        | inr failed ↦
            rw
              (plugin_init-subscribe_all f pm.state, failed, split, or_error_stop first rest failed)
              (refl, refl)
      ]

  -- When the plugin starts, with each of its init functions registered once, in whatever order, and
  -- none called, sc_call_all_init_function makes the subscriptions of the plugins, one plugin after
  -- the other in that order, up to the first that fails, and answers its code, or SR_ERR_OK if none
  -- does.
  pub call_all_init-Subscribes :
      (pm : PluginMain S)
      → Distinct pm.init_functions.functions
      → All (λ f. pm.init_functions.is_called f ≡ false) pm.init_functions.functions
      → Subscribes
          (all_subscriptions pm.init_functions.functions)
          pm.state
          (sc_call_all_init_function S (call_plugin S subscribe) pm)
  unfolding call_plugin
  call_all_init-Subscribes pm distinct due =
      let fs = pm.init_functions.functions in
      let call = call_plugin S subscribe in
      let runs = call_all_init-run_init S call (record { local = λ f pm. refl }) pm distinct in
      let all = pending_all pm.init_functions.is_called fs due in
      subst (Subscribes (all_subscriptions fs) pm.state)
        (sym (runs ∙ ap (λ l. run_init S call l pm) all)) (run_init-Subscribes fs pm)
