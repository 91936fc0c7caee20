-- ===== src/System/Phases.antt =====
-- The phases of a transaction. sysrepo calls a callback first to verify the changes and then to apply
-- or to abort them; the configuration callbacks of the three plugins write to VOM while they verify.
use archived_sweetcomb.Prelude.{
  String, ◌≡◌, refl, false, Option, none, some, List, [], ◌∷◌, All, ◌⊎◌, inl, inr, Bool-cases,
}
use archived_sweetcomb.Outcome.{Outcome, returns, ◌>>=◌, >>=-cong}
use archived_sweetcomb.Sysrepo.{
  SrError, ok, inval_arg, is_ok, SrEvent, is_verify, verify, apply, abort, Session, Xpath,
  foreach_change,
}
use archived_sweetcomb.Vom.{Vom}
use archived_sweetcomb.Interface.{Garbage}
use archived_sweetcomb.Interface.Config.{ietf_interface_create_cb}
use archived_sweetcomb.Openconfig.{oc_interfaces_config_cb}
use archived_sweetcomb.Address.{initial, on_changes, ietf_interface_ipv46_address_change_cb}
use archived_sweetcomb.Nat.{NatGarbage, NatState, nat_mapping_table_config_cb}

module _ {S : Type 0} (callback : SrEvent → S → Outcome (SrError × S)) where
  -- The callback in these phases, one after the other, whatever it answers.
  unfoldable pub phases : List SrEvent → S → Outcome S
  phases [] s = returns s
  phases (event ∷ events) s = callback event s >>= λ r. phases events r.1

  -- In this phase the callback leaves the state alone.
  abbrev pub IsInert : SrEvent → Type 0
  IsInert event = (s : S) → (rc : SrError) × (callback event s ≡ returns (rc, s))

  phases-IsInert :
      (events : List SrEvent) (s : S) → All IsInert events → phases events s ≡ returns s
  unfolding phases
  phases-IsInert [] s h = refl
  phases-IsInert (event ∷ events) s h = let (rc, e) = h.0 s in rw e (phases-IsInert events s h.1)

  pub phases-behind :
      (event : SrEvent) (behind : List SrEvent) (s : S)
      → All IsInert behind
      → phases (event ∷ behind) s ≡ phases (event ∷ []) s
  unfolding phases
  phases-behind event behind s h =
      >>=-cong (callback event s) _ _ (λ r. phases-IsInert behind r.1 h)

-- The end of a transaction.
abbrev pub IsEnd : SrEvent → Type 0
IsEnd event = (event ≡ apply) ⊎ (event ≡ abort)

All-IsEnd :
    (P : SrEvent → Type 0) (events : List SrEvent)
    → P apply
    → P abort
    → All IsEnd events
    → All P events
All-IsEnd P [] p q h = tt
All-IsEnd P (e ∷ es) p q (inl is_apply, h) = (rw is_apply p, All-IsEnd P es p q h)
All-IsEnd P (e ∷ es) p q (inr is_abort, h) = (rw is_abort q, All-IsEnd P es p q h)

module _ (X : Xpath) (V : Vom) where
  address-IsInert :
      (session : Session) (xpath : String)
      → IsInert (ietf_interface_ipv46_address_change_cb X V session xpath) abort
  unfolding ietf_interface_ipv46_address_change_cb foreach_change on_changes initial
  address-IsInert session xpath db = elim (Bool-cases (is_ok (session.get_changes_iter xpath))) [
    | inl ready ↦ (ok, rw ready refl)
    | inr failed ↦ (session.get_changes_iter xpath, rw failed refl)
  ]

  oc-IsInert :
      (g : Garbage) (ds : Option Session) (xpath : Option String) (event : SrEvent)
      → is_verify event ≡ false
      → IsInert (oc_interfaces_config_cb X V g ds xpath) event
  unfolding oc_interfaces_config_cb
  oc-IsInert g none xpath event h db = (inval_arg, refl)
  oc-IsInert g (some ds) none event h db = (inval_arg, refl)
  oc-IsInert g (some ds) (some xpath) event h db = (ok, rw h refl)

  nat-IsInert :
      (g : NatGarbage) (ds : Option Session) (xpath : Option String) (event : SrEvent)
      → is_verify event ≡ false
      → IsInert (nat_mapping_table_config_cb X V g ds xpath) event
  unfolding nat_mapping_table_config_cb
  nat-IsInert g none xpath event h s = (inval_arg, refl)
  nat-IsInert g (some ds) none event h s = (inval_arg, refl)
  nat-IsInert g (some ds) (some xpath) event h s = (ok, rw h refl)

  pub create_cb-behind :
      (g : Garbage) (session : Session) (xpath : String) (db : V.Db) (behind : List SrEvent)
      → All IsEnd behind
      → phases (ietf_interface_create_cb X V g session xpath) (verify ∷ behind) db
        ≡ phases (ietf_interface_create_cb X V g session xpath) (verify ∷ []) db
  unfolding ietf_interface_create_cb
  create_cb-behind g session xpath db behind end =
      phases-behind _ verify behind db
        (All-IsEnd (IsInert _) behind (λ _. (ok, refl)) (λ _. (ok, refl)) end)

  pub address_change_cb-behind :
      (session : Session) (xpath : String) (db : V.Db) (behind : List SrEvent)
      → All IsEnd behind
      → phases (ietf_interface_ipv46_address_change_cb X V session xpath) (verify ∷ behind) db
        ≡ phases (ietf_interface_ipv46_address_change_cb X V session xpath) (verify ∷ []) db
  unfolding ietf_interface_ipv46_address_change_cb
  address_change_cb-behind session xpath db behind end =
      phases-behind _ verify behind db
        (All-IsEnd (IsInert _) behind (λ _. (ok, refl)) (address-IsInert session xpath) end)

  pub mapping_cb-behind :
      (g : NatGarbage) (ds : Option Session) (path : Option String) (s : NatState V)
      (behind : List SrEvent)
      → All IsEnd behind
      → phases (nat_mapping_table_config_cb X V g ds path) (verify ∷ behind) s
        ≡ phases (nat_mapping_table_config_cb X V g ds path) (verify ∷ []) s
  mapping_cb-behind g ds path s behind end = phases-behind _ verify behind s (
      All-IsEnd (IsInert _) behind (nat-IsInert g ds path apply refl)
        (nat-IsInert g ds path abort refl) end)

  -- What the verification of a transaction does to VOM's database and to the table of static mappings
  -- stays: a later application adds nothing, and a later abortion undoes nothing. This holds of all
  -- four configuration callbacks.
  pub phases-keep_verified :
      (g : Garbage) (ng : NatGarbage) (session : Session) (ds : Option Session) (xpath : String)
      (path : Option String) (db : V.Db) (s : NatState V) (behind : List SrEvent)
      → All IsEnd behind
      → (phases (ietf_interface_create_cb X V g session xpath) (verify ∷ behind) db
          ≡ phases (ietf_interface_create_cb X V g session xpath) (verify ∷ []) db)
        × (phases (oc_interfaces_config_cb X V g ds path) (verify ∷ behind) db
            ≡ phases (oc_interfaces_config_cb X V g ds path) (verify ∷ []) db)
        × (phases (ietf_interface_ipv46_address_change_cb X V session xpath) (verify ∷ behind) db
            ≡ phases (ietf_interface_ipv46_address_change_cb X V session xpath) (verify ∷ []) db)
        × (phases (nat_mapping_table_config_cb X V ng ds path) (verify ∷ behind) s
            ≡ phases (nat_mapping_table_config_cb X V ng ds path) (verify ∷ []) s)
  phases-keep_verified g ng session ds xpath path db s behind end = (
    create_cb-behind g session xpath db behind end,
    phases-behind _ verify behind db (
        All-IsEnd (IsInert _) behind (oc-IsInert g ds path apply refl)
          (oc-IsInert g ds path abort refl) end),
    address_change_cb-behind session xpath db behind end,
    mapping_cb-behind ng ds path s behind end,
  )
