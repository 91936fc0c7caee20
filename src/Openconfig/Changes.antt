-- ===== src/Openconfig/Changes.antt =====
-- Where oc_interfaces_config_cb agrees with the IETF callback.
use mathlib.Core.Path.{subst, fun_ext}
use archived_sweetcomb.Prelude.{
  String, false, ◌≡◌, refl, sym, ap, ◌∙◌, Option, none, some, List, [], ◌∷◌, is_empty, All,
}
use archived_sweetcomb.Outcome.{Outcome, returns, throws, crash, ◌>>=◌, ◌>>◌}
use archived_sweetcomb.Sysrepo.{
  ok, verify, created, modified, deleted, moved, SrOper, SrVal, Change, Session, Xpath,
  foreach_change,
}
use archived_sweetcomb.Vom.{Vom}
use archived_sweetcomb.Interface.{Garbage, Locals, Round, go_on, finish, start}
use archived_sweetcomb.Interface.Config.{
  change_xpath, on_change, on_changes, ietf_interface_create_cb,
}
use archived_sweetcomb.Openconfig.{oc_on_change, oc_on_changes, oc_interfaces_config_cb}

-- The change has a new value, inside an interface whose name is not empty.
pub record IsInside (X : Xpath) (c : Change) : Type 0 where
  pub ne : SrVal
  pub if_name : String
  pub present : c.new_val ≡ some ne
  pub inside : X.key_value ne.xpath "interface" "name" ≡ some if_name
  pub named : is_empty if_name ≡ false

module _ (X : Xpath) (V : Vom) where
  abbrev with_values : SrOper → Option SrVal → Option SrVal → Change
  with_values op old new = record { op = op; old_val = old; new_val = new }

  oc_on_change_at :
      (l : Locals V) (op : SrOper) (old : Option SrVal) (ne : SrVal) (if_name : String)
      → X.key_value ne.xpath "interface" "name" ≡ some if_name
      → is_empty if_name ≡ false
      → oc_on_change X V l (with_values op old (some ne)) ≡ (
          change_xpath (with_values op old (some ne))
          >> on_change X V l (with_values op old (some ne)))
  unfolding oc_on_change on_change change_xpath
  oc_on_change_at l created none ne n h e = rw (h, e) refl
  oc_on_change_at l created (some v) ne n h e = rw (h, e) refl
  oc_on_change_at l modified none ne n h e = rw (h, e) refl
  oc_on_change_at l modified (some v) ne n h e = rw (h, e) refl
  oc_on_change_at l deleted none ne n h e = rw (h, e) refl
  oc_on_change_at l deleted (some v) ne n h e = rw (h, e) refl
  oc_on_change_at l moved none ne n h e = rw (h, e) refl
  oc_on_change_at l moved (some v) ne n h e = rw (h, e) refl

  oc_on_change-eq :
      (l : Locals V) (c : Change)
      → IsInside X c
      → oc_on_change X V l c ≡ (change_xpath c >> on_change X V l c)
  oc_on_change-eq l c h =
      subst
        (λ new.
          let d = with_values c.op c.old_val new in
          oc_on_change X V l d ≡ (change_xpath d >> on_change X V l d))
        (sym h.present) (oc_on_change_at l c.op c.old_val h.ne h.if_name h.inside h.named)

  bind_assoc :
      (m : Outcome String) (n : Outcome (Round V)) (k : Round V → Outcome (Round V))
      → ((m >> n) >>= k) ≡ (m >>= λ _. n >>= k)
  bind_assoc (returns s) n k = refl
  bind_assoc throws n k = refl
  bind_assoc crash n k = refl

  oc_on_changes-eq :
      (cs : List Change) (l : Locals V)
      → All (IsInside X) cs
      → oc_on_changes X V l cs ≡ on_changes X V l cs
  unfolding oc_on_changes on_changes
  oc_on_changes-eq [] l h = refl
  oc_on_changes-eq (c ∷ cs) l h =
      ap (λ m. m >>= go_on V (λ l'. oc_on_changes X V l' cs)) (oc_on_change-eq l c h.0)
      ∙ bind_assoc (change_xpath c) (on_change X V l c) (go_on V (λ l'. oc_on_changes X V l' cs))
      ∙ ap (λ k. change_xpath c >>= λ _. on_change X V l c >>= go_on V k)
          (fun_ext (λ l'. oc_on_changes-eq cs l' h.1))

  module _ (g : Garbage) (ds : Session) (xpath : String) (db : V.Db)
      (ready : ds.get_changes_iter xpath ≡ ok) where
    -- On a verified transaction whose changes all have a new value inside a named interface, so on
    -- creations and modifications, the callback does what the IETF callback does with the same
    -- changes, in its answer, its effect on the database and its faults.
    pub oc_config_cb-eq-create_cb :
        All (IsInside X) (ds.changes xpath)
        → oc_interfaces_config_cb X V g (some ds) (some xpath) verify db
          ≡ ietf_interface_create_cb X V g ds xpath verify db
    unfolding oc_interfaces_config_cb ietf_interface_create_cb foreach_change
    oc_config_cb-eq-create_cb h =
        rw ready (ap (λ m. m >>= finish V) (oc_on_changes-eq (ds.changes xpath) (start V g db) h))
