-- ===== src/Interface/Config/Tracking.antt =====
-- The loop of ietf_interface_create_cb of src/plugins/ietf/ietf_interface.cpp on the changes of any
-- number of edits: what its variables stand for in the model of Interface/Config/Sequence.antt.
use mathlib.Core.Path.{fun_ext}
use text.Mathlib.TextPositions.{eq_refl}
use archived_sweetcomb.Prelude.{
  String, Bool, true, false, ◌≡◌, refl, sym, ap, ◌∙◌, ◌||◌, if◌then◌else◌, none, some, List, [],
  ◌∷◌, ◌++◌, is_empty, All, Option-cases, inl, inr,
}
use archived_sweetcomb.Outcome.{Outcome, returns}
use archived_sweetcomb.Sysrepo.{operation_failed, Change, Xpath}
use archived_sweetcomb.Vom.{Vom}
use archived_sweetcomb.Interface.{
  int_of_bool, InterfaceBuilder, Locals, Round, continue, nothing_todo, shared, set_name,
}
use archived_sweetcomb.Interface.Laws.{InterfaceLaws}
use archived_sweetcomb.Interface.Config.{change_xpath, on_change, on_changes}
use archived_sweetcomb.Interface.Config.Creation.{
  NewInterface, Leaf, is_ethernet, builder_of, on_changes-creations,
}
use archived_sweetcomb.Interface.Config.Edits.{
  Edit, create_entry, set_enabled, delete_entry, changes_of, IsPlaced, Configuration,
  on_changes-delete,
}
use archived_sweetcomb.Interface.Config.Sequence.{
  all_changes, IsValid, Pending, idle, writes, removes, is_typed, deferred, all_deferred, sets, put,
  enact,
}

-- The type in the builder.
abbrev pub type_of : Bool → String
type_of typed = if typed then "ETHERNET" else ""

-- The variables behind some edits stand for what is pending.
abbrev pub Defers : Pending → Bool → Bool → InterfaceBuilder → Type 0
Defers idle create remove b = (create ≡ false) × (remove ≡ false) × (b.m_type ≡ "")
Defers (removes name) create remove b =
    (create ≡ false) × (remove ≡ true) × (b.m_name ≡ name) × (b.m_type ≡ "")
Defers (writes name state typed) create remove b =
    (create ≡ true)
    × (b ≡ record { m_name = name; m_type = type_of typed; m_state = state })
    × (is_empty name ≡ false)

deferred-delete :
    (p : Pending) (entry path name : String) (leaves : List Leaf) (create remove : Bool)
    (b : InterfaceBuilder)
    → is_empty name ≡ false
    → Defers p create remove b
    → Defers (deferred (delete_entry entry path name leaves) p) create true (set_name b name)
unfolding set_name
deferred-delete idle entry path name leaves create remove b named h = (h.0, refl, refl, h.2)
deferred-delete (removes other) entry path name leaves create remove b named h =
    (h.0, refl, refl, h.3)
deferred-delete (writes other state typed) entry path name leaves create remove b named h =
    (h.0, rw h.1 refl, named)

-- The type in the builder behind an interface that is created.
typed-create :
    (p : Pending) (ethernet create remove : Bool) (b : InterfaceBuilder)
    → Defers p create remove b
    → (if ethernet then "ETHERNET" else b.m_type) ≡ type_of (ethernet || is_typed p)
typed-create p true create remove b h = refl
typed-create idle false create remove b h = h.2
typed-create (removes name) false create remove b h = h.3
typed-create (writes name state typed) false create remove b h = rw h.1 refl

deferred-create :
    (p : Pending) (n : NewInterface) (create remove : Bool) (b : InterfaceBuilder)
    → is_empty n.name ≡ false
    → Defers p create remove b
    → Defers (deferred (create_entry n) p) true remove (builder_of (is_ethernet n) b.m_type n)
deferred-create p n create remove b named h = (
  refl,
  ap (λ type. record { m_name = n.name; m_type = type; m_state = n.enabled })
      (typed-create p (is_ethernet n) create remove b h),
  named,
)

module _ (X : Xpath) (V : Vom) (L : InterfaceLaws V) where
  -- The object that was set last is in the database as it is there.
  abbrev pub HasObject : Locals V → Type 0
  HasObject l =
      (r : V.InterfaceRef) × (l.intf ≡ shared r)
      × (L.view l.db (V.key (V.pointee l.db r)) ≡ some (L.admin (V.pointee l.db r)))

  abbrev pub Tracks : Pending → Bool → Locals V → Type 0
  Tracks p t l = Defers p l.create l.remove l.builder × (l.modify ≡ t) × (t ≡ true → HasObject l)

  -- How the loop ends, from what is pending behind it and from the model's configuration.
  abbrev pub Reaches : Pending → Bool → Bool × Configuration V → Outcome (Round V) → Type 0
  Reaches p t (true, config) m =
      (l : Locals V) × (m ≡ returns (continue l)) × (L.view l.db ≡ config) × Tracks p t l
  Reaches p t (false, config) m =
      (db : V.Db) × (m ≡ returns (nothing_todo operation_failed db)) × (L.view db ≡ config)

  module _ (l : Locals V) (rest : List Change) where
    on_changes-absent :
        (path name : String) (b : Bool)
        → IsPlaced X (set_enabled path name b)
        → V.find l.db name ≡ none
        → on_changes X V l (changes_of (set_enabled path name b) ++ rest)
          ≡ returns (nothing_todo operation_failed l.db)
    unfolding on_changes on_change change_xpath
    on_changes-absent path name b h absent = rw (h.0, h.1, absent) refl

    on_changes-set :
        (path name : String) (b : Bool) (r : V.InterfaceRef)
        → IsPlaced X (set_enabled path name b)
        → V.find l.db name ≡ some r
        → on_changes X V l (changes_of (set_enabled path name b) ++ rest)
          ≡ on_changes X V
              (record l {
                db = V.set l.db r (V.admin_from_int (int_of_bool b));
                intf = shared r;
                modify = true;
              })
              rest
    unfolding on_changes on_change change_xpath
    on_changes-set path name b r h found = rw (h.0, h.1, found) refl

  set_twice :
      (db : V.Db) (r : V.InterfaceRef) (a : V.AdminState)
      → let db' = V.set db r a in
        L.view db' (V.key (V.pointee db' r)) ≡ some (L.admin (V.pointee db' r))
  set_twice db r a = rw (L.key-set, L.view-set, eq_refl, L.admin-set) refl

  pub on_changes-Reaches :
      (es : List Edit) (l : Locals V) (p : Pending) (t : Bool)
      → Tracks p t l
      → All (IsValid X) es
      → Reaches
          (all_deferred es p)
          (sets es t)
          (enact V es (L.view l.db))
          (on_changes X V l (all_changes es))
  unfolding on_changes
  on_changes-Reaches [] l p t h valid = (l, refl, refl, h)
  on_changes-Reaches (create_entry n ∷ es) l p t h valid =
      rw (on_changes-creations X V n l (all_changes es) valid.0.0) (
        on_changes-Reaches es _ (deferred (create_entry n) p) t
          (deferred-create p n l.create l.remove l.builder valid.0.0.nonempty h.0, h.1, h.2)
          valid.1)
  on_changes-Reaches (delete_entry entry path name leaves ∷ es) l p t h valid =
      rw (on_changes-delete X V l (all_changes es) entry path name leaves valid.0.0) (
        on_changes-Reaches es _ (deferred (delete_entry entry path name leaves) p) t
          (
            deferred-delete p entry path name leaves l.create l.remove l.builder valid.0.1 h.0,
            h.1,
            h.2,
          )
          valid.1)
  on_changes-Reaches (set_enabled path name b ∷ es) l p t h valid =
      elim (Option-cases (L.view l.db name)) [
        | inl absent ↦
            rw
              (
                on_changes-absent l (all_changes es) path name b valid.0.0
                    (L.find_absent l.db name absent),
                absent,
                enact,
              )
              (l.db, refl, refl)
        | inr (old, present) ↦
            let (r, found, key) = L.find_present l.db name present in
            let a = V.admin_from_int (int_of_bool b) in
            let behind : L.view (V.set l.db r a) ≡ put V (L.view l.db) name (some a) =
              fun_ext (λ n. L.view-set l.db r a n ∙ rw key refl) in
            rw
              (
                on_changes-set l (all_changes es) path name b r valid.0.0 found,
                present,
                enact,
                sym behind,
              )
              (on_changes-Reaches es _ p true (h.0, refl, λ _. (r, refl, set_twice l.db r a))
                valid.1)
      ]
