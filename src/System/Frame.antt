-- ===== src/System/Frame.antt =====
-- What the calls on interfaces and on addresses leave alone in VOM's database.
use archived_sweetcomb.Prelude.{ℕ, String, ◌≡◌, ◌∙◌, arith, ◌==◌, Bool-cases, inl, inr}
use text.Mathlib.TextEquality.{eq_iff}
use text.Mathlib.TextLemmas.{cons-append}
use archived_sweetcomb.Vom.{Vom}
use archived_sweetcomb.Prefix.{decimal}
use archived_sweetcomb.Prefix.RoundTrip.{decimal_starts}
use archived_sweetcomb.Nat.Consistency.{NatLaws}
use archived_sweetcomb.Address.{l3_key}
use archived_sweetcomb.System.{IsNotNumber}

-- What the other plugins rely on in VOM for the mappings: an object of another kind that is written,
-- under whatever key, adds to what stands there, and an interface that is set stays where it is.
pub record FrameLaws (V : Vom) (L : NatLaws V) : Type 0 where
  pub view-set :
      (db : V.Db) (r : V.InterfaceRef) (a : V.AdminState) (n : String)
      → L.view (V.set db r a) n ≡ L.view db n
  pub view-write_interface :
      (db : V.Db) (k : String) (i : V.Interface) (n : String)
      → L.view (V.write_interface db k i).0 n ≡ L.view db n
  pub view-write_l3 :
      (db : V.Db) (k : String) (l3 : V.L3Binding) (n : String)
      → L.view (V.write_l3 db k l3).0 n ≡ L.view db n

module _ (V : Vom) (L : NatLaws V) where
  -- The same mapping under every number.
  abbrev pub SameMappings : V.Db → V.Db → Type 0
  SameMappings before db = (i : ℕ) → L.view db (decimal i) ≡ L.view before (decimal i)

  pub remove-SameMappings :
      (before db : V.Db) (k : String)
      → IsNotNumber k
      → SameMappings before db
      → SameMappings before (V.remove db k)
  remove-SameMappings before db k h same i = elim (Bool-cases (decimal i == k)) [
    | inl hit ↦ absurd (h i ((eq_iff _ _).0 hit))
    | inr miss ↦ L.view-remove db k (decimal i) ∙ rw miss (same i)
  ]

  -- The key of a binding is not a number.
  pub l3_key-IsNotNumber : (l3 : V.L3Binding) → IsNotNumber (l3_key V l3)
  unfolding l3_key
  l3_key-IsNotNumber l3 i e = decimal_starts i _ _ (omega arith) (e ∙ cons-append _ _ _)
