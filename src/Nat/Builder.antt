-- ===== src/Nat/Builder.antt =====
-- What nat_static_builder::build makes of the four addresses.
use text.Mathlib.TextEquality.{eq_iff}
use archived_sweetcomb.Prelude.{◌≡◌, refl, ◌≢◌, none, some, ◌==◌, Bool-cases, inl, inr}
use archived_sweetcomb.Vom.{Vom}
use archived_sweetcomb.Prefix.RoundTrip.{prefix_is_empty-eq-false}
use archived_sweetcomb.Nat.{NatStaticBuilder, build_nat}

module _ (V : Vom) (b : NatStaticBuilder V) where
  -- With the type "static" an object is always built, from the two source addresses: it makes no
  -- difference which addresses were set, and the destination addresses are never read. With any
  -- other type the answer is null, and the builder stays as it was.
  pub build_nat_lem :
      (b.m_type ≡ "static"
        → build_nat V b ≡ (
          record b {
            m_inside = b.m_internal_src.m_address;
            m_outside = b.m_external_src.m_address;
          },
          some (V.nat_static b.m_internal_src.m_address b.m_external_src.m_address),
        ))
      × (b.m_type ≢ "static" → build_nat V b ≡ (b, none))
  unfolding build_nat
  build_nat_lem = (
    λ e. simp (e, prefix_is_empty-eq-false),
    λ differs. elim (Bool-cases (b.m_type == "static")) [
      | inl same ↦ absurd (differs ((eq_iff _ _).0 same))
      | inr other ↦ rw other refl
    ],
  )
