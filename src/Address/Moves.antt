-- ===== src/Address/Moves.antt =====
-- What the callback for addresses does with a transaction that adds an address to one interface and
-- then removes one from another, as when an address moves.
use text.Mathlib.TextPositions.{eq_refl}
use archived_sweetcomb.Prelude.{String, Bool, true, ◌≡◌, refl, ◌∙◌, ap, some, [], ◌∷◌}
use archived_sweetcomb.Outcome.{returns}
use archived_sweetcomb.Sysrepo.{ok, verify, Session, Xpath}
use archived_sweetcomb.Vom.{Vom}
use archived_sweetcomb.Address.{ietf_interface_ipv46_address_change_cb}
use archived_sweetcomb.Address.Store.{BindingLaws, AcceptsBindings}
use archived_sweetcomb.Address.Additions.{NewAddress}
use archived_sweetcomb.Address.Sequence.{
  add, remove, all_changes, IsValid, binding_key, IsNotKey, transacted,
}
use archived_sweetcomb.Address.Replay.{Knows, address_change_cb-Follows}

module _ (X : Xpath) (V : Vom) (L : BindingLaws V) (known : String → Bool) where
  transacted-moved :
      (to from : String) (a b : NewAddress) (p : V.VomPrefix) (bindings : String → Bool)
      → IsValid X (add to a)
      → IsValid X (remove from b)
      → known from ≡ true
      → V.prefix_t a.ip a.prefix_length ≡ some p
      → let model = transacted V known (add to a ∷ remove from b ∷ []) bindings in
        (model.0 ≡ ok) × (model.1 (binding_key V from p) ≡ true)
  transacted-moved to from a b p bindings placed placed' present parses =
      rw (placed.0.nonempty, placed'.0.nonempty, present, parses) (refl, rw eq_refl refl)

  -- A verified transaction that adds an address, whose text makes a prefix with its length, to
  -- one interface and then removes an address from another one, which VOM knows, is answered with
  -- SR_ERR_OK, and behind it the address that was added is bound to the interface that it was not
  -- added to: if an address moves and the addition is reported first, it stays where it was. The
  -- paths lead to the nodes that they name, the interfaces have names that are not empty and not
  -- the key of a binding, and VOM keeps the laws and refuses no binding.
  pub address_change_cb-moved :
      (session : Session) (xpath : String) (db : V.Db) (to from : String) (a b : NewAddress)
      (p : V.VomPrefix)
      → AcceptsBindings V
      → Knows V L known db
      → IsValid X (add to a)
      → IsValid X (remove from b)
      → IsNotKey V to
      → IsNotKey V from
      → known from ≡ true
      → V.prefix_t a.ip a.prefix_length ≡ some p
      → session.get_changes_iter xpath ≡ ok
      → session.changes xpath ≡ all_changes (add to a ∷ remove from b ∷ [])
      → (db' : V.Db) × (ietf_interface_ipv46_address_change_cb X V session xpath verify db
          ≡ returns (ok, db'))
        × (L.view db' (binding_key V from p) ≡ true)
  address_change_cb-moved session xpath db to from a b p accepts knows placed placed' free free'
        present parses ready changed =
      let (db', answers, view, _) =
        address_change_cb-Follows V L known accepts X session xpath db
          (add to a ∷ remove from b ∷ []) knows (placed, (placed', tt)) (free, (free', tt)) ready
          changed in
      let (accepted, bound) =
        transacted-moved to from a b p (L.view db) placed placed' present parses in
      (
        db',
        answers ∙ ap (λ rc. returns (rc, db')) accepted,
        ap (λ f. f (binding_key V from p)) view ∙ bound,
      )
