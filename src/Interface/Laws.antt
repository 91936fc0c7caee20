-- ===== src/Interface/Laws.antt =====
-- What the interface plugins rely on in VOM, as its headers document it: the database maps the name
-- of each interface to its administrative state, interface::find answers the object of that name,
-- interface::set changes the object, OM::write commits it and OM::remove drops it.
use archived_sweetcomb.Prelude.{String, true, ◌≡◌, Option, none, some, ◌==◌, if◌then◌else◌}
use archived_sweetcomb.Vom.{Vom}

pub record InterfaceLaws (V : Vom) : Type 0 where
  pub view : V.Db → String → Option V.AdminState
  pub admin : V.Interface → V.AdminState
  pub key-interface :
      (n : String) (t : V.InterfaceType) (a : V.AdminState) → V.key (V.interface n t a) ≡ n
  pub admin-interface :
      (n : String) (t : V.InterfaceType) (a : V.AdminState) → admin (V.interface n t a) ≡ a
  pub find_absent : (db : V.Db) (n : String) → view db n ≡ none → V.find db n ≡ none
  pub find_present :
      (db : V.Db) (n : String) {a : V.AdminState}
      → view db n ≡ some a
      → (r : V.InterfaceRef) × (V.find db n ≡ some r) × (V.key (V.pointee db r) ≡ n)
  pub key-set :
      (db : V.Db) (r : V.InterfaceRef) (a : V.AdminState)
      → V.key (V.pointee (V.set db r a) r) ≡ V.key (V.pointee db r)
  pub admin-set :
      (db : V.Db) (r : V.InterfaceRef) (a : V.AdminState) → admin (V.pointee (V.set db r a) r) ≡ a
  pub view-set :
      (db : V.Db) (r : V.InterfaceRef) (a : V.AdminState) (n : String)
      → view (V.set db r a) n ≡ (if n == V.key (V.pointee db r) then some a else view db n)
  pub view-write :
      (db : V.Db) (i : V.Interface) (n : String)
      → (V.write_interface db (V.key i) i).1 ≡ true
      → view (V.write_interface db (V.key i) i).0 n
        ≡ (if n == V.key i then some (admin i) else view db n)
  pub view-remove :
      (db : V.Db) (k n : String) → view (V.remove db k) n ≡ (if n == k then none else view db n)
