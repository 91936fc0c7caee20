-- ===== src/Interface/Config/Sequence.antt =====
-- What a transaction with any number of edits asks for, on an abstract configuration: the model
-- against which ietf_interface_create_cb of src/plugins/ietf/ietf_interface.cpp is read.
use archived_sweetcomb.Prelude.{
  String, Bool, true, false, ◌≡◌, Option, none, some, List, [], ◌∷◌, ◌++◌, ◌==◌, ◌||◌,
  if◌then◌else◌, is_empty,
}
use archived_sweetcomb.Sysrepo.{SrError, ok, inval_arg, operation_failed, Change, Xpath}
use archived_sweetcomb.Vom.{Vom}
use archived_sweetcomb.Interface.{int_of_bool, Garbage}
use archived_sweetcomb.Interface.Config.Creation.{is_ethernet}
use archived_sweetcomb.Interface.Config.Edits.{
  Edit, create_entry, set_enabled, delete_entry, changes_of, IsPlaced, Configuration,
}

-- The changes of all edits, one after the other.
abbrev pub all_changes : List Edit → List Change
all_changes [] = []
all_changes (e ∷ es) = changes_of e ++ all_changes es

-- An entry that is deleted has a name.
abbrev HasName : Edit → Type 0
HasName (create_entry n) = Unit
HasName (set_enabled path name b) = Unit
HasName (delete_entry entry path name leaves) = is_empty name ≡ false

-- The paths lead to the nodes, and the names are not empty.
abbrev pub IsValid : Xpath → Edit → Type 0
IsValid X e = IsPlaced X e × HasName e

-- None of the flags, which the code leaves uninitialised, is true.
abbrev pub IsAllClear : Garbage → Type 0
IsAllClear g = (g.create ≡ false) × (g.modify ≡ false) × (g.remove ≡ false)

-- What the creations and the deletions of a transaction come to: one interface that is written, with
-- its state and with whether a supported type was given, or one that is removed.
pub data Pending : Type 0 where
  idle : Pending
  writes : String → Bool → Bool → Pending
  removes : String → Pending

-- A type that was given before stays.
abbrev pub is_typed : Pending → Bool
is_typed idle = false
is_typed (writes name b typed) = typed
is_typed (removes name) = false

-- A creation replaces what was pending; a deletion too, but a pending write it only renames.
abbrev pub deferred : Edit → Pending → Pending
deferred (create_entry n) p = writes n.name n.enabled (is_ethernet n || is_typed p)
deferred (set_enabled path name b) p = p
deferred (delete_entry entry path name leaves) idle = removes name
deferred (delete_entry entry path name leaves) (removes other) = removes name
deferred (delete_entry entry path name leaves) (writes other b typed) = writes name b typed

abbrev pub all_deferred : List Edit → Pending → Pending
all_deferred [] p = p
all_deferred (e ∷ es) p = all_deferred es (deferred e p)

-- Whether a leaf enabled is set.
abbrev pub sets : List Edit → Bool → Bool
sets [] t = t
sets (create_entry n ∷ es) t = sets es t
sets (set_enabled path name b ∷ es) t = sets es true
sets (delete_entry entry path name leaves ∷ es) t = sets es t

module _ (V : Vom) where
  abbrev pub put : Configuration V → String → Option V.AdminState → Configuration V
  put config name state n = if n == name then state else config n

  abbrev pub state_of : Bool → Option V.AdminState
  state_of b = some (V.admin_from_int (int_of_bool b))

  -- The leaves enabled are set one after the other, up to the first interface that is not there.
  abbrev pub enact : List Edit → Configuration V → Bool × Configuration V
  enact [] config = (true, config)
  enact (create_entry n ∷ es) config = enact es config
  enact (delete_entry entry path name leaves ∷ es) config = enact es config
  enact (set_enabled path name b ∷ es) config = elim (config name) [
    | none ↦ (false, config)
    | some old ↦ enact es (put config name (state_of b))
  ]

  -- What is pending is done at the end: an interface without a supported type is refused, and one is
  -- removed only if no leaf was set.
  abbrev pub settle : Pending → Bool → Configuration V → SrError × Configuration V
  settle idle t config = (ok, config)
  settle (writes name b true) t config = (ok, put config name (state_of b))
  settle (writes name b false) t config = (inval_arg, config)
  settle (removes name) true config = (ok, config)
  settle (removes name) false config = (ok, put config name none)

  -- The answer to the transaction, and the configuration behind it.
  abbrev pub transacted : List Edit → Configuration V → SrError × Configuration V
  transacted es config =
      let (done, reached) = enact es config in
      if done
      then settle (all_deferred es idle) (sets es false) reached
      else (operation_failed, reached)
