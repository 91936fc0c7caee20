-- ===== src/Address/Sequence.antt =====
-- What a transaction with any number of edits of addresses makes VOM do: the model against which
-- ietf_interface_ipv46_address_change_cb of src/plugins/ietf/ietf_interface.cpp is read. What the
-- callback remembers from one change to the next makes it repeat itself.
use archived_sweetcomb.Prelude.{
  ℕ, String, Bool, true, false, not, ◌&&◌, ◌≡◌, none, some, List, [], ◌∷◌, ◌++◌, ◌<>◌, ◌==◌,
  if◌then◌else◌, is_empty,
}
use archived_sweetcomb.Sysrepo.{SrError, ok, inval_arg, operation_failed, Change, Xpath}
use archived_sweetcomb.Vom.{Vom}
use archived_sweetcomb.Address.{ipv46_config_add_remove}
use archived_sweetcomb.Address.Additions.{NewAddress, IsAddressOf, additions}
use archived_sweetcomb.Address.Removals.{removals}
use archived_sweetcomb.Address.Lengths.{NewLength, IsLengthOf, length_change}

-- An address is added to an interface, or removed from one, or gets another length.
pub data AddressEdit : Type 0 where
  add : String → NewAddress → AddressEdit
  remove : String → NewAddress → AddressEdit
  resize : NewLength → AddressEdit

abbrev pub changes_of : AddressEdit → List Change
changes_of (add n a) = additions a
changes_of (remove n a) = removals a
changes_of (resize c) = length_change c ∷ []

abbrev pub all_changes : List AddressEdit → List Change
all_changes [] = []
all_changes (e ∷ es) = changes_of e ++ all_changes es

-- The paths lead to the nodes that the edit names, inside an interface with a name.
abbrev pub IsValid : Xpath → AddressEdit → Type 0
IsValid X (add n a) = IsAddressOf X n a × (is_empty n ≡ false)
IsValid X (remove n a) = IsAddressOf X n a × (is_empty n ≡ false)
IsValid X (resize c) = IsLengthOf X c

-- What is remembered: the address and the length that were created last and that were deleted last,
-- and whether there was a creation and a deletion at all.
pub record Memory : Type 0 where
  pub new_addr : String
  pub new_prefix : ℕ
  pub old_addr : String
  pub old_prefix : ℕ
  pub create : Bool
  pub del : Bool

abbrev pub blank : Memory
blank = record {
  new_addr = "";
  new_prefix = 0;
  old_addr = "";
  old_prefix = 0;
  create = false;
  del = false;
}

-- A binding of an address and a length on an interface is made or dropped.
pub data Operation : Type 0 where
  bind : String → String → ℕ → Operation
  unbind : String → String → ℕ → Operation

-- What each change makes the callback do, on the interface of the change: drop the binding that it
-- remembers as deleted, and make the one that it remembers as created.
abbrev pub repeat : Memory → String → List Operation
repeat m n =
    (if m.del && not (is_empty m.old_addr) then unbind n m.old_addr m.old_prefix ∷ [] else [])
    ++ (if m.create && not (is_empty m.new_addr) then bind n m.new_addr m.new_prefix ∷ [] else [])

-- What is remembered behind the entry and behind the leaf ip of an address that is added or removed.
abbrev pub entered : Memory → Memory
entered m = record m { create = true; new_addr = "" }

abbrev pub left : Memory → Memory
left m = record m { del = true; old_addr = "" }

abbrev pub addressed : Memory → NewAddress → Memory
addressed m a = record (entered m) { new_addr = a.ip }

abbrev pub deserted : Memory → NewAddress → Memory
deserted m a = record (left m) { old_addr = a.ip }

-- What is remembered behind an edit.
abbrev pub remembered : Memory → AddressEdit → Memory
remembered m (add n a) = record (addressed m a) { new_prefix = a.prefix_length }
remembered m (remove n a) = record (deserted m a) { old_prefix = a.prefix_length }
remembered m (resize c) = record m {
  create = true;
  del = true;
  old_prefix = c.before;
  new_prefix = c.later;
}

abbrev pub interface_of : AddressEdit → String
interface_of (add n a) = n
interface_of (remove n a) = n
interface_of (resize c) = c.if_name

-- What the changes of an edit lead to.
abbrev pub operations_of : Memory → AddressEdit → List Operation
operations_of m (add n a) =
    repeat (entered m) n ++ repeat (addressed m a) n ++ repeat (remembered m (add n a)) n
operations_of m (remove n a) =
    repeat (left m) n ++ repeat (deserted m a) n ++ repeat (remembered m (remove n a)) n
operations_of m (resize c) = repeat (remembered m (resize c)) c.if_name

abbrev pub operations : Memory → List AddressEdit → List Operation
operations m [] = []
operations m (e ∷ es) = operations_of m e ++ operations (remembered m e) es

module _ (V : Vom) where
  -- The operations in VOM; the answer is that of the last one.
  abbrev pub perform : List Operation → SrError × V.Db → SrError × V.Db
  perform [] r = r
  perform (bind n addr prefix ∷ ops) r =
      perform ops (ipv46_config_add_remove V n addr prefix true r.1)
  perform (unbind n addr prefix ∷ ops) r =
      perform ops (ipv46_config_add_remove V n addr prefix false r.1)

  -- The store of bindings: which keys are in VOM's database.
  abbrev pub Bindings : Type 0
  Bindings = String → Bool

  -- The key of the binding of a prefix on an interface, and that a text is no such key.
  abbrev pub binding_key : String → V.VomPrefix → String
  binding_key n p = "l3_" <> (n <> ("_" <> V.prefix_to_string p))

  abbrev pub IsNotKey : String → Type 0
  IsNotKey n = (other : String) (p : V.VomPrefix) → (n == binding_key other p) ≡ false

  module _ (known : String → Bool) where
    -- A binding on an interface that is known is there or not behind the operation, if the text and
    -- the length make a prefix.
    abbrev pub marked : String → String → ℕ → Bool → Bindings → SrError × Bindings
    marked n addr prefix there bindings =
        if known n
        then elim (V.prefix_t addr prefix) [
          | none ↦ (operation_failed, bindings)
          | some p ↦ (ok, λ k. if k == binding_key n p then there else bindings k)
        ]
        else (inval_arg, bindings)

    abbrev pub effects : List Operation → SrError × Bindings → SrError × Bindings
    effects [] r = r
    effects (bind n addr prefix ∷ ops) r = effects ops (marked n addr prefix true r.1)
    effects (unbind n addr prefix ∷ ops) r = effects ops (marked n addr prefix false r.1)

    -- The answer to a transaction and the store behind it.
    abbrev pub transacted : List AddressEdit → Bindings → SrError × Bindings
    transacted edits bindings = effects (operations blank edits) (ok, bindings)
