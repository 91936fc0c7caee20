-- ===== src/Sysrepo.antt =====
-- The types of sysrepo's C API that the plugins read and write (sysrepo.h is not part of the
-- repository), and the macro foreach_change of src/plugins/sys_util.h. What sysrepo computes (the
-- parsing of XPaths, the change iterator, the allocation of values) is a parameter of the model.
use archived_sweetcomb.Prelude.{
  ◌≡◌, ◌≢◌, refl, ℕ, String, Bool, true, false, Option, none, some, List, [], ◌==◌, ◌⊎◌, inl, inr,
}
use archived_sweetcomb.Outcome.{Outcome, returns, crash}

-- The return codes SR_ERR_OK, SR_ERR_INVAL_ARG, ... that the plugins name; any other is `other`.
pub data SrError : Type 0 where
  ok inval_arg nomem unsupported operation_failed disconnect : SrError
  other : ℕ → SrError

-- `rc == SR_ERR_OK`
abbrev pub is_ok : SrError → Bool
is_ok ok = true
is_ok _ = false

pub is_ok-ok : (rc : SrError) → is_ok rc ≡ true → rc ≡ ok
is_ok-ok ok h = refl
is_ok-ok _ h = cc

pub not_ok : (rc : SrError) → is_ok rc ≡ false → rc ≢ ok
not_ok ok h = cc
not_ok _ h = λ e. cc

-- sr_notif_event_t
pub data SrEvent : Type 0 where
  verify apply abort enabled : SrEvent

abbrev pub is_verify : SrEvent → Bool
is_verify verify = true
is_verify _ = false

abbrev pub is_apply : SrEvent → Bool
is_apply apply = true
is_apply _ = false

-- sr_change_oper_t
pub data SrOper : Type 0 where
  created modified deleted moved : SrOper

-- sr_type_t, as far as the plugins name its members
pub data SrType : Type 0 where
  list_t container_t string_t identityref_t enum_t bool_t uint8_t uint16_t uint32_t uint64_t
        int32_t :
      SrType

-- The union sr_data_t, with the member that is stored. An int32_t is its bit pattern.
pub data SrData : Type 0 where
  no_data : SrData
  string_val : String → SrData
  bool_val : Bool → SrData
  uint8_val uint16_val uint32_val uint64_val int32_val : ℕ → SrData

-- sr_val_t
pub record SrVal : Type 0 where
  pub xpath : String
  pub type : SrType
  pub datum : SrData

-- `val->data.string_val` and the like: reading another member than the one stored is undefined.
abbrev pub read_string : SrVal → Outcome String
read_string v = elim v.datum [ string_val s ↦ returns s | _ ↦ crash ]

abbrev pub read_bool : SrVal → Outcome Bool
read_bool v = elim v.datum [ bool_val b ↦ returns b | _ ↦ crash ]

abbrev pub read_uint8 : SrVal → Outcome ℕ
read_uint8 v = elim v.datum [ uint8_val n ↦ returns n | _ ↦ crash ]

abbrev pub read_uint32 : SrVal → Outcome ℕ
read_uint32 v = elim v.datum [ uint32_val n ↦ returns n | _ ↦ crash ]

-- A text is read where the value holds one, and nowhere else.
text_or_crash :
    (d : SrData)
    → ((s : String) × (d ≡ string_val s))
      ⊎ Path (Outcome String) (elim d [ string_val s ↦ returns s | _ ↦ crash ]) crash
text_or_crash (string_val s) = inl (s, refl)
text_or_crash _ = inr refl

pub read_string-cases :
    (v : SrVal) → ((s : String) × (v.datum ≡ string_val s)) ⊎ (read_string v ≡ crash)
read_string-cases v = text_or_crash v.datum

bool_or_crash :
    (d : SrData)
    → ((b : Bool) × (d ≡ bool_val b))
      ⊎ Path (Outcome Bool) (elim d [ bool_val b ↦ returns b | _ ↦ crash ]) crash
bool_or_crash (bool_val b) = inl (b, refl)
bool_or_crash _ = inr refl

pub read_bool-cases : (v : SrVal) → ((b : Bool) × (v.datum ≡ bool_val b)) ⊎ (read_bool v ≡ crash)
read_bool-cases v = bool_or_crash v.datum

-- The value holds that member of the union.
abbrev pub HasString : SrVal → Type 0
HasString v = (s : String) × (v.datum ≡ string_val s)

abbrev pub HasBool : SrVal → Type 0
HasBool v = (b : Bool) × (v.datum ≡ bool_val b)

abbrev pub HasUint8 : SrVal → Type 0
HasUint8 v = (n : ℕ) × (v.datum ≡ uint8_val n)

abbrev pub HasUint32 : SrVal → Type 0
HasUint32 v = (n : ℕ) × (v.datum ≡ uint32_val n)

-- What one call of sr_get_change_next stores. A created node has no old value, a deleted one no
-- new value.
pub record Change : Type 0 where
  pub op : SrOper
  pub old_val : Option SrVal
  pub new_val : Option SrVal

-- What sr_get_changes_iter answers for an XPath, and the changes that its iterator then yields.
pub record Session : Type 0 where
  pub get_changes_iter : String → SrError
  pub changes : String → List Change

-- sysrepo's XPath helpers. sr_xpath_node_name_eq compares the name of the last node with a text;
-- sr_xpath_key_value finds the value of a key of a node, or answers NULL.
pub record Xpath : Type 0 where
  pub node_name : String → String
  pub key_value : String → String → String → Option String

abbrev pub node_name_eq : Xpath → String → String → Bool
node_name_eq X xpath name = X.node_name xpath == name

-- `ARG_CHECK(retval, arg)`: a null pointer returns at once.
abbrev pub arg_check {ℓ κ} : {A : Type ℓ} {R : Type κ} → R → Option A → (A → R) → R
arg_check retval none rest = retval
arg_check retval (some arg) rest = rest arg

-- `ARG_CHECK2(retval, arg1, arg2)`
abbrev pub arg_check2 {ℓ κ μ} :
    {A : Type ℓ} {B : Type κ} {R : Type μ} → R → Option A → Option B → (A → B → R) → R
arg_check2 retval arg1 arg2 rest =
    arg_check retval arg1 (λ a. arg_check retval arg2 (λ b. rest a b))

-- `ARG_CHECK3(retval, arg1, arg2, arg3)`
abbrev pub arg_check3 {ℓ κ μ ν} :
    {A : Type ℓ} {B : Type κ} {C : Type μ} {R : Type ν}
    → R
    → Option A
    → Option B
    → Option C
    → (A → B → C → R)
    → R
arg_check3 retval arg1 arg2 arg3 rest =
    arg_check retval arg1 (λ a. arg_check2 retval arg2 arg3 (λ b c. rest a b c))

-- The values that `foreach_change` visits: none at all in an abort.
unfoldable pub foreach_change : SrEvent → List Change → List Change
foreach_change abort changes = []
foreach_change _ changes = changes
