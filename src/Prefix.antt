-- ===== src/Prefix.antt =====
-- The class utils::prefix of src/plugins/sys_util.h and sys_util.cpp, with what it uses of the C++
-- library: std::string::find_last_of and substr, std::stoi, and the printing of an unsigned number.
-- An unsigned short has 16 bits.
pub mod RoundTrip
use archived_sweetcomb.Prelude.{
  ℕ, zero, suc, ◌+◌, ◌-◌, ◌*◌, ◌/◌, ◌%◌, String, Char, code, ◌<>◌, Bool, true, false, ◌&&◌, ◌||◌,
  Option, none, some, ltb, leb, eqb, if◌then◌else◌, is_empty,
}
use archived_sweetcomb.Outcome.{Outcome, returns, throws, ◌>>=◌, or_throw}
use archived_sweetcomb.Vom.{Vom}

-- The texts before and behind the last '/': `p.find_last_of('/')`, `p.substr(0, found)` and
-- `p.substr(found+1, p.length())`.
unfoldable pub split_last : String → Option (String × String)
split_last String.[] = none
split_last (String.◌∷◌ c s) = elim (split_last s) [
  | some (before, behind) ↦ some (String.◌∷◌ c before, behind)
  | none ↦ if eqb (code c) b'/' then some ("", s) else none
]

unfoldable pub is_digit : Char → Bool
is_digit c = leb b'0' (code c) && leb (code c) b'9'

-- The characters for which `isspace` holds.
unfoldable pub is_space : Char → Bool
is_space c = eqb (code c) b' ' || (leb 9 (code c) && leb (code c) 13)

unfoldable pub skip_spaces : String → String
skip_spaces String.[] = ""
skip_spaces (String.◌∷◌ c s) =
    let rest = skip_spaces s in if is_space c then rest else String.◌∷◌ c s

-- The number that the leading digits write, behind digits worth acc.
unfoldable pub leading : ℕ → String → ℕ
leading acc String.[] = acc
leading acc (String.◌∷◌ c s) =
    let rest = leading (acc * 10 + (code c - b'0')) s in if is_digit c then rest else acc

-- An int, as a sign (true for a negative one) and a magnitude.
abbrev pub CInt : Type 0
CInt = Bool × ℕ

-- std::stoi, on the text behind the spaces and the sign: at least one digit, and within the range
-- of an int, or else an exception (`none`).
unfoldable pub magnitude : Bool → String → Option CInt
magnitude negative String.[] = none
magnitude negative (String.◌∷◌ c s) =
    if is_digit c
    then (let m = leading 0 (String.◌∷◌ c s) in
        if leb m (if negative then 2_147_483_648 else 2_147_483_647)
        then some (negative, m)
        else none)
    else none

unfoldable pub signed : String → Option CInt
signed String.[] = none
signed (String.◌∷◌ c s) =
    if eqb (code c) b'-'
    then magnitude true s
    else if eqb (code c) b'+'
    then magnitude false s
    else magnitude false (String.◌∷◌ c s)

unfoldable pub stoi : String → Option CInt
unfolding signed magnitude skip_spaces
stoi s = signed (skip_spaces s)

-- Conversion of an int to unsigned short.
unfoldable pub to_ushort : CInt → ℕ
to_ushort (true, m) = (65_536 - m % 65_536) % 65_536
to_ushort (false, m) = m % 65_536

-- The digit with the value d, for d below 10.
unfoldable pub digit : ℕ → Char
digit zero = "0"
digit (suc zero) = "1"
digit (suc (suc zero)) = "2"
digit (suc (suc (suc zero))) = "3"
digit (suc (suc (suc (suc zero)))) = "4"
digit (suc (suc (suc (suc (suc zero))))) = "5"
digit (suc (suc (suc (suc (suc (suc zero)))))) = "6"
digit (suc (suc (suc (suc (suc (suc (suc zero))))))) = "7"
digit (suc (suc (suc (suc (suc (suc (suc (suc zero)))))))) = "8"
digit (suc (suc (suc (suc (suc (suc (suc (suc (suc n))))))))) = "9"

-- A number in decimal, in front of a text, on fuel; as much as the number itself is enough.
unfoldable pub print : ℕ → ℕ → String → String
print zero n rest = String.◌∷◌ (digit (n % 10)) rest
print (suc fuel) n rest =
    let more = print fuel (n / 10) (String.◌∷◌ (digit (n % 10)) rest) in
    if ltb n 10 then String.◌∷◌ (digit (n % 10)) rest else more

-- std::to_string, and `<<` of an unsigned number.
unfoldable pub decimal : ℕ → String
unfolding print digit
decimal n = print n n ""

module _ (V : Vom) where
  pub record Prefix : Type 0 where
    pub m_address : V.Address
    pub m_prefix_len : ℕ

  -- `prefix::prefix()`: m_prefix_len is not initialised.
  unfoldable pub default_prefix : ℕ → Prefix
  default_prefix garbage = record { m_address = V.no_address; m_prefix_len = garbage }

  -- `prefix::address` and `prefix::prefix_length`
  abbrev pub address_of : Prefix → V.Address
  address_of p = p.m_address

  abbrev pub prefix_length : Prefix → ℕ
  prefix_length p = p.m_prefix_len

  -- `prefix::prefix(const prefix &p)`
  unfoldable pub copy_prefix : Prefix → Prefix
  copy_prefix p = record { m_address = address_of p; m_prefix_len = prefix_length p }

  -- `prefix::prefix(std::string p)`
  unfoldable pub parse_prefix : String → Outcome Prefix
  parse_prefix p = elim (split_last p) [
    | none ↦ throws
    | some (before, behind) ↦ do
      address ← or_throw (V.from_string before)
      length ← or_throw (stoi behind)
      returns (record { m_address = address; m_prefix_len = to_ushort length })
  ]

  unfoldable pub make_prefix : String → Outcome Prefix
  unfolding parse_prefix copy_prefix
  make_prefix str = do tmp ← parse_prefix str; returns (copy_prefix tmp)

  unfoldable pub prefix_to_string : Prefix → String
  prefix_to_string p = V.address_to_string p.m_address <> String.◌∷◌ "/" (decimal p.m_prefix_len)

  -- `operator<<`, on what the stream holds
  unfoldable pub stream_prefix : String → Prefix → String
  unfolding prefix_to_string
  stream_prefix os p = os <> prefix_to_string p

  -- `prefix::empty`
  unfoldable pub prefix_is_empty : Prefix → Bool
  unfolding prefix_to_string
  prefix_is_empty p = is_empty (prefix_to_string p)
