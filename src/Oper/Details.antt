-- ===== src/Oper/Details.antt =====
-- What a dump of VPP's interfaces yields (vapi_payload_sw_interface_details), and what the callbacks
-- make of it: the bits of vapi_enum_if_status_flags are VPP's, a parameter.
use archived_sweetcomb.Prelude.{ℕ, ◌/◌, ◌%◌, String, ◌<>◌, eqb, if◌then◌else◌}

pub record Details : Type 0 where
  pub interface_name : String
  pub flags : ℕ
  pub mac0 : ℕ
  pub mac1 : ℕ
  pub mac2 : ℕ
  pub mac3 : ℕ
  pub mac4 : ℕ
  pub mac5 : ℕ
  pub sw_if_index : ℕ
  pub link_speed : ℕ
  pub link_mtu : ℕ

-- IF_STATUS_API_FLAG_ADMIN_UP and IF_STATUS_API_FLAG_LINK_UP
pub record StatusFlags : Type 0 where
  pub admin_up : ℕ
  pub link_up : ℕ

-- A digit of "%x".
unfoldable pub hex_digit : ℕ → String
hex_digit d =
    if eqb d 0
    then "0"
    else if eqb d 1
    then "1"
    else if eqb d 2
    then "2"
    else if eqb d 3
    then "3"
    else if eqb d 4
    then "4"
    else if eqb d 5
    then "5"
    else if eqb d 6
    then "6"
    else if eqb d 7
    then "7"
    else if eqb d 8
    then "8"
    else if eqb d 9
    then "9"
    else if eqb d 10
    then "a"
    else if eqb d 11
    then "b"
    else if eqb d 12
    then "c"
    else if eqb d 13
    then "d"
    else if eqb d 14
    then "e"
    else "f"

-- "%02x" of a byte
unfoldable pub hex_byte : ℕ → String
unfolding hex_digit
hex_byte b = hex_digit (b / 16) <> hex_digit (b % 16)

-- "%02x:%02x:%02x:%02x:%02x:%02x"
unfoldable pub phys_address : Details → String
unfolding hex_byte
phys_address d =
    hex_byte d.mac0
    <> (":"
        <> (hex_byte d.mac1
            <> (":"
                <> (hex_byte d.mac2
                    <> (":"
                        <> (hex_byte d.mac3
                            <> (":" <> (hex_byte d.mac4 <> (":" <> hex_byte d.mac5)))))))))
