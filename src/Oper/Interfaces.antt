-- ===== src/Oper/Interfaces.antt =====
-- ietf_interface_state_cb: five values for each interface of the dump, in an array with room for six
-- for each and six more.
use archived_sweetcomb.Prelude.{
  ℕ, ◌+◌, ◌*◌, String, ◌<>◌, not, List, [], ◌∷◌, eqb, if◌then◌else◌, length,
}
use archived_sweetcomb.Outcome.{Outcome, returns, ◌>>=◌}
use archived_sweetcomb.Sysrepo.{
  SrError, ok, is_ok, enum_t, string_t, int32_t, uint64_t, string_val, int32_val, uint64_val, SrVal,
  Xpath, node_name_eq,
}
use archived_sweetcomb.Oper.{Reply, Values, new_values, put_all}
use archived_sweetcomb.Oper.Details.{Details, StatusFlags, phys_address}

-- The five values. An int32_t keeps the bit pattern of the index.
unfoldable pub interface_values : StatusFlags → String → Details → List SrVal
unfolding phys_address
interface_values F xpath d =
    record {
      xpath = leaf "admin-status";
      type = enum_t;
      datum = string_val (if eqb d.flags F.admin_up then "up" else "down");
    }
    ∷ record {
      xpath = leaf "oper-status";
      type = enum_t;
      datum = string_val (if eqb d.flags F.link_up then "up" else "down");
    }
    ∷ record { xpath = leaf "phys-address"; type = string_t; datum = string_val (phys_address d) }
    ∷ record { xpath = leaf "if-index"; type = int32_t; datum = int32_val d.sw_if_index }
    ∷ record { xpath = leaf "speed"; type = uint64_t; datum = uint64_val d.link_speed }
    ∷ []
  where
    leaf : String → String
    leaf name = xpath <> ("[name='" <> (d.interface_name <> ("']/" <> name)))

-- The loop over the dump.
unfoldable pub put_interfaces : StatusFlags → String → List Details → Values → Outcome Values
unfolding interface_values
put_interfaces F xpath [] a = returns a
put_interfaces F xpath (d ∷ ds) a = do
  a' ← put_all (interface_values F xpath d) a
  put_interfaces F xpath ds a'

unfoldable pub state_room : List Details → ℕ
state_room dump = (length dump + 1) * 6

-- The callback, from the answer of sr_new_values and the dump.
unfoldable pub ietf_interface_state_cb :
    Xpath → StatusFlags → (ℕ → SrError) → List Details → String → Outcome Reply
unfolding put_interfaces state_room
ietf_interface_state_cb X F sr_new_values dump xpath =
    if not (node_name_eq X xpath "interface")
    then returns (record { rc = ok; values = [] })
    else if not (is_ok (sr_new_values (state_room dump)))
    then returns (record { rc = sr_new_values (state_room dump); values = [] })
    else (do
      a ← put_interfaces F xpath dump (new_values (state_room dump))
      returns (record { rc = ok; values = a.written }))
