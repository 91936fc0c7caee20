-- ===== src/Oper/Openconfig.antt =====
-- oc_interfaces_state_cb: the seven values of one interface, under an XPath that is written into a
-- buffer of XPATH_SIZE bytes, the last one a NUL.
use Prim.Native.String.{slice}
use archived_sweetcomb.Prelude.{
  Option, ℕ, ◌%◌, String, ◌<>◌, not, List, [], ◌∷◌, eqb, if◌then◌else◌, is_empty,
}
use archived_sweetcomb.Outcome.{Outcome, returns, crash, ◌>>=◌, deref}
use archived_sweetcomb.Sysrepo.{
  arg_check3, SrError, ok, inval_arg, is_ok, string_t, identityref_t, uint16_t, uint32_t, bool_t,
  enum_t, string_val, uint16_val, uint32_val, bool_val, SrVal, Xpath,
}
use archived_sweetcomb.Oper.{Reply, new_values, put_all}
use archived_sweetcomb.Oper.Details.{Details, StatusFlags}

-- XPATH_SIZE
abbrev pub xpath_size : ℕ
xpath_size = 2000

unfoldable pub state_root : String → String
state_root intf_name =
    slice ("/openconfig-interfaces:interfaces/interface[name='" <> (intf_name <> "']/state")) 0 1999

unfoldable pub state_values : StatusFlags → String → Details → List SrVal
state_values F root d =
    record { xpath = root <> "/name"; type = string_t; datum = string_val d.interface_name }
    ∷ record {
      xpath = root <> "/type";
      type = identityref_t;
      datum = string_val "ianaift:ethernetCsmacd";
    }
    ∷ record { xpath = root <> "/mtu"; type = uint16_t; datum = uint16_val (d.link_mtu % 65_536) }
    ∷ record { xpath = root <> "/enabled"; type = bool_t; datum = bool_val (not (eqb d.flags 0)) }
    ∷ record { xpath = root <> "/ifindex"; type = uint32_t; datum = uint32_val d.sw_if_index }
    ∷ record {
      xpath = root <> "/admin-status";
      type = enum_t;
      datum = string_val (if eqb d.flags F.admin_up then "UP" else "DOWN");
    }
    ∷ record {
      xpath = root <> "/oper-status";
      type = enum_t;
      datum = string_val (if eqb d.flags F.link_up then "UP" else "DOWN");
    }
    ∷ []

-- The callback, with pointers that are not null; the dump is that of one name, and its first element
-- is read unchecked. The returns with an error do not write `*values` and `*values_cnt`; the empty
-- list of such an answer stands for that.
unfoldable pub oc_interfaces_state_cb :
    Xpath → StatusFlags → (ℕ → SrError) → (String → List Details) → String → Outcome Reply
unfolding state_root state_values
oc_interfaces_state_cb X F sr_new_values dump xpath = do
  intf_name ← deref (X.key_value xpath "interface" "name")
  (if is_empty intf_name
      then returns (record { rc = inval_arg; values = [] })
      else if not (is_ok (sr_new_values 7))
      then returns (record { rc = sr_new_values 7; values = [] })
      else elim (dump intf_name) [
        | [] ↦ crash
        | reply ∷ others ↦ do
          a ← put_all (state_values F (state_root intf_name) reply) (new_values 7)
          returns (record { rc = ok; values = a.written })
      ])

-- The callback with the pointers that it is given: the two for the answer are null or not.
unfoldable pub oc_interfaces_state_entry :
    Xpath
    → StatusFlags
    → (ℕ → SrError)
    → (String → List Details)
    → Option String
    → Option (Unit {0})
    → Option (Unit {0})
    → Outcome Reply
unfolding oc_interfaces_state_cb
oc_interfaces_state_entry X F sr_new_values dump xpath values values_cnt =
    arg_check3 (returns (record { rc = inval_arg; values = [] })) xpath values values_cnt
      (λ path vals cnt. oc_interfaces_state_cb X F sr_new_values dump path)
