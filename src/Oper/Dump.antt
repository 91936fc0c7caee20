-- ===== src/Oper/Dump.antt =====
-- interface_dump of src/plugins/vpp-oper/interface.cpp, the command that asks VPP for its interfaces:
-- what `issue` writes into the request. VAPI allocates the request and VPP answers it; the bytes of
-- the filter, those that stand there before and the number that the request has room for are given
-- by the request.
pub mod Filter
use archived_sweetcomb.Prelude.{
  ℕ, zero, suc, String, List, [], ◌∷◌, ◌++◌, leb, if◌then◌else◌, length, is_empty,
}
use archived_sweetcomb.Outcome.{Outcome, returns, crash, ◌>>=◌}
use archived_sweetcomb.Procfs.{codes}

pub record InterfaceDump : Type 0 where
  pub m_name : String

-- The payload of a request: the flag, the length and the bytes that name_filter.buf has room for.
pub record DumpRequest : Type 0 where
  pub name_filter_valid : ℕ
  pub filter_length : ℕ
  pub filter_buf : List ℕ

abbrev pub drop {ℓ} : {A : Type ℓ} → ℕ → List A → List A
drop zero xs = xs
drop (suc n) [] = []
drop (suc n) (x ∷ xs) = drop n xs

abbrev pub zeros : ℕ → List ℕ
zeros zero = []
zeros (suc n) = 0 ∷ zeros n

-- memcpy to the beginning of a buffer; past its end it is undefined.
unfoldable pub overwrite : List ℕ → List ℕ → Outcome (List ℕ)
overwrite bytes buf =
    if leb (length bytes) (length buf) then returns (bytes ++ drop (length bytes) buf) else crash

-- `interface_dump()` and `interface_dump(std::string interface_name)`
unfoldable pub dump_all : InterfaceDump
dump_all = record { m_name = "" }

unfoldable pub dump_one : String → InterfaceDump
dump_one interface_name = record { m_name = interface_name }

-- `issue`, up to the call of VAPI.
unfoldable pub issue : InterfaceDump → DumpRequest → Outcome DumpRequest
unfolding overwrite
issue dump payload =
    if is_empty dump.m_name then returns (record payload { name_filter_valid = 0 }) else (do
      zeroed ← overwrite (zeros payload.filter_length) payload.filter_buf
      named ← overwrite (codes dump.m_name) zeroed
      returns (record payload { name_filter_valid = 1; filter_buf = named }))

unfoldable pub dump_to_string : InterfaceDump → String
dump_to_string dump = "itf-dump"
