-- ===== src/Tests/Mappings.antt =====
-- The theorems on static mappings, at concrete transactions.
use archived_sweetcomb.Prelude.{◌≡◌, refl, none, some, arith}
use archived_sweetcomb.Outcome.{returns}
use archived_sweetcomb.Sysrepo.{verify}
use archived_sweetcomb.Prefix.{Prefix, make_prefix, prefix_to_string, decimal}
use archived_sweetcomb.Prefix.RoundTrip.{make_prefix-prefix_to_string}
use archived_sweetcomb.Nat.{NatState}
use archived_sweetcomb.Nat.Mappings.{Mapping, IsMapping, mapping_changes, mapped, mapping_cb-source}
use archived_sweetcomb.Nat.Consistency.{Keeps, mapping_cb-Keeps}
use archived_sweetcomb.Tests.{memory, memory_nat_laws, paths, session_with, empty_db, nat_garbage}

abbrev pub no_mappings : NatState memory
no_mappings = record { db = empty_db; table = λ _. none }

abbrev pub inside_host : Prefix memory
inside_host = record { m_address = "10.0.0.1"; m_prefix_len = 32 }

abbrev pub outside_host : Prefix memory
outside_host = record { m_address = "192.0.2.1"; m_prefix_len = 32 }

abbrev pub source_mapping : Mapping
source_mapping = record {
  entry_path = "mapping-entry";
  index_path = "index";
  type_path = "type";
  internal_path = "internal-src-address";
  external_path = "external-src-address";
  index = 5;
  internal = "10.0.0.1/32";
  external = "192.0.2.1/32";
}

pub source-IsMapping : IsMapping paths "internal-src-address" "external-src-address" source_mapping
source-IsMapping = record {
  entry_node = refl;
  index_node = refl;
  type_node = refl;
  internal_node = refl;
  external_node = refl;
}

pub inside-parsed : make_prefix memory "10.0.0.1/32" ≡ returns inside_host
unfolding prefix_to_string decimal
inside-parsed = make_prefix-prefix_to_string memory inside_host refl (omega arith)

pub outside-parsed : make_prefix memory "192.0.2.1/32" ≡ returns outside_host
unfolding prefix_to_string decimal
outside-parsed = make_prefix-prefix_to_string memory outside_host refl (omega arith)

mapping_cb-Keeps_example :
    Keeps memory memory_nat_laws no_mappings (mapped memory no_mappings 5 "10.0.0.1" "192.0.2.1")
mapping_cb-Keeps_example =
    mapping_cb-Keeps memory memory_nat_laws paths nat_garbage
      (some (session_with (mapping_changes source_mapping))) (some "") verify no_mappings
      (mapped memory no_mappings 5 "10.0.0.1" "192.0.2.1")
      (mapping_cb-source paths memory nat_garbage (session_with (mapping_changes source_mapping)) ""
        no_mappings refl source_mapping refl inside-parsed outside-parsed source-IsMapping)
