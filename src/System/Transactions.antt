-- ===== src/System/Transactions.antt =====
-- Sequences of transactions: sysrepo calls the callbacks of src/plugins/ietf/ietf_interface.cpp and
-- src/plugins/ietf/ietf_nat.cpp to verify each transaction and then to apply or to abort it.
pub mod Interfaces
pub mod Mappings
pub mod Addresses
use archived_sweetcomb.Prelude.{String, ◌≡◌, List, All}
use archived_sweetcomb.Sysrepo.{ok, SrEvent, Change, Session}
use archived_sweetcomb.System.Phases.{IsEnd}

-- A transaction: what the stack holds when it is verified, the session and the XPath, the edits, and
-- the phases that follow the verification.
pub record Transaction (G E : Type 0) : Type 0 where
  pub garbage : G
  pub session : Session
  pub xpath : String
  pub edits : List E
  pub ends : List SrEvent

-- The flags on the stack are clear, the edits are valid, the session reports them, and the phases
-- behind the verification end the transaction.
pub record IsRegular {G E : Type 0} (IsClean : G → Type 0) (IsFine : E → Type 0)
    (changes : List E → List Change) (t : Transaction G E) : Type 0 where
  pub clear : IsClean t.garbage
  pub valid : All IsFine t.edits
  pub ready : t.session.get_changes_iter t.xpath ≡ ok
  pub changed : t.session.changes t.xpath ≡ changes t.edits
  pub ended : All IsEnd t.ends
