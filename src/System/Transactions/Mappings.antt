-- ===== src/System/Transactions/Mappings.antt =====
-- Transactions on the mapping table of src/plugins/ietf/ietf_nat.cpp.
use archived_sweetcomb.Prelude.{◌≡◌, refl, sym, ◌∙◌, some, List, ◌∷◌, All}
use archived_sweetcomb.Outcome.{Outcome, returns}
use archived_sweetcomb.Sysrepo.{verify, Xpath}
use archived_sweetcomb.Vom.{Vom}
use archived_sweetcomb.Nat.{NatGarbage, NatState, NatTable, nat_mapping_table_config_cb}
use archived_sweetcomb.Nat.Consistency.{NatLaws, IsConsistent}
use archived_sweetcomb.Nat.Sequence.{NatEdit, all_changes, IsValid, transacted}
use archived_sweetcomb.Nat.Replay.{IsClear, Accepts, mapping_cb-Follows}
use archived_sweetcomb.System.Phases.{phases, mapping_cb-behind}
use archived_sweetcomb.System.Simulation.{run, replay, run-Simulates}
use archived_sweetcomb.System.Transactions.{Transaction, IsRegular}

module _ (X : Xpath) (V : Vom) where
  -- A transaction on the mapping table, in all its phases, and in the model.
  abbrev pub mapping_phases : Transaction NatGarbage (NatEdit V) → NatState V → Outcome (NatState V)
  mapping_phases t =
      phases (nat_mapping_table_config_cb X V t.garbage (some t.session) (some t.xpath))
        (verify ∷ t.ends)

  abbrev pub mapping_model : Transaction NatGarbage (NatEdit V) → NatTable V → NatTable V
  mapping_model t = transacted V t.edits

  abbrev pub IsMappingTransaction : Transaction NatGarbage (NatEdit V) → Type 0
  IsMappingTransaction = IsRegular IsClear (IsValid V X) (all_changes V)

  module _ (L : NatLaws V) (accepts : Accepts X V) where
    -- The table is the model's, and VOM has its mappings.
    abbrev Shows : NatState V → NatTable V → Type 0
    Shows s table = (s.table ≡ table) × IsConsistent V L s

    mapping_phases-model :
        (t : Transaction NatGarbage (NatEdit V)) (s : NatState V) (table : NatTable V)
        → IsMappingTransaction t
        → Shows s table
        → (s' : NatState V) × (mapping_phases t s ≡ returns s') × Shows s' (mapping_model t table)
    unfolding phases
    mapping_phases-model t s table h (same, consistent) =
        let (s', answers, model, consistent') =
          mapping_cb-Follows X V L accepts t.garbage t.session t.xpath s t.edits h.clear h.valid
            h.ready h.changed consistent in
        (
          s',
          mapping_cb-behind X V t.garbage (some t.session) (some t.xpath) s t.ends h.ended
              ∙ rw answers refl,
          (rw (sym same) model, consistent'),
        )

    -- Any sequence of transactions on the mapping table, each verified and then applied or aborted and
    -- each with any number of edits, is run to its end by the callback, if no uninitialised flag
    -- happens to be true and VOM keeps the laws and refuses no mapping. An edit creates an entry of
    -- the type static, reported as its entry and the leaves index, type and those of a source or of a
    -- destination pair in this order, whose texts parse, or it deletes an entry, reported as the
    -- entry, its index and any other nodes below it; the paths lead to these nodes. From a table that
    -- is in step with VOM the sequence leads to the table that the model computes, in step with VOM
    -- again.
    pub mappings-replay :
        (ts : List (Transaction NatGarbage (NatEdit V))) (s : NatState V)
        → All IsMappingTransaction ts
        → IsConsistent V L s
        → (s' : NatState V) × (run mapping_phases ts s ≡ returns s')
          × (s'.table ≡ replay mapping_model ts s.table)
          × IsConsistent V L s'
    mappings-replay ts s h consistent =
        let (s', runs, shows) =
          run-Simulates mapping_phases mapping_model IsMappingTransaction Shows mapping_phases-model
            ts s s.table h (refl, consistent) in
        (s', runs, shows.0, shows.1)
