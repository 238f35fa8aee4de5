-- ===== src/Audit/Export/Tests.antt =====
-- Exports of concrete tables to a bucket in memory, and the instances of the theorems on the export.
use compliance_agent_platfor.Base.{ℕ, zero, suc, String, ◌≡◌, refl, [], ◌∷◌, some, arith}
use compliance_agent_platfor.Base.Dict.{lookup}
use compliance_agent_platfor.Config.{Settings}
use compliance_agent_platfor.Error.{ok, err, runtime_error}
use compliance_agent_platfor.Audit.Log.{
  AuditRow, chain_genesis, verify_chain, make_row, chain_hash, chain_payload, intact,
}
use compliance_agent_platfor.Audit.Chain.{Chained, head_hash, next_hash}
use compliance_agent_platfor.Graph.Context.{row}
use compliance_agent_platfor.Audit.Export.{
  export_batch, nothing_new, refusal, verify_export, load_manifests,
}
use compliance_agent_platfor.Audit.Export.Keys.{Formats}
use compliance_agent_platfor.Audit.Export.Memory.{keys, memory, memory-IsConsistent, Objects}
use compliance_agent_platfor.Audit.Export.Commit.{Holds}
use compliance_agent_platfor.Audit.Export.Resume.{
  Exports, export_batch-Exports, export_batch-idempotent, export_batch-refuses,
}
use compliance_agent_platfor.Audit.Export.Verify.{verify_export-intact}
use compliance_agent_platfor.Samples.{hasher, settings}

abbrev with_bucket : Settings
with_bucket = record settings {
  audit_export_bucket = some "audit";
  audit_export_prefix = "audit-export/";
}

abbrev decimal : ℕ → String
decimal zero = "0"
decimal (suc zero) = "1"
decimal _ = "2"

abbrev formats : Formats
formats = record { stamp = λ n. "20260102T030405Z"; day = λ n. "2026/01/02"; decimal = decimal }

abbrev empty : Objects
empty = []

empty-Holds : Holds memory with_bucket hasher empty []
unfolding load_manifests keys
empty-Holds = record {
  batches = [];
  are = refl;
  mirror = record { follows = tt; loaded = []; loads = refl; sorts = refl; stored = tt };
}

abbrev row_1 : AuditRow
unfolding make_row
row_1 = make_row hasher 1 10 (row "A-1" "intake" "system" "node_completed") chain_genesis

abbrev row_2 : AuditRow
unfolding make_row
row_2 =
    make_row hasher 2 11 (row "A-1" "enrich" "system" "node_completed")
      (next_hash hasher chain_genesis row_1)

-- A row that does not continue the first one.
abbrev loose : AuditRow
unfolding make_row
loose = make_row hasher 2 11 (row "A-1" "enrich" "system" "node_completed") chain_genesis

rows-Chained : Chained hasher chain_genesis (row_1 ∷ row_2 ∷ [])
unfolding make_row chain_hash chain_payload
rows-Chained =
    (record { linked = refl; hashed = refl }, (record { linked = refl; hashed = refl }, tt))

export_batch-Exports_example :
    Exports memory with_bucket hasher empty (row_1 ∷ row_2 ∷ []) (row_1 ∷ row_2 ∷ []) formats 20
unfolding make_row lookup
export_batch-Exports_example =
    export_batch-Exports memory with_bucket hasher memory-IsConsistent "audit" refl formats 20 empty
      [] empty-Holds 3 row_1 (row_2 ∷ []) (omega arith, (omega arith, omega arith)) rows-Chained
      refl refl

abbrev full : Exports memory with_bucket hasher empty (row_1 ∷ []) (row_1 ∷ []) formats 20
unfolding make_row lookup
full =
    export_batch-Exports memory with_bucket hasher memory-IsConsistent "audit" refl formats 20 empty
      [] empty-Holds 2 row_1 [] (omega arith, omega arith) (rows-Chained.0, tt) refl refl

export_batch-idempotent_example :
    export_batch memory with_bucket hasher formats 30 (row_1 ∷ []) full.after
    ≡ (ok nothing_new, full.after)
unfolding make_row
export_batch-idempotent_example =
    export_batch-idempotent memory with_bucket hasher memory-IsConsistent "audit" refl formats 30
      full.after (row_1 ∷ []) full.holds 2 (omega arith, omega arith)

-- The second row does not name the hash of the first.
export_batch-refuses_example :
    export_batch memory with_bucket hasher formats 30 (row_1 ∷ loose ∷ []) full.after ≡ (
      err (
          runtime_error (
            refusal memory with_bucket hasher formats 30
              (verify_chain hasher (loose ∷ []) (head_hash hasher chain_genesis (row_1 ∷ []))))),
      full.after,
    )
unfolding make_row verify_chain chain_hash chain_payload
export_batch-refuses_example =
    export_batch-refuses memory with_bucket hasher memory-IsConsistent "audit" refl formats 30
      full.after (row_1 ∷ []) full.holds 3 loose [] (omega arith, (omega arith, omega arith)) refl

verify_export-intact_example : verify_export memory with_bucket hasher full.after ≡ ok intact
verify_export-intact_example =
    verify_export-intact memory with_bucket hasher "audit" refl memory-IsConsistent full.after
      (row_1 ∷ []) full.holds
