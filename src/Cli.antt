-- ===== src/Cli.antt =====
-- runtime/cli.py: the commands, as what they print, their exit code, and what they leave behind.
-- Arguments are parsed; an exception ends the process with a traceback.
pub mod Retrieval
mod Tests
use compliance_agent_platfor.Base.{
  ℕ, String, Bool, true, false, List, [], ◌∷◌, Option, none, some, truthy, text_or, if◌then◌else◌,
}
use compliance_agent_platfor.Config.{Settings, VectorBackend}
use compliance_agent_platfor.Contract.{Payload, Response, disposed, escalated, blocked, invoke}
use compliance_agent_platfor.Cost.{Arithmetic, CostReport, build_cost_report}
use compliance_agent_platfor.Error.{Result, ok, err, and_then}
use compliance_agent_platfor.Json.{Json}
use compliance_agent_platfor.Base.Text.{◌+ₛ◌}
use compliance_agent_platfor.Exec.{Exec, pure, ◌>>=◌}
use compliance_agent_platfor.Audit.Log.{AuditRow, Hasher, ChainVerificationResult}
use compliance_agent_platfor.Audit.Export.{
  object_lock_configuration, ExportResult, export_batch, verify_export,
}
use compliance_agent_platfor.Audit.Export.Bucket.{ObjectStore}
use compliance_agent_platfor.Audit.Export.Keys.{Formats}
use compliance_agent_platfor.Graph.Context.{NodeContext}
use compliance_agent_platfor.Guardrails.Unicode.{Unicode}
use compliance_agent_platfor.Rag.Eval.{
  Means, RetrievalLabel, RetrievalEvalReport, Opened, local, deployed, validate_labels,
  evaluate_retrieval,
}
use compliance_agent_platfor.Rag.Faiss.{FaissVectorStore, Codec, load, save}
use compliance_agent_platfor.Rag.Ingest.{
  VectorStore, CorpusFile, Embedder, IngestSummary, faiss_store, build_index,
}
use compliance_agent_platfor.Rag.Vectors.{Vector, Floats, Faiss}
use compliance_agent_platfor.Schemas.Alert.{ScreeningAlert}
use compliance_agent_platfor.Schemas.Evaluation.{AnalystResolution, AnalystDecision}
use compliance_agent_platfor.Schemas.Retrieval.{RetrievedChunk}
use compliance_agent_platfor.Schemas.State.{ScreeningState}

-- What a command prints, and its exit code.
pub record Outcome (A : Type 0) : Type 0 where
  pub printed : A
  pub code : ℕ

abbrev pub done : {A : Type 0} → A → Outcome A
done a = record { printed = a; code = 0 }

-- `0 if result["status"] in {"disposed", "escalated"} else 1`
abbrev pub run_code : Response → ℕ
run_code (blocked thread disposition_type reason) = 1
run_code _ = 0

-- `0 if result["status"] == "disposed" else 1`
abbrev pub resume_code : Response → ℕ
resume_code (disposed thread d) = 0
resume_code _ = 1

module _ (ctx : NodeContext) (saved : String → ScreeningState) where
  unfoldable pub cmd_run : ScreeningAlert → Exec (Outcome Response)
  cmd_run alert = do
    r ← invoke ctx saved (record { thread_id = none; alert = some alert; resume = none }) none
    pure (record { printed = r; code = run_code r })

  -- `decided_at` is the default of `AnalystDecision`, the clock.
  unfoldable pub cmd_resume :
      ℕ → String → AnalystResolution → String → String → Exec (Outcome Response)
  cmd_resume now thread resolution analyst_id rationale = do
    r ←
        invoke ctx saved
          (record {
            thread_id = some thread;
            alert = none;
            resume = some (record {
              resolution = resolution;
              analyst_id = analyst_id;
              rationale = rationale;
              matched_entities = [];
              decided_at = now;
            });
          })
          none
    pure (record { printed = r; code = resume_code r })

module _ (S : ObjectStore) (settings : Settings) (h : Hasher) where
  abbrev exported : Result ExportResult × S.State → Result (Outcome ExportResult) × S.State
  exported (err e, s) = (err e, s)
  exported (ok r, s) = (ok (done r), s)

  unfoldable pub cmd_audit_export :
      Formats → ℕ → List AuditRow → S.State → Result (Outcome ExportResult) × S.State
  cmd_audit_export f now table s = exported (export_batch S settings h f now table s)

  unfoldable pub cmd_audit_verify : S.State → Result (Outcome ChainVerificationResult)
  cmd_audit_verify s =
      and_then (verify_export S settings h s)
        (λ r. ok (record { printed = r; code = if r.verified then 0 else 1 }))

-- The two lines that `audit bucket-config` prints; `dumps` is `json.dumps`, `decimal` is `str` of a number.
abbrev pub cmd_audit_bucket_config :
    (Json → String) → (ℕ → String) → Settings → Outcome (List String)
cmd_audit_bucket_config dumps decimal settings =
    let bucket = text_or settings.audit_export_bucket "<AUDIT_EXPORT_BUCKET>" in
    let comment : String =
      "# Object Lock retention: "
      +ₛ decimal settings.audit_retention_days
      +ₛ " days, COMPLIANCE mode" in
    let command : String =
      "aws s3api put-object-lock-configuration --bucket "
      +ₛ bucket
      +ₛ " --object-lock-configuration '"
      +ₛ dumps (object_lock_configuration settings)
      +ₛ "'" in
    done (comment ∷ command ∷ [])

unfoldable pub cmd_cost_report :
    Arithmetic
    → Settings
    → Option ℕ
    → ℕ
    → Option String
    → Option String
    → ℕ
    → List AuditRow
    → Result (Outcome CostReport)
cmd_cost_report a settings since project_days queue backend now table =
    and_then (build_cost_report a settings since project_days queue backend now table)
      (λ r. ok (done r))

abbrev pub backend_name : VectorBackend → String
backend_name VectorBackend.faiss = "faiss"
backend_name VectorBackend.pgvector = "pgvector"

abbrev pub chosen_backend : Option VectorBackend → VectorBackend → VectorBackend
chosen_backend none configured = configured
chosen_backend (some backend) configured = backend

-- The vector stores: the local one with its file, and the one in Postgres, whose
-- constructor is `connect`, on tables that have their schema.
module _ (f : Floats) (F : Faiss) (codec : Codec) (P : VectorStore)
    (connect : P.State → Result P.State) where
  -- What the commands leave behind: the text of the index file, and the tables of the database.
  pub record Disk : Type 0 where
    pub file : Option codec.Text
    pub tables : P.State

  abbrev pub opened_backend : VectorBackend → Settings → Disk → Result (Opened F P)
  opened_backend VectorBackend.faiss settings disk =
      and_then (load f F codec disk.file settings.embedding_dimension) (λ store. ok (local store))
  opened_backend VectorBackend.pgvector settings disk =
      and_then (connect disk.tables) (λ store. ok (deployed store))

  -- `_open_vector_store`
  abbrev pub open_vector_store : Option VectorBackend → Settings → Disk → Result (Opened F P)
  open_vector_store backend settings disk =
      opened_backend (chosen_backend backend settings.vector_backend) settings disk

  module _ (u : Unicode) (embed_documents : Embedder) (corpus : String → List CorpusFile) where
    abbrev pub written :
        Result codec.Text → IngestSummary → Disk → Result (Outcome IngestSummary) × Disk
    written (err e) summary disk = (err e, disk)
    written (ok text) summary disk = (ok (done summary), record disk { file = some text })

    abbrev pub ingested_local :
        Result IngestSummary × FaissVectorStore F → Disk → Result (Outcome IngestSummary) × Disk
    ingested_local (err e, store) disk = (err e, disk)
    ingested_local (ok summary, store) disk = written (save f F codec store) summary disk

    -- Without a commit, the connection that is closed leaves the tables as they were.
    abbrev ingested_deployed :
        Result IngestSummary × P.State → Disk → Result (Outcome IngestSummary) × Disk
    ingested_deployed (err e, store) disk = (err e, disk)
    ingested_deployed (ok summary, store) disk = (ok (done summary), record disk { tables = store })

    abbrev pub ingest_into :
        String
        → List CorpusFile
        → Result (Opened F P)
        → Disk
        → Result (Outcome IngestSummary) × Disk
    ingest_into name files (err e) disk = (err e, disk)
    ingest_into name files (ok (local store)) disk =
        ingested_local (build_index u (faiss_store f F) embed_documents name files store) disk
    ingest_into name files (ok (deployed store)) disk =
        ingested_deployed (build_index u P embed_documents name files store) disk

    -- `args.corpus_dir` in place of the configured directory
    abbrev pub corpus_dir_of : Option String → String → String
    corpus_dir_of none dir = dir
    corpus_dir_of (some given) dir = if truthy given then given else dir

    unfoldable pub cmd_rag_ingest :
        Settings
        → Option VectorBackend
        → Option String
        → Disk
        → Result (Outcome IngestSummary) × Disk
    cmd_rag_ingest settings backend corpus_dir disk =
        ingest_into (backend_name (chosen_backend backend settings.vector_backend))
          (corpus (corpus_dir_of corpus_dir settings.regulatory_corpus_dir))
          (open_vector_store backend settings disk) disk

  module _ (embed_query : String → Result Vector) where
    abbrev pub search_in : Vector → ℕ → Opened F P → Result (List RetrievedChunk)
    search_in embedding k (local store) = ((faiss_store f F).search embedding k store).0
    search_in embedding k (deployed store) = (P.search embedding k store).0

    -- The index that a search builds is not saved.
    unfoldable pub cmd_rag_search :
        Settings → Option VectorBackend → String → ℕ → Disk → Result (Outcome (List RetrievedChunk))
    cmd_rag_search settings backend query k disk =
        and_then (open_vector_store backend settings disk) (λ store.
          and_then (embed_query query)
            (λ embedding. and_then (search_in embedding k store) (λ results. ok (done results))))

    abbrev evaluate_in : Means → List RetrievalLabel → ℕ → Opened F P → Result RetrievalEvalReport
    evaluate_in m labels k (local store) =
        (evaluate_retrieval m (faiss_store f F) embed_query k labels store).0
    evaluate_in m labels k (deployed store) = (evaluate_retrieval m P embed_query k labels store).0

    -- Without `--verbose` the rows are not printed.
    abbrev shown : Bool → RetrievalEvalReport → RetrievalEvalReport
    shown verbose r = if verbose then r else record r { rows = [] }

    unfoldable pub cmd_retrieval_eval :
        Means
        → Settings
        → Option VectorBackend
        → Result (List RetrievalLabel)
        → ℕ
        → Bool
        → Disk
        → Result (Outcome RetrievalEvalReport)
    cmd_retrieval_eval m settings backend pairs k verbose disk =
        and_then (open_vector_store backend settings disk) (λ store.
          and_then (and_then pairs validate_labels)
            (λ labels. and_then (evaluate_in m labels k store) (λ r. ok (done (shown verbose r)))))
