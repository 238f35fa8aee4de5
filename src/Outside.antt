-- ===== src/Outside.antt =====
-- What the program calls and does not implement: providers, models, the vector store, the rails
-- library, clocks, and the library functions on texts. Each is a function of its arguments that may
-- raise. Clocks are functions of the number of reads before.
use compliance_agent_platfor.Base.{ℕ, String, Bool, List, Option}
use compliance_agent_platfor.Base.Float.{Float}
use compliance_agent_platfor.Json.{Json}
use compliance_agent_platfor.Error.{Exn, Result}
use compliance_agent_platfor.Audit.Log.{AuditRecord, Hasher}
use compliance_agent_platfor.Guardrails.Unicode.{Unicode}
use compliance_agent_platfor.Schemas.Alert.{ScreeningAlert}
use compliance_agent_platfor.Schemas.Enrichment.{WatchlistCandidate, CustomerProfile}
use compliance_agent_platfor.Schemas.Retrieval.{RetrievedChunk}
use compliance_agent_platfor.Schemas.Evaluation.{EvaluationResult}

-- A chat model object: those that llm.py makes, and one that a caller injects.
pub data ChatModel : Type 0 where
  fake : String → ChatModel
  nim_model bedrock_model : ChatModel
  injected : ℕ → ChatModel

-- `usage_metadata` of the raw message; each count may be missing.
pub record Usage : Type 0 where
  pub input_tokens : Option ℕ
  pub output_tokens : Option ℕ
  pub total_tokens : Option ℕ

-- `{"raw", "parsed", "parsing_error"}` of `include_raw=True`: an answer that does not parse is
-- returned, and `parsed` is `None`.
pub record RawResult : Type 0 where
  pub usage : Option Usage
  pub parsed : Option EvaluationResult

-- What `LLMRails.check` answers: whether its status is BLOCKED, and the rail that it names.
pub record RailOutcome : Type 0 where
  pub blocked : Bool
  pub rail : Option String

-- The messages of one model call.
pub record Messages : Type 0 where
  pub system : String
  pub human : String

pub record Outside : Type 0 where
  -- adapters/base.py
  pub fetch_entry : String → String → Result (Option WatchlistCandidate)
  pub fetch_profile : String → Result (Option CustomerProfile)
  pub search_media : ScreeningAlert → Result (List String)
  -- the embedder and the vector store
  pub embed_query : String → Result (List Float)
  pub search : List Float → ℕ → Result (List RetrievedChunk)
  -- the structured model of a backend, and the self-check rails run on a model
  pub invoke : ChatModel → String → Messages → Result RawResult
  pub rails_check : ChatModel → String → String → Result RailOutcome
  -- environment variables
  pub cap_fake_model : Option String
  pub cap_fake_guardrails : Option String
  -- what the database raises when the failure of a node is to be recorded on its connection, which the
  -- failure may have left in an aborted transaction
  pub audit_refused : Exn → AuditRecord → Option Exn
  -- clocks
  pub now : ℕ → ℕ
  pub elapsed_ms : ℕ → ℕ → ℕ
  -- hashlib, json, re, difflib, str and pydantic
  pub hasher : Hasher
  pub unicode : Unicode
  pub name_ratio : String → String → Float
  pub strip_lower : String → String
  pub iso_date : ℕ → String
  pub two_decimals : Float → String
  pub indented_json : Json → String
  pub evaluation_schema : String
  pub repr : Exn → String
  pub sorted_set : List String → List String
