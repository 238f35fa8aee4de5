-- ===== src/Graph/Context.antt =====
-- graph/builder.py: what the nodes close over; and the helpers that they share.
use compliance_agent_platfor.Base.{String, Option, none, some}
use compliance_agent_platfor.Config.{Settings}
use compliance_agent_platfor.Error.{Result, ok, err, key_error}
use compliance_agent_platfor.Outside.{Outside, ChatModel}
use compliance_agent_platfor.Llm.{ResolvedBackend}
use compliance_agent_platfor.Audit.Log.{AuditRecord}

-- `fallback` is the three fields `model_fallback`, `fallback_backend` and `fallback_model_id`,
-- which `build_graph` sets together. The providers, the embedder and the store are in `outside`.
pub record NodeContext : Type 0 where
  pub outside : Outside
  pub settings : Settings
  pub model : ChatModel
  pub model_backend : String
  pub model_id : String
  pub fallback : Option ResolvedBackend

-- `state[key]`
abbrev pub channel {ℓ} : {A : Type ℓ} → String → Option A → Result A
channel key none = err (key_error key)
channel key (some a) = ok a

-- `AuditRecord(alert_id=..., thread_id=alert_id, step=..., actor=..., event=...)`
abbrev pub row : String → String → String → String → AuditRecord
row alert_id step actor event = record {
  alert_id = alert_id;
  thread_id = alert_id;
  step = step;
  actor = actor;
  event = event;
  checkpoint_id = none;
  payload_hash = none;
  llm_request = none;
  llm_response = none;
  model_id = none;
  prompt_version = none;
  detail = none;
}
