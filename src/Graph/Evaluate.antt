-- ===== src/Graph/Evaluate.antt =====
-- graph/nodes.py: the node `evaluate`, with its rails and its fallback.
use compliance_agent_platfor.Base.{
  ℕ, String, Bool, true, false, not, ◌&&◌, [], Option, none, some, str_eq, if◌then◌else◌,
}
use compliance_agent_platfor.Base.Float.{one_float}
use compliance_agent_platfor.Base.Text.{join, ◌+ₛ◌}
use compliance_agent_platfor.Json.{Json, null, bool, int, str, obj, field, end, opt}
use compliance_agent_platfor.Config.{RailBackend}
use compliance_agent_platfor.Error.{
  Exn, Result, ok, err, key_error, attribute_error, is_guardrail_violation,
}
use compliance_agent_platfor.Outside.{Outside, ChatModel, fake, bedrock_model, Usage, RawResult}
use compliance_agent_platfor.Exec.{
  Exec, pure, raise, lift, catch, ◌>>=◌, ◌>>◌, audit_row, read_clock, note_call, evaluate_call,
}
use compliance_agent_platfor.Llm.{ResolvedBackend, FakeProfile, fake_profiles, fake_invoke, lookup}
use compliance_agent_platfor.Audit.Log.{AuditRecord, hash_payload}
use compliance_agent_platfor.Guardrails.Service.{check_pii, check_input, check_output}
use compliance_agent_platfor.Schemas.Alert.{ScreeningAlert, validate_alert, dump_alert}
use compliance_agent_platfor.Schemas.Enrichment.{EnrichmentBundle, dump_enrichment}
use compliance_agent_platfor.Schemas.Retrieval.{RetrievalBundle, validate_retrieval}
use compliance_agent_platfor.Schemas.Disposition.{DispositionType}
use compliance_agent_platfor.Schemas.Evaluation.{EvaluationResult, dump_evaluation}
use compliance_agent_platfor.Schemas.State.{ScreeningState, empty_state}
use compliance_agent_platfor.Graph.Context.{NodeContext, channel, row}
use compliance_agent_platfor.Graph.Prompt.{
  eval_system, build_eval_prompt, untrusted_text, messages_for,
}

-- What the `try` block ends with: an answer and when its clock started, or an exception and the
-- start of the clock if the input rail had passed (`input_checked`).
pub data Attempt : Type 0 where
  answered : RawResult → ℕ → Attempt
  failed : Exn → Option ℕ → Attempt

-- The answer, and the backend that gave it.
pub record Served : Type 0 where
  pub raw : RawResult
  pub started : ℕ
  pub by : ResolvedBackend

abbrev by_fake : String → Option FakeProfile → Result RawResult
by_fake profile none = err (key_error profile)
by_fake profile (some p) = ok (fake_invoke profile p)

abbrev answer_of : Outside → ChatModel → String → String → Result RawResult
answer_of o (fake profile) backend prompt = by_fake profile (lookup profile fake_profiles)
answer_of o model backend prompt = o.invoke model backend (messages_for o prompt backend)

abbrev pub is_bedrock_rail : RailBackend → Bool
is_bedrock_rail RailBackend.bedrock = true
is_bedrock_rail RailBackend.serving = false

-- `result.rationale` and the rest, where `raw_result["parsed"]` is `None`
abbrev parsed_or_raise : Option EvaluationResult → Result EvaluationResult
parsed_or_raise none = err (attribute_error "'NoneType' object has no attribute 'rationale'")
parsed_or_raise (some e) = ok e

abbrev count : (Usage → Option ℕ) → Option Usage → Json
count get none = null
count get (some u) = opt int (get u)

module _ (ctx : NodeContext) where
  open ctx use {outside, settings, model, model_backend, model_id, fallback}

  -- `primary_structured.invoke(messages_for(backend))`, and the fallback's
  unfoldable pub call_model : ChatModel → String → String → Exec RawResult
  unfolding fake_profiles fake_invoke messages_for
  call_model m backend prompt = do
    note_call (evaluate_call m backend)
    lift (answer_of outside m backend prompt)

  -- `_input_rail_model`
  unfoldable pub input_rail_model : ChatModel
  input_rail_model =
      if is_bedrock_rail settings.guardrail_input_backend && str_eq model_backend "nim"
      then bedrock_model
      else model

  -- An exception of the `try` block: a guardrail's verdict passes, all else is kept.
  abbrev pub keep_failure : Option ℕ → Exn → Exec Attempt
  keep_failure checked e = if is_guardrail_violation e then raise e else pure (failed e checked)

  -- The `try` block behind the input rail.
  unfoldable pub ask_primary : String → Exec Attempt
  unfolding call_model
  ask_primary prompt = do
    started ← read_clock
    catch (do raw ← call_model model model_backend prompt; pure (answered raw started))
        (keep_failure (some started))

  -- What the input rail's exception leads to, if there was one.
  abbrev pub after_rail : String → Option Exn → Exec Attempt
  after_rail prompt none = ask_primary prompt
  after_rail prompt (some e) = pure (failed e none)

  abbrev pub keep_outage : Exn → Exec (Option Exn)
  keep_outage e = if is_guardrail_violation e then raise e else pure (some e)

  -- The `try` block: the input rail, and behind it the model.
  unfoldable pub try_primary : String → String → Exec Attempt
  unfolding ask_primary check_input input_rail_model
  try_primary prompt rail_text = do
    outage ← catch (do check_input outside input_rail_model rail_text; pure none) keep_outage
    after_rail prompt outage

  -- The start of the fallback's clock: the input rail runs on it unless it had passed.
  abbrev pub fallback_start : ResolvedBackend → String → Option ℕ → Exec ℕ
  fallback_start fb rail_text (some started) = pure started
  fallback_start fb rail_text none = do check_input outside fb.model rail_text; read_clock

  -- The `except Exception` block.
  abbrev pub use_fallback : String → String → Exn → Option ℕ → Option ResolvedBackend → Exec Served
  use_fallback prompt rail_text e checked none = raise e
  use_fallback prompt rail_text e checked (some fb) = do
    started ← fallback_start fb rail_text checked
    raw ← call_model fb.model fb.backend prompt
    pure (record { raw = raw; started = started; by = fb })

  abbrev pub or_fallback : String → String → Attempt → Exec Served
  or_fallback prompt rail_text (answered raw started) = pure (record {
    raw = raw;
    started = started;
    by = record { model = model; backend = model_backend; model_id = model_id };
  })
  or_fallback prompt rail_text (failed e checked) = use_fallback prompt rail_text e checked fallback

  -- From the PII floor to the model's answer.
  unfoldable pub serve : String → String → Exec Served
  unfolding check_pii try_primary call_model check_input
  serve prompt rail_text = do
    lift (check_pii outside prompt "input")
    attempt ← try_primary prompt rail_text
    or_fallback prompt rail_text attempt

  abbrev pub evaluate_row : ScreeningAlert → EnrichmentBundle → String → Json → AuditRecord
  evaluate_row alert enrichment id detail =
      record (row alert.alert_id "evaluate" "agent" "node_completed") {
        payload_hash = some (
            hash_payload outside.hasher (
              obj (
                field "alert" (dump_alert alert)
                  (field "enrichment" (dump_enrichment enrichment) end))));
        model_id = some id;
        prompt_version = some settings.prompt_version;
        detail = some detail;
      }

  -- The rule overlay: enrichment is too thin to ask a model.
  abbrev pub thin_result : EnrichmentBundle → EvaluationResult
  thin_result e = record {
    recommended = DispositionType.insufficient_data;
    confidence = one_float;
    rationale = "Enrichment incomplete: missing " +ₛ join ", " e.missing +ₛ ".";
    matched_entities = [];
    evidence = [];
  }

  unfoldable pub overlay : ScreeningAlert → EnrichmentBundle → Exec ScreeningState
  overlay alert enrichment = do
    audit_row outside (
        evaluate_row alert enrichment model_id
          (obj (field "rule_overlay" (str "insufficient_data") end)))
    pure (record empty_state { evaluation = some (thin_result enrichment) })

  abbrev pub served_detail : Served → ℕ → Json
  served_detail s latency_ms = obj (
      field "queue" (str settings.queue) (
        field "backend" (str s.by.backend) (
          field "fallback_used" (bool (not (str_eq s.by.backend model_backend))) (
            field "input_tokens" (count (λ u. u.input_tokens) s.raw.usage) (
              field "output_tokens" (count (λ u. u.output_tokens) s.raw.usage) (
                field "total_tokens" (count (λ u. u.total_tokens) s.raw.usage)
                  (field "latency_ms" (int latency_ms) end)))))))

  -- The row of an answer, of its prompt and the duration of the call.
  abbrev pub answer_row :
      ScreeningAlert → EnrichmentBundle → String → Served → EvaluationResult → ℕ → AuditRecord
  answer_row alert enrichment prompt served result latency_ms =
      record (evaluate_row alert enrichment served.by.model_id (served_detail served latency_ms)) {
        llm_request =
            some (obj (field "system" (str eval_system) (field "human" (str prompt) end)));
        llm_response = some (dump_evaluation result);
      }

  unfoldable pub ask : ScreeningAlert → EnrichmentBundle → RetrievalBundle → Exec ScreeningState
  unfolding serve check_output
  ask alert enrichment retrieval = do
    let prompt = build_eval_prompt outside alert enrichment retrieval
    served ← serve prompt (untrusted_text alert enrichment)
    ended ← read_clock
    result ← lift (parsed_or_raise served.raw.parsed)
    check_output outside served.by.model result.rationale
    audit_row outside
        (answer_row alert enrichment prompt served result (outside.elapsed_ms served.started ended))
    pure (record empty_state {
      evaluation = some result;
      evaluation_model =
          some (record { backend = served.by.backend; model_id = served.by.model_id });
    })

  unfoldable pub evaluate : ScreeningState → Exec ScreeningState
  unfolding overlay ask
  evaluate s = do
    alert ← lift (channel "alert" s.alert)
    valid ← lift (validate_alert alert)
    enrichment ← lift (channel "enrichment" s.enrichment)
    raw_retrieval ← lift (channel "retrieval" s.retrieval)
    retrieval ← lift (validate_retrieval raw_retrieval)
    if enrichment.insufficient then overlay valid enrichment else ask valid enrichment retrieval
