-- ===== src/Contract/Tests.antt =====
-- An invocation for the sample alert, and the instance of the theorem on responses.
use compliance_agent_platfor.Base.{[], String, ◌≡◌, refl, none, some}
use compliance_agent_platfor.Base.Float.{double, units, in_unit_range}
use compliance_agent_platfor.Base.Text.{join, contains}
use compliance_agent_platfor.Error.{Result, ok}
use compliance_agent_platfor.Exec.{◌>>=◌}
use compliance_agent_platfor.Guardrails.Cards.{find_pii}
use compliance_agent_platfor.Schemas.Alert.{validate_alert}
use compliance_agent_platfor.Schemas.Retrieval.{validate_retrieval}
use compliance_agent_platfor.Schemas.Evaluation.{validate_evaluation}
use compliance_agent_platfor.Schemas.Disposition.{
  Disposition, DispositionType, DecidedBy, validate_disposition,
}
use compliance_agent_platfor.Schemas.State.{ScreeningState, empty_state}
use compliance_agent_platfor.Graph.Enrich.{intake, enrich, retrieve}
use compliance_agent_platfor.Graph.Evaluate.{evaluate}
use compliance_agent_platfor.Graph.Dispose.{dispose}
use compliance_agent_platfor.Graph.Prompt.{build_eval_prompt, untrusted_text}
use compliance_agent_platfor.Graph.Run.{screen}
use compliance_agent_platfor.Contract.{Payload, Response, disposed, invoke}
use compliance_agent_platfor.Contract.Responses.{IsReliable, invoke-IsReliable}
use compliance_agent_platfor.Samples.{ctx, alert, world}

abbrev new_alert : Payload
new_alert = record { thread_id = none; alert = some alert; resume = none }

-- No thread has been saved.
abbrev nothing_saved : String → ScreeningState
nothing_saved thread = empty_state

abbrev unread : Disposition
unread = record {
  alert_id = "";
  queue = "";
  disposition = DispositionType.insufficient_data;
  rationale = "";
  confidence = none;
  matched_entities = [];
  evidence = [];
  decided_by = DecidedBy.agent;
  analyst_id = none;
  model_id = none;
  prompt_version = none;
  created_at = 0;
}

abbrev disposition_of : Result Response → Disposition
disposition_of (ok (disposed thread d)) = d
disposition_of _ = unread

abbrev answered : Disposition
answered = disposition_of (invoke ctx nothing_saved new_alert none world).0

invoked : (invoke ctx nothing_saved new_alert none world).0 ≡ ok (disposed "A-1" answered)
unfolding invoke screen double units in_unit_range ◌>>=◌ intake validate_alert enrich retrieve
    evaluate validate_retrieval find_pii build_eval_prompt untrusted_text join contains dispose
    validate_evaluation validate_disposition
invoked = refl

invoke-IsReliable_example : IsReliable answered
invoke-IsReliable_example =
    invoke-IsReliable ctx nothing_saved new_alert none world "A-1" answered invoked
