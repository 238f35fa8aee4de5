-- ===== src/Contract.antt =====
-- runtime/contract.py: the entrypoint `invoke`. The checkpointer is a parameter, the channels that it
-- has saved for a thread; a resumed thread is one that is parked at `escalate`.
pub mod Responses
mod Tests
use compliance_agent_platfor.Base.{String, Option, none, some, truthy, if◌then◌else◌}
use compliance_agent_platfor.Json.{Json}
use compliance_agent_platfor.Error.{
  Exn, Result, ok, err, value_error, runtime_error, compliance_violation, graph_interrupt,
}
use compliance_agent_platfor.Exec.{Exec, World, raise, lift, ◌>>=◌}
use compliance_agent_platfor.Schemas.Alert.{ScreeningAlert, validate_alert}
use compliance_agent_platfor.Schemas.Disposition.{Disposition}
use compliance_agent_platfor.Schemas.Evaluation.{AnalystDecision, validate_decision}
use compliance_agent_platfor.Schemas.State.{ScreeningState, empty_state, merge}
use compliance_agent_platfor.Graph.Context.{NodeContext, channel}
use compliance_agent_platfor.Graph.Run.{Stop, finished, stopped, exhausted, screen, resume_parked}

-- `payload`, with its values parsed.
pub record Payload : Type 0 where
  pub thread_id : Option String
  pub alert : Option ScreeningAlert
  pub resume : Option AnalystDecision

-- The three response dicts, each with its `thread_id`.
pub data Response : Type 0 where
  disposed : String → Disposition → Response
  escalated : String → Json → Response
  blocked : String → String → String → Response

abbrev alert_id : Option ScreeningAlert → Option String
alert_id none = none
alert_id (some a) = some a.alert_id

abbrev first_given : Option String → Result String → Result String
first_given none rest = rest
first_given (some s) rest = if truthy s then ok s else rest

-- `_thread_id`
unfoldable pub thread_id_of : Payload → Option String → Option ScreeningAlert → Result String
thread_id_of payload session_id alert = first_given payload.thread_id (
    first_given session_id (
      first_given (alert_id alert) (
        err (
          value_error
            "cannot determine thread_id: provide payload['thread_id'], a session id, or an alert"))))

-- What `invoke` does with the exception of a run: a compliance violation and an interrupt become
-- responses.
abbrev pub caught : String → Exn → Result Response
caught thread (compliance_violation id disposition_type reason) =
    ok (blocked thread disposition_type reason)
caught thread (graph_interrupt payload) = ok (escalated thread payload)
caught thread e = err e

abbrev pub as_disposed : String → Option Disposition → Result Response
as_disposed thread none = channel "disposition" none
as_disposed thread (some d) = ok (disposed thread d)

-- The response to a run. A run does not exhaust its steps.
abbrev pub respond : String → Stop → Result Response
respond thread (finished s) = as_disposed thread s.disposition
respond thread (stopped s name e) = caught thread e
respond thread exhausted = err (runtime_error "recursion limit")

abbrev validate_given : Option ScreeningAlert → Result (Option ScreeningAlert)
validate_given none = ok none
validate_given (some a) = elim (validate_alert a) [ ok v ↦ ok (some v) | err e ↦ err e ]

-- The response to the run `go`.
abbrev pub responding : String → (World → Stop × World) → Exec Response
responding thread go w = let (stop, w') = go w in (respond thread stop, w')

module _ (ctx : NodeContext) (saved : String → ScreeningState) where
  abbrev pub start_run : String → Option ScreeningAlert → Option AnalystDecision → Exec Response
  start_run thread alert (some d) = do
    decision ← lift (validate_decision d)
    responding thread (resume_parked ctx decision (saved thread))
  start_run thread (some a) none =
      responding thread (screen ctx (merge (saved thread) (record empty_state { alert = some a })))
  start_run thread none none =
      raise (value_error "payload must contain 'alert' (new run) or 'resume' (close escalation)")

  unfoldable pub invoke : Payload → Option String → Exec Response
  unfolding thread_id_of
  invoke payload session_id = do
    alert ← lift (validate_given payload.alert)
    thread ← lift (thread_id_of payload session_id alert)
    start_run thread alert payload.resume
