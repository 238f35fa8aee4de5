-- ===== src/Middleware.antt =====
-- compliance_mw/: the wrapper around every node, and the citation check behind `dispose`.
pub mod Failures
use compliance_agent_platfor.Base.{
  String, Bool, true, false, not, ◌||◌, Option, none, some, is_empty, if◌then◌else◌,
}
use compliance_agent_platfor.Base.Text.{◌+ₛ◌}
use compliance_agent_platfor.Json.{str, obj, field, end}
use compliance_agent_platfor.Error.{
  Exn, validation_error, key_error, value_error, runtime_error, attribute_error, type_error,
  external, guardrail_violation, compliance_violation, graph_interrupt, is_bubble_up,
}
use compliance_agent_platfor.Exec.{Exec, pure, raise, lift, catch, ◌>>=◌, ◌>>◌, audit_row}
use compliance_agent_platfor.Audit.Log.{AuditRecord}
use compliance_agent_platfor.Schemas.Alert.{ScreeningAlert}
use compliance_agent_platfor.Schemas.Disposition.{
  Disposition, type_value, is_asserting, validate_disposition,
}
use compliance_agent_platfor.Schemas.State.{ScreeningState}
use compliance_agent_platfor.Graph.Context.{NodeContext, channel, row}

pub data NodeName : Type 0 where
  intake enrich retrieve evaluate escalate dispose : NodeName

-- The names under which build_graph adds the nodes.
abbrev pub node_text : NodeName → String
node_text NodeName.intake = "intake"
node_text NodeName.enrich = "enrich"
node_text NodeName.retrieve = "retrieve"
node_text NodeName.evaluate = "evaluate"
node_text NodeName.escalate = "escalate"
node_text NodeName.dispose = "dispose"

-- `type(exc).__name__`; an exception from outside is known by the name that it carries.
abbrev pub type_name : Exn → String
type_name (validation_error m) = "ValidationError"
type_name (key_error m) = "KeyError"
type_name (value_error m) = "ValueError"
type_name (runtime_error m) = "RuntimeError"
type_name (attribute_error m) = "AttributeError"
type_name (type_error m) = "TypeError"
type_name (external m) = m
type_name (guardrail_violation rail reason) = "GuardrailViolationError"
type_name (compliance_violation id t reason) = "ComplianceViolationError"
type_name (graph_interrupt payload) = "GraphInterrupt"

-- `(state.get("alert") or {}).get("alert_id", "unknown")`
abbrev pub alert_id_of : Option ScreeningAlert → String
alert_id_of none = "unknown"
alert_id_of (some a) = a.alert_id

-- `f"{disposition.disposition.value} disposition has no evidence citations"`
abbrev pub citation_reason : Disposition → String
citation_reason d = type_value d.disposition +ₛ " disposition has no evidence citations"

module _ (ctx : NodeContext) where
  open ctx use {outside}

  -- A write of a row that the database may refuse.
  abbrev pub write_or_raise : Option Exn → AuditRecord → Exec (Unit {0})
  write_or_raise none r = audit_row outside r
  write_or_raise (some refusal) r = raise refusal

  abbrev pub failure_row : ScreeningState → NodeName → Exn → AuditRecord
  failure_row s name e =
      record (row (alert_id_of s.alert) (node_text name) "system" "node_failed") {
        detail = some (
            obj
              (field "error" (str (outside.repr e)) (field "error_type" (str (type_name e)) end)));
      }

  -- `_audit_node_failure`
  unfoldable pub audit_node_failure : ScreeningState → NodeName → Exn → Exec (Unit {0})
  audit_node_failure s name e =
      let r = failure_row s name e in write_or_raise (outside.audit_refused e r) r

  -- The row and the exception of a disposition without citations.
  abbrev pub block : Disposition → Exec (Unit {0})
  block d = do
    audit_row outside (record (row d.alert_id "dispose" "system" "compliance_blocked") {
      detail = some (
          obj (
            field "disposition_type" (str (type_value d.disposition))
              (field "reason" (str (citation_reason d)) end)));
    })
    raise (compliance_violation d.alert_id (type_value d.disposition) (citation_reason d))

  -- `check_dispose_citation`
  unfoldable pub check_dispose_citation : ScreeningState → ScreeningState → Exec (Unit {0})
  check_dispose_citation s result = do
    raw ← lift (channel "disposition" result.disposition)
    d ← lift (validate_disposition raw)
    if not (is_asserting d.disposition) || not (is_empty d.evidence) then pure tt else block d

  -- `_POST_HOOKS.get(name)`
  abbrev pub post_hook : NodeName → ScreeningState → ScreeningState → Exec (Unit {0})
  post_hook NodeName.dispose s result = check_dispose_citation s result
  post_hook _ s result = pure tt

  abbrev pub on_failure : ScreeningState → NodeName → Exn → Exec ScreeningState
  on_failure s name e =
      if is_bubble_up e then raise e else (do audit_node_failure s name e; raise e)

  unfoldable pub wrap_node :
      NodeName → (ScreeningState → Exec ScreeningState) → ScreeningState → Exec ScreeningState
  unfolding audit_node_failure check_dispose_citation
  wrap_node name fn s = do
    result ← catch (fn s) (on_failure s name)
    post_hook name s result
    pure result
