-- ===== src/Error.antt =====
-- The exceptions that the program raises or lets through, and the result of a call that may raise:
-- compliance_mw/errors.py, guardrails/errors.py, and the built-in and library exceptions.
use compliance_agent_platfor.Base.{String, Option, Bool, true, false}
use compliance_agent_platfor.Json.{Json}

pub data Exn : Type 0 where
  validation_error key_error value_error runtime_error attribute_error type_error : String → Exn
  -- an exception raised inside a provider, a model, a vector store or a library
  external : String → Exn
  -- GuardrailViolationError(rail, reason)
  guardrail_violation : String → Option String → Exn
  -- ComplianceViolationError(alert_id, disposition_type, reason)
  compliance_violation : String → String → String → Exn
  -- langgraph's GraphBubbleUp, as `interrupt()` raises it with the payload for the analyst
  graph_interrupt : Json → Exn

pub data Result {ℓ} (A : Type ℓ) : Type ℓ where
  ok : A → Result A
  err : Exn → Result A

-- A validator's check: the first that fails raises.
abbrev pub check {ℓ} : {A : Type ℓ} → Bool → Exn → Result A → Result A
check true e rest = rest
check false e rest = err e

-- `isinstance(e, GraphBubbleUp)`
abbrev pub is_bubble_up : Exn → Bool
is_bubble_up (graph_interrupt payload) = true
is_bubble_up _ = false

-- `isinstance(e, GuardrailViolationError)`
abbrev pub is_guardrail_violation : Exn → Bool
is_guardrail_violation (guardrail_violation rail reason) = true
is_guardrail_violation _ = false

-- The next step of a computation that may raise.
abbrev pub and_then {ℓ κ} : {A : Type ℓ} {B : Type κ} → Result A → (A → Result B) → Result B
and_then (ok a) f = f a
and_then (err e) f = err e
