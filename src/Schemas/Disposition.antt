-- ===== src/Schemas/Disposition.antt =====
-- schemas/disposition.py: the typed disposition and its validators.
use compliance_agent_platfor.Base.{
  ℕ, String, Bool, true, false, not, ◌&&◌, ◌||◌, List, Option, none, some, is_empty, truthy,
}
use compliance_agent_platfor.Base.Float.{Float, in_unit_range}
use compliance_agent_platfor.Json.{Json, str, float, time, obj, field, end, list, opt}
use compliance_agent_platfor.Error.{Result, ok, validation_error, check}

pub data DispositionType : Type 0 where
  clear true_match escalate_to_analyst insufficient_data : DispositionType

pub data DecidedBy : Type 0 where
  agent analyst : DecidedBy

-- `.value` of the two enums
abbrev pub type_value : DispositionType → String
type_value DispositionType.clear = "clear"
type_value DispositionType.true_match = "true_match"
type_value DispositionType.escalate_to_analyst = "escalate_to_analyst"
type_value DispositionType.insufficient_data = "insufficient_data"

abbrev pub decided_by_value : DecidedBy → String
decided_by_value DecidedBy.agent = "agent"
decided_by_value DecidedBy.analyst = "analyst"

pub record MatchedEntity : Type 0 where
  pub list_name : String
  pub entry_id : String
  pub primary_name : String
  pub programs : List String

pub record EvidenceItem : Type 0 where
  pub source : String
  pub detail : String
  pub reference : Option String
  pub document_id : Option String
  pub chunk_id : Option String

pub record Disposition : Type 0 where
  pub alert_id : String
  pub queue : String
  pub disposition : DispositionType
  pub rationale : String
  pub confidence : Option Float
  pub matched_entities : List MatchedEntity
  pub evidence : List EvidenceItem
  pub decided_by : DecidedBy
  pub analyst_id : Option String
  pub model_id : Option String
  pub prompt_version : Option String
  pub created_at : ℕ

-- Python's truth of an optional text.
abbrev pub given : Option String → Bool
given none = false
given (some s) = truthy s

abbrev pub is_some {ℓ} : {A : Type ℓ} → Option A → Bool
is_some none = false
is_some (some x) = true

-- `self.decided_by is DecidedBy.AGENT`
abbrev pub is_agent : DecidedBy → Bool
is_agent DecidedBy.agent = true
is_agent DecidedBy.analyst = false

abbrev pub is_true_match : DispositionType → Bool
is_true_match DispositionType.true_match = true
is_true_match _ = false

-- `{DispositionType.CLEAR, DispositionType.TRUE_MATCH}`
abbrev pub is_asserting : DispositionType → Bool
is_asserting DispositionType.clear = true
is_asserting DispositionType.true_match = true
is_asserting _ = false

-- `Disposition._check_consistency`
unfoldable pub check_consistency : Disposition → Result Disposition
check_consistency d =
    check (is_agent d.decided_by || given d.analyst_id)
      (validation_error "analyst_id is required when decided_by == 'analyst'")
      (check (not (is_agent d.decided_by) || given d.model_id)
        (validation_error "model_id is required when decided_by == 'agent'")
        (check (not (is_true_match d.disposition) || not (is_empty d.matched_entities))
          (validation_error "true_match disposition requires at least one matched_entity")
          (check (not (is_agent d.decided_by && is_asserting d.disposition) || is_some d.confidence)
            (validation_error "agent clear/true_match disposition requires a confidence score")
            (ok d))))

-- `Field(default=None, ge=0.0, le=1.0)`
abbrev pub confidence_ok : Option Float → Bool
confidence_ok none = true
confidence_ok (some x) = in_unit_range x

-- `Disposition(...)` and `Disposition.model_validate`: the fields first, the validator after.
unfoldable pub validate_disposition : Disposition → Result Disposition
unfolding check_consistency
validate_disposition d =
    check (truthy d.rationale) (validation_error "rationale")
      (check (confidence_ok d.confidence) (validation_error "confidence") (check_consistency d))

-- `model_dump(mode="json")`
abbrev pub dump_entity : MatchedEntity → Json
dump_entity e = obj (
    field "list_name" (str e.list_name) (
      field "entry_id" (str e.entry_id)
        (field "primary_name" (str e.primary_name) (field "programs" (list str e.programs) end))))

abbrev pub dump_evidence : EvidenceItem → Json
dump_evidence e = obj (
    field "source" (str e.source) (
      field "detail" (str e.detail) (
        field "reference" (opt str e.reference) (
          field "document_id" (opt str e.document_id)
            (field "chunk_id" (opt str e.chunk_id) end)))))

unfoldable pub dump_disposition : Disposition → Json
dump_disposition d = obj (
    field "alert_id" (str d.alert_id) (
      field "queue" (str d.queue) (
        field "disposition" (str (type_value d.disposition)) (
          field "rationale" (str d.rationale) (
            field "confidence" (opt float d.confidence) (
              field "matched_entities" (list dump_entity d.matched_entities) (
                field "evidence" (list dump_evidence d.evidence) (
                  field "decided_by" (str (decided_by_value d.decided_by)) (
                    field "analyst_id" (opt str d.analyst_id) (
                      field "model_id" (opt str d.model_id) (
                        field "prompt_version" (opt str d.prompt_version)
                          (field "created_at" (time d.created_at) end))))))))))))
