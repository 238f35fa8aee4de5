-- ===== src/Schemas/Evaluation.antt =====
-- schemas/evaluation.py: the model's answer and the analyst's decision.
use compliance_agent_platfor.Base.{ℕ, String, List, truthy}
use compliance_agent_platfor.Base.Float.{Float, in_unit_range}
use compliance_agent_platfor.Json.{Json, str, float, time, obj, field, end, list}
use compliance_agent_platfor.Error.{Result, ok, validation_error, check}
use compliance_agent_platfor.Schemas.Disposition.{
  DispositionType, MatchedEntity, EvidenceItem, type_value, dump_entity, dump_evidence,
}

pub record EvaluationResult : Type 0 where
  pub recommended : DispositionType
  pub confidence : Float
  pub rationale : String
  pub matched_entities : List MatchedEntity
  pub evidence : List EvidenceItem

pub data AnalystResolution : Type 0 where
  clear true_match insufficient_data : AnalystResolution

abbrev pub resolution_value : AnalystResolution → String
resolution_value AnalystResolution.clear = "clear"
resolution_value AnalystResolution.true_match = "true_match"
resolution_value AnalystResolution.insufficient_data = "insufficient_data"

pub record AnalystDecision : Type 0 where
  pub resolution : AnalystResolution
  pub analyst_id : String
  pub rationale : String
  pub matched_entities : List MatchedEntity
  pub decided_at : ℕ

-- `EvaluationResult.model_validate`
unfoldable pub validate_evaluation : EvaluationResult → Result EvaluationResult
validate_evaluation e =
    check (in_unit_range e.confidence) (validation_error "confidence")
      (check (truthy e.rationale) (validation_error "rationale") (ok e))

-- `AnalystDecision.model_validate`
unfoldable pub validate_decision : AnalystDecision → Result AnalystDecision
validate_decision d = check (truthy d.rationale) (validation_error "rationale") (ok d)

unfoldable pub dump_evaluation : EvaluationResult → Json
dump_evaluation e = obj (
    field "recommended" (str (type_value e.recommended)) (
      field "confidence" (float e.confidence) (
        field "rationale" (str e.rationale) (
          field "matched_entities" (list dump_entity e.matched_entities)
            (field "evidence" (list dump_evidence e.evidence) end)))))

unfoldable pub dump_decision : AnalystDecision → Json
dump_decision d = obj (
    field "resolution" (str (resolution_value d.resolution)) (
      field "analyst_id" (str d.analyst_id) (
        field "rationale" (str d.rationale) (
          field "matched_entities" (list dump_entity d.matched_entities)
            (field "decided_at" (time d.decided_at) end)))))
