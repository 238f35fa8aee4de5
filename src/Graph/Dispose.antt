-- ===== src/Graph/Dispose.antt =====
-- graph/nodes.py: the nodes `escalate` and `dispose`.
use compliance_agent_platfor.Base.{
  ℕ, String, Bool, true, false, List, [], ◌∷◌, Option, none, some, list_or, text_or,
}
use compliance_agent_platfor.Base.Float.{Float}
use compliance_agent_platfor.Base.Text.{◌+ₛ◌}
use compliance_agent_platfor.Json.{Json, str, float, obj, field, end, list}
use compliance_agent_platfor.Error.{Result, ok, err, type_error, graph_interrupt}
use compliance_agent_platfor.Outside.{Outside}
use compliance_agent_platfor.Exec.{Exec, pure, lift, ◌>>=◌, ◌>>◌, audit_row, read_clock}
use compliance_agent_platfor.Schemas.Alert.{ScreeningAlert, validate_alert}
use compliance_agent_platfor.Schemas.Enrichment.{
  WatchlistCandidate, EnrichmentBundle, dump_candidate,
}
use compliance_agent_platfor.Schemas.Disposition.{
  DispositionType, DecidedBy, Disposition, EvidenceItem, type_value, decided_by_value,
  validate_disposition, dump_disposition,
}
use compliance_agent_platfor.Schemas.Evaluation.{
  EvaluationResult, AnalystResolution, AnalystDecision, validate_evaluation, validate_decision,
  dump_evaluation, dump_decision,
}
use compliance_agent_platfor.Schemas.State.{ScreeningState, EvaluationModel, empty_state}
use compliance_agent_platfor.Graph.Context.{NodeContext, channel, row}

-- `_RESOLUTION_MAP`
unfoldable pub resolution_type : AnalystResolution → DispositionType
resolution_type AnalystResolution.clear = DispositionType.clear
resolution_type AnalystResolution.true_match = DispositionType.true_match
resolution_type AnalystResolution.insufficient_data = DispositionType.insufficient_data

-- `str` of an optional Boolean
abbrev match_text : Option Bool → String
match_text none = "None"
match_text (some true) = "True"
match_text (some false) = "False"

-- The evidence item of a candidate; `None` has no format `.2f`.
abbrev pub candidate_evidence : Outside → WatchlistCandidate → Option Float → Result EvidenceItem
candidate_evidence o c none =
    err (type_error "unsupported format string passed to NoneType.__format__")
candidate_evidence o c (some similarity) = ok (record {
  source = c.list_name;
  detail =
      "name_similarity="
      +ₛ o.two_decimals similarity
      +ₛ ", dob_match="
      +ₛ match_text c.dob_match
      +ₛ ", nationality_match="
      +ₛ match_text c.nationality_match;
  reference = some (text_or c.source_url c.entry_id);
  document_id = none;
  chunk_id = none;
})

abbrev pub cons_result :
    Result EvidenceItem → Result (List EvidenceItem) → Result (List EvidenceItem)
cons_result (err e) rest = err e
cons_result (ok item) (err e) = err e
cons_result (ok item) (ok items) = ok (item ∷ items)

-- The loop of `_fallback_evidence`
unfoldable pub evidence_of : Outside → List WatchlistCandidate → Result (List EvidenceItem)
evidence_of o [] = ok []
evidence_of o (c ∷ cs) = cons_result (candidate_evidence o c c.name_similarity) (evidence_of o cs)

-- `_fallback_evidence`
abbrev fallback_evidence : Outside → Option EnrichmentBundle → Result (List EvidenceItem)
fallback_evidence o none = channel "enrichment" none
fallback_evidence o (some e) = evidence_of o e.candidates

-- `evaluation.evidence or _fallback_evidence(state)`
unfoldable pub evidence_or_fallback :
    Outside → List EvidenceItem → Option EnrichmentBundle → Result (List EvidenceItem)
unfolding evidence_of
evidence_or_fallback o [] enrichment = fallback_evidence o enrichment
evidence_or_fallback o (e ∷ es) enrichment = ok (e ∷ es)

-- `state["enrichment"].get("candidates", [])`
abbrev candidates_of : EnrichmentBundle → Json
candidates_of e = list dump_candidate e.candidates

-- `interrupt(payload)`: it raises, or returns the value that the run was resumed with.
abbrev pub interrupt : Json → Option AnalystDecision → Result AnalystDecision
interrupt payload none = err (graph_interrupt payload)
interrupt payload (some decision) = ok decision

abbrev pub validate_optional : Option AnalystDecision → Result (Option AnalystDecision)
validate_optional none = ok none
validate_optional (some d) = elim (validate_decision d) [ ok d ↦ ok (some d) | err e ↦ err e ]

-- `(state.get("evaluation_model") or {}).get("model_id", ctx.model_id)`
abbrev pub answering_model : Option EvaluationModel → String → String
answering_model none id = id
answering_model (some m) id = m.model_id

module _ (ctx : NodeContext) where
  open ctx use {outside, settings, model_id}

  abbrev pub interrupt_payload : ScreeningAlert → EvaluationResult → EnrichmentBundle → Json
  interrupt_payload a e enrichment = obj (
      field "alert_id" (str a.alert_id) (
        field "screened_name" (str a.screened_name) (
          field "agent_recommendation" (str (type_value e.recommended)) (
            field "agent_confidence" (float e.confidence) (
              field "agent_rationale" (str e.rationale)
                (field "candidates" (candidates_of enrichment) end))))))

  -- `escalate`; LangGraph runs it again from its start when the run is resumed.
  unfoldable pub escalate : Option AnalystDecision → ScreeningState → Exec ScreeningState
  escalate resume s = do
    alert ← lift (channel "alert" s.alert)
    valid ← lift (validate_alert alert)
    raw_evaluation ← lift (channel "evaluation" s.evaluation)
    evaluation ← lift (validate_evaluation raw_evaluation)
    audit_row outside (record (row valid.alert_id "escalate" "agent" "interrupt_raised") {
      detail = some (obj (field "agent_recommendation" (dump_evaluation raw_evaluation) end));
    })
    enrichment ← lift (channel "enrichment" s.enrichment)
    raw ← lift (interrupt (interrupt_payload valid evaluation enrichment) resume)
    decision ← lift (validate_decision raw)
    audit_row outside (record (row valid.alert_id "escalate" "analyst" "resumed") {
      detail = some (dump_decision decision);
    })
    pure (record empty_state { analyst_decision = some decision })

  -- The two `Disposition(...)` calls, with the evidence and `created_at` at hand.
  unfoldable pub draft :
      ScreeningAlert
      → EvaluationResult
      → Option AnalystDecision
      → Option EvaluationModel
      → List EvidenceItem
      → ℕ
      → Disposition
  unfolding resolution_type
  draft a e (some d) evaluation_model evidence created_at = record {
    alert_id = a.alert_id;
    queue = settings.queue;
    disposition = resolution_type d.resolution;
    rationale = d.rationale;
    confidence = none;
    matched_entities = list_or d.matched_entities e.matched_entities;
    evidence = evidence;
    decided_by = DecidedBy.analyst;
    analyst_id = some d.analyst_id;
    model_id = none;
    prompt_version = some settings.prompt_version;
    created_at = created_at;
  }
  draft a e none evaluation_model evidence created_at = record {
    alert_id = a.alert_id;
    queue = settings.queue;
    disposition = e.recommended;
    rationale = e.rationale;
    confidence = some e.confidence;
    matched_entities = e.matched_entities;
    evidence = evidence;
    decided_by = DecidedBy.agent;
    analyst_id = none;
    model_id = some (answering_model evaluation_model model_id);
    prompt_version = some settings.prompt_version;
    created_at = created_at;
  }

  unfoldable pub dispose : ScreeningState → Exec ScreeningState
  unfolding draft evidence_or_fallback
  dispose s = do
    alert ← lift (channel "alert" s.alert)
    valid ← lift (validate_alert alert)
    raw_evaluation ← lift (channel "evaluation" s.evaluation)
    evaluation ← lift (validate_evaluation raw_evaluation)
    analyst ← lift (validate_optional s.analyst_decision)
    evidence ← lift (evidence_or_fallback outside evaluation.evidence s.enrichment)
    tick ← read_clock
    disposition ← lift (
        validate_disposition
          (draft valid evaluation analyst s.evaluation_model evidence (outside.now tick)))
    audit_row outside
        (record (row valid.alert_id "dispose" (decided_by_value disposition.decided_by)
          "disposition") { detail = some (dump_disposition disposition) })
    pure (record empty_state { disposition = some disposition })
