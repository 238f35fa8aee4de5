-- ===== src/Schemas/Tests.antt =====
-- The instance of the theorem on the validators.
use compliance_agent_platfor.Base.{◌≡◌, ◌↔◌, [], none, some}
use compliance_agent_platfor.Error.{ok}
use compliance_agent_platfor.Schemas.Disposition.{
  Disposition, DispositionType, DecidedBy, validate_disposition,
}
use compliance_agent_platfor.Schemas.Consistent.{IsConsistent, validate_disposition_iff}

-- An analyst's match that names no entity.
abbrev unnamed_match : Disposition
unnamed_match = record {
  alert_id = "A-1";
  queue = "sanctions_screening";
  disposition = DispositionType.true_match;
  rationale = "same person";
  confidence = none;
  matched_entities = [];
  evidence = [];
  decided_by = DecidedBy.analyst;
  analyst_id = some "jdoe";
  model_id = none;
  prompt_version = none;
  created_at = 0;
}

validate_disposition_iff_example :
    (validate_disposition unnamed_match ≡ ok unnamed_match) ↔ IsConsistent unnamed_match
validate_disposition_iff_example = validate_disposition_iff unnamed_match
