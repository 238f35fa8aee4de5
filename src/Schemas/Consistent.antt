-- ===== src/Schemas/Consistent.antt =====
-- What the validators of `Disposition` let pass.
use compliance_agent_platfor.Base.{◌≡◌, ◌↔◌, ◌⊎◌, ◌≢◌, true, false, is_empty, truthy, arith}
use compliance_agent_platfor.Error.{ok}
use compliance_agent_platfor.Schemas.Disposition.{
  Disposition, DispositionType, DecidedBy, validate_disposition, check_consistency, confidence_ok,
  given, is_asserting, is_some,
}

-- A disposition as the regulator may read it.
pub record IsConsistent (d : Disposition) : Type 0 where
  pub reasoned : truthy d.rationale ≡ true
  pub score : confidence_ok d.confidence ≡ true
  pub analyst_named : (d.decided_by ≡ DecidedBy.agent) ⊎ (given d.analyst_id ≡ true)
  pub model_named : (d.decided_by ≡ DecidedBy.analyst) ⊎ (given d.model_id ≡ true)
  pub entity_named :
      (d.disposition ≢ DispositionType.true_match) ⊎ (is_empty d.matched_entities ≡ false)
  pub scored :
      (d.decided_by ≡ DecidedBy.analyst)
      ⊎ (is_asserting d.disposition ≡ false)
      ⊎ (is_some d.confidence ≡ true)

valid-IsConsistent : (d : Disposition) → validate_disposition d ≡ ok d → IsConsistent d
unfolding validate_disposition check_consistency
valid-IsConsistent d q = record {
  reasoned = ground arith;
  score = ground arith;
  analyst_named = ground arith;
  model_named = ground arith;
  entity_named = ground arith;
  scored = ground arith;
}

IsConsistent-valid :
    (d : Disposition)
    → truthy d.rationale ≡ true
    → confidence_ok d.confidence ≡ true
    → (d.decided_by ≡ DecidedBy.agent) ⊎ (given d.analyst_id ≡ true)
    → (d.decided_by ≡ DecidedBy.analyst) ⊎ (given d.model_id ≡ true)
    → (d.disposition ≢ DispositionType.true_match) ⊎ (is_empty d.matched_entities ≡ false)
    → (d.decided_by ≡ DecidedBy.analyst)
      ⊎ (is_asserting d.disposition ≡ false)
      ⊎ (is_some d.confidence ≡ true)
    → validate_disposition d ≡ ok d
unfolding validate_disposition check_consistency
IsConsistent-valid d a b c e f g = ground arith

-- `Disposition` validates exactly the dispositions that have a rationale, a confidence between 0 and
-- 1 if any, the analyst's id if an analyst decided, the model's id if the agent did, a matched entity
-- if it is true_match, and a confidence if the agent decided clear or true_match.
pub validate_disposition_iff : (d : Disposition) → (validate_disposition d ≡ ok d) ↔ IsConsistent d
validate_disposition_iff d = (
  valid-IsConsistent d,
  λ c.
      IsConsistent-valid d c.reasoned c.score c.analyst_named c.model_named c.entity_named c.scored,
)
