-- ===== src/Graph/Routing.antt =====
-- graph/routing.py: the conditional edge behind `evaluate`.
use compliance_agent_platfor.Base.{Bool, true, false, if◌then◌else◌}
use compliance_agent_platfor.Base.Float.{Float, le_float}
use compliance_agent_platfor.Schemas.Disposition.{DispositionType}
use compliance_agent_platfor.Schemas.Evaluation.{EvaluationResult}

pub data Route : Type 0 where
  to_escalate to_dispose : Route

-- `recommended in _ALWAYS_ESCALATE`
abbrev pub always_escalate : DispositionType → Bool
always_escalate DispositionType.true_match = true
always_escalate DispositionType.escalate_to_analyst = true
always_escalate _ = false

-- `recommended in _AGENT_TERMINAL`
abbrev pub agent_terminal : DispositionType → Bool
agent_terminal DispositionType.clear = true
agent_terminal DispositionType.insufficient_data = true
agent_terminal _ = false

-- `route_after_evaluate`, of the threshold and the evaluation
unfoldable pub route_after_evaluate : Float → EvaluationResult → Route
route_after_evaluate threshold e =
    if always_escalate e.recommended
    then to_escalate
    else if agent_terminal e.recommended
    then (if le_float threshold e.confidence then to_dispose else to_escalate)
    else to_escalate
