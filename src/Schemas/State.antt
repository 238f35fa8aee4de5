-- ===== src/Schemas/State.antt =====
-- schemas/state.py: the channels of the graph. A channel that no node has written is `none`; an
-- update replaces the channels that it writes. The channel `errors` is written by no node, and has
-- the only reducer.
use compliance_agent_platfor.Base.{String, List, [], ◌++◌, Option, none, some, list_or}
use compliance_agent_platfor.Schemas.Alert.{ScreeningAlert}
use compliance_agent_platfor.Schemas.Enrichment.{EnrichmentBundle}
use compliance_agent_platfor.Schemas.Retrieval.{RetrievalBundle}
use compliance_agent_platfor.Schemas.Evaluation.{EvaluationResult, AnalystDecision}
use compliance_agent_platfor.Schemas.Disposition.{Disposition}

-- {"backend": ..., "model_id": ...}
pub record EvaluationModel : Type 0 where
  pub backend : String
  pub model_id : String

pub record ScreeningState : Type 0 where
  pub alert : Option ScreeningAlert
  pub enrichment : Option EnrichmentBundle
  pub retrieval : Option RetrievalBundle
  pub evaluation : Option EvaluationResult
  pub evaluation_model : Option EvaluationModel
  pub analyst_decision : Option AnalystDecision
  pub disposition : Option Disposition
  pub errors : List String

-- `_extend`
abbrev pub extend {ℓ} : {A : Type ℓ} → List A → List A → List A
extend left right = list_or left [] ++ list_or right []

abbrev pub empty_state : ScreeningState
empty_state = record {
  alert = none;
  enrichment = none;
  retrieval = none;
  evaluation = none;
  evaluation_model = none;
  analyst_decision = none;
  disposition = none;
  errors = [];
}

-- A channel after an update that may write it.
abbrev pub overwrite {ℓ} : {A : Type ℓ} → Option A → Option A → Option A
overwrite old none = old
overwrite old (some new) = some new

-- What a node returned, written over the channels.
abbrev pub merge : ScreeningState → ScreeningState → ScreeningState
merge s u = record {
  alert = overwrite s.alert u.alert;
  enrichment = overwrite s.enrichment u.enrichment;
  retrieval = overwrite s.retrieval u.retrieval;
  evaluation = overwrite s.evaluation u.evaluation;
  evaluation_model = overwrite s.evaluation_model u.evaluation_model;
  analyst_decision = overwrite s.analyst_decision u.analyst_decision;
  disposition = overwrite s.disposition u.disposition;
  errors = extend s.errors u.errors;
}
