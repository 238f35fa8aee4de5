-- ===== src/Graph/Policy/Writes.antt =====
-- Which channels a node writes when it returns.
use compliance_agent_platfor.Base.{◌≡◌, refl, none}
use compliance_agent_platfor.Exec.Yields.{Yields, Yields-pure, Yields-raise, Yields-if, Yields-bind}
use compliance_agent_platfor.Schemas.State.{ScreeningState}
use compliance_agent_platfor.Graph.Context.{NodeContext}
use compliance_agent_platfor.Graph.Enrich.{intake, enrich, retrieve}
use compliance_agent_platfor.Graph.Evaluate.{evaluate, ask, overlay}

-- No decision is written.
pub record Undecided (u : ScreeningState) : Type 0 where
  pub no_decision : u.analyst_decision ≡ none
  pub no_disposition : u.disposition ≡ none

undecided : (u : ScreeningState) → u.analyst_decision ≡ none → u.disposition ≡ none → Undecided u
undecided u a d = record { no_decision = a; no_disposition = d }

ruleset yields_rules = (Yields-pure, Yields-raise, Yields-if, Yields-bind, undecided, refl)

module _ (ctx : NodeContext) where
  pub intake-Undecided : (s : ScreeningState) → Yields Undecided (intake ctx s)
  unfolding intake
  intake-Undecided s = search yields_rules depth 20

  pub enrich-Undecided : (s : ScreeningState) → Yields Undecided (enrich ctx s)
  unfolding enrich
  enrich-Undecided s = search yields_rules depth 20

  pub retrieve-Undecided : (s : ScreeningState) → Yields Undecided (retrieve ctx s)
  unfolding retrieve
  retrieve-Undecided s = search yields_rules depth 20

  pub evaluate-Undecided : (s : ScreeningState) → Yields Undecided (evaluate ctx s)
  unfolding evaluate ask overlay
  evaluate-Undecided s = search yields_rules depth 30
