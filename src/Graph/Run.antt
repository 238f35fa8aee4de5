-- ===== src/Graph/Run.antt =====
-- graph/builder.py: the nodes under their names, the edges, and a run along them. LangGraph merges
-- what a node returns into the channels and saves them before it goes on along the edge; an
-- exception ends the run with the channels as they were saved last.
use compliance_agent_platfor.Base.{ℕ, zero, suc, Option, none, some}
use compliance_agent_platfor.Error.{Exn, Result, ok, err}
use compliance_agent_platfor.Exec.{Exec, World}
use compliance_agent_platfor.Schemas.Evaluation.{EvaluationResult, AnalystDecision}
use compliance_agent_platfor.Schemas.State.{ScreeningState, merge}
use compliance_agent_platfor.Graph.Context.{NodeContext, channel}
use compliance_agent_platfor.Graph.Enrich
use compliance_agent_platfor.Graph.Evaluate
use compliance_agent_platfor.Graph.Dispose
use compliance_agent_platfor.Graph.Routing.{Route, to_escalate, to_dispose, route_after_evaluate}
use compliance_agent_platfor.Middleware.{NodeName, wrap_node}

-- How a run stops: at END, or at a node that raised; `interrupt()` is the exception of a park.
pub data Stop : Type 0 where
  finished : ScreeningState → Stop
  stopped : ScreeningState → NodeName → Exn → Stop
  exhausted : Stop

abbrev pub route_node : Route → NodeName
route_node to_escalate = NodeName.escalate
route_node to_dispose = NodeName.dispose

-- What a node returned, merged into the channels.
abbrev pub merged : ScreeningState → Result ScreeningState → Result ScreeningState
merged s (ok update) = ok (merge s update)
merged s (err e) = err e

module _ (ctx : NodeContext) where
  -- `builder.add_node`; `resume` is the value of `Command(resume=...)`.
  unfoldable pub node : Option AnalystDecision → NodeName → ScreeningState → Exec ScreeningState
  node resume NodeName.intake = Enrich.intake ctx
  node resume NodeName.enrich = Enrich.enrich ctx
  node resume NodeName.retrieve = Enrich.retrieve ctx
  node resume NodeName.evaluate = Evaluate.evaluate ctx
  node resume NodeName.escalate = Dispose.escalate ctx resume
  node resume NodeName.dispose = Dispose.dispose ctx

  abbrev pub after_evaluation : Option EvaluationResult → Result (Option NodeName)
  after_evaluation none = channel "evaluation" none
  after_evaluation (some e) =
      ok (some (route_node (route_after_evaluate ctx.settings.clear_confidence_threshold e)))

  -- `builder.add_edge` and `add_conditional_edges`; `none` is END.
  unfoldable pub successor : NodeName → ScreeningState → Result (Option NodeName)
  unfolding route_after_evaluate
  successor NodeName.intake s = ok (some NodeName.enrich)
  successor NodeName.enrich s = ok (some NodeName.retrieve)
  successor NodeName.retrieve s = ok (some NodeName.evaluate)
  successor NodeName.evaluate s = after_evaluation s.evaluation
  successor NodeName.escalate s = ok (some NodeName.dispose)
  successor NodeName.dispose s = ok none

  -- One super-step: the wrapped node, on the saved channels.
  unfoldable pub super_step :
      Option AnalystDecision → NodeName → ScreeningState → Exec ScreeningState
  unfolding node wrap_node
  super_step resume name s w =
      let (r, w') = wrap_node ctx name (node resume name) s w in (merged s r, w')

  -- What the driver does with the result of a super-step: it stops, or goes on along the edge.
  abbrev pub along_edge :
      (NodeName → ScreeningState → World → Stop × World)
      → NodeName
      → ScreeningState
      → Result (Option NodeName)
      → World
      → Stop × World
  along_edge go_on name s (err e) w = (stopped s name e, w)
  along_edge go_on name s (ok none) w = (finished s, w)
  along_edge go_on name s (ok (some next)) w = go_on next s w

  abbrev pub after_step :
      (NodeName → ScreeningState → World → Stop × World)
      → NodeName
      → ScreeningState
      → Result ScreeningState
      → World
      → Stop × World
  after_step go_on name s (err e) w = (stopped s name e, w)
  after_step go_on name s (ok s') w = along_edge go_on name s' (successor name s') w

  -- A run from a node on; `steps` bounds the super-steps.
  unfoldable pub run : ℕ → Option AnalystDecision → NodeName → ScreeningState → World → Stop × World
  unfolding super_step successor
  run zero resume name s w = (exhausted, w)
  run (suc steps) resume name s w =
      let (r, w') = super_step resume name s w in after_step (run steps resume) name s r w'

  -- A new alert, over the channels that the thread has saved.
  unfoldable pub screen : ScreeningState → World → Stop × World
  unfolding run
  screen s = run 6 none NodeName.intake s

  -- A parked run, resumed with the analyst's decision.
  unfoldable pub resume_parked : AnalystDecision → ScreeningState → World → Stop × World
  unfolding run
  resume_parked decision s = run 2 (some decision) NodeName.escalate s
