-- ===== src/Graph/Policy/Fuel.antt =====
-- The bounds on the super-steps: six from `intake`, two from `escalate`.
use compliance_agent_platfor.Base.{ℕ, zero, suc, ◌≤◌, ◌<◌, ◌≡◌, refl, Option, none, some, arith}
use compliance_agent_platfor.Error.{Result, ok, err}
use compliance_agent_platfor.Exec.{World}
use compliance_agent_platfor.Schemas.State.{ScreeningState}
use compliance_agent_platfor.Schemas.Evaluation.{EvaluationResult, AnalystDecision}
use compliance_agent_platfor.Graph.Context.{NodeContext}
use compliance_agent_platfor.Graph.Routing.{Route, to_escalate, to_dispose, route_after_evaluate}
use compliance_agent_platfor.Graph.Run.{
  Stop, exhausted, super_step, successor, run, along_edge, after_step, screen, resume_parked,
  after_evaluation, route_node,
}
use compliance_agent_platfor.Middleware.{NodeName}

-- The most nodes that a run from here on can meet.
abbrev nodes_left : NodeName → ℕ
nodes_left NodeName.intake = 6
nodes_left NodeName.enrich = 5
nodes_left NodeName.retrieve = 4
nodes_left NodeName.evaluate = 3
nodes_left NodeName.escalate = 2
nodes_left NodeName.dispose = 1

route_node-left : (r : Route) → nodes_left (route_node r) < 3
route_node-left to_escalate = omega arith
route_node-left to_dispose = omega arith

module _ (ctx : NodeContext) where
  after_evaluation-left :
      (o : Option EvaluationResult) (next : NodeName)
      → after_evaluation ctx o ≡ ok (some next)
      → nodes_left next < 3
  after_evaluation-left none next q = absurd (ground arith)
  after_evaluation-left (some e) next q =
      let b = route_node-left (route_after_evaluate ctx.settings.clear_confidence_threshold e) in
      ground arith

  successor-left :
      (name next : NodeName) (s : ScreeningState)
      → successor ctx name s ≡ ok (some next)
      → nodes_left next < nodes_left name
  unfolding successor
  successor-left NodeName.intake next s q = ground arith
  successor-left NodeName.enrich next s q = ground arith
  successor-left NodeName.retrieve next s q = ground arith
  successor-left NodeName.evaluate next s q = after_evaluation-left s.evaluation next q
  successor-left NodeName.escalate next s q = ground arith
  successor-left NodeName.dispose next s q = absurd (ground arith)

  module _ (go_on : NodeName → ScreeningState → World → Stop × World) (steps : ℕ)
      (rest : (next : NodeName) (s : ScreeningState) (w : World)
        → nodes_left next ≤ steps
        → ¬ ((go_on next s w).0 ≡ exhausted)) where
    along_edge-stops :
        (name : NodeName) (s : ScreeningState) (edge : Result (Option NodeName)) (w : World)
        → nodes_left name ≤ suc steps
        → successor ctx name s ≡ edge
        → ¬ ((along_edge ctx go_on name s edge w).0 ≡ exhausted)
    along_edge-stops name s (err e) w b p q = absurd (ground arith)
    along_edge-stops name s (ok none) w b p q = absurd (ground arith)
    along_edge-stops name s (ok (some next)) w b p q =
        let c = successor-left name next s p in rest next s w (omega arith) q

    after_step-stops :
        (name : NodeName) (s : ScreeningState) (r : Result ScreeningState) (w : World)
        → nodes_left name ≤ suc steps
        → ¬ ((after_step ctx go_on name s r w).0 ≡ exhausted)
    after_step-stops name s (err e) w b q = absurd (ground arith)
    after_step-stops name s (ok u) w b q = along_edge-stops name u (successor ctx name u) w b refl q

  run-stops :
      (steps : ℕ) (resume : Option AnalystDecision) (name : NodeName) (s : ScreeningState)
      (w : World)
      → nodes_left name ≤ steps
      → ¬ ((run ctx steps resume name s w).0 ≡ exhausted)
  unfolding run
  run-stops zero resume NodeName.intake s w b q = absurd (omega arith)
  run-stops zero resume NodeName.enrich s w b q = absurd (omega arith)
  run-stops zero resume NodeName.retrieve s w b q = absurd (omega arith)
  run-stops zero resume NodeName.evaluate s w b q = absurd (omega arith)
  run-stops zero resume NodeName.escalate s w b q = absurd (omega arith)
  run-stops zero resume NodeName.dispose s w b q = absurd (omega arith)
  run-stops (suc steps) resume name s w b q =
      let (r, w') = super_step ctx resume name s w in
      after_step-stops (run ctx steps resume) steps (λ next s w. run-stops steps resume next s w)
        name s r w' b q

  -- Every run of a new alert and every resumed run comes to an end, at END or at a node that raised,
  -- within the super-steps that `screen` and `resume_parked` allow.
  pub screen-stops :
      (s : ScreeningState) (w : World) (decision : AnalystDecision)
      → (¬ ((screen ctx s w).0 ≡ exhausted)) × (¬ ((resume_parked ctx decision s w).0 ≡ exhausted))
  unfolding screen resume_parked
  screen-stops s w decision = (
    run-stops 6 none NodeName.intake s w (omega arith),
    run-stops 2 (some decision) NodeName.escalate s w (omega arith),
  )
