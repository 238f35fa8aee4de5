-- ===== src/Graph/Policy/Forks.antt =====
-- The fork of a run behind `evaluate`: the human gate.
use compliance_agent_platfor.Base.{
  ℕ, suc, ◌≡◌, ◌⊎◌, refl, ap, ◌∙◌, true, false, Option, some, inl, inr, Bool-cases,
}
use compliance_agent_platfor.Base.Float.{le_float}
use compliance_agent_platfor.Error.{ok}
use compliance_agent_platfor.Exec.{World}
use compliance_agent_platfor.Schemas.Disposition.{DispositionType}
use compliance_agent_platfor.Schemas.Evaluation.{EvaluationResult, AnalystDecision}
use compliance_agent_platfor.Schemas.State.{ScreeningState}
use compliance_agent_platfor.Graph.Context.{NodeContext}
use compliance_agent_platfor.Graph.Routing.{Route, to_dispose, to_escalate, route_after_evaluate}
use compliance_agent_platfor.Graph.Run.{
  Stop, run, super_step, successor, after_step, along_edge, after_evaluation, route_node,
}
use compliance_agent_platfor.Middleware.{NodeName}

-- Where a run goes on with the channels `t` and the evaluation `e`.
pub data Forks (ctx : NodeContext) (steps : ℕ) (resume : Option AnalystDecision)
    (t : ScreeningState) (v : World) (e : EvaluationResult) (r : Stop × World) : Type 0 where
  alone :
      (e.recommended ≡ DispositionType.clear) ⊎ (e.recommended ≡ DispositionType.insufficient_data)
      → le_float ctx.settings.clear_confidence_threshold e.confidence ≡ true
      → r ≡ run ctx steps resume NodeName.dispose t v
      → Forks ctx steps resume t v e r
  accused :
      (e.recommended ≡ DispositionType.true_match)
        ⊎ (e.recommended ≡ DispositionType.escalate_to_analyst)
      → r ≡ run ctx steps resume NodeName.escalate t v
      → Forks ctx steps resume t v e r
  unsure :
      le_float ctx.settings.clear_confidence_threshold e.confidence ≡ false
      → r ≡ run ctx steps resume NodeName.escalate t v
      → Forks ctx steps resume t v e r

module _ (ctx : NodeContext) (steps : ℕ) (resume : Option AnalystDecision) (s t : ScreeningState)
    (w v : World) (e : EvaluationResult)
    (stepped : super_step ctx resume NodeName.evaluate s w ≡ (ok t, v))
    (evaluated : t.evaluation ≡ some e) where
  goes_on :
      (r : Route)
      → route_after_evaluate ctx.settings.clear_confidence_threshold e ≡ r
      → run ctx (suc steps) resume NodeName.evaluate s w ≡ run ctx steps resume (route_node r) t v
  unfolding run successor
  goes_on r q =
      ap (λ p. after_step ctx (run ctx steps resume) NodeName.evaluate s p.0 p.1) stepped
      ∙ ap
          (λ o.
            along_edge ctx (run ctx steps resume) NodeName.evaluate t (after_evaluation ctx o) v)
          evaluated
      ∙ ap (λ x. run ctx steps resume (route_node x) t v) q

  by_confidence :
      (e.recommended ≡ DispositionType.clear) ⊎ (e.recommended ≡ DispositionType.insufficient_data)
      → Forks ctx steps resume t v e (run ctx (suc steps) resume NodeName.evaluate s w)
  unfolding route_after_evaluate
  by_confidence (inl d) =
      elim (Bool-cases (le_float ctx.settings.clear_confidence_threshold e.confidence)) [
        | inl c ↦ alone (inl d) c (goes_on to_dispose (rw (d, c) refl))
        | inr c ↦ unsure c (goes_on to_escalate (rw (d, c) refl))
      ]
  by_confidence (inr d) =
      elim (Bool-cases (le_float ctx.settings.clear_confidence_threshold e.confidence)) [
        | inl c ↦ alone (inr d) c (goes_on to_dispose (rw (d, c) refl))
        | inr c ↦ unsure c (goes_on to_escalate (rw (d, c) refl))
      ]

  by_type :
      (d : DispositionType)
      → e.recommended ≡ d
      → Forks ctx steps resume t v e (run ctx (suc steps) resume NodeName.evaluate s w)
  unfolding route_after_evaluate
  by_type DispositionType.clear q = by_confidence (inl q)
  by_type DispositionType.insufficient_data q = by_confidence (inr q)
  by_type DispositionType.true_match q = accused (inl q) (goes_on to_escalate (rw q refl))
  by_type DispositionType.escalate_to_analyst q = accused (inr q) (goes_on to_escalate (rw q refl))

  -- A run whose super-step at `evaluate` succeeds with an evaluation goes on at `dispose`, without a
  -- human, if the evaluation recommends clear or insufficient_data with at least the confidence of the
  -- threshold; if it recommends true_match or escalate_to_analyst, or is less confident, the run goes
  -- on at `escalate`.
  pub run-Forks : Forks ctx steps resume t v e (run ctx (suc steps) resume NodeName.evaluate s w)
  run-Forks = by_type e.recommended refl
