-- ===== src/Graph/Policy/Bookings.antt =====
-- Who has decided what a finished run has booked.
use compliance_agent_platfor.Base.{◌≡◌, ◌↔◌, sym, ◌∙◌, ap, subst, true, none, some, arith}
use compliance_agent_platfor.Base.Float.{Float, le_float}
use compliance_agent_platfor.Exec.{World}
use compliance_agent_platfor.Schemas.Disposition.{Disposition, DecidedBy}
use compliance_agent_platfor.Schemas.State.{ScreeningState}
use compliance_agent_platfor.Schemas.Evaluation.{EvaluationResult, AnalystDecision}
use compliance_agent_platfor.Graph.Context.{NodeContext}
use compliance_agent_platfor.Graph.Dispose.{draft, resolution_type}
use compliance_agent_platfor.Graph.Routing.{to_dispose, agent_terminal, route_after_evaluate}
use compliance_agent_platfor.Graph.Run.{finished, screen, resume_parked}
use compliance_agent_platfor.Graph.Policy.Recorded.{run-Recorded}
use compliance_agent_platfor.Graph.Policy.Gate.{screen-Routed}
use compliance_agent_platfor.Graph.Policy.Resume.{resume-decision}
use compliance_agent_platfor.Middleware.{NodeName}

-- A disposition that the agent may decide alone.
pub record AgentBooking (ctx : NodeContext) (t : ScreeningState) : Type 0 where
  pub disposition : Disposition
  pub confidence : Float
  pub booked : t.disposition ≡ some disposition
  pub by_agent : disposition.decided_by ≡ DecidedBy.agent
  pub terminal : agent_terminal disposition.disposition ≡ true
  pub scored : disposition.confidence ≡ some confidence
  pub confident : le_float ctx.settings.clear_confidence_threshold confidence ≡ true

-- A disposition that says what the analyst decided.
pub record AnalystBooking (decision : AnalystDecision) (t : ScreeningState) : Type 0 where
  pub disposition : Disposition
  pub booked : t.disposition ≡ some disposition
  pub by_analyst : disposition.decided_by ≡ DecidedBy.analyst
  pub named : disposition.analyst_id ≡ some decision.analyst_id
  pub resolved : disposition.disposition ≡ resolution_type decision.resolution
  pub reasoned : disposition.rationale ≡ decision.rationale

-- `route_after_evaluate` is to_dispose exactly if the recommended type is one that the agent may book
-- and the confidence is at least the threshold.
pub route_after_evaluate_iff :
    (threshold : Float) (e : EvaluationResult)
    → (route_after_evaluate threshold e ≡ to_dispose)
      ↔ ((agent_terminal e.recommended ≡ true) × (le_float threshold e.confidence ≡ true))
unfolding route_after_evaluate
route_after_evaluate_iff threshold e = ground arith

some_injective : {A : Type 0} (a b : A) → some a ≡ some b → a ≡ b
some_injective a b e = cc

module _ (ctx : NodeContext) where
  -- A run of a new alert, on channels without an analyst's decision, that finishes has booked a
  -- disposition decided by the agent: it is clear or insufficient_data, never true_match nor
  -- escalate_to_analyst, and its confidence is at least the threshold.
  pub screen-AgentBooking :
      (s t : ScreeningState) (w : World)
      → s.analyst_decision ≡ none
      → (screen ctx s w).0 ≡ finished t
      → AgentBooking ctx t
  unfolding screen draft
  screen-AgentBooking s t w e q =
      let b = run-Recorded ctx 6 none NodeName.intake s t w q in
      let r = screen-Routed ctx s t w e q in
      let x =
        some_injective r.evaluation b.evaluation (sym r.evaluation_saved ∙ b.evaluation_saved) in
      let d =
        b.drafted
        ∙ ap (λ o. draft ctx b.alert b.evaluation o t.evaluation_model b.evidence b.created_at)
            r.undecided in
      let route =
        subst (λ v. route_after_evaluate ctx.settings.clear_confidence_threshold v ≡ to_dispose) x
          r.routed in
      let (terminal, confident) =
        (route_after_evaluate_iff ctx.settings.clear_confidence_threshold b.evaluation).0 route in
      record {
        disposition = b.disposition;
        confidence = b.evaluation.confidence;
        booked = b.booked;
        by_agent = ap (λ v. v.decided_by) d;
        terminal = subst (λ v. agent_terminal v ≡ true) (sym (ap (λ v. v.disposition) d)) terminal;
        scored = ap (λ v. v.confidence) d;
        confident = confident;
      }

  -- A parked run that is resumed and finishes has booked a disposition decided by the analyst: it
  -- has the analyst's id, resolution and rationale, whatever the agent had recommended.
  pub resume-AnalystBooking :
      (decision : AnalystDecision) (s t : ScreeningState) (w : World)
      → (resume_parked ctx decision s w).0 ≡ finished t
      → AnalystBooking decision t
  unfolding resume_parked draft
  resume-AnalystBooking decision s t w q =
      let b = run-Recorded ctx 2 (some decision) NodeName.escalate s t w q in
      let d =
        b.drafted
        ∙ ap (λ o. draft ctx b.alert b.evaluation o t.evaluation_model b.evidence b.created_at)
            (resume-decision ctx decision s t w q) in
      record {
        disposition = b.disposition;
        booked = b.booked;
        by_analyst = ap (λ v. v.decided_by) d;
        named = ap (λ v. v.analyst_id) d;
        resolved = ap (λ v. v.disposition) d;
        reasoned = ap (λ v. v.rationale) d;
      }
