-- ===== src/Graph/Policy/Resume.antt =====
-- A resumed run: the analyst's decision comes to `dispose`.
use compliance_agent_platfor.Base.{◌≡◌, refl, subst, sym, ◌∙◌, ap, some}
use compliance_agent_platfor.Exec.{World}
use compliance_agent_platfor.Exec.Yields.{
  ok_injective, Yields, Yields-lift, Yields-bind, Yields-pure,
}
use compliance_agent_platfor.Schemas.State.{ScreeningState, merge}
use compliance_agent_platfor.Schemas.Evaluation.{AnalystDecision}
use compliance_agent_platfor.Graph.Context.{NodeContext}
use compliance_agent_platfor.Graph.Dispose.{escalate}
use compliance_agent_platfor.Graph.Run.{finished, node, super_step, successor, resume_parked}
use compliance_agent_platfor.Graph.Policy.Disposed.{
  Drafted, dispose-Drafted, validate_decision-eq_ok,
}
use compliance_agent_platfor.Graph.Policy.Wrapped.{wrap_node-Yields, super_step-Yields}
use compliance_agent_platfor.Graph.Policy.Finish.{Passes, run-Done}
use compliance_agent_platfor.Graph.Policy.Gate.{next_injective, never}
use compliance_agent_platfor.Middleware.{NodeName}

-- What a node may rely on in a resumed run, which starts at `escalate`.
abbrev ResumeReady : AnalystDecision → NodeName → ScreeningState → Type 0
ResumeReady d NodeName.dispose s = s.analyst_decision ≡ some d
ResumeReady d NodeName.escalate s = Unit {0}
ResumeReady d _ s = ⊥

decided_by_resume :
    (s u : ScreeningState) (d : AnalystDecision)
    → u.analyst_decision ≡ some d
    → (merge s u).analyst_decision ≡ some d
decided_by_resume s u d e = cc e

decision_stays :
    (ctx : NodeContext) (s u : ScreeningState) (d : AnalystDecision)
    → s.analyst_decision ≡ some d
    → Drafted ctx s u
    → (merge s u).analyst_decision ≡ some d
decision_stays ctx s u d e k = subst (λ v. (merge s v).analyst_decision ≡ some d) (sym k.written) e

module _ (ctx : NodeContext) (decision : AnalystDecision) where
  escalate-decision :
      (s : ScreeningState)
      → Yields (λ u. u.analyst_decision ≡ some decision) (escalate ctx (some decision) s)
  unfolding escalate
  escalate-decision s = Yields-lift _ _ λ _ _. Yields-lift _ _ λ _ _. Yields-lift _ _ λ _ _.
      Yields-lift _ _ λ _ _. Yields-bind _ _ λ _. Yields-lift _ _ λ _ _. Yields-lift _ _ λ raw q.
        Yields-lift _ _ λ d v. Yields-bind _ _ λ _.
          Yields-pure _
            (ap some (validate_decision-eq_ok raw d v ∙ sym (ok_injective decision raw q)))

  abbrev ResumePasses : NodeName → ScreeningState → Type 0
  ResumePasses =
      Passes ctx (some decision) (ResumeReady decision) (λ t. t.analyst_decision ≡ some decision)

  resume-Passes :
      (name : NodeName) (s : ScreeningState)
      → ResumeReady decision name s
      → Yields (ResumePasses name) (super_step ctx (some decision) name s)
  unfolding successor node
  resume-Passes NodeName.escalate s _ =
      super_step-Yields ctx (some decision) NodeName.escalate s
        (wrap_node-Yields ctx NodeName.escalate _ s (escalate-decision s))
        (λ u k. record {
          goes_on = λ next p.
              subst (λ n. ResumeReady decision n (merge s u))
                (next_injective NodeName.dispose next p) (decided_by_resume s u decision k);
          ends = λ p. absurd (never NodeName.dispose refl p);
        })
  resume-Passes NodeName.dispose s e =
      super_step-Yields ctx (some decision) NodeName.dispose s
        (wrap_node-Yields ctx NodeName.dispose _ s (dispose-Drafted ctx s))
        (λ u k. record {
          goes_on = λ next p. absurd (never next p refl);
          ends = λ _. decision_stays ctx s u decision e k;
        })
  resume-Passes NodeName.intake s ready = absurd ready
  resume-Passes NodeName.enrich s ready = absurd ready
  resume-Passes NodeName.retrieve s ready = absurd ready
  resume-Passes NodeName.evaluate s ready = absurd ready

  -- A resumed run that finishes has the analyst's decision in its channels.
  pub resume-decision :
      (s t : ScreeningState) (w : World)
      → (resume_parked ctx decision s w).0 ≡ finished t
      → t.analyst_decision ≡ some decision
  unfolding resume_parked
  resume-decision s t w =
      run-Done ctx (some decision) (ResumeReady decision) (λ t. t.analyst_decision ≡ some decision)
        resume-Passes 2 NodeName.escalate s t w tt
