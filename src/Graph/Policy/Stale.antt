-- ===== src/Graph/Policy/Stale.antt =====
-- A new run on channels that still hold an analyst's decision.
use compliance_agent_platfor.Base.{◌≡◌, subst, sym, ◌∙◌, ap, none, some}
use compliance_agent_platfor.Exec.{World}
use compliance_agent_platfor.Exec.Yields.{Yields}
use compliance_agent_platfor.Schemas.State.{ScreeningState, merge}
use compliance_agent_platfor.Schemas.Evaluation.{AnalystDecision}
use compliance_agent_platfor.Graph.Context.{NodeContext}
use compliance_agent_platfor.Graph.Dispose.{draft}
use compliance_agent_platfor.Graph.Run.{finished, node, super_step, screen}
use compliance_agent_platfor.Graph.Policy.Disposed.{Drafted, dispose-Drafted}
use compliance_agent_platfor.Graph.Policy.Writes.{
  Undecided, intake-Undecided, enrich-Undecided, retrieve-Undecided, evaluate-Undecided,
}
use compliance_agent_platfor.Graph.Policy.Wrapped.{wrap_node-Yields, super_step-Yields}
use compliance_agent_platfor.Graph.Policy.Finish.{Passes, run-Done}
use compliance_agent_platfor.Graph.Policy.Recorded.{run-Recorded}
use compliance_agent_platfor.Graph.Policy.Gate.{escalate-parks}
use compliance_agent_platfor.Graph.Policy.Bookings.{AnalystBooking}
use compliance_agent_platfor.Middleware.{NodeName}

abbrev Holds : AnalystDecision → ScreeningState → Type 0
Holds d t = t.analyst_decision ≡ some d

merge-Holds :
    (s u : ScreeningState) (d : AnalystDecision) → Holds d s → Undecided u → Holds d (merge s u)
merge-Holds s u d e k = cc (e, k.no_decision)

held_by_dispose :
    (ctx : NodeContext) (s u : ScreeningState) (d : AnalystDecision)
    → Holds d s
    → Drafted ctx s u
    → Holds d (merge s u)
held_by_dispose ctx s u d e k = subst (λ v. Holds d (merge s v)) (sym k.written) e

module _ (ctx : NodeContext) (d : AnalystDecision) where
  abbrev HoldsPasses : NodeName → ScreeningState → Type 0
  HoldsPasses = Passes ctx none (λ _ t. Holds d t) (Holds d)

  held : (name : NodeName) (t : ScreeningState) → Holds d t → HoldsPasses name t
  held name t e = record { goes_on = λ _ _. e; ends = λ _. e }

  super_step-Holds :
      (name : NodeName) (s : ScreeningState)
      → Holds d s
      → Yields Undecided (node ctx none name s)
      → Yields (HoldsPasses name) (super_step ctx none name s)
  super_step-Holds name s e y =
      super_step-Yields ctx none name s (wrap_node-Yields ctx name _ s y)
        (λ u k. held name (merge s u) (merge-Holds s u d e k))

  Holds-Passes :
      (name : NodeName) (s : ScreeningState)
      → Holds d s
      → Yields (HoldsPasses name) (super_step ctx none name s)
  unfolding node
  Holds-Passes NodeName.intake s e = super_step-Holds NodeName.intake s e (intake-Undecided ctx s)
  Holds-Passes NodeName.enrich s e = super_step-Holds NodeName.enrich s e (enrich-Undecided ctx s)
  Holds-Passes NodeName.retrieve s e =
      super_step-Holds NodeName.retrieve s e (retrieve-Undecided ctx s)
  Holds-Passes NodeName.evaluate s e =
      super_step-Holds NodeName.evaluate s e (evaluate-Undecided ctx s)
  Holds-Passes NodeName.escalate s e =
      super_step-Yields ctx {Q = λ _. ⊥} none NodeName.escalate s
        (wrap_node-Yields ctx NodeName.escalate _ s (escalate-parks ctx s)) (λ u k. absurd k)
  Holds-Passes NodeName.dispose s e =
      super_step-Yields ctx none NodeName.dispose s
        (wrap_node-Yields ctx NodeName.dispose _ s (dispose-Drafted ctx s))
        (λ u k. held NodeName.dispose (merge s u) (held_by_dispose ctx s u d e k))

  screen-decision :
      (s t : ScreeningState) (w : World) → Holds d s → (screen ctx s w).0 ≡ finished t → Holds d t
  unfolding screen
  screen-decision s t w e =
      run-Done ctx none (λ _ t. Holds d t) (Holds d) Holds-Passes 6 NodeName.intake s t w e

-- A run of a new alert on a thread whose channels still hold the decision of an earlier run: if it
-- finishes, no analyst having been asked, its disposition is attributed to the earlier analyst and
-- has the earlier resolution and rationale, whatever the new evaluation recommends.
pub screen-stale_decision :
    (ctx : NodeContext) (decision : AnalystDecision) (s t : ScreeningState) (w : World)
    → s.analyst_decision ≡ some decision
    → (screen ctx s w).0 ≡ finished t
    → AnalystBooking decision t
unfolding screen draft
screen-stale_decision ctx decision s t w e q =
    let b = run-Recorded ctx 6 none NodeName.intake s t w q in
    let d =
      b.drafted
      ∙ ap (λ o. draft ctx b.alert b.evaluation o t.evaluation_model b.evidence b.created_at)
          (screen-decision ctx decision s t w e q) in
    record {
      disposition = b.disposition;
      booked = b.booked;
      by_analyst = ap (λ v. v.decided_by) d;
      named = ap (λ v. v.analyst_id) d;
      resolved = ap (λ v. v.disposition) d;
      reasoned = ap (λ v. v.rationale) d;
    }
