-- ===== src/Graph/Policy/Gate.antt =====
-- The human gate: how a run that was not resumed comes to `dispose`.
use compliance_agent_platfor.Base.{◌≡◌, refl, subst, sym, ◌∙◌, Option, none, some, arith}
use compliance_agent_platfor.Error.{Result, ok}
use compliance_agent_platfor.Exec.{World}
use compliance_agent_platfor.Exec.Yields.{Yields, Yields-lift, Yields-bind}
use compliance_agent_platfor.Schemas.State.{ScreeningState, merge}
use compliance_agent_platfor.Schemas.Evaluation.{EvaluationResult}
use compliance_agent_platfor.Graph.Context.{NodeContext}
use compliance_agent_platfor.Graph.Dispose.{escalate}
use compliance_agent_platfor.Graph.Routing.{Route, to_escalate, to_dispose, route_after_evaluate}
use compliance_agent_platfor.Graph.Run.{
  finished, node, super_step, successor, screen, after_evaluation, route_node,
}
use compliance_agent_platfor.Graph.Policy.Disposed.{Drafted, dispose-Drafted}
use compliance_agent_platfor.Graph.Policy.Writes.{
  Undecided, intake-Undecided, enrich-Undecided, retrieve-Undecided, evaluate-Undecided,
}
use compliance_agent_platfor.Graph.Policy.Wrapped.{wrap_node-Yields, super_step-Yields}
use compliance_agent_platfor.Graph.Policy.Finish.{Passes, run-Done}
use compliance_agent_platfor.Graph.Policy.Recorded.{after_evaluation≢none}
use compliance_agent_platfor.Middleware.{NodeName}

-- The evaluation that sent a run to `dispose`.
pub record Routed (ctx : NodeContext) (t : ScreeningState) : Type 0 where
  pub evaluation : EvaluationResult
  pub evaluation_saved : t.evaluation ≡ some evaluation
  pub routed : route_after_evaluate ctx.settings.clear_confidence_threshold evaluation ≡ to_dispose
  pub undecided : t.analyst_decision ≡ none

-- What a node may rely on, in a run that was not resumed.
abbrev ScreenReady : NodeContext → NodeName → ScreeningState → Type 0
ScreenReady ctx NodeName.dispose s = Routed ctx s
ScreenReady ctx _ s = s.analyst_decision ≡ none

still_none :
    (s u : ScreeningState)
    → s.analyst_decision ≡ none
    → Undecided u
    → (merge s u).analyst_decision ≡ none
still_none s u e k = cc (e, k.no_decision)

merge-Routed :
    (ctx : NodeContext) (s u : ScreeningState)
    → Routed ctx s
    → Drafted ctx s u
    → Routed ctx (merge s u)
merge-Routed ctx s u r d =
    subst (λ v. Routed ctx (merge s v)) (sym d.written)
      (record {
        evaluation = r.evaluation;
        evaluation_saved = r.evaluation_saved;
        routed = r.routed;
        undecided = r.undecided;
      })

pub next_injective : (a b : NodeName) → ok (some a) ≡ ok (some b) → a ≡ b
next_injective a b e = cc

route-ScreenReady :
    (ctx : NodeContext) (t : ScreeningState) (x : EvaluationResult)
    → t.evaluation ≡ some x
    → t.analyst_decision ≡ none
    → (r : Route) → route_after_evaluate ctx.settings.clear_confidence_threshold x ≡ r
    → ScreenReady ctx (route_node r) t
route-ScreenReady ctx t x e n to_escalate p = n
route-ScreenReady ctx t x e n to_dispose p = record {
  evaluation = x;
  evaluation_saved = e;
  routed = p;
  undecided = n;
}

-- Where the edge behind `evaluate` leads.
after_evaluation-ScreenReady :
    (ctx : NodeContext) (t : ScreeningState) (o : Option EvaluationResult) (next : NodeName)
    → t.evaluation ≡ o
    → t.analyst_decision ≡ none
    → after_evaluation ctx o ≡ ok (some next)
    → ScreenReady ctx next t
after_evaluation-ScreenReady ctx t none next e n q = absurd (ground arith)
after_evaluation-ScreenReady ctx t (some x) next e n q =
    subst (λ m. ScreenReady ctx m t) (next_injective _ next q)
      (route-ScreenReady ctx t x e n
        (route_after_evaluate ctx.settings.clear_confidence_threshold x) refl)

pub never : {r : Result (Option NodeName)} (next : NodeName) → r ≡ ok (some next) → r ≡ ok none → ⊥
never {r} next a b = ground arith

module _ (ctx : NodeContext) where
  -- `escalate` does not return before there is a decision.
  pub escalate-parks :
      {P : ScreeningState → Type 0} (s : ScreeningState) → Yields P (escalate ctx none s)
  unfolding escalate
  escalate-parks s = Yields-lift _ _ λ _ _. Yields-lift _ _ λ _ _. Yields-lift _ _ λ _ _.
      Yields-lift _ _ λ _ _.
        Yields-bind _ _ λ _. Yields-lift _ _ λ _ _. Yields-lift _ _ λ d q. absurd (ground arith)

  super_step-no_decision :
      (name : NodeName) (s : ScreeningState)
      → s.analyst_decision ≡ none
      → Yields Undecided (node ctx none name s)
      → Yields (λ t. t.analyst_decision ≡ none) (super_step ctx none name s)
  super_step-no_decision name s e y =
      super_step-Yields ctx none name s (wrap_node-Yields ctx name _ s y)
        (λ u k. still_none s u e k)

  abbrev ScreenPasses : NodeName → ScreeningState → Type 0
  ScreenPasses = Passes ctx none (ScreenReady ctx) (Routed ctx)

  straight :
      (name next : NodeName) (s : ScreeningState)
      → ((t : ScreeningState) → successor ctx name t ≡ ok (some next))
      → ((t : ScreeningState) → t.analyst_decision ≡ none → ScreenReady ctx next t)
      → s.analyst_decision ≡ none
      → Yields Undecided (node ctx none name s)
      → Yields (ScreenPasses name) (super_step ctx none name s)
  straight name next s edge ready e y = record {
    at = λ w t q. record {
      goes_on = λ next' p.
          subst (λ n. ScreenReady ctx n t) (next_injective next next' (sym (edge t) ∙ p))
            (ready t ((super_step-no_decision name s e y).at w t q));
      ends = λ p. absurd (never next (edge t) p);
    };
  }

  screen-Passes :
      (name : NodeName) (s : ScreeningState)
      → ScreenReady ctx name s
      → Yields (ScreenPasses name) (super_step ctx none name s)
  unfolding successor node
  screen-Passes NodeName.intake s e =
      straight NodeName.intake NodeName.enrich s (λ _. refl) (λ _ n. n) e (intake-Undecided ctx s)
  screen-Passes NodeName.enrich s e =
      straight NodeName.enrich NodeName.retrieve s (λ _. refl) (λ _ n. n) e (enrich-Undecided ctx s)
  screen-Passes NodeName.retrieve s e =
      straight NodeName.retrieve NodeName.evaluate s (λ _. refl) (λ _ n. n) e
        (retrieve-Undecided ctx s)
  screen-Passes NodeName.evaluate s e = record {
    at = λ w t q. record {
      goes_on = λ next p.
          after_evaluation-ScreenReady ctx t t.evaluation next refl
            ((super_step-no_decision NodeName.evaluate s e (evaluate-Undecided ctx s)).at w t q) p;
      ends = λ p. absurd (after_evaluation≢none ctx t.evaluation p);
    };
  }
  screen-Passes NodeName.escalate s e =
      super_step-Yields ctx {Q = λ _. ⊥} none NodeName.escalate s
        (wrap_node-Yields ctx NodeName.escalate _ s (escalate-parks s)) (λ u k. absurd k)
  screen-Passes NodeName.dispose s r =
      super_step-Yields ctx none NodeName.dispose s
        (wrap_node-Yields ctx NodeName.dispose _ s (dispose-Drafted ctx s))
        (λ u d. record {
          goes_on = λ next p. absurd (never next p refl);
          ends = λ _. merge-Routed ctx s u r d;
        })

  pub screen-Routed :
      (s t : ScreeningState) (w : World)
      → s.analyst_decision ≡ none
      → (screen ctx s w).0 ≡ finished t
      → Routed ctx t
  unfolding screen
  screen-Routed s t w e =
      run-Done ctx none (ScreenReady ctx) (Routed ctx) screen-Passes 6 NodeName.intake s t w e
