-- ===== src/Graph/Policy/Wrapped.antt =====
-- What the wrapper around the nodes lets through: the citation check behind `dispose`, and the step
-- that merges a node's update into the channels.
use compliance_agent_platfor.Base.{
  ◌≡◌, refl, sym, ◌∙◌, subst, Bool, true, false, not, ◌||◌, is_empty, Option, some, arith,
}
use compliance_agent_platfor.Error.{Exn, Result, ok, err, is_bubble_up}
use compliance_agent_platfor.Exec.{Exec, raise, ◌>>◌}
use compliance_agent_platfor.Exec.Yields.{
  ok_injective, Yields, Yields-pure, Yields-raise, Yields-if, Yields-lift, Yields-bind, Yields-then,
  Yields-catch,
}
use compliance_agent_platfor.Schemas.Disposition.{Disposition, is_asserting}
use compliance_agent_platfor.Schemas.State.{ScreeningState, merge}
use compliance_agent_platfor.Schemas.Evaluation.{AnalystDecision}
use compliance_agent_platfor.Graph.Context.{NodeContext}
use compliance_agent_platfor.Graph.Run.{node, merged, super_step}
use compliance_agent_platfor.Graph.Policy.Disposed.{channel-eq_ok, validate_disposition-eq_ok}
use compliance_agent_platfor.Middleware.{
  NodeName, wrap_node, check_dispose_citation, on_failure, audit_node_failure,
}

-- An asserted disposition has evidence.
pub record Cited (u : ScreeningState) : Type 0 where
  pub cited :
      (d : Disposition)
      → u.disposition ≡ some d
      → is_asserting d.disposition ≡ true
      → is_empty d.evidence ≡ false

some_injective : {A : Type 0} (a b : A) → some a ≡ some b → a ≡ b
some_injective a b e = cc

or_not : (a b : Bool) → (not a || not b) ≡ true → a ≡ true → b ≡ false
or_not a b e = ground arith

same :
    (o : Option Disposition) (raw d d' : Disposition)
    → o ≡ some raw
    → d ≡ raw
    → o ≡ some d'
    → d ≡ d'
same o raw d d' p q r = q ∙ some_injective raw d' (sym p ∙ r)

cited_by :
    (d d' : Disposition)
    → (not (is_asserting d.disposition) || not (is_empty d.evidence)) ≡ true
    → d ≡ d'
    → is_asserting d'.disposition ≡ true
    → is_empty d'.evidence ≡ false
cited_by d d' t e a =
    or_not (is_asserting d'.disposition) (is_empty d'.evidence)
      (subst (λ x. (not (is_asserting x.disposition) || not (is_empty x.evidence)) ≡ true) e t) a

module _ (ctx : NodeContext) where
  check_dispose_citation-Cited :
      (s result : ScreeningState) → Yields (λ _. Cited result) (check_dispose_citation ctx s result)
  unfolding check_dispose_citation
  check_dispose_citation-Cited s result = Yields-lift _ _ λ raw q. Yields-lift _ _ λ d v.
      Yields-if (not (is_asserting d.disposition) || not (is_empty d.evidence)) _ _
        (λ t. Yields-pure tt (record {
          cited = λ d' q' a.
              cited_by d d' t
                (same result.disposition raw d d'
                  (channel-eq_ok "disposition" result.disposition raw q)
                  (validate_disposition-eq_ok raw d v) q')
                a;
        }))
        (λ f. Yields-bind _ _ λ _. Yields-raise _)

  on_failure-Yields :
      {P : ScreeningState → Type 0} (s : ScreeningState) (name : NodeName) (e : Exn)
      → Yields P (on_failure ctx s name e)
  on_failure-Yields s name e =
      Yields-if (is_bubble_up e) (raise e) (do audit_node_failure ctx s name e; raise e)
        (λ _. Yields-raise e) (λ _. Yields-bind _ _ λ _. Yields-raise e)

  -- What a node yields, the wrapped node yields.
  pub wrap_node-Yields :
      {P : ScreeningState → Type 0} (name : NodeName) (fn : ScreeningState → Exec ScreeningState)
      (s : ScreeningState)
      → Yields P (fn s)
      → Yields P (wrap_node ctx name fn s)
  unfolding wrap_node
  wrap_node-Yields name fn s y =
      Yields-then _ _ (Yields-catch _ _ y (on_failure-Yields s name))
        λ u p. Yields-bind _ _ λ _. Yields-pure u p

  -- What the wrapped node `dispose` returns is cited.
  pub wrap_node-Cited :
      (fn : ScreeningState → Exec ScreeningState) (s : ScreeningState)
      → Yields Cited (wrap_node ctx NodeName.dispose fn s)
  unfolding wrap_node
  wrap_node-Cited fn s =
      Yields-bind _ _ λ u. Yields-then _ _ (check_dispose_citation-Cited s u) λ _ c. Yields-pure u c

  merge_step :
      (P Q : ScreeningState → Type 0) (s : ScreeningState) (r : Result ScreeningState)
      (s' : ScreeningState)
      → ((u : ScreeningState) → r ≡ ok u → Q u)
      → ((u : ScreeningState) → Q u → P (merge s u))
      → merged s r ≡ ok s'
      → P s'
  merge_step P Q s (ok u) s' y k q = subst P (ok_injective (merge s u) s' q) (k u (y u refl))
  merge_step P Q s (err e) s' y k q = absurd (ground arith)

  pub super_step-Yields :
      {P Q : ScreeningState → Type 0} (resume : Option AnalystDecision) (name : NodeName)
      (s : ScreeningState)
      → Yields Q (wrap_node ctx name (node ctx resume name) s)
      → ((u : ScreeningState) → Q u → P (merge s u))
      → Yields P (super_step ctx resume name s)
  unfolding super_step
  super_step-Yields {P} {Q} resume name s y k = record {
    at = λ w b q. merge_step P Q s _ b (y.at w) k q;
  }
