-- ===== src/Graph/Evaluating.antt =====
-- The node `evaluate`: enrichment that is too thin, an answer that parses, and one that does
-- not parse.
use compliance_agent_platfor.Base.{
  [], ◌∷◌, ◌++◌, ◌≡◌, refl, sym, ap, ◌∙◌, true, false, none, some, if◌then◌else◌,
}
use compliance_agent_platfor.Base.Float.{le_float, one_float}
use compliance_agent_platfor.Error.{Result, ok, err, attribute_error}
use compliance_agent_platfor.Exec.{World, evaluate_call, read_clock, audit_row, ◌>>=◌}
use compliance_agent_platfor.Audit.Log.{AuditRow, new_row, make_row, write_audit}
use compliance_agent_platfor.Guardrails.Service.{
  GuardrailResult, check_pii, check_input, check_output,
}
use compliance_agent_platfor.Outside.{RawResult}
use compliance_agent_platfor.Llm.{ResolvedBackend}
use compliance_agent_platfor.Schemas.Alert.{ScreeningAlert, validate_alert}
use compliance_agent_platfor.Schemas.Disposition.{DispositionType}
use compliance_agent_platfor.Schemas.Enrichment.{EnrichmentBundle}
use compliance_agent_platfor.Schemas.Evaluation.{EvaluationResult, dump_evaluation}
use compliance_agent_platfor.Schemas.Retrieval.{RetrievalBundle, validate_retrieval}
use compliance_agent_platfor.Schemas.State.{ScreeningState, empty_state}
use compliance_agent_platfor.Graph.Context.{NodeContext}
use compliance_agent_platfor.Graph.Prompt.{build_eval_prompt, untrusted_text}
use compliance_agent_platfor.Graph.Evaluate.{
  Served, thin_result, overlay, serve, answer_row, ask, evaluate, input_rail_model, call_model,
}
use compliance_agent_platfor.Graph.Routing.{to_dispose, route_after_evaluate}
use compliance_agent_platfor.Graph.Serving.{serve-primary}
use compliance_agent_platfor.Graph.Trail.Quiet.{IsQuiet, serve-IsQuiet, check_output-IsQuiet}
use compliance_agent_platfor.Graph.Policy.Bookings.{route_after_evaluate_iff}

-- What `evaluate` did without asking a model.
pub record Overlaid (ctx : NodeContext) (s : ScreeningState) (w : World) : Type 0 where
  pub update : ScreeningState
  pub evaluation : EvaluationResult
  pub returned : (evaluate ctx s w).0 ≡ ok update
  pub written : update.evaluation ≡ some evaluation
  pub recommended : evaluation.recommended ≡ DispositionType.insufficient_data
  pub no_call : (evaluate ctx s w).1.calls ≡ w.calls
  pub routed : route_after_evaluate ctx.settings.clear_confidence_threshold evaluation ≡ to_dispose

-- How `evaluate` ends on an answer that does not parse; `w1` is the world behind the input rail.
pub record Unparsed (ctx : NodeContext) (s : ScreeningState) (w w1 : World) : Type 0 where
  pub raised :
      (evaluate ctx s w).0 ≡ err (attribute_error "'NoneType' object has no attribute 'rationale'")
  pub one_call :
      (evaluate ctx s w).1.calls ≡ w1.calls ++ evaluate_call ctx.model ctx.model_backend ∷ []
  pub no_row : (evaluate ctx s w).1.audit ≡ w.audit

-- What `evaluate` did about an answer of the model `by`.
pub record Answered (ctx : NodeContext) (a : ScreeningAlert) (s : ScreeningState)
    (by : ResolvedBackend) (result : EvaluationResult) (w : World) : Type 0 where
  pub update : ScreeningState
  pub written : AuditRow
  pub returned : (evaluate ctx s w).0 ≡ ok update
  pub evaluated : update.evaluation ≡ some result
  pub named :
      update.evaluation_model ≡ some (record { backend = by.backend; model_id = by.model_id })
  pub one_row : (evaluate ctx s w).1.audit.rows ≡ w.audit.rows ++ written ∷ []
  pub row_about : written.entry.alert_id ≡ a.alert_id
  pub row_named : written.entry.model_id ≡ some by.model_id
  pub row_answer : written.entry.llm_response ≡ some (dump_evaluation result)

abbrev answer_update : ResolvedBackend → EvaluationResult → ScreeningState
answer_update by result = record empty_state {
  evaluation = some result;
  evaluation_model = some (record { backend = by.backend; model_id = by.model_id });
}

same_world_audit :
    {A : Type 0} (x : Result A) (p : Result A × World) (v w : World)
    → p ≡ (x, v)
    → IsQuiet w p.1
    → v.audit ≡ w.audit
same_world_audit x p v w q k = sym (ap (λ z. z.1.audit) q) ∙ k.same_audit

module _ (ctx : NodeContext) (a : ScreeningAlert) (e : EnrichmentBundle) (r : RetrievalBundle) where
  ask-unparsed :
      (served : Served) (w w1 : World)
      → serve ctx (build_eval_prompt ctx.outside a e r) (untrusted_text a e) w ≡ (ok served, w1)
      → served.raw.parsed ≡ none
      → ask ctx a e r w ≡ (
        err (attribute_error "'NoneType' object has no attribute 'rationale'"),
        (read_clock w1).1,
      )
  unfolding ask read_clock ◌>>=◌
  ask-unparsed served w w1 q p = rw (q, p) refl

  module _ (served : Served) (result : EvaluationResult) (passed : GuardrailResult)
      (w w1 w3 : World)
      (q : serve ctx (build_eval_prompt ctx.outside a e r) (untrusted_text a e) w
        ≡ (ok served, w1)) where
    ask-answered :
        served.raw.parsed ≡ some result
        → check_output ctx.outside served.by.model result.rationale (read_clock w1).1
          ≡ (ok passed, w3)
        → ask ctx a e r w ≡ (
          ok (answer_update served.by result),
          (audit_row ctx.outside
              (answer_row ctx a e
                (build_eval_prompt ctx.outside a e r)
                served
                result
                (ctx.outside.elapsed_ms served.started w1.ticks))
              w3).1,
        )
    unfolding ask read_clock ◌>>=◌ audit_row
    ask-answered p k = rw (q, p, k) refl

    -- The rails and the models leave the audit table.
    quiet_until :
        check_output ctx.outside served.by.model result.rationale (read_clock w1).1
          ≡ (ok passed, w3)
        → w3.audit ≡ w.audit
    unfolding read_clock
    quiet_until k =
        same_world_audit (ok passed) _ w3 _ k
          ((check_output-IsQuiet ctx served.by.model result.rationale).at _)
        ∙ same_world_audit (ok served) _ w1 w q
            ((serve-IsQuiet ctx (build_eval_prompt ctx.outside a e r) (untrusted_text a e)).at w)

  module _ (s : ScreeningState) (w : World) (alert_saved : s.alert ≡ some a)
      (enrichment_saved : s.enrichment ≡ some e) (retrieval_saved : s.retrieval ≡ some r)
      (alert_valid : validate_alert a ≡ ok a) (retrieval_valid : validate_retrieval r ≡ ok r) where
    evaluate-branch :
        evaluate ctx s w ≡ (if e.insufficient then overlay ctx a e else ask ctx a e r) w
    unfolding evaluate ◌>>=◌
    evaluate-branch =
        rw (alert_saved, enrichment_saved, retrieval_saved, alert_valid, retrieval_valid) refl

    module _ (thin : e.insufficient ≡ true) where
      evaluate-overlay : evaluate ctx s w ≡ overlay ctx a e w
      evaluate-overlay =
          evaluate-branch ∙ ap (λ b. (if b then overlay ctx a e else ask ctx a e r) w) thin

      -- The enrichment is insufficient: `evaluate` calls neither a rail nor a model, recommends
      -- insufficient_data, and, if the threshold is at most 1, the run goes on to `dispose` without
      -- an analyst.
      pub evaluate-thin :
          le_float ctx.settings.clear_confidence_threshold one_float ≡ true → Overlaid ctx s w
      unfolding overlay ◌>>=◌ audit_row write_audit
      evaluate-thin below = record {
        update = record empty_state { evaluation = some (thin_result ctx e) };
        evaluation = thin_result ctx e;
        returned = ap (λ p. p.0) evaluate-overlay;
        written = refl;
        recommended = refl;
        no_call = ap (λ p. p.1.calls) evaluate-overlay;
        routed =
            (route_after_evaluate_iff ctx.settings.clear_confidence_threshold (thin_result ctx e)).1
              (refl, below);
      }

    module _ (thick : e.insufficient ≡ false) where
      evaluate-ask : evaluate ctx s w ≡ ask ctx a e r w
      evaluate-ask =
          evaluate-branch ∙ ap (λ b. (if b then overlay ctx a e else ask ctx a e r) w) thick

      -- The enrichment suffices, the prompt is clean, the input rail passes, and the primary model's
      -- answer does not parse: `evaluate` raises AttributeError; behind the input rail the one call is
      -- that of the primary, whether a fallback is configured or not, and no audit row is written.
      pub evaluate-Unparsed :
          (passed : GuardrailResult) (raw : RawResult) (w1 w2 : World)
          → check_pii ctx.outside (build_eval_prompt ctx.outside a e r) "input" ≡ ok tt
          → check_input ctx.outside (input_rail_model ctx) (untrusted_text a e) w ≡ (ok passed, w1)
          → call_model ctx ctx.model ctx.model_backend
              (build_eval_prompt ctx.outside a e r)
              (read_clock w1).1
            ≡ (ok raw, w2)
          → raw.parsed ≡ none
          → Unparsed ctx s w w1
      unfolding read_clock call_model ◌>>=◌
      evaluate-Unparsed passed raw w1 w2 clean rail called p =
          let served =
            serve-primary ctx (build_eval_prompt ctx.outside a e r) (untrusted_text a e) w clean w1
              passed rail w2 raw called in
          let done = evaluate-ask ∙ ask-unparsed _ w w2 served p in
          record {
            raised = ap (λ x. x.0) done;
            one_call = ap (λ x. x.1.calls) done ∙ sym (ap (λ x. x.1.calls) called);
            no_row =
                ap (λ x. x.1.audit) done
                ∙ same_world_audit _ _ w2 w served (
                    (serve-IsQuiet ctx (build_eval_prompt ctx.outside a e r)
                        (untrusted_text a e)).at
                      w);
          }

      -- The enrichment suffices, the model that served returned an answer that parses, and its rationale
      -- passes the output rail on that model: `evaluate` returns the answer, and names the model that
      -- served both in the channels and in the one audit row that the node adds, which is about the
      -- alert and holds the answer.
      pub evaluate-Answered :
          (served : Served) (result : EvaluationResult) (passed : GuardrailResult) (w1 w3 : World)
          → serve ctx (build_eval_prompt ctx.outside a e r) (untrusted_text a e) w ≡ (ok served, w1)
          → served.raw.parsed ≡ some result
          → check_output ctx.outside served.by.model result.rationale (read_clock w1).1
            ≡ (ok passed, w3)
          → Answered ctx a s served.by result w
      unfolding read_clock audit_row write_audit new_row make_row
      evaluate-Answered served result passed w1 w3 q p k =
          let o = ctx.outside in
          let entry =
            answer_row ctx a e (build_eval_prompt o a e r) served result
              (o.elapsed_ms served.started w1.ticks) in
          let done = evaluate-ask ∙ ask-answered served result passed w w1 w3 q p k in
          record {
            update = answer_update served.by result;
            written = new_row o.hasher (o.now w3.ticks) entry w3.audit;
            returned = ap (λ x. x.0) done;
            evaluated = refl;
            named = refl;
            one_row =
                ap (λ x. x.1.audit.rows) done
                ∙ ap (λ v. v.rows ++ new_row o.hasher (o.now w3.ticks) entry w3.audit ∷ [])
                    (quiet_until served result passed w w1 w3 q k);
            row_about = refl;
            row_named = refl;
            row_answer = refl;
          }
