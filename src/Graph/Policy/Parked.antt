-- ===== src/Graph/Policy/Parked.antt =====
-- A run that needs a human: it parks at `escalate`.
use compliance_agent_platfor.Base.{ℕ, suc, ◌≡◌, refl, ap, none, some}
use compliance_agent_platfor.Json.{obj, field, end}
use compliance_agent_platfor.Error.{ok, err, graph_interrupt}
use compliance_agent_platfor.Exec.{World, audit_row, raise, ◌>>=◌}
use compliance_agent_platfor.Audit.Log.{AuditRecord, write_audit}
use compliance_agent_platfor.Schemas.Alert.{ScreeningAlert, validate_alert}
use compliance_agent_platfor.Schemas.Enrichment.{EnrichmentBundle}
use compliance_agent_platfor.Schemas.Evaluation.{
  EvaluationResult, validate_evaluation, dump_evaluation,
}
use compliance_agent_platfor.Schemas.State.{ScreeningState}
use compliance_agent_platfor.Graph.Context.{NodeContext, row}
use compliance_agent_platfor.Graph.Dispose.{escalate, interrupt_payload}
use compliance_agent_platfor.Graph.Run.{stopped, node, merged, super_step, run, after_step}
use compliance_agent_platfor.Middleware.{NodeName}
use compliance_agent_platfor.Middleware.Failures.{wrap_node-failing}

-- The row that says that an analyst was asked.
abbrev pub interrupt_row : ScreeningAlert → EvaluationResult → AuditRecord
interrupt_row a e = record (row a.alert_id "escalate" "agent" "interrupt_raised") {
  detail = some (obj (field "agent_recommendation" (dump_evaluation e) end));
}

module _ (ctx : NodeContext) (a : ScreeningAlert) (e : EvaluationResult)
    (enrichment : EnrichmentBundle) (s : ScreeningState) (w : World)
    (alert_saved : s.alert ≡ some a) (evaluation_saved : s.evaluation ≡ some e)
    (enrichment_saved : s.enrichment ≡ some enrichment) (alert_valid : validate_alert a ≡ ok a)
    (evaluation_valid : validate_evaluation e ≡ ok e) where
  escalate-interrupts : escalate ctx none s w ≡ (
    err (graph_interrupt (interrupt_payload ctx a e enrichment)),
    (audit_row ctx.outside (interrupt_row a e) w).1,
  )
  unfolding escalate audit_row ◌>>=◌ write_audit
  escalate-interrupts =
      rw (alert_saved, evaluation_saved, enrichment_saved, alert_valid, evaluation_valid) refl

  -- With the alert, the evaluation and the enrichment saved and valid, and no decision given, a run at
  -- `escalate` stops there on the interrupt that asks the analyst; the channels are as they were, and
  -- what was written is the one interrupt_raised row, and no failure.
  pub escalate-parks_run :
      (steps : ℕ)
      → run ctx (suc steps) none NodeName.escalate s w ≡ (
        stopped s NodeName.escalate (graph_interrupt (interrupt_payload ctx a e enrichment)),
        (audit_row ctx.outside (interrupt_row a e) w).1,
      )
  unfolding run super_step node raise
  escalate-parks_run steps =
      ap (λ p. after_step ctx (run ctx steps none) NodeName.escalate s (merged s p.0) p.1)
        (wrap_node-failing ctx NodeName.escalate (escalate ctx none) s w _ _ _ _ escalate-interrupts
          refl)
