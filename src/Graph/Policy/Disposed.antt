-- ===== src/Graph/Policy/Disposed.antt =====
-- What the node `dispose`, with the citation check behind it, lets into the state.
use compliance_agent_platfor.Base.{ℕ, String, ◌≡◌, refl, List, Option, none, some, arith}
use compliance_agent_platfor.Error.{ok}
use compliance_agent_platfor.Exec.Yields.{Yields, Yields-pure, Yields-lift, Yields-bind}
use compliance_agent_platfor.Schemas.Alert.{ScreeningAlert, validate_alert}
use compliance_agent_platfor.Schemas.Disposition.{Disposition, EvidenceItem, validate_disposition}
use compliance_agent_platfor.Schemas.State.{ScreeningState, empty_state}
use compliance_agent_platfor.Schemas.Evaluation.{
  EvaluationResult, AnalystDecision, validate_evaluation, validate_decision,
}
use compliance_agent_platfor.Graph.Context.{NodeContext, channel}
use compliance_agent_platfor.Graph.Dispose.{dispose, draft, evidence_or_fallback, validate_optional}

pub channel-eq_ok :
    {A : Type 0} (key : String) (o : Option A) (a : A) → channel key o ≡ ok a → o ≡ some a
channel-eq_ok key none a e = absurd (ground arith)
channel-eq_ok key (some b) a e = ground arith

-- A validator that accepts gives its argument back.
validate_alert-eq_ok : (a b : ScreeningAlert) → validate_alert a ≡ ok b → b ≡ a
unfolding validate_alert
validate_alert-eq_ok a b e = ground arith

validate_evaluation-eq_ok : (a b : EvaluationResult) → validate_evaluation a ≡ ok b → b ≡ a
unfolding validate_evaluation
validate_evaluation-eq_ok a b e = ground arith

pub validate_decision-eq_ok : (a b : AnalystDecision) → validate_decision a ≡ ok b → b ≡ a
unfolding validate_decision
validate_decision-eq_ok a b e = ground arith

validate_optional-eq_ok : (a b : Option AnalystDecision) → validate_optional a ≡ ok b → b ≡ a
unfolding validate_decision
validate_optional-eq_ok none b e = ground arith
validate_optional-eq_ok (some d) b e = ground arith

pub validate_disposition-eq_ok : (a b : Disposition) → validate_disposition a ≡ ok b → b ≡ a
unfolding validate_disposition
validate_disposition-eq_ok a b e = ground arith

-- The disposition that `dispose` returns on the channels `s`: it is drafted from the saved
-- evaluation and the saved decision, and passes the validators.
pub record Drafted (ctx : NodeContext) (s u : ScreeningState) : Type 0 where
  pub alert : ScreeningAlert
  pub evaluation : EvaluationResult
  pub evidence : List EvidenceItem
  pub created_at : ℕ
  pub disposition : Disposition
  pub alert_saved : s.alert ≡ some alert
  pub evaluation_saved : s.evaluation ≡ some evaluation
  pub evidence_found :
      evidence_or_fallback ctx.outside evaluation.evidence s.enrichment ≡ ok evidence
  pub drafted :
      disposition
      ≡ draft ctx alert evaluation s.analyst_decision s.evaluation_model evidence created_at
  pub valid : validate_disposition disposition ≡ ok disposition
  pub written : u ≡ record empty_state { disposition = some disposition }

module _ (ctx : NodeContext) where
  pub dispose-Drafted : (s : ScreeningState) → Yields (Drafted ctx s) (dispose ctx s)
  unfolding dispose
  dispose-Drafted s = Yields-lift _ _ λ raw q_alert. Yields-lift _ _ λ alert v_alert.
      Yields-lift _ _ λ raw_evaluation q_evaluation. Yields-lift _ _ λ evaluation v_evaluation.
        Yields-lift _ _ λ analyst v_analyst. Yields-lift _ _ λ evidence q_evidence.
          Yields-bind _ _ λ tick. Yields-lift _ _ λ disposition v_disposition. Yields-bind _ _ λ _.
            Yields-pure _ (record {
              alert = alert;
              evaluation = evaluation;
              evidence = evidence;
              created_at = ctx.outside.now tick;
              disposition = disposition;
              alert_saved = cc (
                channel-eq_ok "alert" s.alert raw q_alert,
                validate_alert-eq_ok raw alert v_alert,
              );
              evaluation_saved = cc (
                channel-eq_ok "evaluation" s.evaluation raw_evaluation q_evaluation,
                validate_evaluation-eq_ok raw_evaluation evaluation v_evaluation,
              );
              evidence_found = q_evidence;
              drafted = cc (
                validate_disposition-eq_ok _ disposition v_disposition,
                validate_optional-eq_ok s.analyst_decision analyst v_analyst,
              );
              valid = cc (v_disposition, validate_disposition-eq_ok _ disposition v_disposition);
              written = refl;
            })
