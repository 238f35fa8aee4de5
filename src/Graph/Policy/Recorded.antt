-- ===== src/Graph/Policy/Recorded.antt =====
-- What a finished run has booked.
use compliance_agent_platfor.Base.{
  ℕ, ◌≡◌, ◌⊎◌, inl, inr, refl, subst, sym, ap, Bool, true, false, is_empty, List, Option, none,
  some, arith,
}
use compliance_agent_platfor.Error.{ok}
use compliance_agent_platfor.Exec.{World}
use compliance_agent_platfor.Exec.Yields.{Yields, Yields-both}
use compliance_agent_platfor.Schemas.Alert.{ScreeningAlert}
use compliance_agent_platfor.Schemas.Disposition.{
  Disposition, EvidenceItem, validate_disposition, is_asserting,
}
use compliance_agent_platfor.Schemas.State.{ScreeningState, merge}
use compliance_agent_platfor.Schemas.Evaluation.{EvaluationResult, AnalystDecision}
use compliance_agent_platfor.Graph.Context.{NodeContext}
use compliance_agent_platfor.Graph.Dispose.{draft, evidence_or_fallback}
use compliance_agent_platfor.Graph.Run.{
  finished, node, super_step, successor, run, after_evaluation,
}
use compliance_agent_platfor.Graph.Policy.Disposed.{Drafted, dispose-Drafted}
use compliance_agent_platfor.Graph.Policy.Wrapped.{
  Cited, wrap_node-Yields, wrap_node-Cited, super_step-Yields,
}
use compliance_agent_platfor.Graph.Policy.Finish.{Passes, run-Done}
use compliance_agent_platfor.Middleware.{NodeName}

-- The channels of a finished run: the disposition is drafted from the saved alert, evaluation and
-- decision, has passed the validators, and has evidence if it asserts anything.
pub record Recorded (ctx : NodeContext) (t : ScreeningState) : Type 0 where
  pub alert : ScreeningAlert
  pub evaluation : EvaluationResult
  pub evidence : List EvidenceItem
  pub created_at : ℕ
  pub disposition : Disposition
  pub alert_saved : t.alert ≡ some alert
  pub evaluation_saved : t.evaluation ≡ some evaluation
  pub evidence_found :
      evidence_or_fallback ctx.outside evaluation.evidence t.enrichment ≡ ok evidence
  pub drafted :
      disposition
      ≡ draft ctx alert evaluation t.analyst_decision t.evaluation_model evidence created_at
  pub valid : validate_disposition disposition ≡ ok disposition
  pub booked : t.disposition ≡ some disposition
  pub cited :
      (is_asserting disposition.disposition ≡ false) ⊎ (is_empty disposition.evidence ≡ false)

pub after_evaluation≢none :
    (ctx : NodeContext) (o : Option EvaluationResult) → ¬ (after_evaluation ctx o ≡ ok none)
after_evaluation≢none ctx none e = absurd (ground arith)
after_evaluation≢none ctx (some x) e = absurd (ground arith)

asserted_or : (a b : Bool) → (a ≡ true → b ≡ false) → (a ≡ false) ⊎ (b ≡ false)
asserted_or true b h = inr (h refl)
asserted_or false b h = inl refl

module _ (ctx : NodeContext) where
  recorded : (s u : ScreeningState) → Drafted ctx s u → Cited u → Recorded ctx (merge s u)
  recorded s u d c =
      subst (λ v. Recorded ctx (merge s v)) (sym d.written)
        (record {
          alert = d.alert;
          evaluation = d.evaluation;
          evidence = d.evidence;
          created_at = d.created_at;
          disposition = d.disposition;
          alert_saved = d.alert_saved;
          evaluation_saved = d.evaluation_saved;
          evidence_found = d.evidence_found;
          drafted = d.drafted;
          valid = d.valid;
          booked = refl;
          cited =
              asserted_or (is_asserting d.disposition.disposition) (is_empty d.disposition.evidence)
                (c.cited d.disposition (ap (λ v. v.disposition) d.written));
        })

  -- The super-step of `dispose` books what it drafts.
  pub dispose-Recorded :
      (resume : Option AnalystDecision) (s : ScreeningState)
      → Yields (Recorded ctx) (super_step ctx resume NodeName.dispose s)
  unfolding node
  dispose-Recorded resume s =
      super_step-Yields ctx resume NodeName.dispose s
        (Yields-both _ (wrap_node-Yields ctx NodeName.dispose _ s (dispose-Drafted ctx s))
          (wrap_node-Cited ctx _ s))
        (λ u h. recorded s u h.0 h.1)

  module _ (resume : Option AnalystDecision) where
    abbrev PassesToAny : NodeName → ScreeningState → Type 0
    PassesToAny = Passes ctx resume (λ _ _. Unit {0}) (Recorded ctx)

    passes :
        (name : NodeName) (s : ScreeningState)
        → Unit {0}
        → Yields (PassesToAny name) (super_step ctx resume name s)
    unfolding successor
    passes NodeName.dispose s _ = record {
      at =
          λ w u q. record { goes_on = λ _ _. tt; ends = λ _. (dispose-Recorded resume s).at w u q };
    }
    passes NodeName.intake s _ = record {
      at = λ w u q. record { goes_on = λ _ _. tt; ends = λ e. absurd (ground arith) };
    }
    passes NodeName.enrich s _ = record {
      at = λ w u q. record { goes_on = λ _ _. tt; ends = λ e. absurd (ground arith) };
    }
    passes NodeName.retrieve s _ = record {
      at = λ w u q. record { goes_on = λ _ _. tt; ends = λ e. absurd (ground arith) };
    }
    passes NodeName.evaluate s _ = record {
      at = λ w u q. record {
        goes_on = λ _ _. tt;
        ends = λ e. absurd (after_evaluation≢none ctx u.evaluation e);
      };
    }
    passes NodeName.escalate s _ = record {
      at = λ w u q. record { goes_on = λ _ _. tt; ends = λ e. absurd (ground arith) };
    }

  -- A run that finishes, from any node and on any channels, has booked a disposition: it is drafted
  -- from the channels as they then are, it passes the validators of `Disposition`, and if it is clear
  -- or true_match its list of evidence is not empty.
  pub run-Recorded :
      (steps : ℕ) (resume : Option AnalystDecision) (name : NodeName) (s t : ScreeningState)
      (w : World)
      → (run ctx steps resume name s w).0 ≡ finished t
      → Recorded ctx t
  run-Recorded steps resume name s t w =
      run-Done ctx resume (λ _ _. Unit {0}) (Recorded ctx) (passes resume) steps name s t w tt
