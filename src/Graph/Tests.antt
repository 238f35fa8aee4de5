-- ===== src/Graph/Tests.antt =====
-- Runs of the sample alert, and the instances of the theorems on runs.
use compliance_agent_platfor.Base.{
  ◌≡◌, refl, true, false, [], ◌++◌, List, Option, none, some, ◌↔◌, ◌⊎◌, is_empty, arith,
}
use compliance_agent_platfor.Base.Float.{double, units, in_unit_range, le_float, one_float}
use compliance_agent_platfor.Base.Text.{join, contains}
use compliance_agent_platfor.Audit.Log.{AuditRow, chain_genesis, verify_chain}
use compliance_agent_platfor.Audit.Append.{IsSound}
use compliance_agent_platfor.Exec.{World, ◌>>=◌, audit_row}
use compliance_agent_platfor.Guardrails.Cards.{find_pii}
use compliance_agent_platfor.Schemas.Alert.{validate_alert}
use compliance_agent_platfor.Schemas.Enrichment.{WatchlistCandidate}
use compliance_agent_platfor.Schemas.Retrieval.{validate_retrieval}
use compliance_agent_platfor.Schemas.Evaluation.{
  AnalystResolution, AnalystDecision, validate_evaluation, validate_decision,
}
use compliance_agent_platfor.Schemas.Disposition.{DispositionType, DecidedBy, validate_disposition}
use compliance_agent_platfor.Schemas.State.{ScreeningState}
use compliance_agent_platfor.Error.{ok, graph_interrupt}
use compliance_agent_platfor.Graph.Enrich.{intake, enrich, retrieve, is_insufficient}
use compliance_agent_platfor.Graph.Enriching.{is_insufficient_iff}
use compliance_agent_platfor.Graph.Evaluate.{evaluate, thin_result}
use compliance_agent_platfor.Graph.Evaluating.{Overlaid, evaluate-thin}
use compliance_agent_platfor.Graph.Dispose.{escalate, dispose, interrupt_payload}
use compliance_agent_platfor.Graph.Prompt.{build_eval_prompt, untrusted_text}
use compliance_agent_platfor.Graph.Run.{
  finished, stopped, exhausted, screen, resume_parked, run, super_step,
}
use compliance_agent_platfor.Graph.Trail.Runs.{run_trail}
use compliance_agent_platfor.Graph.Policy.Recorded.{Recorded, run-Recorded}
use compliance_agent_platfor.Graph.Policy.Bookings.{
  AgentBooking, AnalystBooking, screen-AgentBooking, resume-AnalystBooking,
}
use compliance_agent_platfor.Graph.Policy.Stale.{screen-stale_decision}
use compliance_agent_platfor.Graph.Policy.Forks.{Forks, run-Forks}
use compliance_agent_platfor.Graph.Policy.Fuel.{screen-stops}
use compliance_agent_platfor.Graph.Policy.Parked.{interrupt_row, escalate-parks_run}
use compliance_agent_platfor.Middleware.{NodeName}
use compliance_agent_platfor.Samples.{
  ctx, settings, alert, enrichment, thin, guidance, confirmed, fresh, waiting, world, decision,
  final,
}

-- The channels after the run that clears the alert.
abbrev disposed : ScreeningState
disposed = final (screen ctx fresh world).0

disposed-finished : (screen ctx fresh world).0 ≡ finished disposed
unfolding screen double units in_unit_range ◌>>=◌ intake validate_alert enrich retrieve evaluate
    validate_retrieval find_pii build_eval_prompt untrusted_text join contains dispose
    validate_evaluation validate_disposition
disposed-finished = refl

run_6-finished : (run ctx 6 none NodeName.intake fresh world).0 ≡ finished disposed
unfolding run double units in_unit_range ◌>>=◌ intake validate_alert enrich retrieve evaluate
    validate_retrieval find_pii build_eval_prompt untrusted_text join contains dispose
    validate_evaluation validate_disposition screen
run_6-finished = refl

abbrev decided : ScreeningState → Option (DispositionType × DecidedBy)
decided s = elim s.disposition [ some d ↦ some (d.disposition, d.decided_by) | none ↦ none ]

-- NIM is down and Bedrock clears the alert: the agent disposes of it.
disposed-decided : decided disposed ≡ some (DispositionType.clear, DecidedBy.agent)
unfolding screen double units in_unit_range ◌>>=◌ intake validate_alert enrich retrieve evaluate
    validate_retrieval find_pii build_eval_prompt untrusted_text join contains dispose
    validate_evaluation validate_disposition
disposed-decided = refl

run-Recorded_example : Recorded ctx disposed
run-Recorded_example = run-Recorded ctx 6 none NodeName.intake fresh disposed world run_6-finished

screen-AgentBooking_example : AgentBooking ctx disposed
screen-AgentBooking_example = screen-AgentBooking ctx fresh disposed world refl disposed-finished

-- The channels after the analyst has confirmed the match.
abbrev resolved : ScreeningState
resolved = final (resume_parked ctx decision waiting world).0

resolved-finished : (resume_parked ctx decision waiting world).0 ≡ finished resolved
unfolding resume_parked double units in_unit_range ◌>>=◌ intake validate_alert enrich retrieve
    evaluate validate_retrieval find_pii build_eval_prompt untrusted_text join contains dispose
    validate_evaluation validate_disposition escalate validate_decision
resolved-finished = refl

resolved-decided : decided resolved ≡ some (DispositionType.true_match, DecidedBy.analyst)
unfolding resume_parked double units in_unit_range ◌>>=◌ intake validate_alert enrich retrieve
    evaluate validate_retrieval find_pii build_eval_prompt untrusted_text join contains dispose
    validate_evaluation validate_disposition escalate validate_decision
resolved-decided = refl

resume-AnalystBooking_example : AnalystBooking decision resolved
resume-AnalystBooking_example =
    resume-AnalystBooking ctx decision waiting resolved world resolved-finished

-- The alert is screened again on the channels of the run that the analyst has closed.
abbrev old_decision : AnalystDecision
old_decision = record decision {
  resolution = AnalystResolution.insufficient_data;
  rationale = "no passport";
}

abbrev reopened : ScreeningState
reopened = record fresh { analyst_decision = some old_decision }

abbrev rescreened : ScreeningState
rescreened = final (screen ctx reopened world).0

rescreened-finished : (screen ctx reopened world).0 ≡ finished rescreened
unfolding screen double units in_unit_range ◌>>=◌ intake validate_alert enrich retrieve evaluate
    validate_retrieval find_pii build_eval_prompt untrusted_text join contains dispose
    validate_evaluation validate_disposition validate_decision
rescreened-finished = refl

rescreened-decided :
    decided rescreened ≡ some (DispositionType.insufficient_data, DecidedBy.analyst)
unfolding screen double units in_unit_range ◌>>=◌ intake validate_alert enrich retrieve evaluate
    validate_retrieval find_pii build_eval_prompt untrusted_text join contains dispose
    validate_evaluation validate_disposition validate_decision
rescreened-decided = refl

screen-stale_decision_example : AnalystBooking old_decision rescreened
screen-stale_decision_example =
    screen-stale_decision ctx old_decision reopened rescreened world refl rescreened-finished

screen-stops_example :
    (¬ ((screen ctx fresh world).0 ≡ exhausted))
    × (¬ ((resume_parked ctx decision fresh world).0 ≡ exhausted))
screen-stops_example = screen-stops ctx fresh world decision

alert-valid : validate_alert alert ≡ ok alert
unfolding double units in_unit_range ◌>>=◌ intake validate_alert enrich retrieve evaluate
    validate_retrieval find_pii build_eval_prompt untrusted_text join contains dispose
    validate_evaluation validate_disposition
alert-valid = refl

confirmed-valid : validate_evaluation confirmed ≡ ok confirmed
unfolding double units in_unit_range ◌>>=◌ intake validate_alert enrich retrieve evaluate
    validate_retrieval find_pii build_eval_prompt untrusted_text join contains dispose
    validate_evaluation validate_disposition
confirmed-valid = refl

guidance-valid : validate_retrieval guidance ≡ ok guidance
unfolding double units in_unit_range ◌>>=◌ intake validate_alert enrich retrieve evaluate
    validate_retrieval find_pii build_eval_prompt untrusted_text join contains dispose
    validate_evaluation validate_disposition
guidance-valid = refl

escalate-parks_run_example : run ctx 2 none NodeName.escalate waiting world ≡ (
  stopped waiting NodeName.escalate
      (graph_interrupt (interrupt_payload ctx alert confirmed enrichment)),
  (audit_row ctx.outside (interrupt_row alert confirmed) world).1,
)
escalate-parks_run_example =
    escalate-parks_run ctx alert confirmed enrichment waiting world refl refl refl alert-valid
      confirmed-valid 1

abbrev thin_state : ScreeningState
thin_state = record fresh { enrichment = some thin; retrieval = some guidance }

threshold-below_one : le_float settings.clear_confidence_threshold one_float ≡ true
unfolding double units
threshold-below_one = refl

evaluate-thin_example : Overlaid ctx thin_state world
evaluate-thin_example =
    evaluate-thin ctx alert thin guidance thin_state world refl refl refl alert-valid guidance-valid
      refl threshold-below_one

world-IsSound : IsSound ctx.outside.hasher world.audit
world-IsSound = record { chained = tt; ordered = omega arith }

run_trail_example :
    let after = (run ctx 6 none NodeName.intake fresh world).1.audit.rows in
    ((verify_chain ctx.outside.hasher after chain_genesis).verified ≡ true)
    × ((more : List AuditRow) × (after ≡ world.audit.rows ++ more))
run_trail_example = run_trail ctx 6 none NodeName.intake fresh world world-IsSound

abbrev thin_evaluated : ScreeningState
thin_evaluated = record thin_state { evaluation = some (thin_result ctx thin) }

abbrev thin_world : World
thin_world = (super_step ctx none NodeName.evaluate thin_state world).1

thin-evaluated :
    super_step ctx none NodeName.evaluate thin_state world ≡ (ok thin_evaluated, thin_world)
unfolding super_step double units in_unit_range ◌>>=◌ validate_alert evaluate validate_retrieval
thin-evaluated = refl

run-Forks_example :
    Forks ctx 1 none thin_evaluated thin_world
      (thin_result ctx thin)
      (run ctx 2 none NodeName.evaluate thin_state world)
run-Forks_example =
    run-Forks ctx 1 none thin_state thin_evaluated world thin_world (thin_result ctx thin)
      thin-evaluated refl

is_insufficient_iff_example : (is_insufficient alert [] ≡ true) ↔ (
    (is_empty alert.hits ≡ false)
    × ((is_empty {A = WatchlistCandidate} [] ≡ true) ⊎ (alert.date_of_birth ≡ none)))
is_insufficient_iff_example = is_insufficient_iff alert []
