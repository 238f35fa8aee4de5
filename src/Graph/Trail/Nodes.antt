-- ===== src/Graph/Trail/Nodes.antt =====
-- Every node, whatever it meets, only adds to the audit trail.
use compliance_agent_platfor.Base.{ℕ, String, Option, none, some}
use compliance_agent_platfor.Error.{Exn}
use compliance_agent_platfor.Outside.{ChatModel}
use compliance_agent_platfor.Exec.Keeps.{
  Keeps, Keeps-pure, Keeps-raise, Keeps-lift, Keeps-if, Keeps-catch, Keeps-bind,
}
use compliance_agent_platfor.Guardrails.Service.{check_rail, real_check, check_input, check_output}
use compliance_agent_platfor.Llm.{ResolvedBackend}
use compliance_agent_platfor.Schemas.State.{ScreeningState}
use compliance_agent_platfor.Schemas.Evaluation.{AnalystDecision}
use compliance_agent_platfor.Graph.Context.{NodeContext}
use compliance_agent_platfor.Graph.Enrich.{intake, enrich, retrieve}
use compliance_agent_platfor.Graph.Evaluate.{
  Attempt, answered, failed, evaluate, call_model, ask_primary, try_primary, serve, ask, overlay,
  fallback_start, after_rail, use_fallback, or_fallback,
}
use compliance_agent_platfor.Graph.Dispose.{escalate, dispose}
use compliance_agent_platfor.Graph.Trail.{
  Appends, Appends-preorder, audit_row-Appends, read_clock-Appends, note_call-Appends,
}

pub ruleset trail_rules = (
  Keeps-pure, Keeps-raise, Keeps-lift, Keeps-if, Keeps-catch, Keeps-bind, Appends-preorder,
  audit_row-Appends, read_clock-Appends, note_call-Appends,
)

module _ (ctx : NodeContext) where
  open ctx use {outside}

  pub intake-Appends : (s : ScreeningState) → Keeps (Appends outside.hasher) (intake ctx s)
  unfolding intake
  intake-Appends s = search trail_rules depth 20

  pub enrich-Appends : (s : ScreeningState) → Keeps (Appends outside.hasher) (enrich ctx s)
  unfolding enrich
  enrich-Appends s = search trail_rules depth 20

  pub retrieve-Appends : (s : ScreeningState) → Keeps (Appends outside.hasher) (retrieve ctx s)
  unfolding retrieve
  retrieve-Appends s = search trail_rules depth 20

  pub escalate-Appends :
      (resume : Option AnalystDecision) (s : ScreeningState)
      → Keeps (Appends outside.hasher) (escalate ctx resume s)
  unfolding escalate
  escalate-Appends resume s = search trail_rules depth 25

  pub dispose-Appends : (s : ScreeningState) → Keeps (Appends outside.hasher) (dispose ctx s)
  unfolding dispose
  dispose-Appends s = search trail_rules depth 25

  check_rail-Appends :
      (m : ChatModel) (text rail : String)
      → Keeps (Appends outside.hasher) (check_rail outside m text rail)
  unfolding check_rail real_check
  check_rail-Appends m text rail = search trail_rules depth 20

  call_model-Appends :
      (m : ChatModel) (backend prompt : String)
      → Keeps (Appends outside.hasher) (call_model ctx m backend prompt)
  unfolding call_model
  call_model-Appends m backend prompt = search trail_rules depth 20

  ask_primary-Appends : (prompt : String) → Keeps (Appends outside.hasher) (ask_primary ctx prompt)
  unfolding ask_primary
  ask_primary-Appends prompt = search (trail_rules, call_model-Appends) depth 20

  after_rail-Appends :
      (prompt : String) (outage : Option Exn)
      → Keeps (Appends outside.hasher) (after_rail ctx prompt outage)
  after_rail-Appends prompt none = ask_primary-Appends prompt
  after_rail-Appends prompt (some e) = search trail_rules

  try_primary-Appends :
      (prompt rail_text : String)
      → Keeps (Appends outside.hasher) (try_primary ctx prompt rail_text)
  unfolding try_primary check_input
  try_primary-Appends prompt rail_text =
      search (trail_rules, check_rail-Appends, after_rail-Appends) depth 20

  fallback_start-Appends :
      (fb : ResolvedBackend) (rail_text : String) (checked : Option ℕ)
      → Keeps (Appends outside.hasher) (fallback_start ctx fb rail_text checked)
  unfolding check_input
  fallback_start-Appends fb rail_text none = search (trail_rules, check_rail-Appends)
  fallback_start-Appends fb rail_text (some t) = search trail_rules

  use_fallback-Appends :
      (prompt rail_text : String) (e : Exn) (checked : Option ℕ) (fb : Option ResolvedBackend)
      → Keeps (Appends outside.hasher) (use_fallback ctx prompt rail_text e checked fb)
  use_fallback-Appends prompt rail_text e checked none = search trail_rules
  use_fallback-Appends prompt rail_text e checked (some fb) =
      search (trail_rules, fallback_start-Appends, call_model-Appends) depth 20

  or_fallback-Appends :
      (prompt rail_text : String) (a : Attempt)
      → Keeps (Appends outside.hasher) (or_fallback ctx prompt rail_text a)
  or_fallback-Appends prompt rail_text (answered raw t) = search trail_rules
  or_fallback-Appends prompt rail_text (failed e checked) =
      use_fallback-Appends prompt rail_text e checked ctx.fallback

  serve-Appends :
      (prompt rail_text : String) → Keeps (Appends outside.hasher) (serve ctx prompt rail_text)
  unfolding serve
  serve-Appends prompt rail_text =
      search (trail_rules, try_primary-Appends, or_fallback-Appends) depth 20

  pub evaluate-Appends : (s : ScreeningState) → Keeps (Appends outside.hasher) (evaluate ctx s)
  unfolding evaluate overlay ask check_output
  evaluate-Appends s = search (trail_rules, serve-Appends, check_rail-Appends) depth 40
