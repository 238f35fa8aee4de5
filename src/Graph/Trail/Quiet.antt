-- ===== src/Graph/Trail/Quiet.antt =====
-- The rails, the primary model and the fallback of `evaluate` write no audit row.
use compliance_agent_platfor.Base.{ℕ, String, ◌≡◌, refl, ◌∙◌, Option, none, some}
use compliance_agent_platfor.Error.{Exn}
use compliance_agent_platfor.Exec.{World, ModelCall, read_clock, note_call}
use compliance_agent_platfor.Exec.Keeps.{
  IsPreorder, Keeps, Keeps-pure, Keeps-raise, Keeps-lift, Keeps-if, Keeps-catch, Keeps-bind,
}
use compliance_agent_platfor.Outside.{ChatModel}
use compliance_agent_platfor.Guardrails.Service.{check_rail, real_check, check_input, check_output}
use compliance_agent_platfor.Llm.{ResolvedBackend}
use compliance_agent_platfor.Graph.Context.{NodeContext}
use compliance_agent_platfor.Graph.Evaluate.{
  Attempt, answered, failed, call_model, ask_primary, try_primary, serve, fallback_start,
  after_rail, use_fallback, or_fallback,
}

-- The audit table is as it was.
pub record IsQuiet (v w : World) : Type 0 where
  pub same_audit : w.audit ≡ v.audit

IsQuiet-preorder : IsPreorder IsQuiet
IsQuiet-preorder = record {
  reflexive = λ w. record { same_audit = refl };
  transitive = λ u v w a b. record { same_audit = b.same_audit ∙ a.same_audit };
}

read_clock-IsQuiet : Keeps IsQuiet read_clock
unfolding read_clock
read_clock-IsQuiet = record { at = λ w. record { same_audit = refl } }

note_call-IsQuiet : (c : ModelCall) → Keeps IsQuiet (note_call c)
unfolding note_call
note_call-IsQuiet c = record { at = λ w. record { same_audit = refl } }

ruleset quiet_rules = (
  Keeps-pure, Keeps-raise, Keeps-lift, Keeps-if, Keeps-catch, Keeps-bind, IsQuiet-preorder,
  read_clock-IsQuiet, note_call-IsQuiet,
)

module _ (ctx : NodeContext) where
  open ctx use {outside}

  check_rail-IsQuiet :
      (m : ChatModel) (text rail : String) → Keeps IsQuiet (check_rail outside m text rail)
  unfolding check_rail real_check
  check_rail-IsQuiet m text rail = search quiet_rules depth 20

  pub check_output-IsQuiet :
      (m : ChatModel) (text : String) → Keeps IsQuiet (check_output outside m text)
  unfolding check_output
  check_output-IsQuiet m text = search (quiet_rules, check_rail-IsQuiet) depth 20

  call_model-IsQuiet :
      (m : ChatModel) (backend prompt : String) → Keeps IsQuiet (call_model ctx m backend prompt)
  unfolding call_model
  call_model-IsQuiet m backend prompt = search quiet_rules depth 20

  ask_primary-IsQuiet : (prompt : String) → Keeps IsQuiet (ask_primary ctx prompt)
  unfolding ask_primary
  ask_primary-IsQuiet prompt = search (quiet_rules, call_model-IsQuiet) depth 20

  after_rail-IsQuiet :
      (prompt : String) (outage : Option Exn) → Keeps IsQuiet (after_rail ctx prompt outage)
  after_rail-IsQuiet prompt none = ask_primary-IsQuiet prompt
  after_rail-IsQuiet prompt (some e) = search quiet_rules

  try_primary-IsQuiet :
      (prompt rail_text : String) → Keeps IsQuiet (try_primary ctx prompt rail_text)
  unfolding try_primary check_input
  try_primary-IsQuiet prompt rail_text =
      search (quiet_rules, check_rail-IsQuiet, after_rail-IsQuiet) depth 20

  fallback_start-IsQuiet :
      (fb : ResolvedBackend) (rail_text : String) (checked : Option ℕ)
      → Keeps IsQuiet (fallback_start ctx fb rail_text checked)
  unfolding check_input
  fallback_start-IsQuiet fb rail_text none = search (quiet_rules, check_rail-IsQuiet)
  fallback_start-IsQuiet fb rail_text (some t) = search quiet_rules

  use_fallback-IsQuiet :
      (prompt rail_text : String) (e : Exn) (checked : Option ℕ) (fb : Option ResolvedBackend)
      → Keeps IsQuiet (use_fallback ctx prompt rail_text e checked fb)
  use_fallback-IsQuiet prompt rail_text e checked none = search quiet_rules
  use_fallback-IsQuiet prompt rail_text e checked (some fb) =
      search (quiet_rules, fallback_start-IsQuiet, call_model-IsQuiet) depth 20

  or_fallback-IsQuiet :
      (prompt rail_text : String) (a : Attempt) → Keeps IsQuiet (or_fallback ctx prompt rail_text a)
  or_fallback-IsQuiet prompt rail_text (answered raw t) = search quiet_rules
  or_fallback-IsQuiet prompt rail_text (failed e checked) =
      use_fallback-IsQuiet prompt rail_text e checked ctx.fallback

  pub serve-IsQuiet : (prompt rail_text : String) → Keeps IsQuiet (serve ctx prompt rail_text)
  unfolding serve
  serve-IsQuiet prompt rail_text =
      search (quiet_rules, try_primary-IsQuiet, or_fallback-IsQuiet) depth 20
