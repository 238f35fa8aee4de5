-- ===== src/Guardrails/Service.antt =====
-- guardrails/service.py: the rails around the model's calls. The rails library is the field
-- `rails_check` of `Outside`; the cache of `LLMRails` objects does not change an answer.
use compliance_agent_platfor.Base.{
  String, Bool, false, not, ◌||◌, List, [], ◌∷◌, Option, none, some, str_eq, text_or, if◌then◌else◌,
  truthy,
}
use compliance_agent_platfor.Base.Text.{codes, contains, join, ◌+ₛ◌}
use compliance_agent_platfor.Error.{Result, ok, err, guardrail_violation}
use compliance_agent_platfor.Outside.{Outside, ChatModel, RailOutcome}
use compliance_agent_platfor.Exec.{Exec, pure, raise, lift, ◌>>=◌, ◌>>◌, rail_call, note_call}
use compliance_agent_platfor.Guardrails.Cards.{find_pii}

pub record GuardrailResult : Type 0 where
  pub allowed : Bool
  pub rail : String
  pub reason : Option String

-- `_FAKE_BLOCK_MARKER`
abbrev pub fake_block_marker : String
fake_block_marker = "__BLOCK__"

-- `raise` on the categories found
abbrev pub refuse_pii : String → List String → Result (Unit {0})
refuse_pii rail [] = ok tt
refuse_pii rail (c ∷ cs) = err (guardrail_violation rail (some ("contains " +ₛ join ", " (c ∷ cs))))

-- `_fake_check`
abbrev pub fake_check : String → String → GuardrailResult
fake_check text rail =
    let blocked = contains (codes fake_block_marker) (codes text) in
    record {
      allowed = not blocked;
      rail = rail;
      reason = if blocked then some "contains '__BLOCK__'" else none;
    }

-- `_real_check`, on the outcome
abbrev pub real_result : String → RailOutcome → GuardrailResult
real_result rail outcome = record {
  allowed = not outcome.blocked;
  rail = text_or outcome.rail rail;
  reason =
      if not outcome.blocked
      then none
      else some ("blocked by '" +ₛ text_or outcome.rail rail +ₛ "' self-check rail");
}

abbrev pub set_variable : Option String → Bool
set_variable none = false
set_variable (some s) = truthy s

module _ (o : Outside) where
  -- `check_pii`
  unfoldable pub check_pii : String → String → Result (Unit {0})
  check_pii text rail = refuse_pii rail (find_pii o.unicode (codes text))

  abbrev pub role : String → String
  role rail = if str_eq rail "input" then "user" else "assistant"

  unfoldable pub real_check : ChatModel → String → String → Exec GuardrailResult
  real_check model text rail = do
    note_call (rail_call model rail)
    outcome ← lift (o.rails_check model (role rail) text)
    pure (real_result rail outcome)

  abbrev pub refuse_block : GuardrailResult → Exec GuardrailResult
  refuse_block r = if r.allowed then pure r else raise (guardrail_violation r.rail r.reason)

  -- `_check`
  unfoldable pub check_rail : ChatModel → String → String → Exec GuardrailResult
  unfolding check_pii real_check
  check_rail model text rail = do
    lift (check_pii text rail)
    result ←
        (if set_variable o.cap_fake_guardrails || set_variable o.cap_fake_model
          then pure (fake_check text rail)
          else real_check model text rail)
    refuse_block result

  unfoldable pub check_input : ChatModel → String → Exec GuardrailResult
  unfolding check_rail
  check_input model text = check_rail model text "input"

  unfoldable pub check_output : ChatModel → String → Exec GuardrailResult
  unfolding check_rail
  check_output model text = check_rail model text "output"
