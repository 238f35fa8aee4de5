-- ===== src/Llm/Tests.antt =====
-- The instance of the theorem on the routing of a queue.
use compliance_agent_platfor.Base.{◌≡◌, refl, some}
use compliance_agent_platfor.Error.{ok}
use compliance_agent_platfor.Outside.{nim_model, bedrock_model}
use compliance_agent_platfor.Llm.{ResolvedBackend, resolve_chat_model}
use compliance_agent_platfor.Llm.Fallback.{FallsBack, resolve_chat_model-FallsBack}
use compliance_agent_platfor.Samples.{outside, settings}

abbrev primary : ResolvedBackend
primary = record { model = nim_model; backend = "nim"; model_id = "nemotron" }

abbrev secondary : ResolvedBackend
secondary = record { model = bedrock_model; backend = "bedrock"; model_id = "claude" }

queue-resolves :
    resolve_chat_model outside settings "sanctions_screening" ≡ ok (primary, some secondary)
unfolding resolve_chat_model
queue-resolves = refl

resolve_chat_model-FallsBack_example :
    FallsBack outside settings "sanctions_screening" primary secondary
resolve_chat_model-FallsBack_example =
    resolve_chat_model-FallsBack outside settings "sanctions_screening" primary secondary
      queue-resolves
