-- ===== src/Llm.antt =====
-- llm.py: which model answers a queue.
pub mod Fallback
mod Tests
use compliance_agent_platfor.Base.{
  String, not, List, [], ◌∷◌, Option, none, some, str_eq, if◌then◌else◌, truthy,
}
use compliance_agent_platfor.Base.Text.{◌+ₛ◌}
use compliance_agent_platfor.Base.Float.{Float, double}
use compliance_agent_platfor.Config.{Settings, Backend}
use compliance_agent_platfor.Error.{Result, ok, err, value_error}
use compliance_agent_platfor.Outside.{Outside, ChatModel, fake, nim_model, bedrock_model, RawResult}
use compliance_agent_platfor.Schemas.Disposition.{DispositionType, MatchedEntity, is_true_match}

pub record ResolvedBackend : Type 0 where
  pub model : ChatModel
  pub backend : String
  pub model_id : String

pub record FakeProfile : Type 0 where
  pub recommended : DispositionType
  pub confidence : Float

-- `_FAKE_PROFILES`; the confidences are the doubles nearest to 0.95, 0.40, 0.93, 0.60 and 0.90.
unfoldable pub fake_profiles : List (String × FakeProfile)
unfolding double
fake_profiles =
    (
      "clear",
      record { recommended = DispositionType.clear; confidence = double 0x1e666666666666 1021 },
    )
    ∷ (
      "clear_low",
      record { recommended = DispositionType.clear; confidence = double 0x1999999999999a 1020 },
    )
    ∷ (
      "true_match",
      record {
        recommended = DispositionType.true_match;
        confidence = double 0x1dc28f5c28f5c3 1021;
      },
    )
    ∷ (
      "escalate",
      record {
        recommended = DispositionType.escalate_to_analyst;
        confidence = double 0x13333333333333 1021;
      },
    )
    ∷ (
      "escalate_to_analyst",
      record {
        recommended = DispositionType.escalate_to_analyst;
        confidence = double 0x13333333333333 1021;
      },
    )
    ∷ (
      "insufficient_data",
      record {
        recommended = DispositionType.insufficient_data;
        confidence = double 0x1ccccccccccccd 1021;
      },
    )
    ∷ []

abbrev pub lookup {ℓ} : {V : Type ℓ} → String → List (String × V) → Option V
lookup k [] = none
lookup k ((j, v) ∷ m) = if str_eq j k then some v else lookup k m

-- `settings.llm_routing_policy.get(queue, "bedrock")`
abbrev pub routed : Option Backend → Backend
routed none = Backend.bedrock
routed (some b) = b

abbrev pub bedrock_of : Settings → ResolvedBackend
bedrock_of s = record { model = bedrock_model; backend = "bedrock"; model_id = s.bedrock_model_id }

abbrev pub by_policy : Settings → Backend → ResolvedBackend × Option ResolvedBackend
by_policy s Backend.nim = (
  record { model = nim_model; backend = "nim"; model_id = s.nim_model_id },
  if s.bedrock_fallback_enabled then some (bedrock_of s) else none,
)
by_policy s Backend.bedrock = (bedrock_of s, none)

abbrev pub by_profile :
    String → Option FakeProfile → Result (ResolvedBackend × Option ResolvedBackend)
by_profile profile none = err (value_error "CAP_FAKE_MODEL is not valid")
by_profile profile (some p) =
    ok (record { model = fake profile; backend = "fake"; model_id = "fake:" +ₛ profile }, none)

-- `os.environ.get("CAP_FAKE_MODEL")`, where an empty text counts as unset
abbrev pub set_profile : Option String → Option String
set_profile none = none
set_profile (some s) = if truthy s then some s else none

abbrev pub chosen :
    Settings → String → Option String → Result (ResolvedBackend × Option ResolvedBackend)
chosen s queue (some profile) = by_profile profile (lookup profile fake_profiles)
chosen s queue none = ok (by_policy s (routed (lookup queue s.llm_routing_policy)))

unfoldable pub resolve_chat_model :
    Outside → Settings → String → Result (ResolvedBackend × Option ResolvedBackend)
unfolding fake_profiles
resolve_chat_model o s queue = chosen s queue (set_profile o.cap_fake_model)

-- `_FakeStructured.invoke`
abbrev fake_entity : MatchedEntity
fake_entity = record {
  list_name = "OFAC SDN";
  entry_id = "SDN-FAKE";
  primary_name = "Fake Match";
  programs = "TEST" ∷ [];
}

unfoldable pub fake_invoke : String → FakeProfile → RawResult
fake_invoke profile p = record {
  usage = some (record { input_tokens = some 10; output_tokens = some 5; total_tokens = some 15 });
  parsed = some (record {
    recommended = p.recommended;
    confidence = p.confidence;
    rationale = "[CAP_FAKE_MODEL=" +ₛ profile +ₛ "] canned evaluation";
    matched_entities = if is_true_match p.recommended then fake_entity ∷ [] else [];
    evidence = [];
  });
}

-- `json_mode_instruction`
unfoldable pub json_mode_instruction : Outside → String → String
json_mode_instruction o backend =
    if not (str_eq backend "nim")
    then ""
    else ("\n\nRespond with a single JSON object (no prose, no markdown fences) that conforms "
        +ₛ "to this JSON Schema:\n" +ₛ o.evaluation_schema)
