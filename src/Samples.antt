-- ===== src/Samples.antt =====
-- Concrete values for the tests: an outside world, settings, an alert and what an agent makes of it.
use compliance_agent_platfor.Base.{
  ℕ, ◌-◌, String, ◌≡◌, true, false, [], ◌∷◌, none, some, str_eq, truthy, if◌then◌else◌, eq_iff, ap,
  not, inl, inr, Bool-cases,
}
use compliance_agent_platfor.Base.Float.{zero_float, one_float, double}
use compliance_agent_platfor.Base.Text.{codes, contains}
use compliance_agent_platfor.Json.{Json, Fields, str, obj, field, end}
use compliance_agent_platfor.Config.{default_settings, Settings, Backend}
use compliance_agent_platfor.Error.{Result, ok, err, external}
use compliance_agent_platfor.Audit.Log.{AuditRecord, Hasher, chain_payload}
use compliance_agent_platfor.Guardrails.Unicode.{ascii}
use compliance_agent_platfor.Outside.{
  Outside, ChatModel, nim_model, bedrock_model, injected, RawResult,
}
use compliance_agent_platfor.Exec.{World}
use compliance_agent_platfor.Schemas.Alert.{ScreeningAlert}
use compliance_agent_platfor.Schemas.Disposition.{DispositionType, EvidenceItem, MatchedEntity}
use compliance_agent_platfor.Schemas.Enrichment.{WatchlistCandidate, EnrichmentBundle}
use compliance_agent_platfor.Schemas.Retrieval.{RetrievalBundle}
use compliance_agent_platfor.Schemas.Evaluation.{
  EvaluationResult, AnalystResolution, AnalystDecision,
}
use compliance_agent_platfor.Schemas.State.{ScreeningState, empty_state}
use compliance_agent_platfor.Graph.Context.{NodeContext}
use compliance_agent_platfor.Graph.Run.{Stop, finished}
use text.Mathlib.TextLemmas.{tail-eq_of_cons-eq, cons≢nil}

abbrev text_of : Json → String
text_of (str s) = s
text_of _ = ""

abbrev first_text : Fields → String
first_text end = ""
first_text (field key value rest) = text_of value

abbrev last_text : Fields → String
last_text end = ""
last_text (field key value end) = text_of value
last_text (field key value rest) = last_text rest

-- A serialiser that shows whether the first member is "A-1", and the text of the last member.
abbrev toy_dumps : Json → String
toy_dumps (obj fields) =
    String.◌∷◌ (if str_eq (first_text fields) "A-1" then "1" else "2") (last_text fields)
toy_dumps _ = ""

pub toy_dumps-prev :
    (r s : AuditRecord) (t u : ℕ) (p q : String)
    → toy_dumps (chain_payload r t p) ≡ toy_dumps (chain_payload s u q)
    → p ≡ q
unfolding chain_payload
toy_dumps-prev r s t u p q e = tail-eq_of_cons-eq e

pub toy_sha256-truthy : (blob : String) → truthy (String.◌∷◌ "h" blob) ≡ true
toy_sha256-truthy blob = elim (Bool-cases (str_eq (String.◌∷◌ "h" blob) "")) [
  | inl e ↦ absurd (cons≢nil ((eq_iff (String.◌∷◌ "h" blob) "").0 e))
  | inr f ↦ ap not f
]

abbrev pub hasher : Hasher
hasher = record {
  dumps = toy_dumps;
  sha256 = λ blob. String.◌∷◌ "h" blob;
  sha256_truthy = toy_sha256-truthy;
  dumps_prev = toy_dumps-prev;
}

abbrev entry_7 : WatchlistCandidate
entry_7 = record {
  list_name = "OFAC SDN";
  entry_id = "7";
  primary_name = "Ivan Petrov";
  aliases = "I. Petrov" ∷ [];
  date_of_birth = some 720000;
  nationality = some "RU";
  programs = "UKRAINE-EO13661" ∷ [];
  source_url = none;
  name_similarity = none;
  dob_match = none;
  nationality_match = none;
}

abbrev citation : EvidenceItem
citation = record {
  source = "OFAC SDN";
  detail = "date of birth differs";
  reference = some "7";
  document_id = none;
  chunk_id = none;
}

-- A confident answer with a citation.
abbrev pub cleared : EvaluationResult
cleared = record {
  recommended = DispositionType.clear;
  confidence = double 0x1e666666666666 1021;
  rationale = "another person of this name";
  matched_entities = [];
  evidence = citation ∷ [];
}

abbrev matched : MatchedEntity
matched = record {
  list_name = "OFAC SDN";
  entry_id = "7";
  primary_name = "Ivan Petrov";
  programs = "UKRAINE-EO13661" ∷ [];
}

abbrev pub confirmed : EvaluationResult
confirmed = record cleared {
  recommended = DispositionType.true_match;
  rationale = "same person";
  matched_entities = matched ∷ [];
}

-- NIM is down, Bedrock clears, and injected models give an answer that does not parse.
abbrev answer : ChatModel → Result RawResult
answer bedrock_model = ok (record { usage = none; parsed = some cleared })
answer (injected n) = ok (record { usage = none; parsed = none })
answer _ = err (external "APIConnectionError")

abbrev pub outside : Outside
outside = record {
  fetch_entry = λ list_name id. ok (if str_eq id "7" then some entry_7 else none);
  fetch_profile = λ id. ok none;
  search_media = λ alert. ok [];
  embed_query = λ query. ok [];
  search = λ embedding k. ok [];
  invoke = λ model backend messages. answer model;
  rails_check = λ model role text. ok (record {
    blocked = contains (codes "ignore all rules") (codes text);
    rail = some "self check input";
  });
  cap_fake_model = none;
  cap_fake_guardrails = none;
  audit_refused = λ e r. none;
  now = λ n. n;
  elapsed_ms = λ start end. end - start;
  hasher = hasher;
  unicode = ascii;
  name_ratio = λ a b. if str_eq a b then one_float else zero_float;
  strip_lower = λ s. s;
  iso_date = λ d. "1972-04-18";
  two_decimals = λ x. "1.00";
  indented_json = λ j. "{}";
  evaluation_schema = "{}";
  repr = λ e. "error";
  sorted_set = λ names. names;
}

abbrev pub settings : Settings
settings = record default_settings {
  bedrock_model_id = "claude";
  prompt_version = "v1";
  audit_export_prefix = "audit-export";
  retrieval_top_k = 4;
  llm_routing_policy = ("sanctions_screening", Backend.nim) ∷ [];
  nim_model_id = "nemotron";
}

-- The screening queue: NIM, with Bedrock behind it.
abbrev pub ctx : NodeContext
ctx = record {
  outside = outside;
  settings = settings;
  model = nim_model;
  model_backend = "nim";
  model_id = "nemotron";
  fallback = some (record { model = bedrock_model; backend = "bedrock"; model_id = "claude" });
}

abbrev pub alert : ScreeningAlert
alert = record {
  alert_id = "A-1";
  queue = "sanctions_screening";
  subject_id = none;
  screened_name = "Ivan Petrov";
  date_of_birth = some 721000;
  nationality = some "RU";
  address_country = none;
  transaction_ref = none;
  hits =
      record {
        list_name = "OFAC SDN";
        entry_id = "7";
        matched_name = "Ivan Petrov";
        score = one_float;
      }
      ∷ [];
}

abbrev pub fresh : ScreeningState
fresh = record empty_state { alert = some alert }

abbrev pub world : World
world = record { audit = record { rows = []; next_id = 1 }; ticks = 0; calls = [] }

abbrev pub enrichment : EnrichmentBundle
enrichment = record {
  candidates = [];
  customer = none;
  adverse_media_summaries = [];
  insufficient = false;
  missing = [];
}

abbrev pub thin : EnrichmentBundle
thin = record enrichment { insufficient = true; missing = "subject_date_of_birth" ∷ [] }

abbrev pub guidance : RetrievalBundle
guidance = record { query = "OFAC SDN"; chunks = [] }

-- The channels of an alert that waits for an analyst.
abbrev pub waiting : ScreeningState
waiting = record fresh {
  enrichment = some enrichment;
  retrieval = some guidance;
  evaluation = some confirmed;
}

abbrev pub decision : AnalystDecision
decision = record {
  resolution = AnalystResolution.true_match;
  analyst_id = "jdoe";
  rationale = "passport checked";
  matched_entities = [];
  decided_at = 9;
}

abbrev pub final : Stop → ScreeningState
final (finished s) = s
final _ = empty_state
