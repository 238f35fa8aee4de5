-- ===== src/Graph/Prompt.antt =====
-- graph/nodes.py: the texts that the `evaluate` node shows to the models.
use compliance_agent_platfor.Base.{
  String, List, [], ◌∷◌, ◌++◌, map, Option, none, some, is_empty, if◌then◌else◌, truthy,
}
use compliance_agent_platfor.Base.Text.{join, ◌+ₛ◌}
use compliance_agent_platfor.Outside.{Outside, Messages}
use compliance_agent_platfor.Llm.{json_mode_instruction}
use compliance_agent_platfor.Schemas.Alert.{ScreeningAlert, dump_alert}
use compliance_agent_platfor.Schemas.Enrichment.{
  WatchlistCandidate, CustomerProfile, EnrichmentBundle, dump_enrichment,
}
use compliance_agent_platfor.Schemas.Retrieval.{RetrievedChunk, RetrievalBundle}

-- `_EVAL_SYSTEM`
abbrev pub eval_system : String
eval_system =
    "You are a sanctions-screening analyst assistant. Given an alert and enrichment "
    +ₛ "data, decide whether the screened party is the same person/entity as a watchlist "
    +ₛ "candidate. Return one of: clear (not a match), true_match (confirmed match), "
    +ₛ "escalate_to_analyst (plausible match needing human judgement), insufficient_data "
    +ₛ "(cannot decide with what is provided). Base confidence on name/DOB/nationality "
    +ₛ "agreement and adverse media. Cite evidence: when a cited fact comes from the "
    +ₛ "retrieved regulatory guidance, set that evidence item's document_id/chunk_id to "
    +ₛ "the [document_id#chunk_id] tag it was retrieved under."

abbrev chunk_text : RetrievedChunk → String
chunk_text c = "[" +ₛ c.document_id +ₛ "#" +ₛ c.chunk_id +ₛ "] " +ₛ c.text

abbrev chunks_text : List RetrievedChunk → String
chunks_text chunks =
    if is_empty chunks
    then "(no regulatory guidance retrieved)"
    else join "\n\n" (map chunk_text chunks)

-- `_build_eval_prompt`
unfoldable pub build_eval_prompt :
    Outside → ScreeningAlert → EnrichmentBundle → RetrievalBundle → String
build_eval_prompt o a e r =
    "ALERT\n"
    +ₛ o.indented_json (dump_alert a)
    +ₛ "\n\n"
    +ₛ "ENRICHMENT\n"
    +ₛ o.indented_json (dump_enrichment e)
    +ₛ "\n\n"
    +ₛ "RETRIEVED REGULATORY GUIDANCE (cite by [document_id#chunk_id] in your evidence)\n"
    +ₛ chunks_text r.chunks
    +ₛ "\n\n"
    +ₛ "Decide the disposition."

abbrev label : String → Option String → List String
label name none = []
label name (some v) = if truthy v then (name +ₛ ": " +ₛ v) ∷ [] else []

abbrev legal_name : Option CustomerProfile → Option String
legal_name none = none
legal_name (some c) = some c.legal_name

abbrev candidate_lines : List WatchlistCandidate → List String
candidate_lines [] = []
candidate_lines (c ∷ cs) =
    map (λ a. "alias: " +ₛ a) c.aliases ++ (label "source_url" c.source_url ++ candidate_lines cs)

-- `_untrusted_text`
unfoldable pub untrusted_text : ScreeningAlert → EnrichmentBundle → String
untrusted_text a e = join "\n" (
    ("screened_name: " +ₛ a.screened_name)
    ∷ (label "nationality" a.nationality
        ++ (label "address_country" a.address_country
            ++ (label "transaction_ref" a.transaction_ref
                ++ (label "customer_legal_name" (legal_name e.customer)
                    ++ (candidate_lines e.candidates
                        ++ map (λ m. "adverse_media: " +ₛ m) e.adverse_media_summaries))))))

-- `messages_for`
unfoldable pub messages_for : Outside → String → String → Messages
messages_for o prompt backend = record {
  system = eval_system +ₛ json_mode_instruction o backend;
  human = prompt;
}
