-- ===== src/Graph/Enrich.antt =====
-- graph/nodes.py: the nodes `intake`, `enrich` and `retrieve`.
use compliance_agent_platfor.Base.{
  String, Bool, false, not, ◌&&◌, ◌||◌, List, [], ◌∷◌, ◌++◌, map, Option, none, some, length,
  is_empty, str_eq, if◌then◌else◌, truthy,
}
use compliance_agent_platfor.Base.Float.{Float, le_float}
use compliance_agent_platfor.Base.Text.{join, ◌+ₛ◌}
use compliance_agent_platfor.Json.{Json, null, bool, int, float, str, obj, field, end, list}
use compliance_agent_platfor.Error.{Result, ok, err}
use compliance_agent_platfor.Outside.{Outside}
use compliance_agent_platfor.Exec.{Exec, pure, lift, ◌>>=◌, ◌>>◌, audit_row}
use compliance_agent_platfor.Audit.Log.{hash_payload}
use compliance_agent_platfor.Schemas.Alert.{
  WatchlistHit, ScreeningAlert, validate_alert, dump_alert,
}
use compliance_agent_platfor.Schemas.Enrichment.{
  WatchlistCandidate, CustomerProfile, EnrichmentBundle, dump_enrichment,
}
use compliance_agent_platfor.Schemas.Disposition.{is_some}
use compliance_agent_platfor.Schemas.Retrieval.{RetrievedChunk}
use compliance_agent_platfor.Schemas.State.{ScreeningState, empty_state}
use compliance_agent_platfor.Graph.Context.{NodeContext, channel, row}
use mathlib.Core.List.{flatten}

-- `_opt_eq`, with `str` of the two values
unfoldable pub opt_eq {ℓ} :
    {A : Type ℓ} → Outside → (A → String) → Option A → Option A → Option Bool
opt_eq o to_str none b = none
opt_eq o to_str (some a) none = none
opt_eq o to_str (some a) (some b) =
    some (str_eq (o.strip_lower (to_str a)) (o.strip_lower (to_str b)))

abbrev same_text : String → String
same_text s = s

-- `max` keeps the first of the highest
abbrev max_ratio : Outside → String → Float → List String → Float
max_ratio o name best [] = best
max_ratio o name best (n ∷ names) =
    max_ratio o name (if le_float (o.name_ratio name n) best then best else o.name_ratio name n)
      names

-- `_name_similarity`
unfoldable pub name_similarity : Outside → String → String → List String → Float
name_similarity o name primary aliases = max_ratio o name (o.name_ratio name primary) aliases

-- The three features that `enrich` computes for a fetched entry.
unfoldable pub with_features : Outside → ScreeningAlert → WatchlistCandidate → WatchlistCandidate
unfolding name_similarity opt_eq
with_features o a c = record c {
  name_similarity = some (name_similarity o a.screened_name c.primary_name c.aliases);
  dob_match = opt_eq o o.iso_date a.date_of_birth c.date_of_birth;
  nationality_match = opt_eq o same_text a.nationality c.nationality;
}

abbrev pub keep_entry :
    Outside
    → ScreeningAlert
    → Option WatchlistCandidate
    → List WatchlistCandidate
    → List WatchlistCandidate
keep_entry o a none rest = rest
keep_entry o a (some c) rest = with_features o a c ∷ rest

abbrev pub then_keep :
    Outside
    → ScreeningAlert
    → Result (List WatchlistCandidate)
    → Option WatchlistCandidate
    → Result (List WatchlistCandidate)
then_keep o a (err e) entry = err e
then_keep o a (ok rest) entry = ok (keep_entry o a entry rest)

abbrev pub then_fetched :
    Outside
    → ScreeningAlert
    → Result (Option WatchlistCandidate)
    → Result (List WatchlistCandidate)
    → Result (List WatchlistCandidate)
then_fetched o a (err e) rest = err e
then_fetched o a (ok entry) rest = then_keep o a rest entry

-- The loop over the hits: the first provider error stops it.
unfoldable pub fetch_candidates :
    Outside → ScreeningAlert → List WatchlistHit → Result (List WatchlistCandidate)
unfolding with_features
fetch_candidates o a [] = ok []
fetch_candidates o a (hit ∷ hits) =
    then_fetched o a (o.fetch_entry hit.list_name hit.entry_id) (fetch_candidates o a hits)

abbrev fetch_customer : Outside → Option String → Result (Option CustomerProfile)
fetch_customer o none = ok none
fetch_customer o (some id) = if truthy id then o.fetch_profile id else ok none

-- `missing`, of whether there are hits, candidates and a date of birth
unfoldable pub missing_data : ScreeningAlert → List WatchlistCandidate → List String
missing_data a candidates =
    (if not (is_empty a.hits) && is_empty candidates
      then "watchlist_entries_unresolved" ∷ []
      else [])
    ++ (if is_some a.date_of_birth then [] else "subject_date_of_birth" ∷ [])

abbrev pub mem_text : String → List String → Bool
mem_text s [] = false
mem_text s (t ∷ ts) = str_eq s t || mem_text s ts

unfoldable pub is_insufficient : ScreeningAlert → List WatchlistCandidate → Bool
unfolding missing_data
is_insufficient a candidates =
    not (is_empty a.hits)
    && (is_empty candidates || mem_text "subject_date_of_birth" (missing_data a candidates))

abbrev pub sorted_parts : Outside → ScreeningAlert → EnrichmentBundle → List String
sorted_parts o a e =
    o.sorted_set (map (λ h. h.list_name) a.hits)
    ++ o.sorted_set (flatten (map (λ c. c.programs) e.candidates))

abbrev labelled : String → Option String → List String
labelled label none = []
labelled label (some s) = if truthy s then (label +ₛ s) ∷ [] else []

abbrev pub query_parts : Outside → ScreeningAlert → EnrichmentBundle → List String
query_parts o a e =
    sorted_parts o a e
    ++ (labelled "nationality " a.nationality
        ++ (labelled "country " a.address_country ++ e.adverse_media_summaries))

unfoldable pub build_retrieval_query : Outside → ScreeningAlert → EnrichmentBundle → String
build_retrieval_query o a e =
    if is_empty (query_parts o a e) then a.screened_name else join " " (query_parts o a e)

abbrev top_score : List RetrievedChunk → Json
top_score [] = null
top_score (c ∷ cs) = float c.score

module _ (ctx : NodeContext) where
  open ctx use {outside, settings}

  unfoldable pub intake : ScreeningState → Exec ScreeningState
  intake s = do
    raw ← lift (channel "alert" s.alert)
    alert ← lift (validate_alert raw)
    audit_row outside (record (row alert.alert_id "intake" "system" "node_completed") {
      payload_hash = some (hash_payload outside.hasher (dump_alert raw));
      detail = some (obj (field "hits" (int (length alert.hits)) end));
    })
    pure (record empty_state { alert = some alert })

  unfoldable pub enrich : ScreeningState → Exec ScreeningState
  unfolding fetch_candidates missing_data is_insufficient
  enrich s = do
    raw ← lift (channel "alert" s.alert)
    alert ← lift (validate_alert raw)
    candidates ← lift (fetch_candidates outside alert alert.hits)
    customer ← lift (fetch_customer outside alert.subject_id)
    media ← lift (outside.search_media alert)
    let missing = missing_data alert candidates
    let insufficient = is_insufficient alert candidates
    audit_row outside (record (row alert.alert_id "enrich" "system" "node_completed") {
      payload_hash = some (hash_payload outside.hasher (dump_alert raw));
      detail = some (
          obj (
            field "candidates" (int (length candidates)) (
              field "has_customer" (bool (is_some customer)) (
                field "adverse_media" (int (length media)) (
                  field "insufficient_data" (bool insufficient)
                    (field "missing" (list str missing) end))))));
    })
    pure (record empty_state {
      enrichment = some (record {
        candidates = candidates;
        customer = customer;
        adverse_media_summaries = media;
        insufficient = insufficient;
        missing = missing;
      });
    })

  unfoldable pub retrieve : ScreeningState → Exec ScreeningState
  unfolding build_retrieval_query
  retrieve s = do
    raw ← lift (channel "alert" s.alert)
    alert ← lift (validate_alert raw)
    enrichment ← lift (channel "enrichment" s.enrichment)
    let query = build_retrieval_query outside alert enrichment
    embedding ← lift (outside.embed_query query)
    chunks ← lift (outside.search embedding settings.retrieval_top_k)
    audit_row outside (record (row alert.alert_id "retrieve" "system" "node_completed") {
      payload_hash = some (hash_payload outside.hasher (dump_enrichment enrichment));
      detail = some (
          obj (
            field "query" (str query) (
              field "chunk_ids" (list (λ (c : RetrievedChunk). str c.chunk_id) chunks)
                (field "top_score" (top_score chunks) end))));
    })
    pure (record empty_state { retrieval = some (record { query = query; chunks = chunks }) })
