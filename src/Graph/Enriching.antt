-- ===== src/Graph/Enriching.antt =====
-- When the enrichment of an alert is too thin.
use compliance_agent_platfor.Base.{◌≡◌, ◌↔◌, ◌⊎◌, true, false, is_empty, List, none, arith}
use compliance_agent_platfor.Schemas.Alert.{ScreeningAlert}
use compliance_agent_platfor.Schemas.Enrichment.{WatchlistCandidate}
use compliance_agent_platfor.Graph.Enrich.{missing_data, is_insufficient}

-- The enrichment is insufficient exactly if the alert has hits, and no entry of them was found or the
-- subject's date of birth is missing.
pub is_insufficient_iff :
    (a : ScreeningAlert) (candidates : List WatchlistCandidate)
    → (is_insufficient a candidates ≡ true)
      ↔ ((is_empty a.hits ≡ false) × ((is_empty candidates ≡ true) ⊎ (a.date_of_birth ≡ none)))
unfolding is_insufficient missing_data
is_insufficient_iff a candidates = ground arith
