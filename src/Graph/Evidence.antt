-- ===== src/Graph/Evidence.antt =====
-- The evidence that `dispose` falls back to: the candidates of `enrich` always give it.
use compliance_agent_platfor.Base.{
  suc, ◌≡◌, refl, ap, subst, List, [], ◌∷◌, Option, none, some, All, length, arith,
}
use compliance_agent_platfor.Base.Float.{Float}
use compliance_agent_platfor.Error.{Result, ok, err}
use compliance_agent_platfor.Exec.Yields.{ok_injective}
use compliance_agent_platfor.Outside.{Outside}
use compliance_agent_platfor.Schemas.Alert.{ScreeningAlert, WatchlistHit}
use compliance_agent_platfor.Schemas.Disposition.{EvidenceItem}
use compliance_agent_platfor.Schemas.Enrichment.{WatchlistCandidate}
use compliance_agent_platfor.Graph.Enrich.{
  fetch_candidates, with_features, keep_entry, then_keep, then_fetched,
}
use compliance_agent_platfor.Graph.Dispose.{evidence_of, candidate_evidence, cons_result}

-- A candidate whose name was compared.
abbrev IsScored : WatchlistCandidate → Type 0
IsScored c = (x : Float) × (c.name_similarity ≡ some x)

-- The items of a list of evidence, one for each candidate.
pub record EvidenceFor (o : Outside) (cs : List WatchlistCandidate) : Type 0 where
  pub items : List EvidenceItem
  pub made : evidence_of o cs ≡ ok items
  pub one_each : length items ≡ length cs

module _ (o : Outside) where
  cons_result-made :
      (item : EvidenceItem) (r : Result EvidenceItem) (rest : Result (List EvidenceItem))
      (items : List EvidenceItem)
      → r ≡ ok item
      → rest ≡ ok items
      → cons_result r rest ≡ ok (item ∷ items)
  cons_result-made item r rest items p q = rw (p, q) refl

  scored_evidence :
      (c : WatchlistCandidate)
      → IsScored c
      → (item : EvidenceItem) × (candidate_evidence o c c.name_similarity ≡ ok item)
  scored_evidence c (x, e) = (_, ap (candidate_evidence o c) e)

  evidence_of-made : (cs : List WatchlistCandidate) → All IsScored cs → EvidenceFor o cs
  unfolding evidence_of
  evidence_of-made [] a = record { items = []; made = refl; one_each = refl }
  evidence_of-made (c ∷ cs) a =
      let (item, p) = scored_evidence c a.0 in
      let rest = evidence_of-made cs a.1 in
      record {
        items = item ∷ rest.items;
        made = cons_result-made item _ _ rest.items p rest.made;
        one_each = ap suc rest.one_each;
      }

  module _ (a : ScreeningAlert) where
    keep_entry-IsScored :
        (entry : Option WatchlistCandidate) (rest : List WatchlistCandidate)
        → All IsScored rest
        → All IsScored (keep_entry o a entry rest)
    unfolding with_features
    keep_entry-IsScored none rest s = s
    keep_entry-IsScored (some c) rest s = ((_, refl), s)

    then_keep-IsScored :
        (r : Result (List WatchlistCandidate)) (entry : Option WatchlistCandidate)
        (cs : List WatchlistCandidate)
        → ((rest : List WatchlistCandidate) → r ≡ ok rest → All IsScored rest)
        → then_keep o a r entry ≡ ok cs
        → All IsScored cs
    then_keep-IsScored (err e) entry cs k q = absurd (ground arith)
    then_keep-IsScored (ok rest) entry cs k q =
        subst (All IsScored) (ok_injective _ cs q) (keep_entry-IsScored entry rest (k rest refl))

    then_fetched-IsScored :
        (fetched : Result (Option WatchlistCandidate)) (r : Result (List WatchlistCandidate))
        (cs : List WatchlistCandidate)
        → ((rest : List WatchlistCandidate) → r ≡ ok rest → All IsScored rest)
        → then_fetched o a fetched r ≡ ok cs
        → All IsScored cs
    then_fetched-IsScored (err e) r cs k q = absurd (ground arith)
    then_fetched-IsScored (ok entry) r cs k q = then_keep-IsScored r entry cs k q

    fetch_candidates-IsScored :
        (hits : List WatchlistHit) (cs : List WatchlistCandidate)
        → fetch_candidates o a hits ≡ ok cs
        → All IsScored cs
    unfolding fetch_candidates
    fetch_candidates-IsScored [] cs q = subst (All IsScored) (ok_injective [] cs q) tt
    fetch_candidates-IsScored (hit ∷ hits) cs q =
        then_fetched-IsScored (o.fetch_entry hit.list_name hit.entry_id) (fetch_candidates o a hits)
          cs (λ rest e. fetch_candidates-IsScored hits rest e) q

  -- The candidates that `enrich` fetches give `dispose` its fallback evidence, without an exception,
  -- one item for each candidate.
  pub fetch_candidates-evidence :
      (a : ScreeningAlert) (hits : List WatchlistHit) (cs : List WatchlistCandidate)
      → fetch_candidates o a hits ≡ ok cs
      → EvidenceFor o cs
  fetch_candidates-evidence a hits cs q =
      evidence_of-made cs (fetch_candidates-IsScored a hits cs q)
