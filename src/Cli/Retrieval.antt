-- ===== src/Cli/Retrieval.antt =====
-- `cap rag ingest` and then `cap rag search`, with the local store.
use compliance_agent_platfor.Base.{
  ℕ, ◌≤◌, ◌<◌, String, ◌≡◌, refl, sym, ap, ◌∙◌, subst, ◌⊎◌, inl, inr, List, [], ◌∷◌, Option, none,
  some, All, All-map, length,
}
use compliance_agent_platfor.Base.Dict.{lookup-All}
use compliance_agent_platfor.Config.{Settings, VectorBackend}
use compliance_agent_platfor.Cli.{
  Disk, open_vector_store, opened_backend, chosen_backend, ingest_into, ingested_local, written,
  done, backend_name, search_in, cmd_rag_ingest, cmd_rag_search,
}
use compliance_agent_platfor.Error.{Result, ok, and_then}
use compliance_agent_platfor.Guardrails.Unicode.{Unicode}
use compliance_agent_platfor.Rag.Eval.{local}
use compliance_agent_platfor.Rag.Faiss.{FaissVectorStore, Codec, new_store, load, search}
use compliance_agent_platfor.Rag.Faiss.File.{IsCodec, load-RoundTrip}
use compliance_agent_platfor.Rag.Faiss.Invariant.{new_store-IsStore}
use compliance_agent_platfor.Rag.Faiss.Search.{IsStored, search-Answers}
use compliance_agent_platfor.Rag.Ingest.{
  VectorStore, CorpusFile, Embedder, IngestSummary, faiss_store, load_corpus, build_index,
}
use compliance_agent_platfor.Rag.Ingest.Built.{IsReadable, Embeds, build_index-Built}
use compliance_agent_platfor.Rag.Vectors.{Vector, Floats, Faiss, IsFlat}
use compliance_agent_platfor.Schemas.Retrieval.{DocumentChunk, RetrievedChunk}

-- A chunk is one of these.
abbrev pub IsOneOf : List DocumentChunk → DocumentChunk → Type 0
IsOneOf [] c = ⊥
IsOneOf (d ∷ ds) c = (c ≡ d) ⊎ IsOneOf ds c

all-IsOneOf : (cs : List DocumentChunk) → All (IsOneOf cs) cs
all-IsOneOf [] = tt
all-IsOneOf (c ∷ cs) =
    (inl refl, All-map (IsOneOf cs) (IsOneOf (c ∷ cs)) cs (λ d i. inr i) (all-IsOneOf cs))

module _ (f : Floats) (F : Faiss) (codec : Codec) (P : VectorStore)
    (connect : P.State → Result P.State) (u : Unicode) (embed_documents : Embedder)
    (corpus : String → List CorpusFile) (embed_query : String → Result Vector) (settings : Settings)
    (backend : Option VectorBackend) where
  -- The corpus was ingested and then searched: both commands printed, with exit code 0.
  pub record Served (disk : Disk f F codec P connect) (query : String) (k : ℕ) : Type 1 where
    pub summary : IngestSummary
    pub after : Disk f F codec P connect
    pub chunks : List DocumentChunk
    pub results : List RetrievedChunk
    pub ingested :
        cmd_rag_ingest f F codec P connect u embed_documents corpus settings backend none disk
        ≡ (ok (record { printed = summary; code = 0 }), after)
    pub loaded : load_corpus u (corpus settings.regulatory_corpus_dir) ≡ ok chunks
    pub counted : summary.chunks ≡ length chunks
    pub searched :
        cmd_rag_search f F codec P connect embed_query settings backend query k after
        ≡ ok (record { printed = results; code = 0 })
    pub few : length results ≤ k
    pub from_corpus : All (λ (r : RetrievedChunk). IsOneOf chunks r.chunk) results

  module _ (laws : IsFlat F) (json : IsCodec codec)
      (chosen : chosen_backend backend settings.vector_backend ≡ VectorBackend.faiss) where
    open-local :
        (disk : Disk f F codec P connect) (store : FaissVectorStore F)
        → load f F codec disk.file settings.embedding_dimension ≡ ok store
        → open_vector_store f F codec P connect backend settings disk ≡ ok (local store)
    open-local disk store e =
        ap (λ b. opened_backend f F codec P connect b settings disk) chosen
        ∙ ap (λ r. and_then r (λ s. ok (local s))) e

    -- Without an index file, with a corpus that can be read, an embedding model that gives vectors of
    -- the configured dimension, and k above 0: `rag ingest` prints the number of the corpus's chunks,
    -- `rag search` prints at most k chunks, all of the corpus, and both exit with 0.
    pub ingest-Served :
        (disk : Disk f F codec P connect) (query : String) (embedding : Vector) (k : ℕ)
        → disk.file ≡ none
        → All IsReadable (corpus settings.regulatory_corpus_dir)
        → Embeds settings.embedding_dimension embed_documents
        → embed_query query ≡ ok embedding
        → length embedding ≡ settings.embedding_dimension
        → 0 < k
        → Served disk query k
    unfolding cmd_rag_ingest cmd_rag_search load
    ingest-Served disk query embedding k no_file readable embeds embedded fit positive =
        let d = settings.embedding_dimension in
        let files = corpus settings.regulatory_corpus_dir in
        let name = backend_name (chosen_backend backend settings.vector_backend) in
        let store = new_store f F d in
        let r = build_index u (faiss_store f F) embed_documents name files store in
        let b =
          build_index-Built u f F laws embed_documents name store embeds
            (record { sound = new_store-IsStore F laws f d; no_index = refl; texts = tt }) files
            readable in
        let t =
          load-RoundTrip f F laws codec json r.1 b.usable.sound b.usable.no_index b.usable.texts in
        let after : Disk f F codec P connect = record disk { file = some t.text } in
        let a =
          search-Answers f F laws t.again embedding k t.sound
            (fit ∙ sym (t.same_dimension ∙ b.same_dimension)) positive in
        let only = b.only (IsOneOf b.chunks) (all-IsOneOf b.chunks) tt in
        let held =
          subst (All (λ (e : String × DocumentChunk). IsOneOf b.chunks e.1)) (sym t.same_chunks)
            only in
        record {
          summary = b.summary;
          after = after;
          chunks = b.chunks;
          results = a.results;
          ingested =
              ap (λ o. ingest_into f F codec P connect u embed_documents corpus name files o disk)
                (open-local disk store (ap (λ o. load f F codec o d) no_file))
              ∙ ap (λ x. ingested_local f F codec P connect u embed_documents corpus (x, r.1) disk)
                  b.returned
              ∙ ap (λ x. written f F codec P connect u embed_documents corpus x b.summary disk)
                  t.saved;
          loaded = b.loaded;
          counted = b.counted;
          searched =
              ap
                (λ o. and_then o (λ s. and_then (embed_query query) (λ e.
                  and_then (search_in f F codec P connect embed_query e k s) (λ rs. ok (done rs)))))
                (open-local after t.again
                  (ap (λ n. load f F codec (some t.text) n) (sym b.same_dimension) ∙ t.loaded))
              ∙ ap (λ o. and_then o (λ e. and_then (search f F e k t.again).0 (λ rs. ok (done rs))))
                  embedded
              ∙ ap (λ p. and_then p.0 (λ rs. ok (done rs))) a.returned;
          few = a.few;
          from_corpus =
              All-map (IsStored f F laws t.again.chunks)
                (λ (r : RetrievedChunk). IsOneOf b.chunks r.chunk) a.results
                (λ r s.
                  lookup-All (λ (e : String × DocumentChunk). IsOneOf b.chunks e.1) r.chunk.chunk_id
                    r.chunk t.again.chunks held s)
                a.stored;
        }
