-- ===== src/Rag/Ingest/Built.antt =====
-- The corpus, indexed in a `FaissVectorStore`: parser, embedder and store together.
use compliance_agent_platfor.Base.{
  ℕ, String, ◌≡◌, ◌≢◌, refl, sym, ◌∙◌, subst, true, List, [], ◌∷◌, ◌++◌, map, none, All, All-map,
  All-append, length, arith, truthy, eq_refl,
}
use compliance_agent_platfor.Base.Dict.{Dict, lookup, insert-All, lookup-insert}
use compliance_agent_platfor.Error.{Result, ok, err}
use compliance_agent_platfor.Guardrails.Unicode.{Unicode}
use compliance_agent_platfor.Rag.Corpus.Blocks.{IsChunk, parse_corpus_file-Parses}
use compliance_agent_platfor.Rag.Faiss.{FaissVectorStore, put_chunk, upsert}
use compliance_agent_platfor.Rag.Faiss.File.{HasText}
use compliance_agent_platfor.Rag.Faiss.Invariant.{IsStore, Fits, upsert-IsStore, length-map}
use compliance_agent_platfor.Rag.Ingest.{
  CorpusFile, Embedder, IngestSummary, VectorStore, faiss_store, load_corpus, build_index,
  index_chunks, embedded, indexed, text_of,
}
use compliance_agent_platfor.Rag.Vectors.{Vector, Floats, Faiss, IsFlat}
use compliance_agent_platfor.Schemas.Retrieval.{DocumentChunk}

abbrev pub IsReadable : CorpusFile → Type 0
IsReadable file = (text : String) × (file.1 ≡ ok text)

-- A chunk that can be indexed
abbrev HasBody : DocumentChunk → Type 0
HasBody c = truthy c.text ≡ true

-- An embedding model gives one vector of its dimension for each text.
abbrev pub Embeds : ℕ → Embedder → Type 0
Embeds d embed =
    (texts : List String)
    → (vs : List Vector) × (embed texts ≡ ok vs) × (length vs ≡ length texts) × All (Fits d) vs

-- A dict has no other chunks than these and those that another one has.
abbrev pub OnlyFrom : List DocumentChunk → Dict DocumentChunk → Dict DocumentChunk → Type 1
OnlyFrom cs before after =
    (P : DocumentChunk → Type 0)
    → All P cs
    → All (λ (e : String × DocumentChunk). P e.1) before
    → All (λ (e : String × DocumentChunk). P e.1) after

module _ (f : Floats) (F : Faiss) where
  -- What an upsert of as many vectors as chunks does
  record Upserted (store : FaissVectorStore F) (cs : List DocumentChunk)
      (r : Result (Unit {0}) × FaissVectorStore F) : Type 1 where
    done : r.0 ≡ ok tt
    no_index : r.1.index ≡ none
    same_dimension : r.1.dimension ≡ store.dimension
    texts : All HasText r.1.chunks
    found : All (λ (c : DocumentChunk). lookup c.chunk_id r.1.chunks ≢ none) cs
    only : OnlyFrom cs store.chunks r.1.chunks
    kept : (k : String) → lookup k store.chunks ≢ none → lookup k r.1.chunks ≢ none

  upsert-Upserted :
      (cs : List DocumentChunk) (es : List Vector) (store : FaissVectorStore F)
      → length es ≡ length cs
      → All HasBody cs
      → All HasText store.chunks
      → Upserted store cs (upsert f F cs es store)
  unfolding upsert
  upsert-Upserted [] [] store e b t = record {
    done = refl;
    no_index = refl;
    same_dimension = refl;
    texts = t;
    found = tt;
    only = λ P a b. b;
    kept = λ k p. p;
  }
  upsert-Upserted [] (v ∷ es) store e b t = absurd (omega (arith, e))
  upsert-Upserted (c ∷ cs) [] store e b t = absurd (omega (arith, e))
  upsert-Upserted (c ∷ cs) (v ∷ es) store e b t =
      let next = put_chunk f F c v store in
      let i =
        upsert-Upserted cs es next (omega (arith, e)) b.1
          (insert-All HasText c.chunk_id c store.chunks b.0 t) in
      record {
        done = i.done;
        no_index = i.no_index;
        same_dimension = i.same_dimension;
        texts = i.texts;
        only = λ P a b.
            i.only P a.1
              (insert-All (λ (e : String × DocumentChunk). P e.1) c.chunk_id c store.chunks a.0 b);
        found = (
          i.kept c.chunk_id (λ q.
              ground
                (arith, q, lookup-insert c.chunk_id c.chunk_id c store.chunks, eq_refl c.chunk_id)),
          i.found,
        );
        kept =
            λ k p. i.kept k (λ q. ground (arith, p, q, lookup-insert k c.chunk_id c store.chunks));
      }

module _ (u : Unicode) where
  -- The corpus loads, if its files can be read.
  load_corpus-loads :
      (files : List CorpusFile)
      → All IsReadable files
      → (cs : List DocumentChunk) × (load_corpus u files ≡ ok cs) × All HasBody cs
  unfolding load_corpus
  load_corpus-loads [] a = ([], refl, tt)
  load_corpus-loads (file ∷ files) a =
      let p = parse_corpus_file-Parses u file.0 a.0.0 in
      let (cs, e, b) = load_corpus-loads files a.1 in
      (
        p.chunks ++ cs,
        rw (a.0.1, p.returned, e) refl,
        All-append HasBody p.chunks cs
            (All-map (IsChunk u file.0 _) HasBody p.chunks (λ c i. ground (arith, i.valid))
              p.are_chunks)
            b,
      )

  module _ (f : Floats) (F : Faiss) (laws : IsFlat F) where
    -- A store that can be saved and searched
    pub record IsUsable (store : FaissVectorStore F) : Type 0 where
      pub sound : IsStore F laws store
      pub no_index : store.index ≡ none
      pub texts : All HasText store.chunks

    -- The corpus was indexed: the summary counts its chunks, and each has its entry in the store.
    pub record Built (store : FaissVectorStore F) (r : Result IngestSummary × FaissVectorStore F)
        (files : List CorpusFile) : Type 1 where
      pub summary : IngestSummary
      pub chunks : List DocumentChunk
      pub loaded : load_corpus u files ≡ ok chunks
      pub returned : r.0 ≡ ok summary
      pub counted : summary.chunks ≡ length chunks
      pub usable : IsUsable r.1
      pub found : All (λ (c : DocumentChunk). lookup c.chunk_id r.1.chunks ≢ none) chunks
      pub same_dimension : r.1.dimension ≡ store.dimension
      pub only : OnlyFrom chunks store.chunks r.1.chunks

    module _ (embed : Embedder) (backend : String) (store : FaissVectorStore F)
        (embeds : Embeds store.dimension embed) (ready : IsUsable store) where
      abbrev V : VectorStore
      V = faiss_store f F

      indexed-Built :
          (files : List CorpusFile) (cs : List DocumentChunk)
          (r : Result (Unit {0}) × FaissVectorStore F)
          → load_corpus u files ≡ ok cs
          → r.0 ≡ ok tt
          → IsUsable r.1
          → r.1.dimension ≡ store.dimension
          → OnlyFrom cs store.chunks r.1.chunks
          → All (λ (c : DocumentChunk). lookup c.chunk_id r.1.chunks ≢ none) cs
          → Built store (indexed u V embed backend cs r) files
      indexed-Built files cs (err e, after) loaded done usable same only found =
          absurd (ground (arith, done))
      indexed-Built files cs (ok done, after) loaded _ usable same only found = record {
        summary = _;
        chunks = cs;
        loaded = loaded;
        returned = refl;
        counted = refl;
        usable = usable;
        found = found;
        same_dimension = same;
        only = only;
      }

      index_chunks-Built :
          (files : List CorpusFile) (cs : List DocumentChunk)
          → load_corpus u files ≡ ok cs
          → All HasBody cs
          → Built store (index_chunks u V embed backend (ok cs) store) files
      index_chunks-Built files [] loaded b = record {
        summary = _;
        chunks = [];
        loaded = loaded;
        returned = refl;
        counted = refl;
        usable = ready;
        found = tt;
        same_dimension = refl;
        only = λ P a b. b;
      }
      index_chunks-Built files (c ∷ cs) loaded b =
          let (vs, made, count, fit) = embeds (map text_of (c ∷ cs)) in
          let i =
            upsert-Upserted f F (c ∷ cs) vs store (count ∙ length-map text_of (c ∷ cs)) b
              ready.texts in
          let sound = upsert-IsStore F laws f (c ∷ cs) vs store fit ready.sound in
          subst (λ r. Built store (embedded u V embed backend (c ∷ cs) r store) files) (sym made)
            (indexed-Built files (c ∷ cs) (upsert f F (c ∷ cs) vs store) loaded i.done
              (record { sound = sound; no_index = i.no_index; texts = i.texts }) i.same_dimension
              i.only i.found)

      -- A corpus whose files can be read is indexed: `build_index` returns its summary, which counts the
      -- chunks, every chunk has its entry in the store, and the store is one that can be saved and
      -- searched.
      pub build_index-Built :
          (files : List CorpusFile)
          → All IsReadable files
          → Built store (build_index u V embed backend files store) files
      unfolding build_index
      build_index-Built files a =
          let (cs, e, b) = load_corpus-loads files a in
          subst (λ r. Built store (index_chunks u V embed backend r store) files) (sym e)
            (index_chunks-Built files cs e b)
