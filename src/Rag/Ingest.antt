-- ===== src/Rag/Ingest.antt =====
-- rag/base.py, rag/ingest.py: the interface of the stores, and the indexing of the corpus.
pub mod Built
use compliance_agent_platfor.Base.{
  ℕ, String, Bool, true, false, ◌||◌, List, [], ◌∷◌, ◌++◌, map, length, str_eq, if◌then◌else◌,
}
use compliance_agent_platfor.Error.{Result, ok, err, and_then}
use compliance_agent_platfor.Guardrails.Unicode.{Unicode}
use compliance_agent_platfor.Rag.Corpus.{parse_corpus_file}
use compliance_agent_platfor.Rag.Faiss.{FaissVectorStore, upsert, search}
use compliance_agent_platfor.Rag.Vectors.{Vector, Floats, Faiss}
use compliance_agent_platfor.Schemas.Retrieval.{DocumentChunk, RetrievedChunk}

-- `VectorStore`
pub record VectorStore : Type 1 where
  pub State : Type 0
  pub upsert : List DocumentChunk → List Vector → State → Result (Unit {0}) × State
  pub search : Vector → ℕ → State → Result (List RetrievedChunk) × State

abbrev pub faiss_store : Floats → Faiss → VectorStore
faiss_store f F = record { State = FaissVectorStore F; upsert = upsert f F; search = search f F }

-- A file of the corpus: its stem, and what reading it gives
abbrev pub CorpusFile : Type 0
CorpusFile = String × Result String

pub record IngestSummary : Type 0 where
  pub documents : ℕ
  pub chunks : ℕ
  pub backend : String

-- `embed_documents` of an embedding model
abbrev pub Embedder : Type 0
Embedder = List String → Result (List Vector)

abbrev pub is_member : String → List String → Bool
is_member s [] = false
is_member s (t ∷ ts) = str_eq s t || is_member s ts

-- The members of a set, of the list that it is made of
abbrev pub distinct : List String → List String
distinct [] = []
distinct (s ∷ ss) = let rest = distinct ss in if is_member s rest then rest else s ∷ rest

abbrev pub document_id_of : DocumentChunk → String
document_id_of c = c.document_id

abbrev pub text_of : DocumentChunk → String
text_of c = c.text

module _ (u : Unicode) where
  -- `load_corpus`, of the files `*.txt` in the order of their paths
  unfoldable pub load_corpus : List CorpusFile → Result (List DocumentChunk)
  load_corpus [] = ok []
  load_corpus (file ∷ files) = and_then (file.1) (λ text.
      and_then (parse_corpus_file u file.0 text)
        (λ chunks. and_then (load_corpus files) (λ more. ok (chunks ++ more))))

  module _ (V : VectorStore) (embed_documents : Embedder) (backend : String) where
    abbrev pub indexed :
        List DocumentChunk → Result (Unit {0}) × V.State → Result IngestSummary × V.State
    indexed chunks (err e, after) = (err e, after)
    indexed chunks (ok done, after) = (
      ok (record {
        documents = length (distinct (map document_id_of chunks));
        chunks = length chunks;
        backend = backend;
      }),
      after,
    )

    abbrev pub embedded :
        List DocumentChunk → Result (List Vector) → V.State → Result IngestSummary × V.State
    embedded chunks (err e) store = (err e, store)
    embedded chunks (ok embeddings) store = indexed chunks (V.upsert chunks embeddings store)

    abbrev pub index_chunks : Result (List DocumentChunk) → V.State → Result IngestSummary × V.State
    index_chunks (err e) store = (err e, store)
    index_chunks (ok []) store =
        (ok (record { documents = 0; chunks = 0; backend = backend }), store)
    index_chunks (ok (c ∷ cs)) store =
        embedded (c ∷ cs) (embed_documents (map text_of (c ∷ cs))) store

    -- `build_index`
    unfoldable pub build_index : List CorpusFile → V.State → Result IngestSummary × V.State
    build_index files store = index_chunks (load_corpus files) store
