-- ===== src/Rag/Pgvector.antt =====
-- rag/pgvector_store.py: the table `document_chunks`, and that it holds what the local store holds.
use compliance_agent_platfor.Base.{
  ℕ, zero, suc, String, ◌≡◌, refl, ap, ◌∙◌, Bool, true, List, [], ◌∷◌, arith, if◌then◌else◌,
}
use compliance_agent_platfor.Base.Dict.{Dict, insert}
use compliance_agent_platfor.Base.Float.{Float}
use compliance_agent_platfor.Error.{Result, ok, err, value_error, external}
use compliance_agent_platfor.Rag.Faiss.{FaissVectorStore, put_chunk, upsert}
use compliance_agent_platfor.Rag.Ingest.{VectorStore}
use compliance_agent_platfor.Rag.Vectors.{Vector, Floats, Faiss}
use compliance_agent_platfor.Schemas.Retrieval.{DocumentChunk, RetrievedChunk}

-- A row: the columns of the chunk, and its embedding
pub record ChunkRow : Type 0 where
  pub chunk : DocumentChunk
  pub embedding : Vector

-- The table by its primary key `chunk_id`, as the open transaction sees it and as it was committed.
pub record Table : Type 0 where
  pub seen : Dict ChunkRow
  pub committed : Dict ChunkRow

-- What Postgres and pgvector decide: whether a value fits the column, the rows in the order of
-- `embedding <=> query`, and `1 - (embedding <=> query)`.
pub record Postgres : Type 0 where
  pub fits_column : Vector → Bool
  pub nearest : Vector → List ChunkRow → List ChunkRow
  pub similarity : Vector → Vector → Float

abbrev rows_in : Dict ChunkRow → List ChunkRow
rows_in [] = []
rows_in (e ∷ d) = e.1 ∷ rows_in d

abbrev limit : ℕ → List ChunkRow → List ChunkRow
limit zero rows = []
limit (suc k) [] = []
limit (suc k) (r ∷ rs) = r ∷ limit k rs

-- `INSERT ... ON CONFLICT (chunk_id) DO UPDATE`
abbrev pub put_row : DocumentChunk → Vector → Table → Table
put_row c e t = record t { seen = insert c.chunk_id (record { chunk = c; embedding = e }) t.seen }

module _ (db : Postgres) where
  -- `PgVectorStore.upsert`: the commit comes last.
  unfoldable pub pg_upsert : List DocumentChunk → List Vector → Table → Result (Unit {0}) × Table
  pg_upsert [] [] t = (ok tt, record t { committed = t.seen })
  pg_upsert [] (e ∷ es) t = (err (value_error "zip() argument 2 is longer than argument 1"), t)
  pg_upsert (c ∷ cs) [] t = (err (value_error "zip() argument 2 is shorter than argument 1"), t)
  pg_upsert (c ∷ cs) (e ∷ es) t =
      let rest = pg_upsert cs es (put_row c e t) in
      if db.fits_column e then rest else (err (external "DataException"), t)

  abbrev scored : Vector → List ChunkRow → List RetrievedChunk
  scored q [] = []
  scored q (r ∷ rs) = record { chunk = r.chunk; score = db.similarity r.embedding q } ∷ scored q rs

  -- `PgVectorStore.search`
  unfoldable pub pg_search : Vector → ℕ → Table → Result (List RetrievedChunk) × Table
  pg_search q k t = (ok (scored q (limit k (db.nearest q (rows_in t.seen)))), t)

  abbrev pub pg_store : VectorStore
  pg_store = record { State = Table; upsert = pg_upsert; search = pg_search }

  -- The chunks of the table
  abbrev pub chunks_in : Dict ChunkRow → Dict DocumentChunk
  chunks_in [] = []
  chunks_in (e ∷ d) = (e.0, e.1.chunk) ∷ chunks_in d

  chunks_in-insert :
      (k : String) (r : ChunkRow) (d : Dict ChunkRow)
      → chunks_in (insert k r d) ≡ insert k r.chunk (chunks_in d)
  unfolding insert
  chunks_in-insert k r [] = refl
  chunks_in-insert k r (e ∷ d) = ground (arith, chunks_in-insert k r d)

  abbrev FitColumn : List Vector → Type 0
  FitColumn [] = Unit
  FitColumn (e ∷ es) = (db.fits_column e ≡ true) × FitColumn es

  -- An upsert of vectors that fit the column returns or raises as it does in the local store, and
  -- leaves the same chunks.
  pub pg_upsert-upsert :
      (f : Floats) (F : Faiss) (cs : List DocumentChunk) (es : List Vector) (t : Table)
      (store : FaissVectorStore F)
      → FitColumn es
      → chunks_in t.seen ≡ store.chunks
      → ((pg_upsert cs es t).0 ≡ (upsert f F cs es store).0)
        × (chunks_in (pg_upsert cs es t).1.seen ≡ (upsert f F cs es store).1.chunks)
  unfolding pg_upsert upsert
  pg_upsert-upsert f F [] [] t store fit e = (refl, e)
  pg_upsert-upsert f F [] (v ∷ es) t store fit e = (refl, e)
  pg_upsert-upsert f F (c ∷ cs) [] t store fit e = (refl, e)
  pg_upsert-upsert f F (c ∷ cs) (v ∷ es) t store fit e = rw fit.0 (
      pg_upsert-upsert f F cs es (put_row c v t) (put_chunk f F c v store) fit.1 (
        chunks_in-insert c.chunk_id (record { chunk = c; embedding = v }) t.seen
        ∙ ap (insert c.chunk_id c) e))
