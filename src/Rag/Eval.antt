-- ===== src/Rag/Eval.antt =====
-- rag/eval.py: precision and recall at k over labelled queries; and rag/factory.py.
use compliance_agent_platfor.Base.{
  ℕ, String, not, List, [], ◌∷◌, map, Option, none, some, length, is_empty, if◌then◌else◌,
}
use compliance_agent_platfor.Base.Float.{Float, zero_float}
use compliance_agent_platfor.Config.{Settings, VectorBackend}
use compliance_agent_platfor.Error.{Result, ok, err, and_then, check, validation_error, value_error}
use compliance_agent_platfor.Rag.Faiss.{FaissVectorStore, Codec, load}
use compliance_agent_platfor.Rag.Ingest.{VectorStore, distinct, is_member}
use compliance_agent_platfor.Rag.Vectors.{Vector, Floats, Faiss}
use compliance_agent_platfor.Schemas.Retrieval.{RetrievedChunk}

pub record RetrievalLabel : Type 0 where
  pub query : String
  pub relevant_chunk_ids : List String

pub record RetrievalEvalRow : Type 0 where
  pub query : String
  pub precision : Float
  pub recall : Float
  pub retrieved_chunk_ids : List String
  pub relevant_chunk_ids : List String

pub record RetrievalEvalReport : Type 0 where
  pub k : ℕ
  pub n_queries : ℕ
  pub mean_precision_at_k : Float
  pub mean_recall_at_k : Float
  pub rows : List RetrievalEvalRow

-- Python's `a / b` of integers, `sum` of floats, a float by an integer, and `sorted` of texts
pub record Means : Type 0 where
  pub true_div : ℕ → ℕ → Float
  pub sum : List Float → Float
  pub div_int : Float → ℕ → Float
  pub sorted : List String → List String

-- `RetrievalLabel.model_validate`, of every item
abbrev pub validate_labels : List RetrievalLabel → Result (List RetrievalLabel)
validate_labels [] = ok []
validate_labels (l ∷ ls) =
    and_then
      (check (not (is_empty l.relevant_chunk_ids)) (validation_error "relevant_chunk_ids") (ok l))
      (λ v. and_then (validate_labels ls) (λ vs. ok (v ∷ vs)))

-- `a & b` of sets
abbrev pub common : List String → List String → List String
common [] ys = []
common (x ∷ xs) ys = let rest = common xs ys in if is_member x ys then x ∷ rest else rest

abbrev chunk_id_of : RetrievedChunk → String
chunk_id_of c = c.chunk_id

abbrev precision_of : RetrievalEvalRow → Float
precision_of r = r.precision

abbrev recall_of : RetrievalEvalRow → Float
recall_of r = r.recall

module _ (m : Means) where
  -- `hits / n if n else 0.0`
  abbrev share : ℕ → List String → Float
  share hits [] = zero_float
  share hits (s ∷ ss) = m.true_div hits (length (s ∷ ss))

  abbrev pub eval_row : RetrievalLabel → List RetrievedChunk → RetrievalEvalRow
  eval_row label retrieved =
      let retrieved_ids = distinct (map chunk_id_of retrieved) in
      let relevant_ids = distinct label.relevant_chunk_ids in
      let hits = length (common retrieved_ids relevant_ids) in
      record {
        query = label.query;
        precision = share hits retrieved_ids;
        recall = share hits relevant_ids;
        retrieved_chunk_ids = m.sorted retrieved_ids;
        relevant_chunk_ids = m.sorted relevant_ids;
      }

  abbrev mean : List Float → Float
  mean [] = zero_float
  mean (x ∷ xs) = m.div_int (m.sum (x ∷ xs)) (length (x ∷ xs))

  abbrev pub eval_report : ℕ → List RetrievalEvalRow → RetrievalEvalReport
  eval_report k rows = record {
    k = k;
    n_queries = length rows;
    mean_precision_at_k = mean (map precision_of rows);
    mean_recall_at_k = mean (map recall_of rows);
    rows = rows;
  }

  module _ (V : VectorStore) (embed_query : String → Result Vector) (k : ℕ) where
    abbrev with_row :
        RetrievalLabel
        → List RetrievedChunk
        → Result (List RetrievalEvalRow) × V.State
        → Result (List RetrievalEvalRow) × V.State
    with_row label retrieved (err e, store) = (err e, store)
    with_row label retrieved (ok rows, store) = (ok (eval_row label retrieved ∷ rows), store)

    abbrev searched :
        RetrievalLabel
        → Result (List RetrievedChunk) × V.State
        → (V.State → Result (List RetrievalEvalRow) × V.State)
        → Result (List RetrievalEvalRow) × V.State
    searched label (err e, store) rest = (err e, store)
    searched label (ok retrieved, store) rest = with_row label retrieved (rest store)

    -- The loop over the labels
    abbrev pub eval_rows : List RetrievalLabel → V.State → Result (List RetrievalEvalRow) × V.State
    eval_rows [] store = (ok [], store)
    eval_rows (l ∷ ls) store = elim (embed_query l.query) [
      | err e ↦ (err e, store)
      | ok embedding ↦ searched l (V.search embedding k store) (λ s. eval_rows ls s)
    ]

    -- `evaluate_retrieval`
    unfoldable pub evaluate_retrieval :
        List RetrievalLabel → V.State → Result RetrievalEvalReport × V.State
    evaluate_retrieval labels store =
        let (r, after) = eval_rows labels store in
        (and_then r (λ rows. ok (eval_report k rows)), after)

-- A store that has been opened: the local one, or one in Postgres.
pub data Opened (F : Faiss) (P : VectorStore) : Type 0 where
  local : FaissVectorStore F → Opened F P
  deployed : P.State → Opened F P

-- `get_vector_store`: `file` is the text of the index file, and `connected` the store on the given
-- connection.
abbrev pub get_vector_store :
    (f : Floats) (F : Faiss) (codec : Codec) (P : VectorStore)
    → Settings
    → Option codec.Text
    → Option P.State
    → Result (Opened F P)
get_vector_store f F codec P settings file connected = elim (settings.vector_backend) [
  | VectorBackend.faiss ↦
      and_then (load f F codec file settings.embedding_dimension) (λ store. ok (local store))
  | VectorBackend.pgvector ↦ elim connected [
    | none ↦ err (value_error "pgvector backend requires a psycopg connection")
    | some store ↦ ok (deployed store)
  ]
]
