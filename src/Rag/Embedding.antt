-- ===== src/Rag/Embedding.antt =====
-- embeddings.py: the deterministic embedding of the offline tests, and the choice of a model.
use compliance_agent_platfor.Base.{
  ℕ, zero, suc, String, ◌≡◌, refl, ap, ◌∙◌, List, [], ◌∷◌, Option, none, some, All, length, truthy,
  if◌then◌else◌,
}
use compliance_agent_platfor.Base.Float.{Float}
use compliance_agent_platfor.Error.{Result, ok}
use compliance_agent_platfor.Rag.Faiss.{normalize}
use compliance_agent_platfor.Rag.Faiss.Invariant.{Fits, normalize-length}
use compliance_agent_platfor.Rag.Ingest.{Embedder}
use compliance_agent_platfor.Rag.Ingest.Built.{Embeds}
use compliance_agent_platfor.Rag.Vectors.{Vector, Floats}

-- An embedding model
pub record EmbeddingModel : Type 0 where
  pub embed_query : String → Result Vector
  pub embed_documents : Embedder

-- `random.Random(sha256(text))`: `draw` is the i-th draw of `uniform(-1.0, 1.0)`.
module _ (f : Floats) (draw : String → ℕ → Float) where
  -- The draws from the i-th on
  abbrev draws : String → ℕ → ℕ → Vector
  draws text i zero = []
  draws text i (suc n) = draw text i ∷ draws text (suc i) n

  -- `_deterministic_vector`
  abbrev pub deterministic_vector : String → ℕ → Vector
  deterministic_vector text dimension = normalize f (draws text 0 dimension)

  abbrev pub embed_all : ℕ → List String → List Vector
  embed_all dimension [] = []
  embed_all dimension (t ∷ ts) = deterministic_vector t dimension ∷ embed_all dimension ts

  -- `_FakeEmbeddings`
  abbrev pub fake_embeddings : ℕ → EmbeddingModel
  fake_embeddings dimension = record {
    embed_query = λ text. ok (deterministic_vector text dimension);
    embed_documents = λ texts. ok (embed_all dimension texts);
  }

  -- `get_embedding_model`, for the value of CAP_FAKE_EMBEDDINGS
  abbrev pub get_embedding_model : Option String → ℕ → EmbeddingModel → EmbeddingModel
  get_embedding_model none dimension bedrock = bedrock
  get_embedding_model (some flag) dimension bedrock =
      if truthy flag then fake_embeddings dimension else bedrock

  length-draws : (text : String) (i n : ℕ) → length (draws text i n) ≡ n
  length-draws text i zero = refl
  length-draws text i (suc n) = ap suc (length-draws text (suc i) n)

  pub deterministic_vector-Fits :
      (text : String) (dimension : ℕ) → Fits dimension (deterministic_vector text dimension)
  deterministic_vector-Fits text dimension =
      normalize-length f (draws text 0 dimension) ∙ length-draws text 0 dimension

  length-embed_all :
      (dimension : ℕ) (texts : List String) → length (embed_all dimension texts) ≡ length texts
  length-embed_all dimension [] = refl
  length-embed_all dimension (t ∷ ts) = ap suc (length-embed_all dimension ts)

  embed_all-Fits :
      (dimension : ℕ) (texts : List String) → All (Fits dimension) (embed_all dimension texts)
  embed_all-Fits dimension [] = tt
  embed_all-Fits dimension (t ∷ ts) =
      (deterministic_vector-Fits t dimension, embed_all-Fits dimension ts)

  -- The fake model gives one vector of its dimension for each text, as the indexing expects.
  pub fake_embeddings-Embeds :
      (dimension : ℕ) → Embeds dimension (fake_embeddings dimension).embed_documents
  fake_embeddings-Embeds dimension texts = (
    embed_all dimension texts,
    refl,
    length-embed_all dimension texts,
    embed_all-Fits dimension texts,
  )
