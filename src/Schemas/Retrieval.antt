-- ===== src/Schemas/Retrieval.antt =====
-- schemas/retrieval.py: corpus chunks, and the bundle that the `retrieve` node writes.
use compliance_agent_platfor.Base.{ℕ, String, List, [], ◌∷◌, Bool, true, ◌&&◌, Option, truthy}
use compliance_agent_platfor.Base.Float.{Float}
use compliance_agent_platfor.Error.{Result, ok, validation_error, check}

pub record DocumentMetadata : Type 0 where
  pub document_id : String
  pub title : String
  pub program : String
  pub section : Option String
  pub citation : Option String
  pub compliance_level : Option String

pub record DocumentChunk : Type 0 where
  pub chunk_id : String
  pub document_id : String
  pub chunk_index : ℕ
  pub text : String
  pub metadata : DocumentMetadata

-- `RetrievedChunk(DocumentChunk)`
pub record RetrievedChunk : Type 0 where
  pub chunk : DocumentChunk
  pub open chunk use *
  pub score : Float

pub record RetrievalBundle : Type 0 where
  pub query : String
  pub chunks : List RetrievedChunk

-- `text: str = Field(min_length=1)` of every chunk
abbrev pub texts_ok : List RetrievedChunk → Bool
texts_ok [] = true
texts_ok (c ∷ cs) = truthy c.text && texts_ok cs

-- `RetrievalBundle.model_validate`
unfoldable pub validate_retrieval : RetrievalBundle → Result RetrievalBundle
validate_retrieval b = check (texts_ok b.chunks) (validation_error "chunks.text") (ok b)
