-- ===== src/Rag/Faiss.antt =====
-- rag/faiss_store.py: `FaissVectorStore`, its operations as functions on its state.
pub mod Invariant
pub mod Search
pub mod File
use compliance_agent_platfor.Base.{
  ℕ, zero, suc, String, ◌≡◌, Bool, true, false, not, List, [], ◌∷◌, map, Option, none, some, length,
  leb, is_empty, truthy, if◌then◌else◌,
}
use compliance_agent_platfor.Base.Dict.{Dict, keys, lookup, insert}
use compliance_agent_platfor.Base.Float.{Float, one_float}
use compliance_agent_platfor.Error.{
  Result, ok, err, and_then, value_error, key_error, validation_error, external, check,
}
use compliance_agent_platfor.Rag.Vectors.{Vector, Floats, Faiss}
use compliance_agent_platfor.Schemas.Retrieval.{DocumentChunk, RetrievedChunk}

-- `_normalize`
abbrev pub normalize : Floats → Vector → Vector
normalize f vector =
    let root = f.sqrt (f.sum (map (λ v. f.mul v v) vector)) in
    let norm = if f.is_zero root then one_float else root in map (λ v. f.div v norm) vector

-- One member of the file's object
pub record Entry : Type 0 where
  pub chunk : DocumentChunk
  pub vector : Vector

-- `json.dumps` and `json.loads` of the file's object, and the texts between them
pub record Codec : Type 1 where
  pub Text : Type 0
  pub dumps : Dict Entry → Text
  pub loads : Text → Result (Dict Entry)

pub record FaissVectorStore (F : Faiss) : Type 0 where
  pub dimension : ℕ
  pub chunks : Dict DocumentChunk
  pub vectors : Dict Vector
  pub index : Option F.Index
  pub ids : List String

-- `d[k]`
abbrev pub found_item {ℓ} : {V : Type ℓ} → String → Option V → Result V
found_item k none = err (key_error k)
found_item k (some v) = ok v

abbrev pub item {ℓ} : {V : Type ℓ} → String → Dict V → Result V
item k d = found_item k (lookup k d)

-- `xs[i]`, of a position that is not negative
abbrev pub at_position {ℓ} : {A : Type ℓ} → List A → ℕ → Result A
at_position [] i = err (external "IndexError")
at_position (x ∷ xs) zero = ok x
at_position (x ∷ xs) (suc i) = at_position xs i

abbrev pub min : ℕ → ℕ → ℕ
min a b = if leb a b then a else b

-- `DocumentChunk.model_validate` of what `model_dump` gave
abbrev pub validate_chunk : DocumentChunk → Result DocumentChunk
validate_chunk c = check (truthy c.text) (validation_error "text") (ok c)

module _ (f : Floats) (F : Faiss) where
  -- `FaissVectorStore(dimension)`
  abbrev pub new_store : ℕ → FaissVectorStore F
  new_store dimension = record {
    dimension = dimension;
    chunks = [];
    vectors = [];
    index = none;
    ids = [];
  }

  abbrev pub put_chunk : DocumentChunk → Vector → FaissVectorStore F → FaissVectorStore F
  put_chunk chunk embedding store = record store {
    chunks = insert chunk.chunk_id chunk store.chunks;
    vectors = insert chunk.chunk_id (normalize f embedding) store.vectors;
  }

  abbrev invalidate : FaissVectorStore F → FaissVectorStore F
  invalidate store = record store { index = none }

  -- `upsert`: `zip(..., strict=True)` raises when one list ends before the other, behind the pairs
  -- that there are and before the index is invalidated.
  unfoldable pub upsert :
      List DocumentChunk → List Vector → FaissVectorStore F → Result (Unit {0}) × FaissVectorStore F
  upsert [] [] store = (ok tt, invalidate store)
  upsert [] (e ∷ es) store = (err (value_error "zip() argument 2 is longer than argument 1"), store)
  upsert (c ∷ cs) [] store =
      (err (value_error "zip() argument 2 is shorter than argument 1"), store)
  upsert (c ∷ cs) (e ∷ es) store = upsert cs es (put_chunk c e store)

  -- `[self._vectors[i] for i in self._ids]`, in float32
  abbrev pub rows_of : Dict Vector → List String → Result (List Vector)
  rows_of vectors [] = ok []
  rows_of vectors (id ∷ ids) =
      and_then (item id vectors)
        (λ v. and_then (rows_of vectors ids) (λ vs. ok (map f.float32 v ∷ vs)))

  abbrev pub build : ℕ → Dict Vector → List String → Result F.Index
  build dimension vectors [] = ok (F.index_flat_ip dimension)
  build dimension vectors (id ∷ ids) =
      and_then (rows_of vectors (id ∷ ids)) (λ m. F.add (F.index_flat_ip dimension) m)

  -- `_ids` is set before the index is built.
  abbrev pub with_index : Result F.Index → FaissVectorStore F → Result F.Index × FaissVectorStore F
  with_index (ok x) store = (ok x, record store { index = some x })
  with_index (err e) store = (err e, store)

  abbrev pub rebuild : FaissVectorStore F → Result F.Index × FaissVectorStore F
  rebuild store =
      let ids = keys store.chunks in
      with_index (build store.dimension store.vectors ids) (record store { ids = ids })

  abbrev pub index_or : Option F.Index → FaissVectorStore F → Result F.Index × FaissVectorStore F
  index_or (some x) store = (ok x, store)
  index_or none store = rebuild store

  -- `_ensure_index`
  abbrev pub ensure_index : FaissVectorStore F → Result F.Index × FaissVectorStore F
  ensure_index store = index_or (store.index) store

  -- The loop over scores and positions
  abbrev pub collect : FaissVectorStore F → List (Float × Option ℕ) → Result (List RetrievedChunk)
  collect store [] = ok []
  collect store ((score, none) ∷ hits) = collect store hits
  collect store ((score, some position) ∷ hits) = and_then (at_position store.ids position) (λ id.
      and_then (item id store.chunks) (λ chunk.
        and_then (collect store hits)
          (λ found. ok (record { chunk = chunk; score = score } ∷ found))))

  abbrev pub search_index : FaissVectorStore F → F.Index → Vector → ℕ → Result (List RetrievedChunk)
  search_index store x embedding k =
      if is_empty store.ids
      then ok []
      else and_then (F.search x (map f.float32 (normalize f embedding)) (min k (length store.ids)))
          (λ hits. collect store hits)

  -- `search`: the answer, and the store with its index.
  unfoldable pub search :
      Vector → ℕ → FaissVectorStore F → Result (List RetrievedChunk) × FaissVectorStore F
  search embedding k store =
      let (r, after) = ensure_index store in
      (and_then r (λ x. search_index after x embedding k), after)

  abbrev pub entries : Dict Vector → Dict DocumentChunk → Result (Dict Entry)
  entries vectors [] = ok []
  entries vectors (c ∷ cs) = and_then (item c.0 vectors) (λ v.
      and_then (entries vectors cs) (λ es. ok ((c.0, record { chunk = c.1; vector = v }) ∷ es)))

  -- The loop over the file's object
  abbrev pub restore : Dict Entry → FaissVectorStore F → Result (FaissVectorStore F)
  restore [] store = ok store
  restore (e ∷ es) store = and_then (validate_chunk e.1.chunk) (λ chunk. restore es (record store {
    chunks = insert e.0 chunk store.chunks;
    vectors = insert e.0 e.1.vector store.vectors;
  }))

  module _ (codec : Codec) where
    -- `save`: the text of the file.
    unfoldable pub save : FaissVectorStore F → Result codec.Text
    save store = and_then (entries store.vectors store.chunks) (λ es. ok (codec.dumps es))

    -- `load`, of the file's text, if there is a file.
    unfoldable pub load : Option codec.Text → ℕ → Result (FaissVectorStore F)
    load none dimension = ok (new_store dimension)
    load (some text) dimension =
        and_then (codec.loads text) (λ es. restore es (new_store dimension))
