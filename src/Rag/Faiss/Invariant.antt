-- ===== src/Rag/Faiss/Invariant.antt =====
-- What holds of every store that `FaissVectorStore` builds: its dicts agree, and its index, if it
-- has one, names stored chunks.
use compliance_agent_platfor.Base.{
  ℕ, suc, String, ◌≡◌, ◌≢◌, refl, ap, ◌∙◌, List, [], ◌∷◌, map, Option, none, some, All, All-map,
  length, arith,
}
use compliance_agent_platfor.Base.Dict.{
  Dict, keys, lookup, insert, NodupKeys, insert-NodupKeys, insert-All, keys-insert, lookup-insert,
}
use compliance_agent_platfor.Rag.Vectors.{Vector, Floats, Faiss, IsFlat}
use compliance_agent_platfor.Rag.Faiss.{FaissVectorStore, new_store, normalize, put_chunk, upsert}
use compliance_agent_platfor.Schemas.Retrieval.{DocumentChunk}

pub length-map {ℓ κ} :
    {A : Type ℓ} {B : Type κ} (g : A → B) (xs : List A) → length (map g xs) ≡ length xs
length-map g [] = refl
length-map g (x ∷ xs) = ap suc (length-map g xs)

pub normalize-length : (f : Floats) (v : Vector) → length (normalize f v) ≡ length v
normalize-length f v = length-map _ v

abbrev pub Fits : ℕ → Vector → Type 0
Fits d v = length v ≡ d

module _ (F : Faiss) (laws : IsFlat F) where
  -- The index stands for as many vectors as there are ids, and each id is one of a stored chunk.
  abbrev pub IsIndexed : ℕ → Dict DocumentChunk → List String → Option F.Index → Type 0
  IsIndexed d chunks ids none = Unit
  IsIndexed d chunks ids (some x) =
      laws.Holds x d (length ids) × All (λ id. lookup id chunks ≢ none) ids

  pub record IsStore (store : FaissVectorStore F) : Type 0 where
    pub same_keys : keys store.chunks ≡ keys store.vectors
    pub chunks_once : NodupKeys store.chunks
    pub vectors_once : NodupKeys store.vectors
    pub named : All (λ (e : String × DocumentChunk). e.1.chunk_id ≡ e.0) store.chunks
    pub fitting : All (λ (e : String × Vector). Fits store.dimension e.1) store.vectors
    pub indexed : IsIndexed store.dimension store.chunks store.ids store.index

  pub new_store-IsStore : (f : Floats) (d : ℕ) → IsStore (new_store f F d)
  new_store-IsStore f d = record {
    same_keys = refl;
    chunks_once = tt;
    vectors_once = tt;
    named = tt;
    fitting = tt;
    indexed = tt;
  }

  still_found :
      (k j : String) (c : DocumentChunk) (d : Dict DocumentChunk)
      → lookup j d ≢ none
      → lookup j (insert k c d) ≢ none
  still_found k j c d p q = ground (arith, p, q, lookup-insert j k c d)

  IsIndexed-insert :
      (d : ℕ) (chunks : Dict DocumentChunk) (ids : List String) (o : Option F.Index) (k : String)
      (c : DocumentChunk)
      → IsIndexed d chunks ids o
      → IsIndexed d (insert k c chunks) ids o
  IsIndexed-insert d chunks ids none k c i = tt
  IsIndexed-insert d chunks ids (some x) k c i = (
    i.0,
    All-map (λ id. lookup id chunks ≢ none) (λ id. lookup id (insert k c chunks) ≢ none) ids
        (λ id p. still_found k id c chunks p) i.1,
  )

  module _ (f : Floats) where
    pub put_chunk-IsStore :
        (store : FaissVectorStore F) (c : DocumentChunk) (e : Vector)
        → Fits store.dimension e
        → IsStore store
        → IsStore (put_chunk f F c e store)
    put_chunk-IsStore store c e fit s = record {
      same_keys = keys-insert c.chunk_id c (normalize f e) store.chunks store.vectors s.same_keys;
      chunks_once = insert-NodupKeys c.chunk_id c store.chunks s.chunks_once;
      vectors_once = insert-NodupKeys c.chunk_id (normalize f e) store.vectors s.vectors_once;
      named =
          insert-All (λ (e : String × DocumentChunk). e.1.chunk_id ≡ e.0) c.chunk_id c store.chunks
            refl s.named;
      fitting =
          insert-All (λ (e : String × Vector). Fits store.dimension e.1) c.chunk_id (normalize f e)
            store.vectors (normalize-length f e ∙ fit) s.fitting;
      indexed =
          IsIndexed-insert store.dimension store.chunks store.ids store.index c.chunk_id c
            s.indexed;
    }

    -- An upsert keeps the invariant, also where the two lists differ in length and it raises.
    pub upsert-IsStore :
        (cs : List DocumentChunk) (es : List Vector) (store : FaissVectorStore F)
        → All (Fits store.dimension) es
        → IsStore store
        → IsStore (upsert f F cs es store).1
    unfolding upsert
    upsert-IsStore [] [] store fit s = record {
      same_keys = s.same_keys;
      chunks_once = s.chunks_once;
      vectors_once = s.vectors_once;
      named = s.named;
      fitting = s.fitting;
      indexed = tt;
    }
    upsert-IsStore [] (e ∷ es) store fit s = s
    upsert-IsStore (c ∷ cs) [] store fit s = s
    upsert-IsStore (c ∷ cs) (e ∷ es) store fit s =
        upsert-IsStore cs es (put_chunk f F c e store) fit.1 (put_chunk-IsStore store c e fit.0 s)
