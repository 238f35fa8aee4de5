-- ===== src/Rag/Faiss/File.antt =====
-- The file of a store: what `load` reads back of what `save` wrote.
use compliance_agent_platfor.Base.{
  ℕ, String, ◌≡◌, refl, sym, ap, ◌∙◌, subst, true, [], ◌∷◌, ◌++◌, append_assoc, append-nil, none,
  some, All, arith, truthy,
}
use compliance_agent_platfor.Base.Dict.{
  Dict, keys, lookup, insert, NodupKeys, NodupKeys-found, insert-last,
}
use compliance_agent_platfor.Error.{Result, ok, and_then}
use compliance_agent_platfor.Rag.Vectors.{Vector, Floats, Faiss, IsFlat}
use compliance_agent_platfor.Rag.Faiss.{
  FaissVectorStore, Entry, Codec, entries, save, restore, load, new_store, search, search_index,
  build, with_index, index_or,
}
use compliance_agent_platfor.Rag.Faiss.Invariant.{IsStore}
use compliance_agent_platfor.Schemas.Retrieval.{DocumentChunk}

-- `json.loads` reads back an object that `json.dumps` wrote.
abbrev pub IsCodec : Codec → Type 0
IsCodec codec = (es : Dict Entry) → NodupKeys es → codec.loads (codec.dumps es) ≡ ok es

-- The members of the file's object, chunk by chunk
abbrev zip_entries : Dict DocumentChunk → Dict Vector → Dict Entry
zip_entries [] vs = []
zip_entries (c ∷ cs) [] = []
zip_entries (c ∷ cs) (v ∷ vs) = (c.0, record { chunk = c.1; vector = v.1 }) ∷ zip_entries cs vs

-- `DocumentChunk.text` is not empty, as its model demands.
abbrev pub HasText : String × DocumentChunk → Type 0
HasText e = truthy e.1.text ≡ true

module _ (f : Floats) (F : Faiss) where
  entries-zip :
      (cs : Dict DocumentChunk) (vs d : Dict Vector)
      → keys cs ≡ keys vs
      → All (λ (e : String × Vector). lookup e.0 d ≡ some e.1) vs
      → entries f F d cs ≡ ok (zip_entries cs vs)
  entries-zip [] vs d e a = refl
  entries-zip (c ∷ cs) [] d e a = absurd (ground (arith, e))
  entries-zip (c ∷ cs) (v ∷ vs) d e a =
      let same : c.0 ≡ v.0 = grind (arith, e) in
      rw (same, a.0, entries-zip cs vs d (grind (arith, e)) a.1) refl

  lookup-zip :
      (k : String) (cs : Dict DocumentChunk) (vs : Dict Vector)
      → lookup k cs ≡ none
      → lookup k (zip_entries cs vs) ≡ none
  unfolding lookup
  lookup-zip k [] vs e = refl
  lookup-zip k (c ∷ cs) [] e = refl
  lookup-zip k (c ∷ cs) (v ∷ vs) e = ground (arith, e, lookup-zip k cs vs)

  zip-NodupKeys :
      (cs : Dict DocumentChunk) (vs : Dict Vector) → NodupKeys cs → NodupKeys (zip_entries cs vs)
  zip-NodupKeys [] vs u = tt
  zip-NodupKeys (c ∷ cs) [] u = tt
  zip-NodupKeys (c ∷ cs) (v ∷ vs) u = (lookup-zip c.0 cs vs u.0, zip-NodupKeys cs vs u.1)

  abbrev with_dicts : FaissVectorStore F → Dict DocumentChunk → Dict Vector → FaissVectorStore F
  with_dicts store cs vs = record store { chunks = cs; vectors = vs }

  restore-zip :
      (cs : Dict DocumentChunk) (vs : Dict Vector) (store : FaissVectorStore F)
      → keys cs ≡ keys vs
      → NodupKeys (store.chunks ++ cs)
      → NodupKeys (store.vectors ++ vs)
      → All HasText cs
      → restore f F (zip_entries cs vs) store
        ≡ ok (with_dicts store (store.chunks ++ cs) (store.vectors ++ vs))
  restore-zip [] [] store e u w t =
      ap (λ cs. ok (with_dicts store cs store.vectors)) (sym (append-nil store.chunks))
      ∙ ap (λ vs. ok (with_dicts store (store.chunks ++ []) vs)) (sym (append-nil store.vectors))
  restore-zip [] (v ∷ vs) store e u w t = absurd (ground (arith, e))
  restore-zip (c ∷ cs) [] store e u w t = absurd (ground (arith, e))
  restore-zip (c ∷ cs) (v ∷ vs) store e u w t =
      let same : c.0 ≡ v.0 = grind (arith, e) in
      let rest : keys cs ≡ keys vs = grind (arith, e) in
      let a = append_assoc store.chunks (c ∷ []) cs in
      let b = append_assoc store.vectors (v ∷ []) vs in
      let chunks = insert-last c.0 c.1 store.chunks cs u in
      let vectors =
        ap (λ k. insert k v.1 store.vectors) same ∙ insert-last v.0 v.1 store.vectors vs w in
      rw (t.0, chunks, vectors)
        (restore-zip cs vs (with_dicts store (store.chunks ++ c ∷ []) (store.vectors ++ v ∷ []))
            rest (subst NodupKeys (sym a) u) (subst NodupKeys (sym b) w) t.1
          ∙ ap (λ cs. ok (with_dicts store cs ((store.vectors ++ v ∷ []) ++ vs))) a
          ∙ ap (λ vs. ok (with_dicts store (store.chunks ++ c ∷ cs) vs)) b)

  -- The store as a new one with the same chunks and vectors: without an index.
  abbrev pub unindexed : FaissVectorStore F → FaissVectorStore F
  unindexed store = record store { index = none; ids = [] }

  -- Without an index, the old ids do not matter to a search.
  search-unindexed :
      (store : FaissVectorStore F) (embedding : Vector) (k : ℕ)
      → store.index ≡ none
      → search f F embedding k (unindexed store) ≡ search f F embedding k store
  unfolding search
  search-unindexed store embedding k e =
      let ids = keys store.chunks in
      let built = build f F store.dimension store.vectors ids in
      ap
        (λ (p : Result F.Index × FaissVectorStore F).
          (and_then p.0 (λ x. search_index f F p.1 x embedding k), p.1))
        (ap (λ o. with_index f F built (record store { index = o; ids = ids })) (sym e)
          ∙ ap (λ o. index_or f F o store) (sym e))

  module _ (laws : IsFlat F) (codec : Codec) where
    -- A store that went through its file: the store that `load` makes of what `save` wrote answers
    -- every query as the first one does.
    pub record RoundTrip (store : FaissVectorStore F) : Type 0 where
      pub text : codec.Text
      pub again : FaissVectorStore F
      pub saved : save f F codec store ≡ ok text
      pub loaded : load f F codec (some text) store.dimension ≡ ok again
      pub same_dimension : again.dimension ≡ store.dimension
      pub same_chunks : again.chunks ≡ store.chunks
      pub same_vectors : again.vectors ≡ store.vectors
      pub sound : IsStore F laws again
      pub answers :
          (embedding : Vector) (k : ℕ) → search f F embedding k again ≡ search f F embedding k store

  module _ (laws : IsFlat F) (codec : Codec) (json : IsCodec codec) where
    -- `load` reads a store back of the file that `save` wrote: the same dicts, without an index.
    record Saved (store : FaissVectorStore F) : Type 0 where
      text : codec.Text
      saved : save f F codec store ≡ ok text
      loaded : load f F codec (some text) store.dimension ≡ ok (unindexed store)

    load-Saved :
        (store : FaissVectorStore F) → IsStore F laws store → All HasText store.chunks → Saved store
    unfolding save load
    load-Saved store s texts =
        let es = zip_entries store.chunks store.vectors in
        record {
          text = codec.dumps es;
          saved =
              ap (λ r. and_then r (λ es. ok (codec.dumps es)))
                (entries-zip store.chunks store.vectors store.vectors s.same_keys
                  (NodupKeys-found store.vectors s.vectors_once));
          loaded =
              ap (λ r. and_then r (λ es. restore f F es (new_store f F store.dimension)))
                (json es (zip-NodupKeys store.chunks store.vectors s.chunks_once))
              ∙ restore-zip store.chunks store.vectors (new_store f F store.dimension) s.same_keys
                  s.chunks_once s.vectors_once texts;
        }

    -- A store that keeps the invariant, has no index and holds chunks with a text: `save` writes a text
    -- of which `load` makes a store with the same chunks and vectors, which keeps the invariant and
    -- answers every query as the first store does.
    pub load-RoundTrip :
        (store : FaissVectorStore F)
        → IsStore F laws store
        → store.index ≡ none
        → All HasText store.chunks
        → RoundTrip laws codec store
    load-RoundTrip store s no_index texts =
        let file = load-Saved store s texts in
        record {
          text = file.text;
          again = unindexed store;
          saved = file.saved;
          loaded = file.loaded;
          same_dimension = refl;
          same_chunks = refl;
          same_vectors = refl;
          sound = record {
            same_keys = s.same_keys;
            chunks_once = s.chunks_once;
            vectors_once = s.vectors_once;
            named = s.named;
            fitting = s.fitting;
            indexed = tt;
          };
          answers = λ embedding k. search-unindexed store embedding k no_index;
        }
