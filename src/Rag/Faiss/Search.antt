-- ===== src/Rag/Faiss/Search.antt =====
-- `search` on a store that keeps the invariant: it answers, and with stored chunks.
use compliance_agent_platfor.Base.{
  ℕ, zero, suc, ◌≤◌, ◌<◌, String, ◌≡◌, ◌≢◌, refl, sym, ap, ◌∙◌, subst, List, [], ◌∷◌, map, Option,
  none, some, All, length, inl, inr, Option-cases, arith, if◌then◌else◌, is_empty,
}
use compliance_agent_platfor.Base.Dict.{Dict, keys, lookup, keys-found, lookup-All}
use compliance_agent_platfor.Base.Float.{Float}
use compliance_agent_platfor.Error.{Result, ok, and_then}
use compliance_agent_platfor.Rag.Vectors.{Vector, Floats, Faiss, IsFlat, Within}
use compliance_agent_platfor.Rag.Faiss.{
  FaissVectorStore, normalize, found_item, item, at_position, min, rows_of, build, with_index,
  index_or, ensure_index, collect, search_index, search,
}
use compliance_agent_platfor.Rag.Faiss.Invariant.{
  IsStore, IsIndexed, Fits, length-map, normalize-length,
}
use compliance_agent_platfor.Schemas.Retrieval.{DocumentChunk, RetrievedChunk}

-- A key that is there is read.
item-found {ℓ} :
    {V : Type ℓ} (k : String) (d : Dict V)
    → lookup k d ≢ none
    → (v : V) × (lookup k d ≡ some v) × (item k d ≡ ok v)
item-found k d there = elim (Option-cases (lookup k d)) [
  | inl e ↦ absurd (there e)
  | inr p ↦ (p.0, p.1, ap (found_item k) p.1)
]

at_position-found {ℓ κ} :
    {A : Type ℓ} (P : A → Type κ) (xs : List A) (i : ℕ)
    → All P xs
    → i < length xs
    → (x : A) × (at_position xs i ≡ ok x) × P x
at_position-found P [] i a l = absurd (omega (arith, l))
at_position-found P (x ∷ xs) zero a l = (x, refl, a.0)
at_position-found P (x ∷ xs) (suc i) a l = at_position-found P xs i a.1 (omega (arith, l))

module _ (f : Floats) (F : Faiss) (laws : IsFlat F) where
  rows_of-Fits :
      (d : ℕ) (vectors : Dict Vector) (ids : List String)
      → All (λ (e : String × Vector). Fits d e.1) vectors
      → All (λ id. lookup id vectors ≢ none) ids
      → (vs : List Vector) × (rows_of f F vectors ids ≡ ok vs)
        × (length vs ≡ length ids)
        × All (λ v. length v ≡ d) vs
  rows_of-Fits d vectors [] fit found = ([], refl, refl, tt)
  rows_of-Fits d vectors (id ∷ ids) fit found =
      let (v, got, read) = item-found id vectors found.0 in
      let (vs, rest, long, fits) = rows_of-Fits d vectors ids fit found.1 in
      (
        map f.float32 v ∷ vs,
        rw (read, rest) refl,
        ap suc long,
        (
          length-map f.float32 v
              ∙ lookup-All (λ (e : String × Vector). Fits d e.1) id v vectors fit got,
          fits,
        ),
      )

  build-Holds :
      (d : ℕ) (vectors : Dict Vector) (ids : List String)
      → All (λ (e : String × Vector). Fits d e.1) vectors
      → All (λ id. lookup id vectors ≢ none) ids
      → (x : F.Index) × (build f F d vectors ids ≡ ok x) × laws.Holds x d (length ids)
  build-Holds d vectors [] fit found = (F.index_flat_ip d, refl, laws.empty d)
  build-Holds d vectors (id ∷ ids) fit found =
      let (vs, rows, long, fits) = rows_of-Fits d vectors (id ∷ ids) fit found in
      let (x, added, held) = laws.adds (F.index_flat_ip d) d 0 vs (laws.empty d) fits in
      (
        x,
        ap (λ r. and_then r (λ m. F.add (F.index_flat_ip d) m)) rows ∙ added,
        subst (laws.Holds x d) (omega (arith, long)) held,
      )

  -- The index is there, and the store is otherwise as it was.
  record Ready (store : FaissVectorStore F) : Type 0 where
    x : F.Index
    after : FaissVectorStore F
    returned : ensure_index f F store ≡ (ok x, after)
    sound : IsStore F laws after
    holds : laws.Holds x after.dimension (length after.ids)
    found : All (λ id. lookup id after.chunks ≢ none) after.ids
    same_dimension : after.dimension ≡ store.dimension
    same_chunks : after.chunks ≡ store.chunks

  ensure_index-Ready : (store : FaissVectorStore F) → IsStore F laws store → Ready store
  ensure_index-Ready store s = elim (Option-cases store.index) [
    | inl e ↦
        let ids = keys store.chunks in
        let (x, built, held) = build-Holds store.dimension store.vectors ids s.fitting (
          subst (All (λ id. lookup id store.vectors ≢ none)) (sym s.same_keys)
            (keys-found store.vectors)) in
        let after : FaissVectorStore F = record store { ids = ids; index = some x } in
        record {
          x = x;
          after = after;
          returned =
              ap (λ o. index_or f F o store) e
              ∙ ap (λ r. with_index f F r (record store { ids = ids })) built;
          sound = record {
            same_keys = s.same_keys;
            chunks_once = s.chunks_once;
            vectors_once = s.vectors_once;
            named = s.named;
            fitting = s.fitting;
            indexed = (held, keys-found store.chunks);
          };
          holds = held;
          found = keys-found store.chunks;
          same_dimension = refl;
          same_chunks = refl;
        }
    | inr p ↦
        let i = subst (IsIndexed F laws store.dimension store.chunks store.ids) p.1 s.indexed in
        record {
          x = p.0;
          after = store;
          returned = ap (λ o. index_or f F o store) p.1;
          sound = s;
          holds = i.0;
          found = i.1;
          same_dimension = refl;
          same_chunks = refl;
        }
  ]

  -- A stored chunk under its own id
  abbrev pub IsStored : Dict DocumentChunk → RetrievedChunk → Type 0
  IsStored chunks r = lookup r.chunk.chunk_id chunks ≡ some r.chunk

  collect-IsStored :
      (store : FaissVectorStore F) (hits : List (Float × Option ℕ))
      → All (λ (e : String × DocumentChunk). e.1.chunk_id ≡ e.0) store.chunks
      → All (λ id. lookup id store.chunks ≢ none) store.ids
      → All (Within (length store.ids)) hits
      → (rs : List RetrievedChunk) × (collect f F store hits ≡ ok rs)
        × (length rs ≤ length hits)
        × All (IsStored store.chunks) rs
  collect-IsStored store [] named found within = ([], refl, omega arith, tt)
  collect-IsStored store ((score, none) ∷ hits) named found within =
      let (rs, e, l, a) = collect-IsStored store hits named found within.1 in
      (rs, e, omega (arith, l), a)
  collect-IsStored store ((score, some i) ∷ hits) named found within =
      let (id, at, there) =
        at_position-found (λ id. lookup id store.chunks ≢ none) store.ids i found within.0 in
      let (c, got, read) = item-found id store.chunks there in
      let (rs, e, l, a) = collect-IsStored store hits named found within.1 in
      let r : RetrievedChunk = record { chunk = c; score = score } in
      let name =
        lookup-All (λ (e : String × DocumentChunk). e.1.chunk_id ≡ e.0) id c store.chunks named
          got in
      (
        r ∷ rs,
        rw (at, read, e) refl,
        omega (arith, l),
        (ap (λ j. lookup j store.chunks) name ∙ got, a),
      )

  -- A search returned at most k chunks, all of them stored, and kept the chunks.
  pub record Answers (store : FaissVectorStore F) (embedding : Vector) (k : ℕ) : Type 0 where
    pub results : List RetrievedChunk
    pub after : FaissVectorStore F
    pub returned : search f F embedding k store ≡ (ok results, after)
    pub few : length results ≤ k
    pub stored : All (IsStored store.chunks) results
    pub same_chunks : after.chunks ≡ store.chunks
    pub sound : IsStore F laws after

  record Found (store : FaissVectorStore F) (chunks : Dict DocumentChunk) (x : F.Index)
      (embedding : Vector) (k : ℕ) : Type 0 where
    results : List RetrievedChunk
    returned : search_index f F store x embedding k ≡ ok results
    few : length results ≤ k
    stored : All (IsStored chunks) results

  search_index-Found :
      (store : FaissVectorStore F) (ids : List String) (x : F.Index) (embedding : Vector) (k : ℕ)
      → store.ids ≡ ids
      → IsStore F laws store
      → laws.Holds x store.dimension (length store.ids)
      → All (λ id. lookup id store.chunks ≢ none) store.ids
      → length embedding ≡ store.dimension
      → 0 < k
      → Found store store.chunks x embedding k
  search_index-Found store [] x embedding k e s held found fit positive = record {
    results = [];
    returned = rw e refl;
    few = omega arith;
    stored = tt;
  }
  search_index-Found store (id ∷ ids) x embedding k e s held found fit positive =
      let q : Vector = map f.float32 (normalize f embedding) in
      let n = min k (length store.ids) in
      let fits : length q ≡ store.dimension =
        length-map f.float32 (normalize f embedding) ∙ normalize-length f embedding ∙ fit in
      let some_ids : length store.ids ≡ suc (length ids) = ap length e in
      let (hits, searched, count, within) =
        laws.searches x store.dimension (length store.ids) q n held fits
          (ground (arith, some_ids, positive)) in
      let (rs, collected, l, a) = collect-IsStored store hits s.named found within in
      record {
        results = rs;
        returned =
            ap
              (λ ids.
                if is_empty ids
                then ok []
                else and_then (F.search x q n) (λ hits. collect f F store hits))
              e
            ∙ ap (λ r. and_then r (λ hits. collect f F store hits)) searched
            ∙ collected;
        few = ground (arith, l, count);
        stored = a;
      }

  -- A store that keeps the invariant answers every query of its dimension, for k above 0: the search
  -- raises nothing, gives at most k chunks, each of them stored under its id, and leaves the stored
  -- chunks and the invariant.
  pub search-Answers :
      (store : FaissVectorStore F) (embedding : Vector) (k : ℕ)
      → IsStore F laws store
      → length embedding ≡ store.dimension
      → 0 < k
      → Answers store embedding k
  unfolding search
  search-Answers store embedding k s fit positive =
      let r = ensure_index-Ready store s in
      let i =
        search_index-Found r.after r.after.ids r.x embedding k refl r.sound r.holds r.found
          (fit ∙ sym r.same_dimension) positive in
      record {
        results = i.results;
        after = r.after;
        returned =
            ap
              (λ (p : Result F.Index × FaissVectorStore F).
                (and_then p.0 (λ x. search_index f F p.1 x embedding k), p.1))
              r.returned
            ∙ ap (λ o. (o, r.after)) i.returned;
        few = i.few;
        stored = subst (λ c. All (IsStored c) i.results) r.same_chunks i.stored;
        same_chunks = r.same_chunks;
        sound = r.sound;
      }
