-- ===== src/Audit/Export/Mirror.antt =====
-- A bucket that holds exported batches, and what each of the two writes of an export does to it.
use compliance_agent_platfor.Base.{
  ◌≡◌, ◌≢◌, refl, ap, ◌∙◌, String, true, inl, inr, List, [], ◌∷◌, ◌++◌, map, none, some, All,
  All-map, str_eq, eq_iff, Bool-cases, arith, if◌then◌else◌,
}
use compliance_agent_platfor.Base.Sort.{sort_by}
use compliance_agent_platfor.Config.{Settings}
use compliance_agent_platfor.Error.{Result, ok, err}
use compliance_agent_platfor.Audit.Log.{Hasher, chain_genesis}
use compliance_agent_platfor.Audit.Export.{
  Batch, load_manifests, first_id_of, put_data, parse_manifest, then_manifest,
}
use compliance_agent_platfor.Audit.Export.Bucket.{
  ObjectStore, IsConsistent, Body, jsonl, manifest_json, Manifest,
}
use compliance_agent_platfor.Audit.Export.Keys.{HasPrefix, manifest_prefix, ends_with_suffix}
use compliance_agent_platfor.Audit.Export.Batches.{Follows, manifest_of}

module _ (S : ObjectStore) (settings : Settings) (h : Hasher) where
  -- The bucket lists the manifests of these batches and no other, and has their data files.
  pub record IsMirror (s : S.State) (batches : List Batch) : Type 0 where
    pub follows : Follows h none chain_genesis 0 batches
    pub loaded : List Manifest
    pub loads : load_manifests S settings s (S.keys s (manifest_prefix settings)) ≡ ok loaded
    pub sorts : sort_by first_id_of loaded ≡ map manifest_of batches
    pub stored : All (λ (b : Batch). S.get s b.manifest.data_key ≡ some (jsonl b.rows)) batches

  pub load_manifests-get :
      (s t : S.State) (keys : List String)
      → All (λ k. S.get t k ≡ S.get s k) keys
      → load_manifests S settings t keys ≡ load_manifests S settings s keys
  unfolding load_manifests
  load_manifests-get s t [] a = refl
  load_manifests-get s t (k ∷ keys) a = rw (a.0, load_manifests-get s t keys a.1) refl

  -- The manifests with a new one among them.
  pub record Inserted (r : Result (List Manifest)) (ms : List Manifest) (m : Manifest)
      : Type 0 where
    pub front : List Manifest
    pub back : List Manifest
    pub were : ms ≡ front ++ back
    pub are : r ≡ ok (front ++ m ∷ back)

  then_manifest-Inserted :
      (p : Result Manifest) (rest more : Result (List Manifest)) (ms : List Manifest) (m : Manifest)
      → ((ns : List Manifest) → rest ≡ ok ns → Inserted more ns m)
      → then_manifest p rest ≡ ok ms
      → Inserted (then_manifest p more) ms m
  then_manifest-Inserted (err e) rest more ms m k q = absurd (ground arith)
  then_manifest-Inserted (ok n) (err e) more ms m k q = absurd (ground arith)
  then_manifest-Inserted (ok n) (ok ns) more ms m k q =
      let i = k ns refl in
      record {
        front = n ∷ i.front;
        back = i.back;
        were = grind (arith, i.were, q);
        are = rw (i.are) refl;
      }

  pub load_manifests-insert :
      (s : S.State) (front back : List String) (k : String) (m : Manifest) (ms : List Manifest)
      → ends_with_suffix k ≡ true
      → S.get s k ≡ some (manifest_json m)
      → load_manifests S settings s (front ++ back) ≡ ok ms
      → Inserted (load_manifests S settings s (front ++ k ∷ back)) ms m
  unfolding load_manifests
  load_manifests-insert s [] back k m ms suffix got q = record {
    front = [];
    back = ms;
    were = refl;
    are = rw (suffix, got, q) refl;
  }
  load_manifests-insert s (j ∷ front) back k m ms suffix got q =
      elim (Bool-cases (ends_with_suffix j)) [
        | inl e ↦ rw e (
            then_manifest-Inserted (parse_manifest (S.get s j)) _ _ ms m
              (λ ns p. load_manifests-insert s front back k m ns suffix got p) (rw e at q))
        | inr e ↦ rw e (load_manifests-insert s front back k m ms suffix got (rw e at q))
      ]

  module _ (laws : IsConsistent S HasPrefix) where
    -- A write of a new key leaves the objects that are there.
    pub get-put_other :
        (s : S.State) (k : String) (b : Body) (j : String)
        → S.get s k ≡ none
        → S.get s j ≢ none
        → S.get (S.put s k b) j ≡ S.get s j
    get-put_other s k b j fresh there = elim (Bool-cases (str_eq j k)) [
      | inl e ↦ absurd (there (ap (S.get s) ((eq_iff j k).0 e) ∙ fresh))
      | inr e ↦ laws.get-put s k b j ∙ ap (λ t. if t then some b else S.get s j) e
    ]

    pub get-put_same : (s : S.State) (k : String) (b : Body) → S.get (S.put s k b) k ≡ some b
    get-put_same s k b =
        laws.get-put s k b k ∙ ap (λ t. if t then some b else S.get s k) ((eq_iff k k).1 refl)

    pub kept :
        (s : S.State) (k : String) (b : Body) (keys : List String)
        → S.get s k ≡ none
        → All (λ j. S.get s j ≢ none) keys
        → All (λ j. S.get (S.put s k b) j ≡ S.get s j) keys
    kept s k b keys fresh there =
        All-map (λ j. S.get s j ≢ none) (λ j. S.get (S.put s k b) j ≡ S.get s j) keys
          (λ j p. get-put_other s k b j fresh p) there

    pub stored_still :
        (s : S.State) (k : String) (body : Body) (batches : List Batch)
        → S.get s k ≡ none
        → All (λ (b : Batch). S.get s b.manifest.data_key ≡ some (jsonl b.rows)) batches
        → All
            (λ (b : Batch). S.get (S.put s k body) b.manifest.data_key ≡ some (jsonl b.rows))
            batches
    stored_still s k body batches fresh a =
        All-map (λ (b : Batch). S.get s b.manifest.data_key ≡ some (jsonl b.rows))
          (λ (b : Batch). S.get (S.put s k body) b.manifest.data_key ≡ some (jsonl b.rows)) batches
          (λ b p. get-put_other s k body b.manifest.data_key fresh (λ e. ground (arith, e, p)) ∙ p)
          a

    -- The data file alone changes nothing: no manifest names it.
    pub put_data-IsMirror :
        (s : S.State) (batches : List Batch) (b : Batch)
        → S.get s b.manifest.data_key ≡ none
        → ¬ HasPrefix (manifest_prefix settings) b.manifest.data_key
        → IsMirror s batches
        → IsMirror (put_data S settings b s) batches
    put_data-IsMirror s batches b fresh outside m =
        let body : Body = jsonl b.rows in
        let k = b.manifest.data_key in
        let prefix = manifest_prefix settings in
        record {
          follows = m.follows;
          loaded = m.loaded;
          loads =
              ap (load_manifests S settings (S.put s k body))
                (laws.keys-other s k prefix body fresh outside)
              ∙ load_manifests-get s (S.put s k body) (S.keys s prefix)
                  (kept s k body (S.keys s prefix) fresh (laws.keys-stored s prefix))
              ∙ m.loads;
          sorts = m.sorts;
          stored = stored_still s k body batches fresh m.stored;
        }
