-- ===== src/Audit/Export/Commit.antt =====
-- What the write of a manifest makes of a bucket that holds exported rows.
use compliance_agent_platfor.Base.{
  ◌<◌, ◌≡◌, ◌≢◌, refl, sym, ap, ◌∙◌, subst, true, List, [], ◌∷◌, ◌++◌, map, none, some, All,
  All-split, All-append, arith, Bool-cases, inl, inr, str_eq, eq_iff, if◌then◌else◌,
}
use compliance_agent_platfor.Base.Sort.{sort_by, sort_by-last, sort_by-All_back}
use compliance_agent_platfor.Config.{Settings}
use compliance_agent_platfor.Audit.Log.{AuditRow, Hasher, chain_genesis}
use compliance_agent_platfor.Audit.Chain.{head_hash}
use compliance_agent_platfor.Audit.Export.{
  Batch, load_manifests, first_id_of, put_data, put_manifest,
}
use compliance_agent_platfor.Audit.Export.Bucket.{
  ObjectStore, IsConsistent, Body, jsonl, manifest_json, Manifest,
}
use compliance_agent_platfor.Audit.Export.Keys.{HasPrefix, manifest_prefix, ends_with_suffix}
use compliance_agent_platfor.Audit.Export.Batches.{
  IsBatch, Follows-append, manifest_of, rows_of, last_manifest, last_id, first_ids-below,
}
use compliance_agent_platfor.Audit.Export.Mirror.{
  IsMirror, load_manifests-insert, load_manifests-get, kept, stored_still, get-put_same,
  get-put_other,
}

map-append :
    (bs : List Batch) (b : Batch)
    → map manifest_of (bs ++ b ∷ []) ≡ map manifest_of bs ++ b.manifest ∷ []
map-append [] b = refl
map-append (c ∷ bs) b = ap (λ r. c.manifest ∷ r) (map-append bs b)

-- The bucket holds exactly these rows, batch after batch.
pub record Holds (S : ObjectStore) (settings : Settings) (h : Hasher) (s : S.State)
    (rows : List AuditRow) : Type 0 where
  pub batches : List Batch
  pub are : rows_of batches ≡ rows
  pub mirror : IsMirror S settings h s batches

module _ (S : ObjectStore) (settings : Settings) (h : Hasher)
    (laws : IsConsistent S HasPrefix) where
  pub put_manifest-IsMirror :
      (s : S.State) (batches : List Batch) (b : Batch)
      → S.get s b.manifest.manifest_key ≡ none
      → HasPrefix (manifest_prefix settings) b.manifest.manifest_key
      → ends_with_suffix b.manifest.manifest_key ≡ true
      → S.get s b.manifest.data_key ≡ some (jsonl b.rows)
      → IsBatch h
          (last_manifest none batches)
          (head_hash h chain_genesis (rows_of batches))
          (last_id 0 (rows_of batches))
          b
      → IsMirror S settings h s batches
      → IsMirror S settings h (put_manifest S settings b s) (batches ++ b ∷ [])
  put_manifest-IsMirror s batches b fresh under suffix file next m =
      let body : Body = manifest_json b.manifest in
      let k = b.manifest.manifest_key in
      let t = S.put s k body in
      let l = laws.keys-new s k (manifest_prefix settings) body fresh under in
      let old = load_manifests-get S settings h s t (l.front ++ l.back) (
        kept S settings h laws s k body (l.front ++ l.back) fresh (
          subst (All (λ j. S.get s j ≢ none)) l.were
            (laws.keys-stored s (manifest_prefix settings)))) in
      let i =
        load_manifests-insert S settings h t l.front l.back k b.manifest m.loaded suffix
          (get-put_same S settings h laws s k body)
          (old ∙ ap (load_manifests S settings s) (sym l.were) ∙ m.loads) in
      let below =
        first_ids-below h none chain_genesis 0 b.manifest.first_id batches m.follows next.above in
      let (a, c) =
        All-split (λ (x : Manifest). x.first_id < b.manifest.first_id) i.front i.back
          (subst (All (λ (x : Manifest). x.first_id < b.manifest.first_id)) i.were (
            sort_by-All_back first_id_of (λ (x : Manifest). x.first_id < b.manifest.first_id)
              m.loaded
              (subst (All (λ (x : Manifest). x.first_id < b.manifest.first_id)) (sym m.sorts)
                below))) in
      record {
        follows = Follows-append h none chain_genesis 0 batches b m.follows next;
        loaded = i.front ++ b.manifest ∷ i.back;
        loads = ap (load_manifests S settings t) l.are ∙ i.are;
        sorts =
            sort_by-last first_id_of b.manifest i.front i.back a c
            ∙ ap (λ r. sort_by first_id_of r ++ b.manifest ∷ []) (sym i.were)
            ∙ ap (λ r. r ++ b.manifest ∷ []) m.sorts
            ∙ sym (map-append batches b);
        stored =
            All-append (λ (x : Batch). S.get t x.manifest.data_key ≡ some (jsonl x.rows)) batches
              (b ∷ []) (stored_still S settings h laws s k body batches fresh m.stored)
              (
                get-put_other S settings h laws s k body b.manifest.data_key fresh
                      (λ e. ground (arith, e, file))
                    ∙ file,
                tt,
              );
      }

  pub still_fresh :
      (s : S.State) (b : Batch)
      → S.get s b.manifest.manifest_key ≡ none
      → HasPrefix (manifest_prefix settings) b.manifest.manifest_key
      → ¬ HasPrefix (manifest_prefix settings) b.manifest.data_key
      → S.get (put_data S settings b s) b.manifest.manifest_key ≡ none
  still_fresh s b fresh under aside =
      elim (Bool-cases (str_eq b.manifest.manifest_key b.manifest.data_key)) [
        | inl e ↦ absurd (
            aside (
              subst (HasPrefix (manifest_prefix settings))
                ((eq_iff b.manifest.manifest_key b.manifest.data_key).0 e) under))
        | inr e ↦
            laws.get-put s b.manifest.data_key (jsonl b.rows) b.manifest.manifest_key
            ∙ ap (λ t. if t then some (jsonl b.rows) else S.get s b.manifest.manifest_key) e
            ∙ fresh
      ]
