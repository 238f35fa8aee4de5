-- ===== src/Audit/Export/Verify.antt =====
-- What `verify_export` makes of a bucket that holds exported batches.
use compliance_agent_platfor.Base.{
  ℕ, ◌≡◌, refl, sym, ap, ◌∙◌, subst, String, true, false, List, [], ◌∷◌, ◌++◌, map, append_assoc,
  append-nil, Option, none, some, All, not, last?, eq_iff, text_or, arith,
}
use compliance_agent_platfor.Config.{Settings}
use compliance_agent_platfor.Error.{ok, and_then}
use compliance_agent_platfor.Audit.Log.{AuditRow, Hasher, chain_genesis, verify_chain, intact}
use compliance_agent_platfor.Audit.Chain.{Chained, head_hash, next_hash, is_stored_iff}
use compliance_agent_platfor.Audit.Export.{
  Batch, require_bucket, verify_batches, verify_export, verify_exported, head_differs, same_hash,
  final_row, previous_key, batch_of, put_data,
}
use compliance_agent_platfor.Audit.Export.Bucket.{ObjectStore, IsConsistent, jsonl, Manifest}
use compliance_agent_platfor.Audit.Export.Keys.{HasPrefix, Formats, data_key-prefix}
use compliance_agent_platfor.Audit.Export.Batches.{
  IsBatch, Follows, manifest_of, rows_of, last_id, Follows-Chained, final_row-head, last_manifest,
}
use compliance_agent_platfor.Audit.Export.Mirror.{put_data-IsMirror}
use compliance_agent_platfor.Audit.Export.Commit.{Holds}
use compliance_agent_platfor.Audit.Export.Resume.{list_manifests-mirror}

same_hash_refl : (o : Option String) → same_hash o o ≡ true
same_hash_refl none = refl
same_hash_refl (some s) = (eq_iff s s).1 refl

last?-final :
    (row : AuditRow) (rows : List AuditRow) → last? (row ∷ rows) ≡ some (final_row row rows)
last?-final row [] = refl
last?-final row (next ∷ rows) = last?-final next rows

module _ (h : Hasher) where
  verify_chain-intact :
      (rows : List AuditRow) (start : String)
      → Chained h start rows
      → verify_chain h rows start ≡ intact
  unfolding verify_chain
  verify_chain-intact [] start c = refl
  verify_chain-intact (row ∷ rows) start c =
      let expected = next_hash h start row in
      let ih = verify_chain-intact rows expected c.1 in
      ground (
        arith,
        eq_iff (text_or row.prev_hash chain_genesis) start,
        is_stored_iff h row.record_hash expected,
        ih,
        c.0.linked,
        c.0.hashed,
      )

  head_differs-batch :
      (prev : Option Manifest) (start : String) (low : ℕ) (b : Batch)
      → IsBatch h prev start low b
      → head_differs (last? b.rows) b.manifest ≡ false
  head_differs-batch prev start low b i =
      let stored =
        final_row-head h start i.first i.others (subst (Chained h start) i.rows_are i.chained) in
      let head = i.headed ∙ ap (λ r. some (head_hash h start r)) i.rows_are in
      rw (i.rows_are, last?-final i.first i.others, stored, head)
        (ap not (same_hash_refl (some (head_hash h start (i.first ∷ i.others)))))

module _ (S : ObjectStore) (settings : Settings) (h : Hasher) where
  -- The loop goes through the batches that follow one another, to the check of the whole chain.
  verify_batches-Follows :
      (s : S.State) (prev : Option Manifest) (start : String) (low : ℕ) (bs : List Batch)
      (rows : List AuditRow)
      → Follows h prev start low bs
      → All (λ (b : Batch). S.get s b.manifest.data_key ≡ some (jsonl b.rows)) bs
      → verify_batches S settings h s (map manifest_of bs) (previous_key prev) rows
        ≡ ok (verify_exported h (rows ++ rows_of bs))
  unfolding verify_batches
  verify_batches-Follows s prev start low [] rows f a =
      ap (λ r. ok (verify_exported h r)) (sym (append-nil rows))
  verify_batches-Follows s prev start low (b ∷ bs) rows f a =
      rw
        (
          a.0,
          head_differs-batch h prev start low b f.0,
          f.0.behind,
          same_hash_refl (previous_key prev),
        )
        (verify_batches-Follows s (some b.manifest) (head_hash h start b.rows) (last_id low b.rows)
            bs (rows ++ b.rows) f.1 a.1
          ∙ ap (λ r. ok (verify_exported h r)) (append_assoc rows b.rows (rows_of bs)))

  verify_exported-intact :
      (rows : List AuditRow) → Chained h chain_genesis rows → verify_exported h rows ≡ intact
  verify_exported-intact [] c = refl
  verify_exported-intact (row ∷ rows) c =
      ap (verify_chain h (row ∷ rows)) c.0.linked
      ∙ verify_chain-intact h (row ∷ rows) chain_genesis c

  module _ (bucket : String) (configured : require_bucket S settings ≡ ok bucket)
      (laws : IsConsistent S HasPrefix) where
    -- `verify_export` finds nothing to report in a bucket that holds a chain of rows.
    pub verify_export-intact :
        (s : S.State) (rows : List AuditRow)
        → Holds S settings h s rows
        → verify_export S settings h s ≡ ok intact
    unfolding verify_export
    verify_export-intact s rows hold =
        ap (λ r. and_then r (λ ms. verify_batches S settings h s ms none []))
          (list_manifests-mirror S settings h laws bucket configured s hold.batches hold.mirror)
        ∙ verify_batches-Follows s none chain_genesis 0 hold.batches [] hold.mirror.follows
            hold.mirror.stored
        ∙ ap ok (
            verify_exported-intact (rows_of hold.batches)
              (Follows-Chained h none chain_genesis 0 hold.batches hold.mirror.follows))

    -- The process dies between the two writes of an export: the bucket still holds the rows that it
    -- held, and `verify_export` still accepts it.
    pub export_batch-Interrupted :
        (s : S.State) (done : List AuditRow) (hold : Holds S settings h s done) (f : Formats)
        (now : ℕ) (row : AuditRow) (rows : List AuditRow)
        → let b = batch_of S settings h f now (last_manifest none hold.batches) row rows in
          S.get s b.manifest.data_key ≡ none
          → Holds S settings h (put_data S settings b s) done
            × (verify_export S settings h (put_data S settings b s) ≡ ok intact)
    export_batch-Interrupted s done hold f now row rows fresh =
        let b = batch_of S settings h f now (last_manifest none hold.batches) row rows in
        let aside = data_key-prefix f settings now row.id (final_row row rows).id in
        let held : Holds S settings h (put_data S settings b s) done = record {
          batches = hold.batches;
          are = hold.are;
          mirror = put_data-IsMirror S settings h laws s hold.batches b fresh aside hold.mirror;
        } in
        (held, verify_export-intact (put_data S settings b s) done held)
