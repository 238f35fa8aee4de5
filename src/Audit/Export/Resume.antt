-- ===== src/Audit/Export/Resume.antt =====
-- An export that continues a bucket: what it writes, and when it refuses.
use compliance_agent_platfor.Base.{
  ℕ, suc, ◌≡◌, refl, sym, ap, ◌∙◌, subst, String, false, not, List, [], ◌∷◌, ◌++◌, map, Option,
  none, some, length, arith, append-nil, if◌then◌else◌,
}
use compliance_agent_platfor.Base.Sort.{sort_by}
use compliance_agent_platfor.Config.{Settings}
use compliance_agent_platfor.Error.{ok, err, runtime_error}
use compliance_agent_platfor.Audit.Log.{AuditRow, Hasher, chain_genesis, verify_chain}
use compliance_agent_platfor.Audit.Chain.{
  Chained, head_hash, Chained-split, verify_chain-verified_iff,
}
use compliance_agent_platfor.Audit.Append.{Between}
use compliance_agent_platfor.Audit.Export.{
  Batch, ExportResult, list_manifests, require_bucket, put_data, put_manifest, batch_of,
  write_batch, export_rows, export_after, export_batch, nothing_new, verify_from, start_hash,
  since_id, rows_after, row_id, refusal, summary, final_row,
}
use compliance_agent_platfor.Audit.Export.Bucket.{ObjectStore, IsConsistent, jsonl, Manifest}
use compliance_agent_platfor.Audit.Export.Keys.{
  Formats, HasPrefix, manifest_key-HasPrefix, data_key-prefix, manifest_key-suffix,
}
use compliance_agent_platfor.Audit.Export.Batches.{
  IsBatch, manifest_of, last_manifest, last_id, last_id-above, final_row-id, final_row-head,
  start_hash-last, since_id-last, last?-last_manifest, rows_of-append, rows_after-rest, sort_by-id,
  Between-behind,
}
use compliance_agent_platfor.Audit.Export.Mirror.{IsMirror, get-put_same, put_data-IsMirror}
use compliance_agent_platfor.Audit.Export.Commit.{Holds, put_manifest-IsMirror, still_fresh}

-- An export of `table` returned, and the bucket holds it.
pub record Exports (S : ObjectStore) (settings : Settings) (h : Hasher) (s : S.State)
    (table new : List AuditRow) (f : Formats) (now : ℕ) : Type 0 where
  pub after : S.State
  pub result : ExportResult
  pub returned : export_batch S settings h f now table s ≡ (ok result, after)
  pub holds : Holds S settings h after table
  pub counted : result.row_count ≡ length new

module _ (S : ObjectStore) (settings : Settings) (h : Hasher)
    (laws : IsConsistent S HasPrefix) where
  module _ (bucket : String) (configured : require_bucket S settings ≡ ok bucket) where
    pub list_manifests-mirror :
        (s : S.State) (batches : List Batch)
        → IsMirror S settings h s batches
        → list_manifests S settings s ≡ ok (map manifest_of batches)
    list_manifests-mirror s batches m = rw (configured, m.loads) (ap ok m.sorts)

    module _ (f : Formats) (now : ℕ) where
      module _ (s : S.State) (done : List AuditRow) (hold : Holds S settings h s done)
          (bound : ℕ) where
        abbrev prev : Option Manifest
        prev = last_manifest none hold.batches

        since-done : since_id prev ≡ last_id 0 done
        since-done =
            since_id-last h none chain_genesis 0 hold.batches hold.mirror.follows refl
            ∙ ap (last_id 0) hold.are

        start-done : start_hash prev ≡ some (head_hash h chain_genesis done)
        start-done =
            start_hash-last h none chain_genesis 0 hold.batches hold.mirror.follows refl
            ∙ ap (λ r. some (head_hash h chain_genesis r)) hold.are

        -- What an export of a table that begins with the exported rows looks at: the others.
        export_batch-rest :
            (rest : List AuditRow)
            → Between 1 (done ++ rest) bound
            → export_batch S settings h f now (done ++ rest) s
              ≡ export_rows S settings h f now prev rest s
        unfolding export_batch
        export_batch-rest rest b =
            ap (λ ms. export_after S settings h f now (done ++ rest) ms s)
              (list_manifests-mirror s hold.batches hold.mirror)
            ∙ ap
                (λ m.
                  export_rows S settings h f now m
                    (sort_by row_id (rows_after (since_id m) (done ++ rest))) s)
                (last?-last_manifest hold.batches)
            ∙ ap
                (λ n.
                  export_rows S settings h f now prev (sort_by row_id (rows_after n (done ++ rest)))
                    s)
                since-done
            ∙ ap (λ r. export_rows S settings h f now prev (sort_by row_id r) s)
                (rows_after-rest 0 done rest bound b)
            ∙ ap (λ r. export_rows S settings h f now prev r s)
                (sort_by-id (suc (last_id 0 done)) rest bound (Between-behind 0 done rest bound b))

        -- A bucket that holds a whole ordered table: another export reports no rows and writes nothing.
        pub export_batch-idempotent :
            Between 1 done bound → export_batch S settings h f now done s ≡ (ok nothing_new, s)
        export_batch-idempotent b =
            ap (λ r. export_batch S settings h f now r s) (sym (append-nil done))
            ∙ export_batch-rest [] (subst (λ r. Between 1 r bound) (sym (append-nil done)) b)

        module _ (row : AuditRow) (rows : List AuditRow)
            (b : Between 1 (done ++ row ∷ rows) bound) where
          -- The rows behind the exported ones do not continue their chain, so that the table no longer
          -- matches the bucket: the export raises RuntimeError and writes nothing.
          pub export_batch-refuses :
              let r = verify_chain h (row ∷ rows) (head_hash h chain_genesis done) in
              r.verified ≡ false
              → export_batch S settings h f now (done ++ row ∷ rows) s
                ≡ (err (runtime_error (refusal S settings h f now r)), s)
          export_batch-refuses broken =
              export_batch-rest (row ∷ rows) b
              ∙ ap
                  (λ o.
                    write_batch S settings h f now (verify_from h (row ∷ rows) o)
                      (batch_of S settings h f now prev row rows) s)
                  start-done
              ∙ rw broken refl

          abbrev new_batch : Batch
          new_batch = batch_of S settings h f now prev row rows

          module _ (chained : Chained h chain_genesis (done ++ row ∷ rows)) where
            new-Chained : Chained h (head_hash h chain_genesis done) (row ∷ rows)
            new-Chained = (Chained-split h chain_genesis done (row ∷ rows) chained).1

            new-IsBatch : IsBatch h prev (head_hash h chain_genesis done) (last_id 0 done) new_batch
            new-IsBatch =
                let behind = Between-behind 0 done (row ∷ rows) bound b in
                record {
                  first = row;
                  others = rows;
                  rows_are = refl;
                  starts = refl;
                  ends = final_row-id row rows;
                  ordered =
                      omega
                        (arith, final_row-id row rows, last_id-above row.id rows bound behind.1);
                  above = behind.0;
                  counted = refl;
                  headed = final_row-head h (head_hash h chain_genesis done) row rows new-Chained;
                  behind = refl;
                  chained = new-Chained;
                }

            -- The bucket holds the first rows of a sound table, and the keys of the new objects are new:
            -- the export returns, reports the ids of the rows that were missing and their number, and
            -- the bucket holds the whole table.
            pub export_batch-Exports :
                S.get s new_batch.manifest.data_key ≡ none
                → S.get s new_batch.manifest.manifest_key ≡ none
                → Exports S settings h s (done ++ row ∷ rows) (row ∷ rows) f now
            export_batch-Exports fresh_data fresh_manifest =
                let t = put_data S settings new_batch s in
                let first = row.id in
                let final = (final_row row rows).id in
                let under = manifest_key-HasPrefix f settings now first final in
                let aside = data_key-prefix f settings now first final in
                let mirrored =
                  put_data-IsMirror S settings h laws s hold.batches new_batch fresh_data aside
                    hold.mirror in
                let next =
                  subst (λ r. IsBatch h prev (head_hash h chain_genesis r) (last_id 0 r) new_batch)
                    (sym hold.are) new-IsBatch in
                record {
                  after = put_manifest S settings new_batch t;
                  result = summary S settings new_batch;
                  returned =
                      export_batch-rest (row ∷ rows) b
                      ∙ ap
                          (λ o.
                            write_batch S settings h f now (verify_from h (row ∷ rows) o) new_batch
                              s)
                          start-done
                      ∙ ap
                          (λ v.
                            if not v
                            then (
                              err (
                                  runtime_error (
                                    refusal S settings h f now (
                                      verify_chain h (row ∷ rows)
                                        (head_hash h chain_genesis done)))),
                              s,
                            )
                            else (
                              ok (summary S settings new_batch),
                              put_manifest S settings new_batch t,
                            ))
                          ((verify_chain-verified_iff h (row ∷ rows)
                              (head_hash h chain_genesis done)).1
                            new-Chained);
                  holds = record {
                    batches = hold.batches ++ new_batch ∷ [];
                    are =
                        rows_of-append hold.batches new_batch ∙ ap (λ r. r ++ row ∷ rows) hold.are;
                    mirror =
                        put_manifest-IsMirror S settings h laws t hold.batches new_batch
                          (still_fresh S settings h laws s new_batch fresh_manifest under aside)
                          under (manifest_key-suffix f settings now first final)
                          (get-put_same S settings h laws s new_batch.manifest.data_key
                            (jsonl new_batch.rows))
                          next mirrored;
                  };
                  counted = refl;
                }
