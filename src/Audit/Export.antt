-- ===== src/Audit/Export.antt =====
-- audit/s3_export.py: the export of the audit log to a bucket, and its verification.
pub mod Bucket
pub mod Keys
pub mod Batches
pub mod Mirror
pub mod Commit
pub mod Resume
pub mod Verify
pub mod Memory
mod Tests
use compliance_agent_platfor.Base.{
  ℕ, ◌<◌, String, Bool, true, false, not, ◌&&◌, ◌||◌, List, [], ◌∷◌, ◌++◌, Option, none, some,
  length, is_empty, last?, ltb, str_eq, text_or, truthy, if◌then◌else◌,
}
use compliance_agent_platfor.Base.Sort.{sort_by}
use compliance_agent_platfor.Base.Text.{◌+ₛ◌}
use compliance_agent_platfor.Config.{Settings}
use compliance_agent_platfor.Json.{Json, obj, field, end, str, int}
use compliance_agent_platfor.Error.{Result, ok, err, and_then, value_error, runtime_error, external}
use compliance_agent_platfor.Audit.Log.{
  AuditRow, Hasher, ChainVerificationResult, chain_genesis, verify_chain, broken, intact,
}
use compliance_agent_platfor.Audit.Export.Bucket.{ObjectStore, Body, jsonl, manifest_json, Manifest}
use compliance_agent_platfor.Audit.Export.Keys.{
  Formats, manifest_prefix, manifest_suffix, data_key_of, manifest_key_of, ends_with_suffix,
}

-- `object_lock_configuration`
abbrev pub object_lock_configuration : Settings → Json
object_lock_configuration settings =
    let retention =
      obj
        (field "Mode" (str "COMPLIANCE") (field "Days" (int settings.audit_retention_days) end)) in
    obj (
      field "ObjectLockEnabled" (str "Enabled")
        (field "Rule" (obj (field "DefaultRetention" retention end)) end))

pub record ExportResult : Type 0 where
  pub first_id : Option ℕ
  pub last_id : Option ℕ
  pub row_count : ℕ
  pub manifest_key : Option String

-- What one export writes: the rows, and the manifest that names them.
pub record Batch : Type 0 where
  pub rows : List AuditRow
  pub manifest : Manifest

-- `json.loads` of an object that ought to be a manifest
abbrev pub parse_manifest : Option Body → Result Manifest
parse_manifest none = err (external "NoSuchKey")
parse_manifest (some (jsonl rows)) = err (value_error "Extra data")
parse_manifest (some (manifest_json m)) = ok m

-- `_read_jsonl`, on the object: each line is parsed as it was dumped.
abbrev pub parse_jsonl : Option Body → Result (List AuditRow)
parse_jsonl none = err (external "NoSuchKey")
parse_jsonl (some (jsonl rows)) = ok rows
parse_jsonl (some (manifest_json m)) = err (value_error "Expecting value")

abbrev pub then_manifest : Result Manifest → Result (List Manifest) → Result (List Manifest)
then_manifest (err e) rest = err e
then_manifest (ok m) (err e) = err e
then_manifest (ok m) (ok ms) = ok (m ∷ ms)

abbrev pub row_id : AuditRow → ℕ
row_id row = row.id

abbrev pub first_id_of : Manifest → ℕ
first_id_of m = m.first_id

-- `SELECT * FROM screening_audit WHERE id > %s`
abbrev pub rows_after : ℕ → List AuditRow → List AuditRow
rows_after since [] = []
rows_after since (row ∷ rows) =
    let rest = rows_after since rows in if ltb since row.id then row ∷ rest else rest

-- `verify_chain(rows, start_hash=...)`; a missing start differs from every stored hash.
abbrev pub verify_from : Hasher → List AuditRow → Option String → ChainVerificationResult
verify_from h [] start = intact
verify_from h (row ∷ rows) none =
    broken row.id "prev_hash does not match the previous row's record_hash"
verify_from h (row ∷ rows) (some start) = verify_chain h (row ∷ rows) start

-- `prev_manifest["last_id"] if prev_manifest else 0`, and the like for the other two
abbrev pub since_id : Option Manifest → ℕ
since_id none = 0
since_id (some m) = m.last_id

abbrev pub start_hash : Option Manifest → Option String
start_hash none = some chain_genesis
start_hash (some m) = m.chain_head_hash

abbrev pub previous_key : Option Manifest → Option String
previous_key none = none
previous_key (some m) = some m.manifest_key

abbrev pub nothing_new : ExportResult
nothing_new = record { first_id = none; last_id = none; row_count = 0; manifest_key = none }

-- `rows[-1]`, of the first row and those behind it
abbrev pub final_row : AuditRow → List AuditRow → AuditRow
final_row row [] = row
final_row row (next ∷ rows) = final_row next rows

-- `rows[0].get("prev_hash") or _CHAIN_GENESIS`, for the check of all exported rows
abbrev pub verify_exported : Hasher → List AuditRow → ChainVerificationResult
verify_exported h [] = intact
verify_exported h (row ∷ rows) = verify_chain h (row ∷ rows) (text_or row.prev_hash chain_genesis)

-- `rows[-1].get("record_hash") != manifest.get("chain_head_hash")`, of rows that there are
abbrev pub same_hash : Option String → Option String → Bool
same_hash none none = true
same_hash (some a) (some b) = str_eq a b
same_hash _ _ = false

abbrev pub head_differs : Option AuditRow → Manifest → Bool
head_differs none m = false
head_differs (some row) m = not (same_hash row.record_hash m.chain_head_hash)

module _ (S : ObjectStore) (settings : Settings) where
  -- `_require_bucket`
  abbrev given_bucket : Option String → Result String
  given_bucket none = err (value_error "Settings.audit_export_bucket is not configured")
  given_bucket (some bucket) =
      if truthy bucket
      then ok bucket
      else err (value_error "Settings.audit_export_bucket is not configured")

  abbrev pub require_bucket : Result String
  require_bucket = given_bucket settings.audit_export_bucket

  -- The loop over the listed keys
  unfoldable pub load_manifests : S.State → List String → Result (List Manifest)
  load_manifests s [] = ok []
  load_manifests s (key ∷ keys) =
      let rest = load_manifests s keys in
      if ends_with_suffix key then then_manifest (parse_manifest (S.get s key)) rest else rest

  abbrev pub sorted_manifests : Result (List Manifest) → Result (List Manifest)
  sorted_manifests (err e) = err e
  sorted_manifests (ok ms) = ok (sort_by first_id_of ms)

  -- `_list_manifests`
  abbrev pub list_manifests : S.State → Result (List Manifest)
  list_manifests s =
      and_then require_bucket
        (λ bucket. sorted_manifests (load_manifests s (S.keys s (manifest_prefix settings))))

  -- The data file first, and the manifest behind it.
  abbrev pub put_data : Batch → S.State → S.State
  put_data b s = S.put s b.manifest.data_key (jsonl b.rows)

  abbrev pub put_manifest : Batch → S.State → S.State
  put_manifest b s = S.put s b.manifest.manifest_key (manifest_json b.manifest)

  abbrev pub summary : Batch → ExportResult
  summary b = record {
    first_id = some b.manifest.first_id;
    last_id = some b.manifest.last_id;
    row_count = b.manifest.row_count;
    manifest_key = some b.manifest.manifest_key;
  }

  module _ (h : Hasher) (f : Formats) (now : ℕ) where
    abbrev pub batch_of : Option Manifest → AuditRow → List AuditRow → Batch
    batch_of prev row rows =
        let final = final_row row rows in
        record {
          rows = row ∷ rows;
          manifest = record {
            first_id = row.id;
            last_id = final.id;
            row_count = length (row ∷ rows);
            chain_head_hash = final.record_hash;
            prev_manifest_key = previous_key prev;
            manifest_key = manifest_key_of f settings now row.id final.id;
            data_key = data_key_of f settings now row.id final.id;
            created_at = now;
          };
        }

    abbrev id_text : Option ℕ → String
    id_text none = "None"
    id_text (some id) = f.decimal id

    abbrev pub refusal : ChainVerificationResult → String
    refusal r =
        "refusing to export: chain continuity broken at row "
        +ₛ id_text r.broken_at_id
        +ₛ " ("
        +ₛ text_or r.reason "None"
        +ₛ ") - the live table no longer matches the last export"

    -- The two writes, unless the chain is broken.
    abbrev pub write_batch :
        ChainVerificationResult → Batch → S.State → Result ExportResult × S.State
    write_batch r b s =
        if not r.verified
        then (err (runtime_error (refusal r)), s)
        else (ok (summary b), put_manifest b (put_data b s))

    abbrev pub export_rows :
        Option Manifest → List AuditRow → S.State → Result ExportResult × S.State
    export_rows prev [] s = (ok nothing_new, s)
    export_rows prev (row ∷ rows) s =
        write_batch (verify_from h (row ∷ rows) (start_hash prev)) (batch_of prev row rows) s

    abbrev pub export_after :
        List AuditRow → Result (List Manifest) → S.State → Result ExportResult × S.State
    export_after table (err e) s = (err e, s)
    export_after table (ok ms) s =
        export_rows (last? ms) (sort_by row_id (rows_after (since_id (last? ms)) table)) s

    unfoldable pub export_batch : List AuditRow → S.State → Result ExportResult × S.State
    unfolding load_manifests
    export_batch table s = export_after table (list_manifests s) s

  module _ (h : Hasher) where
    -- The loop over the manifests, with `prev_key` and `all_rows`.
    unfoldable pub verify_batches :
        S.State → List Manifest → Option String → List AuditRow → Result ChainVerificationResult
    verify_batches s [] prev_key all_rows = ok (verify_exported h all_rows)
    verify_batches s (m ∷ ms) prev_key all_rows =
        if not (same_hash m.prev_manifest_key prev_key)
        then ok (broken m.first_id "manifest chain is broken: prev_manifest_key mismatch")
        else and_then (parse_jsonl (S.get s m.data_key)) (λ rows.
          if head_differs (last? rows) m
          then ok (
              broken m.last_id
                "manifest chain_head_hash does not match its data file's last record_hash")
          else verify_batches s ms (some m.manifest_key) (all_rows ++ rows))

    unfoldable pub verify_export : S.State → Result ChainVerificationResult
    unfolding verify_batches load_manifests
    verify_export s = and_then (list_manifests s) (λ ms. verify_batches s ms none [])
