-- ===== src/Audit/Log.antt =====
-- audit/log.py: the hash-chained, append-only table `screening_audit`. `json.dumps(sort_keys=True)`
-- and `hashlib.sha256` are the parameter `Hasher`.
use compliance_agent_platfor.Base.{
  ℕ, suc, ◌≡◌, String, Bool, true, false, not, List, [], ◌∷◌, ◌++◌, Option, none, some, ltb, str_eq,
  text_or, truthy, if◌then◌else◌,
}
use compliance_agent_platfor.Json.{Json, str, time, obj, field, end, opt}

pub record AuditRecord : Type 0 where
  pub alert_id : String
  pub thread_id : String
  pub step : String
  pub actor : String
  pub event : String
  pub checkpoint_id : Option String
  pub payload_hash : Option String
  pub llm_request : Option Json
  pub llm_response : Option Json
  pub model_id : Option String
  pub prompt_version : Option String
  pub detail : Option Json

-- A row of `screening_audit`; rows from before the hash chain have neither hash.
pub record AuditRow : Type 0 where
  pub id : ℕ
  pub entry : AuditRecord
  pub created_at : ℕ
  pub prev_hash : Option String
  pub record_hash : Option String

-- The committed rows, oldest first, and the next value of the `BIGSERIAL` sequence.
pub record AuditTable : Type 0 where
  pub rows : List AuditRow
  pub next_id : ℕ

-- `_CHAIN_GENESIS = "0" * 64`
abbrev pub chain_genesis : String
chain_genesis = "0000000000000000000000000000000000000000000000000000000000000000"

abbrev same_json : Json → Json
same_json j = j

-- The dict that `_chain_hash` serialises: the fields of the record, `created_at` and `prev_hash`.
unfoldable pub chain_payload : AuditRecord → ℕ → String → Json
chain_payload r created_at prev_hash = obj (
    field "alert_id" (str r.alert_id) (
      field "thread_id" (str r.thread_id) (
        field "step" (str r.step) (
          field "actor" (str r.actor) (
            field "event" (str r.event) (
              field "checkpoint_id" (opt str r.checkpoint_id) (
                field "payload_hash" (opt str r.payload_hash) (
                  field "llm_request" (opt same_json r.llm_request) (
                    field "llm_response" (opt same_json r.llm_response) (
                      field "model_id" (opt str r.model_id) (
                        field "prompt_version" (opt str r.prompt_version) (
                          field "detail" (opt same_json r.detail) (
                            field "created_at" (time created_at)
                              (field "prev_hash" (str prev_hash) end))))))))))))))

-- What the log relies on: a digest is not the empty text, and the serialised text of a payload
-- determines its member `prev_hash`.
pub record Hasher : Type 0 where
  pub dumps : Json → String
  pub sha256 : String → String
  pub sha256_truthy : (blob : String) → truthy (sha256 blob) ≡ true
  pub dumps_prev :
      (r s : AuditRecord) (t u : ℕ) (p q : String)
      → dumps (chain_payload r t p) ≡ dumps (chain_payload s u q)
      → p ≡ q

pub record ChainVerificationResult : Type 0 where
  pub verified : Bool  -- `ok`
  pub broken_at_id : Option ℕ
  pub reason : Option String

abbrev pub intact : ChainVerificationResult
intact = record { verified = true; broken_at_id = none; reason = none }

abbrev pub broken : ℕ → String → ChainVerificationResult
broken id reason = record { verified = false; broken_at_id = some id; reason = some reason }

-- `expected == stored`, where what is stored may be NULL
abbrev pub is_stored : Option String → String → Bool
is_stored none expected = false
is_stored (some stored) expected = str_eq expected stored

abbrev pub newer : AuditRow → Option AuditRow → Option AuditRow
newer row none = some row
newer row (some other) = if ltb row.id other.id then some other else some row

-- `SELECT record_hash ... ORDER BY id DESC LIMIT 1`: the row of the highest id
unfoldable pub newest : List AuditRow → Option AuditRow
newest [] = none
newest (row ∷ rows) = newer row (newest rows)

-- `tail[0] if tail and tail[0] else _CHAIN_GENESIS`
abbrev pub tail_hash : Option AuditRow → String
tail_hash none = chain_genesis
tail_hash (some row) = text_or row.record_hash chain_genesis

module _ (h : Hasher) where
  -- The text that a row's hash commits to.
  unfoldable pub chain_blob : AuditRecord → ℕ → String → String
  chain_blob r created_at prev_hash = h.dumps (chain_payload r created_at prev_hash)

  unfoldable pub hash_payload : Json → String
  hash_payload payload = h.sha256 (h.dumps payload)

  unfoldable pub chain_hash : AuditRecord → ℕ → String → String
  unfolding chain_blob
  chain_hash r created_at prev_hash = h.sha256 (chain_blob r created_at prev_hash)

  -- The row of the `INSERT`, with the id that the sequence gives.
  unfoldable pub make_row : ℕ → ℕ → AuditRecord → String → AuditRow
  make_row id now r prev = record {
    id = id;
    entry = r;
    created_at = now;
    prev_hash = some prev;
    record_hash = some (chain_hash r now prev);
  }

  unfoldable pub new_row : ℕ → AuditRecord → AuditTable → AuditRow
  unfolding newest make_row
  new_row now r table = make_row table.next_id now r (tail_hash (newest table.rows))

  -- One committed transaction: the tail is read and the row inserted under the advisory lock.
  unfoldable pub write_audit : ℕ → AuditRecord → AuditTable → AuditTable
  unfolding new_row
  write_audit now r table = record {
    rows = table.rows ++ new_row now r table ∷ [];
    next_id = suc table.next_id;
  }

  unfoldable pub verify_chain : List AuditRow → String → ChainVerificationResult
  verify_chain [] prev_hash = intact
  verify_chain (row ∷ rows) prev_hash =
      let expected = chain_hash row.entry row.created_at prev_hash in
      let rest = verify_chain rows expected in
      if not (str_eq (text_or row.prev_hash chain_genesis) prev_hash)
      then broken row.id "prev_hash does not match the previous row's record_hash"
      else if not (is_stored row.record_hash expected)
      then broken row.id "record_hash does not match the recomputed hash"
      else rest
