-- ===== src/Audit/Export/Bucket.antt =====
-- The objects of the export bucket, and the bucket as a parameter with what S3 documents of it.
use compliance_agent_platfor.Base.{
  ℕ, String, ◌≡◌, ◌≢◌, List, ◌∷◌, ◌++◌, Option, none, some, All, str_eq, if◌then◌else◌,
}
use compliance_agent_platfor.Audit.Log.{AuditRow}

pub record Manifest : Type 0 where
  pub first_id : ℕ
  pub last_id : ℕ
  pub row_count : ℕ
  pub chain_head_hash : Option String
  pub prev_manifest_key : Option String
  pub manifest_key : String
  pub data_key : String
  pub created_at : ℕ

-- The two kinds of files: rows in JSON, one in each line, and a manifest in JSON.
pub data Body : Type 0 where
  jsonl : List AuditRow → Body
  manifest_json : Manifest → Body

-- `put_object`, `get_object` and the keys of `list_objects_v2` under a prefix, page after page.
pub record ObjectStore : Type 1 where
  pub State : Type 0
  pub put : State → String → Body → State
  pub get : State → String → Option Body
  pub keys : State → String → List String

-- A new key appears once among those that were listed before.
pub record Lists (before after : List String) (key : String) : Type 0 where
  pub front : List String
  pub back : List String
  pub were : before ≡ front ++ back
  pub are : after ≡ front ++ key ∷ back

-- Reads and listings follow every write, and a listing names stored objects only.
pub record IsConsistent (S : ObjectStore) (has_prefix : String → String → Type 0) : Type 0 where
  pub get-put :
      (s : S.State) (k : String) (b : Body) (j : String)
      → S.get (S.put s k b) j ≡ (if str_eq j k then some b else S.get s j)
  pub keys-stored : (s : S.State) (prefix : String) → All (λ k. S.get s k ≢ none) (S.keys s prefix)
  pub keys-new :
      (s : S.State) (k prefix : String) (b : Body)
      → S.get s k ≡ none
      → has_prefix prefix k
      → Lists (S.keys s prefix) (S.keys (S.put s k b) prefix) k
  pub keys-other :
      (s : S.State) (k prefix : String) (b : Body)
      → S.get s k ≡ none
      → ¬ has_prefix prefix k
      → S.keys (S.put s k b) prefix ≡ S.keys s prefix
