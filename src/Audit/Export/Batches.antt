-- ===== src/Audit/Export/Batches.antt =====
-- The batches that have been exported: each continues the one before it.
use compliance_agent_platfor.Base.{
  ℕ, suc, ◌≤◌, ◌<◌, ◌≡◌, refl, sym, ap, ◌∙◌, String, List, [], ◌∷◌, ◌++◌, map, append_assoc,
  append-nil, Option, none, some, All, last?, length, arith,
}
use compliance_agent_platfor.Base.Sort.{insert_by, sort_by}
use compliance_agent_platfor.Audit.Log.{AuditRow, Hasher}
use compliance_agent_platfor.Audit.Chain.{
  Chained, head_hash, next_hash, Chained-append, head_hash-append,
}
use compliance_agent_platfor.Audit.Append.{Between}
use compliance_agent_platfor.Audit.Export.{
  Batch, final_row, rows_after, since_id, start_hash, previous_key, row_id,
}
use compliance_agent_platfor.Audit.Export.Bucket.{Manifest}

abbrev pub manifest_of : Batch → Manifest
manifest_of b = b.manifest

abbrev pub rows_of : List Batch → List AuditRow
rows_of [] = []
rows_of (b ∷ bs) = b.rows ++ rows_of bs

abbrev pub last_manifest : Option Manifest → List Batch → Option Manifest
last_manifest prev [] = prev
last_manifest prev (b ∷ bs) = last_manifest (some b.manifest) bs

-- The id of the last row, or the one before them all.
abbrev pub last_id : ℕ → List AuditRow → ℕ
last_id low [] = low
last_id low (row ∷ rows) = last_id row.id rows

last_id-append :
    (low : ℕ) (xs ys : List AuditRow) → last_id low (xs ++ ys) ≡ last_id (last_id low xs) ys
last_id-append low [] ys = refl
last_id-append low (x ∷ xs) ys = last_id-append x.id xs ys

pub final_row-id :
    (row : AuditRow) (rows : List AuditRow) → (final_row row rows).id ≡ last_id row.id rows
final_row-id row [] = refl
final_row-id row (next ∷ rows) = final_row-id next rows

pub last_id-above :
    (low : ℕ) (rows : List AuditRow) (bound : ℕ)
    → Between (suc low) rows bound
    → low ≤ last_id low rows
last_id-above low [] bound b = omega arith
last_id-above low (row ∷ rows) bound b = omega (arith, b.0, last_id-above row.id rows bound b.1)

pub Between-behind :
    (low : ℕ) (xs ys : List AuditRow) (bound : ℕ)
    → Between (suc low) (xs ++ ys) bound
    → Between (suc (last_id low xs)) ys bound
Between-behind low [] ys bound b = b
Between-behind low (x ∷ xs) ys bound b = Between-behind x.id xs ys bound b.1

pub Between-front :
    (low : ℕ) (xs ys : List AuditRow) (bound : ℕ)
    → Between low (xs ++ ys) bound
    → (b : ℕ) × Between low xs b
Between-front low [] ys bound b = (low, omega arith)
Between-front low (x ∷ xs) ys bound b =
    let (c, d) = Between-front (suc x.id) xs ys bound b.1 in (c, (b.0, d))

-- Of rows in order, those behind the last exported id are those that were not exported.
rows_after-all :
    (since low : ℕ) (rows : List AuditRow) (bound : ℕ)
    → since < low
    → Between low rows bound
    → rows_after since rows ≡ rows
rows_after-all since low [] bound l b = refl
rows_after-all since low (row ∷ rows) bound l b =
    ground (arith, b.0, rows_after-all since (suc row.id) rows bound (omega (arith, b.0)) b.1)

pub rows_after-rest :
    (low : ℕ) (xs rest : List AuditRow) (bound : ℕ)
    → Between (suc low) (xs ++ rest) bound
    → rows_after (last_id low xs) (xs ++ rest) ≡ rest
rows_after-rest low [] rest bound b = rows_after-all low (suc low) rest bound (omega arith) b
rows_after-rest low (x ∷ xs) rest bound b =
    let (c, d) = Between-front (suc x.id) xs rest bound b.1 in
    ground (arith, rows_after-rest x.id xs rest bound b.1, last_id-above x.id xs c d)

insert_by-first :
    (low : ℕ) (x : AuditRow) (xs : List AuditRow) (bound : ℕ)
    → Between low (x ∷ xs) bound
    → insert_by row_id x xs ≡ x ∷ xs
insert_by-first low x [] bound b = refl
insert_by-first low x (y ∷ ys) bound b = ground (arith, b.1.0)

pub sort_by-id :
    (low : ℕ) (xs : List AuditRow) (bound : ℕ) → Between low xs bound → sort_by row_id xs ≡ xs
sort_by-id low [] bound b = refl
sort_by-id low (x ∷ xs) bound b =
    ap (insert_by row_id x) (sort_by-id (suc x.id) xs bound b.1) ∙ insert_by-first low x xs bound b

module _ (h : Hasher) where
  -- The stored hash of a chain's last row is the chain's head.
  pub final_row-head :
      (start : String) (row : AuditRow) (rows : List AuditRow)
      → Chained h start (row ∷ rows)
      → (final_row row rows).record_hash ≡ some (head_hash h start (row ∷ rows))
  final_row-head start row [] c = c.0.hashed
  final_row-head start row (next ∷ rows) c = final_row-head (next_hash h start row) next rows c.1

  -- The batch continues the manifest `prev`, the hash `start` and the id `low`.
  pub record IsBatch (prev : Option Manifest) (start : String) (low : ℕ) (b : Batch) : Type 0 where
    pub first : AuditRow
    pub others : List AuditRow
    pub rows_are : b.rows ≡ first ∷ others
    pub starts : b.manifest.first_id ≡ first.id
    pub ends : b.manifest.last_id ≡ last_id low b.rows
    pub ordered : b.manifest.first_id ≤ b.manifest.last_id
    pub above : low < b.manifest.first_id
    pub counted : b.manifest.row_count ≡ length b.rows
    pub headed : b.manifest.chain_head_hash ≡ some (head_hash h start b.rows)
    pub behind : b.manifest.prev_manifest_key ≡ previous_key prev
    pub chained : Chained h start b.rows

  abbrev pub Follows : Option Manifest → String → ℕ → List Batch → Type 0
  Follows prev start low [] = Unit
  Follows prev start low (b ∷ bs) =
      IsBatch prev start low b
      × Follows (some b.manifest) (head_hash h start b.rows) (last_id low b.rows) bs

  pub Follows-append :
      (prev : Option Manifest) (start : String) (low : ℕ) (bs : List Batch) (b : Batch)
      → Follows prev start low bs
      → IsBatch
          (last_manifest prev bs)
          (head_hash h start (rows_of bs))
          (last_id low (rows_of bs))
          b
      → Follows prev start low (bs ++ b ∷ [])
  Follows-append prev start low [] b f i = (i, tt)
  Follows-append prev start low (c ∷ bs) b f i = (
    f.0,
    Follows-append (some c.manifest) (head_hash h start c.rows) (last_id low c.rows) bs b f.1 (
        rw (head_hash-append h start c.rows (rows_of bs), last_id-append low c.rows (rows_of bs)) at
          i),
  )

  pub Follows-Chained :
      (prev : Option Manifest) (start : String) (low : ℕ) (bs : List Batch)
      → Follows prev start low bs
      → Chained h start (rows_of bs)
  Follows-Chained prev start low [] f = tt
  Follows-Chained prev start low (b ∷ bs) f =
      Chained-append h start b.rows (rows_of bs) f.0.chained
        (Follows-Chained (some b.manifest) (head_hash h start b.rows) (last_id low b.rows) bs f.1)

  -- The last manifest names the end of the exported rows.
  pub start_hash-last :
      (prev : Option Manifest) (start : String) (low : ℕ) (bs : List Batch)
      → Follows prev start low bs
      → start_hash prev ≡ some start
      → start_hash (last_manifest prev bs) ≡ some (head_hash h start (rows_of bs))
  start_hash-last prev start low [] f e = e
  start_hash-last prev start low (b ∷ bs) f e =
      start_hash-last (some b.manifest) (head_hash h start b.rows) (last_id low b.rows) bs f.1
        f.0.headed
      ∙ ap some (sym (head_hash-append h start b.rows (rows_of bs)))

  pub since_id-last :
      (prev : Option Manifest) (start : String) (low : ℕ) (bs : List Batch)
      → Follows prev start low bs
      → since_id prev ≡ low
      → since_id (last_manifest prev bs) ≡ last_id low (rows_of bs)
  since_id-last prev start low [] f e = e
  since_id-last prev start low (b ∷ bs) f e =
      since_id-last (some b.manifest) (head_hash h start b.rows) (last_id low b.rows) bs f.1
        f.0.ends
      ∙ sym (last_id-append low b.rows (rows_of bs))

  low-last_id :
      (prev : Option Manifest) (start : String) (low : ℕ) (bs : List Batch)
      → Follows prev start low bs
      → low ≤ last_id low (rows_of bs)
  low-last_id prev start low [] f = omega arith
  low-last_id prev start low (b ∷ bs) f =
      let rest =
        low-last_id (some b.manifest) (head_hash h start b.rows) (last_id low b.rows) bs f.1 in
      rw (last_id-append low b.rows (rows_of bs))
        (omega (arith, rest, f.0.ends, f.0.above, f.0.ordered))

  -- No batch starts behind the last exported id.
  pub first_ids-below :
      (prev : Option Manifest) (start : String) (low m : ℕ) (bs : List Batch)
      → Follows prev start low bs
      → last_id low (rows_of bs) < m
      → All (λ (x : Manifest). x.first_id < m) (map manifest_of bs)
  first_ids-below prev start low m [] f l = tt
  first_ids-below prev start low m (b ∷ bs) f l =
      let e = last_id-append low b.rows (rows_of bs) in
      let r =
        low-last_id (some b.manifest) (head_hash h start b.rows) (last_id low b.rows) bs f.1 in
      (
        omega (arith, e, r, l, f.0.ends, f.0.ordered),
        first_ids-below (some b.manifest) (head_hash h start b.rows) (last_id low b.rows) m bs f.1
            (rw e at l),
      )

pub last?-manifests :
    (prev : Option Manifest) (b : Batch) (bs : List Batch)
    → last? (map manifest_of (b ∷ bs)) ≡ last_manifest prev (b ∷ bs)
last?-manifests prev b [] = refl
last?-manifests prev b (c ∷ bs) = last?-manifests (some b.manifest) c bs

pub last?-last_manifest : (bs : List Batch) → last? (map manifest_of bs) ≡ last_manifest none bs
last?-last_manifest [] = refl
last?-last_manifest (b ∷ bs) = last?-manifests none b bs

pub rows_of-append : (bs : List Batch) (b : Batch) → rows_of (bs ++ b ∷ []) ≡ rows_of bs ++ b.rows
rows_of-append [] b = append-nil b.rows
rows_of-append (c ∷ bs) b =
    ap (λ r. c.rows ++ r) (rows_of-append bs b) ∙ sym (append_assoc c.rows (rows_of bs) b.rows)
