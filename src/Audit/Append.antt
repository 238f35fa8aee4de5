-- ===== src/Audit/Append.antt =====
-- What `write_audit` does to a well-formed table.
use compliance_agent_platfor.Base.{
  ℕ, suc, ◌≤◌, ◌≡◌, refl, ap, ◌∙◌, String, List, [], ◌∷◌, ◌++◌, Option, none, some, arith, text_or,
  last?,
}
use compliance_agent_platfor.Audit.Log.{
  AuditRecord, AuditRow, AuditTable, Hasher, chain_genesis, chain_hash, new_row, make_row,
  write_audit, newest, tail_hash,
}
use compliance_agent_platfor.Audit.Chain.{IsLink, Chained, head_hash, next_hash, Chained-append}

-- Every id is below `bound`, and above those before it.
abbrev pub Between : ℕ → List AuditRow → ℕ → Type 0
Between low [] bound = low ≤ bound
Between low (row ∷ rows) bound = (low ≤ row.id) × Between (suc row.id) rows bound

pub Between-append :
    (low : ℕ) (xs : List AuditRow) (row : AuditRow)
    → Between low xs row.id
    → Between low (xs ++ row ∷ []) (suc row.id)
Between-append low [] row b = (b, omega arith)
Between-append low (x ∷ xs) row b = (b.0, Between-append (suc x.id) xs row b.1)

pub Between-weaken :
    (low : ℕ) (xs : List AuditRow) (a b : ℕ) → Between low xs a → a ≤ b → Between low xs b
Between-weaken low [] a b between l = omega arith
Between-weaken low (x ∷ xs) a b between l =
    (between.0, Between-weaken (suc x.id) xs a b between.1 l)

last-above :
    (low : ℕ) (x : AuditRow) (xs : List AuditRow) (bound : ℕ)
    → Between low (x ∷ xs) bound
    → (row : AuditRow) × (last? (x ∷ xs) ≡ some row) × (low ≤ row.id)
last-above low x [] bound b = (x, refl, b.0)
last-above low x (y ∷ xs) bound b =
    let (row, e, above) = last-above (suc x.id) y xs bound b.1 in
    (row, e, omega (arith, above, b.0))

-- In ascending order the newest row is the last one.
pub newest-eq-last :
    (low : ℕ) (xs : List AuditRow) (bound : ℕ) → Between low xs bound → newest xs ≡ last? xs
unfolding newest
newest-eq-last low [] bound b = refl
newest-eq-last low (x ∷ []) bound b = refl
newest-eq-last low (x ∷ y ∷ xs) bound b =
    let (row, e, above) = last-above (suc x.id) y xs bound b.1 in
    rw (newest-eq-last (suc x.id) (y ∷ xs) bound b.1, e) (ground (arith, above))

stored_tail :
    (tail : Option AuditRow) → text_or (some (tail_hash tail)) chain_genesis ≡ tail_hash tail
stored_tail none = refl
stored_tail (some row) = ground arith

module _ (h : Hasher) where
  -- The table that `write_audit` alone has filled: one chain from the genesis hash, ids in order.
  pub record IsSound (table : AuditTable) : Type 0 where
    pub chained : Chained h chain_genesis table.rows
    pub ordered : Between 0 table.rows table.next_id

  -- The stored hash of the last row is the head of the chain.
  tail_hash-eq-head :
      (start : String) (row : AuditRow) (rows : List AuditRow)
      → Chained h start (row ∷ rows)
      → tail_hash (last? (row ∷ rows)) ≡ head_hash h start (row ∷ rows)
  unfolding chain_hash
  tail_hash-eq-head start row [] c = rw (c.0.hashed) (rw (h.sha256_truthy _) refl)
  tail_hash-eq-head start row (y ∷ rows) c = tail_hash-eq-head (next_hash h start row) y rows c.1

  pub tail_hash-last :
      (rows : List AuditRow)
      → Chained h chain_genesis rows
      → tail_hash (last? rows) ≡ head_hash h chain_genesis rows
  tail_hash-last [] c = refl
  tail_hash-last (row ∷ rows) c = tail_hash-eq-head chain_genesis row rows c

  -- What `write_audit` reads as the tail is the head of the chain, also of the empty table.
  pub tail_hash-newest :
      (table : AuditTable)
      → IsSound table
      → tail_hash (newest table.rows) ≡ head_hash h chain_genesis table.rows
  tail_hash-newest table s =
      rw (newest-eq-last 0 table.rows table.next_id s.ordered) (tail_hash-last table.rows s.chained)

  -- A row made from the tail that was read continues the chain, whatever its id.
  pub make_row-IsLink :
      (id now : ℕ) (r : AuditRecord) (prev : String) (table : AuditTable)
      → IsSound table
      → prev ≡ tail_hash (newest table.rows)
      → IsLink h (head_hash h chain_genesis table.rows) (make_row h id now r prev)
  unfolding make_row
  make_row-IsLink id now r prev table s e =
      let to_head : prev ≡ head_hash h chain_genesis table.rows = e ∙ tail_hash-newest table s in
      record {
        linked = rw e (stored_tail (newest table.rows) ∙ tail_hash-newest table s);
        hashed = ap (λ p. some (chain_hash h r now p)) to_head;
      }

  -- `write_audit` keeps a table sound: one chain from the genesis hash, with ascending ids.
  pub write_audit-IsSound :
      (now : ℕ) (r : AuditRecord) (table : AuditTable)
      → IsSound table
      → IsSound (write_audit h now r table)
  unfolding write_audit
  write_audit-IsSound now r table s = record {
    chained =
        Chained-append h chain_genesis table.rows _ s.chained
          (make_row-IsLink table.next_id now r (tail_hash (newest table.rows)) table s refl, tt);
    ordered = Between-append 0 table.rows (new_row h now r table) s.ordered;
  }
