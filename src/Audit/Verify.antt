-- ===== src/Audit/Verify.antt =====
-- What `verify_chain` reports of a broken chain.
use compliance_agent_platfor.Base.{
  ◌≡◌, refl, ap, inl, inr, String, false, List, [], ◌∷◌, ◌++◌, some, eq_iff, str_eq, text_or,
  Bool-cases,
}
use compliance_agent_platfor.Audit.Log.{AuditRow, Hasher, chain_genesis, verify_chain, is_stored}
use compliance_agent_platfor.Audit.Chain.{IsLink, Chained, head_hash, next_hash, is_stored_iff}

module _ (h : Hasher) where
  -- The rows before the reported one are a chain, and the reported row does not continue it.
  pub record BreaksAt (start : String) (rows : List AuditRow) (row : AuditRow) : Type 0 where
    pub before : List AuditRow
    pub after : List AuditRow
    pub split : rows ≡ before ++ row ∷ after
    pub chained : Chained h start before
    pub unlinked : ¬ IsLink h (head_hash h start before) row

  broken_here :
      (row : AuditRow) (rows : List AuditRow) (start : String)
      → ¬ IsLink h start row
      → BreaksAt start (row ∷ rows) row
  broken_here row rows start bad = record {
    before = [];
    after = rows;
    split = refl;
    chained = tt;
    unlinked = bad;
  }

  broken_later :
      (row other : AuditRow) (rows : List AuditRow) (start : String)
      → IsLink h start row
      → BreaksAt (next_hash h start row) rows other
      → BreaksAt start (row ∷ rows) other
  broken_later row other rows start good b = record {
    before = row ∷ b.before;
    after = b.after;
    split = ap (λ r. row ∷ r) b.split;
    chained = (good, b.chained);
    unlinked = b.unlinked;
  }

  -- A refused list is reported at its first row that does not continue the chain before it.
  pub verify_chain-first_break :
      (rows : List AuditRow) (start : String)
      → (verify_chain h rows start).verified ≡ false
      → (row : AuditRow) × ((verify_chain h rows start).broken_at_id ≡ some row.id)
        × BreaksAt start rows row
  unfolding verify_chain
  verify_chain-first_break [] start e = cc
  verify_chain-first_break (row ∷ rows) start e =
      let expected = next_hash h start row in
      elim (Bool-cases (str_eq (text_or row.prev_hash chain_genesis) start)) [
        | inr unlinked ↦ (
          row,
          rw unlinked,
          broken_here row rows start
              (λ l. cc (unlinked, (eq_iff (text_or row.prev_hash chain_genesis) start).1 l.linked)),
        )
        | inl linked ↦ elim (Bool-cases (is_stored row.record_hash expected)) [
          | inr unhashed ↦ (
            row,
            rw (linked, unhashed),
            broken_here row rows start
                (λ l. cc (unhashed, (is_stored_iff h row.record_hash expected).1 l.hashed)),
          )
          | inl hashed ↦
              let (other, reported, breaks) =
                verify_chain-first_break rows expected (rw (linked, hashed) at e) in
              (
                other,
                rw (linked, hashed) reported,
                broken_later row other rows start
                    (record {
                      linked = (eq_iff _ _).0 linked;
                      hashed = (is_stored_iff h _ _).0 hashed;
                    })
                    breaks,
              )
        ]
      ]
