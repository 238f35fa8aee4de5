-- ===== src/Audit/Chain.antt =====
-- What a verified chain is, and that `write_audit` extends one.
use compliance_agent_platfor.Base.{
  ◌≡◌, refl, ◌↔◌, String, true, List, [], ◌∷◌, ◌++◌, Option, none, some, arith, eq_iff, text_or,
}
use compliance_agent_platfor.Audit.Log.{
  AuditRow, Hasher, chain_genesis, chain_hash, verify_chain, is_stored,
}

module _ (h : Hasher) where
  -- The hash that a row ought to have after `start`.
  abbrev pub next_hash : String → AuditRow → String
  next_hash start row = chain_hash h row.entry row.created_at start

  -- The row commits to its content and to the hash before it.
  pub record IsLink (prev : String) (row : AuditRow) : Type 0 where
    pub linked : text_or row.prev_hash chain_genesis ≡ prev
    pub hashed : row.record_hash ≡ some (next_hash prev row)

  abbrev pub Chained : String → List AuditRow → Type 0
  Chained start [] = Unit
  Chained start (row ∷ rows) = IsLink start row × Chained (next_hash start row) rows

  -- The hash that the next row has to name.
  abbrev pub head_hash : String → List AuditRow → String
  head_hash start [] = start
  head_hash start (row ∷ rows) = head_hash (next_hash start row) rows

  pub Chained-append :
      (start : String) (xs ys : List AuditRow)
      → Chained start xs
      → Chained (head_hash start xs) ys
      → Chained start (xs ++ ys)
  Chained-append start [] ys c d = d
  Chained-append start (x ∷ xs) ys c d = (c.0, Chained-append (next_hash start x) xs ys c.1 d)

  pub Chained-split :
      (start : String) (xs ys : List AuditRow)
      → Chained start (xs ++ ys)
      → Chained start xs × Chained (head_hash start xs) ys
  Chained-split start [] ys c = (tt, c)
  Chained-split start (x ∷ xs) ys c =
      let (l, r) = Chained-split (next_hash start x) xs ys c.1 in ((c.0, l), r)

  pub head_hash-append :
      (start : String) (xs ys : List AuditRow)
      → head_hash start (xs ++ ys) ≡ head_hash (head_hash start xs) ys
  head_hash-append start [] ys = refl
  head_hash-append start (x ∷ xs) ys = head_hash-append (next_hash start x) xs ys

  pub is_stored_iff :
      (o : Option String) (expected : String) → (is_stored o expected ≡ true) ↔ (o ≡ some expected)
  is_stored_iff none expected = ground arith
  is_stored_iff (some s) expected = ground (arith, eq_iff expected s)

  -- `verify_chain` accepts exactly the chained lists of rows, whatever hash they start from.
  pub verify_chain-verified_iff :
      (rows : List AuditRow) (start : String)
      → ((verify_chain h rows start).verified ≡ true) ↔ Chained start rows
  unfolding verify_chain
  verify_chain-verified_iff [] start = (λ e. tt, λ c. refl)
  verify_chain-verified_iff (row ∷ rows) start =
      let expected = next_hash start row in
      let rest = verify_chain-verified_iff rows expected in
      (
        λ e. ground (
          arith,
          eq_iff (text_or row.prev_hash chain_genesis) start,
          is_stored_iff row.record_hash expected,
          rest.0,
        ),
        λ c. ground (
          arith,
          eq_iff (text_or row.prev_hash chain_genesis) start,
          is_stored_iff row.record_hash expected,
          rest.1 c.1,
        ),
      )
