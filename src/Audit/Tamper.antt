-- ===== src/Audit/Tamper.antt =====
-- What a chain's head hash pins down: the rows behind it, unless sha256 itself is broken.
use compliance_agent_platfor.Base.{
  ℕ, ◌≡◌, refl, sym, ap, ◌∙◌, inl, inr, ◌⊎◌, ◌≢◌, String, true, List, [], ◌∷◌, ◌++◌, leb, leb→le,
  last?, length, ◌≤◌, arith, eq_iff, str_eq, Bool-cases,
}
use compliance_agent_platfor.Audit.Log.{
  AuditRow, Hasher, chain_genesis, chain_hash, chain_blob, tail_hash, verify_chain,
}
use compliance_agent_platfor.Audit.Chain.{
  head_hash, next_hash, head_hash-append, verify_chain-verified_iff,
}
use compliance_agent_platfor.Audit.Append.{tail_hash-last}

le_cases : (a b : ℕ) → (a ≤ b) ⊎ (b ≤ a)
le_cases a b = grind arith

-- The last `n` of the rows, and those before them.
split_back :
    (n : ℕ) (xs : List AuditRow)
    → n ≤ length xs
    → (front : List AuditRow) × (back : List AuditRow) × (xs ≡ front ++ back) × (length back ≡ n)
split_back n [] l = ([], [], refl, omega arith)
split_back n (x ∷ xs) l = elim (Bool-cases (leb n (length xs))) [
  | inl less ↦
      let (front, back, p, e) = split_back n xs (leb→le n (length xs) less) in
      (x ∷ front, back, ap (λ r. x ∷ r) p, e)
  | inr all ↦ ([], x ∷ xs, refl, ground arith)
]

module _ (h : Hasher) where
  -- The texts that the rows' hashes commit to, from the first row on.
  abbrev pub blobs : String → List AuditRow → List String
  blobs start [] = []
  blobs start (row ∷ rows) =
      chain_blob h row.entry row.created_at start ∷ blobs (next_hash h start row) rows

  -- Two texts of one digest.
  pub record Collision : Type 0 where
    pub one : String
    pub other : String
    pub distinct : one ≢ other
    pub collide : h.sha256 one ≡ h.sha256 other

  -- A text whose digest is the given hash.
  pub record Preimage (hash : String) : Type 0 where
    pub text : String
    pub digest : h.sha256 text ≡ hash

  -- A nonempty chain's head is a digest.
  head_hash-Preimage :
      (start : String) (row : AuditRow) (rows : List AuditRow)
      → Preimage (head_hash h start (row ∷ rows))
  unfolding chain_hash
  head_hash-Preimage start row [] = record {
    text = chain_blob h row.entry row.created_at start;
    digest = refl;
  }
  head_hash-Preimage start row (y ∷ rows) = head_hash-Preimage (next_hash h start row) y rows

  -- Equal digests come from equal texts, or collide.
  digest-injective : (a b : String) → h.sha256 a ≡ h.sha256 b → (a ≡ b) ⊎ Collision
  digest-injective a b e = elim (Bool-cases (str_eq a b)) [
    | inl s ↦ inl ((eq_iff a b).0 s)
    | inr d ↦
        inr (record { one = a; other = b; distinct = λ p. cc (d, (eq_iff a b).1 p); collide = e })
  ]

  -- Equally many rows that end in one hash.
  data Agree (s t : String) (xs ys : List AuditRow) : Type 0 where
    same : s ≡ t → blobs s xs ≡ blobs t ys → Agree s t xs ys
    collision : Collision → Agree s t xs ys

  Agree-cons :
      (s t : String) (x y : AuditRow) (xs ys : List AuditRow)
      → Agree (next_hash h s x) (next_hash h t y) xs ys
      → Agree s t (x ∷ xs) (y ∷ ys)
  unfolding chain_hash chain_blob
  Agree-cons s t x y xs ys (same e bs) = elim (digest-injective _ _ e) [
    | inl texts ↦
        same (h.dumps_prev x.entry y.entry x.created_at y.created_at s t texts) (cc (texts, bs))
    | inr c ↦ collision c
  ]
  Agree-cons s t x y xs ys (collision c) = collision c

  heads-Agree :
      (s t : String) (xs ys : List AuditRow)
      → length xs ≡ length ys
      → head_hash h s xs ≡ head_hash h t ys
      → Agree s t xs ys
  heads-Agree s t [] [] l e = same e refl
  heads-Agree s t [] (y ∷ ys) l e = absurd (omega arith)
  heads-Agree s t (x ∷ xs) [] l e = absurd (omega arith)
  heads-Agree s t (x ∷ xs) (y ∷ ys) l e =
      Agree-cons s t x y xs ys
        (heads-Agree (next_hash h s x) (next_hash h t y) xs ys (omega arith) e)

  -- What two lists of rows with one start and one head can be.
  pub data SameHistory (start : String) (xs ys : List AuditRow) : Type 0 where
    same_texts : blobs start xs ≡ blobs start ys → SameHistory start xs ys
    collided : Collision → SameHistory start xs ys
    start_forged : Preimage start → SameHistory start xs ys

  SameHistory-sym :
      (start : String) (xs ys : List AuditRow) → SameHistory start xs ys → SameHistory start ys xs
  SameHistory-sym start xs ys (same_texts e) = same_texts (sym e)
  SameHistory-sym start xs ys (collided c) = collided c
  SameHistory-sym start xs ys (start_forged f) = start_forged f

  -- `xs` is the longer list: `back` holds its last rows, as many as `ys` has.
  aligned :
      (start : String) (front back ys : List AuditRow)
      → Agree (head_hash h start front) start back ys
      → SameHistory start (front ++ back) ys
  aligned start [] back ys (same e bs) = same_texts bs
  aligned start (f ∷ front) back ys (same e bs) =
      let p = head_hash-Preimage start f front in
      start_forged (record { text = p.text; digest = p.digest ∙ e })
  aligned start front back ys (collision c) = collided c

  heads-longer :
      (start : String) (xs ys : List AuditRow)
      → length ys ≤ length xs
      → head_hash h start xs ≡ head_hash h start ys
      → SameHistory start xs ys
  heads-longer start xs ys l e =
      let (front, back, p, n) = split_back (length ys) xs l in
      rw p (
        aligned start front back ys (
          heads-Agree (head_hash h start front) start back ys n
            (sym (head_hash-append h start front back) ∙ ap (head_hash h start) (sym p) ∙ e)))

  -- Two lists of rows with one start and one head commit to the same texts.
  pub heads-SameHistory :
      (start : String) (xs ys : List AuditRow)
      → head_hash h start xs ≡ head_hash h start ys
      → SameHistory start xs ys
  heads-SameHistory start xs ys e = elim (le_cases (length ys) (length xs)) [
    | inl l ↦ heads-longer start xs ys l e
    | inr l ↦ SameHistory-sym start ys xs (heads-longer start ys xs l (sym e))
  ]

  -- Two versions of the table that `verify_chain` accepts, and whose newest rows store one hash,
  -- agree row for row in the text that the row's hash commits to; or there is a collision of sha256,
  -- or a text whose digest is the genesis hash.
  pub verified-SameHistory :
      (xs ys : List AuditRow)
      → (verify_chain h xs chain_genesis).verified ≡ true
      → (verify_chain h ys chain_genesis).verified ≡ true
      → tail_hash (last? xs) ≡ tail_hash (last? ys)
      → SameHistory chain_genesis xs ys
  verified-SameHistory xs ys v w e = heads-SameHistory chain_genesis xs ys (
      sym (tail_hash-last h xs ((verify_chain-verified_iff h xs chain_genesis).0 v))
      ∙ e
      ∙ tail_hash-last h ys ((verify_chain-verified_iff h ys chain_genesis).0 w))
