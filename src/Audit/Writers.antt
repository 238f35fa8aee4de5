-- ===== src/Audit/Writers.antt =====
-- Concurrent calls of `write_audit`: the statements of many writers interleave in any order, and
-- any of them may crash. `pg_advisory_xact_lock` lets one transaction in at a time; a commit or a
-- rollback releases it; a value that the sequence gave is not given back.
pub mod Refinement
use compliance_agent_platfor.Base.{
  ℕ, suc, ◌≤◌, ◌≡◌, refl, sym, subst, inl, inr, String, true, false, [], ◌∷◌, ◌++◌, Option, none,
  some, arith, ◌==◌, ==_iff, Bool-cases, if◌then◌else◌,
}
use compliance_agent_platfor.Audit.Log.{
  AuditRecord, AuditTable, Hasher, chain_genesis, make_row, write_audit, newest, tail_hash,
  verify_chain,
}
use compliance_agent_platfor.Audit.Chain.{Chained-append, verify_chain-verified_iff}
use compliance_agent_platfor.Audit.Append.{
  Between, Between-append, Between-weaken, IsSound, make_row-IsLink,
}

-- How far a writer has come in `write_audit`.
pub data Phase : Type 0 where
  idle : Phase
  locked : AuditRecord → Phase
  tail_read : AuditRecord → String → Phase
  inserted : ℕ → ℕ → AuditRecord → String → Phase  -- with the row's id and `created_at`

pub record System : Type 0 where
  pub table : AuditTable
  pub open table use *
  pub lock : Option ℕ
  pub phase : ℕ → Phase

abbrev pub set_phase : ℕ → Phase → System → ℕ → Phase
set_phase w p s v = if v == w then p else s.phase v

module _ (h : Hasher) where
  pub data Step (s t : System) : Type 0 where
    -- `SELECT pg_advisory_xact_lock(...)` returns: nobody held the lock
    take_lock :
        (w : ℕ) (r : AuditRecord)
        → s.phase w ≡ idle
        → s.lock ≡ none
        → t ≡ record s { lock = some w; phase = set_phase w (locked r) s }
        → Step s t
    -- `SELECT record_hash ... ORDER BY id DESC LIMIT 1`
    read_tail :
        (w : ℕ) (r : AuditRecord)
        → s.phase w ≡ locked r
        → t ≡ record s { phase = set_phase w (tail_read r (tail_hash (newest s.rows))) s }
        → Step s t
    -- `INSERT`: the row has an id, and nobody else sees it
    insert :
        (w now : ℕ) (r : AuditRecord) (prev : String)
        → s.phase w ≡ tail_read r prev
        → t ≡ record s {
          table = record { rows = s.rows; next_id = suc s.next_id };
          phase = set_phase w (inserted s.next_id now r prev) s;
        }
        → Step s t
    -- `conn.commit()`
    commit :
        (w id now : ℕ) (r : AuditRecord) (prev : String)
        → s.phase w ≡ inserted id now r prev
        → t ≡ record {
          table = record { rows = s.rows ++ make_row h id now r prev ∷ []; next_id = s.next_id };
          lock = none;
          phase = set_phase w idle s;
        }
        → Step s t
    -- a crash or an error inside the transaction: it rolls back
    rollback :
        (w : ℕ)
        → s.lock ≡ some w
        → t ≡ record s { lock = none; phase = set_phase w idle s }
        → Step s t

  pub data Reach (s : System) : System → Type 0 where
    here : Reach s s
    next : {t u : System} → Reach s t → Step t u → Reach s u

  -- What holds of a writer in each phase, of the table and of the lock's holder.
  abbrev pub Fits : AuditTable → Option ℕ → ℕ → Phase → Type 0
  Fits table lock w idle = Unit
  Fits table lock w (locked r) = lock ≡ some w
  Fits table lock w (tail_read r prev) = (lock ≡ some w) × (prev ≡ tail_hash (newest table.rows))
  Fits table lock w (inserted id now r prev) =
      (lock ≡ some w)
      × (prev ≡ tail_hash (newest table.rows))
      × Between 0 table.rows id
      × (suc id ≤ table.next_id)

  pub record IsSafe (s : System) : Type 0 where
    pub sound : IsSound h s.table
    pub fits : (w : ℕ) → Fits s.table s.lock w (s.phase w)

  -- A writer that does not hold the lock is idle.
  pub outsider-idle :
      (s : System) (v : ℕ) (p : Phase) → Fits s.table s.lock v p → ¬ (s.lock ≡ some v) → p ≡ idle
  outsider-idle s v idle f n = refl
  outsider-idle s v (locked r) f n = absurd (n f)
  outsider-idle s v (tail_read r prev) f n = absurd (n f.0)
  outsider-idle s v (inserted id now r prev) f n = absurd (n f.0)

  -- While `w` holds the lock all others are idle.
  pub others-idle :
      (s : System) (w : ℕ)
      → IsSafe s
      → s.lock ≡ some w
      → (v : ℕ) → (v == w) ≡ false
      → s.phase v ≡ idle
  others-idle s w safe l v d =
      outsider-idle s v (s.phase v) (safe.fits v) (λ e. ground (arith, ==_iff v w))

  -- What holds of an idle writer and of the new phase of the one that moves holds of all phases.
  pub phases-after :
      (P : ℕ → Phase → Type 0) (s : System) (w : ℕ) (p : Phase)
      → ((v : ℕ) → P v idle)
      → P w p
      → ((v : ℕ) → (v == w) ≡ false → s.phase v ≡ idle)
      → (v : ℕ) → P v (set_phase w p s v)
  phases-after P s w p rest f others v = elim (Bool-cases (v == w)) [
    | inl e ↦ rw e (subst (λ u. P u p) (sym ((==_iff v w).0 e)) f)
    | inr d ↦ rw (d, others v d) (rest v)
  ]

  -- The writer that moves fits its new phase, and the others are idle.
  Fits-after :
      (s : System) (table : AuditTable) (lock : Option ℕ) (w : ℕ) (p : Phase)
      → Fits table lock w p
      → ((v : ℕ) → (v == w) ≡ false → s.phase v ≡ idle)
      → (v : ℕ) → Fits table lock v (set_phase w p s v)
  Fits-after s table lock w p f others = phases-after (Fits table lock) s w p (λ v. tt) f others

  pub Fits-at :
      (s : System) (w : ℕ) (p : Phase) → IsSafe s → s.phase w ≡ p → Fits s.table s.lock w p
  Fits-at s w p safe e = rw e at (safe.fits w)

  -- Every step keeps the table sound and the writers apart.
  pub Step-IsSafe : (s t : System) → IsSafe s → Step s t → IsSafe t
  unfolding make_row
  Step-IsSafe s t safe (take_lock w r e l q) = rw q (record {
    sound = safe.sound;
    fits =
        Fits-after s s.table (some w) w (locked r) refl
          (λ v d. outsider-idle s v (s.phase v) (safe.fits v) (λ p. cc (p, l)));
  })
  Step-IsSafe s t safe (read_tail w r e q) =
      let l = Fits-at s w (locked r) safe e in
      rw q (record {
        sound = safe.sound;
        fits =
            Fits-after s s.table s.lock w (tail_read r (tail_hash (newest s.rows))) (l, refl)
              (others-idle s w safe l);
      })
  Step-IsSafe s t safe (insert w now r prev e q) =
      let (l, read) = Fits-at s w (tail_read r prev) safe e in
      rw q (record {
        sound = record {
          chained = safe.sound.chained;
          ordered =
              Between-weaken 0 s.rows s.next_id (suc s.next_id) safe.sound.ordered (omega arith);
        };
        fits =
            Fits-after s (record { rows = s.rows; next_id = suc s.next_id }) s.lock w
              (inserted s.next_id now r prev) (l, read, safe.sound.ordered, omega arith)
              (others-idle s w safe l);
      })
  Step-IsSafe s t safe (commit w id now r prev e q) =
      let (l, read, between, below) = Fits-at s w (inserted id now r prev) safe e in
      let row = make_row h id now r prev in
      let link = make_row-IsLink h id now r prev s.table safe.sound read in
      rw q (record {
        sound = record {
          chained = Chained-append h chain_genesis s.rows (row ∷ []) safe.sound.chained (link, tt);
          ordered =
              Between-weaken 0 (s.rows ++ row ∷ []) (suc row.id) s.next_id
                (Between-append 0 s.rows row between) below;
        };
        fits =
            Fits-after s (record { rows = s.rows ++ row ∷ []; next_id = s.next_id }) none w idle tt
              (others-idle s w safe l);
      })
  Step-IsSafe s t safe (rollback w l q) = rw q (record {
    sound = safe.sound;
    fits = Fits-after s s.table none w idle tt (others-idle s w safe l);
  })

  pub Reach-IsSafe : (s t : System) → IsSafe s → Reach s t → IsSafe t
  Reach-IsSafe s t safe here = safe
  Reach-IsSafe s t safe (next {t = m} r step) = Step-IsSafe m t (Reach-IsSafe s m safe r) step

  -- From a safe system, however the writers interleave and crash, `verify_chain` accepts what is
  -- committed.
  pub Reach-verified :
      (s t : System) → IsSafe s → Reach s t → (verify_chain h t.rows chain_genesis).verified ≡ true
  Reach-verified s t safe r =
      (verify_chain-verified_iff h t.rows chain_genesis).1 (Reach-IsSafe s t safe r).sound.chained
