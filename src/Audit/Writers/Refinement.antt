-- ===== src/Audit/Writers/Refinement.antt =====
-- The interleaved statements of `write_audit` against one atomic `write_audit` for each commit.
use compliance_agent_platfor.Base.{
  ℕ, suc, ◌≡◌, refl, ◌∙◌, ap, sym, ◌⊎◌, inl, inr, [], ◌∷◌, ◌++◌, Option, none, some, ◌==◌, ==_iff,
  true, false,
}
use compliance_agent_platfor.Audit.Log.{
  AuditTable, Hasher, make_row, newest, tail_hash, write_audit,
}
use compliance_agent_platfor.Audit.Writers.{
  Phase, idle, locked, tail_read, inserted, System, set_phase, Step, take_lock, read_tail, insert,
  commit, rollback, Reach, here, next, IsSafe, Fits-at, phases-after, others-idle, outsider-idle,
  Step-IsSafe,
}

-- The table without the value of the sequence that a writer has taken and not yet committed.
abbrev pub settled : AuditTable → Phase → AuditTable
settled table idle = table
settled table (locked r) = table
settled table (tail_read r prev) = table
settled table (inserted id now r prev) = record { rows = table.rows; next_id = id }

abbrev pub holder_phase : System → Option ℕ → Phase
holder_phase s none = idle
holder_phase s (some w) = s.phase w

-- What the table is to a caller of an atomic `write_audit`
abbrev pub view : System → AuditTable
view s = settled s.table (holder_phase s s.lock)

-- The value of the sequence is lost.
abbrev pub skip_id : AuditTable → AuditTable
skip_id table = record { rows = table.rows; next_id = suc table.next_id }

-- The id of a row that is inserted and not committed is the last that the sequence gave.
abbrev pub IsLast : AuditTable → Phase → Type 0
IsLast table idle = Unit
IsLast table (locked r) = Unit
IsLast table (tail_read r prev) = Unit
IsLast table (inserted id now r prev) = suc id ≡ table.next_id

same_test : (w : ℕ) → (w == w) ≡ true
same_test w = (==_iff w w).1 refl

module _ (h : Hasher) where
  pub record IsExact (s : System) : Type 0 where
    pub safe : IsSafe h s
    pub last : (w : ℕ) → IsLast s.table (s.phase w)

  IsLast-after :
      (s : System) (table : AuditTable) (w : ℕ) (p : Phase)
      → IsLast table p
      → ((v : ℕ) → (v == w) ≡ false → s.phase v ≡ idle)
      → (v : ℕ) → IsLast table (set_phase w p s v)
  IsLast-after s table w p f others = phases-after h (λ v. IsLast table) s w p (λ v. tt) f others

  Step-IsLast : (s t : System) → IsExact s → Step h s t → (v : ℕ) → IsLast t.table (t.phase v)
  Step-IsLast s t exact (take_lock w r e l q) = rw q (
      IsLast-after s s.table w (locked r) tt
        (λ v d. outsider-idle h s v (s.phase v) (exact.safe.fits v) (λ p. cc (p, l))))
  Step-IsLast s t exact (read_tail w r e q) = rw q (
      IsLast-after s s.table w _ tt
        (others-idle h s w exact.safe (Fits-at h s w (locked r) exact.safe e)))
  Step-IsLast s t exact (insert w now r prev e q) = rw q (
      IsLast-after s (skip_id s.table) w (inserted s.next_id now r prev) refl
        (others-idle h s w exact.safe (Fits-at h s w (tail_read r prev) exact.safe e).0))
  Step-IsLast s t exact (commit w id now r prev e q) = rw q (
      IsLast-after s
        (record { rows = s.rows ++ make_row h id now r prev ∷ []; next_id = s.next_id }) w idle tt
        (others-idle h s w exact.safe (Fits-at h s w (inserted id now r prev) exact.safe e).0))
  Step-IsLast s t exact (rollback w l q) =
      rw q (IsLast-after s s.table w idle tt (others-idle h s w exact.safe l))

  Step-IsExact : (s t : System) → IsExact s → Step h s t → IsExact t
  Step-IsExact s t exact step = record {
    safe = Step-IsSafe h s t exact.safe step;
    last = Step-IsLast s t exact step;
  }

  pub Reach-IsExact : (s t : System) → IsExact s → Reach h s t → IsExact t
  Reach-IsExact s t exact here = exact
  Reach-IsExact s t exact (next {t = m} r step) = Step-IsExact m t (Reach-IsExact s m exact r) step

  -- What each step has to do to the table that the callers see.
  abbrev pub Refines : (s t : System) → Step h s t → Type 0
  Refines s t (take_lock w r e l q) = view t ≡ view s
  Refines s t (read_tail w r e q) = view t ≡ view s
  Refines s t (insert w now r prev e q) =
      (view t ≡ view s) × (t.phase w ≡ inserted (view s).next_id now r prev)
  Refines s t (commit w id now r prev e q) = view t ≡ write_audit h now r (view s)
  Refines s t (rollback w l q) = (view t ≡ view s) ⊎ (view t ≡ skip_id (view s))

  view-held :
      (s : System) (w : ℕ) (p : Phase)
      → s.lock ≡ some w
      → s.phase w ≡ p
      → view s ≡ settled s.table p
  view-held s w p l e = rw (l, e) refl

  view-free : (s : System) → s.lock ≡ none → view s ≡ s.table
  view-free s l = rw l refl

  view-moved :
      (s t : System) (table : AuditTable) (lock : Option ℕ) (w : ℕ) (p : Phase)
      → lock ≡ some w
      → t ≡ record { table = table; lock = lock; phase = set_phase w p s }
      → view t ≡ settled table p
  view-moved s t table lock w p l q = rw (q, l, same_test w) refl

  rolled_back :
      (s : System) (p : Phase)
      → IsLast s.table p
      → (s.table ≡ settled s.table p) ⊎ (s.table ≡ skip_id (settled s.table p))
  rolled_back s idle f = inl refl
  rolled_back s (locked r) f = inl refl
  rolled_back s (tail_read r prev) f = inl refl
  rolled_back s (inserted id now r prev) f =
      inr (ap (λ n. record { rows = s.table.rows; next_id = n }) (sym f))

  -- In a system that is safe and whose uncommitted row has the last id of the sequence, a commit does
  -- to the table that the callers see what one atomic `write_audit` of the writer's record at its time
  -- does; taking the lock, reading the tail and the insert change nothing, and the insert takes the
  -- next id; a rollback changes nothing, or loses that one id.
  pub Step-Refines : (s t : System) → IsExact s → (step : Step h s t) → Refines s t step
  unfolding write_audit
  Step-Refines s t exact (take_lock w r e l q) =
      view-moved s t s.table (some w) w (locked r) refl q ∙ sym (view-free s l)
  Step-Refines s t exact (read_tail w r e q) =
      let l = Fits-at h s w (locked r) exact.safe e in
      view-moved s t s.table s.lock w (tail_read r (tail_hash (newest s.rows))) l q
      ∙ sym (view-held s w (locked r) l e)
  Step-Refines s t exact (insert w now r prev e q) =
      let l = (Fits-at h s w (tail_read r prev) exact.safe e).0 in
      let before = view-held s w (tail_read r prev) l e in
      (
        view-moved s t (skip_id s.table) s.lock w (inserted s.next_id now r prev) l q ∙ sym before,
        rw (q, same_test w, before) refl,
      )
  Step-Refines s t exact (commit w id now r prev e q) =
      let (l, read, between, below) = Fits-at h s w (inserted id now r prev) exact.safe e in
      let last : suc id ≡ s.next_id = rw e at (exact.last w) in
      rw (q, view-held s w (inserted id now r prev) l e, read, last) refl
  Step-Refines s t exact (rollback w l q) = rw (q, l) (rolled_back s (s.phase w) (exact.last w))
