-- ===== src/Cost/Totals.antt =====
-- The rows of a cost report add up, group by group, to the audit rows that it counts.
use compliance_agent_platfor.Base.{
  ℕ, ◌+◌, String, ◌≡◌, refl, sym, ap, ◌∙◌, Bool, true, false, ◌&&◌, List, [], ◌∷◌, map, Option,
  arith, inl, inr, str_eq, eq_iff, text_or, Bool-cases,
}
use compliance_agent_platfor.Base.Sort.{insert_by, sort_by}
use compliance_agent_platfor.Config.{Settings}
use compliance_agent_platfor.Error.{Result, ok}
use compliance_agent_platfor.Audit.Log.{AuditRow}
use compliance_agent_platfor.Cost.{
  Arithmetic, CallUsage, CostRow, CostReport, usage_time, same_group, fresh_row, counted,
  count_usage, count_all, key_le, insert_row, sort_rows, priced, report_rows, report_of,
  build_cost_report,
}
use compliance_agent_platfor.Cost.Query.{
  Column, calls_column, input_column, output_column, latency_column, Key, in_group, gate, total,
  used, usage_in, portion, recorded, HasAllNumbers, select-Selected,
}
use compliance_agent_platfor.Cost.Groups.{
  Distinct, count_all-Distinct, priced-Distinct, sort_rows-Distinct,
}

total-insert_by {ℓ} :
    {A : Type ℓ} (key g : A → ℕ) (x : A) (xs : List A)
    → total g (insert_by key x xs) ≡ g x + total g xs
total-insert_by key g x [] = refl
total-insert_by key g x (y ∷ ys) = ground (arith, total-insert_by key g x ys)

total-sort_by {ℓ} :
    {A : Type ℓ} (key g : A → ℕ) (xs : List A) → total g (sort_by key xs) ≡ total g xs
total-sort_by key g [] = refl
total-sort_by key g (x ∷ xs) =
    total-insert_by key g x (sort_by key xs) ∙ ap (λ n. g x + n) (total-sort_by key g xs)

abbrev pub column : Column → CostRow → ℕ
column calls_column r = r.calls
column input_column r = r.input_tokens
column output_column r = r.output_tokens
column latency_column r = r.latency_ms

abbrev pub row_in : Option Key → CostRow → Bool
row_in g r = in_group g r.queue r.backend r.model_id

-- What a row of the report has in a column of a group
abbrev pub share : Option Key → Column → CostRow → ℕ
share g c r = gate (row_in g r) (column c r)

in_group-same :
    (g : Option Key) (q b m q' b' m' : String)
    → (str_eq q q' && str_eq b b' && str_eq m m') ≡ true
    → in_group g q b m ≡ in_group g q' b' m'
in_group-same g q b m q' b' m' e = ground (arith, e, eq_iff q q', eq_iff b b', eq_iff m m')

gate_add : (b : Bool) (m n : ℕ) → gate b (m + n) ≡ gate b m + gate b n
gate_add true m n = refl
gate_add false m n = refl

column-counted :
    (c : Column) (u : CallUsage) (r : CostRow) → column c (counted u r) ≡ column c r + used c u
column-counted calls_column u r = refl
column-counted input_column u r = refl
column-counted output_column u r = refl
column-counted latency_column u r = refl

column-fresh : (c : Column) (u : CallUsage) → column c (fresh_row u) ≡ 0
column-fresh calls_column u = refl
column-fresh input_column u = refl
column-fresh output_column u = refl
column-fresh latency_column u = refl

column-priced :
    (c : Column) (a : Arithmetic) (settings : Settings) (r : CostRow)
    → column c (priced a settings r) ≡ column c r
column-priced calls_column a settings r = refl
column-priced input_column a settings r = refl
column-priced output_column a settings r = refl
column-priced latency_column a settings r = refl

module _ (g : Option Key) (c : Column) where
  share-counted :
      (u : CallUsage) (r : CostRow)
      → same_group u r ≡ true
      → share g c (counted u r) ≡ share g c r + portion g c u
  share-counted u r e =
      ap (gate (row_in g r)) (column-counted c u r)
      ∙ gate_add (row_in g r) (column c r) (used c u)
      ∙ ap (λ b. share g c r + gate b (used c u))
          (sym (
            in_group-same g (text_or u.queue "unknown") (text_or u.backend "unknown")
              (text_or u.model_id "unknown") r.queue r.backend r.model_id e))

  share-fresh : (u : CallUsage) → share g c (counted u (fresh_row u)) ≡ portion g c u
  share-fresh u =
      ap (gate (usage_in g u)) (omega (arith, column-counted c u (fresh_row u), column-fresh c u))

  share-priced :
      (a : Arithmetic) (settings : Settings) (r : CostRow)
      → share g c (priced a settings r) ≡ share g c r
  share-priced a settings r = ap (gate (row_in g r)) (column-priced c a settings r)

  total-count_usage :
      (u : CallUsage) (rs : List CostRow)
      → total (share g c) (count_usage u rs) ≡ total (share g c) rs + portion g c u
  total-count_usage u [] = omega (arith, share-fresh u)
  total-count_usage u (r ∷ rs) = elim (Bool-cases (same_group u r)) [
    | inl e ↦ rw e (omega (arith, share-counted u r e))
    | inr e ↦ rw e (omega (arith, total-count_usage u rs))
  ]

  total-count_all :
      (us : List CallUsage) (rs : List CostRow)
      → total (share g c) (count_all us rs) ≡ total (share g c) rs + total (portion g c) us
  unfolding count_all
  total-count_all [] rs = omega arith
  total-count_all (u ∷ us) rs =
      omega (arith, total-count_all us (count_usage u rs), total-count_usage u rs)

  total-insert_row :
      (r : CostRow) (rs : List CostRow)
      → total (share g c) (insert_row r rs) ≡ share g c r + total (share g c) rs
  total-insert_row r [] = refl
  total-insert_row r (s ∷ rs) = elim (Bool-cases (key_le r s)) [
    | inl e ↦ rw e refl
    | inr e ↦ rw e (omega (arith, total-insert_row r rs))
  ]

  total-sort_rows : (rs : List CostRow) → total (share g c) (sort_rows rs) ≡ total (share g c) rs
  total-sort_rows [] = refl
  total-sort_rows (r ∷ rs) = omega (arith, total-insert_row r (sort_rows rs), total-sort_rows rs)

  module _ (a : Arithmetic) (settings : Settings) where
    total-priced :
        (rs : List CostRow) → total (share g c) (map (priced a settings) rs) ≡ total (share g c) rs
    total-priced [] = refl
    total-priced (r ∷ rs) = omega (arith, share-priced a settings r, total-priced rs)

    total-report_rows :
        (us : List CallUsage)
        → total (share g c) (report_rows a settings us) ≡ total (portion g c) us
    total-report_rows us = omega (
      arith,
      total-sort_rows (map (priced a settings) (count_all us [])),
      total-priced (count_all us []),
      total-count_all us [],
    )

    total-report_of :
        (since : Option ℕ) (project_days now : ℕ) (us : List CallUsage)
        → total (share g c) (report_of a settings since project_days now us).rows
          ≡ total (portion g c) us
    total-report_of since project_days now [] = refl
    total-report_of since project_days now (u ∷ us) = total-report_rows (u ∷ us)

module _ (a : Arithmetic) (settings : Settings) where
  report_of-Distinct :
      (since : Option ℕ) (project_days now : ℕ) (us : List CallUsage)
      → Distinct (report_of a settings since project_days now us).rows
  report_of-Distinct since project_days now [] = tt
  report_of-Distinct since project_days now (u ∷ us) =
      sort_rows-Distinct (map (priced a settings) (count_all (u ∷ us) []))
        (priced-Distinct a settings (count_all (u ∷ us) []) (count_all-Distinct (u ∷ us) [] tt))

  module _ (since : Option ℕ) (queue backend : Option String) where
    -- A report was made, and a column of it has for a group what the rows of the table add up to.
    pub record Reports (g : Option Key) (c : Column) (table : List AuditRow) (r : Result CostReport)
        : Type 0 where
      pub report : CostReport
      pub returned : r ≡ ok report
      pub adds_up : total (share g c) report.rows ≡ recorded a since queue backend g c table
      pub distinct : Distinct report.rows

    -- If the token counts and latencies of the matching rows are missing, null or numbers of 32 bits,
    -- the report is made, and its rows are of different groups. For each group, and for all together,
    -- the calls are as many as the matching rows of the group, and the input tokens, output tokens and
    -- latencies add up to the numbers in the details of those rows.
    pub build_cost_report-Reports :
        (g : Option Key) (c : Column) (project_days now : ℕ) (table : List AuditRow)
        → HasAllNumbers a since queue backend table
        → Reports g c table
            (build_cost_report a settings since project_days queue backend now table)
    unfolding build_cost_report
    build_cost_report-Reports g c project_days now table numbers =
        let s = select-Selected a since queue backend table numbers in
        record {
          report = report_of a settings since project_days now (sort_by usage_time s.usages);
          returned = rw s.selected refl;
          adds_up =
              total-report_of g c a settings since project_days now (sort_by usage_time s.usages)
              ∙ total-sort_by usage_time (portion g c) s.usages
              ∙ s.sums g c;
          distinct = report_of-Distinct since project_days now (sort_by usage_time s.usages);
        }
