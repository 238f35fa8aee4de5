-- ===== src/Cost/Groups.antt =====
-- No group has two rows in a cost report.
use compliance_agent_platfor.Base.{
  ◌≡◌, Bool, false, ◌&&◌, List, [], ◌∷◌, map, All, str_eq, eq_iff, arith, inl, inr, Bool-cases,
}
use compliance_agent_platfor.Config.{Settings}
use compliance_agent_platfor.Cost.{
  Arithmetic, CallUsage, CostRow, same_group, fresh_row, count_usage, count_all, key_le, insert_row,
  sort_rows, priced,
}

abbrev pub same_key : CostRow → CostRow → Bool
same_key r s = str_eq r.queue s.queue && str_eq r.backend s.backend && str_eq r.model_id s.model_id

-- No two rows of one group
abbrev pub Distinct : List CostRow → Type 0
Distinct [] = Unit
Distinct (r ∷ rs) = All (λ s. same_key r s ≡ false) rs × Distinct rs

same_key_sym : (r s : CostRow) → same_key r s ≡ false → same_key s r ≡ false
same_key_sym r s e = ground (
  arith,
  e,
  eq_iff r.queue s.queue,
  eq_iff s.queue r.queue,
  eq_iff r.backend s.backend,
  eq_iff s.backend r.backend,
  eq_iff r.model_id s.model_id,
  eq_iff s.model_id r.model_id,
)

count_usage-All_other :
    (u : CallUsage) (r : CostRow) (rs : List CostRow)
    → same_key r (fresh_row u) ≡ false
    → All (λ s. same_key r s ≡ false) rs
    → All (λ s. same_key r s ≡ false) (count_usage u rs)
count_usage-All_other u r [] e a = (e, tt)
count_usage-All_other u r (s ∷ rs) e a = ground (arith, e, count_usage-All_other u r rs e a.1)

count_usage-Distinct :
    (u : CallUsage) (rs : List CostRow) → Distinct rs → Distinct (count_usage u rs)
count_usage-Distinct u [] d = (tt, tt)
count_usage-Distinct u (r ∷ rs) d = elim (Bool-cases (same_group u r)) [
  | inl e ↦ rw e d
  | inr e ↦ rw e (
    count_usage-All_other u r rs (same_key_sym (fresh_row u) r e) d.0,
    count_usage-Distinct u rs d.1,
  )
]

pub count_all-Distinct :
    (us : List CallUsage) (rs : List CostRow) → Distinct rs → Distinct (count_all us rs)
unfolding count_all
count_all-Distinct [] rs d = d
count_all-Distinct (u ∷ us) rs d =
    count_all-Distinct us (count_usage u rs) (count_usage-Distinct u rs d)

priced-All :
    (a : Arithmetic) (settings : Settings) (r : CostRow) (rs : List CostRow)
    → All (λ s. same_key r s ≡ false) rs
    → All (λ s. same_key (priced a settings r) s ≡ false) (map (priced a settings) rs)
priced-All a settings r [] d = tt
priced-All a settings r (s ∷ rs) d = (d.0, priced-All a settings r rs d.1)

pub priced-Distinct :
    (a : Arithmetic) (settings : Settings) (rs : List CostRow)
    → Distinct rs
    → Distinct (map (priced a settings) rs)
priced-Distinct a settings [] d = tt
priced-Distinct a settings (r ∷ rs) d =
    (priced-All a settings r rs d.0, priced-Distinct a settings rs d.1)

insert_row-All :
    (r x : CostRow) (rs : List CostRow)
    → same_key r x ≡ false
    → All (λ s. same_key r s ≡ false) rs
    → All (λ s. same_key r s ≡ false) (insert_row x rs)
insert_row-All r x [] e a = (e, tt)
insert_row-All r x (s ∷ rs) e a = ground (arith, e, insert_row-All r x rs e a.1)

insert_row-Distinct :
    (x : CostRow) (rs : List CostRow)
    → All (λ s. same_key x s ≡ false) rs
    → Distinct rs
    → Distinct (insert_row x rs)
insert_row-Distinct x [] a d = (tt, tt)
insert_row-Distinct x (s ∷ rs) a d = elim (Bool-cases (key_le x s)) [
  | inl e ↦ rw e (a, d)
  | inr e ↦
      rw e (insert_row-All s x rs (same_key_sym x s a.0) d.0, insert_row-Distinct x rs a.1 d.1)
]

sort_rows-All :
    (r : CostRow) (rs : List CostRow)
    → All (λ s. same_key r s ≡ false) rs
    → All (λ s. same_key r s ≡ false) (sort_rows rs)
sort_rows-All r [] a = tt
sort_rows-All r (x ∷ rs) a = insert_row-All r x (sort_rows rs) a.0 (sort_rows-All r rs a.1)

pub sort_rows-Distinct : (rs : List CostRow) → Distinct rs → Distinct (sort_rows rs)
sort_rows-Distinct [] d = tt
sort_rows-Distinct (r ∷ rs) d =
    insert_row-Distinct r (sort_rows rs) (sort_rows-All r rs d.0) (sort_rows-Distinct rs d.1)
