-- ===== src/Cost/Query.antt =====
-- The query of the cost report: which numbers it reads from the details of the audit rows.
use compliance_agent_platfor.Base.{
  ℕ, ◌+◌, ◌<◌, String, ◌≡◌, ◌⊎◌, refl, inl, inr, Bool, true, false, ◌&&◌, List, [], ◌∷◌, All,
  Option, none, some, arith, str_eq, text_or, Bool-cases, if◌then◌else◌,
}
use compliance_agent_platfor.Error.{Result, ok, err, and_then}
use compliance_agent_platfor.Json.{Json, null, str, int}
use compliance_agent_platfor.Audit.Log.{AuditRow}
use compliance_agent_platfor.Cost.{
  Arithmetic, CallUsage, json_member, member_text, member_int, int4, matches, usage_of, select,
  or_zero,
}

-- The numbers of a report's row
pub data Column : Type 0 where
  calls_column input_column output_column latency_column : Column

pub record Key : Type 0 where
  pub queue : String
  pub backend : String
  pub model_id : String

-- One group, or all
abbrev pub in_group : Option Key → String → String → String → Bool
in_group none queue backend model_id = true
in_group (some k) queue backend model_id =
    str_eq queue k.queue && str_eq backend k.backend && str_eq model_id k.model_id

abbrev pub gate : Bool → ℕ → ℕ
gate b n = if b then n else 0

abbrev pub total {ℓ} : {A : Type ℓ} → (A → ℕ) → List A → ℕ
total g [] = 0
total g (x ∷ xs) = g x + total g xs

abbrev pub used : Column → CallUsage → ℕ
used calls_column u = 1
used input_column u = or_zero u.input_tokens
used output_column u = or_zero u.output_tokens
used latency_column u = or_zero u.latency_ms

abbrev pub usage_in : Option Key → CallUsage → Bool
usage_in g u =
    in_group g (text_or u.queue "unknown") (text_or u.backend "unknown")
      (text_or u.model_id "unknown")

-- What a usage adds to a column of a group
abbrev pub portion : Option Key → Column → CallUsage → ℕ
portion g c u = gate (usage_in g u) (used c u)

abbrev number_or_zero : Result ℕ → ℕ
number_or_zero (ok n) = n
number_or_zero (err e) = 0

module _ (a : Arithmetic) where
  -- The number that a member of a detail stands for; a missing one and JSON's null count 0.
  abbrev pub number_of : Option Json → ℕ
  number_of none = 0
  number_of (some null) = 0
  number_of (some (int n)) = n
  number_of (some (str s)) = number_or_zero (a.int_of_text s)
  number_of (some j) = number_or_zero (a.int_of_text (a.json_text j))

  abbrev IsInt4 : Result ℕ → Type 0
  IsInt4 (ok n) = n < 2147483648
  IsInt4 (err e) = ⊥

  -- The member is missing, null, or stands for a number of 32 bits.
  abbrev pub IsNumber : Option Json → Type 0
  IsNumber none = Unit
  IsNumber (some null) = Unit
  IsNumber (some (int n)) = n < 2147483648
  IsNumber (some (str s)) = IsInt4 (a.int_of_text s)
  IsNumber (some j) = IsInt4 (a.int_of_text (a.json_text j))

  abbrev pub detail_at : String → AuditRow → Option Json
  detail_at key row = json_member key row.entry.detail

  abbrev pub spent : Column → AuditRow → ℕ
  spent calls_column row = 1
  spent input_column row = number_of (detail_at "input_tokens" row)
  spent output_column row = number_of (detail_at "output_tokens" row)
  spent latency_column row = number_of (detail_at "latency_ms" row)

  abbrev pub audit_in : Option Key → AuditRow → Bool
  audit_in g row =
      in_group g (text_or (member_text a (detail_at "queue" row)) "unknown")
        (text_or (member_text a (detail_at "backend" row)) "unknown")
        (text_or row.entry.model_id "unknown")

  pub record HasNumbers (row : AuditRow) : Type 0 where
    pub input : IsNumber (detail_at "input_tokens" row)
    pub output : IsNumber (detail_at "output_tokens" row)
    pub latency : IsNumber (detail_at "latency_ms" row)

  -- A number that was read
  record Reads (n : ℕ) (r : Result (Option ℕ)) : Type 0 where
    value : Option ℕ
    read : r ≡ ok value
    same : or_zero value ≡ n

  int4-Reads : (n : ℕ) → n < 2147483648 → Reads n (int4 a n)
  int4-Reads n p = record { value = some n; read = ground arith; same = refl }

  and_then-Reads : (r : Result ℕ) → IsInt4 r → Reads (number_or_zero r) (and_then r (int4 a))
  and_then-Reads (ok n) p = int4-Reads n p
  and_then-Reads (err e) p = absurd p

  member_int-Reads : (o : Option Json) → IsNumber o → Reads (number_of o) (member_int a o)
  member_int-Reads none p = record { value = none; read = refl; same = refl }
  member_int-Reads (some null) p = record { value = none; read = refl; same = refl }
  member_int-Reads (some (int n)) p = int4-Reads n p
  member_int-Reads (some (str s)) p = and_then-Reads (a.int_of_text s) p
  member_int-Reads (some j) p = and_then-Reads (a.int_of_text (a.json_text j)) p

  abbrev usage_with : AuditRow → Option ℕ → Option ℕ → Option ℕ → CallUsage
  usage_with row input output latency = record {
    queue = member_text a (detail_at "queue" row);
    backend = member_text a (detail_at "backend" row);
    model_id = row.entry.model_id;
    input_tokens = input;
    output_tokens = output;
    latency_ms = latency;
    created_at = row.created_at;
  }

  -- A row that was read
  record IsUsed (row : AuditRow) : Type 0 where
    usage : CallUsage
    read : usage_of a row ≡ ok usage
    adds : (g : Option Key) (c : Column) → portion g c usage ≡ gate (audit_in g row) (spent c row)

  portion-spent :
      (row : AuditRow)
      (i : Reads
        (number_of (detail_at "input_tokens" row))
        (member_int a (detail_at "input_tokens" row)))
      (o : Reads
        (number_of (detail_at "output_tokens" row))
        (member_int a (detail_at "output_tokens" row)))
      (l : Reads
        (number_of (detail_at "latency_ms" row))
        (member_int a (detail_at "latency_ms" row)))
      (g : Option Key) (c : Column)
      → portion g c (usage_with row i.value o.value l.value) ≡ gate (audit_in g row) (spent c row)
  portion-spent row i o l g calls_column = refl
  portion-spent row i o l g input_column = rw i.same refl
  portion-spent row i o l g output_column = rw o.same refl
  portion-spent row i o l g latency_column = rw l.same refl

  usage_of-IsUsed : (row : AuditRow) → HasNumbers row → IsUsed row
  usage_of-IsUsed row p =
      let i = member_int-Reads (detail_at "input_tokens" row) p.input in
      let o = member_int-Reads (detail_at "output_tokens" row) p.output in
      let l = member_int-Reads (detail_at "latency_ms" row) p.latency in
      record {
        usage = usage_with row i.value o.value l.value;
        read = rw (i.read, o.read, l.read) refl;
        adds = portion-spent row i o l;
      }

  module _ (since : Option ℕ) (queue backend : Option String) where
    -- What the matching rows of a group add up to, read from their details
    abbrev pub recorded : Option Key → Column → List AuditRow → ℕ
    recorded g c [] = 0
    recorded g c (row ∷ rows) =
        gate (matches a since queue backend row && audit_in g row) (spent c row) + recorded g c rows

    -- Each matching row has its numbers.
    abbrev pub HasAllNumbers : List AuditRow → Type 0
    HasAllNumbers table =
        All (λ row. (matches a since queue backend row ≡ false) ⊎ HasNumbers row) table

    pub record Selected (table : List AuditRow) : Type 0 where
      pub usages : List CallUsage
      pub selected : select a since queue backend table ≡ ok usages
      pub sums : (g : Option Key) (c : Column) → total (portion g c) usages ≡ recorded g c table

    Selected-skip :
        (row : AuditRow) (table : List AuditRow)
        → matches a since queue backend row ≡ false
        → Selected table
        → Selected (row ∷ table)
    Selected-skip row table m s = record {
      usages = s.usages;
      selected = rw m s.selected;
      sums = λ g c. rw m (omega (arith, s.sums g c));
    }

    Selected-add :
        (row : AuditRow) (table : List AuditRow)
        → matches a since queue backend row ≡ true
        → IsUsed row
        → Selected table
        → Selected (row ∷ table)
    Selected-add row table m u s = record {
      usages = u.usage ∷ s.usages;
      selected = rw (m, u.read, s.selected) refl;
      sums = λ g c. rw (m, u.adds g c, s.sums g c) refl;
    }

    Selected-next :
        (row : AuditRow) (table : List AuditRow)
        → (matches a since queue backend row ≡ false) ⊎ HasNumbers row
        → Selected table
        → Selected (row ∷ table)
    Selected-next row table (inl m) s = Selected-skip row table m s
    Selected-next row table (inr p) s = elim (Bool-cases (matches a since queue backend row)) [
      | inl m ↦ Selected-add row table m (usage_of-IsUsed row p) s
      | inr m ↦ Selected-skip row table m s
    ]

    pub select-Selected : (table : List AuditRow) → HasAllNumbers table → Selected table
    select-Selected [] p = record { usages = []; selected = refl; sums = λ g c. refl }
    select-Selected (row ∷ table) p = Selected-next row table p.0 (select-Selected table p.1)
