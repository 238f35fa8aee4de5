-- ===== src/Cost.antt =====
-- cost.py: the cost report over the audit rows of model calls.
pub mod Query
pub mod Groups
pub mod Totals
mod Tests
use compliance_agent_platfor.Base.{
  ℕ, zero, suc, ◌+◌, ◌*◌, ◌-◌, String, Bool, true, false, ◌&&◌, ◌||◌, List, [], ◌∷◌, map, Option,
  none, some, str_eq, leb, ltb, text_or, if◌then◌else◌,
}
use compliance_agent_platfor.Base.Float.{Float, zero_float}
use compliance_agent_platfor.Base.Sort.{sort_by}
use compliance_agent_platfor.Config.{Settings}
use compliance_agent_platfor.Error.{Result, ok, err, and_then, external}
use compliance_agent_platfor.Json.{Json, null, str, int, obj, Fields, end, field}
use compliance_agent_platfor.Audit.Log.{AuditRow}
use Prim.Native.String.{compare}
use Prim.Native.Nat.{Ordering}

-- Python's float operations and roundings, and what Postgres makes text of a JSON value
pub record Arithmetic : Type 0 where
  pub true_div : ℕ → ℕ → Float  -- `a / b` of integers
  pub mul : Float → Float → Float
  pub add : Float → Float → Float
  pub div : Float → Float → Float
  pub of_int : ℕ → Float
  pub sum : List Float → Float
  pub max : Float → Float → Float
  pub round : Float → ℕ → Float
  pub json_text : Json → String
  pub int_of_text : String → Result ℕ  -- `::int`

-- A row of the query
pub record CallUsage : Type 0 where
  pub queue : Option String
  pub backend : Option String
  pub model_id : Option String
  pub input_tokens : Option ℕ
  pub output_tokens : Option ℕ
  pub latency_ms : Option ℕ
  pub created_at : ℕ

pub record CostRow : Type 0 where
  pub queue : String
  pub backend : String
  pub model_id : String
  pub calls : ℕ
  pub input_tokens : ℕ
  pub output_tokens : ℕ
  pub latency_ms : ℕ
  pub observed_cost_usd : Float

pub record CostReport : Type 0 where
  pub since : Option ℕ
  pub observed_window_days : Float
  pub project_days : ℕ
  pub observed_cost_usd : Float
  pub projected_cost_usd : Float
  pub rows : List CostRow

-- `detail -> key`: the last member of a key counts in JSONB.
abbrev later : Option Json → Option Json → Option Json
later (some j) _ = some j
later none o = o

unfoldable pub member : String → Fields → Option Json
member key end = none
member key (field k j rest) = later (member key rest) (if str_eq key k then some j else none)

abbrev pub json_member : String → Option Json → Option Json
json_member key (some (obj fields)) = member key fields
json_member key _ = none

-- `detail ? key`
abbrev is_there : Option Json → Bool
is_there none = false
is_there (some j) = true

module _ (a : Arithmetic) where
  -- `detail ->> key`
  abbrev pub member_text : Option Json → Option String
  member_text none = none
  member_text (some null) = none
  member_text (some (str s)) = some s
  member_text (some j) = some (a.json_text j)

  -- The range of int4; a number outside it raises.
  abbrev int4 : ℕ → Result (Option ℕ)
  int4 n = if ltb n 2147483648 then ok (some n) else err (external "NumericValueOutOfRange")

  -- `(detail ->> key)::int`
  abbrev pub member_int : Option Json → Result (Option ℕ)
  member_int none = ok none
  member_int (some null) = ok none
  member_int (some (int n)) = int4 n
  member_int (some (str s)) = and_then (a.int_of_text s) int4
  member_int (some j) = and_then (a.int_of_text (a.json_text j)) int4

  -- A condition on a column, if it is asked for; NULL meets none.
  abbrev text_matches : Option String → Option String → Bool
  text_matches none column = true
  text_matches (some wanted) none = false
  text_matches (some wanted) (some column) = str_eq column wanted

  abbrev time_matches : Option ℕ → ℕ → Bool
  time_matches none created_at = true
  time_matches (some since) created_at = leb since created_at

  -- The `WHERE` clause
  abbrev pub matches : Option ℕ → Option String → Option String → AuditRow → Bool
  matches since queue backend row =
      let detail = row.entry.detail in
      str_eq row.entry.step "evaluate"
      && str_eq row.entry.event "node_completed"
      && is_there (json_member "input_tokens" detail)
      && time_matches since row.created_at
      && text_matches queue (member_text (json_member "queue" detail))
      && text_matches backend (member_text (json_member "backend" detail))

  abbrev pub usage_of : AuditRow → Result CallUsage
  usage_of row =
      let detail = row.entry.detail in
      and_then (member_int (json_member "input_tokens" detail)) (λ input.
        and_then (member_int (json_member "output_tokens" detail)) (λ output.
          and_then (member_int (json_member "latency_ms" detail)) (λ latency. ok (record {
            queue = member_text (json_member "queue" detail);
            backend = member_text (json_member "backend" detail);
            model_id = row.entry.model_id;
            input_tokens = input;
            output_tokens = output;
            latency_ms = latency;
            created_at = row.created_at;
          }))))

  abbrev then_usage : Result CallUsage → Result (List CallUsage) → Result (List CallUsage)
  then_usage (err e) rest = err e
  then_usage (ok u) (err e) = err e
  then_usage (ok u) (ok us) = ok (u ∷ us)

  abbrev pub select :
      Option ℕ → Option String → Option String → List AuditRow → Result (List CallUsage)
  select since queue backend [] = ok []
  select since queue backend (row ∷ rows) =
      let rest = select since queue backend rows in
      if matches since queue backend row then then_usage (usage_of row) rest else rest

  -- `price_call`
  abbrev pub price_call : Settings → String → ℕ → ℕ → ℕ → Float
  price_call settings backend input_tokens output_tokens latency_ms =
      if str_eq backend "bedrock"
      then a.add (a.mul (a.true_div input_tokens 1000) settings.bedrock_input_price_per_1k)
          (a.mul (a.true_div output_tokens 1000) settings.bedrock_output_price_per_1k)
      else if str_eq backend "nim"
      then a.mul (a.true_div latency_ms 3600000) settings.nim_gpu_hourly_rate
      else zero_float

abbrev pub usage_time : CallUsage → ℕ
usage_time u = u.created_at

-- `x or 0`
abbrev pub or_zero : Option ℕ → ℕ
or_zero none = 0
or_zero (some n) = n

-- The key of a row's group is that of the usage.
abbrev pub same_group : CallUsage → CostRow → Bool
same_group u r =
    str_eq (text_or u.queue "unknown") r.queue
    && str_eq (text_or u.backend "unknown") r.backend
    && str_eq (text_or u.model_id "unknown") r.model_id

abbrev pub fresh_row : CallUsage → CostRow
fresh_row u = record {
  queue = text_or u.queue "unknown";
  backend = text_or u.backend "unknown";
  model_id = text_or u.model_id "unknown";
  calls = 0;
  input_tokens = 0;
  output_tokens = 0;
  latency_ms = 0;
  observed_cost_usd = zero_float;
}

abbrev pub counted : CallUsage → CostRow → CostRow
counted u r = record r {
  calls = r.calls + 1;
  input_tokens = r.input_tokens + or_zero u.input_tokens;
  output_tokens = r.output_tokens + or_zero u.output_tokens;
  latency_ms = r.latency_ms + or_zero u.latency_ms;
}

-- `rows_by_key.setdefault(key, ...)`, and the four additions
abbrev pub count_usage : CallUsage → List CostRow → List CostRow
count_usage u [] = counted u (fresh_row u) ∷ []
count_usage u (r ∷ rs) =
    let rest = count_usage u rs in if same_group u r then counted u r ∷ rs else r ∷ rest

-- The loop over the matched rows
unfoldable pub count_all : List CallUsage → List CostRow → List CostRow
count_all [] rows = rows
count_all (u ∷ us) rows = count_all us (count_usage u rows)

abbrev not_after : Ordering → Bool → Bool
not_after Ordering.lt rest = true
not_after Ordering.eq rest = rest
not_after Ordering.gt rest = false

-- The order of `(r.queue, r.backend, r.model_id)`
abbrev pub key_le : CostRow → CostRow → Bool
key_le r s =
    not_after (compare r.queue s.queue)
      (not_after (compare r.backend s.backend) (not_after (compare r.model_id s.model_id) true))

abbrev pub insert_row : CostRow → List CostRow → List CostRow
insert_row r [] = r ∷ []
insert_row r (s ∷ rs) = let rest = insert_row r rs in if key_le r s then r ∷ s ∷ rs else s ∷ rest

abbrev pub sort_rows : List CostRow → List CostRow
sort_rows [] = []
sort_rows (r ∷ rs) = insert_row r (sort_rows rs)

abbrev pub cost_of : CostRow → Float
cost_of r = r.observed_cost_usd

abbrev since_or : Option ℕ → ℕ → ℕ
since_or none first = first
since_or (some since) first = since

module _ (a : Arithmetic) (settings : Settings) where
  abbrev pub priced : CostRow → CostRow
  priced r = record r {
    observed_cost_usd =
        a.round (price_call a settings r.backend r.input_tokens r.output_tokens r.latency_ms) 6;
  }

  abbrev pub report_rows : List CallUsage → List CostRow
  report_rows usages = sort_rows (map priced (count_all usages []))

  -- Of the usages in the order of their times, at the time `now`; times are in microseconds. The
  -- difference stops at 0, where `max` gives its other argument as it does below 0.
  abbrev pub report_of : Option ℕ → ℕ → ℕ → List CallUsage → CostReport
  report_of since project_days now [] = record {
    since = since;
    observed_window_days = zero_float;
    project_days = project_days;
    observed_cost_usd = zero_float;
    projected_cost_usd = zero_float;
    rows = [];
  }
  report_of since project_days now (u ∷ us) =
      let rows = report_rows (u ∷ us) in
      let observed = a.round (a.sum (map cost_of rows)) 6 in
      let start = since_or since u.created_at in
      let days =
        a.max (a.div (a.true_div (now - start) 1000000) (a.of_int 86400)) (a.true_div 1 1440) in
      record {
        since = some start;
        observed_window_days = a.round days 4;
        project_days = project_days;
        observed_cost_usd = observed;
        projected_cost_usd = a.round (a.mul observed (a.div (a.of_int project_days) days)) 2;
        rows = rows;
      }

  -- `build_cost_report`
  unfoldable pub build_cost_report :
      Option ℕ → ℕ → Option String → Option String → ℕ → List AuditRow → Result CostReport
  build_cost_report since project_days queue backend now table =
      and_then (select a since queue backend table)
        (λ usages. ok (report_of since project_days now (sort_by usage_time usages)))
