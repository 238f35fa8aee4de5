-- ===== src/Cost/Tests.antt =====
-- A report over concrete audit rows.
use compliance_agent_platfor.Base.{
  ℕ, ◌<◌, String, ◌≡◌, refl, List, [], ◌∷◌, none, some, inl, inr, arith,
}
use compliance_agent_platfor.Base.Float.{zero_float}
use compliance_agent_platfor.Config.{default_settings}
use compliance_agent_platfor.Cost.{Arithmetic, member, build_cost_report}
use compliance_agent_platfor.Cost.Query.{Key, input_column, HasNumbers}
use compliance_agent_platfor.Cost.Totals.{Reports, build_cost_report-Reports}
use compliance_agent_platfor.Error.{err, external}
use compliance_agent_platfor.Graph.Context.{row}
use compliance_agent_platfor.Json.{str, int, obj, field, end}
use compliance_agent_platfor.Audit.Log.{AuditRow}

abbrev arithmetic : Arithmetic
arithmetic = record {
  true_div = λ a b. zero_float;
  mul = λ a b. a;
  add = λ a b. a;
  div = λ a b. a;
  of_int = λ n. zero_float;
  sum = λ xs. zero_float;
  max = λ a b. b;
  round = λ x n. x;
  json_text = λ j. "{}";
  int_of_text = λ s. err (external "invalid input syntax for type integer");
}

abbrev call : ℕ → String → ℕ → AuditRow
call id queue tokens = record {
  id = id;
  entry = record (row "A-1" "evaluate" "agent:nim" "node_completed") {
    model_id = some "nemotron";
    detail = some (
        obj (
          field "queue" (str queue) (
            field "backend" (str "nim") (
              field "input_tokens" (int tokens)
                (field "output_tokens" (int 5) (field "latency_ms" (int 900) end))))));
  };
  created_at = id;
  prev_hash = none;
  record_hash = none;
}

-- Two calls of one queue, one of another, and a row that is no call.
abbrev table : List AuditRow
table =
    call 1 "screening" 10
    ∷ call 2 "aml" 20
    ∷ record {
      id = 3;
      entry = row "A-1" "intake" "system" "node_completed";
      created_at = 3;
      prev_hash = none;
      record_hash = none;
    }
    ∷ call 4 "screening" 30
    ∷ []

abbrev screening_calls : Key
screening_calls = record { queue = "screening"; backend = "nim"; model_id = "nemotron" }

call-HasNumbers :
    (id : ℕ) (queue : String) (tokens : ℕ)
    → tokens < 2147483648
    → HasNumbers arithmetic (call id queue tokens)
unfolding member
call-HasNumbers id queue tokens p = record {
  input = p;
  output = omega arith;
  latency = omega arith;
}

build_cost_report-Reports_example :
    Reports arithmetic default_settings none none
      (some "nim")
      (some screening_calls)
      input_column
      table
      (build_cost_report arithmetic default_settings none 30 none (some "nim") 100 table)
unfolding member
build_cost_report-Reports_example =
    build_cost_report-Reports arithmetic default_settings none none (some "nim")
      (some screening_calls) input_column 30 100 table
      (
        inr (call-HasNumbers 1 "screening" 10 (omega arith)),
        (
          inr (call-HasNumbers 2 "aml" 20 (omega arith)),
          (inl refl, (inr (call-HasNumbers 4 "screening" 30 (omega arith)), tt)),
        ),
      )

-- A count that no int4 holds
too_large_raises :
    build_cost_report arithmetic default_settings none 30 none none 100
      (call 1 "screening" 2147483648 ∷ [])
    ≡ err (external "NumericValueOutOfRange")
unfolding build_cost_report member
too_large_raises = refl
