-- ===== src/Schemas/Alert.antt =====
-- schemas/alert.py: the inbound alert. A date is its proleptic ordinal, as in Python.
use compliance_agent_platfor.Base.{ℕ, String, Bool, true, ◌&&◌, List, [], ◌∷◌, Option}
use compliance_agent_platfor.Base.Float.{Float, in_unit_range}
use compliance_agent_platfor.Json.{Json, str, float, date, obj, field, end, list, opt}
use compliance_agent_platfor.Error.{Result, ok, validation_error, check}

pub record WatchlistHit : Type 0 where
  pub list_name : String
  pub entry_id : String
  pub matched_name : String
  pub score : Float

pub record ScreeningAlert : Type 0 where
  pub alert_id : String
  pub queue : String
  pub subject_id : Option String
  pub screened_name : String
  pub date_of_birth : Option ℕ
  pub nationality : Option String
  pub address_country : Option String
  pub transaction_ref : Option String
  pub hits : List WatchlistHit

-- `score: float = Field(ge=0.0, le=1.0)` of every hit
abbrev pub scores_ok : List WatchlistHit → Bool
scores_ok [] = true
scores_ok (hit ∷ hits) = in_unit_range hit.score && scores_ok hits

-- `ScreeningAlert.model_validate`
unfoldable pub validate_alert : ScreeningAlert → Result ScreeningAlert
validate_alert a = check (scores_ok a.hits) (validation_error "hits.score") (ok a)

abbrev pub dump_hit : WatchlistHit → Json
dump_hit h = obj (
    field "list_name" (str h.list_name) (
      field "entry_id" (str h.entry_id)
        (field "matched_name" (str h.matched_name) (field "score" (float h.score) end))))

unfoldable pub dump_alert : ScreeningAlert → Json
dump_alert a = obj (
    field "alert_id" (str a.alert_id) (
      field "queue" (str a.queue) (
        field "subject_id" (opt str a.subject_id) (
          field "screened_name" (str a.screened_name) (
            field "date_of_birth" (opt date a.date_of_birth) (
              field "nationality" (opt str a.nationality) (
                field "address_country" (opt str a.address_country) (
                  field "transaction_ref" (opt str a.transaction_ref)
                    (field "hits" (list dump_hit a.hits) end)))))))))
