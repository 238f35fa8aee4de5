-- ===== src/Schemas/Enrichment.antt =====
-- schemas/enrichment.py: what the `enrich` node assembles. None of its fields is constrained, so
-- validation of a typed value always succeeds.
use compliance_agent_platfor.Base.{ℕ, String, Bool, List, Option}
use compliance_agent_platfor.Base.Float.{Float}
use compliance_agent_platfor.Json.{Json, bool, str, float, date, obj, field, end, list, opt}

pub record WatchlistCandidate : Type 0 where
  pub list_name : String
  pub entry_id : String
  pub primary_name : String
  pub aliases : List String
  pub date_of_birth : Option ℕ
  pub nationality : Option String
  pub programs : List String
  pub source_url : Option String
  pub name_similarity : Option Float
  pub dob_match : Option Bool
  pub nationality_match : Option Bool

pub record CustomerProfile : Type 0 where
  pub subject_id : String
  pub legal_name : String
  pub date_of_birth : Option ℕ
  pub nationality : Option String
  pub residence_country : Option String
  pub risk_rating : Option String

pub record EnrichmentBundle : Type 0 where
  pub candidates : List WatchlistCandidate
  pub customer : Option CustomerProfile
  pub adverse_media_summaries : List String
  pub insufficient : Bool  -- `insufficient_data`
  pub missing : List String

unfoldable pub dump_candidate : WatchlistCandidate → Json
dump_candidate c = obj (
    field "list_name" (str c.list_name) (
      field "entry_id" (str c.entry_id) (
        field "primary_name" (str c.primary_name) (
          field "aliases" (list str c.aliases) (
            field "date_of_birth" (opt date c.date_of_birth) (
              field "nationality" (opt str c.nationality) (
                field "programs" (list str c.programs) (
                  field "source_url" (opt str c.source_url) (
                    field "name_similarity" (opt float c.name_similarity) (
                      field "dob_match" (opt bool c.dob_match)
                        (field "nationality_match" (opt bool c.nationality_match) end)))))))))))

unfoldable pub dump_customer : CustomerProfile → Json
dump_customer c = obj (
    field "subject_id" (str c.subject_id) (
      field "legal_name" (str c.legal_name) (
        field "date_of_birth" (opt date c.date_of_birth) (
          field "nationality" (opt str c.nationality) (
            field "residence_country" (opt str c.residence_country)
              (field "risk_rating" (opt str c.risk_rating) end))))))

unfoldable pub dump_enrichment : EnrichmentBundle → Json
unfolding dump_candidate dump_customer
dump_enrichment e = obj (
    field "candidates" (list dump_candidate e.candidates) (
      field "customer" (opt dump_customer e.customer) (
        field "adverse_media_summaries" (list str e.adverse_media_summaries) (
          field "insufficient_data" (bool e.insufficient)
            (field "missing" (list str e.missing) end)))))
