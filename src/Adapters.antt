-- ===== src/Adapters.antt =====
-- adapters/base.py and adapters/mock.py: the providers as an interface, and the fixtures.
use compliance_agent_platfor.Base.{
  String, ◌&&◌, List, [], ◌∷◌, Option, none, some, str_eq, if◌then◌else◌,
}
use compliance_agent_platfor.Base.Dict.{Dict, lookup}
use compliance_agent_platfor.Base.Text.{codes, contains}
use compliance_agent_platfor.Error.{Result, ok}
use compliance_agent_platfor.Schemas.Alert.{ScreeningAlert}
use compliance_agent_platfor.Schemas.Enrichment.{WatchlistCandidate, CustomerProfile}

-- `ScreeningDeps`: the methods of the three providers
pub record ScreeningDeps : Type 0 where
  pub fetch_entry : String → String → Result (Option WatchlistCandidate)
  pub fetch_profile : String → Result (Option CustomerProfile)
  pub search_media : ScreeningAlert → Result (List String)

-- `_WATCHLIST`, of which the keys are the names of the lists and of the entries; dates are ordinals.
abbrev pub watchlist : List WatchlistCandidate
watchlist =
    record {
      list_name = "OFAC SDN";
      entry_id = "SDN-12345";
      primary_name = "Viktor Petrov";
      aliases = "Victor Petroff" ∷ "V. Petrov" ∷ [];
      date_of_birth = some 718899;
      nationality = some "RU";
      programs = "UKRAINE-EO13662" ∷ "RUSSIA-EO14024" ∷ [];
      source_url = some "https://sanctionssearch.ofac.treas.gov/Details.aspx?id=12345";
      name_similarity = none;
      dob_match = none;
      nationality_match = none;
    }
    ∷ record {
      list_name = "OFAC SDN";
      entry_id = "SDN-88888";
      primary_name = "Maria Gonzalez Herrera";
      aliases = "Maria G. Herrera" ∷ [];
      date_of_birth = some 723487;
      nationality = some "MX";
      programs = "SDNTK" ∷ [];
      source_url = some "https://sanctionssearch.ofac.treas.gov/Details.aspx?id=88888";
      name_similarity = none;
      dob_match = none;
      nationality_match = none;
    }
    ∷ []

-- `_CUSTOMERS`
abbrev pub customers : Dict CustomerProfile
customers =
    (
      "CUST-1001",
      record {
        subject_id = "CUST-1001";
        legal_name = "Viktor Petrov";
        date_of_birth = some 718899;
        nationality = some "RU";
        residence_country = some "AE";
        risk_rating = some "high";
      },
    )
    ∷ (
      "CUST-2002",
      record {
        subject_id = "CUST-2002";
        legal_name = "John A. Smith";
        date_of_birth = some 726670;
        nationality = some "US";
        residence_country = some "US";
        risk_rating = some "low";
      },
    )
    ∷ []

-- `_WATCHLIST.get((list_name, entry_id))`
abbrev pub find_entry : String → String → List WatchlistCandidate → Option WatchlistCandidate
find_entry list_name entry_id [] = none
find_entry list_name entry_id (c ∷ cs) =
    let rest = find_entry list_name entry_id cs in
    if str_eq list_name c.list_name && str_eq entry_id c.entry_id then some c else rest

-- `MockAdverseMediaProvider.search`, with `str.lower`
abbrev pub mock_search : (String → String) → ScreeningAlert → List String
mock_search lower alert =
    if contains (codes "petrov") (codes (lower alert.screened_name))
    then "2023 investigative report links Viktor Petrov to a sanctioned energy trading network."
      ∷ []
    else []

-- `default_deps`
abbrev pub default_deps : (String → String) → ScreeningDeps
default_deps lower = record {
  fetch_entry = λ list_name entry_id. ok (find_entry list_name entry_id watchlist);
  fetch_profile = λ subject_id. ok (lookup subject_id customers);
  search_media = λ alert. ok (mock_search lower alert);
}
