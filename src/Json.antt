-- ===== src/Json.antt =====
-- JSON values, as `model_dump(mode="json")` and the `detail` dicts of the audit rows give them.
-- `date` and `time` stand for the ISO text of a date (its ordinal) and of an instant (microseconds
-- since the epoch, in UTC).
use compliance_agent_platfor.Base.{ℕ, String, Bool, List, [], ◌∷◌, Option, none, some}
use compliance_agent_platfor.Base.Float.{Float}

mutual
  pub data Json : Type 0 where
    null : Json
    bool : Bool → Json
    int : ℕ → Json
    float : Float → Json
    str : String → Json
    date time : ℕ → Json
    arr : Items → Json
    obj : Fields → Json

  pub data Items : Type 0 where
    nil : Items
    cons : Json → Items → Items

  pub data Fields : Type 0 where
    end : Fields
    field : String → Json → Fields → Fields

abbrev pub items {ℓ} : {A : Type ℓ} → (A → Json) → List A → Items
items dump [] = nil
items dump (x ∷ xs) = cons (dump x) (items dump xs)

abbrev pub list {ℓ} : {A : Type ℓ} → (A → Json) → List A → Json
list dump xs = arr (items dump xs)

abbrev pub opt {ℓ} : {A : Type ℓ} → (A → Json) → Option A → Json
opt dump none = null
opt dump (some x) = dump x
