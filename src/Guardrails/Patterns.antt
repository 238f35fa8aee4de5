-- ===== src/Guardrails/Patterns.antt =====
-- guardrails/patterns.py: the SSN and card-number detectors, as matchers over code points. A
-- matcher of a fixed pattern gives the text behind the match; where the pattern can match in
-- several ways it gives the list of them, in the order in which `re` tries them.
use compliance_agent_platfor.Base.{
  ℕ, zero, suc, Bool, true, false, not, ◌&&◌, ◌||◌, List, [], ◌∷◌, ◌++◌, Option, none, some, ◌==◌,
  if◌then◌else◌,
}
use compliance_agent_platfor.Base.Text.{codes, starts_with}
use compliance_agent_platfor.Guardrails.Unicode.{Unicode, is_digit}

infixl 5 ◌>>=◌ ◌>>◌
abbrev pub ◌>>=◌ {ℓ κ} : {A : Type ℓ} {B : Type κ} → Option A → (A → Option B) → Option B
none >>= f = none
some a >>= f = f a

abbrev pub ◌>>◌ {ℓ} : {B : Type ℓ} → Option (Unit {0}) → Option B → Option B
m >> k = m >>= λ _. k

abbrev pub guard : Bool → Option (Unit {0})
guard true = some tt
guard false = none

abbrev pub head_is : (ℕ → Bool) → List ℕ → Bool
head_is p [] = false
head_is p (c ∷ text) = p c

-- One character of a class.
abbrev pub one_of : (ℕ → Bool) → List ℕ → Option (List ℕ)
one_of p [] = none
one_of p (c ∷ text) = if p c then some text else none

-- `\1`, or the class that it refers to
abbrev pub take_char : List ℕ → Option (ℕ × List ℕ)
take_char [] = none
take_char (c ∷ text) = some (c, text)

-- `[- ]`
abbrev pub is_ssn_separator : ℕ → Bool
is_ssn_separator c = c == b'-' || c == 32

module _ (u : Unicode) where
  -- `\d{n}`
  unfoldable pub digits : ℕ → List ℕ → Option (List ℕ)
  digits zero text = some text
  digits (suc n) [] = none
  digits (suc n) (c ∷ text) = let rest = digits n text in if is_digit u c then rest else none

  -- `000|666|9\d\d`, as a lookahead
  unfoldable pub bad_area : List ℕ → Bool
  bad_area (a ∷ b ∷ c ∷ text) =
      starts_with (codes "000") (a ∷ b ∷ c ∷ [])
      || starts_with (codes "666") (a ∷ b ∷ c ∷ [])
      || (a == b'9' && is_digit u b && is_digit u c)
  bad_area _ = false

  -- `(?!0000)\d{4}(?!\d)`
  unfoldable pub serial_part : List ℕ → Option (List ℕ)
  unfolding digits
  serial_part text = do
    guard (not (starts_with (codes "0000") text))
    rest ← digits 4 text
    guard (not (head_is (is_digit u) rest))
    some rest

  -- `(?!00)\d{2}\1(?!0000)\d{4}(?!\d)`
  unfoldable pub group_part : ℕ → List ℕ → Option (List ℕ)
  unfolding digits serial_part
  group_part separator text = do
    guard (not (starts_with (codes "00") text))
    after_group ← digits 2 text
    from_serial ← one_of (λ c. c == separator) after_group
    serial_part from_serial
      -- `_SSN_SEPARATED` behind its lookbehind

  unfoldable pub ssn_separated_at : List ℕ → Option (List ℕ)
  unfolding digits bad_area group_part
  ssn_separated_at text = do
    guard (not (bad_area text))
    after_area ← digits 3 text
    (separator, from_group) ← take_char after_area
    guard (is_ssn_separator separator)
    group_part separator from_group

  -- `re.search` of a pattern that begins with `(?<!\d)`: at each place, with the character before.
  unfoldable pub search_behind : (List ℕ → Option (List ℕ)) → Bool → List ℕ → Bool
  search_behind at_place after_digit [] = false
  search_behind at_place after_digit (c ∷ text) =
      (not after_digit && (elim (at_place (c ∷ text)) [ none ↦ false | some rest ↦ true ]))
      || search_behind at_place (is_digit u c) text

  unfoldable pub has_ssn_separated : List ℕ → Bool
  unfolding ssn_separated_at search_behind
  has_ssn_separated text = search_behind ssn_separated_at false text

  -- The literal letters of a label, under IGNORECASE.
  unfoldable pub literal : List ℕ → List ℕ → List (List ℕ)
  literal [] text = text ∷ []
  literal (p ∷ ps) [] = []
  literal (p ∷ ps) (c ∷ text) = let rest = literal ps text in if u.same_letter p c then rest else []

  -- `\s+`, the longest first
  unfoldable pub spaces : List ℕ → List (List ℕ)
  spaces [] = []
  spaces (c ∷ text) = let rest = spaces text in if u.is_space c then rest ++ text ∷ [] else []

  -- `\W{0,n}`, the longest first
  unfoldable pub non_words : ℕ → List ℕ → List (List ℕ)
  non_words zero text = text ∷ []
  non_words (suc n) [] = [] ∷ []
  non_words (suc n) (c ∷ text) =
      let rest = non_words n text in
      if u.is_word c then (c ∷ text) ∷ [] else rest ++ (c ∷ text) ∷ []

  -- One matcher after another.
  unfoldable pub then_each : (List ℕ → List (List ℕ)) → List (List ℕ) → List (List ℕ)
  then_each f [] = []
  then_each f (text ∷ texts) = f text ++ then_each f texts

  -- `\.?`
  unfoldable pub optional_dot : List ℕ → List (List ℕ)
  optional_dot [] = [] ∷ []
  optional_dot (c ∷ text) = if c == b'.' then text ∷ (c ∷ text) ∷ [] else (c ∷ text) ∷ []

  -- `(?:\s+(?:number|no\.?))?`
  unfoldable pub optional_number : List ℕ → List (List ℕ)
  unfolding literal spaces then_each optional_dot
  optional_number text =
      then_each (λ t. literal (codes "number") t ++ then_each optional_dot (literal (codes "no") t))
        (spaces text)
      ++ text ∷ []

  -- `(?:ssn|social\s+security(?:\s+(?:number|no\.?))?)`
  unfoldable pub ssn_label : List ℕ → List (List ℕ)
  unfolding literal spaces then_each optional_number
  ssn_label text =
      literal (codes "ssn") text
      ++ then_each optional_number (
          then_each (literal (codes "security")) (then_each spaces (literal (codes "social") text)))

  -- The nine digits behind the label.
  unfoldable pub ssn_bare_at : List ℕ → Option (List ℕ)
  unfolding digits bad_area serial_part
  ssn_bare_at text = do
    guard (not (bad_area text))
    from_group ← digits 3 text
    guard (not (starts_with (codes "00") from_group))
    from_serial ← digits 2 from_group
    serial_part from_serial

  unfoldable pub any_bare : List (List ℕ) → Bool
  unfolding ssn_bare_at
  any_bare [] = false
  any_bare (text ∷ texts) =
      (elim (ssn_bare_at text) [ none ↦ false | some rest ↦ true ]) || any_bare texts

  -- `_SSN_LABELLED.search`
  unfoldable pub has_ssn_labelled : List ℕ → Bool
  unfolding ssn_label non_words then_each any_bare
  has_ssn_labelled [] = false
  has_ssn_labelled (c ∷ text) =
      any_bare (then_each (non_words 3) (ssn_label (c ∷ text))) || has_ssn_labelled text
