-- ===== src/Guardrails/Cards.antt =====
-- The card-number detector of guardrails/patterns.py, and `find_pii`.
use compliance_agent_platfor.Base.{
  ℕ, zero, suc, ◌+◌, ◌-◌, ◌*◌, String, Bool, false, not, ◌&&◌, ◌||◌, List, [], ◌∷◌, ◌++◌, Option,
  none, some, leb, ◌==◌, length, if◌then◌else◌, map,
}
use mathlib.Core.Option
use compliance_agent_platfor.Guardrails.Unicode.{Unicode, is_digit}
use compliance_agent_platfor.Guardrails.Luhn.{luhn_ok}
use compliance_agent_platfor.Guardrails.Patterns.{has_ssn_separated, has_ssn_labelled, head_is}

abbrev pub is_separator : ℕ → Bool
is_separator c = c == 32 || c == b'-'

-- A digit of a match: the character and its value.
pub record Digit : Type 0 where
  pub char : ℕ
  pub value : ℕ

-- A match: its digits in order, and how many characters it took.
pub record Candidate : Type 0 where
  pub found : List Digit
  pub size : ℕ

-- One round of a match: its digit, how many characters it took, and the text behind.
pub record Round : Type 0 where
  pub digit : Digit
  pub taken : ℕ
  pub rest : List ℕ

abbrev no_more : Candidate
no_more = record { found = []; size = 0 }

abbrev add_round : Round → Candidate → Candidate
add_round r m = record { found = r.digit ∷ m.found; size = r.taken + m.size }

-- `_issuer_prefix_ok`
unfoldable pub issuer_prefix_ok : List Digit → Bool
issuer_prefix_ok (a ∷ b ∷ c ∷ d ∷ digits) =
    let p2 = a.value * 10 + b.value in
    let p4 = (p2 * 10 + c.value) * 10 + d.value in
    a.char == b'4'
    || (leb 51 p2 && leb p2 55)
    || (leb 2221 p4 && leb p4 2720)
    || (p2 == 34 || p2 == 37 || p2 == 36 || p2 == 38 || p2 == 39 || p2 == 65)
    || p4 == 6011
    || (leb 3000 p4 && leb p4 3059)
    || (leb 3528 p4 && leb p4 3589)
issuer_prefix_ok _ = false

abbrev pub values : List Digit → List ℕ
values digits = map (λ d. d.value) digits

-- The test that a match has to pass.
unfoldable pub is_card : List Digit → Bool
unfolding issuer_prefix_ok luhn_ok
is_card digits =
    (leb 13 (length digits) && leb (length digits) 19)
    && issuer_prefix_ok digits
    && luhn_ok (values digits)

module _ (u : Unicode) where
  -- `[\d-]`, of the lookarounds
  abbrev pub blocks : ℕ → Bool
  blocks c = is_digit u c || c == b'-'

  -- `\d`
  abbrev digit_at : ℕ → ℕ → List ℕ → Option Round
  digit_at taken c text =
      Option.map
        (λ d. record { digit = record { char = c; value = d }; taken = taken; rest = text })
        (u.decimal c)

  abbrev or_else : Option Round → Option Round → Option Round
  or_else none other = other
  or_else (some r) other = some r

  -- `[ -]?\d`
  unfoldable pub one_round : List ℕ → Option Round
  one_round [] = none
  one_round (c ∷ []) = digit_at 1 c []
  one_round (c ∷ e ∷ text) =
      if is_separator c
      then or_else (digit_at 2 e text) (digit_at 1 c (e ∷ text))
      else digit_at 1 c (e ∷ text)

  -- No further round: allowed once `low` rounds are done, and where the lookahead holds.
  abbrev stop : ℕ → List ℕ → Option Candidate
  stop low text = if low == 0 && not (head_is blocks text) then some no_more else none

  -- `(?:[ -]?\d){low,high}(?![\d-])`, with as many rounds as can be
  unfoldable pub more_rounds : ℕ → ℕ → List ℕ → Option Candidate
  unfolding one_round
  more_rounds zero low text = stop low text
  more_rounds (suc high) low text = elim (one_round text) [
    | none ↦ stop low text
    | some r ↦ elim (more_rounds high (low - 1) r.rest) [
      | none ↦ stop low text
      | some m ↦ some (add_round r m)
    ]
  ]

  -- `_CARD_CANDIDATE` behind its lookbehind
  unfoldable pub candidate_at : List ℕ → Option Candidate
  unfolding more_rounds
  candidate_at [] = none
  candidate_at (c ∷ text) = elim (digit_at 1 c text) [
    | none ↦ none
    | some r ↦ Option.map (add_round r) (more_rounds 18 12 text)
  ]

  -- `finditer`: whether one of the matches is a card. `blocked` is the lookbehind's test of the
  -- character before, and `skip` counts the characters of the last match that are still to pass.
  unfoldable pub any_card : Bool → ℕ → List ℕ → Bool
  unfolding candidate_at is_card
  any_card blocked skip [] = false
  any_card blocked (suc skip) (c ∷ text) = any_card (blocks c) skip text
  any_card blocked zero (c ∷ text) = elim (if blocked then none else candidate_at (c ∷ text)) [
    | none ↦ any_card (blocks c) 0 text
    | some m ↦ is_card m.found || any_card (blocks c) (m.size - 1) text
  ]

  unfoldable pub has_card : List ℕ → Bool
  unfolding any_card
  has_card text = any_card false 0 text

  unfoldable pub find_pii : List ℕ → List String
  unfolding has_card has_ssn_separated has_ssn_labelled
  find_pii text =
      (if has_ssn_separated u text || has_ssn_labelled u text then "ssn" ∷ [] else [])
      ++ (if has_card text then "card_number" ∷ [] else [])
