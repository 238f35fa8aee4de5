-- ===== src/Guardrails/Tests.antt =====
-- The detectors on concrete texts, and the instances of the theorems.
use compliance_agent_platfor.Base.{◌≡◌, ◌↔◌, refl, true, false, [], ◌∷◌, ◌++◌, arith}
use compliance_agent_platfor.Base.Text.{codes}
use compliance_agent_platfor.Guardrails.Unicode.{ascii}
use compliance_agent_platfor.Guardrails.Luhn.{
  luhn_ok, check_digit, luhn_ok-one_wrong, luhn_ok-check_digit,
}
use compliance_agent_platfor.Guardrails.Patterns.{has_ssn_separated}
use compliance_agent_platfor.Guardrails.Ssn.{HasSsn, has_ssn_separated_iff}
use compliance_agent_platfor.Guardrails.Cards.{find_pii}

separated : find_pii ascii (codes "ref 123-45-6789.") ≡ "ssn" ∷ []
unfolding find_pii
separated = refl

labelled : find_pii ascii (codes "Social  Security No.: 123456789") ≡ "ssn" ∷ []
unfolding find_pii
labelled = refl

bare : find_pii ascii (codes "123456789 and 000-12-3456, 1234-45-6789") ≡ []
unfolding find_pii
bare = refl

visa : find_pii ascii (codes "pay 4111 1111-1111 1111 now") ≡ "card_number" ∷ []
unfolding find_pii
visa = refl

wrong_visa : find_pii ascii (codes "pay 4111 1111 1111 1112 now") ≡ []
unfolding find_pii
wrong_visa = refl

visa_digits-ok :
    luhn_ok ((4 ∷ 1 ∷ []) ++ 1 ∷ 1 ∷ 1 ∷ 1 ∷ 1 ∷ 1 ∷ 1 ∷ 1 ∷ 1 ∷ 1 ∷ 1 ∷ 1 ∷ 1 ∷ 1 ∷ []) ≡ true
unfolding luhn_ok
visa_digits-ok = refl

luhn_ok-one_wrong_example :
    luhn_ok ((4 ∷ 1 ∷ []) ++ 7 ∷ 1 ∷ 1 ∷ 1 ∷ 1 ∷ 1 ∷ 1 ∷ 1 ∷ 1 ∷ 1 ∷ 1 ∷ 1 ∷ 1 ∷ 1 ∷ []) ≡ false
luhn_ok-one_wrong_example =
    luhn_ok-one_wrong (4 ∷ 1 ∷ []) (1 ∷ 1 ∷ 1 ∷ 1 ∷ 1 ∷ 1 ∷ 1 ∷ 1 ∷ 1 ∷ 1 ∷ 1 ∷ 1 ∷ 1 ∷ []) 1 7
      (omega arith) (omega arith) (omega arith) visa_digits-ok

luhn_ok-check_digit_example :
    (luhn_ok ((7 ∷ 9 ∷ 9 ∷ 2 ∷ 7 ∷ 3 ∷ 9 ∷ 8 ∷ 7 ∷ 1 ∷ []) ++ 3 ∷ []) ≡ true)
    ↔ (3 ≡ check_digit (7 ∷ 9 ∷ 9 ∷ 2 ∷ 7 ∷ 3 ∷ 9 ∷ 8 ∷ 7 ∷ 1 ∷ []))
luhn_ok-check_digit_example =
    luhn_ok-check_digit (7 ∷ 9 ∷ 9 ∷ 2 ∷ 7 ∷ 3 ∷ 9 ∷ 8 ∷ 7 ∷ 1 ∷ []) 3 (omega arith)

has_ssn_separated_iff_example :
    (has_ssn_separated ascii (codes "ref 123-45-6789.") ≡ true)
    ↔ HasSsn ascii (codes "ref 123-45-6789.")
has_ssn_separated_iff_example = has_ssn_separated_iff ascii (codes "ref 123-45-6789.")
