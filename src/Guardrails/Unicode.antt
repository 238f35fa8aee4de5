-- ===== src/Guardrails/Unicode.antt =====
-- What Python's `re` and `int` know of a character, which the detectors of guardrails/patterns.py
-- are written over: a parameter. `ascii` is an instance that knows the ASCII range only.
use compliance_agent_platfor.Base.{
  ℕ, ◌+◌, ◌-◌, Bool, true, false, ◌&&◌, ◌||◌, Option, none, some, leb, ◌==◌, if◌then◌else◌,
}

pub record Unicode : Type 0 where
  pub decimal : ℕ → Option ℕ  -- `int(ch)` of a character that `\d` matches
  pub is_word : ℕ → Bool  -- `\w`
  pub is_space : ℕ → Bool  -- `\s`
  pub same_letter : ℕ → ℕ → Bool  -- a literal letter and a character under IGNORECASE

abbrev pub is_digit : Unicode → ℕ → Bool
is_digit u c = elim (u.decimal c) [ none ↦ false | some d ↦ true ]

abbrev ascii_decimal : ℕ → Option ℕ
ascii_decimal c = if leb b'0' c && leb c b'9' then some (c - b'0') else none

abbrev lower : ℕ → ℕ
lower c = if leb b'A' c && leb c b'Z' then c - b'A' + b'a' else c

abbrev pub ascii : Unicode
ascii = record {
  decimal = ascii_decimal;
  is_word = λ c.
      (leb b'0' c && leb c b'9')
      || (leb b'A' c && leb c b'Z')
      || (leb b'a' c && leb c b'z')
      || c == b'_';
  is_space = λ c. c == 32 || (leb 9 c && leb c 13);
  same_letter = λ p c. p == lower c;
}
