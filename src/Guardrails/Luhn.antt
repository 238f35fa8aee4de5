-- ===== src/Guardrails/Luhn.antt =====
-- `_luhn_ok` of guardrails/patterns.py, on the values of the digits.
use compliance_agent_platfor.Base.{
  ℕ, ◌+◌, ◌-◌, ◌*◌, ◌%◌, ◌<◌, ◌≡◌, ◌≢◌, refl, ap, ◌∙◌, ◌↔◌, Bool, true, false, List, [], ◌∷◌, ◌++◌,
  arith, ltb, ◌==◌, if◌then◌else◌, not,
}
use native.Mathlib.Nat.{add_comm, add_assoc}
use mathlib.Core.List.{reverse, reverse-append, reverse-cons, append_assoc}

-- `d *= 2; if d > 9: d -= 9`
unfoldable pub doubled : ℕ → ℕ
doubled d = let e = d * 2 in if ltb 9 e then e - 9 else e

-- The loop over the reversed digits; `odd` is `i % 2 == 1`.
unfoldable pub luhn_total : Bool → List ℕ → ℕ → ℕ
unfolding doubled
luhn_total odd [] total = total
luhn_total odd (d ∷ ds) total = luhn_total (not odd) ds (total + (if odd then doubled d else d))

unfoldable pub luhn_ok : List ℕ → Bool
unfolding luhn_total
luhn_ok digits = luhn_total false (reverse digits) 0 % 10 == 0

-- What a digit adds at a position.
abbrev weight : Bool → ℕ → ℕ
weight odd d = if odd then doubled d else d

-- The loop adds the weights, whatever the total so far.
luhn_total-add :
    (odd : Bool) (ds : List ℕ) (a b : ℕ) → luhn_total odd ds (a + b) ≡ a + luhn_total odd ds b
unfolding luhn_total
luhn_total-add odd [] a b = refl
luhn_total-add odd (d ∷ ds) a b =
    rw (add_assoc a b (weight odd d)) (luhn_total-add (not odd) ds a (b + weight odd d))

-- At any one place the total is what the other digits add, and the weight of this one.
luhn_total_at :
    (odd : Bool) (xs ys : List ℕ) (total : ℕ)
    → (others : ℕ) × (q : Bool) × ((d : ℕ)
        → luhn_total odd (xs ++ d ∷ ys) total ≡ others + weight q d)
unfolding luhn_total
luhn_total_at odd [] ys total = (
  luhn_total (not odd) ys total,
  odd,
  λ d.
      ap (luhn_total (not odd) ys) (add_comm total (weight odd d))
      ∙ luhn_total-add (not odd) ys (weight odd d) total
      ∙ add_comm (weight odd d) (luhn_total (not odd) ys total),
)
luhn_total_at odd (x ∷ xs) ys total = luhn_total_at (not odd) xs ys (total + weight odd x)

-- The weights of the ten digits are ten different digits.
weight-injective :
    (odd : Bool) (d e : ℕ)
    → d < 10
    → e < 10
    → d ≢ e
    → (weight odd d < 10) × (weight odd e < 10) × (weight odd d ≢ weight odd e)
unfolding doubled
weight-injective true d e p q n = ground arith
weight-injective false d e p q n = (p, q, n)

reverse_at : (xs ys : List ℕ) (d : ℕ) → reverse (xs ++ d ∷ ys) ≡ reverse ys ++ d ∷ reverse xs
reverse_at xs ys d =
    rw (reverse-append xs (d ∷ ys), reverse-cons d ys)
      (append_assoc (reverse ys) (d ∷ []) (reverse xs))

-- One wrong digit, anywhere in a number that passes, is noticed.
pub luhn_ok-one_wrong :
    (xs ys : List ℕ) (d e : ℕ)
    → d < 10
    → e < 10
    → d ≢ e
    → luhn_ok (xs ++ d ∷ ys) ≡ true
    → luhn_ok (xs ++ e ∷ ys) ≡ false
unfolding luhn_ok
luhn_ok-one_wrong xs ys d e p q n good =
    let (others, odd, at_place) = luhn_total_at false (reverse ys) (reverse xs) 0 in
    ground (
      arith,
      reverse_at xs ys d,
      reverse_at xs ys e,
      at_place d,
      at_place e,
      weight-injective odd d e p q n,
    )

-- The digit that completes a number: what the rest of its weights lack to a multiple of ten.
unfoldable pub check_digit : List ℕ → ℕ
unfolding luhn_total
check_digit body = (10 - luhn_total true (reverse body) 0 % 10) % 10

-- Each body is completed by exactly one digit.
pub luhn_ok-check_digit :
    (body : List ℕ) (c : ℕ) → c < 10 → (luhn_ok (body ++ c ∷ []) ≡ true) ↔ (c ≡ check_digit body)
unfolding luhn_ok check_digit
luhn_ok-check_digit body c l =
    let t = luhn_total true (reverse body) 0 in
    let e : luhn_total false (reverse (body ++ c ∷ [])) 0 ≡ c + t =
      ap (λ ds. luhn_total false ds 0) (reverse-append body (c ∷ []))
      ∙ ap (luhn_total true (reverse body)) (add_comm 0 c)
      ∙ luhn_total-add true (reverse body) c 0 in
    ground (arith, e)
