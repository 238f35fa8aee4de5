-- ===== src/Base/Sort.antt =====
-- Python's `sort(key=...)` on a numeric key, which is stable, as an insertion sort.
use Prim.Native.Nat.{ℕ, ◌<◌}
use mathlib.Core.Path.{◌≡◌, refl, ap, ◌∙◌}
use mathlib.Core.List.{List, [], ◌∷◌, ◌++◌}
use native.Mathlib.Omega.{arith}
use compliance_agent_platfor.Base.Tests.{leb, if◌then◌else◌}
use compliance_agent_platfor.Base.Lists.{All}

module _ {ℓ} {A : Type ℓ} (key : A → ℕ) where
  -- Before the first item of a key that is not lower.
  abbrev pub insert_by : A → List A → List A
  insert_by x [] = x ∷ []
  insert_by x (y ∷ ys) =
      let rest = insert_by x ys in if leb (key x) (key y) then x ∷ y ∷ ys else y ∷ rest

  abbrev pub sort_by : List A → List A
  sort_by [] = []
  sort_by (x ∷ xs) = insert_by x (sort_by xs)

  pub insert_by-All :
      (P : A → Type 0) (x : A) (ys : List A) → P x → All P ys → All P (insert_by x ys)
  insert_by-All P x [] px a = (px, tt)
  insert_by-All P x (y ∷ ys) px a = ground (arith, insert_by-All P x ys px a.1)

  pub sort_by-All : (P : A → Type 0) (xs : List A) → All P xs → All P (sort_by xs)
  sort_by-All P [] a = tt
  sort_by-All P (x ∷ xs) a = insert_by-All P x (sort_by xs) a.0 (sort_by-All P xs a.1)

  insert_by-append :
      (x m : A) (ys : List A)
      → key x < key m
      → insert_by x (ys ++ m ∷ []) ≡ insert_by x ys ++ m ∷ []
  insert_by-append x m [] l = ground arith
  insert_by-append x m (y ∷ ys) l = ground (arith, insert_by-append x m ys l)

  insert_by-last :
      (m : A) (ys : List A) → All (λ x. key x < key m) ys → insert_by m ys ≡ ys ++ m ∷ []
  insert_by-last m [] a = refl
  insert_by-last m (y ∷ ys) a = ground (arith, insert_by-last m ys a.1)

  -- An item of the highest key comes last, wherever it stood.
  pub sort_by-last :
      (m : A) (xs ys : List A)
      → All (λ x. key x < key m) xs
      → All (λ x. key x < key m) ys
      → sort_by (xs ++ m ∷ ys) ≡ sort_by (xs ++ ys) ++ m ∷ []
  sort_by-last m [] ys a b = insert_by-last m (sort_by ys) (sort_by-All (λ x. key x < key m) ys b)
  sort_by-last m (x ∷ xs) ys a b =
      ap (insert_by x) (sort_by-last m xs ys a.1 b) ∙ insert_by-append x m (sort_by (xs ++ ys)) a.0

  insert_by-All_back :
      (P : A → Type 0) (x : A) (ys : List A) → All P (insert_by x ys) → P x × All P ys
  insert_by-All_back P x [] a = a
  insert_by-All_back P x (y ∷ ys) a = ground (arith, insert_by-All_back P x ys)

  pub sort_by-All_back : (P : A → Type 0) (xs : List A) → All P (sort_by xs) → All P xs
  sort_by-All_back P [] a = tt
  sort_by-All_back P (x ∷ xs) a =
      let (px, rest) = insert_by-All_back P x (sort_by xs) a in (px, sort_by-All_back P xs rest)
