-- ===== src/Base/Dict.antt =====
-- Python dicts of texts, in insertion order. Proofs elsewhere go by the laws.
use Prim.Native.String.{String}
use mathlib.Core.Path.{◌≡◌, refl, sym, subst}
use mathlib.Core.Logic.{◌≢◌, inl, inr}
use mathlib.Core.Bool.{false}
use mathlib.Core.Option.{Option, none, some}
use mathlib.Core.List.{List, [], ◌∷◌, ◌++◌}
use native.Mathlib.Omega.{arith}
use text.Mathlib.Text.{◌==◌ as str_eq}
use text.Mathlib.TextEquality.{eq_iff}
use text.Mathlib.TextPositions.{eq_refl}
use compliance_agent_platfor.Base.Tests.{if◌then◌else◌, Bool-cases}
use compliance_agent_platfor.Base.Lists.{All, All-map}

abbrev pub Dict {ℓ} : Type ℓ → Type ℓ
Dict V = List (String × V)

module _ {ℓ} {V : Type ℓ} where
  abbrev pub keys : Dict V → List String
  keys [] = []
  keys (e ∷ d) = e.0 ∷ keys d

  -- `d.get(k)`
  unfoldable pub lookup : String → Dict V → Option V
  lookup k [] = none
  lookup k (e ∷ d) = let rest = lookup k d in if str_eq k e.0 then some e.1 else rest

  -- `d[k] = v`
  unfoldable pub insert : String → V → Dict V → Dict V
  insert k v [] = (k, v) ∷ []
  insert k v (e ∷ d) = let rest = insert k v d in if str_eq k e.0 then (k, v) ∷ d else e ∷ rest

  pub lookup-nil : (k : String) → lookup k [] ≡ none
  unfolding lookup
  lookup-nil k = refl

  pub lookup-cons :
      (j : String) (e : String × V) (d : Dict V)
      → lookup j (e ∷ d) ≡ (if str_eq j e.0 then some e.1 else lookup j d)
  unfolding lookup
  lookup-cons j e d = refl

  pub lookup-insert :
      (j k : String) (v : V) (d : Dict V)
      → lookup j (insert k v d) ≡ (if str_eq j k then some v else lookup j d)
  unfolding insert lookup
  lookup-insert j k v [] = refl
  lookup-insert j k v (e ∷ d) =
      ground (arith, lookup-insert j k v d, eq_iff k e.0, eq_iff j e.0, eq_iff j k)

  -- No key twice
  abbrev pub NodupKeys : Dict V → Type ℓ
  NodupKeys [] = Unit
  NodupKeys (e ∷ d) = (lookup e.0 d ≡ none) × NodupKeys d

  pub insert-NodupKeys : (k : String) (v : V) (d : Dict V) → NodupKeys d → NodupKeys (insert k v d)
  unfolding insert
  insert-NodupKeys k v [] u = (lookup-nil k, tt)
  insert-NodupKeys k v (e ∷ d) u =
      ground
        (arith, insert-NodupKeys k v d u.1, lookup-insert e.0 k v d, eq_iff k e.0, eq_iff e.0 k)

  pub insert-All :
      (P : String × V → Type 0) (k : String) (v : V) (d : Dict V)
      → P (k, v)
      → All P d
      → All P (insert k v d)
  unfolding insert
  insert-All P k v [] p a = (p, tt)
  insert-All P k v (e ∷ d) p a = ground (arith, insert-All P k v d p a.1)

  -- The keys of a dict are those that are found.
  pub keys-found : (d : Dict V) → All (λ k. lookup k d ≢ none) (keys d)
  keys-found [] = tt
  keys-found (e ∷ d) = (
    (λ q. ground (arith, q, lookup-cons e.0 e d, eq_refl e.0)),
    All-map (λ k. lookup k d ≢ none) (λ k. lookup k (e ∷ d) ≢ none) (keys d)
        (λ k p q. ground (arith, p, q, lookup-cons k e d)) (keys-found d),
  )

-- Where two dicts have the same keys, they still have after the same key is set.
pub keys-insert {ℓ κ} :
    {V : Type ℓ} {W : Type κ} (k : String) (v : V) (w : W) (d : Dict V) (c : Dict W)
    → keys d ≡ keys c
    → keys (insert k v d) ≡ keys (insert k w c)
unfolding insert
keys-insert k v w [] [] e = refl
keys-insert k v w [] (y ∷ c) e = absurd (ground arith)
keys-insert k v w (x ∷ d) [] e = absurd (ground arith)
keys-insert k v w (x ∷ d) (y ∷ c) e = ground (arith, keys-insert k v w d c, e)

-- What holds of every value holds of the one that is found.
pub lookup-All {ℓ κ} :
    {V : Type ℓ} (Q : String × V → Type κ) (k : String) (v : V) (d : Dict V)
    → All Q d
    → lookup k d ≡ some v
    → Q (k, v)
lookup-All {V = V} Q k v [] a e = absurd (ground (arith, e, lookup-nil {V = V} k))
lookup-All Q k v (x ∷ d) a e = elim (Bool-cases (str_eq k x.0)) [
  | inl q ↦
      let value : x.1 ≡ v = grind (arith, e, q, lookup-cons k x d) in
      subst (λ j. Q (j, v)) (sym ((eq_iff k x.0).0 q)) (subst (λ w. Q (x.0, w)) value a.0)
  | inr q ↦ lookup-All Q k v d a.1 (ground (arith, e, q, lookup-cons k x d))
]

module _ {ℓ} {V : Type ℓ} where
  lookup-absent :
      (j k : String) (v : V) (a b : Dict V) → lookup j (a ++ (k, v) ∷ b) ≡ none → str_eq j k ≡ false
  lookup-absent j k v [] b e = ground (arith, e, lookup-cons j (k, v) b)
  lookup-absent j k v (x ∷ a) b e =
      lookup-absent j k v a b (ground (arith, e, lookup-cons j x (a ++ (k, v) ∷ b)))

  -- A key that is not there comes last.
  pub insert-last :
      (k : String) (v : V) (a b : Dict V)
      → NodupKeys (a ++ (k, v) ∷ b)
      → insert k v a ≡ a ++ (k, v) ∷ []
  unfolding insert
  insert-last k v [] b u = refl
  insert-last k v (x ∷ a) b u =
      ground
        (arith, insert-last k v a b u.1, lookup-absent x.0 k v a b u.0, eq_iff x.0 k, eq_iff k x.0)

  -- In a dict without a key twice, each item is found under its key.
  pub NodupKeys-found :
      (d : Dict V) → NodupKeys d → All (λ (e : String × V). lookup e.0 d ≡ some e.1) d
  NodupKeys-found [] u = tt
  NodupKeys-found (x ∷ d) u = (
    ground (arith, lookup-cons x.0 x d, eq_refl x.0),
    All-map (λ (e : String × V). lookup e.0 d ≡ some e.1)
        (λ (e : String × V). lookup e.0 (x ∷ d) ≡ some e.1) d
        (λ e p. ground (arith, p, lookup-cons e.0 x d, eq_iff e.0 x.0, u.0))
        (NodupKeys-found d u.1),
  )
