-- ===== src/Audit/Export/Memory.antt =====
-- A bucket in memory, a list of keys and objects, which meets what the export assumes of S3.
use compliance_agent_platfor.Base.{
  String, ◌≡◌, ◌≢◌, refl, sym, List, [], ◌∷◌, ◌++◌, none, All, All-map, str_eq, eq_refl, inl, inr,
  Bool-cases, arith, if◌then◌else◌, append-nil,
}
use compliance_agent_platfor.Base.Dict.{Dict, lookup, insert, lookup-insert}
use compliance_agent_platfor.Base.Text.{codes, starts_with}
use compliance_agent_platfor.Audit.Export.Bucket.{ObjectStore, IsConsistent, Body}
use compliance_agent_platfor.Audit.Export.Keys.{HasPrefix}

abbrev pub Objects : Type 0
Objects = Dict Body

unfoldable pub keys : Objects → String → List String
keys [] prefix = []
keys (o ∷ os) prefix =
    let rest = keys os prefix in if starts_with (codes prefix) (codes o.0) then o.0 ∷ rest else rest

abbrev pub memory : ObjectStore
memory = record {
  State = Objects;
  put = λ d k b. insert k b d;
  get = λ d k. lookup k d;
  keys = keys;
}

keys-stored : (s : Objects) (prefix : String) → All (λ k. lookup k s ≢ none) (keys s prefix)
unfolding lookup keys
keys-stored [] prefix = tt
keys-stored (o ∷ os) prefix =
    let rest =
      All-map (λ k. lookup k os ≢ none) (λ k. lookup k (o ∷ os) ≢ none) (keys os prefix)
        (λ k p e. ground (arith, p, e)) (keys-stored os prefix) in
    elim (Bool-cases (starts_with (codes prefix) (codes o.0))) [
      | inl e ↦ rw e ((λ q. ground (arith, q, eq_refl o.0)), rest)
      | inr e ↦ rw e rest
    ]

keys-other :
    (s : Objects) (k prefix : String) (b : Body)
    → lookup k s ≡ none
    → ¬ HasPrefix prefix k
    → keys (insert k b s) prefix ≡ keys s prefix
unfolding insert lookup keys
keys-other [] k prefix b fresh out = ground (arith, out)
keys-other (o ∷ os) k prefix b fresh out = elim (Bool-cases (str_eq k o.0)) [
  | inl e ↦ absurd (ground (arith, fresh, e))
  | inr e ↦
      let tail = keys-other os k prefix b (ground (arith, fresh, e)) out in
      elim (Bool-cases (starts_with (codes prefix) (codes o.0))) [
        | inl u ↦ rw (e, u, tail) refl
        | inr u ↦ rw (e, u, tail) refl
      ]
]

keys-new :
    (s : Objects) (k prefix : String) (b : Body)
    → lookup k s ≡ none
    → HasPrefix prefix k
    → keys (insert k b s) prefix ≡ keys s prefix ++ k ∷ []
unfolding insert lookup keys
keys-new [] k prefix b fresh under = rw under refl
keys-new (o ∷ os) k prefix b fresh under = elim (Bool-cases (str_eq k o.0)) [
  | inl e ↦ absurd (ground (arith, fresh, e))
  | inr e ↦
      let tail = keys-new os k prefix b (ground (arith, fresh, e)) under in
      elim (Bool-cases (starts_with (codes prefix) (codes o.0))) [
        | inl u ↦ rw (e, u, tail) refl
        | inr u ↦ rw (e, u, tail) refl
      ]
]

pub memory-IsConsistent : IsConsistent memory HasPrefix
memory-IsConsistent = record {
  get-put = λ s k b j. lookup-insert j k b s;
  keys-stored = keys-stored;
  keys-new = λ s k prefix b fresh under. record {
    front = keys s prefix;
    back = [];
    were = sym (append-nil (keys s prefix));
    are = keys-new s k prefix b fresh under;
  };
  keys-other = keys-other;
}
