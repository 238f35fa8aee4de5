-- ===== src/Rag/Vectors.antt =====
-- What rag/faiss_store.py uses of Python's floats, of numpy and of the faiss library: parameters.
use compliance_agent_platfor.Base.{ℕ, ◌+◌, ◌<◌, ◌≡◌, Bool, List, Option, none, some, All, length}
use compliance_agent_platfor.Base.Float.{Float}
use compliance_agent_platfor.Error.{Result, ok}

abbrev pub Vector : Type 0
Vector = List Float

-- Python's `*`, `/` and truth of floats, `sum`, `math.sqrt`; and numpy's conversion to float32
pub record Floats : Type 0 where
  pub mul : Float → Float → Float
  pub div : Float → Float → Float
  pub sum : Vector → Float
  pub sqrt : Float → Float
  pub is_zero : Float → Bool
  pub float32 : Float → Float

-- `faiss.IndexFlatIP`: an empty index of a dimension, `add`, and `search` of one query, which gives
-- scores and positions. The position -1 is `none`.
pub record Faiss : Type 1 where
  pub Index : Type 0
  pub index_flat_ip : ℕ → Index
  pub add : Index → List Vector → Result Index
  pub search : Index → Vector → ℕ → Result (List (Float × Option ℕ))

-- A position is the number of a vector.
abbrev pub Within : ℕ → Float × Option ℕ → Type 0
Within total (score, none) = Unit
Within total (score, some i) = i < total

-- What the documentation of faiss promises of the two calls: an index takes the vectors of its
-- dimension, and a search gives k pairs, whose positions are those of vectors or -1.
pub record IsFlat (F : Faiss) : Type 1 where
  pub Holds : F.Index → ℕ → ℕ → Type 0
  pub empty : (d : ℕ) → Holds (F.index_flat_ip d) d 0
  pub adds :
      (x : F.Index) (d n : ℕ) (vs : List Vector)
      → Holds x d n
      → All (λ v. length v ≡ d) vs
      → (y : F.Index) × (F.add x vs ≡ ok y) × Holds y d (n + length vs)
  pub searches :
      (x : F.Index) (d n : ℕ) (q : Vector) (k : ℕ)
      → Holds x d n
      → length q ≡ d
      → 0 < k
      → (hits : List (Float × Option ℕ)) × (F.search x q k ≡ ok hits)
        × (length hits ≡ k)
        × All (Within n) hits
