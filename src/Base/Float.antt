-- ===== src/Base/Float.antt =====
-- Python's floats as far as the program compares them. Every finite double is a whole multiple of
-- 2 ^ -1074, so `nonneg n` is n * 2 ^ -1074 and `neg n` is -(n + 1) * 2 ^ -1074; both zeros are
-- `nonneg 0`. A comparison with NaN is false.
use Prim.Native.Nat.{ℕ, ◌*◌, ◌^◌}
use mathlib.Core.Bool.{Bool, true, false, ◌&&◌}
use compliance_agent_platfor.Base.Tests.{leb}

pub data Float : Type 0 where
  nan neg_inf pos_inf : Float
  neg nonneg : ℕ → Float

-- `a <= b`
abbrev pub le_float : Float → Float → Bool
le_float nan b = false
le_float neg_inf b = elim b [ nan ↦ false | _ ↦ true ]
le_float (neg m) b = elim b [ neg n ↦ leb n m | nonneg n ↦ true | pos_inf ↦ true | _ ↦ false ]
le_float (nonneg m) b = elim b [ nonneg n ↦ leb m n | pos_inf ↦ true | _ ↦ false ]
le_float pos_inf b = elim b [ pos_inf ↦ true | _ ↦ false ]

-- 1.0, in units of 2 ^ -1074
unfoldable pub units : ℕ
units = 2 ^ 1074

abbrev pub zero_float : Float
zero_float = nonneg 0

abbrev pub one_float : Float
one_float = nonneg units

-- `Field(ge=0.0, le=1.0)`
unfoldable pub in_unit_range : Float → Bool
in_unit_range x = le_float zero_float x && le_float x one_float

-- The double with this integer mantissa, shifted left from the unit.
unfoldable pub double : ℕ → ℕ → Float
double mantissa shift = nonneg (mantissa * 2 ^ shift)
