-- ===== src/Prelude/Values.antt =====
-- The values that the program passes through untouched: JSON as Python's `json` reads it. A float
-- is its mantissa and its exponent of two.
use Prim.Native.String.{String}
use mathlib.Core.Bool.{Bool}
use jove_mage.Prelude.Int.{ℤ}

mutual
  pub data Value : Type 0 where
    null : Value
    bool : Bool → Value
    int : ℤ → Value
    float : ℤ → ℤ → Value
    str : String → Value
    list : Items → Value
    dict : Fields → Value

  pub data Items : Type 0 where
    nil : Items
    cons : Value → Items → Items

  pub data Fields : Type 0 where
    end : Fields
    field : String → Value → Fields → Fields
