-- ===== src/Prelude/Doubles.antt =====
-- JavaScript numbers that the source only compares. A double other than NaN is given by its place
-- in the order of the doubles, `2 ^ 63` for both zeros; so every comparison has its exact answer.
use Prim.Native.Nat.{ℕ, ◌+◌, ◌-◌, ◌%◌}
use mathlib.Core.Bool.{Bool, false}
use mathlib.Core.Option.{Option, none, some}
use trend_tree.Prelude.Tests.{if◌then◌else◌, ltb, leb}

pub data Double : Type 0 where
  nan : Double
  num : ℕ → Double

-- From the 64 bits of the IEEE 754 format.
unfoldable pub of_bits : ℕ → Double
of_bits b =
    if ltb 0x7ff0000000000000 (b % 0x8000000000000000)
    then nan
    else if ltb b 0x8000000000000000
    then num (0x8000000000000000 + b)
    else num (0x10000000000000000 - b)

-- `a < b`
unfoldable pub lt_double : Double → Double → Bool
lt_double (num a) (num b) = ltb a b
lt_double nan _ = false
lt_double _ nan = false

-- `a >= b`
unfoldable pub ge_double : Double → Double → Bool
ge_double (num a) (num b) = leb b a
ge_double nan _ = false
ge_double _ nan = false

-- `Number.isFinite`, of a value that is a number
unfoldable pub is_finite : Double → Bool
is_finite nan = false
is_finite (num a) = if leb a 0x10000000000000 then false else ltb a 0xfff0000000000000

abbrev pub zero_double : Double
zero_double = num 0x8000000000000000

-- `Math.min(Math.max(n, lo), hi)`, and null if `n` is not finite
unfoldable pub clamp : Double → Double → Double → Option Double
unfolding is_finite lt_double
clamp n lo hi =
    if is_finite n
    then some (let m = if lt_double n lo then lo else n in if lt_double hi m then hi else m)
    else none
