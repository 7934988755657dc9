-- ===== src/Domain/Ieee.antt =====
-- Python's float as the 64 bits of an IEEE 754 double. Of two doubles without sign that are
-- numbers the greater one has the greater bit pattern.
use Prim.Native.Nat.{◌^◌, ◌%◌}
use project_6_document_class.Base.{ℕ, ◌+◌, Bool, ◌&&◌, not, ltb, leb, if◌then◌else◌}

pub record Double : Type 0 where
  pub bits : ℕ

-- The exponent is all ones and the fraction is not zero.
abbrev pub is_nan : Double → Bool
is_nan x = ltb 0x7FF0000000000000 (x.bits % 2 ^ 63)

abbrev pub is_negative : Double → Bool
is_negative x = leb (2 ^ 63) x.bits

-- `x >= c` for a constant `c` above zero: false for a NaN and for a negative `x`.
abbrev pub at_least : Double → Double → Bool
at_least c x = not (is_nan x) && not (is_negative x) && leb c.bits x.bits

-- `x < y`: false for a NaN, and for two zeros of any sign.
unfoldable pub less : Double → Double → Bool
less x y =
    not (is_nan x)
    && not (is_nan y)
    && (if is_negative x
        then (if is_negative y then ltb y.bits x.bits else ltb 0 (x.bits % 2 ^ 63 + y.bits))
        else not (is_negative y) && ltb x.bits y.bits)
