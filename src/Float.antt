-- ===== src/Float.antt =====
-- Python's `float`: IEEE 754 binary64 values as the comparisons of the source see them. A number
-- is its sign and the 63 bits below the sign, read as a natural number: that is the order of the
-- values of one sign. Both zeros are `nonneg 0`, since they compare equal; infinity is the largest.
use agentic_skills_lifecycle.Prelude.{
  ℕ, ◌≡◌, refl, Bool, true, false, arith, ltb, leb, ◌==◌, if◌then◌else◌,
}

pub data Float : Type 0 where
  nan : Float
  neg : ℕ → Float
  nonneg : ℕ → Float

abbrev pub float_zero : Float
float_zero = nonneg 0

-- The bits of 1.0.
abbrev pub float_one : Float
float_one = nonneg 0x3FF0000000000000

-- `a < b`
unfoldable pub float_ltb : Float → Float → Bool
float_ltb (nonneg a) (nonneg b) = ltb a b
float_ltb (neg a) (neg b) = ltb b a
float_ltb (neg a) (nonneg b) = true
float_ltb _ _ = false

-- `a <= b`
unfoldable pub float_leb : Float → Float → Bool
float_leb (nonneg a) (nonneg b) = leb a b
float_leb (neg a) (neg b) = leb b a
float_leb (neg a) (nonneg b) = true
float_leb _ _ = false

-- `a == b`
unfoldable pub float_eqb : Float → Float → Bool
float_eqb (nonneg a) (nonneg b) = a == b
float_eqb (neg a) (neg b) = a == b
float_eqb _ _ = false

-- `min(a, b)` keeps the first argument unless the second is smaller.
unfoldable pub float_min : Float → Float → Float
unfolding float_ltb
float_min a b = if float_ltb b a then b else a

-- `0.0 <= a <= 1.0`
unfoldable pub in_unit : Float → Bool
unfolding float_leb
in_unit (nonneg a) = leb a 0x3FF0000000000000
in_unit _ = false

pub in_unit-bounds :
    (a : Float)
    → in_unit a ≡ true
    → (float_leb float_zero a ≡ true) × (float_leb a float_one ≡ true)
unfolding in_unit
in_unit-bounds (nonneg a) h = ground arith
in_unit-bounds nan h = cc
in_unit-bounds (neg a) h = cc

pub ltb-leb : (a b : Float) → float_ltb a b ≡ true → float_leb a b ≡ true
unfolding float_ltb float_leb
ltb-leb (nonneg a) (nonneg b) h = ground arith
ltb-leb (neg a) (neg b) h = ground arith
ltb-leb (neg a) (nonneg b) h = refl
ltb-leb nan b h = cc
ltb-leb (neg a) nan h = cc
ltb-leb (nonneg a) nan h = cc
ltb-leb (nonneg a) (neg b) h = cc

pub leb_trans : (a b c : Float) → float_leb a b ≡ true → float_leb b c ≡ true → float_leb a c ≡ true
unfolding float_leb
leb_trans (nonneg a) (nonneg b) (nonneg c) h k = ground arith
leb_trans (neg a) (neg b) (neg c) h k = ground arith
leb_trans (neg a) _ (nonneg c) h k = refl
leb_trans _ _ _ h k = ground arith

pub leb_refl : (a : Float) → in_unit a ≡ true → float_leb a a ≡ true
unfolding float_leb in_unit
leb_refl (nonneg a) h = ground arith
leb_refl nan h = cc
leb_refl (neg a) h = cc

-- The smaller of two numbers above a bound is above it.
pub ltb-min :
    (a b c : Float)
    → float_ltb a b ≡ true
    → float_ltb a c ≡ true
    → float_ltb a (float_min b c) ≡ true
unfolding float_min
ltb-min a b c h k = ground arith

pub min-in_unit :
    (b c : Float) → in_unit b ≡ true → in_unit c ≡ true → in_unit (float_min b c) ≡ true
unfolding float_min
min-in_unit b c h k = ground arith

pub min-le :
    (b c : Float)
    → in_unit b ≡ true
    → in_unit c ≡ true
    → (float_leb (float_min b c) b ≡ true) × (float_leb (float_min b c) c ≡ true)
unfolding float_min in_unit float_leb float_ltb
min-le (nonneg b) (nonneg c) h k = ground arith
min-le _ _ h k = ground arith
