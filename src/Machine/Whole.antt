-- ===== src/Machine/Whole.antt =====
-- A machine on which the definitions run: fixed-point numbers with three decimals, as whole
-- thousandths, for `double` and `float`, with every product, quotient and root rounded towards
-- zero. It shows that what the theorems assume of a machine can hold, and it carries the tests.
use mathlib.Core.Path.{ap₂}
use pr_shooter.Prelude.{
  ℕ, zero, suc, ◌+◌, ◌-◌, ◌*◌, ◌/◌, ◌^◌, ◌≡◌, refl, Bool, not, List, ◌∷◌, arith, leb, ◌==◌,
  if◌then◌else◌, get_or, replicate, ap,
}
use pr_shooter.Prelude.Int.{
  ℤ, pos, negsuc, pos_part, neg_part, sub_ℕ, ◌+ℤ◌, ◌-ℤ◌, ◌*ℤ◌, ltb_ℤ, +ℤ_comm,
}
use package.pr_shooter.Machine.{Machine, HasBytes, HasSizes, IsCommutative}

abbrev one : ℕ
one = 1000

-- the whole square root, digit by digit
isqrt : ℕ → ℕ → ℕ
isqrt zero n = 0
isqrt (suc fuel) n =
    let rest = isqrt fuel (n / 4) in
    if n == 0 then 0 else (let s = 2 * rest in if leb ((s + 1) * (s + 1)) n then s + 1 else s)

magnitude : ℤ → ℕ
magnitude a = pos_part a + neg_part a

negative : ℤ → Bool
negative a = ltb_ℤ a (pos 0)

-- a quotient of magnitudes with the sign of `a`
signed : ℤ → ℕ → ℤ
unfolding negative
signed a q = if negative a then sub_ℕ 0 q else pos q

mul_fixed : ℤ → ℤ → ℤ
unfolding signed magnitude ◌*ℤ◌
mul_fixed a b = signed (a *ℤ b) (magnitude (a *ℤ b) / one)

div_fixed : ℤ → ℤ → ℤ
unfolding signed magnitude ◌*ℤ◌
div_fixed a b = signed (a *ℤ b) (magnitude a * one / magnitude b)

sqrt_fixed : ℤ → ℤ
unfolding isqrt
sqrt_fixed a = pos (isqrt 64 (pos_part a * one))

trunc_fixed : ℤ → ℤ
unfolding signed magnitude
trunc_fixed a = signed a (magnitude a / one * one)

-- The angle counts quarter turns.
cos_quarter : ℤ → ℤ
cos_quarter a =
    if magnitude a == 0 then pos one else if magnitude a == 2 then sub_ℕ 0 one else pos 0

sin_quarter : ℤ → ℤ
sin_quarter a =
    if magnitude a == 1 then pos one else if magnitude a == 3 then sub_ℕ 0 one else pos 0

-- A number and its sign in two places, filled up to the size of the type.
bytes_of : ℕ → ℤ → List ℕ
bytes_of size a = pos_part a ∷ neg_part a ∷ replicate (size - 2) 0

number_of : List ℕ → ℤ
number_of bytes = sub_ℕ (get_or bytes 0 0) (get_or bytes 1 0)

unfoldable pub whole : Machine
unfolding mul_fixed div_fixed sqrt_fixed trunc_fixed cos_quarter sin_quarter bytes_of number_of ◌+ℤ◌
    ◌-ℤ◌ magnitude
whole = record {
  Double = ℤ;
  Single = ℤ;
  add = ◌+ℤ◌;
  sub = ◌-ℤ◌;
  mul = mul_fixed;
  div = div_fixed;
  neg = λ a. pos 0 -ℤ a;
  sqrt = sqrt_fixed;
  lt = ltb_ℤ;
  le = λ a b. not (ltb_ℤ b a);
  literal = λ n k. pos (n * one / 10 ^ k);
  max_double = pos (10 ^ 12);
  min_double = pos 0;
  trunc = trunc_fixed;
  cos = cos_quarter;
  sin = sin_quarter;
  single_zero = pos 0;
  double_bytes = bytes_of 8;
  double_of = number_of;
  single_bytes = bytes_of 4;
  single_of = number_of;
  sizeof_player = 64;
  sizeof_projectile = 48;
  sizeof_rectangle = 64;
  sizeof_circle = 24;
  sizeof_point = 16;
}

number_of-bytes_of : (size : ℕ) (a : ℤ) → number_of (bytes_of size a) ≡ a
unfolding number_of bytes_of
number_of-bytes_of size (pos n) = ground arith
number_of-bytes_of size (negsuc n) = ground arith

pub whole-HasBytes : HasBytes whole
unfolding whole
whole-HasBytes = record {
  length-double_bytes = λ x. refl;
  double_of-double_bytes = number_of-bytes_of 8;
  length-single_bytes = λ x. refl;
  single_of-single_bytes = number_of-bytes_of 4;
}

pub whole-HasSizes : HasSizes whole
unfolding whole
whole-HasSizes = omega arith

sub_flip : (a b : ℤ) → pos_part (a -ℤ b) ≡ neg_part (b -ℤ a)
unfolding ◌-ℤ◌
sub_flip a b = ground arith

square_flip : (a b : ℤ) → (a -ℤ b) *ℤ (a -ℤ b) ≡ (b -ℤ a) *ℤ (b -ℤ a)
unfolding ◌*ℤ◌
square_flip a b = rw (sub_flip a b, ← sub_flip b a) (ap₂ sub_ℕ (omega arith) (omega arith))

pub whole-IsCommutative : IsCommutative whole
unfolding whole
whole-IsCommutative = record {
  add_comm = +ℤ_comm;
  square-sub_comm = λ x y. ap (λ z. signed z (magnitude z / one)) (square_flip x y);
}
