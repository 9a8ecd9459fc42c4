-- ===== src/Base/Bits.antt =====
-- Laws of the bit operations on machine words, from the digit recursion that they stand for.
use Prim.Native.Nat.{
  ℕ, zero, suc, ◌+◌, ◌-◌, ◌*◌, ◌/◌, ◌%◌, ◌≤◌, min, max, bit_and, bit_or, digits, bit_and-bitwise,
  bit_or-bitwise,
}
use mathlib.Core.Path.{◌≡◌, refl, sym, ap, ◌∙◌}
use native.Mathlib.Omega.{arith}

-- `~x` of a 32-bit word.
abbrev pub compl32 : ℕ → ℕ
compl32 x = 0xffff_ffff - x

-- The fuel of the digit recursion does not matter once it reaches the first operand.
fuel_irrelevant :
    (rest : ℕ → ℕ) (bit : ℕ → ℕ → ℕ) (a n m b : ℕ)
    → a ≤ n
    → a ≤ m
    → digits rest bit n a b ≡ digits rest bit m a b
fuel_irrelevant rest bit zero zero zero b p q = refl
fuel_irrelevant rest bit zero zero (suc m) b p q = refl
fuel_irrelevant rest bit zero (suc n) zero b p q = refl
fuel_irrelevant rest bit zero (suc n) (suc m) b p q = refl
fuel_irrelevant rest bit (suc a) zero m b p q = absurd (omega arith)
fuel_irrelevant rest bit (suc a) (suc n) zero b p q = absurd (omega arith)
fuel_irrelevant rest bit (suc a) (suc n) (suc m) b p q =
    rw (fuel_irrelevant rest bit (suc a / 2) n m (b / 2) (omega arith) (omega arith))

and_digit : (x y : ℕ) → bit_and x y ≡ min (x % 2) (y % 2) + 2 * bit_and (x / 2) (y / 2)
and_digit zero b = omega (arith, bit_and-bitwise 0 b, bit_and-bitwise 0 (b / 2))
and_digit (suc a) b = omega (
  arith,
  bit_and-bitwise (suc a) b,
  bit_and-bitwise (suc a / 2) (b / 2),
  fuel_irrelevant (λ y. 0) min (suc a / 2) a (suc a / 2) (b / 2) (omega arith) (omega arith),
)

or_digit : (x y : ℕ) → bit_or x y ≡ max (x % 2) (y % 2) + 2 * bit_or (x / 2) (y / 2)
or_digit zero b = omega (arith, bit_or-bitwise 0 b, bit_or-bitwise 0 (b / 2))
or_digit (suc a) b = omega (
  arith,
  bit_or-bitwise (suc a) b,
  bit_or-bitwise (suc a / 2) (b / 2),
  fuel_irrelevant (λ y. y) max (suc a / 2) a (suc a / 2) (b / 2) (omega arith) (omega arith),
)

zero-bit_and : (b : ℕ) → bit_and 0 b ≡ 0
zero-bit_and b = bit_and-bitwise 0 b

-- Setting more bits clears none under a mask.
and-le-or_fuel : (n a b m : ℕ) → a ≤ n → bit_and a m ≤ bit_and (bit_or a b) m
and-le-or_fuel n zero b m h = omega (arith, zero-bit_and m)
and-le-or_fuel zero (suc a) b m h = absurd (omega arith)
and-le-or_fuel (suc n) (suc a) b m h = omega (
  arith,
  and_digit (suc a) m,
  and_digit (bit_or (suc a) b) m,
  or_digit (suc a) b,
  halves,
  and-le-or_fuel n (suc a / 2) (b / 2) (m / 2) (omega arith),
)
  where
    halves : bit_and (bit_or (suc a) b / 2) (m / 2) ≡ bit_and (bit_or (suc a / 2) (b / 2)) (m / 2)
    halves = ap (λ k. bit_and k (m / 2)) (omega (arith, or_digit (suc a) b))

pub and-le-and-or : (a b m : ℕ) → bit_and a m ≤ bit_and (bit_or a b) m
and-le-and-or a b m = and-le-or_fuel a a b m (omega arith)

-- The greatest word of w bits.
abbrev all_ones : ℕ → ℕ
all_ones zero = 0
all_ones (suc w) = all_ones w * 2 + 1

subset_fuel :
    (w a b c : ℕ)
    → a ≤ all_ones w
    → b + c ≡ all_ones w
    → bit_and a c ≡ 0
    → (bit_and b a ≡ a) × (bit_or a b ≡ b)
subset_fuel zero zero zero c p q h = (refl, refl)
subset_fuel zero zero (suc b) c p q h = absurd (omega arith)
subset_fuel zero (suc a) b c p q h = absurd (omega arith)
subset_fuel (suc w) a b c p q h =
    let rest : (bit_and (b / 2) (a / 2) ≡ a / 2) × (bit_or (a / 2) (b / 2) ≡ b / 2) =
      subset_fuel w (a / 2) (b / 2) (c / 2) (omega arith) (omega arith)
        (omega (arith, and_digit a c)) in
    (omega (arith, and_digit b a, and_digit a c), omega (arith, or_digit a b, and_digit a c))

-- `a & ~b == 0` of two words: the bits of `a` are among those of `b`.
pub and_compl_zero :
    (a b : ℕ)
    → a ≤ 0xffff_ffff
    → b ≤ 0xffff_ffff
    → bit_and a (compl32 b) ≡ 0
    → (bit_and b a ≡ a) × (bit_or a b ≡ b)
and_compl_zero a b p q = subset_fuel 32 a b (compl32 b) p (omega arith)

-- A word is at most itself with more bits set.
le-or_fuel : (n a b : ℕ) → a ≤ n → a ≤ bit_or a b
le-or_fuel n zero b h = omega arith
le-or_fuel zero (suc a) b h = absurd (omega arith)
le-or_fuel (suc n) (suc a) b h =
    omega (arith, or_digit (suc a) b, le-or_fuel n (suc a / 2) (b / 2) (omega arith))

pub le-or : (a b : ℕ) → a ≤ bit_or a b
le-or a b = le-or_fuel a a b (omega arith)

-- `(a & b) & ~a == 0` and `a & ~(a | b) == 0`, with `x` for the word in brackets.
and-and_compl_fuel : (w a b c x : ℕ) → x ≡ bit_and a b → a + c ≡ all_ones w → bit_and x c ≡ 0
and-and_compl_fuel zero a b c zero e h = zero-bit_and c
and-and_compl_fuel zero zero b c (suc x) e h = absurd (omega (arith, zero-bit_and b))
and-and_compl_fuel zero (suc a) b c (suc x) e h = absurd (omega arith)
and-and_compl_fuel (suc w) a b c x e h = omega (
  arith,
  and_digit a b,
  and_digit x c,
  and-and_compl_fuel w (a / 2) (b / 2) (c / 2) (x / 2) (omega (arith, and_digit a b)) (omega arith),
)

and-or_compl_fuel : (w a b c x : ℕ) → x ≡ bit_or a b → x + c ≡ all_ones w → bit_and a c ≡ 0
and-or_compl_fuel zero zero b c x e h = zero-bit_and c
and-or_compl_fuel zero (suc a) b c x e h = absurd (omega (arith, le-or (suc a) b))
and-or_compl_fuel (suc w) a b c x e h = omega (
  arith,
  or_digit a b,
  and_digit a c,
  and-or_compl_fuel w (a / 2) (b / 2) (c / 2) (x / 2) (omega (arith, or_digit a b)) (omega arith),
)

pub and-and_compl : (a b : ℕ) → a ≤ 0xffff_ffff → bit_and (bit_and a b) (compl32 a) ≡ 0
and-and_compl a b h = and-and_compl_fuel 32 a b (compl32 a) (bit_and a b) refl (omega arith)

pub and-or_compl : (a b : ℕ) → bit_or a b ≤ 0xffff_ffff → bit_and a (compl32 (bit_or a b)) ≡ 0
and-or_compl a b h = and-or_compl_fuel 32 a b (compl32 (bit_or a b)) (bit_or a b) refl (omega arith)

or-le_fuel : (w a b : ℕ) → a ≤ all_ones w → b ≤ all_ones w → bit_or a b ≤ all_ones w
or-le_fuel zero zero zero p q = omega (arith, bit_or-bitwise 0 0)
or-le_fuel zero zero (suc b) p q = absurd (omega arith)
or-le_fuel zero (suc a) b p q = absurd (omega arith)
or-le_fuel (suc w) a b p q =
    omega (arith, or_digit a b, or-le_fuel w (a / 2) (b / 2) (omega arith) (omega arith))

-- Words stay words.
pub or-le : (a b : ℕ) → a ≤ 0xffff_ffff → b ≤ 0xffff_ffff → bit_or a b ≤ 0xffff_ffff
or-le = or-le_fuel 32

or_comm_fuel : (w a b : ℕ) → a ≤ all_ones w → b ≤ all_ones w → bit_or a b ≡ bit_or b a
or_comm_fuel zero zero zero p q = refl
or_comm_fuel zero zero (suc b) p q = absurd (omega arith)
or_comm_fuel zero (suc a) b p q = absurd (omega arith)
or_comm_fuel (suc w) a b p q =
    omega (
      arith,
      or_digit a b,
      or_digit b a,
      or_comm_fuel w (a / 2) (b / 2) (omega arith) (omega arith),
    )

pub or_comm : (a b : ℕ) → a ≤ 0xffff_ffff → b ≤ 0xffff_ffff → bit_or a b ≡ bit_or b a
or_comm = or_comm_fuel 32

-- A switch that is not turned off.
pub or_of_le : (a b : ℕ) → a ≤ b → b ≤ 1 → bit_or a b ≡ b
or_of_le zero b p q = bit_or-bitwise 0 b
or_of_le (suc zero) zero p q = absurd (omega arith)
or_of_le (suc zero) (suc zero) p q = refl
or_of_le (suc zero) (suc (suc b)) p q = absurd (omega arith)
or_of_le (suc (suc a)) b p q = absurd (omega arith)

or-zero_fuel : (n a : ℕ) → a ≤ n → bit_or a 0 ≡ a
or-zero_fuel n zero h = bit_or-bitwise 0 0
or-zero_fuel zero (suc a) h = absurd (omega arith)
or-zero_fuel (suc n) (suc a) h =
    omega (arith, or_digit (suc a) 0, or-zero_fuel n (suc a / 2) (omega arith))

pub or-zero : (a : ℕ) → bit_or a 0 ≡ a
or-zero a = or-zero_fuel a a (omega arith)

-- A byte has no bit above its eighth.
pub byte-and_compl : (a : ℕ) → a ≤ 255 → bit_and a (compl32 255) ≡ 0
byte-and_compl a h =
    let all : bit_or a 255 ≡ 255 = omega (
      arith,
      or-le_fuel 8 a 255 (omega arith) (omega arith),
      or_comm_fuel 8 a 255 (omega arith) (omega arith),
      le-or 255 a,
    ) in
    ap (λ b. bit_and a (compl32 b)) (sym all) ∙ and-or_compl a 255 (omega (arith, all))
