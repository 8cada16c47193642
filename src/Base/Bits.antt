-- ===== src/Base/Bits.antt =====
-- The operators `|` and `&` of C on numbers without a sign: `|` joins two bit fields that do not
-- overlap, and `&` with a mask keeps the low bits.
use Prim.Native.Nat.{
  ℕ, zero, suc, ◌+◌, ◌*◌, ◌/◌, ◌%◌, ◌<◌, ◌≤◌, ◌^◌, bit_or, bit_and, digits, min, max,
  bit_or-bitwise, bit_and-bitwise,
}
use mathlib.Core.Path.{◌≡◌, refl, sym, ap, ◌∙◌}
use native.Mathlib.Omega.{arith}
use native.Mathlib.Nat.{mul_left_comm, mul-add-mod_self_left, mod-eq_of_lt, mod-lt, div-add-mod}

abbrev or_digits : ℕ → ℕ → ℕ → ℕ
or_digits n a b = digits (λ d. d) max n a b

abbrev and_digits : ℕ → ℕ → ℕ → ℕ
and_digits n a b = digits (λ d. 0) min n a b

or_zero : (n a : ℕ) → a ≤ n → or_digits n a 0 ≡ a
or_zero zero a h = ground arith
or_zero (suc n) zero h = refl
or_zero (suc n) (suc a) h = let ih = or_zero n (suc a / 2) (omega arith) in rw ih (omega arith)

-- the power doubles
double : (q j : ℕ) → q * 2 ^ suc j ≡ 2 * (q * 2 ^ j)
double q j =
    let h = mul_left_comm q 2 (2 ^ j) in let p : 2 ^ suc j ≡ 2 * 2 ^ j = omega arith in rw p h

or_low : (j n q w b : ℕ) → w ≡ q * 2 ^ j → b < 2 ^ j → w ≤ n → or_digits n w b ≡ w + b
or_low zero n q w b e h k = let z : b ≡ 0 = omega arith in rw z (or_zero n w k ∙ omega arith)
or_low (suc j) zero q w b e h k = let z : w ≡ 0 = omega arith in rw z (omega arith)
or_low (suc j) (suc n) q zero b e h k = omega arith
or_low (suc j) (suc n) q (suc w) b e h k =
    let ih =
      or_low j n q (suc w / 2) (b / 2) (omega (arith, double q j)) (omega arith) (omega arith) in
    let even : suc w % 2 ≡ 0 = omega (arith, double q j) in rw (ih, even) (omega arith)

-- a field above the bits of `b`
pub bit_or-shifted : (q j b : ℕ) → b < 2 ^ j → bit_or (q * 2 ^ j) b ≡ q * 2 ^ j + b
bit_or-shifted q j b h =
    bit_or-bitwise (q * 2 ^ j) b ∙ or_low j (q * 2 ^ j) q (q * 2 ^ j) b refl h (omega arith)

double_mod : (x p : ℕ) → 0 < p → x / 2 % p * 2 + x % 2 ≡ x % (2 * p)
double_mod x p pos =
    let k = 2 * p in
    let r = x / 2 % p * 2 + x % 2 in
    let bound : r < k = omega (arith, mod-lt (x / 2) pos) in
    let split : k * (x / 2 / p) + r ≡ x = grind (arith, div-add-mod (x / 2) p) in
    sym (mod-eq_of_lt bound) ∙ sym (mul-add-mod_self_left k (x / 2 / p) r) ∙ ap (λ y. y % k) split

and_low : (j n x b : ℕ) → suc b ≡ 2 ^ j → x ≤ n → and_digits n x b ≡ x % 2 ^ j
and_low zero zero x b e k = omega arith
and_low zero (suc n) zero b e k = refl
and_low zero (suc n) (suc x) b e k =
    let ih = and_low 0 n (suc x / 2) (b / 2) (omega arith) (omega arith) in
    let low : b % 2 ≡ 0 = omega arith in rw (ih, low) (omega arith)
and_low (suc j) zero x b e k = omega arith
and_low (suc j) (suc n) zero b e k = omega arith
and_low (suc j) (suc n) (suc x) b e k =
    let ih = and_low j n (suc x / 2) (b / 2) (omega arith) (omega arith) in
    let odd : b % 2 ≡ 1 = omega arith in
    let least : min (suc x % 2) 1 ≡ suc x % 2 = omega arith in
    let p : 2 ^ suc j ≡ 2 * 2 ^ j = omega arith in
    rw (ih, odd, least, p) (double_mod (suc x) (2 ^ j) (omega arith))

-- a mask of `j` ones
pub bit_and-mask : (x j b : ℕ) → suc b ≡ 2 ^ j → bit_and x b ≡ x % 2 ^ j
bit_and-mask x j b h = bit_and-bitwise x b ∙ and_low j x x b h (omega arith)
