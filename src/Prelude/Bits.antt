-- ===== src/Prelude/Bits.antt =====
-- `|` of disjoint fields and `&` with a low mask as arithmetic, for every width.
use Prim.Native.Nat.{ℕ, zero, suc, ◌+◌, ◌-◌, ◌*◌, ◌/◌, ◌%◌, ◌^◌, ◌≤◌, ◌<◌, min, max}
use Prim.Native.Nat.{bit_and, bit_or, digits, bit_and-bitwise, bit_or-bitwise}
use mathlib.Core.Path.{◌≡◌, refl, sym, ap, ◌∙◌}
use native.Mathlib.Nat.{pow-suc, one-le-pow, zero-add, suc-add}
use native.Mathlib.Omega.{arith}

-- Fuel beyond the first number changes nothing.
module _ (base : ℕ → ℕ) (op : ℕ → ℕ → ℕ) where
  spare_fuel : (k n x y : ℕ) → x ≤ n → digits base op (n + k) x y ≡ digits base op n x y
  spare_fuel zero zero zero y h = refl
  spare_fuel (suc k) zero zero y h = rw zero-add refl
  spare_fuel k (suc n) zero y h = rw suc-add refl
  spare_fuel k zero (suc x) y h = absurd (omega arith)
  spare_fuel k (suc n) (suc x) y h =
      let rest = spare_fuel k n (suc x / 2) (y / 2) (omega arith) in
      rw suc-add (ap (λ (t : ℕ). t * 2 + op (suc x % 2) (y % 2)) rest)

  half_fuel : (x y : ℕ) → digits base op x (suc x / 2) y ≡ digits base op (suc x / 2) (suc x / 2) y
  half_fuel x y =
      let h = spare_fuel (x - suc x / 2) (suc x / 2) (suc x / 2) y (omega arith) in
      let e : suc x / 2 + (x - suc x / 2) ≡ x = omega arith in rw e at h

pub zero-bit_or : (b : ℕ) → bit_or 0 b ≡ b
zero-bit_or b = bit_or-bitwise 0 b

-- The law of the lowest bit.
pub bit_and_step : (a b : ℕ) → bit_and a b ≡ bit_and (a / 2) (b / 2) * 2 + min (a % 2) (b % 2)
bit_and_step zero b = ground (arith, bit_and-bitwise 0 b, bit_and-bitwise 0 (b / 2))
bit_and_step (suc a) b =
    let rest = bit_and-bitwise (suc a / 2) (b / 2) ∙ sym (half_fuel (λ b. zero) min a (b / 2)) in
    omega (arith, bit_and-bitwise (suc a) b, rest)

pub bit_or_step : (a b : ℕ) → bit_or a b ≡ bit_or (a / 2) (b / 2) * 2 + max (a % 2) (b % 2)
bit_or_step zero b = omega (arith, zero-bit_or b, zero-bit_or (b / 2))
bit_or_step (suc a) b =
    let rest = bit_or-bitwise (suc a / 2) (b / 2) ∙ sym (half_fuel (λ b. b) max a (b / 2)) in
    omega (arith, bit_or-bitwise (suc a) b, rest)

bit_or-zero_fuel : (n a : ℕ) → a ≤ n → bit_or a 0 ≡ a
bit_or-zero_fuel n zero h = refl
bit_or-zero_fuel zero (suc a) h = absurd (omega arith)
bit_or-zero_fuel (suc n) (suc a) h =
    omega (arith, bit_or_step (suc a) 0, bit_or-zero_fuel n (suc a / 2) (omega arith))

pub bit_or-zero : (a : ℕ) → bit_or a 0 ≡ a
bit_or-zero a = bit_or-zero_fuel a a (omega arith)

bit_and_none : (n x : ℕ) → x ≤ n → bit_and x 0 ≡ 0
bit_and_none n zero h = refl
bit_and_none zero (suc x) h = absurd (omega arith)
bit_and_none (suc n) (suc x) h =
    let below = bit_and_none n (suc x / 2) (omega arith) in
    omega (arith, bit_and_step (suc x) 0, below)

double_shift : (q k : ℕ) → q * 2 ^ suc k ≡ 2 * (q * 2 ^ k)
double_shift q k = omega (arith, ap (λ (t : ℕ). q * t) (pow-suc 2 k))

-- `low | (high << k)` is a sum when `low` fits `k` bits.
pub bit_or_low : (k low high : ℕ) → low < 2 ^ k → bit_or low (high * 2 ^ k) ≡ low + high * 2 ^ k
bit_or_low zero low high fits = ground (arith, zero-bit_or high)
bit_or_low (suc k) low high fits = ground (
  arith,
  bit_or_step low (high * 2 ^ suc k),
  double_shift high k,
  pow-suc 2 k,
  bit_or_low k (low / 2) high (omega (arith, pow-suc 2 k)),
)

-- `(high << k) | low`, likewise.
pub bit_or_high : (k high low : ℕ) → low < 2 ^ k → bit_or (high * 2 ^ k) low ≡ high * 2 ^ k + low
bit_or_high zero high low fits = ground (arith, bit_or-zero high)
bit_or_high (suc k) high low fits = ground (
  arith,
  bit_or_step (high * 2 ^ suc k) low,
  double_shift high k,
  pow-suc 2 k,
  bit_or_high k high (low / 2) (omega (arith, pow-suc 2 k)),
)

pub bit_and_ones : (k high low : ℕ) → low < 2 ^ k → bit_and (high * 2 ^ k + low) (2 ^ k - 1) ≡ low
bit_and_ones zero high low fits = ground (arith, bit_and_none high high)
bit_and_ones (suc k) high low fits = ground (
  arith,
  bit_and_step (high * 2 ^ suc k + low) (2 ^ suc k - 1),
  double_shift high k,
  pow-suc 2 k,
  one-le-pow k 2,
  bit_and_ones k high (low / 2) (omega (arith, pow-suc 2 k)),
)

-- A mask of `k` ones is the remainder by `2 ^ k`.
pub bit_and_mask : (k a : ℕ) → bit_and a (2 ^ k - 1) ≡ a % 2 ^ k
bit_and_mask k a = ground (arith, one-le-pow k 2, bit_and_ones k (a / 2 ^ k) (a % 2 ^ k))

-- `&` and `|` work on the upper and the lower bits apart.
pub bit_and_join :
    (k p q r s : ℕ)
    → r < 2 ^ k
    → s < 2 ^ k
    → bit_and (p * 2 ^ k + r) (q * 2 ^ k + s) ≡ bit_and p q * 2 ^ k + bit_and r s
bit_and_join zero p q r s hr hs = ground (arith, bit_and_none r r)
bit_and_join (suc k) p q r s hr hs = ground (
  arith,
  bit_and_step (p * 2 ^ suc k + r) (q * 2 ^ suc k + s),
  bit_and_step r s,
  double_shift p k,
  double_shift q k,
  double_shift (bit_and p q) k,
  pow-suc 2 k,
  bit_and_join k p q (r / 2) (s / 2) (omega (arith, pow-suc 2 k)) (omega (arith, pow-suc 2 k)),
)

pub bit_or_join :
    (k p q r s : ℕ)
    → r < 2 ^ k
    → s < 2 ^ k
    → bit_or (p * 2 ^ k + r) (q * 2 ^ k + s) ≡ bit_or p q * 2 ^ k + bit_or r s
bit_or_join zero p q r s hr hs = ground (arith, bit_or-zero r)
bit_or_join (suc k) p q r s hr hs = ground (
  arith,
  bit_or_step (p * 2 ^ suc k + r) (q * 2 ^ suc k + s),
  bit_or_step r s,
  double_shift p k,
  double_shift q k,
  double_shift (bit_or p q) k,
  pow-suc 2 k,
  bit_or_join k p q (r / 2) (s / 2) (omega (arith, pow-suc 2 k)) (omega (arith, pow-suc 2 k)),
)

pub bit_and-zero : (a : ℕ) → bit_and a 0 ≡ 0
bit_and-zero a = bit_and_none a a (omega arith)
