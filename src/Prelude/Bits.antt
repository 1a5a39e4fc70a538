-- ===== src/Prelude/Bits.antt =====
-- Laws of `&`, `|` and `^` at variables: the native operations work digit by digit.
use Prim.Native.Nat.{
  ℕ, zero, suc, ◌+◌, ◌-◌, ◌*◌, ◌/◌, ◌%◌, ◌^◌, ◌≤◌, ◌<◌, min, max, differ, bit_and, bit_or, bit_xor,
  digits, bit_and-bitwise, bit_or-bitwise, bit_xor-bitwise,
}
use mathlib.Core.Path.{◌≡◌, refl, ap, sym, ◌∙◌}
use native.Mathlib.Omega.{arith}
use native.Mathlib.Nat.{
  pow-suc, one-le-pow, mod-lt, mod-eq_of_lt, div-add-mod', mul-add-mod_self_right, mul_comm,
  div-div-eq-div-mul,
}

-- More fuel than digits changes nothing.
module _ (z : ℕ → ℕ) (f : ℕ → ℕ → ℕ) where
  digits-fuel_irrelevant :
      (fuel m x y : ℕ) → x ≤ fuel → x ≤ m → digits z f fuel x y ≡ digits z f m x y
  digits-fuel_irrelevant zero zero x y p q = refl
  digits-fuel_irrelevant zero (suc m) (suc x) y p q = absurd (omega arith)
  digits-fuel_irrelevant zero (suc m) zero y p q = refl
  digits-fuel_irrelevant (suc fuel) zero (suc x) y p q = absurd (omega arith)
  digits-fuel_irrelevant (suc fuel) zero zero y p q = refl
  digits-fuel_irrelevant (suc fuel) (suc m) zero y p q = refl
  digits-fuel_irrelevant (suc fuel) (suc m) (suc x) y p q =
      rw (digits-fuel_irrelevant fuel m (suc x / 2) (y / 2) (omega arith) (omega arith))

-- One equation for the lowest digit of each operation.
pub bit_or_step : (x y : ℕ) → bit_or x y ≡ max (x % 2) (y % 2) + 2 * bit_or (x / 2) (y / 2)
bit_or_step zero y = omega (arith, bit_or-bitwise 0 y, bit_or-bitwise 0 (y / 2))
bit_or_step (suc x) y = omega (
  arith,
  bit_or-bitwise (suc x) y,
  bit_or-bitwise (suc x / 2) (y / 2),
  digits-fuel_irrelevant (λ y. y) max x (suc x / 2) (suc x / 2) (y / 2) (omega arith) (omega arith),
)

pub bit_and_step : (x y : ℕ) → bit_and x y ≡ min (x % 2) (y % 2) + 2 * bit_and (x / 2) (y / 2)
bit_and_step zero y = omega (arith, bit_and-bitwise 0 y, bit_and-bitwise 0 (y / 2))
bit_and_step (suc x) y = omega (
  arith,
  bit_and-bitwise (suc x) y,
  bit_and-bitwise (suc x / 2) (y / 2),
  digits-fuel_irrelevant (λ y. 0) min x (suc x / 2) (suc x / 2) (y / 2) (omega arith) (omega arith),
)

-- Exclusive or of two digits.
abbrev pub xor_digit : ℕ → ℕ → ℕ
xor_digit x y = max x y - min x y

differ-eq : (x y : ℕ) → differ x y ≡ xor_digit x y
differ-eq zero y = omega arith
differ-eq (suc x) zero = omega arith
differ-eq (suc x) (suc y) = omega (arith, differ-eq x y)

pub bit_xor_step : (x y : ℕ) → bit_xor x y ≡ xor_digit (x % 2) (y % 2) + 2 * bit_xor (x / 2) (y / 2)
bit_xor_step zero y = omega (arith, bit_xor-bitwise 0 y, bit_xor-bitwise 0 (y / 2))
bit_xor_step (suc x) y = omega (
  arith,
  bit_xor-bitwise (suc x) y,
  bit_xor-bitwise (suc x / 2) (y / 2),
  digits-fuel_irrelevant (λ y. y) differ x (suc x / 2) (suc x / 2) (y / 2) (omega arith)
      (omega arith),
  differ-eq (suc x % 2) (y % 2),
)

-- The lowest digit split off a remainder.
mod_suc_digit : (k x : ℕ) → x % 2 ^ suc k ≡ x / 2 % 2 ^ k * 2 + x % 2
mod_suc_digit k x =
    let r = x / 2 % 2 ^ k in
    let q = x / 2 / 2 ^ k in
    let below : r < 2 ^ k = mod-lt (x / 2) (one-le-pow k 2 (omega arith)) in
    let twice : q * 2 ^ suc k ≡ 2 * (q * 2 ^ k) =
      omega (arith, ap (λ (t : ℕ). q * t) (pow-suc 2 k)) in
    let split : x ≡ q * 2 ^ suc k + (r * 2 + x % 2) = omega (arith, div-add-mod' (x / 2) (2 ^ k)) in
    let small : r * 2 + x % 2 < 2 ^ suc k = omega (arith, pow-suc 2 k) in
    omega (
      arith,
      ap (λ (t : ℕ). t % 2 ^ suc k) split,
      mul-add-mod_self_right q (2 ^ suc k) (r * 2 + x % 2),
      mod-eq_of_lt small,
    )

-- `&` never exceeds its mask's digits: below 2 ^ k it is a remainder.
pub bit_and-zero : (fuel x : ℕ) → x ≤ fuel → bit_and x 0 ≡ 0
bit_and-zero fuel zero h = refl
bit_and-zero zero (suc x) h = absurd (omega arith)
bit_and-zero (suc fuel) (suc x) h =
    omega (arith, bit_and_step (suc x) 0, bit_and-zero fuel (suc x / 2) (omega arith))

pub bit_or-zero : (fuel x : ℕ) → x ≤ fuel → bit_or x 0 ≡ x
bit_or-zero fuel zero h = refl
bit_or-zero zero (suc x) h = absurd (omega arith)
bit_or-zero (suc fuel) (suc x) h =
    omega (arith, bit_or_step (suc x) 0, bit_or-zero fuel (suc x / 2) (omega arith))

-- `a & m` is `a % 2 ^ k` for a mask `m` of `k` ones.
pub bit_and_mask : (k x m : ℕ) → m + 1 ≡ 2 ^ k → bit_and x m ≡ x % 2 ^ k
bit_and_mask zero x m e =
    let none_set : m ≡ 0 = omega arith in
    rw (none_set, bit_and-zero x x (omega arith)) (omega arith)
bit_and_mask (suc k) x m e = omega (
  arith,
  bit_and_step x m,
  pow-suc 2 k,
  one-le-pow k 2,
  bit_and_mask k (x / 2) (m / 2) (omega (arith, pow-suc 2 k, one-le-pow k 2)),
  mod_suc_digit k x,
)

-- `q << k | r` is a sum where `r` has `k` bits, as in `code_point << 6 | (c & 0x3F)`.
pub bit_or_fields : (k q r : ℕ) → r < 2 ^ k → bit_or (q * 2 ^ k) r ≡ q * 2 ^ k + r
bit_or_fields zero q r h =
    let none_set : r ≡ 0 = omega arith in
    rw none_set (omega (arith, bit_or-zero (q * 2 ^ 0) (q * 2 ^ 0) (omega arith)))
bit_or_fields (suc k) q r h =
    let twice : q * 2 ^ suc k ≡ 2 * (q * 2 ^ k) =
      omega (arith, ap (λ (t : ℕ). q * t) (pow-suc 2 k)) in
    let halves : q * 2 ^ suc k / 2 ≡ q * 2 ^ k = omega arith in
    omega (
      arith,
      bit_or_step (q * 2 ^ suc k) r,
      ap (λ (t : ℕ). bit_or t (r / 2)) halves,
      bit_or_fields k q (r / 2) (omega (arith, pow-suc 2 k)),
    )

-- `^` cancels itself.
bit_xor-cancel_fuel : (fuel x y : ℕ) → x ≤ fuel → y ≤ fuel → bit_xor (bit_xor x y) y ≡ x
bit_xor-cancel_fuel zero x y p q =
    let ea : x ≡ 0 = omega arith in let eb : y ≡ 0 = omega arith in rw (ea, eb)
bit_xor-cancel_fuel (suc fuel) x y p q =
    let halves : bit_xor x y / 2 ≡ bit_xor (x / 2) (y / 2) = omega (arith, bit_xor_step x y) in
    omega (
      arith,
      bit_xor_step x y,
      bit_xor_step (bit_xor x y) y,
      ap (λ (t : ℕ). bit_xor t (y / 2)) halves,
      bit_xor-cancel_fuel fuel (x / 2) (y / 2) (omega arith) (omega arith),
    )

pub bit_xor-cancel : (x y : ℕ) → bit_xor (bit_xor x y) y ≡ x
bit_xor-cancel x y = bit_xor-cancel_fuel (x + y) x y (omega arith) (omega arith)

-- `^` stays within a width.
pub bit_xor-lt_pow : (k x y : ℕ) → x < 2 ^ k → y < 2 ^ k → bit_xor x y < 2 ^ k
bit_xor-lt_pow zero x y p q =
    let ea : x ≡ 0 = omega arith in let eb : y ≡ 0 = omega arith in rw (ea, eb) (omega arith)
bit_xor-lt_pow (suc k) x y p q = omega (
  arith,
  bit_xor_step x y,
  pow-suc 2 k,
  bit_xor-lt_pow k (x / 2) (y / 2) (omega (arith, pow-suc 2 k)) (omega (arith, pow-suc 2 k)),
)

-- The two parts of an exclusive or.
pub bit_xor_half : (x y : ℕ) → bit_xor x y / 2 ≡ bit_xor (x / 2) (y / 2)
bit_xor_half x y = omega (arith, bit_xor_step x y)

pub bit_xor_parity : (x y : ℕ) → bit_xor x y % 2 ≡ (x % 2 + y % 2) % 2
bit_xor_parity x y = omega (arith, bit_xor_step x y)

-- `^` is commutative and associative, and 0 changes nothing.
bit_xor_comm_fuel : (fuel x y : ℕ) → x ≤ fuel → y ≤ fuel → bit_xor x y ≡ bit_xor y x
bit_xor_comm_fuel zero x y p q =
    let ea : x ≡ 0 = omega arith in let eb : y ≡ 0 = omega arith in rw (ea, eb)
bit_xor_comm_fuel (suc fuel) x y p q = omega (
  arith,
  bit_xor_step x y,
  bit_xor_step y x,
  bit_xor_comm_fuel fuel (x / 2) (y / 2) (omega arith) (omega arith),
)

pub bit_xor_comm : (x y : ℕ) → bit_xor x y ≡ bit_xor y x
bit_xor_comm x y = bit_xor_comm_fuel (x + y) x y (omega arith) (omega arith)

bit_xor_assoc_fuel :
    (fuel x y w : ℕ)
    → x ≤ fuel
    → y ≤ fuel
    → w ≤ fuel
    → bit_xor (bit_xor x y) w ≡ bit_xor x (bit_xor y w)
bit_xor_assoc_fuel zero x y w p q r =
    let ea : x ≡ 0 = omega arith in
    let eb : y ≡ 0 = omega arith in let ec : w ≡ 0 = omega arith in rw (ea, eb, ec)
bit_xor_assoc_fuel (suc fuel) x y w p q r =
    let halves : bit_xor (bit_xor x y) w / 2 ≡ bit_xor x (bit_xor y w) / 2 =
      bit_xor_half (bit_xor x y) w
      ∙ ap (λ (t : ℕ). bit_xor t (w / 2)) (bit_xor_half x y)
      ∙ bit_xor_assoc_fuel fuel (x / 2) (y / 2) (w / 2) (omega arith) (omega arith) (omega arith)
      ∙ ap (bit_xor (x / 2)) (sym (bit_xor_half y w))
      ∙ sym (bit_xor_half x (bit_xor y w)) in
    omega (
      arith,
      halves,
      bit_xor_parity x y,
      bit_xor_parity y w,
      bit_xor_parity (bit_xor x y) w,
      bit_xor_parity x (bit_xor y w),
    )

pub bit_xor_assoc : (x y w : ℕ) → bit_xor (bit_xor x y) w ≡ bit_xor x (bit_xor y w)
bit_xor_assoc x y w = bit_xor_assoc_fuel (x + y + w) x y w (omega arith) (omega arith) (omega arith)

bit_xor-zero_fuel : (fuel x : ℕ) → x ≤ fuel → bit_xor x 0 ≡ x
bit_xor-zero_fuel fuel zero h = refl
bit_xor-zero_fuel zero (suc x) h = absurd (omega arith)
bit_xor-zero_fuel (suc fuel) (suc x) h =
    omega (arith, bit_xor_step (suc x) 0, bit_xor-zero_fuel fuel (suc x / 2) (omega arith))

pub bit_xor-zero : (x : ℕ) → bit_xor x 0 ≡ x
bit_xor-zero x = bit_xor-zero_fuel x x (omega arith)

-- Disjoint fields add up.
pub bit_xor_fields : (k q r : ℕ) → r < 2 ^ k → bit_xor (q * 2 ^ k) r ≡ q * 2 ^ k + r
bit_xor_fields zero q r h =
    let none_set : r ≡ 0 = omega arith in rw none_set (omega (arith, bit_xor-zero (q * 2 ^ 0)))
bit_xor_fields (suc k) q r h =
    let twice : q * 2 ^ suc k ≡ 2 * (q * 2 ^ k) =
      omega (arith, ap (λ (t : ℕ). q * t) (pow-suc 2 k)) in
    let halves : q * 2 ^ suc k / 2 ≡ q * 2 ^ k = omega arith in
    omega (
      arith,
      bit_xor_step (q * 2 ^ suc k) r,
      ap (λ (t : ℕ). bit_xor t (r / 2)) halves,
      bit_xor_fields k q (r / 2) (omega (arith, pow-suc 2 k)),
    )

-- What has `k` bits does not touch the bits above.
div_pow-suc : (k x : ℕ) → x / 2 ^ suc k ≡ x / 2 / 2 ^ k
div_pow-suc k x = rw (pow-suc 2 k, mul_comm (2 ^ k) 2) (sym (div-div-eq-div-mul x 2 (2 ^ k)))

pub bit_xor-high : (k x y : ℕ) → y < 2 ^ k → bit_xor x y / 2 ^ k ≡ x / 2 ^ k
bit_xor-high zero x y h = let none_set : y ≡ 0 = omega arith in rw (none_set, bit_xor-zero x) refl
bit_xor-high (suc k) x y h =
    rw (div_pow-suc k (bit_xor x y), div_pow-suc k x, bit_xor_half x y)
      (bit_xor-high k (x / 2) (y / 2) (omega (arith, pow-suc 2 k)))
