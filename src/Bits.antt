-- ===== src/Bits.antt =====
-- The bit operations of the sources, `&`, `|` and `^`, on words whose set bits lie apart or that are
-- masked: what such a call is in arithmetic.
use Prim.Native.Nat.{
  min, max, digits, differ, bit_and, bit_or, bit_xor, bit_and-bitwise, bit_or-bitwise,
  bit_xor-bitwise,
}
use mathlib.Core.Path.{ap₂}
use native.Mathlib.Nat.{
  mod-one, zero-add, add-zero, mul_assoc, mul-one, pow-succ', div-one, pow-suc, div-div-eq-div-mul,
  one-le-pow,
}
use combotree_new.Prelude.{
  ℕ, zero, suc, ◌+◌, ◌-◌, ◌*◌, ◌/◌, ◌%◌, ◌^◌, ◌≤◌, ◌<◌, ◌≡◌, refl, arith, sym, ap, ◌∙◌,
}
use combotree_new.Bytes.{mod-pow_suc}

-- A bitwise operation, one binary digit at a time; `z` is the result once the first number is 0.
module _ (z : ℕ → ℕ) (f : ℕ → ℕ → ℕ) where
  digits_enough :
      (x y fuel fuel' : ℕ) → x ≤ fuel' → x ≤ fuel → digits z f fuel x y ≡ digits z f fuel' x y
  digits_enough zero y (suc fuel) (suc fuel') h h' = refl
  digits_enough zero y (suc fuel) zero h h' = refl
  digits_enough zero y zero (suc fuel') h h' = refl
  digits_enough zero y zero zero h h' = refl
  digits_enough (suc x) y zero fuel' h h' = absurd (omega arith)
  digits_enough (suc x) y (suc fuel) zero h h' = absurd (omega arith)
  digits_enough (suc x) y (suc fuel) (suc fuel') h h' =
      ap (λ (rest : ℕ). rest * 2 + f (suc x % 2) (y % 2))
        (digits_enough (suc x / 2) (y / 2) fuel fuel' (omega arith) (omega arith))

  digits_step :
      (x y : ℕ)
      → z y ≡ z (y / 2) * 2 + f 0 (y % 2)
      → digits z f x x y ≡ digits z f (x / 2) (x / 2) (y / 2) * 2 + f (x % 2) (y % 2)
  digits_step zero y h = h
  digits_step (suc x) y h =
      ap (λ (rest : ℕ). rest * 2 + f (suc x % 2) (y % 2))
        (digits_enough (suc x / 2) (y / 2) x (suc x / 2) (omega arith) (omega arith))

bit_and_step : (x y : ℕ) → bit_and x y ≡ bit_and (x / 2) (y / 2) * 2 + min (x % 2) (y % 2)
bit_and_step x y =
    bit_and-bitwise x y
    ∙ digits_step (λ c. zero) min x y (omega arith)
    ∙ ap (λ (rest : ℕ). rest * 2 + min (x % 2) (y % 2)) (sym (bit_and-bitwise (x / 2) (y / 2)))

bit_or_step : (x y : ℕ) → bit_or x y ≡ bit_or (x / 2) (y / 2) * 2 + max (x % 2) (y % 2)
bit_or_step x y =
    bit_or-bitwise x y
    ∙ digits_step (λ c. c) max x y (omega arith)
    ∙ ap (λ (rest : ℕ). rest * 2 + max (x % 2) (y % 2)) (sym (bit_or-bitwise (x / 2) (y / 2)))

bit_xor_step : (x y : ℕ) → bit_xor x y ≡ bit_xor (x / 2) (y / 2) * 2 + differ (x % 2) (y % 2)
bit_xor_step x y =
    bit_xor-bitwise x y
    ∙ digits_step (λ c. c) differ x y (omega arith)
    ∙ ap (λ (rest : ℕ). rest * 2 + differ (x % 2) (y % 2)) (sym (bit_xor-bitwise (x / 2) (y / 2)))

-- The same with the second number given by its lowest digit.
module _ (a b c e : ℕ) (split : b ≡ c * 2 + e) (digit : e < 2) where
  half : b / 2 ≡ c
  half = omega arith

  lowest : b % 2 ≡ e
  lowest = omega arith

  bit_and_at : bit_and a b ≡ bit_and (a / 2) c * 2 + min (a % 2) e
  bit_and_at =
      bit_and_step a b ∙ ap₂ (λ (p q : ℕ). bit_and (a / 2) p * 2 + min (a % 2) q) half lowest

  bit_or_at : bit_or a b ≡ bit_or (a / 2) c * 2 + max (a % 2) e
  bit_or_at = bit_or_step a b ∙ ap₂ (λ (p q : ℕ). bit_or (a / 2) p * 2 + max (a % 2) q) half lowest

  bit_xor_at : bit_xor a b ≡ bit_xor (a / 2) c * 2 + differ (a % 2) e
  bit_xor_at =
      bit_xor_step a b ∙ ap₂ (λ (p q : ℕ). bit_xor (a / 2) p * 2 + differ (a % 2) q) half lowest

differ_self : (x : ℕ) → differ x x ≡ 0
differ_self zero = refl
differ_self (suc x) = differ_self x

differ-zero : (x : ℕ) → differ x 0 ≡ x
differ-zero zero = refl
differ-zero (suc x) = refl

double : (y k : ℕ) → y * 2 ^ suc k ≡ y * 2 ^ k * 2
double y k = ap (λ (p : ℕ). y * p) (pow-suc 2 k) ∙ sym (mul_assoc y (2 ^ k) 2)

-- Bits that lie apart: `x | (y << k)` is a sum.
pub bit_or_apart : (k x y : ℕ) → x < 2 ^ k → bit_or x (y * 2 ^ k) ≡ x + y * 2 ^ k
bit_or_apart zero zero y h = bit_or-bitwise 0 (y * 2 ^ 0) ∙ sym (zero-add _)
bit_or_apart zero (suc x) y h = absurd (omega arith)
bit_or_apart (suc k) x y h =
    bit_or_at x (y * 2 ^ suc k) (y * 2 ^ k) 0 (omega (arith, double y k)) (omega arith)
    ∙ omega (arith, double y k, bit_or_apart k (x / 2) y (omega (arith, pow-suc 2 k)))

bit_and-zero : (n a : ℕ) → a ≤ n → bit_and a 0 ≡ 0
bit_and-zero n zero h = refl
bit_and-zero zero (suc a) h = absurd (omega arith)
bit_and-zero (suc n) (suc a) h =
    omega (arith, bit_and_step (suc a) 0, bit_and-zero n (suc a / 2) (omega arith))

bit_or-zero : (n a : ℕ) → a ≤ n → bit_or a 0 ≡ a
bit_or-zero n zero h = refl
bit_or-zero zero (suc a) h = absurd (omega arith)
bit_or-zero (suc n) (suc a) h =
    omega (arith, bit_or_step (suc a) 0, bit_or-zero n (suc a / 2) (omega arith))

-- The same with the higher bits on the left, `(y << k) | x`.
pub bit_or_apart_left : (k x y : ℕ) → x < 2 ^ k → bit_or (y * 2 ^ k) x ≡ y * 2 ^ k + x
bit_or_apart_left zero zero y h =
    bit_or-zero (y * 2 ^ 0) (y * 2 ^ 0) (omega arith) ∙ sym (add-zero _)
bit_or_apart_left zero (suc x) y h = absurd (omega arith)
bit_or_apart_left (suc k) x y h =
    bit_or_at (y * 2 ^ suc k) x (x / 2) (x % 2) (omega arith) (omega arith)
    ∙ ap₂ (λ (p q : ℕ). bit_or p (x / 2) * 2 + q) half_double digit
    ∙ ap (λ (p : ℕ). p * 2 + x % 2) (bit_or_apart_left k (x / 2) y (omega (arith, pow-suc 2 k)))
    ∙ omega (arith, double y k)
  where
    half_double : y * 2 ^ suc k / 2 ≡ y * 2 ^ k
    half_double = omega (arith, double y k)

    digit : max (y * 2 ^ suc k % 2) (x % 2) ≡ x % 2
    digit = omega (arith, double y k)

bit_xor-zero : (n a : ℕ) → a ≤ n → bit_xor a 0 ≡ a
bit_xor-zero n zero h = refl
bit_xor-zero zero (suc a) h = absurd (omega arith)
bit_xor-zero (suc n) (suc a) h = omega (
  arith,
  bit_xor_step (suc a) 0,
  differ-zero (suc a % 2),
  bit_xor-zero n (suc a / 2) (omega arith),
)

div-half : (x k : ℕ) → x / 2 ^ suc k ≡ x / 2 / 2 ^ k
div-half x k = rw (pow-succ' 2 k) (sym (div-div-eq-div-mul x 2 (2 ^ k)))

-- `x & (2^k - 1)` keeps the lowest `k` bits.
pub bit_and_low : (k x : ℕ) → bit_and x (2 ^ k - 1) ≡ x % 2 ^ k
bit_and_low zero x = bit_and-zero x x (omega arith) ∙ sym (mod-one x)
bit_and_low (suc k) x = omega (
  arith,
  mod-pow_suc 2 x k (omega arith),
  bit_and_at x (2 ^ suc k - 1) (2 ^ k - 1) 1
      (omega (arith, pow-suc 2 k, one-le-pow k 2 (omega arith))) (omega arith),
  bit_and_low k (x / 2),
)

-- A mask of `j` bits above the lowest `k`.
pub bit_and_high : (j k x : ℕ) → bit_and x ((2 ^ j - 1) * 2 ^ k) ≡ x / 2 ^ k % 2 ^ j * 2 ^ k
bit_and_high j zero x =
    ap (bit_and x) (mul-one (2 ^ j - 1))
    ∙ bit_and_low j x
    ∙ sym (mul-one (x / 2 ^ 0 % 2 ^ j) ∙ ap (λ (y : ℕ). y % 2 ^ j) (div-one x))
bit_and_high j (suc k) x =
    let m : ℕ = (2 ^ j - 1) * 2 ^ k in
    bit_and_at x ((2 ^ j - 1) * 2 ^ suc k) m 0
      (rw (pow-suc 2 k) (omega (arith, mul_assoc (2 ^ j - 1) (2 ^ k) 2))) (omega arith)
    ∙ ap (λ (y : ℕ). y * 2 + min (x % 2) 0) (bit_and_high j k (x / 2))
    ∙ rw (div-half x k, pow-suc 2 k) (omega (arith, mul_assoc (x / 2 / 2 ^ k % 2 ^ j) (2 ^ k) 2))

-- `x ^ low` clears the lowest bits, where `low` is those bits.
pub bit_xor_low : (k x : ℕ) → bit_xor x (x % 2 ^ k) ≡ x / 2 ^ k * 2 ^ k
bit_xor_low zero x =
    ap (bit_xor x) (mod-one x) ∙ bit_xor-zero x x (omega arith) ∙ omega (arith, div-one x)
bit_xor_low (suc k) x =
    let m : ℕ = x / 2 % 2 ^ k in
    bit_xor_at x (x % 2 ^ suc k) m (x % 2) (omega (arith, mod-pow_suc 2 x k (omega arith)))
      (omega arith)
    ∙ ap₂ (λ (p q : ℕ). p * 2 + q) (bit_xor_low k (x / 2)) (differ_self (x % 2))
    ∙ rw (div-half x k, pow-suc 2 k) (omega (arith, mul_assoc (x / 2 / 2 ^ k) (2 ^ k) 2))

-- `|` of two numbers that are 0 below bit `k`.
pub bit_or_shifted : (k x y : ℕ) → bit_or (x * 2 ^ k) (y * 2 ^ k) ≡ bit_or x y * 2 ^ k
bit_or_shifted zero x y = ap₂ bit_or (mul-one x) (mul-one y) ∙ sym (mul-one (bit_or x y))
bit_or_shifted (suc k) x y =
    let halved : x * 2 ^ suc k / 2 ≡ x * 2 ^ k = omega (arith, double x k) in
    let even : max (x * 2 ^ suc k % 2) 0 ≡ 0 = omega (arith, double x k) in
    bit_or_at (x * 2 ^ suc k) (y * 2 ^ suc k) (y * 2 ^ k) 0 (omega (arith, double y k))
      (omega arith)
    ∙ ap₂ (λ (p q : ℕ). bit_or p (y * 2 ^ k) * 2 + q) halved even
    ∙ omega (arith, bit_or_shifted k x y, double (bit_or x y) k)
