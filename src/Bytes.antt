-- ===== src/Bytes.antt =====
-- Byte-addressed memory: what the sources do by `memcpy`, `memmove` and casts to `uint64_t *` on a
-- little-endian machine (README.md requires one). A buffer is a function from a byte's offset; the
-- offsets outside of the array stand for the memory next to it, which an 8-byte load may touch.
use combotree_new.Prelude.{
  ℕ, zero, suc, ◌+◌, ◌-◌, ◌*◌, ◌/◌, ◌%◌, ◌^◌, ◌≤◌, ◌<◌, ◌≡◌, ◌⊎◌, refl, arith, leb, ltb,
  if◌then◌else◌, ◌&&◌, sym, ap, ◌∙◌,
}
use mathlib.Core.Path.{ap₂}
use native.Mathlib.Numerals.{add-one}
use native.Mathlib.Nat.{
  pow-suc, div-div-eq-div-mul, pow-succ', mod-one, add-mul-mod_self_left, mod-eq_of_lt, mod-lt,
  div-add-mod, one-le-pow, div-one,
}

abbrev pub Bytes : Type 0
Bytes = ℕ → ℕ

-- memcpy(dest + d, src + s, n), and memmove, which copies as if through a second buffer.
unfoldable pub copy : Bytes → ℕ → Bytes → ℕ → ℕ → Bytes
copy dest d src s n i = if leb d i && ltb i (d + n) then src (s + (i - d)) else dest i

-- The bytes of a variable that holds `v`, from the lowest.
unfoldable pub bytes_of : ℕ → Bytes
bytes_of v i = v / 256 ^ i % 256

-- The number in the `n` bytes from `a` on; *(uint64_t*)(f + a) is `load f a 8`.
unfoldable pub load : Bytes → ℕ → ℕ → ℕ
load f a zero = 0
load f a (suc n) = f a % 256 + 256 * load f (a + 1) n

-- memcpy(f + a, &v, n)
unfoldable pub store : Bytes → ℕ → ℕ → ℕ → Bytes
unfolding copy bytes_of
store f a v n = copy f a (bytes_of v) 0 n

pub copy_outside :
    (f : Bytes) (d : ℕ) (g : Bytes) (s n i : ℕ) → (i < d) ⊎ (d + n ≤ i) → copy f d g s n i ≡ f i
unfolding copy
copy_outside f d g s n i h = ground arith

pub copy_inside :
    (f : Bytes) (d : ℕ) (g : Bytes) (s n i : ℕ) → i < n → copy f d g s n (d + i) ≡ g (s + i)
unfolding copy
copy_inside f d g s n i h = ground arith

-- A load reads nothing but its own bytes.
pub load_ext :
    (f g : Bytes) (a b n : ℕ) → ((i : ℕ) → i < n → f (a + i) ≡ g (b + i)) → load f a n ≡ load g b n
unfolding load
load_ext f g a b zero h = refl
load_ext f g a b (suc n) h = ground (
  arith,
  h 0 (omega arith),
  load_ext f g (a + 1) (b + 1) n (λ i p. ground (arith, h (i + 1) (omega arith))),
)

pub load-copy : (f : Bytes) (d : ℕ) (g : Bytes) (s n : ℕ) → load (copy f d g s n) d n ≡ load g s n
load-copy f d g s n = load_ext (copy f d g s n) g d s n (λ i p. copy_inside f d g s n i p)

-- A copy elsewhere leaves a load alone.
pub load-copy_apart :
    (f : Bytes) (d : ℕ) (g : Bytes) (s n a m : ℕ)
    → (a + m ≤ d) ⊎ (d + n ≤ a)
    → load (copy f d g s n) a m ≡ load f a m
load-copy_apart f d g s n a m h =
    load_ext (copy f d g s n) f a a m (λ i p. copy_outside f d g s n (a + i) (omega arith))

-- The lowest digit of a remainder.
mod-mul : (b x p : ℕ) → 0 < b → 0 < p → x % (b * p) ≡ x % b + b * (x / b % p)
mod-mul b x p hb hp =
    let r : ℕ = x % b in
    let u : ℕ = x / b % p in
    let t : ℕ = x / b / p in
    let small : r + b * u < b * p = grind (arith, mod-lt x hb, mod-lt (x / b) hp) in
    let split : x ≡ r + b * u + b * p * t =
      grind (arith, div-add-mod x b, ap (λ (y : ℕ). b * y) (div-add-mod (x / b) p)) in
    ap (λ (y : ℕ). y % (b * p)) split
    ∙ add-mul-mod_self_left (r + b * u) (b * p) t
    ∙ mod-eq_of_lt small

-- The lowest digit of the remainder by a power.
pub mod-pow_suc : (b x n : ℕ) → 0 < b → x % b ^ suc n ≡ x % b + b * (x / b % b ^ n)
mod-pow_suc b x n hb =
    ap (λ (y : ℕ). x % y) (pow-succ' b n) ∙ mod-mul b x (b ^ n) hb (one-le-pow n b hb)

pub div-pow_suc : (b x n : ℕ) → x / b ^ (n + 1) ≡ x / b ^ n / b
div-pow_suc b x n =
    ap (λ (y : ℕ). x / b ^ y) (add-one n) ∙ rw (pow-suc b n) (sym (div-div-eq-div-mul x (b ^ n) b))

load-bytes_of : (v k n : ℕ) → load (bytes_of v) k n ≡ v / 256 ^ k % 256 ^ n
unfolding load bytes_of
load-bytes_of v k zero = sym (mod-one _)
load-bytes_of v k (suc n) =
    let x : ℕ = v / 256 ^ k in
    let tail : load (bytes_of v) (k + 1) n ≡ x / 256 % 256 ^ n =
      load-bytes_of v (k + 1) n ∙ ap (λ (y : ℕ). y % 256 ^ n) (div-pow_suc 256 v k) in
    let digit : x % 256 % 256 ≡ x % 256 = omega arith in
    ap₂ (λ (p q : ℕ). p + 256 * q) digit tail ∙ sym (mod-pow_suc 256 x n (omega arith))

-- The lowest `n` bytes of a variable.
pub load_variable : (v n : ℕ) → load (bytes_of v) 0 n ≡ v % 256 ^ n
load_variable v n = load-bytes_of v 0 n ∙ rw div-one refl

-- What was stored is what is loaded, cut to the bytes stored.
pub load-store : (f : Bytes) (a v n : ℕ) → load (store f a v n) a n ≡ v % 256 ^ n
unfolding store
load-store f a v n = load-copy f a (bytes_of v) 0 n ∙ load_variable v n

add_suc : (n m : ℕ) → suc n + m ≡ suc (n + m)
add_suc n m = omega arith

-- Masking an 8-byte load to its lowest bytes is a shorter load.
pub load_mask : (f : Bytes) (a n m : ℕ) → load f a (n + m) % 256 ^ n ≡ load f a n
unfolding load
load_mask f a zero m = mod-one _
load_mask f a (suc n) m =
    let rest : ℕ = load f (a + 1) (n + m) in
    let whole : load f a (suc n + m) ≡ f a % 256 + 256 * rest = ap (load f a) (add_suc n m) in
    let low : (f a % 256 + 256 * rest) % 256 ≡ f a % 256 = omega arith in
    let high : (f a % 256 + 256 * rest) / 256 ≡ rest = omega arith in
    ap (λ (y : ℕ). y % 256 ^ suc n) whole
    ∙ mod-pow_suc 256 (f a % 256 + 256 * rest) n (omega arith)
    ∙ ap₂ (λ (p q : ℕ). p + 256 * q) low
        (ap (λ (y : ℕ). y % 256 ^ n) high ∙ load_mask f (a + 1) n m)

pub load-lt : (f : Bytes) (a n : ℕ) → load f a n < 256 ^ n
unfolding load
load-lt f a zero = omega arith
load-lt f a (suc n) = omega (arith, load-lt f (a + 1) n, pow-suc 256 n)
