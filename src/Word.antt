-- ===== src/Word.antt =====
-- 64-bit words: shifts that wrap, the intrinsics `_bzhi_u64` and `_bextr_u64`, and the two
-- rotations at the head of src/sortbuffer.h.
pub mod Fields
use Prim.Native.Nat.{bit_or, bit_xor}
use native.Mathlib.Nat.{
  mod-eq_of_lt, div-eq_of_lt, mul_assoc, pow-suc, one-le-pow, mul-one, add-zero, add-suc, pow-zero,
  pow-le-pow_right, zero-add, add-mul-mod_self_right, add-mul-div_right, div-div-eq-div-mul,
  mul-div_cancel, add_comm, div-one,
}
use combotree_new.Prelude.{
  ℕ, zero, suc, ◌+◌, ◌-◌, ◌*◌, ◌/◌, ◌%◌, ◌^◌, ◌≤◌, ◌<◌, ◌≡◌, ◌⊎◌, arith, sym, ap, ◌∙◌, ◌==◌,
  Bool-cases, inl, inr, ==→eq, ==→ne,
}
use combotree_new.Bits.{bit_or_apart, bit_or_apart_left, bit_xor_low}

abbrev pub word_mod : ℕ
word_mod = 2 ^ 64

-- x << k and x >> k on uint64_t, for k below 64
abbrev pub shl : ℕ → ℕ → ℕ
shl x k = x * 2 ^ k % word_mod

abbrev pub shr : ℕ → ℕ → ℕ
shr x k = x / 2 ^ k

-- _bzhi_u64(x, n): the lowest n bits; _bextr_u64(x, start, len): len bits from bit start on.
abbrev pub bzhi : ℕ → ℕ → ℕ
bzhi x n = x % 2 ^ n

abbrev pub bextr : ℕ → ℕ → ℕ → ℕ
bextr x start len = x / 2 ^ start % 2 ^ len

-- A shift by 64 is undefined; on x86 the count is taken modulo 64, as it is here.
unfoldable pub circular_lshift : ℕ → ℕ → ℕ → ℕ
circular_lshift src start_pos count =
    let dst = bzhi src start_pos in
    let need_rotate = bit_xor src dst in
    let rotated =
      bit_or (shl need_rotate (count % 64))
        (shl (shr need_rotate ((64 - count) % 64)) (start_pos % 64)) in
    bit_or dst rotated

unfoldable pub circular_rshift : ℕ → ℕ → ℕ → ℕ
circular_rshift src start_pos count =
    let dst = bzhi src start_pos in
    let need_rotate = bit_xor src dst in
    let rotated =
      bit_or (shl need_rotate ((64 - start_pos - count) % 64))
        (shl (shr need_rotate ((count + start_pos) % 64)) (start_pos % 64)) in
    bit_or dst rotated

pub pow-add : (b m n : ℕ) → b ^ (m + n) ≡ b ^ m * b ^ n
pow-add b m zero = rw (add-zero, pow-zero) (sym (mul-one _))
pow-add b m (suc n) =
    rw (add-suc, pow-suc b (m + n), pow-suc b n)
      (ap (λ (y : ℕ). y * b) (pow-add b m n) ∙ mul_assoc (b ^ m) (b ^ n) b)

pub pow_pos : (n : ℕ) → 0 < 2 ^ n
pow_pos n = one-le-pow n 2 (omega arith)

-- A field of `m` bits, shifted by `k`.
pub field_bound : (m k v : ℕ) → v < 2 ^ m → v * 2 ^ k < 2 ^ (m + k)
field_bound m k v h = grind (arith, pow-add 2 m k, pow_pos k)

pub shl_small : (m k v : ℕ) → m + k ≤ 64 → v < 2 ^ m → shl v k ≡ v * 2 ^ k
shl_small m k v fits h =
    mod-eq_of_lt (omega (arith, field_bound m k v h, pow-le-pow_right {n = 2} (omega arith) fits))

-- A word in three fields of `s`, `a` and `b` bits, from the lowest.
abbrev pub join : ℕ → ℕ → ℕ → ℕ → ℕ → ℕ
join s a x y z = x + (y + z * 2 ^ a) * 2 ^ s

module _ (s a b x y z : ℕ) (bits : s + a + b ≡ 64) (hx : x < 2 ^ s) (hy : y < 2 ^ a)
    (hz : z < 2 ^ b) where
  low : bzhi (join s a x y z) s ≡ x
  low = add-mul-mod_self_right x (y + z * 2 ^ a) (2 ^ s) ∙ mod-eq_of_lt hx

  rest : bit_xor (join s a x y z) (bzhi (join s a x y z) s) ≡ (y + z * 2 ^ a) * 2 ^ s
  rest =
      bit_xor_low s (join s a x y z)
      ∙ ap (λ (q : ℕ). q * 2 ^ s)
          (add-mul-div_right x (y + z * 2 ^ a) (pow_pos s)
            ∙ ap (λ (q : ℕ). q + (y + z * 2 ^ a)) (div-eq_of_lt hx)
            ∙ zero-add _)

  whole : 2 ^ a * (2 ^ s * 2 ^ b) ≡ word_mod
  whole =
      ap (λ (q : ℕ). 2 ^ a * q) (sym (pow-add 2 s b))
      ∙ sym (pow-add 2 a (s + b))
      ∙ ap (λ (q : ℕ). 2 ^ q) {x = a + (s + b)} {y = 64} (omega arith)

  -- What leaves the word at the top is the top field.
  upper : shl ((y + z * 2 ^ a) * 2 ^ s) b ≡ y * 2 ^ (s + b)
  upper =
      ap (λ (q : ℕ). q % word_mod) {x = (y + z * 2 ^ a) * 2 ^ s * 2 ^ b}
        {y = y * (2 ^ s * 2 ^ b) + z * word_mod} (omega (arith, ap (λ (t : ℕ). z * t) whole))
      ∙ add-mul-mod_self_right (y * (2 ^ s * 2 ^ b)) z word_mod
      ∙ ap (λ (q : ℕ). y * q % word_mod) (sym (pow-add 2 s b))
      ∙ shl_small a (s + b) y (omega arith) hy

  lower : (k : ℕ) → k ≡ s + a → shl (shr ((y + z * 2 ^ a) * 2 ^ s) k) s ≡ z * 2 ^ s
  lower k e = ap (λ (q : ℕ). shl q s) top ∙ shl_small b s z (omega arith) hz
    where
      top : shr ((y + z * 2 ^ a) * 2 ^ s) k ≡ z
      top =
          ap (λ (q : ℕ). (y + z * 2 ^ a) * 2 ^ s / q) (ap (λ (q : ℕ). 2 ^ q) e ∙ pow-add 2 s a)
          ∙ sym (div-div-eq-div-mul ((y + z * 2 ^ a) * 2 ^ s) (2 ^ s) (2 ^ a))
          ∙ ap (λ (q : ℕ). q / 2 ^ a) (mul-div_cancel (y + z * 2 ^ a) (pow_pos s))
          ∙ add-mul-div_right y z (pow_pos a)
          ∙ ap (λ (q : ℕ). q + z) (div-eq_of_lt hy)
          ∙ zero-add z

  glue : bit_or x (bit_or (y * 2 ^ (s + b)) (z * 2 ^ s)) ≡ join s b x z y
  glue =
      ap (bit_or x) (
        bit_or_apart_left (s + b) (z * 2 ^ s) y (rw (add_comm s b) (field_bound b s z hz))
        ∙ omega (arith, ap (λ (t : ℕ). y * t) (pow-add 2 s b)))
      ∙ bit_or_apart s x (z + y * 2 ^ b) hx

  -- The rotation to the left brings the top field down behind the lowest.
  pub circular_lshift-join : 0 < b → b < 64 → circular_lshift (join s a x y z) s b ≡ join s b x z y
  unfolding circular_lshift
  circular_lshift-join pos under =
      let count : b % 64 ≡ b = omega arith in
      let back : (64 - b) % 64 ≡ 64 - b = omega arith in
      let start : s % 64 ≡ s = omega arith in
      rw (rest, low, count, back, start, upper, lower (64 - b) (omega arith)) glue

  -- Where nothing stands above the middle field, both shifts of the right rotation leave nothing.
  overflow : b ≡ 0 → 32 ≤ s → shl (shr ((y + z * 2 ^ a) * 2 ^ s) 0) s ≡ z * 2 ^ s
  overflow none_above high =
      let none_z : z ≡ 0 = omega (arith, hz, ap (λ (q : ℕ). 2 ^ q) none_above) in
      let w : ℕ = y + z * 2 ^ a in
      let far : 2 ^ s * 2 ^ s ≡ 2 ^ (s + s - 64) * word_mod =
        sym (pow-add 2 s s)
        ∙ ap (λ (q : ℕ). 2 ^ q) {x = s + s} {y = s + s - 64 + 64} (omega arith)
        ∙ pow-add 2 (s + s - 64) 64 in
      ap (λ (q : ℕ). shl q s) (div-one (w * 2 ^ s))
      ∙ ap (λ (q : ℕ). q % word_mod) {x = w * 2 ^ s * 2 ^ s}
          {y = 0 + w * 2 ^ (s + s - 64) * word_mod}
          (mul_assoc w (2 ^ s) (2 ^ s)
            ∙ ap (λ (t : ℕ). w * t) far
            ∙ sym (mul_assoc w (2 ^ (s + s - 64)) word_mod)
            ∙ sym (zero-add _))
      ∙ add-mul-mod_self_right 0 (w * 2 ^ (s + s - 64)) word_mod
      ∙ zero_word
      ∙ sym (ap (λ (t : ℕ). t * 2 ^ s) none_z)
    where
      zero_word : 0 % word_mod ≡ 0 * 2 ^ s
      zero_word = omega arith

  -- The rotation to the right brings the middle field to the top.
  pub circular_rshift-join :
      s < 64 → b < 64 → (0 < b) ⊎ (32 ≤ s) → circular_rshift (join s a x y z) s a ≡ join s b x z y
  unfolding circular_rshift
  circular_rshift-join start_lt under turns =
      let e : (64 - s - a) % 64 ≡ b = omega arith in
      let start : s % 64 ≡ s = omega arith in
      rw (rest, low, e, start, upper)
        (elim (Bool-cases (b == 0)) [
          | inl top ↦
              let z' = ==→eq b 0 top in
              let full : (a + s) % 64 ≡ 0 = omega arith in
              rw (full, overflow z' (ground (arith, turns))) glue
          | inr below ↦
              let pos = ==→ne b 0 below in
              let count : (a + s) % 64 ≡ a + s = ground arith in
              rw (count, lower (a + s) (omega arith)) glue
        ])
