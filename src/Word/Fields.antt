-- ===== src/Word/Fields.antt =====
-- Which bits of a word go where under the two rotations of src/sortbuffer.h.
use native.Mathlib.Nat.{
  add-mul-div_right, add-mul-mod_self_right, div-eq_of_lt, zero-add, div-div-eq-div-mul, mul_assoc,
  mod-lt, div-lt_iff_lt-mul, div-add-mod', add_assoc,
}
use combotree_new.Prelude.{
  ℕ, ◌+◌, ◌-◌, ◌*◌, ◌/◌, ◌%◌, ◌^◌, ◌≤◌, ◌<◌, ◌≡◌, ◌⊎◌, inl, inr, arith, subst, sym, ap, ◌∙◌,
}
use Prim.Native.Nat.{bit_or}
use mathlib.Core.Path.{ap₂}
use combotree_new.Bits.{bit_or_shifted, bit_or_apart, bit_xor_low}
use combotree_new.Word.{
  shl, shr, word_mod, bextr, circular_lshift, circular_rshift, join, pow-add, pow_pos,
  circular_lshift-join, circular_rshift-join,
}

pow_split : (w a b c s : ℕ) → a + b + c ≡ s → w * 2 ^ s ≡ w * 2 ^ a * 2 ^ b * 2 ^ c
pow_split w a b c s e =
    ap (λ (q : ℕ). w * 2 ^ q) (sym e)
    ∙ rw (pow-add 2 (a + b) c, pow-add 2 a b)
        (sym (mul_assoc w (2 ^ a * 2 ^ b) (2 ^ c)) ∙ rw (← mul_assoc w (2 ^ a) (2 ^ b)))

-- A field below bit `s` is not touched by what stands above.
bextr_low :
    (s x w start len : ℕ) → start + len ≤ s → bextr (x + w * 2 ^ s) start len ≡ bextr x start len
bextr_low s x w start len h =
    let d : ℕ = s - start - len in
    let e = pow_split w d len start s (omega arith) in
    ap (λ (q : ℕ). (x + q) / 2 ^ start % 2 ^ len) e
    ∙ ap (λ (q : ℕ). q % 2 ^ len) (add-mul-div_right x (w * 2 ^ d * 2 ^ len) (pow_pos start))
    ∙ add-mul-mod_self_right (x / 2 ^ start) (w * 2 ^ d) (2 ^ len)

pub bextr_high : (s x w t len : ℕ) → x < 2 ^ s → bextr (x + w * 2 ^ s) (s + t) len ≡ bextr w t len
bextr_high s x w t len h =
    ap (λ (q : ℕ). q % 2 ^ len)
      (ap (λ (q : ℕ). (x + w * 2 ^ s) / q) (pow-add 2 s t)
        ∙ sym (div-div-eq-div-mul (x + w * 2 ^ s) (2 ^ s) (2 ^ t))
        ∙ ap (λ (q : ℕ). q / 2 ^ t)
            (add-mul-div_right x w (pow_pos s)
              ∙ ap (λ (q : ℕ). q + w) (div-eq_of_lt h)
              ∙ zero-add w))

block_lt : (x w b q : ℕ) → x < b → w < q → x + w * b < q * b
block_lt x w b q p r = grind arith

module _ (h s c : ℕ) (small : h < word_mod) (fits : s + c ≤ 64) where
  -- h as three fields, the top one of c bits.
  m : ℕ
  m = 64 - s - c

  x : ℕ
  x = h % 2 ^ s

  y : ℕ
  y = h / 2 ^ s % 2 ^ m

  z : ℕ
  z = h / 2 ^ s / 2 ^ m

  x-lt : x < 2 ^ s
  unfolding x
  x-lt = mod-lt h (pow_pos s)

  y-lt : y < 2 ^ m
  unfolding y
  y-lt = mod-lt (h / 2 ^ s) (pow_pos m)

  z-lt : z < 2 ^ c
  unfolding z
  z-lt = (div-lt_iff_lt-mul (pow_pos m)).1 (
      (div-lt_iff_lt-mul (pow_pos s)).1
        (omega (arith, pow_split 1 c m s 64 (unfold m in omega arith))))

  split : h ≡ join s m x y z
  unfolding x y z
  split =
      omega (
        arith,
        div-add-mod' h (2 ^ s),
        ap (λ (q : ℕ). q * 2 ^ s) (div-add-mod' (h / 2 ^ s) (2 ^ m)),
      )

  rotated : ℕ
  rotated = join s c x z y

  bits : s + m + c ≡ 64
  unfolding m
  bits = omega arith

  lshift-rotated : 0 < c → c < 64 → circular_lshift h s c ≡ rotated
  unfolding rotated
  lshift-rotated pos under =
      ap (λ (q : ℕ). circular_lshift q s c) split
      ∙ circular_lshift-join s m c x y z bits x-lt y-lt z-lt pos under

  rshift-rotated : s < 64 → c < 64 → (0 < c) ⊎ (32 ≤ s) → circular_rshift h s m ≡ rotated
  unfolding rotated
  rshift-rotated start_lt under turns =
      ap (λ (q : ℕ). circular_rshift q s m) split
      ∙ circular_rshift-join s m c x y z bits x-lt y-lt z-lt start_lt under turns

  rotated-low : (start len : ℕ) → start + len ≤ s → bextr rotated start len ≡ bextr h start len
  unfolding rotated
  rotated-low start len p =
      bextr_low s x (z + y * 2 ^ c) start len p
      ∙ sym (bextr_low s x (y + z * 2 ^ m) start len p)
      ∙ ap (λ (q : ℕ). bextr q start len) (sym split)

  rotated-mid : (t len : ℕ) → t + len ≤ c → bextr rotated (s + t) len ≡ bextr h (s + (m + t)) len
  unfolding rotated
  rotated-mid t len p =
      bextr_high s x (z + y * 2 ^ c) t len x-lt
      ∙ bextr_low c z y t len p
      ∙ sym (bextr_high m y z t len y-lt)
      ∙ sym (bextr_high s x (y + z * 2 ^ m) (m + t) len x-lt)
      ∙ ap (λ (q : ℕ). bextr q (s + (m + t)) len) (sym split)

  rotated-high : (t len : ℕ) → t + len ≤ m → bextr rotated (s + (c + t)) len ≡ bextr h (s + t) len
  unfolding rotated
  rotated-high t len p =
      bextr_high s x (z + y * 2 ^ c) (c + t) len x-lt
      ∙ bextr_high c z y t len z-lt
      ∙ sym (bextr_low m y z t len p)
      ∙ sym (bextr_high s x (y + z * 2 ^ m) t len x-lt)
      ∙ ap (λ (q : ℕ). bextr q (s + t) len) (sym split)

  total : word_mod ≡ 2 ^ m * 2 ^ c * 2 ^ s
  total = omega (arith, pow_split 1 m c s 64 (omega (arith, bits)))

  rotated-lt : rotated < word_mod
  unfolding rotated
  rotated-lt =
      subst (λ (q : ℕ). rotated < q) (sym total)
        (block_lt x (z + y * 2 ^ c) (2 ^ s) (2 ^ m * 2 ^ c) x-lt
          (block_lt z y (2 ^ c) (2 ^ m) z-lt y-lt))

-- On a 64-bit word, for a count above 0 and start_pos + count below 64, circular_rshift undoes
-- circular_lshift.
pub rshift-lshift :
    (h s c : ℕ)
    → h < word_mod
    → 0 < c
    → s + c < 64
    → circular_rshift (circular_lshift h s c) s c ≡ h
unfolding rotated
rshift-lshift h s c small pos inner =
    let fits : s + c ≤ 64 = omega arith in
    ap (λ (q : ℕ). circular_rshift q s c) (lshift-rotated h s c small fits pos (omega arith))
    ∙ circular_rshift-join s c (m h s c small fits) (x h s c small fits) (z h s c small fits)
        (y h s c small fits) (omega (arith, bits h s c small fits)) (x-lt h s c small fits)
        (z-lt h s c small fits) (y-lt h s c small fits) (omega arith) (unfold m in omega arith)
        (inl (unfold m in omega arith))
    ∙ sym (split h s c small fits)

-- A rotation to the left by 0 above bit 16 leaves the lowest 16 bits alone; x86 shifts by 0 then where
-- the source writes 64.
pub lshift_none-low :
    (h start len : ℕ)
    → h < word_mod
    → start + len ≤ 16
    → bextr (circular_lshift h 16 0) start len ≡ bextr h start len
unfolding circular_lshift
lshift_none-low h start len small inside =
    let w : ℕ = h / 2 ^ 16 in
    let v : ℕ = w % 2 ^ 32 * 2 ^ 16 in
    let dst : ℕ = h % 2 ^ 16 in
    let first : shl (w * 2 ^ 16) 0 ≡ w * 2 ^ 16 = omega arith in
    let second : shl (shr (w * 2 ^ 16) 0) 16 ≡ v * 2 ^ 16 = omega arith in
    let whole : dst + w * 2 ^ 16 ≡ h = omega arith in
    ap (λ (q : ℕ). bextr q start len)
      (ap (λ (n : ℕ). bit_or dst (bit_or (shl n 0) (shl (shr n 0) 16))) (bit_xor_low 16 h)
        ∙ ap₂ (λ (p q : ℕ). bit_or dst (bit_or p q)) first second
        ∙ ap (bit_or dst) (bit_or_shifted 16 w v)
        ∙ bit_or_apart 16 dst (bit_or w v) (mod-lt h (pow_pos 16)))
    ∙ bextr_low 16 dst (bit_or w v) start len inside
    ∙ sym (bextr_low 16 dst w start len inside)
    ∙ ap (λ (q : ℕ). bextr q start len) whole

-- The rotation to the left by `c` above bit `s`: the lowest `s` bits stay, the top `c` bits come
-- behind them, and the rest moves up.
module _ (h s c : ℕ) (small : h < word_mod) (fits : s + c ≤ 64) (pos : 0 < c) (under : c < 64) where
  turned : circular_lshift h s c ≡ rotated h s c small fits
  turned = lshift-rotated h s c small fits pos under

  pub lshift-lt : circular_lshift h s c < word_mod
  lshift-lt = subst (λ (q : ℕ). q < word_mod) (sym turned) (rotated-lt h s c small fits)

  pub lshift-low :
      (start len : ℕ)
      → start + len ≤ s
      → bextr (circular_lshift h s c) start len ≡ bextr h start len
  lshift-low start len p = rw turned (rotated-low h s c small fits start len p)

  pub lshift-wrapped :
      (t len : ℕ)
      → t + len ≤ c
      → bextr (circular_lshift h s c) (s + t) len ≡ bextr h (64 - c + t) len
  unfolding m
  lshift-wrapped t len p = rw turned (
      rotated-mid h s c small fits t len p
      ∙ ap (λ (q : ℕ). bextr h q len) {x = s + (64 - s - c + t)} {y = 64 - c + t} (omega arith))

  pub lshift-up :
      (t len : ℕ)
      → s + c + t + len ≤ 64
      → bextr (circular_lshift h s c) (s + c + t) len ≡ bextr h (s + t) len
  unfolding m
  lshift-up t len p = rw turned (
      ap (λ (q : ℕ). bextr (rotated h s c small fits) q len) (add_assoc s c t)
      ∙ rotated-high h s c small fits t len (omega arith))

-- The rotation to the right by `c` above bit `s`: the `c` bits from `s` on go to the top, and what
-- stood above them moves down.
module _ (h s c : ℕ) (small : h < word_mod) (fits : s + c ≤ 64) (start_lt : s < 64)
    (some : 0 < s + c) (turns : (s + c < 64) ⊎ (32 ≤ s)) where
  k : ℕ
  k = 64 - s - c

  k-fits : s + k ≤ 64
  unfolding k
  k-fits = omega arith

  rshift-eq : circular_rshift h s c ≡ rotated h s k small k-fits
  unfolding m k
  rshift-eq =
      ap (λ (q : ℕ). circular_rshift h s q) {x = c} {y = 64 - s - (64 - s - c)} (omega arith)
      ∙ rshift-rotated h s k small k-fits start_lt (omega arith) above
    where
      above : (0 < 64 - s - c) ⊎ (32 ≤ s)
      above = elim turns [ inl inner ↦ inl (omega arith) | inr high ↦ inr high ]

  pub rshift-lt : circular_rshift h s c < word_mod
  rshift-lt = subst (λ (q : ℕ). q < word_mod) (sym rshift-eq) (rotated-lt h s k small k-fits)

  pub rshift-low :
      (start len : ℕ)
      → start + len ≤ s
      → bextr (circular_rshift h s c) start len ≡ bextr h start len
  rshift-low start len p = rw rshift-eq (rotated-low h s k small k-fits start len p)

  pub rshift-down :
      (t len : ℕ)
      → s + c + t + len ≤ 64
      → bextr (circular_rshift h s c) (s + t) len ≡ bextr h (s + c + t) len
  unfolding m k
  rshift-down t len p = rw rshift-eq (
      rotated-mid h s k small k-fits t len (omega arith)
      ∙ ap (λ (q : ℕ). bextr h q len) {x = s + (64 - s - (64 - s - c) + t)} {y = s + c + t}
          (omega arith))

  pub rshift-wrapped :
      (t len : ℕ)
      → t + len ≤ c
      → bextr (circular_rshift h s c) (64 - c + t) len ≡ bextr h (s + t) len
  unfolding m k
  rshift-wrapped t len p = rw rshift-eq (
      ap (λ (q : ℕ). bextr (rotated h s k small k-fits) q len) {x = 64 - c + t}
        {y = s + (64 - s - c + t)} (omega arith)
      ∙ rotated-high h s k small k-fits t len (omega arith))
