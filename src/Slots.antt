-- ===== src/Slots.antt =====
-- The byte layout that the templates KVBuffer (src/kvbuffer.h) and SortBuffer (src/sortbuffer.h)
-- share: key suffixes from the start of `buf`, values from its end.
--   | key 0 | key 1 | ... | key n-1 | .. | value n-1 | ... | value 1 | value 0 |
pub mod Writes
use Prim.Native.Nat.{bit_and, bit_or}
use mathlib.Core.Path.{ap₂}
use native.Mathlib.Nat.{mod-eq_of_lt, pow-suc, div-lt_iff_lt-mul}
use combotree_new.Prelude.{
  ℕ, zero, suc, ◌+◌, ◌-◌, ◌*◌, ◌/◌, ◌%◌, ◌^◌, ◌≤◌, ◌<◌, ◌≡◌, refl, arith, sym, ap, ◌∙◌, List, [],
  ◌∷◌, get_or,
}
use combotree_new.Bits.{bit_and_low, bit_and_high, bit_or_apart_left}
use combotree_new.Bytes.{Bytes, load, load_mask, load-lt}
use combotree_new.Word.{word_mod, shr, pow-add, pow_pos}

-- Both instantiations of each template, <112,8> and <112,6>, have this size.
abbrev pub buf_size : ℕ
buf_size = 112

unfoldable pub max_entries_of : ℕ → ℕ → ℕ
max_entries_of value_size suffix_bytes = buf_size / (value_size + suffix_bytes)

unfoldable pub key_offset : ℕ → ℕ → ℕ
key_offset suffix_bytes idx = idx * suffix_bytes

unfoldable pub value_offset : ℕ → ℕ → ℕ
value_offset value_size idx = buf_size - (idx + 1) * value_size

abbrev pub prefix_mask : List ℕ
prefix_mask =
    0x0000000000000000 ∷ 0xFF00000000000000 ∷ 0xFFFF000000000000 ∷ 0xFFFFFF0000000000
    ∷ 0xFFFFFFFF00000000 ∷ 0xFFFFFFFFFF000000 ∷ 0xFFFFFFFFFFFF0000 ∷ 0xFFFFFFFFFFFFFF00
    ∷ 0xFFFFFFFFFFFFFFFF ∷ []

abbrev pub suffix_mask : List ℕ
suffix_mask =
    0x0000000000000000 ∷ 0x00000000000000FF ∷ 0x000000000000FFFF ∷ 0x0000000000FFFFFF
    ∷ 0x00000000FFFFFFFF ∷ 0x000000FFFFFFFFFF ∷ 0x0000FFFFFFFFFFFF ∷ 0x00FFFFFFFFFFFFFF
    ∷ 0xFFFFFFFFFFFFFFFF ∷ []

-- The key in slot `idx`: the prefix comes from the entry that owns the buffer.
unfoldable pub read_key : Bytes → ℕ → ℕ → ℕ → ℕ → ℕ
unfolding key_offset
read_key buf prefix_bytes suffix_bytes idx key_prefix =
    bit_or (bit_and key_prefix (get_or prefix_mask prefix_bytes 0))
      (bit_and (load buf (key_offset suffix_bytes idx) 8) (get_or suffix_mask suffix_bytes 0))

unfoldable pub read_value : Bytes → ℕ → ℕ → ℕ
unfolding value_offset
read_value buf value_size idx =
    bit_and (load buf (value_offset value_size idx) 8) (shr (word_mod - 1) ((8 - value_size) * 8))

-- The part of a key that a buffer with suffixes of `s` bytes does not store.
abbrev pub prefix_of : ℕ → ℕ → ℕ
prefix_of s key = key / 256 ^ s

pow256 : (n : ℕ) → 256 ^ n ≡ 2 ^ (8 * n)
pow256 zero = refl
pow256 (suc n) =
    pow-suc 256 n
    ∙ ap (λ (q : ℕ). q * 256) (pow256 n)
    ∙ sym (pow-add 2 (8 * n) 8)
    ∙ ap (λ (q : ℕ). 2 ^ q) {x = 8 * n + 8} {y = 8 * suc n} (omega arith)

-- A table of nine rows is checked row by row.
pub nine_rows {ℓ} :
    (P : ℕ → Type ℓ) → P 0 → P 1 → P 2 → P 3 → P 4 → P 5 → P 6 → P 7 → P 8 → (n : ℕ) → n ≤ 8 → P n
nine_rows P a b c d e f g h i zero le = a
nine_rows P a b c d e f g h i (suc zero) le = b
nine_rows P a b c d e f g h i (suc (suc zero)) le = c
nine_rows P a b c d e f g h i (suc (suc (suc zero))) le = d
nine_rows P a b c d e f g h i (suc (suc (suc (suc zero)))) le = e
nine_rows P a b c d e f g h i (suc (suc (suc (suc (suc zero))))) le = f
nine_rows P a b c d e f g h i (suc (suc (suc (suc (suc (suc zero)))))) le = g
nine_rows P a b c d e f g h i (suc (suc (suc (suc (suc (suc (suc zero))))))) le = h
nine_rows P a b c d e f g h i (suc (suc (suc (suc (suc (suc (suc (suc zero)))))))) le = i
nine_rows P a b c d e f g h i (suc (suc (suc (suc (suc (suc (suc (suc (suc n))))))))) le =
    absurd (omega arith)

mask_bytes : (f : Bytes) (a n : ℕ) → n ≤ 8 → bit_and (load f a 8) (256 ^ n - 1) ≡ load f a n
mask_bytes f a n h =
    rw (pow256 n) (bit_and_low (8 * n) (load f a 8))
    ∙ ap (λ (q : ℕ). load f a 8 % q) (sym (pow256 n))
    ∙ ap (λ (q : ℕ). load f a q % 256 ^ n) {x = 8} {y = n + (8 - n)} (omega arith)
    ∙ load_mask f a n (8 - n)

suffix_mask-pow : (n : ℕ) → n ≤ 8 → get_or suffix_mask n 0 ≡ 256 ^ n - 1
suffix_mask-pow =
    nine_rows (λ n. get_or suffix_mask n 0 ≡ 256 ^ n - 1) refl refl refl refl refl refl refl refl
      refl

prefix_mask-pow :
    (s : ℕ) → s ≤ 8 → get_or prefix_mask (8 - s) 0 ≡ (2 ^ (8 * (8 - s)) - 1) * 2 ^ (8 * s)
prefix_mask-pow =
    nine_rows (λ s. get_or prefix_mask (8 - s) 0 ≡ (2 ^ (8 * (8 - s)) - 1) * 2 ^ (8 * s)) refl refl
      refl refl refl refl refl refl refl

value_mask-pow : (n : ℕ) → n ≤ 8 → shr (word_mod - 1) ((8 - n) * 8) ≡ 256 ^ n - 1
value_mask-pow =
    nine_rows (λ n. shr (word_mod - 1) ((8 - n) * 8) ≡ 256 ^ n - 1) refl refl refl refl refl refl
      refl refl refl

prefix_part :
    (s key : ℕ)
    → s ≤ 8
    → key < word_mod
    → bit_and key (get_or prefix_mask (8 - s) 0) ≡ prefix_of s key * 2 ^ (8 * s)
prefix_part s key h small =
    ap (bit_and key) (prefix_mask-pow s h)
    ∙ bit_and_high (8 * (8 - s)) (8 * s) key
    ∙ ap (λ (q : ℕ). q * 2 ^ (8 * s))
        (mod-eq_of_lt bound ∙ ap (λ (q : ℕ). key / q) (sym (pow256 s)))
  where
    total : word_mod ≡ 2 ^ (8 * (8 - s)) * 2 ^ (8 * s)
    total =
        ap (λ (q : ℕ). 2 ^ q) {x = 64} {y = 8 * (8 - s) + 8 * s} (omega arith)
        ∙ pow-add 2 (8 * (8 - s)) (8 * s)

    bound : key / 2 ^ (8 * s) < 2 ^ (8 * (8 - s))
    bound = (div-lt_iff_lt-mul (pow_pos (8 * s))).1 (omega (arith, total))

-- Where prefix_bytes and suffix_bytes add up to 8 and the owner's key has 64 bits, the key that is
-- read is the prefix of the owner's key over the stored suffix.
pub read_key-eq :
    (buf : Bytes) (p s idx key_prefix : ℕ)
    → p + s ≡ 8
    → key_prefix < word_mod
    → read_key buf p s idx key_prefix
      ≡ prefix_of s key_prefix * 256 ^ s + load buf (key_offset s idx) s
unfolding read_key
read_key-eq buf p s idx key_prefix w h =
    let fits : s ≤ 8 = omega arith in
    let left : p ≡ 8 - s = omega arith in
    ap₂ bit_or
      (ap (λ (q : ℕ). bit_and key_prefix (get_or prefix_mask q 0)) left
        ∙ prefix_part s key_prefix fits h)
      (ap (bit_and (load buf (idx * s) 8)) (suffix_mask-pow s fits)
        ∙ mask_bytes buf (idx * s) s fits)
    ∙ bit_or_apart_left (8 * s) (load buf (idx * s) s) (prefix_of s key_prefix)
        (rw (← pow256 s) (load-lt buf (idx * s) s))
    ∙ rw (← pow256 s)

pub read_value-eq :
    (buf : Bytes) (n idx : ℕ) → n ≤ 8 → read_value buf n idx ≡ load buf (value_offset n idx) n
unfolding read_value
read_value-eq buf n idx h =
    ap (bit_and (load buf (value_offset n idx) 8)) (value_mask-pow n h)
    ∙ mask_bytes buf (value_offset n idx) n h
