-- ===== src/SortBuffer/Search.antt =====
-- `Find` and `FindLE` of src/sortbuffer.h.

use combotree_new.Prelude.{
  ℕ, zero, suc, ◌+◌, ◌-◌, ◌*◌, ◌^◌, ◌≤◌, ◌<◌, ◌≡◌, arith, ap, ◌∙◌, Bool, true, false, some, ltb,
  ◌==◌, Bool-cases, inl, inr, ==→eq, ==→ne, ltb→lt, ltb→le,
}
use combotree_new.Bisect.{bisect_total, Locates, IsAscending}
use combotree_new.Word.{word_mod}
use combotree_new.Slots.{prefix_of, read_key-eq}
use combotree_new.Slots.Writes.{suffix}
use combotree_new.SortBuffer.{SortBuffer, index, sort_key, key, find, find_le_from, find_le}
use combotree_new.SortBuffer.Valid.{IsValid}

-- The sorted positions hold ascending keys.
abbrev pub IsSorted : SortBuffer → Type 0
IsSorted b = IsAscending (λ i. suffix b.buf b.suffix_bytes (index b i)) b.entries

pub sort_key-eq :
    (v : ℕ) (b : SortBuffer) (i p : ℕ)
    → IsValid v b
    → p < word_mod
    → sort_key b i p
      ≡ prefix_of b.suffix_bytes p * 256 ^ b.suffix_bytes + suffix b.buf b.suffix_bytes (index b i)
unfolding sort_key key
sort_key-eq v b i p h small =
    read_key-eq b.buf b.prefix_bytes b.suffix_bytes (index b i) p h.widths small

pub sort_key-IsAscending :
    (v : ℕ) (b : SortBuffer) (p : ℕ)
    → IsValid v b
    → IsSorted b
    → p < word_mod
    → IsAscending (λ i. sort_key b i p) b.entries
sort_key-IsAscending v b p h s small i j lt hj =
    omega (arith, sort_key-eq v b i p h small, sort_key-eq v b j p h small, s i j lt hj)

-- For a well-formed buffer in ascending order and a 64-bit target, the binary search Find ends,
-- with the position of the key and true, or with the position that separates the smaller keys from
-- the larger and false.
pub find_total :
    (v : ℕ) (b : SortBuffer) (target : ℕ)
    → IsValid v b
    → IsSorted b
    → target < word_mod
    → (r : ℕ × Bool) × (find b target ≡ some r)
      × Locates (λ i. sort_key b i target) target b.entries r
unfolding find
find_total v b target h s small =
    bisect_total (λ i. sort_key b i target) target b.entries
      (sort_key-IsAscending v b target h s small) (b.entries + 1) 0 b.entries (omega arith)
      (omega arith) (omega arith) (λ i p. absurd (omega arith)) λ i p q. absurd (omega arith)

-- What `FindLE` finds: the position of the key plus one, or the number of smaller keys.
abbrev pub Precedes : (ℕ → ℕ) → ℕ → ℕ → ℕ × Bool → Type 0
Precedes key_at target n (r, true) = (0 < r) × (r ≤ n) × (key_at (r - 1) ≡ target)
Precedes key_at target n (r, false) =
    (r ≤ n) × ((i : ℕ) → i < r → key_at i < target) × ((i : ℕ) → r ≤ i → i < n → target < key_at i)

find_le_from-Precedes :
    (b : SortBuffer) (target i left : ℕ)
    → i + left ≡ b.entries
    → IsAscending (λ j. sort_key b j target) b.entries
    → ((j : ℕ) → j < i → sort_key b j target < target)
    → Precedes (λ j. sort_key b j target) target b.entries (find_le_from b target i left)
unfolding find_le_from
find_le_from-Precedes b target i zero e up below =
    (omega arith, below, λ j p q. absurd (omega arith))
find_le_from-Precedes b target i (suc left) e up below =
    elim (Bool-cases (sort_key b i target == target)) [
      | inl hit ↦
          let at : sort_key b (i + 1 - 1) target ≡ target =
            ap (λ (q : ℕ). sort_key b q target) {x = i + 1 - 1} {y = i} (omega arith)
            ∙ ==→eq (sort_key b i target) target hit in
          rw hit (omega arith, omega arith, at)
      | inr miss ↦ elim (Bool-cases (ltb target (sort_key b i target))) [
        | inl high ↦
            let k = ltb→lt target (sort_key b i target) high in
            rw (miss, high) (omega arith, below, λ j p q. grind (arith, up i j))
        | inr low ↦
            let k = ltb→le target (sort_key b i target) low in
            let d = ==→ne (sort_key b i target) target miss in
            rw (miss, low)
              (find_le_from-Precedes b target (i + 1) left (omega arith) up
                λ j p. grind (arith, up j i))
      ]
    ]

-- For a well-formed buffer in ascending order and a 64-bit target, FindLE returns the position of
-- the key, or else that of the last smaller key (-1 if there is none).
pub find_le-Precedes :
    (v : ℕ) (b : SortBuffer) (target : ℕ)
    → IsValid v b
    → IsSorted b
    → target < word_mod
    → Precedes (λ j. sort_key b j target) target b.entries (find_le b target)
unfolding find_le
find_le-Precedes v b target h s small =
    find_le_from-Precedes b target 0 b.entries (omega arith)
      (sort_key-IsAscending v b target h s small) λ j p. absurd (omega arith)
