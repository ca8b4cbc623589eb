-- ===== src/SortBuffer/Header.antt =====
-- The two views of the header union in src/sortbuffer.h agree, and what the rotations of the header
-- word do to the slot numbers.

use combotree_new.Prelude.{
  ◌⊎◌, zero, suc, ℕ, ◌+◌, ◌-◌, ◌*◌, ◌^◌, ◌≤◌, ◌<◌, ◌≡◌, arith, ap, ◌∙◌, ltb, if◌then◌else◌,
  Bool-cases, inl, inr, ltb→lt, ltb→le,
}
use combotree_new.Word.{word_mod, bextr, circular_lshift, circular_rshift}
use combotree_new.Word.Fields.{
  bextr_high, lshift-lt, lshift-low, lshift-wrapped, lshift_none-low, lshift-up, rshift-lt,
  rshift-low, rshift-down, rshift-wrapped,
}
use combotree_new.SortBuffer.{SortBuffer, header, set_header, index}

-- The fields are within their widths.
pub record HasWidths (b : SortBuffer) : Type 0 where
  pub prefix_lt : b.prefix_bytes < 16
  pub suffix_lt : b.suffix_bytes < 16
  pub entries_lt : b.entries < 16
  pub max_lt : b.max_entries < 16
  pub index_lt : b.sorted_index < 2 ^ 48

pub header-lt : (b : SortBuffer) → HasWidths b → header b < word_mod
unfolding header
header-lt b h = omega arith

pub header-set_header : (b : SortBuffer) (w : ℕ) → w < word_mod → header (set_header b w) ≡ w
unfolding header set_header
header-set_header b w h = omega arith

pub set_header-HasWidths : (b : SortBuffer) (w : ℕ) → HasWidths (set_header b w)
unfolding set_header
set_header-HasWidths b w = omega arith

-- A slot number is read from the upper 48 bits alone.
pub index-eq : (b : SortBuffer) (i : ℕ) → HasWidths b → index b i ≡ bextr b.sorted_index (i * 4) 4
unfolding index header
index-eq b i h =
    let meta : ℕ = b.prefix_bytes + b.suffix_bytes * 16 + b.entries * 256 + b.max_entries * 4096 in
    bextr_high 16 meta b.sorted_index (i * 4) 4 (omega arith)

pub index-set_header :
    (b : SortBuffer) (w i : ℕ) → w < word_mod → index (set_header b w) i ≡ bextr w (16 + i * 4) 4
unfolding index
index-set_header b w i h = ap (λ (q : ℕ). bextr q (16 + i * 4) 4) (header-set_header b w h)

-- The fields below the slot numbers.
meta-header :
    (b : SortBuffer)
    → HasWidths b
    → (bextr (header b) 0 4 ≡ b.prefix_bytes)
      × (bextr (header b) 4 4 ≡ b.suffix_bytes)
      × (bextr (header b) 8 4 ≡ b.entries)
      × (bextr (header b) 12 4 ≡ b.max_entries)
unfolding header
meta-header b h = omega arith

-- A word that agrees with a header below bit 16 keeps the other fields.
pub set_header-meta :
    (b : SortBuffer) (w : ℕ)
    → HasWidths b
    → ((start : ℕ) → start + 4 ≤ 16 → bextr w start 4 ≡ bextr (header b) start 4)
    → ((set_header b w).prefix_bytes ≡ b.prefix_bytes)
      × ((set_header b w).suffix_bytes ≡ b.suffix_bytes)
      × ((set_header b w).entries ≡ b.entries)
      × ((set_header b w).max_entries ≡ b.max_entries)
unfolding set_header
set_header-meta b w h same = omega (
  arith,
  meta-header b h,
  same 0 (omega arith),
  same 4 (omega arith),
  same 8 (omega arith),
  same 12 (omega arith),
)

-- A field that moved, with its two positions written in another way.
moved :
    (w v a a' c c' : ℕ) → a ≡ a' → c ≡ c' → bextr w a' 4 ≡ bextr v c 4 → bextr w a 4 ≡ bextr v c' 4
moved w v a a' c c' e f h = ap (λ (q : ℕ). bextr w q 4) e ∙ h ∙ ap (λ (q : ℕ). bextr v q 4) f

-- Where number `i` stood before a rotation to the left, or right, by `k` numbers from `p` on.
abbrev pub up_source : ℕ → ℕ → ℕ → ℕ
up_source p k i = if ltb i p then i else if ltb i (p + k) then 12 - k + (i - p) else i - k

abbrev pub down_source : ℕ → ℕ → ℕ → ℕ
down_source p k i = if ltb i p then i else if ltb i (12 - k) then i + k else i - (12 - k) + p

-- Slot number `i` after a rotation to the left by `k` numbers from position `p` on.
pub index-lshift :
    (b : SortBuffer) (p k i : ℕ)
    → HasWidths b
    → p + k ≤ 12
    → 0 < k
    → i < 12
    → index (set_header b (circular_lshift (header b) (16 + 4 * p) (4 * k))) i
      ≡ index b (up_source p k i)
unfolding index
index-lshift b p k i h fits some_turn hi =
    let w : ℕ = header b in
    let small : w < word_mod = header-lt b h in
    let s : ℕ = 16 + 4 * p in
    let room : s + 4 * k ≤ 64 = omega arith in
    index-set_header b (circular_lshift w s (4 * k)) i
      (lshift-lt w s (4 * k) small room (omega arith) (omega arith))
    ∙ elim (Bool-cases (ltb i p)) [
      | inl below ↦ rw below (
          lshift-low w s (4 * k) small room (omega arith) (omega arith) (16 + i * 4) 4
            (omega (arith, ltb→lt i p below)))
      | inr from ↦
          let le = ltb→le i p from in
          elim (Bool-cases (ltb i (p + k))) [
            | inl wrapped ↦
                rw (from, wrapped)
                  (moved (circular_lshift w s (4 * k)) w (16 + i * 4) (s + (i - p) * 4)
                    (64 - 4 * k + (i - p) * 4) (16 + (12 - k + (i - p)) * 4) (omega arith)
                    (omega arith)
                    (lshift-wrapped w s (4 * k) small room (omega arith) (omega arith) ((i - p) * 4)
                      4 (omega (arith, ltb→lt i (p + k) wrapped))))
            | inr up ↦
                let le' = ltb→le i (p + k) up in
                rw (from, up)
                  (moved (circular_lshift w s (4 * k)) w (16 + i * 4) (s + 4 * k + (i - p - k) * 4)
                    (s + (i - p - k) * 4) (16 + (i - k) * 4) (omega arith) (omega arith)
                    (lshift-up w s (4 * k) small room (omega arith) (omega arith) ((i - p - k) * 4)
                      4 (omega arith)))
          ]
    ]

-- The rotation to the right does not shift by 64, or what it shifts leaves the word all the same.
abbrev pub Turns : ℕ → ℕ → Type 0
Turns p k = (p < 12) × ((p + k < 12) ⊎ (4 ≤ p))

-- A cut about the half of at most 12 numbers.
pub cut-Turns : (n k : ℕ) → n ≤ 12 → k < n → n ≤ 2 * k + 3 → Turns k (n - k)
cut-Turns n k few inside half = (
  omega arith,
  (elim (Bool-cases (ltb k 4)) [
    | inl low ↦ inl (omega (arith, ltb→lt k 4 low))
    | inr high ↦ inr (omega (arith, ltb→le k 4 high))
  ]),
)

Turns-word : (p k : ℕ) → (p + k < 12) ⊎ (4 ≤ p) → (16 + 4 * p + 4 * k < 64) ⊎ (32 ≤ 16 + 4 * p)
Turns-word p k turns = elim turns [ inl below ↦ inl (omega arith) | inr high ↦ inr (omega arith) ]

-- The same to the right.
pub index-rshift :
    (b : SortBuffer) (p k i : ℕ)
    → HasWidths b
    → p + k ≤ 12
    → Turns p k
    → i < 12
    → index (set_header b (circular_rshift (header b) (16 + 4 * p) (4 * k))) i
      ≡ index b (down_source p k i)
unfolding index
index-rshift b p k i h fits (inner, turns) hi =
    let w : ℕ = header b in
    let small : w < word_mod = header-lt b h in
    let s : ℕ = 16 + 4 * p in
    let room : s + 4 * k ≤ 64 = omega arith in
    let whole : (s + 4 * k < 64) ⊎ (32 ≤ s) = Turns-word p k turns in
    index-set_header b (circular_rshift w s (4 * k)) i
      (rshift-lt w s (4 * k) small room (omega arith) (omega arith) whole)
    ∙ elim (Bool-cases (ltb i p)) [
      | inl below ↦ rw below (
          rshift-low w s (4 * k) small room (omega arith) (omega arith) whole (16 + i * 4) 4
            (omega (arith, ltb→lt i p below)))
      | inr from ↦
          let le = ltb→le i p from in
          elim (Bool-cases (ltb i (12 - k))) [
            | inl down ↦
                rw (from, down)
                  (moved (circular_rshift w s (4 * k)) w (16 + i * 4) (s + (i - p) * 4)
                    (s + 4 * k + (i - p) * 4) (16 + (i + k) * 4) (omega arith) (omega arith)
                    (rshift-down w s (4 * k) small room (omega arith) (omega arith) whole
                      ((i - p) * 4) 4 (omega (arith, ltb→lt i (12 - k) down))))
            | inr wrapped ↦
                let le' = ltb→le i (12 - k) wrapped in
                rw (from, wrapped)
                  (moved (circular_rshift w s (4 * k)) w (16 + i * 4)
                    (64 - 4 * k + (i - (12 - k)) * 4) (s + (i - (12 - k)) * 4)
                    (16 + (i - (12 - k) + p) * 4) (omega arith) (omega arith)
                    (rshift-wrapped w s (4 * k) small room (omega arith) (omega arith) whole
                      ((i - (12 - k)) * 4) 4 (omega arith)))
          ]
    ]

-- The header after a rotation, with its lower fields as they were.
pub lshift-meta :
    (b : SortBuffer) (p k : ℕ)
    → HasWidths b
    → p + k ≤ 12
    → 0 < k
    → let c = set_header b (circular_lshift (header b) (16 + 4 * p) (4 * k)) in
      (c.prefix_bytes ≡ b.prefix_bytes)
      × (c.suffix_bytes ≡ b.suffix_bytes)
      × (c.entries ≡ b.entries)
      × (c.max_entries ≡ b.max_entries)
lshift-meta b p k h fits some_turn =
    set_header-meta b (circular_lshift (header b) (16 + 4 * p) (4 * k)) h λ start e.
      lshift-low (header b) (16 + 4 * p) (4 * k) (header-lt b h) (omega arith) (omega arith)
        (omega arith) start 4 (omega arith)

-- From the first position on, also by no number at all.
pub lshift-meta_first :
    (b : SortBuffer) (k : ℕ)
    → HasWidths b
    → k ≤ 12
    → let c = set_header b (circular_lshift (header b) 16 (4 * k)) in
      (c.prefix_bytes ≡ b.prefix_bytes)
      × (c.suffix_bytes ≡ b.suffix_bytes)
      × (c.entries ≡ b.entries)
      × (c.max_entries ≡ b.max_entries)
lshift-meta_first b zero h fits =
    set_header-meta b (circular_lshift (header b) 16 0) h
      λ start e. lshift_none-low (header b) start 4 (header-lt b h) (omega arith)
lshift-meta_first b (suc k) h fits = lshift-meta b 0 (suc k) h (omega arith) (omega arith)

pub rshift-meta :
    (b : SortBuffer) (p k : ℕ)
    → HasWidths b
    → p + k ≤ 12
    → Turns p k
    → let c = set_header b (circular_rshift (header b) (16 + 4 * p) (4 * k)) in
      (c.prefix_bytes ≡ b.prefix_bytes)
      × (c.suffix_bytes ≡ b.suffix_bytes)
      × (c.entries ≡ b.entries)
      × (c.max_entries ≡ b.max_entries)
rshift-meta b p k h fits (inner, turns) =
    set_header-meta b (circular_rshift (header b) (16 + 4 * p) (4 * k)) h λ start e.
      rshift-low (header b) (16 + 4 * p) (4 * k) (header-lt b h) (omega arith) (omega arith)
        (omega arith) (Turns-word p k turns) start 4 (omega arith)
