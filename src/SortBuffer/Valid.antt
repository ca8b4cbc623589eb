-- ===== src/SortBuffer/Valid.antt =====
-- The well-formedness of a buffer of src/sortbuffer.h, and that a rotation of its slot numbers keeps
-- it: the twelve numbers are a permutation, the sorted positions name slots that fit, and so do the
-- free positions that are taken next (the assertion in `Put`).
use combotree_new.Prelude.{ℕ, ◌+◌, ◌*◌, ◌^◌, ◌≤◌, ◌<◌, ◌≡◌, arith, ap, ◌∙◌, sym}
use combotree_new.Word.{bextr}
use combotree_new.Slots.Writes.{Fits}
use combotree_new.SortBuffer.{SortBuffer, index}
use combotree_new.SortBuffer.Header.{HasWidths, index-eq, up_source, down_source}

-- The slot numbers alone: a permutation whose used part, and the next free ones, are below `max`.
pub record IsOrder (f : ℕ → ℕ) (count max : ℕ) : Type 0 where
  pub slot_lt : (i : ℕ) → i < 12 → f i < 12
  pub distinct : (i j : ℕ) → i < 12 → j < 12 → f i ≡ f j → i ≡ j
  pub used : (i : ℕ) → i < count → f i < max
  pub free : (i : ℕ) → count + 12 ≤ i + max → i < 12 → f i < max

pub record IsValid (value_size : ℕ) (b : SortBuffer) : Type 0 where
  pub widths : b.prefix_bytes + b.suffix_bytes ≡ 8
  pub stored : 0 < b.suffix_bytes
  pub capacity : b.max_entries ≤ 12
  pub fits : Fits b.max_entries b.suffix_bytes value_size
  pub value_fits : value_size ≤ 8
  pub count : b.entries ≤ b.max_entries
  pub index_lt : b.sorted_index < 2 ^ 48
  pub order : IsOrder (index b) b.entries b.max_entries

pub IsValid-HasWidths : {value_size : ℕ} {b : SortBuffer} → IsValid value_size b → HasWidths b
IsValid-HasWidths h = omega (arith, h.widths, h.capacity, h.count, h.index_lt)

up_source-lt : (p k i : ℕ) → p + k ≤ 12 → i < 12 → up_source p k i < 12
up_source-lt p k i fits hi = ground arith

up_source-injective :
    (p k i j : ℕ) → p + k ≤ 12 → i < 12 → j < 12 → up_source p k i ≡ up_source p k j → i ≡ j
up_source-injective p k i j fits hi hj e = ground arith

down_source-lt : (p k i : ℕ) → p + k ≤ 12 → i < 12 → down_source p k i < 12
down_source-lt p k i fits hi = ground arith

down_source-injective :
    (p k i j : ℕ) → p + k ≤ 12 → i < 12 → j < 12 → down_source p k i ≡ down_source p k j → i ≡ j
down_source-injective p k i j fits hi hj e = ground arith

-- `k` free slots are taken and put in order at position `p`.
pub up_source-IsOrder :
    (f : ℕ → ℕ) (count max p k : ℕ)
    → IsOrder f count max
    → p ≤ count
    → count + k ≤ max
    → max ≤ 12
    → IsOrder (λ i. f (up_source p k i)) (count + k) max
up_source-IsOrder f count max p k h le room small = record {
  slot_lt = λ i hi. h.slot_lt (up_source p k i) (up_source-lt p k i (omega arith) hi);
  distinct = λ i j hi hj e. up_source-injective p k i j (omega arith) hi hj (
      h.distinct (up_source p k i) (up_source p k j) (up_source-lt p k i (omega arith) hi)
        (up_source-lt p k j (omega arith) hj) e);
  used = λ i hi. ground (arith, h.used (up_source p k i), h.free (up_source p k i));
  free = λ i lt hi. ground (arith, h.used (up_source p k i), h.free (up_source p k i));
}

-- The `k` used slots from position `p` on are given back.
pub down_source-IsOrder :
    (f : ℕ → ℕ) (count max p k : ℕ)
    → IsOrder f (count + k) max
    → p ≤ count
    → count + k ≤ max
    → max ≤ 12
    → IsOrder (λ i. f (down_source p k i)) count max
down_source-IsOrder f count max p k h le room small = record {
  slot_lt = λ i hi. h.slot_lt (down_source p k i) (down_source-lt p k i (omega arith) hi);
  distinct = λ i j hi hj e. down_source-injective p k i j (omega arith) hi hj (
      h.distinct (down_source p k i) (down_source p k j) (down_source-lt p k i (omega arith) hi)
        (down_source-lt p k j (omega arith) hj) e);
  used = λ i hi. ground (arith, h.used (down_source p k i), h.free (down_source p k i));
  free = λ i lt hi. ground (arith, h.used (down_source p k i), h.free (down_source p k i));
}

pub index_ext :
    (b c : SortBuffer) (i : ℕ)
    → HasWidths b
    → HasWidths c
    → b.sorted_index ≡ c.sorted_index
    → index b i ≡ index c i
index_ext b c i h k e = index-eq b i h ∙ ap (λ (q : ℕ). bextr q (i * 4) 4) e ∙ sym (index-eq c i k)

-- Only the values below 12 matter.
pub IsOrder-ext :
    (f g : ℕ → ℕ) (count max count' max' : ℕ)
    → count ≤ 12
    → IsOrder f count max
    → ((i : ℕ) → i < 12 → g i ≡ f i)
    → count' ≡ count
    → max' ≡ max
    → IsOrder g count' max'
IsOrder-ext f g count max count' max' small h e p q = record {
  slot_lt = λ i hi. ground (arith, h.slot_lt i, e i);
  distinct = λ i j hi hj p. ground (arith, h.distinct i j, e i, e j);
  used = λ i hi. ground (arith, h.used i, e i);
  free = λ i lt hi. ground (arith, h.free i, e i);
}
