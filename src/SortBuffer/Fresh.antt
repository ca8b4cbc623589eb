-- ===== src/SortBuffer/Fresh.antt =====
-- A buffer as `NewNode` (src/clevel.h) leaves it is well formed, with all of its slots free.
use combotree_new.Prelude.{ℕ, zero, suc, ◌+◌, ◌-◌, ◌*◌, ◌/◌, ◌%◌, ◌≤◌, ◌<◌, ◌≡◌, refl, arith, ◌∙◌}
use combotree_new.Bytes.{Bytes}
use combotree_new.Word.{bextr}
use combotree_new.Slots.{max_entries_of, nine_rows}
use combotree_new.SortBuffer.{index, fresh, initial_index}
use combotree_new.SortBuffer.Header.{HasWidths, index-eq}
use combotree_new.SortBuffer.Valid.{IsOrder, IsValid}

initial_slot : (i : ℕ) → i < 12 → bextr initial_index (i * 4) 4 ≡ 11 - i
initial_slot zero h = refl
initial_slot (suc zero) h = refl
initial_slot (suc (suc zero)) h = refl
initial_slot (suc (suc (suc zero))) h = refl
initial_slot (suc (suc (suc (suc zero)))) h = refl
initial_slot (suc (suc (suc (suc (suc zero))))) h = refl
initial_slot (suc (suc (suc (suc (suc (suc zero)))))) h = refl
initial_slot (suc (suc (suc (suc (suc (suc (suc zero))))))) h = refl
initial_slot (suc (suc (suc (suc (suc (suc (suc (suc zero)))))))) h = refl
initial_slot (suc (suc (suc (suc (suc (suc (suc (suc (suc zero))))))))) h = refl
initial_slot (suc (suc (suc (suc (suc (suc (suc (suc (suc (suc zero)))))))))) h = refl
initial_slot (suc (suc (suc (suc (suc (suc (suc (suc (suc (suc (suc zero))))))))))) h = refl
initial_slot (suc (suc (suc (suc (suc (suc (suc (suc (suc (suc (suc (suc i)))))))))))) h =
    absurd (omega arith)

-- The capacity of a leaf for each length of the suffix.
pub leaf_capacity :
    (s : ℕ)
    → s ≤ 8
    → 0 < s
    → (max_entries_of 8 s % 16 ≤ 12)
      × (0 < max_entries_of 8 s % 16)
      × (max_entries_of 8 s % 16 * (8 + s) ≤ 112)
unfolding max_entries_of
leaf_capacity =
    nine_rows
      (λ s.
        0 < s
        → (112 / (8 + s) % 16 ≤ 12)
          × (0 < 112 / (8 + s) % 16)
          × (112 / (8 + s) % 16 * (8 + s) ≤ 112))
      (omega arith) (omega arith) (omega arith) (omega arith) (omega arith) (omega arith)
      (omega arith) (omega arith) (omega arith)

-- A leaf of the smallest capacity holds more than one pair.
pub capacity-two : (s : ℕ) → s ≤ 8 → 1 < max_entries_of 8 s % 16
unfolding max_entries_of
capacity-two =
    nine_rows (λ s. 1 < 112 / (8 + s) % 16) (omega arith) (omega arith) (omega arith) (omega arith)
      (omega arith) (omega arith) (omega arith) (omega arith) (omega arith)

module _ (v : ℕ) (old : Bytes) (s : ℕ) (long : s ≤ 8) (stored : 0 < s) (value_fits : v ≤ 8) where
  pub fresh-HasWidths : HasWidths (fresh old s)
  unfolding fresh
  fresh-HasWidths = omega (arith, leaf_capacity s long stored)

  pub index-fresh : (i : ℕ) → i < 12 → index (fresh old s) i ≡ 11 - i
  index-fresh i h = index-eq (fresh old s) i fresh-HasWidths ∙ unfold fresh in initial_slot i h

  pub fresh-IsOrder : IsOrder (index (fresh old s)) 0 (max_entries_of 8 s % 16)
  fresh-IsOrder = record {
    slot_lt = λ i h. omega (arith, index-fresh i h);
    distinct = λ i j h k e. omega (arith, index-fresh i h, index-fresh j k);
    used = λ i h. absurd (omega arith);
    free = λ i h k. omega (arith, index-fresh i k);
  }

  -- A buffer as NewNode sets it up, with a suffix of one to eight bytes and values of at most
  -- eight, is well formed.
  pub fresh-IsValid : IsValid v (fresh old s)
  unfolding fresh
  fresh-IsValid = record {
    widths = omega arith;
    stored = stored;
    capacity = (leaf_capacity s long stored).0;
    fits = grind (arith, leaf_capacity s long stored);
    value_fits = value_fits;
    count = omega arith;
    index_lt = omega arith;
    order = fresh-IsOrder;
  }
