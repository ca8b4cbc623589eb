-- ===== src/SortBuffer/Delete.antt =====
-- `Delete` and `DeleteData` of src/sortbuffer.h: slots are given back by rotating their numbers
-- behind those of the sorted positions; no byte of the buffer moves.
use mathlib.Core.Path.{ap₂}
use combotree_new.Prelude.{
  Bool-cases, ltb, ltb→lt, ltb→le, inl, inr, ℕ, suc, ◌+◌, ◌-◌, ◌*◌, ◌^◌, ◌≤◌, ◌<◌, ◌≡◌, refl, arith,
  ap, ◌∙◌, sym, take,
}
use combotree_new.Word.{word_mod, circular_rshift}
use combotree_new.Slots.{prefix_of}
use combotree_new.Slots.Writes.{suffix, payload}
use combotree_new.SortBuffer.{SortBuffer, header, set_header, index, delete, delete_data}
use combotree_new.SortBuffer.View.{pair_at, pair_at-eq, pairs}
use combotree_new.Sequence.{remove_at, tabulate, tabulate_ext, tabulate-remove_at, take-tabulate}
use combotree_new.SortBuffer.Header.{
  HasWidths, set_header-HasWidths, index-rshift, rshift-meta, down_source, Turns,
}
use combotree_new.SortBuffer.Valid.{
  IsOrder-ext, IsValid, IsValid-HasWidths, index_ext, down_source-IsOrder,
}

-- `c` is `b` with `k` positions from `p` on given back.
record GivesBack (b c : SortBuffer) (p k : ℕ) : Type 0 where
  prefix_kept : c.prefix_bytes ≡ b.prefix_bytes
  suffix_kept : c.suffix_bytes ≡ b.suffix_bytes
  entries_less : c.entries + k ≡ b.entries
  max_kept : c.max_entries ≡ b.max_entries
  turned :
      c.sorted_index ≡ (set_header b (circular_rshift (header b) (16 + 4 * p) (4 * k))).sorted_index
  bytes_kept : c.buf ≡ b.buf

module _ (v : ℕ) (b c : SortBuffer) (p k : ℕ) (valid : IsValid v b) (g : GivesBack b c p k)
    (le : p + k ≤ b.entries) (turns : Turns p k) where
  after : SortBuffer
  after = set_header b (circular_rshift (header b) (16 + 4 * p) (4 * k))

  after-HasWidths : HasWidths after
  unfolding after
  after-HasWidths = set_header-HasWidths b (circular_rshift (header b) (16 + 4 * p) (4 * k))

  c-HasWidths : HasWidths c
  unfolding after
  c-HasWidths = omega (
    arith, g.prefix_kept, g.suffix_kept, g.entries_less, g.max_kept, g.turned, valid.widths,
    valid.capacity, valid.count, after-HasWidths.index_lt,
  )

  index-less : (i : ℕ) → i < 12 → index c i ≡ index b (down_source p k i)
  unfolding after
  index-less i hi =
      index_ext c after i c-HasWidths after-HasWidths g.turned
      ∙ index-rshift b p k i (IsValid-HasWidths valid) (omega (arith, valid.capacity, valid.count))
          turns hi

  less-IsValid : IsValid v c
  less-IsValid = record {
    widths = omega (arith, g.prefix_kept, g.suffix_kept, valid.widths);
    stored = omega (arith, g.suffix_kept, valid.stored);
    capacity = omega (arith, g.max_kept, valid.capacity);
    fits = rw (g.suffix_kept, g.max_kept) valid.fits;
    value_fits = valid.value_fits;
    count = omega (arith, g.entries_less, g.max_kept, valid.count);
    index_lt = c-HasWidths.index_lt;
    order =
        IsOrder-ext (λ i. index b (down_source p k i)) (index c) c.entries b.max_entries c.entries
          c.max_entries (omega (arith, g.entries_less, valid.count, valid.capacity))
          (down_source-IsOrder (index b) c.entries b.max_entries p k (rw g.entries_less valid.order)
            (omega (arith, g.entries_less)) (omega (arith, g.entries_less, valid.count))
            valid.capacity)
          index-less refl g.max_kept;
  }

  pair_less :
      (q i : ℕ) → q < word_mod → i < c.entries → pair_at v c q i ≡ pair_at v b q (down_source p k i)
  pair_less q i hq hi =
      pair_at-eq v c q i less-IsValid hq
      ∙ ap₂ (λ (s t : ℕ). (prefix_of s q * 256 ^ s + suffix c.buf s t, payload c.buf v t))
          g.suffix_kept (index-less i (omega (arith, g.entries_less, valid.count, valid.capacity)))
      ∙ ap
          (λ f. (
            prefix_of b.suffix_bytes q * 256 ^ b.suffix_bytes
                + suffix f b.suffix_bytes (index b (down_source p k i)),
            payload f v (index b (down_source p k i)),
          ))
          g.bytes_kept
      ∙ sym (pair_at-eq v b q (down_source p k i) valid hq)

one-Turns : (v : ℕ) (b : SortBuffer) (pos : ℕ) → IsValid v b → pos < b.entries → Turns pos 1
one-Turns v b pos valid h = (
  omega (arith, valid.capacity, valid.count),
  (elim (Bool-cases (ltb pos 11)) [
    | inl low ↦ inl (omega (arith, ltb→lt pos 11 low))
    | inr top ↦ inr (omega (arith, ltb→le pos 11 top))
  ]),
)

delete-GivesBack :
    (v : ℕ) (b : SortBuffer) (pos : ℕ)
    → IsValid v b
    → pos < b.entries
    → GivesBack b (delete b pos) pos 1
unfolding delete
delete-GivesBack v b pos valid h =
    let m =
      rshift-meta b pos 1 (IsValid-HasWidths valid) (omega (arith, valid.capacity, valid.count))
        (one-Turns v b pos valid h) in
    record {
      prefix_kept = m.0;
      suffix_kept = m.1;
      entries_less = omega (arith, m, valid.capacity, valid.count);
      max_kept = m.3;
      turned = refl;
      bytes_kept = unfold set_header in refl;
    }

delete_data-GivesBack :
    (v : ℕ) (b : SortBuffer) (start : ℕ)
    → IsValid v b
    → start ≤ b.entries
    → Turns start (b.entries - start)
    → GivesBack b (delete_data b start) start (b.entries - start)
unfolding delete_data
delete_data-GivesBack v b start valid h turns =
    let m =
      rshift-meta b start (b.entries - start) (IsValid-HasWidths valid)
        (omega (arith, valid.capacity, valid.count)) turns in
    record {
      prefix_kept = m.0;
      suffix_kept = m.1;
      entries_less = omega arith;
      max_kept = m.3;
      turned = refl;
      bytes_kept = unfold set_header in refl;
    }

-- Delete at a position below entries keeps a buffer well formed.
pub delete-IsValid :
    (v : ℕ) (b : SortBuffer) (pos : ℕ) → IsValid v b → pos < b.entries → IsValid v (delete b pos)
delete-IsValid v b pos valid h =
    less-IsValid v b (delete b pos) pos 1 valid (delete-GivesBack v b pos valid h) (omega arith)
      (one-Turns v b pos valid h)

-- For a well-formed buffer, a position below entries and a 64-bit key of the owner, Delete removes
-- exactly the pair at that position from the sorted sequence.
pub delete-pairs :
    (v : ℕ) (b : SortBuffer) (pos q : ℕ)
    → IsValid v b
    → pos < b.entries
    → q < word_mod
    → pairs v (delete b pos) q ≡ remove_at pos (pairs v b q)
unfolding pairs
delete-pairs v b pos q valid h hq =
    let g = delete-GivesBack v b pos valid h in
    let n : ℕ = (delete b pos).entries in
    let m : suc n ≡ b.entries = omega (arith, g.entries_less) in
    let step = λ (i : ℕ) (p : i < n).
      pair_less v b (delete b pos) pos 1 valid g (omega arith) (one-Turns v b pos valid h) q i hq
        p in
    tabulate-remove_at (pair_at v (delete b pos) q) (pair_at v b q) n pos (omega arith)
      (λ i p. step i (omega arith) ∙ ap (pair_at v b q) (ground arith))
      (λ i p r. step i r ∙ ap (pair_at v b q) (ground (arith, valid.capacity, valid.count)))
    ∙ ap (λ (t : ℕ). remove_at pos (tabulate (pair_at v b q) t)) m

pub delete_data-IsValid :
    (v : ℕ) (b : SortBuffer) (start : ℕ)
    → IsValid v b
    → start ≤ b.entries
    → Turns start (b.entries - start)
    → IsValid v (delete_data b start)
delete_data-IsValid v b start valid h turns =
    less-IsValid v b (delete_data b start) start (b.entries - start) valid
      (delete_data-GivesBack v b start valid h turns) (omega arith) turns

-- For a well-formed buffer, a start_pos up to entries and a 64-bit key of the owner, DeleteData
-- keeps exactly the pairs in front of start_pos.
pub delete_data-pairs :
    (v : ℕ) (b : SortBuffer) (start q : ℕ)
    → IsValid v b
    → start ≤ b.entries
    → Turns start (b.entries - start)
    → q < word_mod
    → pairs v (delete_data b start) q ≡ take start (pairs v b q)
unfolding pairs delete_data
delete_data-pairs v b start q valid h turns hq =
    let g = delete_data-GivesBack v b start valid h turns in
    tabulate_ext (pair_at v (delete_data b start) q) (pair_at v b q) start (λ i p.
      pair_less v b (delete_data b start) start (b.entries - start) valid g (omega arith) turns q i
        hq p
      ∙ ap (pair_at v b q) (ground arith))
    ∙ sym (take-tabulate (pair_at v b q) b.entries start h)

pub delete-suffix_bytes :
    (v : ℕ) (b : SortBuffer) (pos : ℕ)
    → IsValid v b
    → pos < b.entries
    → (delete b pos).suffix_bytes ≡ b.suffix_bytes
delete-suffix_bytes v b pos valid h = (delete-GivesBack v b pos valid h).suffix_kept

pub delete-fields :
    (v : ℕ) (b : SortBuffer) (pos : ℕ)
    → IsValid v b
    → pos < b.entries
    → ((delete b pos).entries + 1 ≡ b.entries) × ((delete b pos).max_entries ≡ b.max_entries)
delete-fields v b pos valid h =
    let g = delete-GivesBack v b pos valid h in (g.entries_less, g.max_kept)

pub delete_data-fields :
    (v : ℕ) (b : SortBuffer) (start : ℕ)
    → IsValid v b
    → start ≤ b.entries
    → Turns start (b.entries - start)
    → ((delete_data b start).suffix_bytes ≡ b.suffix_bytes)
      × ((delete_data b start).entries ≡ start)
      × ((delete_data b start).max_entries ≡ b.max_entries)
unfolding delete_data
delete_data-fields v b start valid h turns =
    let g = delete_data-GivesBack v b start valid h turns in (g.suffix_kept, refl, g.max_kept)

-- A position that `DeleteData` leaves keeps its pair.
pub pair_at-delete_data :
    (v : ℕ) (b : SortBuffer) (start q i : ℕ)
    → IsValid v b
    → start ≤ b.entries
    → Turns start (b.entries - start)
    → q < word_mod
    → i < start
    → pair_at v (delete_data b start) q i ≡ pair_at v b q i
pair_at-delete_data v b start q i valid h turns hq hi =
    pair_less v b (delete_data b start) start (b.entries - start) valid
      (delete_data-GivesBack v b start valid h turns) (omega arith) turns q i hq
      (omega (arith, delete_data-fields v b start valid h turns))
    ∙ ap (pair_at v b q) (ground arith)
