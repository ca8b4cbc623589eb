-- ===== src/SortBuffer/Copy.antt =====
-- `CopyData` of src/sortbuffer.h, into a fresh buffer: the upper half of a node that is split.
use mathlib.Core.Path.{ap₂}
use combotree_new.Prelude.{
  ℕ, zero, suc, ◌+◌, ◌-◌, ◌*◌, ◌%◌, ◌^◌, ◌≤◌, ◌<◌, ◌≡◌, refl, arith, ap, ◌∙◌, sym, ltb, ◌==◌,
  if◌then◌else◌, Bool-cases, inl, inr, drop, ltb→lt, ltb→le, lt→ltb, le→ltb, ==→eq, ==→ne,
}
use combotree_new.Bytes.{Bytes, copy}
use combotree_new.Word.{word_mod, circular_lshift}
use combotree_new.Slots.{prefix_of, max_entries_of, key_offset, value_offset}
use combotree_new.Slots.Writes.{
  suffix, payload, Fits, suffix-copy_key, suffix-copy_value, payload-copy_key, payload-copy_value,
}
use combotree_new.SortBuffer.{SortBuffer, index, header, set_header, copy_slots, copy_data, fresh}
use combotree_new.SortBuffer.Fresh.{leaf_capacity, fresh-HasWidths, fresh-IsOrder, index-fresh}
use combotree_new.SortBuffer.View.{pair_at, pair_at-eq, pairs}
use combotree_new.Sequence.{tabulate, tabulate_ext, drop-tabulate}
use combotree_new.SortBuffer.Header.{
  HasWidths, up_source, index-lshift, lshift-meta_first, set_header-HasWidths,
}
use combotree_new.SortBuffer.Valid.{IsOrder, IsOrder-ext, IsValid, index_ext, up_source-IsOrder}

-- One round more: the slot below those that follow.
layered :
    (f : ℕ → ℕ) (d total i left slot j : ℕ)
    → i + suc left ≡ total
    → slot ≡ left
    → (if ltb j left then f (total - 1 - j) else if j == slot then f i else d)
      ≡ (if ltb j (suc left) then f (total - 1 - j) else d)
layered f d total i left slot j e h = elim (Bool-cases (ltb j left)) [
  | inl less ↦ let k = ltb→lt j left less in rw (less, lt→ltb j (suc left) (omega arith))
  | inr more ↦
      let k = ltb→le j left more in
      elim (Bool-cases (j == slot)) [
        | inl same ↦
            let t = ==→eq j slot same in
            rw (more, same, lt→ltb j (suc left) (omega arith)) (ap f (omega arith))
        | inr other ↦
            let t = ==→ne j slot other in rw (more, other, le→ltb j (suc left) (ground arith))
      ]
]

-- The loop: slot `j` receives the pair of sorted position `total - 1 - j`.
module _ (v n : ℕ) (b : SortBuffer) (total : ℕ) (fits : Fits n b.suffix_bytes v)
    (small : total ≤ n) where
  copied_suffix :
      (left i : ℕ) (dest : Bytes) (j : ℕ)
      → i + left ≡ total
      → j < n
      → suffix (copy_slots v b total dest i left) b.suffix_bytes j ≡ (
          if ltb j left
          then suffix b.buf b.suffix_bytes (index b (total - 1 - j))
          else suffix dest b.suffix_bytes j)
  unfolding copy_slots
  copied_suffix zero i dest j e hj = rw (le→ltb j 0 (omega arith))
  copied_suffix (suc left) i dest j e hj =
      let s : ℕ = b.suffix_bytes in
      let slot : ℕ = total - 1 - i in
      let here : slot ≡ left = omega arith in
      let dest' : Bytes = copy dest (key_offset s slot) b.buf (key_offset s (index b i)) s in
      let dest'' : Bytes = copy dest' (value_offset v slot) b.buf (value_offset v (index b i)) v in
      copied_suffix left (i + 1) dest'' j (omega arith) hj
      ∙ ap (λ (q : ℕ). if ltb j left then suffix b.buf s (index b (total - 1 - j)) else q)
          (suffix-copy_value n s v fits dest' b.buf slot j (value_offset v (index b i))
              (omega arith) hj
            ∙ suffix-copy_key n s v fits dest b.buf slot j (key_offset s (index b i)) (omega arith)
                hj)
      ∙ layered (λ (q : ℕ). suffix b.buf s (index b q)) (suffix dest s j) total i left slot j e here

  copied_payload :
      (left i : ℕ) (dest : Bytes) (j : ℕ)
      → i + left ≡ total
      → j < n
      → payload (copy_slots v b total dest i left) v j
        ≡ (if ltb j left then payload b.buf v (index b (total - 1 - j)) else payload dest v j)
  unfolding copy_slots
  copied_payload zero i dest j e hj = rw (le→ltb j 0 (omega arith))
  copied_payload (suc left) i dest j e hj =
      let s : ℕ = b.suffix_bytes in
      let slot : ℕ = total - 1 - i in
      let here : slot ≡ left = omega arith in
      let dest' : Bytes = copy dest (key_offset s slot) b.buf (key_offset s (index b i)) s in
      let dest'' : Bytes = copy dest' (value_offset v slot) b.buf (value_offset v (index b i)) v in
      copied_payload left (i + 1) dest'' j (omega arith) hj
      ∙ ap (λ (q : ℕ). if ltb j left then payload b.buf v (index b (total - 1 - j)) else q)
          (payload-copy_value n s v fits dest' b.buf slot j (value_offset v (index b i))
              (omega arith) hj
            ∙ ap (λ (q : ℕ). if j == slot then payload b.buf v (index b i) else q)
                (payload-copy_key n s v fits dest b.buf slot j (key_offset s (index b i))
                  (omega arith) hj))
      ∙ layered (λ (q : ℕ). payload b.buf v (index b q)) (payload dest v j) total i left slot j e
          here

-- The upper part of `b`, moved into a fresh buffer.
module _ (v : ℕ) (b : SortBuffer) (old : Bytes) (start : ℕ) (valid : IsValid v b)
    (leaf : b.max_entries ≡ max_entries_of 8 b.suffix_bytes % 16) (le : start ≤ b.entries) where
  abbrev pub upper : SortBuffer
  upper = copy_data v b (fresh old b.suffix_bytes) start

  abbrev count : ℕ
  count = b.entries - start

  long : b.suffix_bytes ≤ 8
  long = omega (arith, valid.widths)

  -- The new buffer before its header is turned.
  filled : SortBuffer
  filled = record (fresh old b.suffix_bytes) {
    buf = copy_slots v b b.entries (fresh old b.suffix_bytes).buf start count;
    entries = count;
  }

  filled-HasWidths : HasWidths filled
  unfolding filled fresh
  filled-HasWidths =
      omega (arith, leaf_capacity b.suffix_bytes long valid.stored, valid.capacity, valid.count)

  index-filled : (i : ℕ) → i < 12 → index filled i ≡ 11 - i
  index-filled i h =
      index_ext filled (fresh old b.suffix_bytes) i filled-HasWidths
        (fresh-HasWidths v old b.suffix_bytes long valid.stored valid.value_fits)
        (unfold filled in refl)
      ∙ index-fresh v old b.suffix_bytes long valid.stored valid.value_fits i h

  pub upper-fields :
      (upper.prefix_bytes ≡ b.prefix_bytes)
      × (upper.suffix_bytes ≡ b.suffix_bytes)
      × (upper.entries ≡ b.entries - start)
      × (upper.max_entries ≡ b.max_entries)
  unfolding copy_data fresh filled
  upper-fields = omega (
    arith,
    lshift-meta_first filled (b.entries - start) filled-HasWidths
        (omega (arith, valid.capacity, valid.count)),
    valid.widths,
    leaf,
  )

  upper_source : 0 < count → (i : ℕ) → i < 12 → index upper i ≡ index filled (up_source 0 count i)
  unfolding copy_data filled
  upper_source some_pair i h =
      index-lshift filled 0 count i filled-HasWidths (omega (arith, valid.capacity, valid.count))
        some_pair h

  index-upper : (i : ℕ) → i < count → index upper i ≡ count - 1 - i
  index-upper i h =
      let big = valid.capacity in
      let few = valid.count in
      let from : up_source 0 count i ≡ 12 - count + i = ground arith in
      upper_source (omega arith) i (omega arith)
      ∙ ap (index filled) from
      ∙ index-filled (12 - count + i) (omega arith)
      ∙ omega arith

  upper-HasWidths : HasWidths upper
  unfolding copy_data fresh filled
  upper-HasWidths = set_header-HasWidths filled (circular_lshift (header filled) 16 (4 * count))

  filled-IsOrder : IsOrder (index filled) 0 b.max_entries
  filled-IsOrder =
      IsOrder-ext (index (fresh old b.suffix_bytes)) (index filled) 0
        (max_entries_of 8 b.suffix_bytes % 16) 0 b.max_entries (omega arith)
        (fresh-IsOrder v old b.suffix_bytes long valid.stored valid.value_fits)
        (λ i h.
          index-filled i h
          ∙ sym (index-fresh v old b.suffix_bytes long valid.stored valid.value_fits i h))
        refl leaf

  -- For a well-formed buffer with the capacity of a leaf and a start_pos below entries, CopyData
  -- into the buffer of a new node leaves that node well formed.
  pub upper-IsValid : start < b.entries → IsValid v upper
  upper-IsValid some_pair =
      let f = upper-fields in
      record {
        widths = omega (arith, f, valid.widths);
        stored = omega (arith, f, valid.stored);
        capacity = omega (arith, f, valid.capacity);
        fits = rw (f.1, f.3) valid.fits;
        value_fits = valid.value_fits;
        count = omega (arith, f, valid.count);
        index_lt = upper-HasWidths.index_lt;
        order =
            IsOrder-ext (λ i. index filled (up_source 0 count i)) (index upper) (0 + count)
              b.max_entries upper.entries upper.max_entries
              (omega (arith, valid.capacity, valid.count))
              (up_source-IsOrder (index filled) 0 b.max_entries 0 count filled-IsOrder (omega arith)
                (omega (arith, valid.count)) valid.capacity)
              (upper_source (omega arith)) (omega (arith, f)) f.3;
      }

  upper_suffix :
      (j : ℕ)
      → j < count
      → suffix upper.buf b.suffix_bytes j
        ≡ suffix b.buf b.suffix_bytes (index b (b.entries - 1 - j))
  unfolding copy_data set_header fresh
  upper_suffix j h = rw (lt→ltb j count h) at (
      copied_suffix v b.max_entries b b.entries valid.fits valid.count count start old j
        (omega arith) (omega (arith, valid.count)))

  upper_payload :
      (j : ℕ) → j < count → payload upper.buf v j ≡ payload b.buf v (index b (b.entries - 1 - j))
  unfolding copy_data set_header fresh
  upper_payload j h = rw (lt→ltb j count h) at (
      copied_payload v b.max_entries b b.entries valid.fits valid.count count start old j
        (omega arith) (omega (arith, valid.count)))

  pub upper-pair_at :
      (p i : ℕ) → p < word_mod → i < count → pair_at v upper p i ≡ pair_at v b p (start + i)
  upper-pair_at p i hp hi =
      let j : ℕ = count - 1 - i in
      let few = valid.count in
      let slot : index upper i ≡ j = index-upper i hi in
      let back : b.entries - 1 - j ≡ start + i = omega arith in
      pair_at-eq v upper p i (upper-IsValid (omega arith)) hp
      ∙ ap₂ (λ (q r : ℕ). (prefix_of q p * 256 ^ q + suffix upper.buf q r, payload upper.buf v r))
          (upper-fields.1) slot
      ∙ ap₂ (λ (q r : ℕ). (prefix_of b.suffix_bytes p * 256 ^ b.suffix_bytes + q, r))
          (upper_suffix j (omega arith)
            ∙ ap (λ (q : ℕ). suffix b.buf b.suffix_bytes (index b q)) back)
          (upper_payload j (omega arith) ∙ ap (λ (q : ℕ). payload b.buf v (index b q)) back)
      ∙ sym (pair_at-eq v b p (start + i) valid hp)

  -- For a well-formed buffer with the capacity of a leaf, a start_pos up to entries and a 64-bit
  -- key of the owner, CopyData into the buffer of a new node gives that node the pairs from
  -- start_pos on, in order.
  pub upper-pairs : (p : ℕ) → p < word_mod → pairs v upper p ≡ drop start (pairs v b p)
  unfolding pairs
  upper-pairs p hp =
      ap (tabulate (pair_at v upper p)) upper-fields.2
      ∙ tabulate_ext (pair_at v upper p) (λ i. pair_at v b p (start + i)) (b.entries - start)
          (λ i h. upper-pair_at p i hp h)
      ∙ sym (drop-tabulate (pair_at v b p) b.entries start (b.entries - start) (omega arith))
