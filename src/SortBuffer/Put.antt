-- ===== src/SortBuffer/Put.antt =====
-- `Put` of src/sortbuffer.h: the pair goes into a free slot, and its number to the given position.
use mathlib.Core.Path.{ap₂}
use native.Mathlib.Nat.{mod-eq_of_lt, div-add-mod'}
use combotree_new.Prelude.{
  ℕ, suc, ◌+◌, ◌*◌, ◌%◌, ◌^◌, ◌≤◌, ◌<◌, ◌≡◌, refl, arith, ap, ◌∙◌, sym, ◌==◌, if◌then◌else◌, true,
  false, ne→==, ==-refl,
}
use combotree_new.Bytes.{store}
use combotree_new.Word.{word_mod, circular_lshift}
use combotree_new.Slots.{value_offset, prefix_of}
use combotree_new.Slots.Writes.{
  suffix, payload, suffix-store_key, suffix-store_value, payload-store_key, payload-store_value,
}
use combotree_new.SortBuffer.{SortBuffer, header, set_header, index, put}
use combotree_new.SortBuffer.View.{pair_at, pair_at-eq, pairs}
use combotree_new.Sequence.{insert_at, tabulate, tabulate-insert_at}
use combotree_new.SortBuffer.Header.{
  HasWidths, set_header-HasWidths, index-lshift, lshift-meta, up_source,
}
use combotree_new.SortBuffer.Valid.{
  IsOrder-ext, IsValid, IsValid-HasWidths, index_ext, up_source-IsOrder,
}

module _ (v : ℕ) (b : SortBuffer) (pos k x : ℕ) (valid : IsValid v b)
    (room : b.entries < b.max_entries) (le : pos ≤ b.entries) where
  abbrev pub after : SortBuffer
  after = put v b pos k x

  turned : SortBuffer
  turned = set_header b (circular_lshift (header b) (16 + 4 * pos) 4)

  wide : HasWidths b
  wide = IsValid-HasWidths valid

  turned-meta :
      (turned.prefix_bytes ≡ b.prefix_bytes)
      × (turned.suffix_bytes ≡ b.suffix_bytes)
      × (turned.entries ≡ b.entries)
      × (turned.max_entries ≡ b.max_entries)
  unfolding turned
  turned-meta = lshift-meta b pos 1 wide (omega (arith, valid.capacity)) (omega arith)

  pub put-fields :
      (after.prefix_bytes ≡ b.prefix_bytes)
      × (after.suffix_bytes ≡ b.suffix_bytes)
      × (after.entries ≡ b.entries + 1)
      × (after.max_entries ≡ b.max_entries)
  unfolding put turned set_header
  put-fields = omega (arith, turned-meta, valid.capacity)

  put-index : after.sorted_index ≡ turned.sorted_index
  unfolding put turned set_header
  put-index = refl

  put-HasWidths : HasWidths after
  put-HasWidths =
      omega (arith, put-fields, valid.widths, valid.capacity, turned-wide.index_lt, put-index)
    where
      turned-wide : HasWidths turned
      turned-wide =
          unfold turned in set_header-HasWidths b (circular_lshift (header b) (16 + 4 * pos) 4)

  index-put : (i : ℕ) → i < 12 → index after i ≡ index b (up_source pos 1 i)
  unfolding turned
  index-put i hi =
      index_ext after turned i put-HasWidths
        (set_header-HasWidths b (circular_lshift (header b) (16 + 4 * pos) 4)) put-index
      ∙ index-lshift b pos 1 i wide (omega (arith, valid.capacity)) (omega arith) hi

  -- In a well-formed buffer that is not full, for a position within the order, the slot that Put
  -- takes lies below max_entries, as Put asserts.
  pub put_target-lt : index b 11 < b.max_entries
  put_target-lt = valid.order.free 11 (omega (arith, valid.capacity)) (omega arith)

  -- Put into a well-formed buffer that is not full, at a position within the order, keeps it well
  -- formed: the slot numbers stay a permutation, and the used and next free ones name slots that
  -- fit.
  pub put-IsValid : IsValid v after
  put-IsValid =
      let f = put-fields in
      record {
        widths = omega (arith, f, valid.widths);
        stored = omega (arith, f, valid.stored);
        capacity = omega (arith, f, valid.capacity);
        fits = rw (f.1, f.3) valid.fits;
        value_fits = valid.value_fits;
        count = omega (arith, f);
        index_lt = put-HasWidths.index_lt;
        order =
            IsOrder-ext (λ i. index b (up_source pos 1 i)) (index after) (b.entries + 1)
              b.max_entries after.entries after.max_entries (omega (arith, valid.capacity))
              (up_source-IsOrder (index b) b.entries b.max_entries pos 1 valid.order le
                (omega arith) valid.capacity)
              index-put f.2 f.3;
      }

  -- The bytes of a slot: those of the pair in the slot that was taken, and else what they were.
  put-suffix :
      (j : ℕ)
      → j < b.max_entries
      → suffix after.buf b.suffix_bytes j
        ≡ (if j == index b 11 then k % 256 ^ b.suffix_bytes else suffix b.buf b.suffix_bytes j)
  unfolding put set_header
  put-suffix j hj =
      let stored = store b.buf (value_offset v (index b 11)) x v in
      suffix-store_key b.max_entries b.suffix_bytes v valid.fits stored (index b 11) j k
        put_target-lt hj
      ∙ ap (λ (q : ℕ). if j == index b 11 then k % 256 ^ b.suffix_bytes else q)
          (suffix-store_value b.max_entries b.suffix_bytes v valid.fits b.buf (index b 11) j x
            put_target-lt hj)

  put-payload :
      (j : ℕ)
      → j < b.max_entries
      → payload after.buf v j ≡ (if j == index b 11 then x % 256 ^ v else payload b.buf v j)
  unfolding put set_header
  put-payload j hj =
      let stored = store b.buf (value_offset v (index b 11)) x v in
      payload-store_key b.max_entries b.suffix_bytes v valid.fits stored (index b 11) j k
        put_target-lt hj
      ∙ payload-store_value b.max_entries b.suffix_bytes v valid.fits b.buf (index b 11) j x
          put_target-lt hj

  module _ (p : ℕ) (hp : p < word_mod) where
    -- A position other than the new one keeps the pair of the slot that it names.
    pub put_kept :
        (i j : ℕ)
        → i < b.entries + 1
        → j < b.entries
        → up_source pos 1 i ≡ j
        → pair_at v after p i ≡ pair_at v b p j
    put_kept i j hi hj e =
        let same : index after i ≡ index b j =
          index-put i (omega (arith, valid.capacity)) ∙ ap (index b) e in
        let slot : index b j < b.max_entries = valid.order.used j hj in
        let other : (index b j == index b 11) ≡ false = ne→== (index b j) (index b 11) (λ q. omega (
          arith,
          valid.capacity,
          valid.order.distinct j 11 (omega (arith, valid.capacity)) (omega arith) q,
        )) in
        pair_at-eq v after p i put-IsValid hp
        ∙ ap₂ (λ (q r : ℕ). (prefix_of q p * 256 ^ q + suffix after.buf q r, payload after.buf v r))
            (put-fields.1) same
        ∙ ap₂ (λ (q r : ℕ). (prefix_of b.suffix_bytes p * 256 ^ b.suffix_bytes + q, r))
            (put-suffix (index b j) slot ∙ rw other) (put-payload (index b j) slot ∙ rw other)
        ∙ sym (pair_at-eq v b p j valid hp)

    pub put_new :
        k < word_mod
        → prefix_of b.suffix_bytes k ≡ prefix_of b.suffix_bytes p
        → x < 256 ^ v
        → pair_at v after p pos ≡ (k, x)
    put_new hk same hx =
        let here : index after pos ≡ index b 11 =
          index-put pos (omega (arith, valid.capacity)) ∙ ap (index b) (ground arith) in
        let self : (index b 11 == index b 11) ≡ true = ==-refl (index b 11) in
        let stored_key : suffix after.buf b.suffix_bytes (index b 11) ≡ k % 256 ^ b.suffix_bytes =
          rw self at (put-suffix (index b 11) put_target-lt) in
        let stored_value : payload after.buf v (index b 11) ≡ x =
          (rw self at (put-payload (index b 11) put_target-lt)) ∙ mod-eq_of_lt hx in
        pair_at-eq v after p pos put-IsValid hp
        ∙ ap₂ (λ (q r : ℕ). (prefix_of q p * 256 ^ q + suffix after.buf q r, payload after.buf v r))
            (put-fields.1) here
        ∙ ap₂ (λ (q r : ℕ). (prefix_of b.suffix_bytes p * 256 ^ b.suffix_bytes + q, r)) stored_key
            stored_value
        ∙ ap (λ (q : ℕ). (q, x)) (rw (← same) (div-add-mod' k (256 ^ b.suffix_bytes)))

    -- For a well-formed buffer that is not full and a position within the order, Put of a pair
    -- whose key has the prefix of the owner and whose value fits inserts exactly that pair at that
    -- position of the sorted sequence; keys are of 64 bits.
    pub put-pairs :
        k < word_mod
        → prefix_of b.suffix_bytes k ≡ prefix_of b.suffix_bytes p
        → x < 256 ^ v
        → pairs v after p ≡ insert_at pos (k, x) (pairs v b p)
    unfolding pairs
    put-pairs hk same hx =
        ap (tabulate (pair_at v after p)) {x = after.entries} {y = suc b.entries}
          (omega (arith, put-fields))
        ∙ tabulate-insert_at (pair_at v after p) (pair_at v b p) (k, x) b.entries pos le
            (λ i h. put_kept i i (omega arith) (omega arith) (ground arith)) (put_new hk same hx)
            λ i h q. put_kept (suc i) i (omega arith) q (ground arith)
