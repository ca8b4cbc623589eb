-- ===== src/SortBuffer/Update.antt =====
-- `Update` of src/sortbuffer.h: the value at a position is overwritten.
use mathlib.Core.Path.{ap₂}
use native.Mathlib.Nat.{mod-eq_of_lt}
use combotree_new.Prelude.{
  ℕ, zero, suc, ◌+◌, ◌*◌, ◌%◌, ◌^◌, ◌<◌, ◌≡◌, ◌≢◌, refl, arith, ap, ◌∙◌, sym, true, false, some,
  ◌==◌, if◌then◌else◌, Bool-cases, inl, inr, ne→==, ==→eq, ==→ne, ==-refl,
}
use combotree_new.Word.{word_mod}
use combotree_new.Slots.{prefix_of}
use combotree_new.Slots.Writes.{suffix, payload, suffix-store_value, payload-store_value}
use combotree_new.Sequence.{tabulate, tabulate_ext}
use combotree_new.PmemKv.{lookup}
use combotree_new.SortedPairs.{tabulate-IsAscendingList, IsAscendingList, IsAscendingList-at}
use combotree_new.SortBuffer.{SortBuffer, header, index, find, sort_key, update}
use combotree_new.SortBuffer.Valid.{IsValid}
use combotree_new.SortBuffer.View.{pairs, pair_at, pair_at-eq}
use combotree_new.SortBuffer.Search.{IsSorted, sort_key-IsAscending}
use combotree_new.SortBuffer.AsMap.{
  HasPrefix, Changes, find-Locates, sort_key-prefix, pairs-IsAscendingList,
  IsAscendingList-IsSorted,
}

-- A list that differs at one position, in the value, from an ascending one.
lookup-overwritten :
    (f g : ℕ → ℕ × ℕ) (n pos x j : ℕ)
    → pos < n
    → IsAscendingList (tabulate f n)
    → g pos ≡ ((f pos).0, x)
    → ((i : ℕ) → i < n → i ≢ pos → g i ≡ f i)
    → lookup j (tabulate g n) ≡ (if j == (f pos).0 then some x else lookup j (tabulate f n))
unfolding lookup tabulate IsAscendingList
lookup-overwritten f g zero pos x j lt up at kept = absurd (omega arith)
lookup-overwritten f g (suc n) zero x j lt up at kept =
    let rest : tabulate (λ i. g (suc i)) n ≡ tabulate (λ i. f (suc i)) n =
      tabulate_ext (λ i. g (suc i)) (λ i. f (suc i)) n
        (λ i p. kept (suc i) (omega arith) (omega arith)) in
    elim (Bool-cases (j == (f 0).0)) [
      | inl same ↦ rw (at, same, ==→eq j (f 0).0 same, ==-refl (f 0).0) refl
      | inr other ↦
          rw (at, other, ne→== (f 0).0 j (λ e. ==→ne j (f 0).0 other (sym e))) (ap (lookup j) rest)
    ]
lookup-overwritten f g (suc n) (suc pos) x j lt up at kept =
    let head : g 0 ≡ f 0 = kept 0 (omega arith) (omega arith) in
    let later =
      lookup-overwritten (λ i. f (suc i)) (λ i. g (suc i)) n pos x j (omega arith) up.1 at
        (λ i p ne. kept (suc i) (omega arith) (omega arith)) in
    elim (Bool-cases ((f 0).0 == j)) [
      | inl hit ↦
          let d : (j == (f (suc pos)).0) ≡ false = ne→== j (f (suc pos)).0 (
            omega (
              arith,
              ==→eq (f 0).0 j hit,
              IsAscendingList-at f (suc n) 0 (suc pos) up (omega arith) lt,
            )) in
          rw (head, hit, d) refl
      | inr miss ↦ rw (head, miss) later
    ]

pub update-IsValid :
    (v : ℕ) (b : SortBuffer) (pos x : ℕ) → IsValid v b → IsValid v (update v b pos x)
unfolding update index header
update-IsValid v b pos x h = record {
  widths = h.widths;
  stored = h.stored;
  capacity = h.capacity;
  fits = h.fits;
  value_fits = h.value_fits;
  count = h.count;
  index_lt = h.index_lt;
  order = h.order;
}

index-update : (v : ℕ) (b : SortBuffer) (pos x i : ℕ) → index (update v b pos x) i ≡ index b i
unfolding update index header
index-update v b pos x i = refl

module _ (v p : ℕ) (b : SortBuffer) (pos x : ℕ) (h : IsValid v b) (hp : p < word_mod)
    (lt : pos < b.entries) where
  abbrev after : SortBuffer
  after = update v b pos x

  slot_lt : (i : ℕ) → i < b.entries → index b i < b.max_entries
  slot_lt i q = h.order.used i q

  pair_at-update :
      (i : ℕ)
      → i < b.entries
      → pair_at v after p i ≡ (
        (pair_at v b p i).0,
        (if index b i == index b pos then x % 256 ^ v else (pair_at v b p i).1),
      )
  pair_at-update i q =
      pair_at-eq v after p i (update-IsValid v b pos x h) hp
      ∙ ap
          (λ (s : ℕ). (
            prefix_of after.suffix_bytes p * 256 ^ after.suffix_bytes
                + suffix after.buf after.suffix_bytes s,
            payload after.buf v s,
          ))
          (index-update v b pos x i)
      ∙ unfold update in
        ap₂ (λ (s t : ℕ). (prefix_of b.suffix_bytes p * 256 ^ b.suffix_bytes + s, t))
          (suffix-store_value b.max_entries b.suffix_bytes v h.fits b.buf (index b pos) (index b i)
            x (slot_lt pos lt) (slot_lt i q))
          (payload-store_value b.max_entries b.suffix_bytes v h.fits b.buf (index b pos) (index b i)
            x (slot_lt pos lt) (slot_lt i q))
        ∙ ap (λ (e : ℕ × ℕ). (e.0, (if index b i == index b pos then x % 256 ^ v else e.1)))
            (sym (pair_at-eq v b p i h hp))

  -- Another position names another slot, so only the pair at `pos` is changed.
  pair_at-update_kept : (i : ℕ) → i < b.entries → i ≢ pos → pair_at v after p i ≡ pair_at v b p i
  pair_at-update_kept i q ne =
      let other : (index b i == index b pos) ≡ false = ne→== (index b i) (index b pos) (λ e. ne (
        h.order.distinct i pos (omega (arith, h.count, h.capacity))
          (omega (arith, h.count, h.capacity)) e)) in
      rw other at (pair_at-update i q)

  pair_at-update_changed : x < 256 ^ v → pair_at v after p pos ≡ ((pair_at v b p pos).0, x)
  pair_at-update_changed hx =
      (rw (==-refl (index b pos)) at (pair_at-update pos lt))
      ∙ ap (λ (q : ℕ). ((pair_at v b p pos).0, q)) (mod-eq_of_lt hx)

  key_kept : (i : ℕ) → i < b.entries → (pair_at v after p i).0 ≡ sort_key b i p
  unfolding pair_at
  key_kept i q = ap (λ (e : ℕ × ℕ). e.0) (pair_at-update i q)

  update-IsSorted : IsSorted b → IsSorted after
  unfolding pairs update
  update-IsSorted s = IsAscendingList-IsSorted v after p (update-IsValid v b pos x h) hp (
      tabulate-IsAscendingList (pair_at v after p) b.entries λ i j q r.
        omega (
          arith,
          key_kept i (omega arith),
          key_kept j r,
          sort_key-IsAscending v b p h s hp i j q r,
        ))

-- In a well-formed sorted buffer, Update at the position where Find finds a key of the owner's
-- prefix, with a value that fits, keeps the buffer well formed and sorted, maps the key to the
-- value and changes no other key.
pub update-Changes :
    (v p : ℕ) (b : SortBuffer) (key pos : ℕ)
    → IsValid v b
    → IsSorted b
    → p < word_mod
    → HasPrefix b.suffix_bytes p key
    → (x : ℕ) → x < 256 ^ v
    → find b key ≡ some (pos, true)
    → Changes v p b (update v b pos x) key (some x)
unfolding pairs
update-Changes v p b key pos h s hp pre x hx e =
    let at = find-Locates v p b key pos h s hp pre true e in
    let here : (pair_at v b p pos).0 ≡ key =
      unfold pair_at in sym (sort_key-prefix v b pos p key h hp pre) ∙ at.1 in
    record {
      valid = update-IsValid v b pos x h;
      sorted = update-IsSorted v p b pos x h hp at.0 s;
      suffix_kept = unfold update in refl;
      maps = λ j.
          ap (λ (n : ℕ). lookup j (tabulate (pair_at v (update v b pos x) p) n))
            {x = (update v b pos x).entries} {y = b.entries} (unfold update in refl)
          ∙ lookup-overwritten (pair_at v b p) (pair_at v (update v b pos x) p) b.entries pos x j
              at.0 (pairs-IsAscendingList v b p h s hp)
              (pair_at-update_changed v p b pos x h hp at.0 hx)
              (pair_at-update_kept v p b pos x h hp at.0)
          ∙ ap (λ (q : ℕ). if j == q then some x else lookup j (tabulate (pair_at v b p) b.entries))
              here;
    }
