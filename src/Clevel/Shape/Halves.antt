-- ===== src/Clevel/Shape/Halves.antt =====
-- The two halves of a node that src/clevel.cc splits: what `DeleteData` leaves and what `CopyData` moves.
use combotree_new.Prelude.{
  ℕ, zero, suc, ◌+◌, ◌-◌, ◌%◌, ◌≤◌, ◌<◌, ◌≡◌, ◌≢◌, refl, arith, ap, ◌∙◌, sym, Option, some, ◌==◌,
  if◌then◌else◌, ne→==, Bool-cases, inl, inr, ==→eq, ==→ne,
}
use combotree_new.Bytes.{Bytes}
use combotree_new.Word.{word_mod}
use combotree_new.Slots.{max_entries_of}
use combotree_new.Sequence.{tabulate, tabulate_ext}
use combotree_new.PmemKv.{lookup}
use combotree_new.SortBuffer.{SortBuffer, sort_value, delete_data, copy_data, fresh}
use combotree_new.SortBuffer.Valid.{IsValid}
use combotree_new.SortBuffer.View.{pairs, pair_at}
use combotree_new.SortBuffer.Search.{IsSorted, sort_key-eq}
use combotree_new.SortBuffer.Header.{Turns}
use combotree_new.SortBuffer.Delete.{delete_data-IsValid, delete_data-fields, pair_at-delete_data}
use combotree_new.SortBuffer.Copy.{upper-fields, upper-IsValid, upper-pair_at}
use combotree_new.Clevel.{Node, leaf}
use combotree_new.Clevel.Shape.{IsNodeBuffer, IsLeaf, keys_of, keys_of-IsAscending}

-- A key that the later pairs do not have is looked up among the first.
lookup-tabulate_front :
    (f : ℕ → ℕ × ℕ) (key n start : ℕ)
    → start ≤ n
    → ((i : ℕ) → start ≤ i → i < n → (f i).0 ≢ key)
    → lookup key (tabulate f n) ≡ lookup key (tabulate f start)
unfolding lookup tabulate
lookup-tabulate_front f key zero zero le apart = refl
lookup-tabulate_front f key zero (suc start) le apart = absurd (omega arith)
lookup-tabulate_front f key (suc n) zero le apart =
    rw (ne→== (f 0).0 key (apart 0 (omega arith) (omega arith))) (
      lookup-tabulate_front (λ i. f (suc i)) key n 0 (omega arith)
        λ i p q. apart (suc i) (omega arith) (omega arith))
lookup-tabulate_front f key (suc n) (suc start) le apart =
    ap (λ q. if (f 0).0 == key then some (f 0).1 else q)
      (lookup-tabulate_front (λ i. f (suc i)) key n start (omega arith)
        λ i p q. apart (suc i) (omega arith) (omega arith))

-- A key that the first pairs do not have is looked up among the later.
lookup-tabulate_back :
    (f : ℕ → ℕ × ℕ) (key count start : ℕ)
    → ((i : ℕ) → i < start → (f i).0 ≢ key)
    → lookup key (tabulate f (start + count)) ≡ lookup key (tabulate (λ i. f (start + i)) count)
unfolding lookup tabulate
lookup-tabulate_back f key count zero apart =
    ap (λ q. lookup key (tabulate f q)) {x = 0 + count} {y = count} (omega arith)
    ∙ ap (lookup key) (tabulate_ext f (λ i. f (0 + i)) count (λ i p. ap f (omega arith)))
lookup-tabulate_back f key count (suc start) apart =
    ap (λ q. lookup key (tabulate f q)) {x = suc start + count} {y = suc (start + count)}
      (omega arith)
    ∙ rw (ne→== (f 0).0 key (apart 0 (omega arith)))
        (lookup-tabulate_back (λ i. f (suc i)) key count start (λ i p. apart (suc i) (omega arith)))
    ∙ ap (lookup key) (
        tabulate_ext (λ i. f (suc (start + i))) (λ i. f (suc start + i)) count
          (λ i p. ap f (omega arith)))

pub keys-IsSorted :
    (v p : ℕ) (b : SortBuffer)
    → IsValid v b
    → p < word_mod
    → ((i j : ℕ) → i < j → j < b.entries → keys_of p b i < keys_of p b j)
    → IsSorted b
keys-IsSorted v p b h hp up i j lt hj =
    omega (arith, up i j lt hj, sort_key-eq v b i p h hp, sort_key-eq v b j p h hp)

module _ (s v p : ℕ) (b : SortBuffer) (start : ℕ) (h : IsNodeBuffer s v b) (hp : p < word_mod)
    (le : start ≤ b.entries) where
  keys : (i j : ℕ) → i < j → j < b.entries → keys_of p b i < keys_of p b j
  keys = keys_of-IsAscending s v p b h hp

  pub front-pair :
      Turns start (b.entries - start)
      → (i : ℕ) → i < start
      → pair_at v (delete_data b start) p i ≡ pair_at v b p i
  front-pair turns i lt = pair_at-delete_data v b start p i h.valid le turns hp lt

  pub front-key :
      Turns start (b.entries - start)
      → (i : ℕ) → i < start
      → keys_of p (delete_data b start) i ≡ keys_of p b i
  unfolding pair_at
  front-key turns i lt = ap (λ q. q.0) (front-pair turns i lt)

  pub front-value :
      Turns start (b.entries - start)
      → (i : ℕ) → i < start
      → sort_value v (delete_data b start) i ≡ sort_value v b i
  unfolding pair_at
  front-value turns i lt = ap (λ q. q.1) (front-pair turns i lt)

  pub front-IsNodeBuffer : Turns start (b.entries - start) → IsNodeBuffer s v (delete_data b start)
  front-IsNodeBuffer turns =
      let (suffix_kept, few, most) = delete_data-fields v b start h.valid le turns in
      let valid = delete_data-IsValid v b start h.valid le turns in
      record {
        valid = valid;
        sorted = keys-IsSorted v p (delete_data b start) valid hp λ i j lt hj. omega (
          arith,
          front-key turns i (omega (arith, few)),
          front-key turns j (omega (arith, few)),
          keys i j lt (omega (arith, few)),
        );
        suffix = suffix_kept ∙ h.suffix;
        capacity = most ∙ h.capacity;
      }

  module _ (old : Bytes) where
    full : b.max_entries ≡ max_entries_of 8 b.suffix_bytes % 16
    full = h.capacity ∙ ap (λ (q : ℕ). max_entries_of 8 q % 16) (sym h.suffix)

    abbrev pub back : SortBuffer
    back = copy_data v b (fresh old b.suffix_bytes) start

    pub back-fields :
        (back.suffix_bytes ≡ b.suffix_bytes)
        × (back.entries ≡ b.entries - start)
        × (back.max_entries ≡ b.max_entries)
    back-fields =
        let (pre, suffix_kept, few, most) = upper-fields v b old start h.valid full le in
        (suffix_kept, few, most)

    pub back-pair : (i : ℕ) → i < b.entries - start → pair_at v back p i ≡ pair_at v b p (start + i)
    back-pair i lt = upper-pair_at v b old start h.valid full le p i hp lt

    pub back-key : (i : ℕ) → i < b.entries - start → keys_of p back i ≡ keys_of p b (start + i)
    unfolding pair_at
    back-key i lt = ap (λ q. q.0) (back-pair i lt)

    pub back-value :
        (i : ℕ) → i < b.entries - start → sort_value v back i ≡ sort_value v b (start + i)
    unfolding pair_at
    back-value i lt = ap (λ q. q.1) (back-pair i lt)

    pub back-IsNodeBuffer : start < b.entries → IsNodeBuffer s v back
    back-IsNodeBuffer some_pair =
        let (suffix_kept, few, most) = back-fields in
        let valid = upper-IsValid v b old start h.valid full le some_pair in
        record {
          valid = valid;
          sorted = keys-IsSorted v p back valid hp λ i j lt hj. omega (
            arith,
            back-key i (omega (arith, few)),
            back-key j (omega (arith, few)),
            keys (start + i) (start + j) (omega arith) (omega (arith, few)),
          );
          suffix = suffix_kept ∙ h.suffix;
          capacity = most ∙ h.capacity;
        }

-- The two leaves of a split leaf.
module _ (s p lo hi : ℕ) (n : Node) (m : ℕ → Option ℕ) (start : ℕ) (h : IsLeaf s p n lo hi m)
    (hp : p < word_mod) (some_low : 0 < start) (some_high : start < n.buf.entries) where
  abbrev pub separator : ℕ
  separator = keys_of p n.buf start

  abbrev pair : ℕ → ℕ × ℕ
  pair = pair_at 8 n.buf p

  pair_key : (i : ℕ) → (pair i).0 ≡ keys_of p n.buf i
  unfolding pair_at
  pair_key i = refl

  up : (i j : ℕ) → i < j → j < n.buf.entries → keys_of p n.buf i < keys_of p n.buf j
  up = keys_of-IsAscending s 8 p n.buf h.node hp

  pub separator-between : (lo < separator) × (separator < hi)
  separator-between = (
    omega (arith, h.bounds 0 (omega arith), up 0 start some_low some_high),
    (h.bounds start some_high).1,
  )

  pub front-IsLeaf :
      Turns start (n.buf.entries - start)
      → (link : ℕ)
      → IsLeaf s p
          (record { type = n.type; link = link; buf = delete_data n.buf start })
          lo
          separator
          m
  unfolding pairs
  front-IsLeaf turns link =
      let le : start ≤ n.buf.entries = omega arith in
      let (suffix_kept, few, most) = delete_data-fields 8 n.buf start h.node.valid le turns in
      record {
        kind = h.kind;
        node = front-IsNodeBuffer s 8 p n.buf start h.node hp le turns;
        bounds = λ i lt.
            let inside : i < start = omega (arith, few) in
            let e = front-key s 8 p n.buf start h.node hp le turns i inside in
            (
              omega (arith, e, h.bounds i (omega arith)),
              omega (arith, e, up i start inside some_high),
            );
        maps = λ key low high.
            ap (λ q. lookup key (tabulate (pair_at 8 (delete_data n.buf start) p) q)) few
            ∙ ap (lookup key) (
                tabulate_ext (pair_at 8 (delete_data n.buf start) p) pair start
                  (front-pair s 8 p n.buf start h.node hp le turns))
            ∙ sym (lookup-tabulate_front pair key n.buf.entries start le (apart key high))
            ∙ h.maps key low (omega (arith, separator-between));
      }
    where
      apart :
          (key : ℕ) → key < separator → (i : ℕ) → start ≤ i → i < n.buf.entries → (pair i).0 ≢ key
      apart key high i le lt e = elim (Bool-cases (start == i)) [
        | inl same ↦
            absurd (omega (arith, ap (keys_of p n.buf) (==→eq start i same), pair_key i, e))
        | inr other ↦
            let beyond : start < i = ground (arith, ==→ne start i other) in
            absurd (omega (arith, up start i beyond lt, pair_key i, e))
      ]

  pub back-IsLeaf :
      (link : ℕ) (old : Bytes)
      → IsLeaf s p
          (record {
            type = leaf;
            link = link;
            buf = copy_data 8 n.buf (fresh old n.buf.suffix_bytes) start;
          })
          separator
          hi
          m
  unfolding pairs
  back-IsLeaf link old =
      let le : start ≤ n.buf.entries = omega arith in
      let (suffix_kept, few, most) = back-fields s 8 p n.buf start h.node hp le old in
      let up' : SortBuffer = copy_data 8 n.buf (fresh old n.buf.suffix_bytes) start in
      let total : start + (n.buf.entries - start) ≡ n.buf.entries = omega arith in
      record {
        kind = refl;
        node = back-IsNodeBuffer s 8 p n.buf start h.node hp le old some_high;
        bounds = λ i lt.
            let inside : i < n.buf.entries - start = omega (arith, few) in
            let e = back-key s 8 p n.buf start h.node hp le old i inside in
            (
              omega (arith, e, from_separator (start + i) (omega arith) (omega arith)),
              omega (arith, e, h.bounds (start + i) (omega arith)),
            );
        maps = λ key low high.
            ap (λ q. lookup key (tabulate (pair_at 8 up' p) q)) few
            ∙ ap (lookup key) (
                tabulate_ext (pair_at 8 up' p) (λ i. pair (start + i)) (n.buf.entries - start)
                  (back-pair s 8 p n.buf start h.node hp le old))
            ∙ sym (lookup-tabulate_back pair key (n.buf.entries - start) start (apart key low))
            ∙ ap (λ q. lookup key (tabulate pair q)) total
            ∙ h.maps key (omega (arith, separator-between)) high;
      }
    where
      apart : (key : ℕ) → separator ≤ key → (i : ℕ) → i < start → (pair i).0 ≢ key
      apart key low i lt e = absurd (omega (arith, up i start lt some_high, pair_key i, e))

      from_separator : (i : ℕ) → start ≤ i → i < n.buf.entries → separator ≤ keys_of p n.buf i
      from_separator i le lt = elim (Bool-cases (start == i)) [
        | inl same ↦ omega (arith, ap (keys_of p n.buf) (==→eq start i same))
        | inr other ↦
            let beyond : start < i = ground (arith, ==→ne start i other) in
            omega (arith, up start i beyond lt)
      ]
