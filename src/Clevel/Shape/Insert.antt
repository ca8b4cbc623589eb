-- ===== src/Clevel/Shape/Insert.antt =====
-- `PutChild` of src/clevel.cc, on an index node that has room: where the new child goes, and the bounds
-- of the children then.
use combotree_new.Prelude.{
  ℕ, zero, suc, ◌+◌, ◌-◌, ◌^◌, ◌≤◌, ◌<◌, ◌≡◌, refl, arith, ap, ◌∙◌, Bool, true, false, some, ltb,
  ◌==◌, ◌⊎◌, Bool-cases, inl, inr, ==→eq, ==→ne, lt→ltb, le→ltb, ltb→lt, ltb→le,
}
use combotree_new.Word.{word_mod}
use combotree_new.Bisect.{Locates}
use combotree_new.SortBuffer.{SortBuffer, sort_key, find, put}
use combotree_new.SortBuffer.Header.{up_source}
use combotree_new.SortBuffer.View.{pair_at}
use combotree_new.SortBuffer.Search.{find_total}
use combotree_new.SortBuffer.Put.{put_kept, put_new, put-fields, put-IsValid}
use combotree_new.SortBuffer.AsMap.{HasPrefix, sort_key-prefix}
use combotree_new.Clevel.{Node, get_child}
use combotree_new.Clevel.Shape.{
  IsRange, IsRange-HasPrefix, IsIndex, keys_of, keys_of-IsAscending, low_at, high_at, part-within,
}
use combotree_new.Clevel.Shape.Halves.{keys-IsSorted}

module _ (s p lo hi : ℕ) (n : Node) (r key child : ℕ) (range : IsRange s p lo hi)
    (h : IsIndex s p n lo hi) (room : n.buf.entries < n.buf.max_entries) (le : r ≤ n.buf.entries)
    (above : low_at (keys_of p n.buf) lo r < key)
    (below : key < high_at (keys_of p n.buf) hi n.buf.entries r) (small : child < 256 ^ 6) where
  abbrev keys : ℕ → ℕ
  keys = keys_of p n.buf

  hp : p < word_mod
  hp = range.owner

  up : (i j : ℕ) → i < j → j < n.buf.entries → keys i < keys j
  up = keys_of-IsAscending s 6 p n.buf h.node hp

  inside : (lo < key) × (key < hi)
  inside =
      let (low, mid, high) = part-within s p lo hi r n h hp range.some_key le in
      (omega (arith, low, above), omega (arith, high, below))

  pre : HasPrefix n.buf.suffix_bytes p key
  pre = rw (h.node.suffix) (IsRange-HasPrefix s p lo hi key range (omega (arith, inside)) inside.1)

  same_key : (i : ℕ) → sort_key n.buf i key ≡ keys i
  same_key i = sort_key-prefix 6 n.buf i p key h.node.valid hp pre

  before_place : (i : ℕ) → i < r → keys i < key
  before_place i lt = go r le above i lt
    where
      go : (r : ℕ) → r ≤ n.buf.entries → low_at keys lo r < key → (i : ℕ) → i < r → keys i < key
      go zero le above i lt = absurd (omega arith)
      go (suc r) le above i lt = elim (Bool-cases (i == r)) [
        | inl same ↦ omega (arith, ap keys (==→eq i r same))
        | inr other ↦
            let l : i < r = ground (arith, ==→ne i r other) in omega (arith, up i r l (omega arith))
      ]

  after_place : (i : ℕ) → r ≤ i → i < n.buf.entries → key < keys i
  after_place i le' lt = elim (Bool-cases (ltb r n.buf.entries)) [
    | inr none_left ↦ absurd (omega (arith, ltb→le r n.buf.entries none_left))
    | inl some_left ↦
        let first : key < keys r = rw some_left at below in
        elim (Bool-cases (r == i)) [
          | inl same ↦ omega (arith, ap keys (==→eq r i same))
          | inr other ↦
              let l : r < i = ground (arith, ==→ne r i other) in omega (arith, up r i l lt)
        ]
  ]

  -- The search ends at the child's place, without a hit.
  pub find-place : find n.buf key ≡ some (r, false)
  find-place = go (find_total 6 n.buf key h.node.valid h.node.sorted pre.0)
    where
      go :
          ((q : ℕ × Bool) × (find n.buf key ≡ some q)
            × Locates (λ i. sort_key n.buf i key) key n.buf.entries q)
          → find n.buf key ≡ some (r, false)
      go ((pos, true), e, at) = elim (Bool-cases (ltb pos r)) [
        | inl early ↦
            absurd (omega (arith, at.1, same_key pos, before_place pos (ltb→lt pos r early)))
        | inr late ↦
            absurd (omega (arith, at.1, same_key pos, after_place pos (ltb→le pos r late) at.0))
      ]
      go ((pos, false), e, at) = elim (Bool-cases (pos == r)) [
        | inl same ↦ e ∙ ap (λ (q : ℕ). some (q, false)) (==→eq pos r same)
        | inr other ↦ elim (Bool-cases (ltb pos r)) [
          | inl early ↦
              let l = ltb→lt pos r early in
              absurd (
                omega
                  (arith, at.2 pos (omega arith) (omega arith), same_key pos, before_place pos l))
          | inr late ↦
              let l : r < pos = ground (arith, ltb→le pos r late, ==→ne pos r other) in
              absurd (
                omega
                  (arith, at.1 r l, same_key r, after_place r (omega arith) (omega (arith, at.0))))
        ]
      ]

  abbrev pub grown : SortBuffer
  grown = put 6 n.buf r key child

  pub grown-fields :
      (grown.suffix_bytes ≡ n.buf.suffix_bytes)
      × (grown.max_entries ≡ n.buf.max_entries)
      × (grown.entries ≡ n.buf.entries + 1)
  grown-fields =
      let (pre_kept, suffix_kept, more, most) =
        put-fields 6 n.buf r key child h.node.valid room le in
      (suffix_kept, most, more)

  kept :
      (i j : ℕ)
      → i < n.buf.entries + 1
      → j < n.buf.entries
      → up_source r 1 i ≡ j
      → pair_at 6 grown p i ≡ pair_at 6 n.buf p j
  kept i j = put_kept 6 n.buf r key child h.node.valid room le p hp i j

  new_pair : pair_at 6 grown p r ≡ (key, child)
  new_pair = put_new 6 n.buf r key child h.node.valid room le p hp pre.0 pre.1 small

  pub key-before : (i : ℕ) → i < r → keys_of p grown i ≡ keys i
  unfolding pair_at
  key-before i lt = ap (λ q. q.0) (kept i i (omega arith) (omega arith) (ground arith))

  pub key-new : keys_of p grown r ≡ key
  unfolding pair_at
  key-new = ap (λ q. q.0) new_pair

  pub key-after : (i : ℕ) → r ≤ i → i < n.buf.entries → keys_of p grown (suc i) ≡ keys i
  unfolding pair_at
  key-after i le' lt = ap (λ q. q.0) (kept (suc i) i (omega arith) lt (ground arith))

  -- The keys before the place, at it and after it.
  Placed : ℕ → Type 0
  Placed i =
      ((i < r) × (keys_of p grown i ≡ keys i))
      ⊎ (((i ≡ r) × (keys_of p grown i ≡ key))
          ⊎ ((r < i) × (keys_of p grown i ≡ keys (i - 1)) × (i - 1 < n.buf.entries)))

  key-Placed : (i : ℕ) → i < n.buf.entries + 1 → Placed i
  unfolding Placed
  key-Placed i lt = elim (Bool-cases (ltb i r)) [
    | inl early ↦ let l = ltb→lt i r early in inl (l, key-before i l)
    | inr late ↦ elim (Bool-cases (i == r)) [
      | inl same ↦ let e = ==→eq i r same in inr (inl (e, ap (keys_of p grown) e ∙ key-new))
      | inr other ↦
          let l : r < i = ground (arith, ltb→le i r late, ==→ne i r other) in
          let back : i ≡ suc (i - 1) = omega arith in
          inr (
            inr (
              l,
              ap (keys_of p grown) back ∙ key-after (i - 1) (omega arith) (omega arith),
              omega arith,
            ))
    ]
  ]

  grown-up : (i j : ℕ) → i < j → j < n.buf.entries + 1 → keys_of p grown i < keys_of p grown j
  unfolding Placed
  grown-up i j lt hj = go (key-Placed i (omega arith)) (key-Placed j hj)
    where
      go : Placed i → Placed j → keys_of p grown i < keys_of p grown j
      go (inl (a, e)) (inl (b, f)) = omega (arith, up i j lt (omega arith))
      go (inl (a, e)) (inr (inl (b, f))) = omega (arith, before_place i a)
      go (inl (a, e)) (inr (inr (b, f, c))) = omega (arith, up i (j - 1) (omega arith) c)
      go (inr (inl (a, e))) (inl (b, f)) = absurd (omega arith)
      go (inr (inl (a, e))) (inr (inl (b, f))) = absurd (omega arith)
      go (inr (inl (a, e))) (inr (inr (b, f, c))) =
          omega (arith, after_place (j - 1) (omega arith) c)
      go (inr (inr (a, e, c))) (inl (b, f)) = absurd (omega arith)
      go (inr (inr (a, e, c))) (inr (inl (b, f))) = absurd (omega arith)
      go (inr (inr (a, e, c))) (inr (inr (b, f, d))) =
          omega (arith, up (i - 1) (j - 1) (omega arith) d)

  abbrev pub grown_node : Node
  grown_node = record { type = n.type; link = n.link; buf = grown }

  pub grown-IsIndex : IsIndex s p grown_node lo hi
  unfolding Placed
  grown-IsIndex =
      let (suffix_kept, most, more) = grown-fields in
      let valid = put-IsValid 6 n.buf r key child h.node.valid room le in
      record {
        kind = h.kind;
        node = record {
          valid = valid;
          sorted =
              keys-IsSorted 6 p grown valid hp λ i j lt hj. grown-up i j lt (omega (arith, more));
          suffix = suffix_kept ∙ h.node.suffix;
          capacity = most ∙ h.node.capacity;
        };
        bounds = λ i lt. go i (key-Placed i (omega (arith, more)));
      }
    where
      go : (i : ℕ) → Placed i → (lo < keys_of p grown i) × (keys_of p grown i < hi)
      go i (inl (a, e)) = let b = h.bounds i (omega arith) in (omega (arith, b), omega (arith, b))
      go i (inr (inl (a, e))) = (omega (arith, inside), omega (arith, inside))
      go i (inr (inr (a, e, c))) =
          let b = h.bounds (i - 1) c in (omega (arith, b), omega (arith, b))

  -- The children and their bounds.
  pub child-before : (i : ℕ) → i ≤ r → get_child grown_node i ≡ get_child n i
  unfolding get_child pair_at
  child-before zero lt = refl
  child-before (suc i) lt = ap (λ q. q.1) (kept i i (omega arith) (omega arith) (ground arith))

  pub child-new : get_child grown_node (suc r) ≡ child
  unfolding get_child pair_at
  child-new = ap (λ q. q.1) new_pair

  pub child-after :
      (i : ℕ) → r < i → i ≤ n.buf.entries → get_child grown_node (suc i) ≡ get_child n i
  unfolding get_child pair_at
  child-after zero lt le' = absurd (omega arith)
  child-after (suc i) lt le' =
      ap (λ q. q.1) (kept (suc i) i (omega arith) (omega arith) (ground arith))

  pub low-before : (i : ℕ) → i ≤ r → low_at (keys_of p grown) lo i ≡ low_at keys lo i
  low-before zero lt = refl
  low-before (suc i) lt = key-before i (omega arith)

  pub low-after :
      (i : ℕ) → r < i → i ≤ n.buf.entries → low_at (keys_of p grown) lo (suc i) ≡ low_at keys lo i
  low-after zero lt le' = absurd (omega arith)
  low-after (suc i) lt le' = key-after i (omega arith) (omega arith)

  pub high-before :
      (i : ℕ)
      → i < r
      → high_at (keys_of p grown) hi grown.entries i ≡ high_at keys hi n.buf.entries i
  high-before i lt =
      let (suffix_kept, most, more) = grown-fields in
      rw (lt→ltb i grown.entries (omega (arith, more)), lt→ltb i n.buf.entries (omega arith))
        (key-before i lt)

  pub high-place : high_at (keys_of p grown) hi grown.entries r ≡ key
  high-place =
      let (suffix_kept, most, more) = grown-fields in
      rw (lt→ltb r grown.entries (omega (arith, more))) key-new

  pub high-after :
      (i : ℕ)
      → r ≤ i
      → i ≤ n.buf.entries
      → high_at (keys_of p grown) hi grown.entries (suc i) ≡ high_at keys hi n.buf.entries i
  high-after i lt le' =
      let (suffix_kept, most, more) = grown-fields in
      elim (Bool-cases (ltb i n.buf.entries)) [
        | inl inner ↦
            let l = ltb→lt i n.buf.entries inner in
            rw (inner, lt→ltb (suc i) grown.entries (omega (arith, more))) (key-after i lt l)
        | inr last ↦
            let l = ltb→le i n.buf.entries last in
            rw (last, le→ltb (suc i) grown.entries (omega (arith, more))) refl
      ]
