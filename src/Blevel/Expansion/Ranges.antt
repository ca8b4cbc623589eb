-- ===== src/Blevel/Expansion/Ranges.antt =====
-- The ranges that src/blevel.cc lays over a filled level are as the searches need them.
pub mod Near
use combotree_new.Prelude.{
  ℕ, zero, suc, ◌+◌, ◌-◌, ◌≤◌, ◌<◌, ◌≡◌, ◌^◌, ◌%◌, refl, arith, ap, ◌∙◌, sym, some, ltb, ◌==◌,
  Bool-cases, inl, inr, ==→eq, ==→ne, ne→==, leb, leb→le, leb→lt, if-false,
}
use combotree_new.Blevel.{Blevel, Brange, expand_threads, find_brange_by_key}
use combotree_new.Blevel.Find.{AscendsBetween, IsLastLe, find_brange_by_key-last}
use combotree_new.Blevel.Search.Near.{IsRange, entry_keys, first_of, last_of}
use combotree_new.Blevel.Expansion.{range_entries, range_start, set_ranges}

range_entries-pos : (count i : ℕ) → 4 ≤ count → count ≤ 2 ^ 30 → 0 < range_entries count i
unfolding range_entries
range_entries-pos count i le small = elim (Bool-cases (ltb i (expand_threads - 1))) [
  | inl early ↦ rw early (omega arith)
  | inr late ↦ rw late (omega arith)
]

-- The ranges cover the level.
range_start-whole : (count : ℕ) → count ≤ 2 ^ 30 → range_start count 4 ≡ count
unfolding range_start range_entries
range_start-whole count small = omega arith

range_start-le : (count i j : ℕ) → i ≤ j → range_start count i ≤ range_start count j
unfolding range_start
range_start-le count i zero le = ap_le i le
  where
    ap_le : (i : ℕ) → i ≤ 0 → range_start count i ≤ 0
    ap_le zero le = omega arith
    ap_le (suc i) le = absurd (omega arith)
range_start-le count i (suc j) le = elim (Bool-cases (i == suc j)) [
  | inl same ↦ omega (arith, ap (range_start count) (==→eq i (suc j) same))
  | inr other ↦
      let lt : i ≤ j = ground (arith, ==→ne i (suc j) other) in
      omega (arith, range_start-le count i j lt)
]

module _ (b : Blevel) (count : ℕ) (small : count ≤ 2 ^ 30) where
  abbrev ranged : Blevel
  ranged = set_ranges b count

  start_small : (i : ℕ) → i ≤ 4 → range_start count i % 2 ^ 32 ≡ range_start count i
  start_small i le = omega (arith, range_start-le count i 4 le, range_start-whole count small)

  range_at :
      (i : ℕ)
      → i < 4
      → ranged.ranges i ≡ record {
        start_key = (b.entries (range_start count i)).entry_key;
        logical_entry_start = range_start count i;
        physical_entry_start = range_start count i;
        entries = range_entries count i;
      }
  unfolding set_ranges
  range_at i lt =
      if-false (i == expand_threads) _ _ (ne→== i 4 (λ e. absurd (omega arith)))
      ∙ ap {B = Brange}
          (λ q. record {
            start_key = (b.entries (range_start count i)).entry_key;
            logical_entry_start = q;
            physical_entry_start = q;
            entries = range_entries count i;
          })
          (start_small i (omega arith))

  end_start : (ranged.ranges 4).logical_entry_start ≡ count
  unfolding set_ranges
  end_start = start_small 4 (omega arith) ∙ range_start-whole count small

  next_start :
      (i : ℕ) → i < 4 → (ranged.ranges (i + 1)).logical_entry_start ≡ range_start count (i + 1)
  next_start i lt = elim (Bool-cases ((i + 1) == 4)) [
    | inl end ↦
        ap (λ (q : ℕ). (ranged.ranges q).logical_entry_start) (==→eq (i + 1) 4 end)
        ∙ end_start
        ∙ sym (ap (range_start count) (==→eq (i + 1) 4 end) ∙ range_start-whole count small)
    | inr more ↦
        ap (λ r. r.logical_entry_start) (range_at (i + 1) (ground (arith, ==→ne (i + 1) 4 more)))
  ]

  range_start-next :
      (i : ℕ) → range_start count (i + 1) ≡ range_start count i + range_entries count i
  unfolding range_start
  range_start-next i = ap (range_start count) {x = i + 1} {y = suc i} (omega arith)

  module _ (full : 4 ≤ count) (up : AscendsBetween (entry_keys b) 0 (count - 1)) where
    start_zero : entry_keys b (range_start count 0) ≡ entry_keys b 0
    unfolding range_start
    start_zero = refl

    within : (i : ℕ) → i < 4 → range_start count i + range_entries count i ≤ count
    within i lt = omega (
      arith,
      range_start-next i,
      range_start-le count (i + 1) 4 (omega arith),
      range_start-whole count small,
    )

    set_ranges-IsRange : (i : ℕ) → i < 4 → IsRange ranged i
    unfolding set_ranges
    set_ranges-IsRange i lt =
        let at = range_at i lt in
        let start = ap (λ r. r.physical_entry_start) at in
        let first = ap (λ r. r.logical_entry_start) at in
        let many = ap (λ r. r.entries) at in
        let inside = within i lt in
        record {
          some_entry = omega (arith, many, range_entries-pos count i full small);
          small = omega (arith, start, many);
          logical_small = omega (arith, first);
          ascends = λ j k p q r. up j k (omega arith) q (omega (arith, start, many));
          contiguous = omega (arith, next_start i lt, first, many, range_start-next i);
        }

    -- The entries after a range are above a key that the later ranges start above.
    beyond_range :
        (r key j : ℕ)
        → r < 4
        → ((i : ℕ) → r < i → i < 4 → key < (ranged.ranges i).start_key)
        → range_start count r + range_entries count r ≤ j
        → j ≤ count - 1
        → key < entry_keys b j
    beyond_range r key j lt later past le = elim (Bool-cases ((r + 1) == 4)) [
      | inl end ↦ absurd (
          omega (
            arith,
            range_start-next r,
            range_start-whole count small,
            ap (range_start count) (==→eq (r + 1) 4 end),
          ))
      | inr more ↦
          let inner : r + 1 < 4 = ground (arith, ==→ne (r + 1) 4 more) in
          let above = later (r + 1) (omega arith) inner in
          let key_at = ap (λ q. q.start_key) (range_at (r + 1) inner) in
          elim (Bool-cases (range_start count (r + 1) == j)) [
            | inl same ↦
                omega (
                  arith,
                  above,
                  key_at,
                  ap (entry_keys b) (==→eq (range_start count (r + 1)) j same),
                )
            | inr other ↦
                let after : range_start count (r + 1) < j =
                  ground (arith, ==→ne (range_start count (r + 1)) j other, range_start-next r) in
                omega
                  (arith, above, key_at, up (range_start count (r + 1)) j (omega arith) after le)
          ]
    ]

    set_ranges-located :
        (key : ℕ)
        → entry_keys b 0 ≤ key
        → (r : ℕ) × (find_brange_by_key ranged key ≡ some r)
          × (r < 4)
          × IsRange ranged r
          × (entry_keys ranged (first_of ranged r) ≤ key)
          × ((i : ℕ)
              → IsLastLe (entry_keys ranged) key (first_of ranged r) (last_of ranged r) i
              → IsLastLe (entry_keys b) key 0 (count - 1) i)
    unfolding set_ranges
    set_ranges-located key low =
        let (r, e, lt, at_most, later) =
          find_brange_by_key-last ranged key
            (omega (arith, ap (λ q. q.start_key) (range_at 0 (omega arith)), start_zero, low)) in
        let at = range_at r lt in
        let start = ap (λ q. q.physical_entry_start) at in
        let many = ap (λ q. q.entries) at in
        (
          r,
          e,
          lt,
          set_ranges-IsRange r lt,
          omega (arith, at_most, ap (λ q. q.start_key) at, ap (entry_keys b) start),
          λ i last. record {
            above_left = omega (arith, last.above_left);
            in_bounds = omega (arith, last.in_bounds, start, many, within r lt);
            at_most = last.at_most;
            rest_above = λ j p q. elim (Bool-cases (leb j (last_of ranged r))) [
              | inl inside ↦ last.rest_above j p (leb→le j (last_of ranged r) inside)
              | inr beyond ↦
                  beyond_range r key j lt later
                    (omega (arith, leb→lt j (last_of ranged r) beyond, start, many)) q
            ];
          },
        )

    -- For a level with at least four entries, up to 2^30, their keys ascending, the first of them
    -- at most the key: with the ranges that Expansion lays over the entries, the range that is
    -- found for the key has ascending entries that go on without a gap, the first at most the key,
    -- and the key's entry in it is the key's entry in the whole level.
    pub set_ranges-finds :
        (key : ℕ)
        → entry_keys b 0 ≤ key
        → (r : ℕ) × (find_brange_by_key ranged key ≡ some r)
          × IsRange ranged r
          × (entry_keys ranged (first_of ranged r) ≤ key)
          × ((i : ℕ)
              → IsLastLe (entry_keys ranged) key (first_of ranged r) (last_of ranged r) i
              → IsLastLe (entry_keys b) key 0 (count - 1) i)
    set_ranges-finds key low =
        let (r, e, lt, range, first, widen) = set_ranges-located key low in
        (r, e, range, first, widen)
