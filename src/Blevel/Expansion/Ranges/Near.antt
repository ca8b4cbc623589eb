-- ===== src/Blevel/Expansion/Ranges/Near.antt =====
-- The search near a position in src/blevel.cc, over the ranges that the filling of a level lays.
use combotree_new.Prelude.{
  ℕ, ◌+◌, ◌-◌, ◌≤◌, ◌<◌, ◌≡◌, ◌^◌, arith, ap, true, Option, some, ltb, leb, ◌==◌, Bool-cases, inl,
  inr, ==→eq, ==→ne, leb→le, leb→lt,
}
use combotree_new.Blevel.{Blevel, get_physical}
use combotree_new.Blevel.Find.{AscendsBetween, IsLastLe}
use combotree_new.Blevel.Search.{get_near_pos, find_near_pos, physical_pos, walk_near}
use combotree_new.Blevel.Search.Agree.{walk_up-IsLastLe}
use combotree_new.Blevel.Search.Near.{
  EntryMaps, entry_keys, first_of, last_of, get_entry-EntryMaps, get_near_pos-maps, first_int,
  last_int,
}
use combotree_new.Blevel.Expansion.{range_start, range_entries, set_ranges}
use combotree_new.Blevel.Expansion.Ranges.{
  ranged, range_at, next_start, range_start-next, within, set_ranges-located,
}

le→leb : (a b : ℕ) → a ≤ b → leb a b ≡ true
le→leb a b h = ground arith

-- The last index at or below a key lies behind any index whose key is at or below it.
IsLastLe-from :
    (key_at : ℕ → ℕ) (key pos first last i : ℕ)
    → pos ≤ first
    → first ≤ last
    → key_at first ≤ key
    → IsLastLe key_at key pos last i
    → IsLastLe key_at key first last i
IsLastLe-from key_at key pos first last i le inside low at = record {
  above_left = elim (Bool-cases (leb i first)) [
    | inl before ↦ absurd (omega (arith, low, at.rest_above first (leb→le i first before) inside))
    | inr behind ↦ leb→lt i first behind
  ];
  in_bounds = at.in_bounds;
  at_most = at.at_most;
  rest_above = at.rest_above;
}

module _ (b : Blevel) (count : ℕ) (small : count ≤ 2 ^ 30) (full : 4 ≤ count)
    (up : AscendsBetween (entry_keys b) 0 (count - 1)) where
  abbrev over : Blevel
  over = ranged b count small

  module _ (r key pos : ℕ) (lt : r < 4) (before : pos < (over.ranges r).logical_entry_start) where
    start : first_of over r ≡ range_start count r
    start = ap (λ q. q.physical_entry_start) (range_at b count small r lt)

    logical : (over.ranges r).logical_entry_start ≡ range_start count r
    logical = ap (λ q. q.logical_entry_start) (range_at b count small r lt)

    many : (over.ranges r).entries ≡ range_entries count r
    many = ap (λ q. q.entries) (range_at b count small r lt)

    last_inside : last_of over r ≤ count - 1
    last_inside = omega (arith, start, many, within b count small full up r lt)

    -- The ranges are at the same places in both orders, so a position before the range stays.
    pos-kept : physical_pos over r pos ≡ pos
    unfolding physical_pos get_physical
    pos-kept =
        let next : ltb pos (over.ranges (r + 1)).logical_entry_start ≡ true = ground (
          arith,
          before,
          logical,
          next_start b count small r lt,
          range_start-next b count small r,
        ) in
        rw next (omega (arith, start, logical, before, small, within b count small full up r lt))

    near : ℕ
    near = walk_near (entry_keys over) key (first_of over r) (last_of over r) pos

    near-IsLastLe :
        entry_keys over (first_of over r) ≤ key
        → first_of over r ≤ last_of over r
        → IsLastLe (entry_keys over) key (first_of over r) (last_of over r) (near + 1)
    unfolding near walk_near set_ranges
    near-IsLastLe low some_entry =
        let le : pos ≤ first_of over r = omega (arith, before, start, logical) in
        let lower : entry_keys over pos ≤ key = elim (Bool-cases (pos == first_of over r)) [
          | inl same ↦ omega (arith, ap (entry_keys over) (==→eq pos (first_of over r) same), low)
          | inr other ↦ omega (
            arith,
            up pos (first_of over r) (omega arith)
                (ground (arith, le, ==→ne pos (first_of over r) other))
                (omega (arith, some_entry, last_inside)),
            low,
          )
        ] in
        let here : leb (entry_keys over pos) key ≡ true = le→leb (entry_keys over pos) key lower in
        IsLastLe-from (entry_keys over) key pos (first_of over r) (last_of over r) (near + 1) le
          some_entry low
          (rw here (
            walk_up-IsLastLe (entry_keys over) key pos (last_of over r)
              (λ i j p q t. up i j (omega arith) q (omega (arith, last_inside))) lower
              (last_of over r - pos) pos (omega arith) (omega arith) lower))

  -- The search may start anywhere.
  pub get_near_pos-anywhere :
      (fuel key pos : ℕ) (m : ℕ → Option ℕ)
      → entry_keys b 0 ≤ key
      → ((i : ℕ) → IsLastLe (entry_keys b) key 0 (count - 1) (i + 1) → EntryMaps fuel over i key m)
      → get_near_pos fuel over key pos ≡ some (m key)
  unfolding get_near_pos find_near_pos near
  get_near_pos-anywhere fuel key pos m low maps =
      let (r, found, lt, range, first, widen) = set_ranges-located b count small full up key low in
      elim (Bool-cases (leb (over.ranges r).logical_entry_start pos)) [
        | inl behind ↦
            get_near_pos-maps fuel over r key m found range first
              (λ i at. maps i (widen (i + 1) at)) pos
              (leb→le (over.ranges r).logical_entry_start pos behind)
        | inr early ↦
            let before = leb→lt (over.ranges r).logical_entry_start pos early in
            let at = near-IsLastLe r key pos lt before first (omega (arith, range.some_entry)) in
            rw
              (
                found,
                first_int fuel over r key m found range first (λ i at. maps i (widen (i + 1) at)),
                last_int fuel over r key m found range first (λ i at. maps i (widen (i + 1) at)),
                pos-kept r key pos lt before,
              )
              (get_entry-EntryMaps fuel over (near r key pos lt before) key m
                (maps (near r key pos lt before) (widen (near r key pos lt before + 1) at)))
      ]
