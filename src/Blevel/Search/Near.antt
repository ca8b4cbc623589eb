-- ===== src/Blevel/Search/Near.antt =====
-- `Get` through the B level of src/blevel.cc and the tree of the entry that the search ends at.
use combotree_new.Prelude.{
  ℕ, ◌+◌, ◌-◌, ◌≤◌, ◌<◌, ◌≡◌, ◌^◌, refl, arith, ap, ◌∙◌, subst, true, Option, some, ltb, leb, ◌==◌,
  leb→le, leb→lt, ==→eq, ==→ne, Bool-cases, inl, inr, if-true, ltb→lt,
}
use combotree_new.Word.{word_mod}
use combotree_new.Clevel.{has_setup}
use combotree_new.Clevel.Tree.{Holds, get_node-Holds}
use combotree_new.Bentry.{is_valid}
use combotree_new.Bentry
use combotree_new.Blevel.{
  Blevel, Brange, find, find_between, find_brange_by_key, get_physical, last_index, to_int,
  get_entry, physical_begin, physical_end,
}
use combotree_new.Blevel
use combotree_new.Blevel.Find.{AscendsBetween, IsLastLe, find_between-IsLastLe, to_int-small}
use combotree_new.Blevel.Search.{find_near_pos, get_near_pos, physical_pos, walk_near}
use combotree_new.Blevel.Search.Agree.{walk_near-IsLastLe}

abbrev pub entry_keys : Blevel → ℕ → ℕ
entry_keys b i = (b.entries i).entry_key

abbrev pub first_of : Blevel → ℕ → ℕ
first_of b r = (b.ranges r).physical_entry_start

abbrev pub last_of : Blevel → ℕ → ℕ
last_of b r = (b.ranges r).physical_entry_start + (b.ranges r).entries - 1

-- A range with entries in the order of their keys, whose logical indexes the next range goes on from.
pub record IsRange (b : Blevel) (r : ℕ) : Type 0 where
  pub some_entry : 0 < (b.ranges r).entries
  pub small : (b.ranges r).physical_entry_start + (b.ranges r).entries ≤ 2 ^ 30
  pub logical_small : (b.ranges r).logical_entry_start < 2 ^ 32
  pub ascends : AscendsBetween (entry_keys b) (first_of b r) (last_of b r)
  pub contiguous :
      (b.ranges (r + 1)).logical_entry_start
      ≡ (b.ranges r).logical_entry_start + (b.ranges r).entries

-- The tree of an entry maps the key as `m` does, and the fuel is above its height.
pub record EntryMaps (fuel : ℕ) (b : Blevel) (i key : ℕ) (m : ℕ → Option ℕ) : Type 0 where
  pub owner : ℕ
  pub height : ℕ
  pub valid : is_valid (b.entries i) ≡ true
  pub set_up : has_setup (b.entries i).root ≡ true
  pub word : owner < word_mod
  pub deep : height < fuel
  pub holds : Holds b.clevel_mem owner height (b.entries i).root (λ k. k ≡ key) m

-- The entry of the range to which the key belongs maps it as `m` does.
abbrev pub RangeMaps : ℕ → Blevel → ℕ → ℕ → (ℕ → Option ℕ) → Type 0
RangeMaps fuel b r key m =
    (i : ℕ)
    → IsLastLe (entry_keys b) key (first_of b r) (last_of b r) (i + 1)
    → EntryMaps fuel b i key m

last_index-last_of : (b : Blevel) (r : ℕ) → IsRange b r → last_index (b.ranges r) ≡ last_of b r
unfolding last_index
last_index-last_of b r h = omega (arith, h.small, h.some_entry)

pub get_entry-EntryMaps :
    (fuel : ℕ) (b : Blevel) (i key : ℕ) (m : ℕ → Option ℕ)
    → EntryMaps fuel b i key m
    → get_entry fuel b key i ≡ some (m key)
unfolding get_entry Bentry.get
get_entry-EntryMaps fuel b i key m h =
    if-true (is_valid (b.entries i)) _ _ h.valid
    ∙ if-true (has_setup (b.entries i).root) _ _ h.set_up
    ∙ get_node-Holds h.height fuel b.clevel_mem h.owner (b.entries i).root (λ k. k ≡ key) m key
        h.holds h.word refl h.deep

module _ (fuel : ℕ) (b : Blevel) (r key : ℕ) (m : ℕ → Option ℕ)
    (ranged : find_brange_by_key b key ≡ some r) (range : IsRange b r)
    (first : entry_keys b (first_of b r) ≤ key) (maps : RangeMaps fuel b r key m) where
  physical_pos-within :
      (pos : ℕ)
      → (b.ranges r).logical_entry_start ≤ pos
      → (first_of b r ≤ physical_pos b r pos) × (physical_pos b r pos ≤ last_of b r)
  unfolding physical_pos get_physical last_index
  physical_pos-within pos le = elim (Bool-cases (ltb pos (b.ranges (r + 1)).logical_entry_start)) [
    | inl inside ↦
        let lt = ltb→lt pos (b.ranges (r + 1)).logical_entry_start inside in
        rw inside (
          omega (arith, range.small, range.logical_small, range.contiguous),
          omega (arith, range.small, range.logical_small, range.contiguous),
        )
    | inr beyond ↦
        rw beyond (
          omega (arith, range.small, range.some_entry),
          omega (arith, range.small, range.some_entry),
        )
  ]

  pub first_int : to_int (b.ranges r).physical_entry_start ≡ some (first_of b r)
  first_int = to_int-small (first_of b r) (omega (arith, range.small, range.some_entry))

  pub last_int : to_int (last_index (b.ranges r)) ≡ some (last_of b r)
  last_int =
      ap to_int (last_index-last_of b r range)
      ∙ to_int-small (last_of b r) (omega (arith, range.small, range.some_entry))

  -- For a key whose range has ascending entries, the first of them at most the key, where
  -- the tree of the key's entry maps it as `m` does: Get near any position from the range's first on ends,
  -- with what `m` maps the key to.
  pub get_near_pos-maps :
      (pos : ℕ)
      → (b.ranges r).logical_entry_start ≤ pos
      → get_near_pos fuel b key pos ≡ some (m key)
  unfolding get_near_pos find_near_pos
  get_near_pos-maps pos le =
      let (low, high) = physical_pos-within pos le in
      let near : ℕ =
        walk_near (entry_keys b) key (first_of b r) (last_of b r) (physical_pos b r pos) in
      let at =
        walk_near-IsLastLe (entry_keys b) key (first_of b r) (last_of b r) range.ascends first
          (physical_pos b r pos) low high (omega (arith, range.small)) in
      rw (ranged, first_int, last_int) (get_entry-EntryMaps fuel b near key m (maps near at))

  module _ (begin end : ℕ) (begins : begin < (b.ranges (r + 1)).logical_entry_start)
      (ends : (b.ranges r).logical_entry_start ≤ end)
      (ordered : physical_begin b r begin ≤ physical_end b r end)
      (low : entry_keys b (physical_begin b r begin) ≤ key)
      (high : physical_end b r end < last_of b r
        → key < entry_keys b (physical_end b r end + 1)) where
    bounds-within : (first_of b r ≤ physical_begin b r begin) × (physical_end b r end ≤ last_of b r)
    unfolding physical_begin physical_end get_physical last_index
    bounds-within = (
      (elim (Bool-cases (leb (b.ranges r).logical_entry_start begin)) [
        | inl inside ↦
            let le = leb→le (b.ranges r).logical_entry_start begin inside in
            rw inside (omega (arith, range.contiguous, range.small, range.logical_small))
        | inr before ↦ rw before (omega arith)
      ]),
      elim (Bool-cases (ltb end (b.ranges (r + 1)).logical_entry_start)) [
        | inl inside ↦
            let lt = ltb→lt end (b.ranges (r + 1)).logical_entry_start inside in
            rw inside (omega (arith, range.contiguous, range.small, range.logical_small))
        | inr beyond ↦ rw beyond (omega (arith, range.small, range.some_entry))
      ],
    )

    -- The last entry between the bounds is the last of the range.
    widened :
        (i : ℕ)
        → IsLastLe (entry_keys b) key (physical_begin b r begin) (physical_end b r end) i
        → IsLastLe (entry_keys b) key (first_of b r) (last_of b r) i
    widened i at = record {
      above_left = omega (arith, at.above_left, bounds-within);
      in_bounds = omega (arith, at.in_bounds, bounds-within);
      at_most = at.at_most;
      rest_above = λ j p q. elim (Bool-cases (leb j (physical_end b r end))) [
        | inl inside ↦ at.rest_above j p (leb→le j (physical_end b r end) inside)
        | inr beyond ↦
            let past = leb→lt j (physical_end b r end) beyond in
            let next = high (omega arith) in
            elim (Bool-cases ((physical_end b r end + 1) == j)) [
              | inl same ↦
                  subst (λ (t : ℕ). key < entry_keys b t) (==→eq (physical_end b r end + 1) j same)
                    next
              | inr other ↦
                  let lt : physical_end b r end + 1 < j =
                    ground (arith, ==→ne (physical_end b r end + 1) j other) in
                  omega (
                    arith,
                    next,
                    range.ascends (physical_end b r end + 1) j
                        (omega (arith, ordered, bounds-within)) lt q,
                  )
            ]
      ];
    }

    -- For a key whose range has ascending entries, the first of them at most the key, where the
    -- tree of the key's entry maps it as `m` does, and two logical indexes, the first before the
    -- end of the range and the second not before its start, whose entries enclose the key: Get
    -- between the two ends, with what `m` maps the key to.
    pub get-maps : Blevel.get fuel b key begin end ≡ some (m key)
    unfolding Blevel.get find
    get-maps =
        let (idx, found, at) =
          find_between-IsLastLe (entry_keys b) key (physical_begin b r begin) (physical_end b r end)
            (λ i j p q t.
              range.ascends i j (omega (arith, bounds-within)) q (omega (arith, bounds-within)))
            ordered (omega (arith, bounds-within, range.small, range.some_entry)) low in
        let back : idx ≡ idx - 1 + 1 = omega (arith, at.above_left) in
        rw (ranged, found)
          (get_entry-EntryMaps fuel b (idx - 1) key m (
            maps (idx - 1) (
              subst (λ (i : ℕ). IsLastLe (entry_keys b) key (first_of b r) (last_of b r) i) back
                (widened idx at))))
