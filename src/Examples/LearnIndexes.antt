-- ===== src/Examples/LearnIndexes.antt =====
-- The tree of the examples of src/clevel.cc as the first entry of the four in the first range of a B
-- level, under a learned index that always predicts the position 1.
use combotree_new.Prelude.{
  ◌<◌, ◌+◌, ltb, ltb→lt, ltb→le, Bool-cases, inl, inr, ℕ, zero, suc, ◌*◌, ◌≤◌, ◌≡◌, arith, refl,
  subst, sym, some,
}
use combotree_new.Clevel.Shape.Frame.{Holds-restrict}
use combotree_new.Blevel.{
  Blevel, find_brange_by_key, expand_threads, last_range, physical_begin, physical_end,
  get_physical,
}
use combotree_new.Bentry.{is_valid}
use combotree_new.Clevel.{has_setup}
use combotree_new.Blevel
use combotree_new.Blevel.Search.Near.{
  IsRange, EntryMaps, RangeMaps, get-maps, entry_keys, first_of, last_of,
}
use combotree_new.Blevel.Find.{IsLastLe, find_brange_by_key-last}
use combotree_new.Blevel.Expansion.{set_ranges}
use combotree_new.Blevel.Expansion.Ranges.{set_ranges-finds}
use combotree_new.LearnIndex.{LearnIndex, SearchRange, get}
use combotree_new.LearnIndex.Get.{LearnIndex_get-maps}
use combotree_new.Examples.Clevels.{mem, map_of, Keys, tree-Holds}

abbrev shelf : Blevel
shelf = record {
  entries =
      λ i. record { entry_key = i * 100; root = 256; prefix_bytes = 6; suffix_bytes = 2; rest = 0 };
  ranges = λ i. record {
    start_key = i * 400;
    logical_entry_start = i * 4;
    physical_entry_start = i * 4;
    entries = 4;
  };
  clevel_mem = mem;
  nr_entries = 16;
  physical_nr_entries = 16;
  size = 2;
  interval_size = 4;
  size_per_interval = λ i j. 0;
}

abbrev learned : LearnIndex
learned = record { min_key = 5; max_key = 1500; nr_blevel_entry = 15 }

abbrev predicts_one : ℕ → SearchRange
predicts_one key = record { lo = 0; hi = 2; pos = 1 }

shelf-IsRange : IsRange shelf 0
shelf-IsRange = record {
  some_entry = omega arith;
  small = omega arith;
  logical_small = omega arith;
  ascends = λ i j p q r. omega arith;
  contiguous = refl;
}

first_entry-EntryMaps : EntryMaps 2 shelf 0 9 map_of
first_entry-EntryMaps =
    unfold is_valid in
    unfold has_setup in
    record {
      owner = 0;
      height = 1;
      valid = refl;
      set_up = refl;
      word = omega arith;
      deep = omega arith;
      holds =
          Holds-restrict mem 0 1 256 Keys (λ key. key ≡ 9) map_of
            (λ key e. subst Keys (sym e) (omega arith, refl)) tree-Holds;
    }

shelf-RangeMaps : RangeMaps 2 shelf 0 9 map_of
shelf-RangeMaps zero at = first_entry-EntryMaps
shelf-RangeMaps (suc i) at = absurd (omega (arith, at.at_most))

shelf-ranged : find_brange_by_key shelf 9 ≡ some 0
unfolding find_brange_by_key last_range
shelf-ranged = refl

get-maps_example : Blevel.get 2 shelf 9 0 2 ≡ some (some 90)
get-maps_example =
    get-maps 2 shelf 0 9 map_of shelf-ranged shelf-IsRange (omega arith) shelf-RangeMaps 0 2
      (omega arith) (omega arith)
      (unfold physical_begin in unfold physical_end in unfold get_physical in omega arith)
      (unfold physical_begin in unfold get_physical in omega arith)
      (unfold physical_end in unfold get_physical in λ lt. omega arith)

set_ranges-finds_example :
    (r : ℕ) × (find_brange_by_key (set_ranges shelf 10) 250 ≡ some r)
    × IsRange (set_ranges shelf 10) r
    × (entry_keys (set_ranges shelf 10) (first_of (set_ranges shelf 10) r) ≤ 250)
    × ((i : ℕ)
        → IsLastLe
            (entry_keys (set_ranges shelf 10))
            250
            (first_of (set_ranges shelf 10) r)
            (last_of (set_ranges shelf 10) r)
            i
        → IsLastLe (entry_keys shelf) 250 0 9 i)
set_ranges-finds_example =
    set_ranges-finds shelf 10 (omega arith) (omega arith) (λ i j p q r. omega arith) 250
      (omega arith)

ninth-EntryMaps : EntryMaps 2 (set_ranges shelf 10) 9 950 map_of
unfolding set_ranges
ninth-EntryMaps =
    unfold is_valid in
    unfold has_setup in
    record {
      owner = 0;
      height = 1;
      valid = refl;
      set_up = refl;
      word = omega arith;
      deep = omega arith;
      holds =
          Holds-restrict mem 0 1 256 Keys (λ key. key ≡ 950) map_of
            (λ key e. subst Keys (sym e) (omega arith, refl)) tree-Holds;
    }

-- The key 950 lies in the last range, which starts at 6, and the model predicts 1.
ninth-maps :
    (i : ℕ)
    → IsLastLe (entry_keys shelf) 950 0 9 (i + 1)
    → EntryMaps 2 (set_ranges shelf 10) i 950 map_of
ninth-maps i at =
    subst (λ (j : ℕ). EntryMaps 2 (set_ranges shelf 10) j 950 map_of) {x = 9} {y = i} is_ninth
      ninth-EntryMaps
  where
    is_ninth : 9 ≡ i
    is_ninth = elim (Bool-cases (ltb i 9)) [
      | inl before ↦
          absurd (omega (arith, at.rest_above 9 (omega (arith, ltb→lt i 9 before)) (omega arith)))
      | inr last ↦ omega (arith, ltb→le i 9 last, at.in_bounds)
    ]

LearnIndex_get-maps_example :
    get predicts_one 2 learned (set_ranges shelf 10) 950 ≡ some (map_of 950)
LearnIndex_get-maps_example =
    LearnIndex_get-maps predicts_one learned 2 shelf 10 950 map_of (omega arith) (omega arith)
      (λ i j p q r. omega arith) (omega arith) ninth-maps

find_brange_by_key-last_example :
    (r : ℕ) × (find_brange_by_key shelf 950 ≡ some r)
    × (r < expand_threads)
    × ((shelf.ranges r).start_key ≤ 950)
    × ((i : ℕ) → r < i → i < expand_threads → 950 < (shelf.ranges i).start_key)
find_brange_by_key-last_example = find_brange_by_key-last shelf 950 (omega arith)
