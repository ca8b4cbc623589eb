-- ===== src/Blevel/Search.antt =====
-- The other searches for an entry in src/blevel.cc and src/blevel.h, and the operations through them.
pub mod Agree
pub mod Near
use combotree_new.Prelude.{
  ℕ, zero, suc, ◌+◌, ◌-◌, ◌*◌, ◌/◌, ◌%◌, ◌^◌, Bool, true, false, Option, none, some, ◌>>=◌, ltb,
  leb, ◌==◌, ◌&&◌, not, if◌then◌else◌,
}
use combotree_new.Status.{Status}
use combotree_new.Bisect.{bisect}
use combotree_new.Clevel.{has_setup}
use combotree_new.Blevel.{
  Blevel, Brange, expand_threads, last_range, find, find_brange_by_key, get_physical, last_index,
  to_int, put_entry, update_entry, get_entry, delete_entry,
}

-- The loop of `BinarySearch_` and of `FindByRange_`, whose indexes are of `int`: one more than the
-- index, as `find_between`.
unfoldable pub search_between : (ℕ → ℕ) → ℕ → ℕ → ℕ → Option ℕ
unfolding bisect to_int
search_between key_at key begin end = do
  left ← to_int begin
  right ← to_int end
  (pos, found) ← bisect key_at key (right + 2) left (right + 1)
  some (if found then pos + 1 else pos)

unfoldable pub find_by_range : Blevel → ℕ → ℕ → ℕ → Option ℕ
unfolding search_between
find_by_range b key range end =
    search_between (λ i. (b.entries i).entry_key) key (b.ranges range).physical_entry_start end

-- while (pos < end && entries_[pos + 1].entry_key <= key) pos ++, with `n` entries after `pos`.
unfoldable pub walk_up : (ℕ → ℕ) → ℕ → ℕ → ℕ → ℕ
walk_up key_at key pos zero = pos
walk_up key_at key pos (suc n) =
    let rest = walk_up key_at key (pos + 1) n in if leb (key_at (pos + 1)) key then rest else pos

-- while (pos > begin && entries_[pos].entry_key > key) pos --, with `n` entries from `begin`.
unfoldable pub walk_down : (ℕ → ℕ) → ℕ → ℕ → ℕ → ℕ
walk_down key_at key pos zero = pos
walk_down key_at key pos (suc n) =
    let rest = walk_down key_at key (pos - 1) n in if ltb key (key_at pos) then rest else pos

-- The walk of `FindNearPos_` between two physical indexes; `pos --` is on uint64_t.
unfoldable pub walk_near : (ℕ → ℕ) → ℕ → ℕ → ℕ → ℕ → ℕ
unfolding walk_up walk_down
walk_near key_at key begin end pos =
    let before = (pos + (2 ^ 64 - 1)) % 2 ^ 64 in
    if leb (key_at pos) key
    then walk_up key_at key pos (end - pos)
    else walk_down key_at key before (before - begin)

-- The physical position for a logical one, in the range of a key.
unfoldable pub physical_pos : Blevel → ℕ → ℕ → ℕ
unfolding get_physical last_index
physical_pos b range pos =
    if ltb pos (b.ranges (range + 1)).logical_entry_start
    then get_physical (b.ranges range) pos
    else last_index (b.ranges range)

-- `FindNearPos_`: the range of the key, and the index of the entry.
unfoldable pub find_near_pos : Blevel → ℕ → ℕ → Option (ℕ × ℕ)
unfolding find_brange_by_key walk_near physical_pos last_index to_int
find_near_pos b key pos = do
  range ← find_brange_by_key b key
  begin ← to_int (b.ranges range).physical_entry_start
  end ← to_int (last_index (b.ranges range))
  some (range, walk_near (λ i. (b.entries i).entry_key) key begin end (physical_pos b range pos))

-- The growing steps of `NearPosRange_`, up to `end` and down to 0, on fuel for the steps. The source's
-- `left` is negative where `right` is below the step.
unfoldable pub leap_up : ℕ → (ℕ → ℕ) → ℕ → ℕ → ℕ → ℕ → Option (ℕ × ℕ)
leap_up zero key_at key end step left = none
leap_up (suc fuel) key_at key end step left =
    let right = left + step in
    let rest = leap_up fuel key_at key end (step * 2) right in
    if ltb right end && leb (key_at right) key
    then rest
    else some (left, (if ltb end right then end else right))

unfoldable pub leap_down : ℕ → (ℕ → ℕ) → ℕ → ℕ → ℕ → Option (ℕ × ℕ)
leap_down zero key_at key step right = none
leap_down (suc fuel) key_at key step right =
    let left = right - step in
    let rest = leap_down fuel key_at key (step * 2) left in
    if ltb right step
    then some (0, right)
    else if ltb key (key_at left)
    then rest
    else some (left, right)

unfoldable pub leaps : (ℕ → ℕ) → ℕ → ℕ → ℕ → Option (ℕ × ℕ)
unfolding leap_up leap_down
leaps key_at key end pos = do
  (left, right) ←
      if leb (key_at pos) key
      then leap_up (end + 1) key_at key end 1 pos
      else leap_down (pos + 1) key_at key 1 pos
  some ((if ltb right left then right else left), right)

-- `NearPosRange_`: the physical position, and the bounds around the entry.
unfoldable pub near_pos_range : Blevel → ℕ → ℕ → Option (ℕ × ℕ × ℕ)
unfolding find_brange_by_key physical_pos leaps last_index
near_pos_range b key pos = do
  range ← find_brange_by_key b key
  let end = last_index (b.ranges range)
  let at = physical_pos b range pos
  (left, right) ← leaps (λ i. (b.entries i).entry_key) key end at
  some (at, left, right)

-- The operations on an expanding range. All but `PutRange` call `Find_`.
unfoldable pub put_range : ℕ → Blevel → ℕ → ℕ → ℕ → ℕ → Option (Blevel × Status)
unfolding find_by_range put_entry
put_range fuel b key value range end = do
  idx ← find_by_range b key range end
  put_entry fuel b key value range (idx - 1)

unfoldable pub update_range : ℕ → Blevel → ℕ → ℕ → ℕ → ℕ → Option (Blevel × Bool)
unfolding find update_entry
update_range fuel b key value range end = do
  (found, idx) ← find b key range end
  update_entry fuel b key value (idx - 1)

unfoldable pub get_range : ℕ → Blevel → ℕ → ℕ → ℕ → Option (Option ℕ)
unfolding find get_entry
get_range fuel b key range end = do
  (found, idx) ← find b key range end
  get_entry fuel b key (idx - 1)

unfoldable pub delete_range : ℕ → Blevel → ℕ → ℕ → ℕ → Option (Blevel × Option ℕ × Bool)
unfolding find delete_entry
delete_range fuel b key range end = do
  (found, idx) ← find b key range end
  delete_entry fuel b key found (idx - 1)

-- The operations near a logical position.
unfoldable pub put_near_pos : ℕ → Blevel → ℕ → ℕ → ℕ → Option (Blevel × Status)
unfolding find_near_pos put_entry
put_near_pos fuel b key value pos = do
  (range, idx) ← find_near_pos b key pos
  put_entry fuel b key value range idx

unfoldable pub update_near_pos : ℕ → Blevel → ℕ → ℕ → ℕ → Option (Blevel × Bool)
unfolding find_near_pos update_entry
update_near_pos fuel b key value pos = do
  (range, idx) ← find_near_pos b key pos
  update_entry fuel b key value idx

unfoldable pub get_near_pos : ℕ → Blevel → ℕ → ℕ → Option (Option ℕ)
unfolding find_near_pos get_entry
get_near_pos fuel b key pos = do (range, idx) ← find_near_pos b key pos; get_entry fuel b key idx

unfoldable pub delete_near_pos : ℕ → Blevel → ℕ → ℕ → Option (Blevel × Option ℕ × Bool)
unfolding find_near_pos delete_entry
delete_near_pos fuel b key pos = do
  (range, idx) ← find_near_pos b key pos
  delete_entry fuel b key range idx

-- `IsKeyExpanded`, by the two static arrays: the range, and the end where the key has been moved.
unfoldable pub is_key_expanded : Blevel → (ℕ → ℕ) → (ℕ → ℕ) → ℕ → Option (ℕ × Option ℕ)
unfolding find_brange_by_key
is_key_expanded b expanded_max_key expanded_entries key = do
  range ← find_brange_by_key b key
  let end = ((b.ranges range).physical_entry_start + expanded_entries range + (2 ^ 64 - 1)) % 2 ^ 64
  some (range, (if ltb key (expanded_max_key range) then some end else none))

-- `CountCLevel` over the first entries.
unfoldable pub count_clevel : Blevel → ℕ → ℕ
unfolding has_setup
count_clevel b zero = 0
count_clevel b (suc n) =
    let rest = count_clevel b n in if has_setup (b.entries n).root then rest + 1 else rest

-- Where no range starts at or below the index, the source reads before the array.
unfoldable pub has_prev_phy_idx : Blevel → ℕ → Option Bool
unfolding last_range
has_prev_phy_idx b phy_idx = do
  idx ← last_range (λ i. leb (b.ranges i).physical_entry_start phy_idx) expand_threads
  some (not (phy_idx == (b.ranges idx).physical_entry_start))
