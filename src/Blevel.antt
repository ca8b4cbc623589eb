-- ===== src/Blevel.antt =====
-- The search and the operations on an entry of `BLevel`, src/blevel.h and src/blevel.cc, in the
-- default build (BRANGE, with EXPAND_THREADS = 4 ranges). The locks of single entries are left out:
-- each operation holds that of its entry from start to end. An index that is found is one more here
-- than in the source, so that the `right` before the first entry needs no sign.
pub mod Find
pub mod Search
pub mod Expansion
use combotree_new.Prelude.{
  ℕ, zero, suc, ◌+◌, ◌-◌, ◌/◌, ◌%◌, ◌^◌, Bool, true, false, Option, none, some, ◌>>=◌, ltb, leb,
  ◌==◌, ◌&&◌, if◌then◌else◌,
}
use combotree_new.Status.{Status, failed}
use combotree_new.Clevel.{MemControl}
use combotree_new.Bentry.{NobufBentry, is_valid}
use combotree_new.Bentry

abbrev pub expand_threads : ℕ
expand_threads = 4

-- `start_key` is of 64 bits, the others of 32.
pub record Brange : Type 0 where
  pub start_key : ℕ
  pub logical_entry_start : ℕ
  pub physical_entry_start : ℕ
  pub entries : ℕ

-- `ranges` has one range more than there are threads, the end of the last.
pub record Blevel : Type 0 where
  pub entries : ℕ → NobufBentry
  pub ranges : ℕ → Brange
  pub clevel_mem : MemControl
  pub nr_entries : ℕ
  pub physical_nr_entries : ℕ
  pub size : ℕ
  pub interval_size : ℕ
  pub size_per_interval : ℕ → ℕ → ℕ

-- The loop that both searches of a range share, from range `n - 1` down; `none` is the assertion.
unfoldable pub last_range : (ℕ → Bool) → ℕ → Option ℕ
last_range test zero = none
last_range test (suc n) = if test n then some n else last_range test n

unfoldable pub find_brange : Blevel → ℕ → Option ℕ
unfolding last_range
find_brange b logical_idx =
    last_range (λ i. leb (b.ranges i).logical_entry_start logical_idx) expand_threads

unfoldable pub find_brange_by_key : Blevel → ℕ → Option ℕ
unfolding last_range
find_brange_by_key b key = last_range (λ i. leb (b.ranges i).start_key key) expand_threads

-- On uint64_t: an index before the range wraps.
unfoldable pub get_physical : Brange → ℕ → ℕ
get_physical range logical_idx =
    (range.physical_entry_start + (logical_idx + (2 ^ 64 - range.logical_entry_start))) % 2 ^ 64

unfoldable pub get_logical : Brange → ℕ → ℕ
get_logical range physical_idx =
    (range.logical_entry_start + (physical_idx + (2 ^ 64 - range.physical_entry_start))) % 2 ^ 64

-- physical_entry_start + entries - 1, on uint32_t.
unfoldable pub last_index : Brange → ℕ
last_index range = (range.physical_entry_start + range.entries + (2 ^ 32 - 1)) % 2 ^ 32

-- An index that the source puts into an `int`. From 2^30 on the sum of two of them may overflow, which
-- is undefined, and from 2^31 on the `int` is another number: the model has `none` there.
unfoldable pub to_int : ℕ → Option ℕ
to_int i = if ltb i (2 ^ 30) then some i else none

-- for(; left <= right && key_at(left) <= key; left++), with `n` entries from `left` to `right`.
unfoldable pub scan_up : (ℕ → ℕ) → ℕ → ℕ → ℕ → ℕ
scan_up key_at key left zero = left
scan_up key_at key left (suc n) =
    let rest = scan_up key_at key (left + 1) n in if leb (key_at left) key then rest else left

-- for(; left <= right && key_at(right) > key; right--), where `hi` is `right + 1`.
unfoldable pub scan_down : (ℕ → ℕ) → ℕ → ℕ → ℕ → ℕ
scan_down key_at key hi zero = hi
scan_down key_at key hi (suc n) =
    let rest = scan_down key_at key (hi - 1) n in if ltb key (key_at (hi - 1)) then rest else hi

-- `Find_` from `left` to `right`: one look at the middle, then a walk to either side.
unfoldable pub find_from_middle : (ℕ → ℕ) → ℕ → ℕ → ℕ → ℕ
unfolding scan_up scan_down
find_from_middle key_at key left right =
    let middle = (left + right) / 2 in
    if key_at middle == key
    then middle + 1
    else if ltb (key_at middle) key
    then scan_up key_at key (middle + 1) (right - middle)
    else scan_down key_at key middle (middle - left)

-- `Find_` between two physical indexes.
unfoldable pub find_between : (ℕ → ℕ) → ℕ → ℕ → ℕ → Option ℕ
unfolding to_int find_from_middle
find_between key_at key begin end = do
  left ← to_int begin
  right ← to_int end
  some (find_from_middle key_at key left right)

-- The physical bounds of a search for a key between two logical indexes.
unfoldable pub physical_begin : Blevel → ℕ → ℕ → ℕ
unfolding get_physical
physical_begin b range begin =
    if leb (b.ranges range).logical_entry_start begin
    then get_physical (b.ranges range) begin
    else (b.ranges range).physical_entry_start

unfoldable pub physical_end : Blevel → ℕ → ℕ → ℕ
unfolding get_physical last_index
physical_end b range end =
    if ltb end (b.ranges (range + 1)).logical_entry_start
    then get_physical (b.ranges range) end
    else last_index (b.ranges range)

-- `Find_`: the range of the key, and the index of the entry.
unfoldable pub find : Blevel → ℕ → ℕ → ℕ → Option (ℕ × ℕ)
unfolding find_brange_by_key find_between physical_begin physical_end
find b key begin end = do
  range ← find_brange_by_key b key
  idx ←
      find_between (λ i. (b.entries i).entry_key) key (physical_begin b range begin)
        (physical_end b range end)
  some (range, idx)

unfoldable pub set_entry : Blevel → ℕ → NobufBentry → Blevel
set_entry b idx e = record b { entries = λ i. if i == idx then e else b.entries i }

-- The counter of the interval in which an entry lies.
unfoldable pub set_interval : Blevel → ℕ → ℕ → (ℕ → ℕ) → Blevel
set_interval b range idx f =
    let k = (idx - (b.ranges range).physical_entry_start) / b.interval_size in
    record b {
      size_per_interval = λ i j.
          if i == range && (j == k) then f (b.size_per_interval i j) else b.size_per_interval i j;
    }

unfoldable pub put_entry : ℕ → Blevel → ℕ → ℕ → ℕ → ℕ → Option (Blevel × Status)
unfolding is_valid Bentry.put set_entry set_interval
put_entry fuel b key value range idx =
    let changed = (do
      (mem, e, ret) ← Bentry.put fuel b.clevel_mem (b.entries idx) key value
      let c = record (set_entry b idx e) { clevel_mem = mem; size = b.size + 1 }
      some (set_interval c range idx (λ n. n + 1), ret)) in
    if is_valid (b.entries idx) then changed else some (b, failed)

unfoldable pub update_entry : ℕ → Blevel → ℕ → ℕ → ℕ → Option (Blevel × Bool)
unfolding is_valid Bentry.update
update_entry fuel b key value idx =
    let changed = (do
      (mem, ret) ← Bentry.update fuel b.clevel_mem (b.entries idx) key value
      some (record b { clevel_mem = mem }, ret)) in
    if is_valid (b.entries idx) then changed else some (b, false)

unfoldable pub get_entry : ℕ → Blevel → ℕ → ℕ → Option (Option ℕ)
unfolding is_valid Bentry.get
get_entry fuel b key idx =
    let found = Bentry.get fuel b.clevel_mem (b.entries idx) key in
    if is_valid (b.entries idx) then found else some none

-- The sizes go down whatever the entry's `Delete` returns.
unfoldable pub delete_entry : ℕ → Blevel → ℕ → ℕ → ℕ → Option (Blevel × Option ℕ × Bool)
unfolding is_valid Bentry.delete set_interval
delete_entry fuel b key range idx =
    let changed = (do
      (mem, old, ret) ← Bentry.delete fuel b.clevel_mem (b.entries idx) key
      let c = record b { clevel_mem = mem; size = b.size - 1 }
      some (set_interval c range idx (λ n. n - 1), old, true)) in
    if is_valid (b.entries idx) then changed else some (b, none, false)

-- The operations for a key between two logical indexes.
unfoldable pub put : ℕ → Blevel → ℕ → ℕ → ℕ → ℕ → Option (Blevel × Status)
unfolding find put_entry
put fuel b key value begin end = do
  (range, idx) ← find b key begin end
  put_entry fuel b key value range (idx - 1)

unfoldable pub update : ℕ → Blevel → ℕ → ℕ → ℕ → ℕ → Option (Blevel × Bool)
unfolding find update_entry
update fuel b key value begin end = do
  (range, idx) ← find b key begin end
  update_entry fuel b key value (idx - 1)

unfoldable pub get : ℕ → Blevel → ℕ → ℕ → ℕ → Option (Option ℕ)
unfolding find get_entry
get fuel b key begin end = do (range, idx) ← find b key begin end; get_entry fuel b key (idx - 1)

unfoldable pub delete : ℕ → Blevel → ℕ → ℕ → ℕ → Option (Blevel × Option ℕ × Bool)
unfolding find delete_entry
delete fuel b key begin end = do
  (range, idx) ← find b key begin end
  delete_entry fuel b key range (idx - 1)
