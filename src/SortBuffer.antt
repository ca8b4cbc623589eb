-- ===== src/SortBuffer.antt =====
-- src/sortbuffer.h: a buffer of key-value pairs that is kept in order by a permutation. The header
-- word holds four 4-bit fields and, above them, twelve 4-bit slot numbers: number i names the slot
-- of the i-th smallest key, and the numbers from `entries` on name the free slots.
-- Cache-line flushes and fences have no effect on the contents and are left out.
pub mod Header
pub mod Valid
pub mod View
pub mod Put
pub mod Delete
pub mod Search
pub mod Fresh
pub mod Copy
pub mod AsMap
pub mod Update
pub mod FromKv
use combotree_new.Prelude.{
  ℕ, zero, suc, ◌+◌, ◌-◌, ◌*◌, ◌/◌, ◌%◌, ◌^◌, ◌≤◌, ◌<◌, Bool, true, false, Option, none, some, ltb,
  leb, ◌==◌, if◌then◌else◌,
}
use combotree_new.Bytes.{Bytes, copy, store}
use combotree_new.Word.{word_mod, bextr, circular_lshift, circular_rshift}
use combotree_new.Slots.{key_offset, value_offset, read_key, read_value, max_entries_of}
use combotree_new.Bisect.{bisect}

-- The members of the union's struct view; `header` is its other view. Each of the first four has 4
-- bits, `sorted_index` has 48.
pub record SortBuffer : Type 0 where
  pub prefix_bytes : ℕ
  pub suffix_bytes : ℕ
  pub entries : ℕ
  pub max_entries : ℕ
  pub sorted_index : ℕ
  pub buf : Bytes

unfoldable pub header : SortBuffer → ℕ
header b =
    b.prefix_bytes
    + b.suffix_bytes * 16
    + b.entries * 256
    + b.max_entries * 4096
    + b.sorted_index * 65536

unfoldable pub set_header : SortBuffer → ℕ → SortBuffer
set_header b w = record b {
  prefix_bytes = w % 16;
  suffix_bytes = w / 16 % 16;
  entries = w / 256 % 16;
  max_entries = w / 4096 % 16;
  sorted_index = w / 65536 % 2 ^ 48;
}

-- The slot numbers 11, 10, ..., 0, from the lowest: 0 is taken first.
abbrev pub initial_index : ℕ
initial_index = 0x0123456789AB

unfoldable pub is_full : SortBuffer → Bool
is_full b = leb b.max_entries b.entries

unfoldable pub is_empty : SortBuffer → Bool
is_empty b = b.entries == 0

unfoldable pub index : SortBuffer → ℕ → ℕ
unfolding header
index b sorted_idx = bextr (header b) (16 + sorted_idx * 4) 4

unfoldable pub key : SortBuffer → ℕ → ℕ → ℕ
key b idx key_prefix = read_key b.buf b.prefix_bytes b.suffix_bytes idx key_prefix

unfoldable pub sort_key : SortBuffer → ℕ → ℕ → ℕ
unfolding key index
sort_key b sorted_idx key_prefix = key b (index b sorted_idx) key_prefix

-- `Find`: the position of the key, or where it would go, and whether it is there.
unfoldable pub find : SortBuffer → ℕ → Option (ℕ × Bool)
unfolding sort_key bisect
find b target = bisect (λ i. sort_key b i target) target (b.entries + 1) 0 b.entries

-- The loop of `FindLE`, over the positions that are left. The result is one more than that of the
-- source, which returns -1 where every key is above the target.
unfoldable pub find_le_from : SortBuffer → ℕ → ℕ → ℕ → ℕ × Bool
unfolding sort_key
find_le_from b target i zero = (i, false)
find_le_from b target i (suc left) =
    let rest = find_le_from b target (i + 1) left in
    if sort_key b i target == target
    then (i + 1, true)
    else if ltb target (sort_key b i target)
    then (i, false)
    else rest

unfoldable pub find_le : SortBuffer → ℕ → ℕ × Bool
unfolding find_le_from
find_le b target = find_le_from b target 0 b.entries

unfoldable pub clear : SortBuffer → SortBuffer
clear b = record b { sorted_index = initial_index; entries = 0 }

unfoldable pub delete : SortBuffer → ℕ → SortBuffer
unfolding set_header header circular_rshift
delete b pos =
    let b' = set_header b (circular_rshift (header b) (16 + 4 * pos) 4) in
    record b' { entries = (b'.entries + 15) % 16 }

unfoldable pub delete_data : SortBuffer → ℕ → SortBuffer
unfolding set_header header circular_rshift
delete_data b start_pos =
    let b' =
      set_header b
        (circular_rshift (header b) (16 + 4 * start_pos) (4 * (b.entries - start_pos))) in
    record b' { entries = start_pos }

-- What depends on the template's `value_size`.
module _ (value_size : ℕ) where
  unfoldable pub value : SortBuffer → ℕ → ℕ
  value b idx = read_value b.buf value_size idx

  unfoldable pub sort_value : SortBuffer → ℕ → ℕ
  unfolding value index
  sort_value b sorted_idx = value b (index b sorted_idx)

  unfoldable pub put : SortBuffer → ℕ → ℕ → ℕ → SortBuffer
  unfolding store key_offset value_offset set_header header circular_lshift index
  put b pos new_key new_value =
      let target_idx = index b 11 in
      let buf' = store b.buf (value_offset value_size target_idx) new_value value_size in
      let buf'' = store buf' (key_offset b.suffix_bytes target_idx) new_key b.suffix_bytes in
      let b' =
        set_header (record b { buf = buf'' }) (circular_lshift (header b) (16 + 4 * pos) 4) in
      record b' { entries = (b'.entries + 1) % 16 }

  unfoldable pub update : SortBuffer → ℕ → ℕ → SortBuffer
  unfolding store value_offset index
  update b pos new_value = record b {
    buf = store b.buf (value_offset value_size (index b pos)) new_value value_size;
  }

  -- The loop of `CopyData`, for the sorted positions from `i` on; `total` is `entries`.
  unfoldable pub copy_slots : SortBuffer → ℕ → Bytes → ℕ → ℕ → Bytes
  unfolding copy key_offset value_offset index
  copy_slots b total dest i zero = dest
  copy_slots b total dest i (suc left) =
      let s = b.suffix_bytes in
      let slot = total - 1 - i in
      let dest' = copy dest (key_offset s slot) b.buf (key_offset s (index b i)) s in
      copy_slots b total
        (copy dest' (value_offset value_size slot) b.buf (value_offset value_size (index b i))
          value_size)
        (i + 1) left

  unfoldable pub copy_data : SortBuffer → SortBuffer → ℕ → SortBuffer
  unfolding copy_slots set_header header circular_lshift
  copy_data b dest start_pos =
      let count = b.entries - start_pos in
      let dest' = record dest {
        buf = copy_slots b b.entries dest.buf start_pos count;
        entries = count;
      } in
      set_header dest' (circular_lshift (header dest') 16 (4 * count))

-- A fresh buffer, as `CLevel::MemControl::NewNode` (src/clevel.h) sets it up; what the memory held
-- before is `old`. The capacity is that of the leaf view, for index nodes too.
unfoldable pub fresh : Bytes → ℕ → SortBuffer
unfolding max_entries_of
fresh old suffix_len = record {
  prefix_bytes = 8 - suffix_len;
  suffix_bytes = suffix_len;
  entries = 0;
  max_entries = max_entries_of 8 suffix_len % 16;
  sorted_index = initial_index;
  buf = old;
}
