-- ===== src/KvBuffer.antt =====
-- src/kvbuffer.h as it is built by default (BUF_SORT is off, CMakeLists.txt): a buffer whose pairs
-- stand in the order of insertion.
-- Cache-line flushes and fences have no effect on the contents and are left out.
pub mod Laws
pub mod Delete
pub mod Find
use combotree_new.Prelude.{
  ℕ, zero, suc, ◌+◌, ◌-◌, ◌*◌, ◌/◌, ◌%◌, ◌^◌, Bool, true, false, Option, none, some, List, [], ◌∷◌,
  ltb, leb, ◌==◌, if◌then◌else◌, get_or, drop, take, ◌&&◌,
}
use mathlib.Core.List.{foldr, reverse}
use combotree_new.Bytes.{Bytes, copy, store, load, bytes_of}
use combotree_new.Slots.{key_offset, value_offset, read_key, read_value, max_entries_of}

pub record KvBuffer : Type 0 where
  pub prefix_bytes : ℕ  -- 4 bits each
  pub suffix_bytes : ℕ
  pub entries : ℕ
  pub max_entries : ℕ
  pub buf : Bytes

unfoldable pub is_full : KvBuffer → Bool
is_full b = leb b.max_entries b.entries

unfoldable pub is_empty : KvBuffer → Bool
is_empty b = b.entries == 0

unfoldable pub key : KvBuffer → ℕ → ℕ → ℕ
key b idx key_prefix = read_key b.buf b.prefix_bytes b.suffix_bytes idx key_prefix

-- memcmp(pkey(i), &target, suffix_bytes) == 0
unfoldable pub same_suffix : KvBuffer → ℕ → ℕ → Bool
unfolding load bytes_of key_offset
same_suffix b i target =
    load b.buf (key_offset b.suffix_bytes i) b.suffix_bytes
    == load (bytes_of target) 0 b.suffix_bytes

-- The loop of `Find`, from the last entry down; `n` entries are left.
unfoldable pub find_below : KvBuffer → ℕ → ℕ → ℕ × Bool
unfolding same_suffix
find_below b target zero = (b.entries, false)
find_below b target (suc n) =
    let rest = find_below b target n in if same_suffix b n target then (n, true) else rest

unfoldable pub find : KvBuffer → ℕ → ℕ × Bool
unfolding find_below
find b target = find_below b target b.entries

-- The loop of `FindLE` from entry `i` on, with `left` entries left. As the source returns -1 where
-- it finds no entry, `index` and the result are one more than there.
unfoldable pub find_le_from : KvBuffer → ℕ → ℕ → ℕ → ℕ → ℕ → ℕ × Bool
unfolding key
find_le_from b target i index max_smaller_key zero = (index, false)
find_le_from b target i index max_smaller_key (suc left) =
    let cur_key = key b i target in
    let next = find_le_from b target (i + 1) (i + 1) cur_key left in
    let rest = find_le_from b target (i + 1) index max_smaller_key left in
    if cur_key == target
    then (i + 1, true)
    else if ltb cur_key target && ltb max_smaller_key cur_key
    then next
    else rest

unfoldable pub find_le : KvBuffer → ℕ → ℕ × Bool
unfolding find_le_from
find_le b target = find_le_from b target 0 0 0 b.entries

unfoldable pub clear : KvBuffer → KvBuffer
clear b = record b { entries = 0 }

-- std::sort of indexes by their keys.
unfoldable pub insert_by : (ℕ → ℕ) → ℕ → List ℕ → List ℕ
insert_by key_at i [] = i ∷ []
insert_by key_at i (j ∷ js) =
    if ltb (key_at i) (key_at j) then i ∷ j ∷ js else j ∷ insert_by key_at i js

-- The indexes below `n`, sorted.
unfoldable pub sort_by : (ℕ → ℕ) → ℕ → List ℕ
unfolding insert_by
sort_by key_at zero = []
sort_by key_at (suc n) = insert_by key_at n (sort_by key_at n)

-- `GetSortedIndex`: with one-byte suffixes it compares those bytes, else the keys for prefix 0.
unfoldable pub sorted_index : KvBuffer → List ℕ
unfolding sort_by key
sorted_index b =
    if b.suffix_bytes == 1
    then sort_by (λ i. b.buf i % 256) b.entries
    else sort_by (λ i. key b i 0) b.entries

-- What depends on the template's `value_size`.
module _ (value_size : ℕ) where
  unfoldable pub value : KvBuffer → ℕ → ℕ
  value b idx = read_value b.buf value_size idx

  unfoldable pub put : KvBuffer → ℕ → ℕ → ℕ → KvBuffer
  unfolding store key_offset value_offset
  put b pos new_key new_value =
      let buf' = store b.buf (key_offset b.suffix_bytes pos) new_key b.suffix_bytes in
      record b {
        buf = store buf' (value_offset value_size pos) new_value value_size;
        entries = (b.entries + 1) % 16;
      }

  unfoldable pub update : KvBuffer → ℕ → ℕ → KvBuffer
  unfolding store value_offset
  update b pos new_value = record b {
    buf = store b.buf (value_offset value_size pos) new_value value_size;
  }

  -- The last entry is moved into the gap.
  unfoldable pub delete : KvBuffer → ℕ → KvBuffer
  unfolding copy key_offset value_offset
  delete b pos =
      let s = b.suffix_bytes in
      let last = b.entries - 1 in
      let buf' = copy b.buf (key_offset s pos) b.buf (key_offset s last) s in
      let buf'' =
        copy buf' (value_offset value_size pos) buf' (value_offset value_size last) value_size in
      let moved = record b { buf = buf'' } in
      let b' = if (pos + 1) == b.entries then b else moved in
      record b' { entries = (b.entries + 15) % 16 }

  -- The loop of `CopyData`; `indexes` are those of the source's array from `i` on.
  unfoldable pub copy_slots : KvBuffer → Bytes → ℕ → List ℕ → Bytes
  unfolding copy key_offset value_offset
  copy_slots b dest i [] = dest
  copy_slots b dest i (from ∷ indexes) =
      let s = b.suffix_bytes in
      let dest' = copy dest (key_offset s i) b.buf (key_offset s from) s in
      copy_slots b
        (copy dest' (value_offset value_size i) b.buf (value_offset value_size from) value_size)
        (i + 1) indexes

  unfoldable pub copy_data : KvBuffer → KvBuffer → ℕ → List ℕ → KvBuffer
  unfolding copy_slots
  copy_data b dest start_pos indexes = record dest {
    buf = copy_slots b dest.buf 0 (drop start_pos (take b.entries indexes));
    entries = b.entries - start_pos;
  }

  -- `DeleteData` deletes the entries at the given indexes, the largest first.
  unfoldable pub delete_all : KvBuffer → List ℕ → KvBuffer
  unfolding delete
  delete_all b [] = b
  delete_all b (i ∷ is) = delete_all (delete b i) is

  unfoldable pub delete_data : KvBuffer → ℕ → List ℕ → KvBuffer
  unfolding delete_all insert_by
  delete_data b start_pos indexes =
      delete_all b
        (reverse (foldr (insert_by (λ i. i)) [] (drop start_pos (take b.entries indexes))))

-- A buffer as the constructors of `BEntry` (src/bentry.cc) set it up.
unfoldable pub fresh : Bytes → ℕ → KvBuffer
unfolding max_entries_of
fresh old prefix_len = record {
  prefix_bytes = prefix_len;
  suffix_bytes = 8 - prefix_len;
  entries = 0;
  max_entries = max_entries_of 8 (8 - prefix_len) % 16;
  buf = old;
}
