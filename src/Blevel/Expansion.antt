-- ===== src/Blevel/Expansion.antt =====
-- How src/blevel.cc fills a level: pairs in the order of their keys go through a buffer of
-- BLEVEL_EXPAND_BUF_KEY = 4 pairs, and each full buffer becomes an entry. The memory of the level and of
-- its trees is that of `Blevel`; an address of an entry is its physical index.
pub mod Ranges
use combotree_new.Prelude.{
  ℕ, zero, suc, ◌+◌, ◌-◌, ◌*◌, ◌/◌, ◌%◌, ◌^◌, Bool, true, false, Option, none, some, ◌>>=◌, List,
  [], ◌∷◌, ltb, ◌==◌, if◌then◌else◌,
}
use combotree_new.Clevel.{MemControl}
use combotree_new.Bentry.{NobufBentry, new_entry}
use combotree_new.Bentry
use combotree_new.Blevel.{Blevel, Brange, expand_threads, set_entry}

-- BLEVEL_EXPAND_BUF_KEY
abbrev pub expand_buf_key : ℕ
expand_buf_key = 4

pub record ExpandData : Type 0 where
  pub new_addr : ℕ
  pub max_addr : ℕ
  pub key_buf : ℕ → ℕ
  pub value_buf : ℕ → ℕ
  pub size : ℕ
  pub entry_key : ℕ
  pub last_entry_key : ℕ
  pub buf_count : ℕ
  pub max_key : ℕ
  pub expanded_entries : ℕ

-- The constructor; the buffers hold what the memory held.
unfoldable pub new_data : ℕ → ℕ → ℕ → ℕ → (ℕ → ℕ) → (ℕ → ℕ) → ExpandData
new_data begin_addr end_addr first_entry_key last_entry_key keys values = record {
  new_addr = begin_addr;
  max_addr = end_addr;
  key_buf = keys;
  value_buf = values;
  size = 0;
  entry_key = first_entry_key;
  last_entry_key = last_entry_key;
  buf_count = 0;
  max_key = 0;
  expanded_entries = 0;
}

-- The leading bytes that two numbers share, where the lower `j + 1` are still to be looked at.
unfoldable pub shared_bytes : ℕ → ℕ → ℕ → ℕ
shared_bytes zero a b = 8
shared_bytes (suc j) a b =
    let rest = shared_bytes j a b in if a / 256 ^ j == b / 256 ^ j then rest else 7 - j

unfoldable pub common_prefix_bytes : ℕ → ℕ → ℕ
unfolding shared_bytes
common_prefix_bytes a b = shared_bytes 8 a b

-- The loop over the buffer from `i` on, with `n` pairs left. The values stand from the end down.
unfoldable pub put_buffer :
    ℕ → MemControl → NobufBentry → ExpandData → ℕ → ℕ → Option (MemControl × NobufBentry)
unfolding Bentry.put
put_buffer fuel mem e buf i zero = some (mem, e)
put_buffer fuel mem e buf i (suc n) = do
  (mem', e', ret) ← Bentry.put fuel mem e (buf.key_buf i) (buf.value_buf (expand_buf_key - i - 1))
  put_buffer fuel mem' e' buf (i + 1) n

-- `FlushToEntry` into the entry at `addr`.
unfoldable pub flush_to_entry :
    ℕ → MemControl → Blevel → ExpandData → ℕ → NobufBentry → Option (Blevel × ExpandData)
unfolding put_buffer set_entry
flush_to_entry fuel mem b buf addr e = do
  (mem', e') ← put_buffer fuel mem e buf 0 buf.buf_count
  some (record (set_entry b addr e') { clevel_mem = mem' }, record buf { buf_count = 0 })

-- A new entry at `new_addr` with what the buffer holds.
unfoldable pub add_entry : ℕ → Blevel → ExpandData → ℕ → Option (Blevel × ExpandData)
unfolding common_prefix_bytes new_entry flush_to_entry
add_entry fuel b buf next_key = do
  let prefix_len = common_prefix_bytes buf.entry_key next_key
  let (mem, e) = new_entry b.clevel_mem buf.entry_key prefix_len (b.entries buf.new_addr).rest
  (b', buf') ← flush_to_entry fuel mem b buf buf.new_addr e
  some
      (b', record buf' { new_addr = buf.new_addr + 1; expanded_entries = buf.expanded_entries + 1 })

-- Where no entry is left, the buffer goes to the last one.
unfoldable pub add_to_last : ℕ → Blevel → ExpandData → Option (Blevel × ExpandData)
unfolding flush_to_entry
add_to_last fuel b buf =
    flush_to_entry fuel b.clevel_mem b buf (buf.new_addr - 1) (b.entries (buf.new_addr - 1))

unfoldable pub push_pair : ExpandData → ℕ → ℕ → ExpandData
push_pair buf key value = record buf {
  key_buf = λ i. if i == buf.buf_count then key else buf.key_buf i;
  value_buf = λ i. if i == (expand_buf_key - buf.buf_count - 1) then value else buf.value_buf i;
  buf_count = buf.buf_count + 1;
  size = buf.size + 1;
}

-- The part of `ExpandPut_` where the buffer is full.
unfoldable pub empty_buffer : ℕ → Blevel → ExpandData → ℕ → Option (Blevel × ExpandData)
unfolding add_entry add_to_last
empty_buffer fuel b buf key = do
  let bound = if (buf.new_addr + 1) == buf.max_addr then buf.last_entry_key else key
  (b', buf') ←
      if ltb buf.new_addr buf.max_addr
      then (do (c, d) ← add_entry fuel b buf bound; some (c, record d { entry_key = key }))
      else add_to_last fuel b buf
  some (b', record buf' { max_key = key })

-- `ExpandPut_`
unfoldable pub expand_put : ℕ → Blevel → ExpandData → ℕ → ℕ → Option (Blevel × ExpandData)
unfolding empty_buffer push_pair
expand_put fuel b buf key value =
    if buf.buf_count == expand_buf_key
    then (do (b', buf') ← empty_buffer fuel b buf key; some (b', push_pair buf' key value))
    else some (b, push_pair buf key value)

-- `ExpandFinish_`
unfoldable pub expand_finish : ℕ → Blevel → ExpandData → Option (Blevel × ExpandData)
unfolding add_entry add_to_last
expand_finish fuel b buf =
    let flushed = (do
      (b', buf') ←
          if ltb buf.new_addr buf.max_addr
          then add_entry fuel b buf buf.last_entry_key
          else add_to_last fuel b buf
      some (b', record buf' { max_key = buf.last_entry_key })) in
    if buf.buf_count == 0 then some (b, buf) else flushed

unfoldable pub expand_all : ℕ → Blevel → ExpandData → List (ℕ × ℕ) → Option (Blevel × ExpandData)
unfolding expand_put
expand_all fuel b buf [] = some (b, buf)
expand_all fuel b buf ((k, x) ∷ rest) = do
  (b', buf') ← expand_put fuel b buf k x
  expand_all fuel b' buf' rest

-- The ranges over the first `count` entries; the last takes the rest. The fields are of uint32_t.
unfoldable pub range_entries : ℕ → ℕ → ℕ
range_entries count i =
    let range_size = count / expand_threads in
    (if ltb i (expand_threads - 1) then range_size else count - (expand_threads - 1) * range_size)
    % 2 ^ 32

-- `nr_entries_` before range `i`.

unfoldable pub range_start : ℕ → ℕ → ℕ
unfolding range_entries
range_start count zero = 0
range_start count (suc i) = range_start count i + range_entries count i

-- The counters of the intervals of a range, all but the last full.
unfoldable pub interval_count : ℕ → ℕ → ℕ → ℕ
interval_count interval_size entries j =
    let intervals = (entries + interval_size - 1) / interval_size in
    if (j + 1) == intervals
    then (entries - interval_size * (intervals - 1)) * expand_buf_key
    else interval_size * expand_buf_key

unfoldable pub set_ranges : Blevel → ℕ → Blevel
unfolding range_entries range_start interval_count
set_ranges b count =
    let share = count / expand_threads / 128 in
    let interval = if ltb share 4 then 4 else share in
    record b {
      interval_size = interval;
      nr_entries = count;
      ranges = λ i.
          if i == expand_threads
          then record {
            start_key = 2 ^ 64 - 1;
            logical_entry_start = range_start count expand_threads % 2 ^ 32;
            physical_entry_start = range_start count expand_threads % 2 ^ 32;
            entries = 2 ^ 32 - 1;
          }
          else record {
            start_key = (b.entries (range_start count i)).entry_key;
            logical_entry_start = range_start count i % 2 ^ 32;
            physical_entry_start = range_start count i % 2 ^ 32;
            entries = range_entries count i;
          };
      size_per_interval = λ i j. interval_count interval (range_entries count i) j;
    }

-- `Expansion` from a vector, with what the memory of the buffers held.
unfoldable pub expansion : ℕ → Blevel → (ℕ → ℕ) → (ℕ → ℕ) → List (ℕ × ℕ) → Option Blevel
unfolding new_data expand_all expand_finish set_ranges
expansion fuel b keys values [] = some b
expansion fuel b keys values (p ∷ rest) = do
  let buf = new_data 0 b.physical_nr_entries 0 (2 ^ 64 - 1) keys values
  (b', buf') ← expand_all fuel b buf (p ∷ rest)
  (b'', buf'') ← expand_finish fuel b' buf'
  some (record (set_ranges b'' buf''.expanded_entries) { size = b.size + buf''.size })
