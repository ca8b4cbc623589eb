-- ===== src/Bentry/Buffered.antt =====
-- `BEntry` of src/bentry.h and src/bentry.cc, in the default build of src/kvbuffer.h: an entry with an
-- unordered buffer in front of its tree. The timer of a flush is left out.
pub mod Flush
pub mod Append
pub mod Map
pub mod Update
use combotree_new.Prelude.{
  ℕ, zero, suc, ◌+◌, ◌-◌, ◌*◌, ◌/◌, ◌%◌, ◌^◌, ◌>>=◌, Bool, true, false, ◌&&◌, ◌||◌, not, Option,
  none, some, ◌==◌, if◌then◌else◌,
}
use combotree_new.Bytes.{Bytes}
use combotree_new.Status.{Status, ok}
use combotree_new.KvBuffer as Kv
use combotree_new.KvBuffer.{KvBuffer}
use combotree_new.SortBuffer.FromKv.{from_kv_buffer}
use combotree_new.Clevel.{
  MemControl, leaf, set_buf, set_link, new_node, has_setup, put_root, update_node, get_node,
  delete_node,
}

pub record Bentry : Type 0 where
  pub entry_key : ℕ
  pub root : ℕ
  pub buf : KvBuffer

-- The constructor for a key. `rest` is what the upper five bytes of `root_` held, and `old` what the
-- bytes of the buffer did.
unfoldable pub new_bentry : ℕ → ℕ → ℕ → Bytes → Bentry
unfolding Kv.fresh
new_bentry key prefix_len rest old = record {
  entry_key = key;
  root = rest * 256 + 1;
  buf = Kv.fresh old prefix_len;
}

-- The constructor for a pair.
unfoldable pub new_bentry_pair : ℕ → ℕ → ℕ → ℕ → Bytes → Bentry
unfolding new_bentry Kv.put
new_bentry_pair key value prefix_len rest old =
    let e = new_bentry key prefix_len rest old in record e { buf = Kv.put 8 e.buf 0 key value }

-- `CLevel::Setup` from a buffer: the memory and the root.
unfoldable pub setup_from : MemControl → KvBuffer → MemControl × ℕ
unfolding new_node set_buf set_link from_kv_buffer
setup_from mem src =
    let (made, r) = new_node mem leaf src.suffix_bytes in
    let filled = set_buf made r (from_kv_buffer (made.nodes r).buf src) in
    (set_link filled r ((filled.nodes r).link / 256 * 256 + 1), r % 2 ^ 48)

-- The loop of `FlushToCLevel`, from entry `i` on; `left` entries are left. The result is the memory
-- and the root.
unfoldable pub flush_from : ℕ → MemControl → ℕ → ℕ → KvBuffer → ℕ → ℕ → Option (MemControl × ℕ)
unfolding put_root Kv.key Kv.value
flush_from fuel mem root p b i zero = some (mem, root)
flush_from fuel mem root p b i (suc left) = do
  (after, r) ← put_root fuel mem root (Kv.key b i p) (Kv.value 8 b i)
  flush_from fuel after r p b (i + 1) left

-- `FlushToCLevel`
unfoldable pub flush : ℕ → MemControl → Bentry → Option (MemControl × Bentry)
unfolding has_setup setup_from flush_from Kv.clear
flush fuel mem e = do
  (after, r) ←
      if has_setup e.root
      then flush_from fuel mem e.root e.entry_key e.buf 0 e.buf.entries
      else some (setup_from mem e.buf)
  some (after, record e { root = r; buf = Kv.clear e.buf })

-- `Put`; the status is that of the buffer's `Put`.
unfoldable pub put : ℕ → MemControl → Bentry → ℕ → ℕ → Option (MemControl × Bentry × Status)
unfolding has_setup flush Kv.is_full Kv.put
put fuel mem e key value = do
  (after, e') ←
      if (not (has_setup e.root) && (e.buf.entries == (e.buf.max_entries - 1))) || Kv.is_full e.buf
      then flush fuel mem e
      else some (mem, e)
  some (after, record e' { buf = Kv.put 8 e'.buf e'.buf.entries key value }, ok)

-- `Update`, without its assertion, which the release build leaves out.
unfoldable pub update : ℕ → MemControl → Bentry → ℕ → ℕ → Option (MemControl × Bentry × Bool)
unfolding has_setup update_node Kv.find Kv.update
update fuel mem e key value =
    let (pos, exist) = Kv.find e.buf key in
    let below = (do (after, done) ← update_node fuel mem e.root key value; some (after, e, done)) in
    if exist
    then some (mem, record e { buf = Kv.update 8 e.buf pos value }, true)
    else if has_setup e.root
    then below
    else some (mem, e, false)

-- `Get`: the value where the result is true.
unfoldable pub get : ℕ → MemControl → Bentry → ℕ → Option (Option ℕ)
unfolding has_setup get_node Kv.find Kv.value
get fuel mem e key =
    let (pos, exist) = Kv.find e.buf key in
    if exist
    then some (some (Kv.value 8 e.buf pos))
    else if has_setup e.root
    then get_node fuel mem e.root key
    else some none

-- `Delete`: the memory, the entry, what `*value` is set to, and the result.
unfoldable pub delete : ℕ → MemControl → Bentry → ℕ → Option (MemControl × Bentry × Option ℕ × Bool)
unfolding has_setup delete_node Kv.find Kv.value Kv.delete
delete fuel mem e key =
    let (pos, exist) = Kv.find e.buf key in
    let below = (do
      (after, held, done) ← delete_node fuel mem e.root key
      some (after, e, held, done)) in
    if exist
    then some (mem, record e { buf = Kv.delete 8 e.buf pos }, some (Kv.value 8 e.buf pos), true)
    else if has_setup e.root
    then below
    else some (mem, e, none, false)
