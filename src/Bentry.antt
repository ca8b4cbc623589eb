-- ===== src/Bentry.antt =====
-- `NobufBEntry` of src/bentry.h, the entry of the B level in the default build (NO_ENTRY_BUF): a key
-- and the tree of all pairs from that key on. An operation runs on fuel as the tree's do.
pub mod Fresh
pub mod Map
pub mod Buffered
use combotree_new.Prelude.{
  ℕ, zero, suc, ◌+◌, ◌-◌, ◌*◌, ◌%◌, ◌≡◌, Bool, true, false, Option, none, some, ◌>>=◌, ◌==◌, not,
  if◌then◌else◌,
}
use combotree_new.Status.{Status, ok}
use combotree_new.Clevel.{
  MemControl, has_setup, setup, put_root, update_node, get_node, delete_node,
}

-- `root` is that of the member `clevel`. `rest` is the upper byte of `meta`, which only `SetInvalid`
-- writes.
pub record NobufBentry : Type 0 where
  pub entry_key : ℕ
  pub root : ℕ
  pub prefix_bytes : ℕ
  pub suffix_bytes : ℕ
  pub rest : ℕ

-- The constructor for a key; `rest` is what the memory held.
unfoldable pub new_entry : MemControl → ℕ → ℕ → ℕ → MemControl × NobufBentry
unfolding setup
new_entry mem key prefix_len rest =
    let (made, r) = setup mem (8 - prefix_len) in
    (
      made,
      record {
        entry_key = key;
        root = r;
        prefix_bytes = prefix_len;
        suffix_bytes = 8 - prefix_len;
        rest = rest;
      },
    )

-- The constructor for a pair.
unfoldable pub new_pair : ℕ → MemControl → ℕ → ℕ → ℕ → ℕ → Option (MemControl × NobufBentry)
unfolding new_entry put_root
new_pair fuel mem key value prefix_len rest = do
  let (made, e) = new_entry mem key prefix_len rest
  (after, r) ← put_root fuel made e.root key value
  some (after, record e { root = r })

-- `Put`. The tree's `Put` returns true, so the status is OK.
unfoldable pub put :
    ℕ → MemControl → NobufBentry → ℕ → ℕ → Option (MemControl × NobufBentry × Status)
unfolding has_setup setup put_root
put fuel mem e key value = do
  let (ready, r) = if has_setup e.root then (mem, e.root) else setup mem e.suffix_bytes
  (after, r') ← put_root fuel ready r key value
  some (after, record e { root = r' }, ok)

unfoldable pub update : ℕ → MemControl → NobufBentry → ℕ → ℕ → Option (MemControl × Bool)
unfolding has_setup update_node
update fuel mem e key value =
    if has_setup e.root then update_node fuel mem e.root key value else some (mem, false)

-- `Get`: the value where the result is true.
unfoldable pub get : ℕ → MemControl → NobufBentry → ℕ → Option (Option ℕ)
unfolding has_setup get_node
get fuel mem e key = if has_setup e.root then get_node fuel mem e.root key else some none

-- `Delete`: the memory, what `*value` is set to, and the result.
unfoldable pub delete : ℕ → MemControl → NobufBentry → ℕ → Option (MemControl × Option ℕ × Bool)
unfolding has_setup delete_node
delete fuel mem e key =
    if has_setup e.root then delete_node fuel mem e.root key else some (mem, none, false)

unfoldable pub set_invalid : NobufBentry → NobufBentry
set_invalid e = record e { prefix_bytes = 0; suffix_bytes = 0; rest = 0 }

-- meta != 0
unfoldable pub is_valid : NobufBentry → Bool
is_valid e = not ((e.prefix_bytes + e.suffix_bytes * 16 + e.rest * 256) == 0)
