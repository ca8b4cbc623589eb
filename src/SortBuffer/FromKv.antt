-- ===== src/SortBuffer/FromKv.antt =====
-- `FromKVBuffer` of src/sortbuffer.h in the default build.
use combotree_new.Prelude.{ℕ, zero, suc, ◌+◌, ◌-◌, ◌*◌, ◌%◌, ◌^◌}
use mathlib.Core.List.{foldr}
use combotree_new.Bytes.{copy}
use combotree_new.KvBuffer.{KvBuffer, sorted_index}
use combotree_new.SortBuffer.{SortBuffer}

-- (acc << 4) | i on 64 bits, for a slot number `i`, which fits the four bits that are free.
unfoldable pub push_index : ℕ → ℕ → ℕ
push_index i acc = acc * 16 % 2 ^ 64 + i

-- The first loop: the slot numbers from `i` on, of which `left` are left.
unfoldable pub push_free : ℕ → ℕ → ℕ → ℕ
unfolding push_index
push_free zero i acc = acc
push_free (suc left) i acc = push_free left (i + 1) (push_index i acc)

-- The second loop pushes the sorted indexes, from the last down.
unfoldable pub from_kv_buffer : SortBuffer → KvBuffer → SortBuffer
unfolding push_free push_index sorted_index copy
from_kv_buffer b src = record b {
  entries = src.entries;
  buf = copy b.buf 0 src.buf 0 112;
  sorted_index =
      foldr push_index (push_free (12 - src.entries) src.entries 0) (sorted_index src) % 2 ^ 48;
}
