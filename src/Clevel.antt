-- ===== src/Clevel.antt =====
-- `CLevel` of src/clevel.h and src/clevel.cc: a B+ tree whose nodes are sorted buffers, in a region
-- of memory from which nodes are only ever taken. An address is the offset from `base_addr_`, as the
-- tree stores it in six bytes. The walk down and `Put` run on fuel, one step for a level of the tree.
pub mod Tree
pub mod Setup
pub mod Shape
pub mod Change
pub mod Delete
pub mod Put
pub mod Insert
pub mod Write
use combotree_new.Prelude.{
  ℕ, zero, suc, ◌+◌, ◌-◌, ◌*◌, ◌/◌, ◌%◌, ◌^◌, ◌>>=◌, ◌&&◌, Bool, true, false, Option, none, some,
  ◌==◌, not, if◌then◌else◌,
}
use combotree_new.SortBuffer.{
  SortBuffer, fresh, find, find_le, sort_key, sort_value, put, update, delete, copy_data,
  delete_data,
}

pub data NodeType : Type 0 where
  invalid : NodeType
  index_node : NodeType
  leaf : NodeType

unfoldable pub is_leaf : NodeType → Bool
is_leaf leaf = true
is_leaf index_node = false
is_leaf invalid = false

unfoldable pub is_index : NodeType → Bool
is_index leaf = false
is_index index_node = true
is_index invalid = false

-- `link` is the number in the six bytes of the union: `next` of a leaf, where an odd number means
-- NULL, and `first_child` of an index node.
pub record Node : Type 0 where
  pub type : NodeType
  pub link : ℕ
  pub buf : SortBuffer

pub record MemControl : Type 0 where
  pub nodes : ℕ → Node
  pub cur_addr : ℕ

unfoldable pub set_node : MemControl → ℕ → Node → MemControl
set_node mem a n = record mem { nodes = λ b. if b == a then n else mem.nodes b }

unfoldable pub set_buf : MemControl → ℕ → SortBuffer → MemControl
unfolding set_node
set_buf mem a b = set_node mem a (record (mem.nodes a) { buf = b })

-- memcpy into `next` or `first_child`; `SetNext`.
unfoldable pub set_link : MemControl → ℕ → ℕ → MemControl
unfolding set_node
set_link mem a l = set_node mem a (record (mem.nodes a) { link = l % 2 ^ 48 })

-- `NewNode`; what it does not set keeps what the memory held. sizeof(Node) is 128.
unfoldable pub new_node : MemControl → NodeType → ℕ → MemControl × ℕ
unfolding set_node fresh
new_node mem type suffix_len =
    let a = mem.cur_addr in
    let n = record (mem.nodes a) { type = type; buf = fresh (mem.nodes a).buf.buf suffix_len } in
    (record (set_node mem a n) { cur_addr = a + 128 }, a)

-- `GetChild`, with `pos` counted from the first child.
unfoldable pub get_child : Node → ℕ → ℕ
unfolding sort_value
get_child n zero = n.link
get_child n (suc pos) = sort_value 6 n.buf pos

unfoldable pub get_next : Node → Option ℕ
get_next n = if n.link % 2 == 1 then none else some n.link

-- `FindLeaf` from address `a`. `find_le` is one more than `FindLE`, so it is the child's number.
unfoldable pub find_leaf : ℕ → MemControl → ℕ → ℕ → Option ℕ
unfolding is_leaf find_le get_child
find_leaf zero mem a key = none
find_leaf (suc fuel) mem a key =
    let n = mem.nodes a in
    let rest = find_leaf fuel mem (get_child n (find_le n.buf key).0) key in
    if is_leaf n.type then some a else rest

-- `FindHead`
unfoldable pub find_head : ℕ → MemControl → ℕ → Option ℕ
unfolding is_leaf get_child
find_head zero mem a = none
find_head (suc fuel) mem a =
    let n = mem.nodes a in
    let rest = find_head fuel mem (get_child n 0) in if is_leaf n.type then some a else rest

-- `PutChild` of the index node at `a`, for the child at `child`.
unfoldable pub put_child : MemControl → ℕ → ℕ → ℕ → Option MemControl
unfolding find put set_buf
put_child mem a key child = do
  at ← find (mem.nodes a).buf key
  some (set_buf mem a (put 6 (mem.nodes a).buf at.0 key child))

-- The new leaf of a split takes the upper half and the place behind the leaf at `a`.
unfoldable pub upper_leaf : MemControl → ℕ → MemControl × ℕ
unfolding new_node set_buf set_link copy_data
upper_leaf mem a =
    let old = mem.nodes a in
    let (made, n) = new_node mem leaf old.buf.suffix_bytes in
    let copied = set_buf made n (copy_data 8 old.buf (made.nodes n).buf (old.buf.entries / 2)) in
    (set_link copied n old.link, n)

-- SetNext, then DeleteData of the half that was copied.
unfoldable pub lower_leaf : MemControl → ℕ → ℕ → MemControl
unfolding set_link set_buf delete_data
lower_leaf mem a n =
    let linked = set_link mem a n in
    set_buf linked a (delete_data (linked.nodes a).buf ((linked.nodes a).buf.entries / 2))

-- A new root over the node at `a`, and `n` above the given key.
unfoldable pub new_root : MemControl → ℕ → ℕ → ℕ → Option (MemControl × ℕ)
unfolding new_node set_link put_child
new_root mem a separator n = do
  let (made, r) = new_node mem index_node (mem.nodes a).buf.suffix_bytes
  over ← put_child (set_link made r a) r separator n
  some (over, r)

-- The split of the full leaf at `a` in `Node::Put`. The result is the root, or the new leaf.
unfoldable pub split_leaf : MemControl → ℕ → ℕ → Option ℕ → Option (MemControl × ℕ)
unfolding upper_leaf lower_leaf new_root put_child sort_key
split_leaf mem a key none = do
  let (made, n) = upper_leaf mem a
  rooted ← new_root made a (sort_key (made.nodes n).buf 0 key) n
  some (lower_leaf rooted.0 a n, rooted.1)
split_leaf mem a key (some parent) = do
  let (made, n) = upper_leaf mem a
  over ← put_child made parent (sort_key (made.nodes n).buf 0 key) n
  some (lower_leaf over a n, n)

-- The new index node of a split. Its first child is that of the key that moves up.
unfoldable pub upper_index : MemControl → ℕ → MemControl × ℕ
unfolding new_node set_buf set_link copy_data sort_value
upper_index mem a =
    let old = mem.nodes a in
    let half = (old.buf.entries + 1) / 2 in
    let (made, n) = new_node mem index_node old.buf.suffix_bytes in
    let copied = set_buf made n (copy_data 6 old.buf (made.nodes n).buf half) in
    (set_link copied n (sort_value 6 old.buf (half - 1)), n)

unfoldable pub lower_index : MemControl → ℕ → MemControl
unfolding set_buf delete_data
lower_index mem a =
    let b = (mem.nodes a).buf in set_buf mem a (delete_data b ((b.entries + 1) / 2 - 1))

unfoldable pub split_index : MemControl → ℕ → ℕ → Option ℕ → Option (MemControl × ℕ)
unfolding upper_index lower_index new_root put_child sort_key
split_index mem a key none = do
  let (made, n) = upper_index mem a
  let b = (made.nodes a).buf
  rooted ← new_root made a (sort_key b ((b.entries + 1) / 2 - 1) key) n
  some (lower_index rooted.0 a, rooted.1)
split_index mem a key (some parent) = do
  let (made, n) = upper_index mem a
  let b = (made.nodes a).buf
  over ← put_child made parent (sort_key b ((b.entries + 1) / 2 - 1) key) n
  some (lower_index over a, n)

-- `Node::Put` on a leaf.
unfoldable pub put_leaf : MemControl → ℕ → ℕ → ℕ → Option ℕ → Option (MemControl × ℕ)
unfolding find put update set_buf split_leaf
put_leaf mem a key value parent = do
  let b = (mem.nodes a).buf
  (pos, exists) ← find b key
  let grown = set_buf mem a (put 8 b pos key value)
  let c = (grown.nodes a).buf
  if exists
      then some (set_buf mem a (update 8 b pos value), a)
      else if c.entries == c.max_entries
      then split_leaf grown a key parent
      else some (grown, a)

-- `Node::Put` at the node at `a`: the address that is not `a` is a new node beside it, or a new root.
unfoldable pub put_node : ℕ → MemControl → ℕ → ℕ → ℕ → Option ℕ → Option (MemControl × ℕ)
unfolding is_leaf is_index find_le get_child put_leaf split_index
put_node zero mem a key value parent = none
put_node (suc fuel) mem a key value parent =
    let n = mem.nodes a in
    let child = get_child n (find_le n.buf key).0 in
    let below = put_node fuel mem child key value (some a) in
    let inner = (do
      (after, new_child) ← below
      let b = (after.nodes a).buf
      if not (new_child == child) && (b.entries == b.max_entries)
          then split_index after a key parent
          else some (after, a)) in
    if is_leaf n.type
    then put_leaf mem a key value parent
    else if is_index n.type
    then inner
    else some (mem, a)

-- `Node::Update`, with its result, in a build without assertions: the source asserts that the key is
-- found, and returns false behind that.
unfoldable pub update_node : ℕ → MemControl → ℕ → ℕ → ℕ → Option (MemControl × Bool)
unfolding find_leaf find update set_buf
update_node fuel mem a key value = do
  l ← find_leaf fuel mem a key
  (pos, exists) ← find (mem.nodes l).buf key
  if exists
      then some (set_buf mem l (update 8 (mem.nodes l).buf pos value), true)
      else some (mem, false)

-- `Node::Get`: the value where the result is true.
unfoldable pub get_node : ℕ → MemControl → ℕ → ℕ → Option (Option ℕ)
unfolding find_leaf find sort_value
get_node fuel mem a key = do
  l ← find_leaf fuel mem a key
  (pos, exists) ← find (mem.nodes l).buf key
  some (if exists then some (sort_value 8 (mem.nodes l).buf pos) else none)

-- `Node::Delete`: the memory, what `*value` is set to, and the result, which is true in any case.
unfoldable pub delete_node : ℕ → MemControl → ℕ → ℕ → Option (MemControl × Option ℕ × Bool)
unfolding find_leaf find sort_value delete set_buf
delete_node fuel mem a key = do
  l ← find_leaf fuel mem a key
  let b = (mem.nodes l).buf
  (pos, exists) ← find b key
  if exists
      then some (set_buf mem l (delete b pos), some (sort_value 8 b pos), true)
      else some (mem, none, true)

-- The six bytes `root_`; an odd number means NULL.
unfoldable pub has_setup : ℕ → Bool
has_setup root = root % 2 == 0

-- `Setup` for an empty tree: the memory and the root. `next[0] = 1` sets the lowest byte only.
unfoldable pub setup : MemControl → ℕ → MemControl × ℕ
unfolding new_node set_link
setup mem suffix_len =
    let (made, r) = new_node mem leaf suffix_len in
    (set_link made r ((made.nodes r).link / 256 * 256 + 1), r % 2 ^ 48)

-- `CLevel::Put`: the memory and the root.
unfoldable pub put_root : ℕ → MemControl → ℕ → ℕ → ℕ → Option (MemControl × ℕ)
unfolding put_node
put_root fuel mem root key value = do
  (after, new) ← put_node fuel mem root key value none
  some (after, (if root == new then root else new % 2 ^ 48))
