-- ===== src/Clevel/Shape/RootSplit.antt =====
-- The memory after a root of src/clevel.cc is split: the halves, and the new root over both.
use combotree_new.Prelude.{
  ℕ, ◌+◌, ◌-◌, ◌/◌, ◌%◌, ◌^◌, ◌<◌, ◌≡◌, ◌≢◌, refl, arith, ap, ◌∙◌, sym, false, none, some, ◌==◌,
  ne→==, ==-refl, ◌>>=◌,
}
use combotree_new.Bytes.{Bytes}
use combotree_new.SortBuffer.{
  SortBuffer, sort_key, sort_value, delete_data, copy_data, fresh, find, put,
}
use combotree_new.Clevel.{
  MemControl, Node, leaf, index_node, set_node, set_buf, set_link, new_node, new_root, put_child,
  split_leaf, split_index, upper_leaf, lower_leaf, upper_index, lower_index,
}
use combotree_new.Clevel.Shape.Split.{
  set_buf-at, set_buf-apart, set_buf-cur, upper_leaf-new, upper_leaf-other, upper_leaf-cur,
  lower_leaf-at, lower_leaf-apart, lower_leaf-cur,
}
use combotree_new.Clevel.Shape.SplitIndex.{
  upper_index-new, upper_index-other, upper_index-cur, lower_index-at, lower_index-apart,
  lower_index-cur,
}
use combotree_new.Clevel.Shape.Outcome.{with_child}

-- The root before it has its first key.
abbrev pub bare_root : ℕ → Bytes → ℕ → Node
bare_root a old s = record { type = index_node; link = a % 2 ^ 48; buf = fresh old s }

-- `Split` of a root: the node at `a` becomes `old`, the node after all others `new`, and the one
-- after that the root.
pub record IsRootSplit (mem : MemControl) (a separator : ℕ) (old new : Node) (after : MemControl)
    : Type 0 where
  pub cur : after.cur_addr ≡ mem.cur_addr + 128 + 128
  pub at_old : after.nodes a ≡ old
  pub at_new : after.nodes mem.cur_addr ≡ new
  pub at_root :
      after.nodes (mem.cur_addr + 128)
      ≡ with_child
          (bare_root a (mem.nodes (mem.cur_addr + 128)).buf.buf (mem.nodes a).buf.suffix_bytes)
          0
          separator
          mem.cur_addr
  pub other : (x : ℕ) → x ≢ a → x < mem.cur_addr → after.nodes x ≡ mem.nodes x

module _ (made : MemControl) (a separator n : ℕ) where
  abbrev pub root_buf : SortBuffer
  root_buf = fresh (made.nodes made.cur_addr).buf.buf (made.nodes a).buf.suffix_bytes

  abbrev bare : MemControl
  bare = set_link (new_node made index_node (made.nodes a).buf.suffix_bytes).0 made.cur_addr a

  abbrev pub rooted : MemControl
  rooted = set_buf bare made.cur_addr (put 6 root_buf 0 separator n)

  bare-root :
      bare.nodes made.cur_addr ≡ record { type = index_node; link = a % 2 ^ 48; buf = root_buf }
  unfolding new_node set_link set_node
  bare-root = rw (==-refl made.cur_addr) refl

  bare-other : (x : ℕ) → (x == made.cur_addr) ≡ false → bare.nodes x ≡ made.nodes x
  unfolding new_node set_link set_node
  bare-other x e = rw e refl

  bare-cur : bare.cur_addr ≡ made.cur_addr + 128
  unfolding new_node set_link set_node
  bare-cur = refl

  pub rooted-cur : rooted.cur_addr ≡ made.cur_addr + 128
  rooted-cur = set_buf-cur bare made.cur_addr (put 6 root_buf 0 separator n) ∙ bare-cur

  pub rooted-other : (x : ℕ) → (x == made.cur_addr) ≡ false → rooted.nodes x ≡ made.nodes x
  rooted-other x e =
      set_buf-apart bare made.cur_addr x (put 6 root_buf 0 separator n) e ∙ bare-other x e

  pub rooted-root :
      rooted.nodes made.cur_addr
      ≡ with_child
          (bare_root a (made.nodes made.cur_addr).buf.buf (made.nodes a).buf.suffix_bytes)
          0
          separator
          n
  rooted-root =
      set_buf-at bare made.cur_addr (put 6 root_buf 0 separator n)
      ∙ ap (λ (q : Node). record q { buf = put 6 root_buf 0 separator n }) bare-root

  put_child-bare :
      find root_buf separator ≡ some (0, false)
      → put_child bare made.cur_addr separator n ≡ some rooted
  unfolding put_child
  put_child-bare found =
      ap
        (λ (b : SortBuffer).
          find b separator >>= (λ at. some (set_buf bare made.cur_addr (put 6 b at.0 separator n))))
        (ap (λ (q : Node). q.buf) bare-root)
      ∙ ap (λ o. o >>= (λ at. some (set_buf bare made.cur_addr (put 6 root_buf at.0 separator n))))
          found

  pub new_root-rooted :
      find root_buf separator ≡ some (0, false)
      → new_root made a separator n ≡ some (rooted, made.cur_addr)
  unfolding new_root
  new_root-rooted found =
      ap (λ o. o >>= (λ over. some (over, made.cur_addr))) (put_child-bare found)

-- A new root over the two halves, once the lower half is cut off.
module _ (mem : MemControl) (a : ℕ) (known : a < mem.cur_addr) (made : MemControl)
    (made_cur : made.cur_addr ≡ mem.cur_addr + 128)
    (made_other : (x : ℕ) → (x == mem.cur_addr) ≡ false → made.nodes x ≡ mem.nodes x) (new : Node)
    (made_new : made.nodes mem.cur_addr ≡ new) (separator : ℕ) where
  apart : (x y : ℕ) → x < y → ((x == y) ≡ false) × ((y == x) ≡ false)
  apart x y lt = (ne→== x y (λ e. absurd (omega arith)), ne→== y x (λ e. absurd (omega arith)))

  made_a : made.nodes a ≡ mem.nodes a
  made_a = made_other a (apart a mem.cur_addr known).0

  pub find-made :
      ((old : Bytes) → find (fresh old (mem.nodes a).buf.suffix_bytes) separator ≡ some (0, false))
      → find (root_buf made a separator mem.cur_addr) separator ≡ some (0, false)
  find-made found =
      ap
        (λ (q : Node). find (fresh (made.nodes made.cur_addr).buf.buf q.buf.suffix_bytes) separator)
        made_a
      ∙ found (made.nodes made.cur_addr).buf.buf

  abbrev over : MemControl
  over = rooted made a separator mem.cur_addr

  over_other : (x : ℕ) → x < mem.cur_addr + 128 → over.nodes x ≡ made.nodes x
  over_other x lt =
      rooted-other made a separator mem.cur_addr x
        (apart x made.cur_addr (omega (arith, made_cur))).0

  over_root :
      over.nodes (mem.cur_addr + 128)
      ≡ with_child
          (bare_root a (mem.nodes (mem.cur_addr + 128)).buf.buf (mem.nodes a).buf.suffix_bytes)
          0
          separator
          mem.cur_addr
  over_root =
      ap (λ (c : ℕ). over.nodes c) (sym made_cur)
      ∙ rooted-root made a separator mem.cur_addr
      ∙ ap
          (λ (c : ℕ).
            with_child (bare_root a (made.nodes c).buf.buf (made.nodes a).buf.suffix_bytes) 0
              separator mem.cur_addr)
          made_cur
      ∙ ap
          (λ (q : Node).
            with_child (bare_root a q.buf.buf (made.nodes a).buf.suffix_bytes) 0 separator
              mem.cur_addr)
          (made_other (mem.cur_addr + 128)
            (apart mem.cur_addr (mem.cur_addr + 128) (omega arith)).1)
      ∙ ap
          (λ (q : Node).
            with_child (bare_root a (mem.nodes (mem.cur_addr + 128)).buf.buf q.buf.suffix_bytes) 0
              separator mem.cur_addr)
          made_a

  pub cut-IsRootSplit :
      (old : Node) (final : MemControl)
      → final.cur_addr ≡ over.cur_addr
      → (over.nodes a ≡ mem.nodes a → final.nodes a ≡ old)
      → ((y : ℕ) → (y == a) ≡ false → final.nodes y ≡ over.nodes y)
      → IsRootSplit mem a separator old new final
  cut-IsRootSplit old final final_cur final_at final_apart = record {
    cur = final_cur ∙ rooted-cur made a separator mem.cur_addr ∙ ap (λ (c : ℕ). c + 128) made_cur;
    at_old = final_at (over_other a (omega arith) ∙ made_a);
    at_new =
        final_apart mem.cur_addr (apart a mem.cur_addr known).1
        ∙ over_other mem.cur_addr (omega arith)
        ∙ made_new;
    at_root =
        final_apart (mem.cur_addr + 128) (apart a (mem.cur_addr + 128) (omega arith)).1 ∙ over_root;
    other = λ x d lt.
        final_apart x (ne→== x a d)
        ∙ over_other x (omega arith)
        ∙ made_other x (apart x mem.cur_addr lt).0;
  }

module _ (mem : MemControl) (a key : ℕ) (known : a < mem.cur_addr) where
  abbrev old_node : Node
  old_node = mem.nodes a

  abbrev half : ℕ
  half = old_node.buf.entries / 2

  abbrev upper_buf : SortBuffer
  upper_buf =
      copy_data 8 old_node.buf (fresh (mem.nodes mem.cur_addr).buf.buf old_node.buf.suffix_bytes)
        half

  abbrev leaf_separator : ℕ
  leaf_separator = sort_key upper_buf 0 key

  abbrev made_leaf : MemControl
  made_leaf = (upper_leaf mem a).0

  -- A full leaf that is the root.
  pub split_leaf-IsRootSplit :
      ((old : Bytes) → find (fresh old old_node.buf.suffix_bytes) leaf_separator ≡ some (0, false))
      → (after : MemControl) × (split_leaf mem a key none ≡ some (after, mem.cur_addr + 128))
        × IsRootSplit mem a leaf_separator
            (record {
              type = old_node.type;
              link = mem.cur_addr % 2 ^ 48;
              buf = delete_data old_node.buf half;
            })
            (record { type = leaf; link = old_node.link % 2 ^ 48; buf = upper_buf })
            after
  unfolding split_leaf
  split_leaf-IsRootSplit found =
      let (cur, new) = upper_leaf-cur mem a key known in
      let at_new = upper_leaf-new mem a key known in
      let others = upper_leaf-other mem a key known in
      let over = rooted made_leaf a leaf_separator mem.cur_addr in
      (
        lower_leaf over a mem.cur_addr,
        ap
              (λ (u : ℕ).
                new_root made_leaf a (sort_key (made_leaf.nodes u).buf 0 key) u
                >>= (λ r. some (lower_leaf r.0 a u, r.1)))
              new
            ∙ ap
                (λ (n : Node).
                  new_root made_leaf a (sort_key n.buf 0 key) mem.cur_addr
                  >>= (λ r. some (lower_leaf r.0 a mem.cur_addr, r.1)))
                at_new
            ∙ ap (λ o. o >>= (λ r. some (lower_leaf r.0 a mem.cur_addr, r.1)))
                (new_root-rooted made_leaf a leaf_separator mem.cur_addr
                  (find-made mem a known made_leaf cur others _ at_new leaf_separator found))
            ∙ ap (λ (c : ℕ). some (lower_leaf over a mem.cur_addr, c)) cur,
        cut-IsRootSplit mem a known made_leaf cur others _ at_new leaf_separator _
            (lower_leaf over a mem.cur_addr) (lower_leaf-cur mem a key known over mem.cur_addr)
            (λ e. lower_leaf-at mem a key known over mem.cur_addr ∙ ap lowered e)
            (lower_leaf-apart mem a key known over mem.cur_addr),
      )
    where
      lowered : Node → Node
      lowered n = record {
        type = n.type;
        link = mem.cur_addr % 2 ^ 48;
        buf = delete_data n.buf (n.buf.entries / 2);
      }

  abbrev middle : ℕ
  middle = (old_node.buf.entries + 1) / 2 - 1

  abbrev index_separator : ℕ
  index_separator = sort_key old_node.buf middle key

  abbrev made_index : MemControl
  made_index = (upper_index mem a).0

  -- A full index node that is the root.
  pub split_index-IsRootSplit :
      ((old : Bytes) → find (fresh old old_node.buf.suffix_bytes) index_separator ≡ some (0, false))
      → (after : MemControl) × (split_index mem a key none ≡ some (after, mem.cur_addr + 128))
        × IsRootSplit mem a index_separator
            (record old_node { buf = delete_data old_node.buf middle })
            (record {
              type = index_node;
              link = sort_value 6 old_node.buf middle % 2 ^ 48;
              buf =
                  copy_data 6 old_node.buf
                    (fresh (mem.nodes mem.cur_addr).buf.buf old_node.buf.suffix_bytes)
                    ((old_node.buf.entries + 1) / 2);
            })
            after
  unfolding split_index
  split_index-IsRootSplit found =
      let (cur, new) = upper_index-cur mem a key known in
      let at_new = upper_index-new mem a key known in
      let others = upper_index-other mem a key known in
      let over = rooted made_index a index_separator mem.cur_addr in
      (
        lower_index over a,
        ap
              (λ (b : SortBuffer).
                new_root made_index a (sort_key b ((b.entries + 1) / 2 - 1) key)
                  (upper_index mem a).1
                >>= (λ r. some (lower_index r.0 a, r.1)))
              (ap (λ (n : Node). n.buf)
                (others a (ne→== a mem.cur_addr (λ e. absurd (omega arith)))))
            ∙ ap
                (λ (u : ℕ).
                  new_root made_index a index_separator u >>= (λ r. some (lower_index r.0 a, r.1)))
                new
            ∙ ap (λ o. o >>= (λ r. some (lower_index r.0 a, r.1)))
                (new_root-rooted made_index a index_separator mem.cur_addr
                  (find-made mem a known made_index cur others _ at_new index_separator found))
            ∙ ap (λ (c : ℕ). some (lower_index over a, c)) cur,
        cut-IsRootSplit mem a known made_index cur others _ at_new index_separator _
            (lower_index over a) (lower_index-cur mem a key known over)
            (λ e. lower_index-at mem a key known over ∙ ap lowered e)
            (lower_index-apart mem a key known over),
      )
    where
      lowered : Node → Node
      lowered n = record n { buf = delete_data n.buf ((n.buf.entries + 1) / 2 - 1) }
