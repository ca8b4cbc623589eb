-- ===== src/Clevel/Shape/LeafCases.antt =====
-- What `Put` of src/clevel.cc does to a leaf, under any parent or none.
use combotree_new.Prelude.{
  ℕ, ◌+◌, ◌^◌, ◌≤◌, ◌<◌, ◌≡◌, refl, arith, ap, ◌∙◌, sym, subst, Bool, true, false, Option, some,
  none, ◌==◌, ==→eq, ==→ne, if◌then◌else◌, ◌>>=◌,
}
use combotree_new.PmemKv.{lookup}
use combotree_new.SortBuffer.{SortBuffer, find, put, update, sort_value}
use combotree_new.SortBuffer.View.{pairs}
use combotree_new.SortBuffer.Put.{put-fields}
use combotree_new.SortBuffer.AsMap.{HasPrefix, Changes, put-Changes, find-Locates}
use combotree_new.SortBuffer.Update.{update-Changes}
use combotree_new.Clevel.{MemControl, Node, set_buf, set_node, split_leaf, put_leaf}
use combotree_new.Clevel.Change.{nodes-set_buf}
use combotree_new.Clevel.Tree.{find-lookup}
use combotree_new.Clevel.Delete.{changed}
use combotree_new.Clevel.Shape.{IsRange, IsRange-HasPrefix, IsLeaf, IsTree, Home}
use combotree_new.Clevel.Shape.Leaf.{changed-IsLeaf}

module _ (s p : ℕ) (mem : MemControl) (a lo hi : ℕ) (m : ℕ → Option ℕ) (key x : ℕ)
    (range : IsRange s p lo hi) (node : IsLeaf s p (mem.nodes a) lo hi m)
    (room : (mem.nodes a).buf.entries < (mem.nodes a).buf.max_entries) (low : lo ≤ key)
    (high : key < hi) (small : x < 256 ^ 8) where
  abbrev b : SortBuffer
  b = (mem.nodes a).buf

  pre : HasPrefix b.suffix_bytes p key
  pre = rw (node.node.suffix) (IsRange-HasPrefix s p lo hi key range low high)

  -- The leaf after a change of its buffer.
  pub written-IsLeaf :
      (c : SortBuffer)
      → Changes 8 p b c key (some x)
      → c.max_entries ≡ b.max_entries
      → IsLeaf s p ((set_buf mem a c).nodes a) lo hi (changed m key (some x))
  written-IsLeaf c change most =
      subst (λ n. IsLeaf s p n lo hi (changed m key (some x))) (sym (nodes-set_buf mem a c))
        (changed-IsLeaf s p lo hi (mem.nodes a) m key (some x) c node low high change most
          (mem.nodes a).link)

  pub written-IsTree :
      (home : Home) (c : SortBuffer)
      → home a ≡ (0, lo)
      → a < mem.cur_addr
      → Changes 8 p b c key (some x)
      → c.max_entries ≡ b.max_entries
      → c.entries < c.max_entries
      → IsTree s p (set_buf mem a c) home 0 a lo hi (changed m key (some x))
  unfolding IsTree
  written-IsTree home c at known change most open_leaf = (
    at,
    (unfold set_buf in unfold set_node in known),
    written-IsLeaf c change most,
    rw (nodes-set_buf mem a c) open_leaf,
  )

  abbrev pub grown : ℕ → SortBuffer
  grown pos = put 8 b pos key x

  abbrev pub grown_mem : ℕ → MemControl
  grown_mem pos = set_buf mem a (grown pos)

  -- What `put_leaf` does with what `Find` gives.
  abbrev chosen : Option ℕ → ℕ × Bool → Option (MemControl × ℕ)
  chosen parent q =
      if q.1
      then some (set_buf mem a (update 8 b q.0 x), a)
      else if ((grown_mem q.0).nodes a).buf.entries == ((grown_mem q.0).nodes a).buf.max_entries
      then split_leaf (grown_mem q.0) a key parent
      else some (grown_mem q.0, a)

  put_leaf-found :
      (parent : Option ℕ) (q : ℕ × Bool)
      → find b key ≡ some q
      → put_leaf mem a key x parent ≡ chosen parent q
  put_leaf-found parent q e = unfold put_leaf in ap (λ o. o >>= chosen parent) e

  by_room : Option ℕ → ℕ → Bool → Option (MemControl × ℕ)
  by_room parent pos full =
      if full then split_leaf (grown_mem pos) a key parent else some (grown_mem pos, a)

  put_leaf-absent :
      (parent : Option ℕ) (pos : ℕ)
      → find b key ≡ some (pos, false)
      → (full : Bool) → ((grown pos).entries == (grown pos).max_entries) ≡ full
      → put_leaf mem a key x parent ≡ by_room parent pos full
  unfolding by_room
  put_leaf-absent parent pos e full same =
      put_leaf-found parent (pos, false) e
      ∙ ap (λ (n : Node). by_room parent pos (n.buf.entries == n.buf.max_entries))
          (nodes-set_buf mem a (grown pos))
      ∙ ap (by_room parent pos) same

  -- A property of the result holds if it does where the leaf is written with room left, and where
  -- it is full and split.
  module _ (parent : Option ℕ) (P : Option (MemControl × ℕ) → Type 0)
      (written : (c : SortBuffer)
        → Changes 8 p b c key (some x)
        → c.max_entries ≡ b.max_entries
        → c.entries < c.max_entries
        → P (some (set_buf mem a c, a)))
      (split : (pos : ℕ)
        → Changes 8 p b (grown pos) key (some x)
        → (grown pos).max_entries ≡ b.max_entries
        → (grown pos).entries ≡ (grown pos).max_entries
        → P (split_leaf (grown_mem pos) a key parent)) where
    room_cases :
        (pos : ℕ) (full : Bool)
        → Changes 8 p b (grown pos) key (some x)
        → (grown pos).entries ≡ b.entries + 1
        → (grown pos).max_entries ≡ b.max_entries
        → ((grown pos).entries == (grown pos).max_entries) ≡ full
        → P (by_room parent pos full)
    unfolding by_room
    room_cases pos true change more most e =
        split pos change most (==→eq (grown pos).entries (grown pos).max_entries e)
    room_cases pos false change more most e =
        written (grown pos) change most
          (ground (arith, more, most, ==→ne (grown pos).entries (grown pos).max_entries e))

    present : (pos : ℕ) → find b key ≡ some (pos, true) → P (put_leaf mem a key x parent)
    present pos e =
        let change =
          update-Changes 8 p b key pos node.node.valid node.node.sorted range.owner pre x small e in
        subst P (sym (put_leaf-found parent (pos, true) e))
          (written (update 8 b pos x) change (unfold update in refl) (unfold update in room))

    absent : (pos : ℕ) → find b key ≡ some (pos, false) → P (put_leaf mem a key x parent)
    absent pos e =
        let place =
          find-Locates 8 p b key pos node.node.valid node.node.sorted range.owner pre false e in
        let (same_prefix, same_suffix, more, most) =
          put-fields 8 b pos key x node.node.valid room place.0 in
        let change =
          put-Changes 8 p b key pos node.node.valid node.node.sorted range.owner pre x room small
            e in
        let full : Bool = (grown pos).entries == (grown pos).max_entries in
        subst P (sym (put_leaf-absent parent pos e full refl))
          (room_cases pos full change more most refl)

    looked :
        (q : ℕ × Bool) × (find b key ≡ some q)
        × ((if q.1 then some (sort_value 8 b q.0) else none) ≡ lookup key (pairs 8 b p))
    looked = find-lookup b p key node.node.valid node.node.sorted range.owner pre

    pub put_leaf_cases : P (put_leaf mem a key x parent)
    put_leaf_cases = go looked.0 looked.1
      where
        go : (q : ℕ × Bool) → find b key ≡ some q → P (put_leaf mem a key x parent)
        go (pos, true) e = present pos e
        go (pos, false) e = absent pos e
