-- ===== src/Clevel/Shape/PutNode.antt =====
-- `Put` of src/clevel.cc on a tree under a parent that has room.
use combotree_new.Prelude.{
  ℕ, zero, suc, ◌+◌, ◌*◌, ◌^◌, ◌≤◌, ◌<◌, ◌≡◌, arith, sym, subst, false, Option, some,
}
use combotree_new.SortBuffer.{find, find_le}
use combotree_new.Clevel.{MemControl, get_child, put_node}
use combotree_new.Clevel.Tree.{find_le-InPart}
use combotree_new.Clevel.Put.{put_node-leaf}
use combotree_new.Clevel.Delete.{changed}
use combotree_new.Clevel.Shape.{
  IsRange, IsRange-part, IsIndex, IsTree, Home, keys_of, low_at, high_at,
}
use combotree_new.Clevel.Shape.Frame.{InPart-between}
use combotree_new.Clevel.Shape.Insert.{find-place}
use combotree_new.Clevel.Shape.Outcome.{Outcome}
use combotree_new.Clevel.Shape.PutLeaf.{put_leaf-Outcome}
use combotree_new.Clevel.Shape.IndexCases.{put_node-after_child}
use combotree_new.Clevel.Shape.PutIndex.{after_child-Outcome}

-- The place of the key among the children of an index node.
pub child_place :
    (s p lo hi key : ℕ) (mem : MemControl) (a : ℕ)
    → IsRange s p lo hi
    → IsIndex s p (mem.nodes a) lo hi
    → lo ≤ key
    → key < hi
    → ((find_le (mem.nodes a).buf key).0 ≤ (mem.nodes a).buf.entries)
      × (low_at (keys_of p (mem.nodes a).buf) lo (find_le (mem.nodes a).buf key).0 ≤ key)
      × (key
          < high_at
              (keys_of p (mem.nodes a).buf)
              hi
              (mem.nodes a).buf.entries
              (find_le (mem.nodes a).buf key).0)
child_place s p lo hi key mem a range node low high =
    let n = mem.nodes a in
    let (le, part) =
      find_le-InPart 6 n.buf key node.node.valid node.node.sorted (omega (arith, range.to_word)) in
    let (from, to) =
      InPart-between s p lo hi (find_le n.buf key).0 key n range node le low high part in
    (le, from, to)

module _ (s p : ℕ) (mem : MemControl) (home : Home) (m : ℕ → Option ℕ) (key x : ℕ)
    (small : x < 256 ^ 8) where
  -- Put of a key in the range of a tree, under a parent that has room, ends: the tree maps the key to
  -- the value and keeps its root, or it becomes two trees and the parent gets the second as a child.
  pub put_node-Outcome :
      (height fuel a par r lo hi : ℕ)
      → IsRange s p lo hi
      → IsTree s p mem home height a lo hi m
      → lo ≤ key
      → key < hi
      → par < mem.cur_addr
      → height < (home par).0
      → ((k : ℕ) → lo < k → k < hi → find (mem.nodes par).buf k ≡ some (r, false))
      → mem.cur_addr + 128 * (height + 1) ≤ 2 ^ 48
      → height < fuel
      → Outcome s p mem home height a par r lo hi
          (changed m key (some x))
          (put_node fuel mem a key x (some par))
  unfolding IsTree
  put_node-Outcome height zero a par r lo hi range tree low high known' over place memory deep =
      absurd (omega arith)
  put_node-Outcome zero (suc fuel) a par r lo hi range (at, known, node, room) low high known' over
        place memory deep =
      subst (Outcome s p mem home 0 a par r lo hi (changed m key (some x)))
        (sym (put_node-leaf fuel mem a key x (some par) node.kind))
        (put_leaf-Outcome s p mem home a par r lo hi m key x range at known node room low high small
          known' over place)
  put_node-Outcome (suc height) (suc fuel) a par r lo hi range (at, known, node, room, parts) low
        high known' over place memory deep =
      let n = mem.nodes a in
      let q : ℕ = (find_le n.buf key).0 in
      let (le, from, to) = child_place s p lo hi key mem a range node low high in
      let keys = keys_of p n.buf in
      let below =
        put_node-Outcome height fuel (get_child n q) a q (low_at keys lo q)
          (high_at keys hi n.buf.entries q) (IsRange-part s p lo hi q n range node le) (parts q le)
          from to known (omega (arith, at_height at)) (free q le) (omega arith) (omega arith) in
      let (result, e, goal) =
        after_child-Outcome s p mem home height a par r lo hi m key x range at known low high known'
          over place memory room (node, parts) q le from to
          (put_node fuel mem (get_child n q) key x (some a)) below in
      subst (Outcome s p mem home (suc height) a par r lo hi (changed m key (some x)))
        (sym (put_node-after_child fuel mem a key x (some par) result node.kind e)) goal
    where
      at_height : home a ≡ (suc height, lo) → (home a).0 ≡ suc height
      at_height e = λ i. (e i).0

      free :
          (q : ℕ)
          → q ≤ (mem.nodes a).buf.entries
          → (k : ℕ) → low_at (keys_of p (mem.nodes a).buf) lo q < k
          → k < high_at (keys_of p (mem.nodes a).buf) hi (mem.nodes a).buf.entries q
          → find (mem.nodes a).buf k ≡ some (q, false)
      free q le k over' under =
          find-place s p lo hi (mem.nodes a) q k 0 range node room le over' under (omega arith)
