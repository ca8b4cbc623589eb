-- ===== src/Clevel/Shape/Target.antt =====
-- The leaf of a key in a tree of src/clevel.cc, and the tree after a write to that leaf.
use combotree_new.Prelude.{
  ℕ, zero, suc, ◌≤◌, ◌<◌, ◌≡◌, ◌⊎◌, refl, arith, ap, sym, subst, Bool-cases, Option, some, inl, inr,
  ◌==◌, ==→eq, ==→ne,
}
use combotree_new.SortBuffer.{SortBuffer, find_le}
use combotree_new.SortBuffer.AsMap.{Changes}
use combotree_new.Clevel.{MemControl, is_leaf, find_leaf, set_buf, set_node, get_child}
use combotree_new.Clevel.Change.{nodes-set_buf, nodes-set_buf_apart}
use combotree_new.Clevel.Delete.{changed}
use combotree_new.Clevel.Shape.{
  IsRange, IsRange-part, IsLeaf, IsTree, Home, keys_of, low_at, high_at, part-within,
}
use combotree_new.Clevel.Shape.Leaf.{changed-IsLeaf}
use combotree_new.Clevel.Shape.Outcome.{Within}
use combotree_new.Clevel.Shape.Sibling.{sibling-IsTree}
use combotree_new.Clevel.Shape.PutNode.{child_place}

-- The leaf of the key in a tree, and the tree after a write to that leaf.
pub record Target (s p : ℕ) (mem : MemControl) (home : Home) (height fuel a lo hi : ℕ)
    (m : ℕ → Option ℕ) (key l first last : ℕ) : Type 0 where
  pub walk : find_leaf fuel mem a key ≡ some l
  pub at : home l ≡ (zero, first)
  pub range : IsRange s p first last
  pub node : IsLeaf s p (mem.nodes l) first last m
  pub room : (mem.nodes l).buf.entries < (mem.nodes l).buf.max_entries
  pub low : first ≤ key
  pub high : key < last
  pub inside : lo ≤ first
  pub written :
      (c : SortBuffer) (new : Option ℕ)
      → Changes 8 p (mem.nodes l).buf c key new
      → c.max_entries ≡ (mem.nodes l).buf.max_entries
      → c.entries < c.max_entries
      → IsTree s p (set_buf mem l c) home height a lo hi (changed m key new)

module _ (s p : ℕ) (mem : MemControl) (home : Home) (m : ℕ → Option ℕ) (key : ℕ) where
  cur_same : (l : ℕ) (c : SortBuffer) → (set_buf mem l c).cur_addr ≡ mem.cur_addr
  cur_same l c = unfold set_buf in unfold set_node in refl

  -- A write to a leaf of a child changes no other child.
  write-Within :
      (height a l first lo hi : ℕ) (c : SortBuffer)
      → home l ≡ (zero, first)
      → lo ≤ first
      → first < hi
      → Within mem home (set_buf mem l c) home height lo hi a
  write-Within height a l first lo hi c at low high = record {
    grows = omega (arith, cur_same l c);
    few = omega (arith, cur_same l c);
    aligned = omega (arith, cur_same l c);
    homes = λ y lt. refl;
    kept = λ y lt d out. nodes-set_buf_apart mem l y c (λ e. outside y e out);
  }
    where
      outside :
          (y : ℕ) → y ≡ l → ((height < (home y).0) ⊎ (((home y).1 < lo) ⊎ (hi ≤ (home y).1))) → ⊥
      outside y e (inl q) = omega (arith, ap (λ (t : ℕ). (home t).0) e, ap (λ t. t.0) at)
      outside y e (inr (inl q)) = omega (arith, ap (λ (t : ℕ). (home t).1) e, ap (λ t. t.1) at)
      outside y e (inr (inr q)) = omega (arith, ap (λ (t : ℕ). (home t).1) e, ap (λ t. t.1) at)

  leaf_target :
      (fuel a lo hi : ℕ)
      → IsRange s p lo hi
      → IsTree s p mem home zero a lo hi m
      → lo ≤ key
      → key < hi
      → Target s p mem home zero (suc fuel) a lo hi m key a lo hi
  unfolding IsTree find_leaf is_leaf
  leaf_target fuel a lo hi range (at, known, node, room) low high = record {
    walk = rw (node.kind) refl;
    at = at;
    range = range;
    node = node;
    room = room;
    low = low;
    high = high;
    inside = omega arith;
    written = λ c new change most open_leaf. (
      at,
      omega (arith, known, cur_same a c),
      subst (λ n. IsLeaf s p n lo hi (changed m key new)) (sym (nodes-set_buf mem a c))
          (changed-IsLeaf s p lo hi (mem.nodes a) m key new c node low high change most
            (mem.nodes a).link),
      rw (nodes-set_buf mem a c) open_leaf,
    );
  }

  index_target :
      (height fuel a lo hi l first last : ℕ)
      → IsRange s p lo hi
      → IsTree s p mem home (suc height) a lo hi m
      → lo ≤ key
      → key < hi
      → Target s p mem home height fuel
          (get_child (mem.nodes a) (find_le (mem.nodes a).buf key).0)
          (low_at (keys_of p (mem.nodes a).buf) lo (find_le (mem.nodes a).buf key).0)
          (high_at
            (keys_of p (mem.nodes a).buf)
            hi
            (mem.nodes a).buf.entries
            (find_le (mem.nodes a).buf key).0)
          m
          key
          l
          first
          last
      → Target s p mem home (suc height) (suc fuel) a lo hi m key l first last
  unfolding IsTree find_leaf is_leaf
  index_target height fuel a lo hi l first last range (at, known, node, room, parts) low high t =
      let q : ℕ = (find_le (mem.nodes a).buf key).0 in
      let (le, from, to) = child_place s p lo hi key mem a range node low high in
      let (below, between, above) =
        part-within s p lo hi q (mem.nodes a) node range.owner range.some_key le in
      record {
        walk = rw (node.kind) (t.walk);
        at = t.at;
        range = t.range;
        node = t.node;
        room = t.room;
        low = t.low;
        high = t.high;
        inside = omega (arith, t.inside, below);
        written = λ c new change most open_leaf.
            let here : (set_buf mem l c).nodes a ≡ mem.nodes a =
              nodes-set_buf_apart mem l a c (λ e. not_leaf e at t.at) in
            (
              at,
              omega (arith, known, cur_same l c),
              rw here node,
              rw here room,
              rw here λ i le'. elim (Bool-cases (i == q)) [
                | inl same ↦
                    subst
                      (λ (j : ℕ).
                        IsTree s p (set_buf mem l c) home height (get_child (mem.nodes a) j)
                          (low_at (keys_of p (mem.nodes a).buf) lo j)
                          (high_at (keys_of p (mem.nodes a).buf) hi (mem.nodes a).buf.entries j)
                          (changed m key new))
                      (sym (==→eq i q same)) (t.written c new change most open_leaf)
                | inr other ↦
                    sibling-IsTree s p mem home height a lo hi m key new range at node q le from to
                      (set_buf mem l c) home
                      (write-Within height a l first (low_at (keys_of p (mem.nodes a).buf) lo q)
                        (high_at (keys_of p (mem.nodes a).buf) hi (mem.nodes a).buf.entries q) c
                        t.at t.inside (omega (arith, t.low, to)))
                      i le' (==→ne i q other) (parts i le')
              ],
            );
      }
    where
      not_leaf : a ≡ l → home a ≡ (suc height, lo) → home l ≡ (zero, first) → ⊥
      not_leaf e at at' =
          omega (arith, ap (λ (t : ℕ). (home t).0) e, ap (λ t. t.0) at, ap (λ t. t.0) at')

  -- The walk of a key ends at a leaf.
  pub target :
      (height fuel a lo hi : ℕ)
      → IsRange s p lo hi
      → IsTree s p mem home height a lo hi m
      → lo ≤ key
      → key < hi
      → height < fuel
      → (l : ℕ) × (first : ℕ) × (last : ℕ) × Target s p mem home height fuel a lo hi m key l first
          last
  unfolding IsTree
  target height zero a lo hi range tree low high deep = absurd (omega arith)
  target zero (suc fuel) a lo hi range tree low high deep =
      (a, lo, hi, leaf_target fuel a lo hi range tree low high)
  target (suc height) (suc fuel) a lo hi range (at, known, node, room, parts) low high deep =
      let n = mem.nodes a in
      let q : ℕ = (find_le n.buf key).0 in
      let (le, from, to) = child_place s p lo hi key mem a range node low high in
      let (l, first, last, t) =
        target height fuel (get_child n q) (low_at (keys_of p n.buf) lo q)
          (high_at (keys_of p n.buf) hi n.buf.entries q) (IsRange-part s p lo hi q n range node le)
          (parts q le) from to (omega arith) in
      (
        l,
        first,
        last,
        index_target height fuel a lo hi l first last range (at, known, node, room, parts) low high
            t,
      )
