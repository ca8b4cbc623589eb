-- ===== src/Clevel/Insert.antt =====
-- `CLevel::Put` of src/clevel.cc on a tree, splits included.
use native.Mathlib.Nat.{mod-eq_of_lt}
use combotree_new.Prelude.{
  ℕ, zero, suc, ◌+◌, ◌*◌, ◌%◌, ◌^◌, ◌≤◌, ◌<◌, ◌≡◌, refl, arith, ap, ◌∙◌, sym, subst, true, false,
  Bool-cases, ◌⊎◌, Option, none, some, inl, inr, ◌==◌, ==→eq, if◌then◌else◌, ◌>>=◌,
}
use combotree_new.SortBuffer.{SortBuffer, find_le}
use combotree_new.SortBuffer.AsMap.{Changes}
use combotree_new.Clevel.{
  MemControl, set_buf, set_node, get_child, split_leaf, split_index, put_leaf, put_node, put_root,
  get_node,
}
use combotree_new.Clevel.Change.{nodes-set_buf}
use combotree_new.Clevel.Put.{put_node-leaf}
use combotree_new.Clevel.Delete.{changed}
use combotree_new.Clevel.Tree.{get_node-Holds}
use combotree_new.Clevel.Shape.{
  IsRange, IsRange-part, IsLeaf, IsTree, Home, keys_of, low_at, high_at,
}
use combotree_new.Clevel.Shape.Frame.{IsTree-known, IsTree-Holds}
use combotree_new.Clevel.Shape.Insert.{find-place}
use combotree_new.Clevel.Shape.Outcome.{Within}
use combotree_new.Clevel.Shape.LeafCases.{
  grown, grown_mem, written-IsLeaf, written-IsTree, put_leaf_cases,
}
use combotree_new.Clevel.Shape.IndexCases.{HasParts, put_node-after_child, after_child_cases}
use combotree_new.Clevel.Shape.PutNode.{child_place, put_node-Outcome}
use combotree_new.Clevel.Shape.PutRoot.{Grows, split_leaf-Grows, split_index-Grows, index_home}

-- A leaf that is the root.
module _ (s p : ℕ) (mem : MemControl) (home : Home) (a lo hi : ℕ) (m : ℕ → Option ℕ) (key x : ℕ)
    (range : IsRange s p lo hi) (at : home a ≡ (zero, lo)) (known : a < mem.cur_addr)
    (node : IsLeaf s p (mem.nodes a) lo hi m)
    (room : (mem.nodes a).buf.entries < (mem.nodes a).buf.max_entries) (low : lo ≤ key)
    (high : key < hi) (small : x < 256 ^ 8) (memory : mem.cur_addr + 128 * 2 ≤ 2 ^ 48) where
  abbrev leaf_map : ℕ → Option ℕ
  leaf_map = changed m key (some x)

  cur_same : (c : SortBuffer) → (set_buf mem a c).cur_addr ≡ mem.cur_addr
  cur_same c = unfold set_buf in unfold set_node in refl

  leaf_written :
      (c : SortBuffer)
      → Changes 8 p (mem.nodes a).buf c key (some x)
      → c.max_entries ≡ (mem.nodes a).buf.max_entries
      → c.entries < c.max_entries
      → Grows s p mem 0 a lo hi leaf_map (some (set_buf mem a c, a))
  leaf_written c change most open_leaf = (
    set_buf mem a c,
    home,
    0,
    a,
    refl,
    written-IsTree s p mem a lo hi m key x range node room low high small home c at known change
        most open_leaf,
    omega arith,
    omega (arith, cur_same c),
    omega (arith, cur_same c),
    inl refl,
  )

  leaf_split :
      (pos : ℕ)
      → Changes 8 p
          (mem.nodes a).buf
          (grown s p mem a lo hi m key x range node room low high small pos)
          key
          (some x)
      → (grown s p mem a lo hi m key x range node room low high small pos).max_entries
        ≡ (mem.nodes a).buf.max_entries
      → (grown s p mem a lo hi m key x range node room low high small pos).entries
        ≡ (grown s p mem a lo hi m key x range node room low high small pos).max_entries
      → Grows s p mem 0 a lo hi leaf_map (
          split_leaf
            (grown_mem s p mem a lo hi m key x range node room low high small pos)
            a
            key
            none)
  leaf_split pos change most full =
      let c : SortBuffer = grown s p mem a lo hi m key x range node room low high small pos in
      let (after, home', height', root, e, tree, higher, few, aligned, place) =
        split_leaf-Grows s p (set_buf mem a c) home a lo hi leaf_map key range at
          (omega (arith, known, cur_same c))
          (written-IsLeaf s p mem a lo hi m key x range node room low high small c change most)
          (rw (nodes-set_buf mem a c) full) low high (omega (arith, memory, cur_same c)) in
      (
        after,
        home',
        height',
        root,
        e,
        tree,
        higher,
        omega (arith, few, cur_same c),
        omega (arith, aligned, cur_same c),
        subst (λ (q : ℕ). (root ≡ a) ⊎ (root % 128 ≡ q % 128)) (cur_same c) place,
      )

  pub put_leaf-Grows : Grows s p mem 0 a lo hi leaf_map (put_leaf mem a key x none)
  put_leaf-Grows =
      put_leaf_cases s p mem a lo hi m key x range node room low high small none
        (Grows s p mem 0 a lo hi leaf_map) leaf_written leaf_split

-- An index node that is the root.
module _ (s p : ℕ) (mem : MemControl) (home : Home) (height a lo hi : ℕ) (m : ℕ → Option ℕ)
    (key x : ℕ) (range : IsRange s p lo hi) (at : home a ≡ (suc height, lo))
    (known : a < mem.cur_addr) (room : (mem.nodes a).buf.entries < (mem.nodes a).buf.max_entries)
    (has : HasParts s p mem home height lo hi m (mem.nodes a)) (low : lo ≤ key) (high : key < hi)
    (memory : mem.cur_addr + 128 * (suc height + 2) ≤ 2 ^ 48) (lo' hi' : ℕ) where
  abbrev index_map : ℕ → Option ℕ
  index_map = changed m key (some x)

  pub index_open :
      (after : MemControl) (home' : Home)
      → Within mem home after home' height lo' hi' a
      → HasParts s p after home' height lo hi index_map (after.nodes a)
      → (after.nodes a).buf.entries < (after.nodes a).buf.max_entries
      → Grows s p mem (suc height) a lo hi index_map (some (after, a))
  unfolding IsTree
  index_open after home' within parts open_room = (
    after,
    home',
    suc height,
    a,
    refl,
    (within.homes a known ∙ at, omega (arith, within.grows, known), parts.0, open_room, parts.1),
    omega arith,
    omega (arith, within.few),
    within.aligned,
    inl refl,
  )

  pub index_full :
      (after : MemControl) (home' : Home)
      → Within mem home after home' height lo' hi' a
      → HasParts s p after home' height lo hi index_map (after.nodes a)
      → (after.nodes a).buf.entries ≡ (after.nodes a).buf.max_entries
      → Grows s p mem (suc height) a lo hi index_map (split_index after a key none)
  index_full after home' within parts full =
      let at' = within.homes a known ∙ at in
      let known' : a < after.cur_addr = omega (arith, within.grows, known) in
      let top : after.cur_addr + 128 * 2 ≤ 2 ^ 48 = omega (arith, within.few, memory) in
      let (last, root, e, tree, cur, new) =
        split_index-Grows s p after home' height a lo hi index_map key range at' known' parts full
          low high top in
      (
        last,
        index_home s p after home' height a lo hi index_map key range at' known' parts full low high
            top,
        suc (suc height),
        root,
        e,
        tree,
        omega arith,
        omega (arith, cur, within.few),
        omega (arith, cur, within.aligned),
        inr (omega (arith, new, within.aligned)),
      )

module _ (s p : ℕ) (mem : MemControl) (home : Home) (m : ℕ → Option ℕ) (key x : ℕ)
    (small : x < 256 ^ 8) where
  pub put_node-Grows :
      (height fuel a lo hi : ℕ)
      → IsRange s p lo hi
      → IsTree s p mem home height a lo hi m
      → lo ≤ key
      → key < hi
      → mem.cur_addr + 128 * (height + 2) ≤ 2 ^ 48
      → height < fuel
      → Grows s p mem height a lo hi (changed m key (some x)) (put_node fuel mem a key x none)
  unfolding IsTree
  put_node-Grows height zero a lo hi range tree low high memory deep = absurd (omega arith)
  put_node-Grows zero (suc fuel) a lo hi range (at, known, node, room) low high memory deep =
      subst (Grows s p mem 0 a lo hi (changed m key (some x)))
        (sym (put_node-leaf fuel mem a key x none node.kind))
        (put_leaf-Grows s p mem home a lo hi m key x range at known node room low high small memory)
  put_node-Grows (suc height) (suc fuel) a lo hi range (at, known, node, room, parts) low high
        memory deep =
      let n = mem.nodes a in
      let q : ℕ = (find_le n.buf key).0 in
      let (le, from, to) = child_place s p lo hi key mem a range node low high in
      let keys = keys_of p n.buf in
      let lo' : ℕ = low_at keys lo q in
      let hi' : ℕ = high_at keys hi n.buf.entries q in
      let below =
        put_node-Outcome s p mem home m key x small height fuel (get_child n q) a q lo' hi'
          (IsRange-part s p lo hi q n range node le) (parts q le) from to known
          (omega (arith, ap (λ t. t.0) at))
          (λ k over' under.
            find-place s p lo hi n q k 0 range node room le over' under (omega arith))
          (omega (arith, memory)) (omega arith) in
      let (result, e, goal) =
        after_child_cases s p mem home height a lo hi m key x range at (omega (arith, memory)) room
          (node, parts) q le from to none
          (Grows s p mem (suc height) a lo hi (changed m key (some x)))
          (index_open s p mem home height a lo hi m key x range at known room (node, parts) low high
            memory lo' hi')
          (index_full s p mem home height a lo hi m key x range at known room (node, parts) low high
            memory lo' hi')
          (put_node fuel mem (get_child n q) key x (some a)) below in
      subst (Grows s p mem (suc height) a lo hi (changed m key (some x)))
        (sym (put_node-after_child fuel mem a key x none result node.kind e)) goal

-- What `put_root` makes of what `put_node` gives back.
abbrev stored : ℕ → MemControl × ℕ → Option (MemControl × ℕ)
stored root r = some (r.0, (if root == r.1 then root else r.1 % 2 ^ 48))

-- The six bytes of the root hold its address.
root_bytes :
    (result : Option (MemControl × ℕ)) (root new : ℕ) (after : MemControl)
    → result ≡ some (after, new)
    → new < 2 ^ 48
    → (result >>= stored root) ≡ some (after, new)
root_bytes result root new after e small =
    ap (λ o. o >>= stored root) e
    ∙ ap (λ (q : ℕ). some (after, q)) (kept (Bool-cases (root == new)))
  where
    kept :
        ((root == new) ≡ true) ⊎ ((root == new) ≡ false)
        → (if root == new then root else new % 2 ^ 48) ≡ new
    kept (inl same) = rw same (==→eq root new same)
    kept (inr other) = rw other (mod-eq_of_lt small)

module _ (s p : ℕ) (mem : MemControl) (home : Home) (m : ℕ → Option ℕ) (height fuel root lo hi : ℕ)
    (range : IsRange s p lo hi) (tree : IsTree s p mem home height root lo hi m)
    (deep : height < fuel) (key x : ℕ) (low : lo ≤ key) (high : key < hi) (small : x < 256 ^ 8)
    (memory : mem.cur_addr + 128 * (height + 2) ≤ 2 ^ 48) where
  -- On a tree of an owner, for a key of its range and a value of 64 bits, with fuel above its
  -- height and addresses of 48 bits for one node more for each level: Put ends, and what it stores
  -- as the root is again a tree for the range, of the same height or one higher, that maps the key
  -- to the value and every other key as before. It takes at most one node for each level and one
  -- for a new root, at multiples of the node size from the next free address, and the root is the
  -- old one or one of these.
  pub put_root-IsTree :
      Grows s p mem height root lo hi (changed m key (some x)) (put_root fuel mem root key x)
  unfolding put_root
  put_root-IsTree =
      let (after, home', height', new, e, grown_tree, higher, few, aligned, place) =
        put_node-Grows s p mem home m key x small height fuel root lo hi range tree low high memory
          deep in
      let (at, known) =
        IsTree-known s p after home' height' new lo hi (changed m key (some x)) grown_tree in
      (
        after,
        home',
        height',
        new,
        root_bytes (put_node fuel mem root key x none) root new after e
            (omega (arith, known, few, memory)),
        grown_tree,
        higher,
        few,
        aligned,
        place,
      )

  -- Under the same conditions, Get on what Put leaves, with fuel above the height plus one, ends for
  -- every key of the range, with the value for the key and what the tree mapped it to for any other.
  pub put_root-get :
      (after : MemControl) × (root' : ℕ) × (put_root fuel mem root key x ≡ some (after, root'))
      × ((other fuel' : ℕ)
          → lo ≤ other
          → other < hi
          → height + 1 < fuel'
          → get_node fuel' after root' other ≡ some (if other == key then some x else m other))
  put_root-get =
      let (after, home', height', root', e, grown_tree, higher, few, aligned, place) =
        put_root-IsTree in
      (
        after,
        root',
        e,
        λ other fuel' low' high' deep'.
            get_node-Holds height' fuel' after p root' (λ k. (lo ≤ k) × (k < hi))
              (changed m key (some x)) other
              (IsTree-Holds s p after home' height' root' lo hi (changed m key (some x)) range
                grown_tree)
              range.owner (low', high') (omega arith),
      )
