-- ===== src/Clevel/Put.antt =====
-- `Node::Put` of src/clevel.cc where no leaf is split, and `Node::Update`.
use combotree_new.Prelude.{
  ℕ, zero, suc, ◌+◌, ◌<◌, ◌≡◌, ◌≢◌, ◌^◌, refl, arith, ap, ◌∙◌, sym, subst, Bool, true, false,
  Option, none, some, ◌==◌, if◌then◌else◌, ne→==, ==-refl, if-true, if-false,
}
use combotree_new.Word.{word_mod}
use combotree_new.PmemKv.{lookup}
use combotree_new.SortBuffer.{SortBuffer, find, find_le, sort_value, put, update}
use combotree_new.SortBuffer.View.{pairs}
use combotree_new.SortBuffer.Put.{put-fields}
use combotree_new.SortBuffer.AsMap.{Changes, put-Changes, find-Locates}
use combotree_new.SortBuffer.Update.{update-Changes}
use combotree_new.Clevel.{
  MemControl, leaf, index_node, is_leaf, is_index, get_child, set_buf, find_leaf, put_leaf,
  put_node, update_node,
}
use combotree_new.Clevel.Tree.{Holds, InPart, find_le-InPart, find-lookup}
use combotree_new.Clevel.Change.{
  IsApart, nodes-set_buf, find_leaf-IsLeafOf, IsLeafOf, IsApart-set_buf,
}
use combotree_new.Clevel.Delete.{changed, some-injective, Holds-set_leaf}

none≢some : (x : ℕ) → none ≢ some x
none≢some x e = absurd (cc e)

pub put_node-leaf :
    (fuel : ℕ) (mem : MemControl) (a key x : ℕ) (parent : Option ℕ)
    → (mem.nodes a).type ≡ leaf
    → put_node (suc fuel) mem a key x parent ≡ put_leaf mem a key x parent
unfolding put_node is_leaf
put_node-leaf fuel mem a key x parent kind =
    if-true (is_leaf (mem.nodes a).type) _ _ (ap is_leaf kind)

-- `Put` on an index node, where the child to which the key belongs is not split.
put_node-index :
    (fuel : ℕ) (mem after : MemControl) (a key x : ℕ) (parent : Option ℕ)
    → (mem.nodes a).type ≡ index_node
    → put_node fuel mem (get_child (mem.nodes a) (find_le (mem.nodes a).buf key).0) key x (some a)
      ≡ some (after, get_child (mem.nodes a) (find_le (mem.nodes a).buf key).0)
    → put_node (suc fuel) mem a key x parent ≡ some (after, a)
unfolding put_node is_leaf is_index
put_node-index fuel mem after a key x parent kind below =
    let child : ℕ = get_child (mem.nodes a) (find_le (mem.nodes a).buf key).0 in
    if-false (is_leaf (mem.nodes a).type) _ _ (ap is_leaf kind)
    ∙ if-true (is_index (mem.nodes a).type) _ _ (ap is_index kind)
    ∙ rw (below, ==-refl child) refl

-- Where `Put` on the leaf of the key gives back that leaf, `Put` on the tree gives back its root.
put_node-set :
    (height fuel : ℕ) (mem after : MemControl) (p a : ℕ) (In : ℕ → Type 0) (m : ℕ → Option ℕ)
    (key x l : ℕ) (parent : Option ℕ)
    → Holds mem p height a In m
    → In key
    → height < fuel
    → find_leaf fuel mem a key ≡ some l
    → ((above : Option ℕ) → put_leaf mem l key x above ≡ some (after, l))
    → put_node fuel mem a key x parent ≡ some (after, a)
unfolding find_leaf Holds is_leaf
put_node-set zero zero mem after p a In m key x l parent h has lt e stays = absurd (omega arith)
put_node-set (suc height) zero mem after p a In m key x l parent h has lt e stays =
    absurd (omega arith)
put_node-set zero (suc fuel) mem after p a In m key x l parent (node, pre, maps) has lt e stays =
    let same : l ≡ a = sym (some-injective a l (rw (node.0) at e)) in
    put_node-leaf fuel mem a key x parent node.0
    ∙ subst (λ (q : ℕ). put_leaf mem q key x parent ≡ some (after, q)) same (stays parent)
put_node-set (suc height) (suc fuel) mem after p a In m key x l parent (node, small, parts) has lt e
      stays =
    let r : ℕ = (find_le (mem.nodes a).buf key).0 in
    let child : ℕ = get_child (mem.nodes a) r in
    let (le, part) = find_le-InPart 6 (mem.nodes a).buf key node.1 node.2 (small key has) in
    let deeper : find_leaf fuel mem child key ≡ some l = rw (node.0) at e in
    put_node-index fuel mem after a key x parent node.0 (
      put_node-set height fuel mem after p child (λ k. In k × InPart (mem.nodes a).buf r k) m key x
        l (some a) (parts r le) (has, part) (omega arith) deeper stays)

module _ (height fuel : ℕ) (mem : MemControl) (p a : ℕ) (In : ℕ → Type 0) (m : ℕ → Option ℕ)
    (key x : ℕ) (h : Holds mem p height a In m) (apart : IsApart mem height a) (hp : p < word_mod)
    (has : In key) (deep : height < fuel) (small : x < 256 ^ 8) where
  walk : (l : ℕ) × (find_leaf fuel mem a key ≡ some l) × IsLeafOf mem p height a l key m
  walk = find_leaf-IsLeafOf height fuel mem p a In m key h has deep

  -- The leaf of the key.
  abbrev target : SortBuffer
  target = (mem.nodes walk.0).buf

  at : IsLeafOf mem p height a walk.0 key m
  at = walk.2

  looked :
      (r : ℕ × Bool) × (find target key ≡ some r)
      × ((if r.1 then some (sort_value 8 target r.0) else none) ≡ lookup key (pairs 8 target p))
  looked = find-lookup target p key at.valid at.sorted hp at.pre

  set_tree :
      (c : SortBuffer)
      → Changes 8 p target c key (some x)
      → ((above : Option ℕ) → put_leaf mem walk.0 key x above ≡ some (set_buf mem walk.0 c, walk.0))
      → (after : MemControl) × (put_node fuel mem a key x none ≡ some (after, a))
        × Holds after p height a In (changed m key (some x))
        × IsApart after height a
  set_tree c change stays = (
    set_buf mem walk.0 c,
    put_node-set height fuel mem (set_buf mem walk.0 c) p a In m key x walk.0 none h has deep walk.1
        stays,
    Holds-set_leaf height fuel mem p a In m key walk.0 c (some x) h apart has deep walk.1 at.kind
        change,
    IsApart-set_buf mem p height a In m walk.0 c at.kind h apart,
  )

  -- On a well-formed tree of an owner with a 64-bit key, whose leaves lie apart, for a key of the
  -- tree's range, a value that fits and fuel above its height, where the leaf of the key is not
  -- filled by one more pair: Put ends and gives back the root. The tree is well formed, its leaves
  -- lie apart, and it maps the key to the value and every other key as before.
  pub put_node-Holds :
      ((l : ℕ)
        → find_leaf fuel mem a key ≡ some l
        → (mem.nodes l).buf.entries + 1 < (mem.nodes l).buf.max_entries)
      → (after : MemControl) × (put_node fuel mem a key x none ≡ some (after, a))
        × Holds after p height a In (changed m key (some x))
        × IsApart after height a
  unfolding put_leaf
  put_node-Holds has_room = go looked
    where
      go :
          ((r : ℕ × Bool) × (find target key ≡ some r)
            × ((if r.1 then some (sort_value 8 target r.0) else none)
                ≡ lookup key (pairs 8 target p)))
          → (after : MemControl) × (put_node fuel mem a key x none ≡ some (after, a))
            × Holds after p height a In (changed m key (some x))
            × IsApart after height a
      go ((pos, true), e, value) =
          set_tree (update 8 target pos x)
            (update-Changes 8 p target key pos at.valid at.sorted hp at.pre x small e)
            λ above. rw e refl
      go ((pos, false), e, value) =
          let room : target.entries + 1 < target.max_entries = has_room walk.0 walk.1 in
          let le = (find-Locates 8 p target key pos at.valid at.sorted hp at.pre false e).0 in
          let f = put-fields 8 target pos key x at.valid (omega arith) le in
          let open_leaf : ((put 8 target pos key x).entries == (put 8 target pos key x).max_entries)
              ≡ false =
            ne→== (put 8 target pos key x).entries (put 8 target pos key x).max_entries
              (omega (arith, f)) in
          set_tree (put 8 target pos key x)
            (put-Changes 8 p target key pos at.valid at.sorted hp at.pre x (omega arith) small e)
            λ above.
              rw (e, ap (λ n. n.buf) (nodes-set_buf mem walk.0 (put 8 target pos key x)), open_leaf)
                refl

  -- On a well-formed tree of an owner with a 64-bit key, whose leaves lie apart, for a key of the
  -- tree's range, a value that fits and fuel above its height, Update of a key that the tree holds
  -- ends with true. The tree is well formed, its leaves lie apart, and it maps the key to the value
  -- and every other key as before.
  pub update_node-Holds :
      (old : ℕ)
      → m key ≡ some old
      → (after : MemControl) × (update_node fuel mem a key x ≡ some (after, true))
        × Holds after p height a In (changed m key (some x))
        × IsApart after height a
  unfolding update_node
  update_node-Holds old held = go looked
    where
      go :
          ((r : ℕ × Bool) × (find target key ≡ some r)
            × ((if r.1 then some (sort_value 8 target r.0) else none)
                ≡ lookup key (pairs 8 target p)))
          → (after : MemControl) × (update_node fuel mem a key x ≡ some (after, true))
            × Holds after p height a In (changed m key (some x))
            × IsApart after height a
      go ((pos, true), e, value) =
          let c : SortBuffer = update 8 target pos x in
          (
            set_buf mem walk.0 c,
            rw (walk.1, e) refl,
            Holds-set_leaf height fuel mem p a In m key walk.0 c (some x) h apart has deep walk.1
                at.kind (update-Changes 8 p target key pos at.valid at.sorted hp at.pre x small e),
            IsApart-set_buf mem p height a In m walk.0 c at.kind h apart,
          )
      go ((pos, false), e, value) = absurd (none≢some old (value ∙ at.maps ∙ held))
