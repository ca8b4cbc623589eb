-- ===== src/Clevel/Delete.antt =====
-- `Node::Delete` of src/clevel.cc on a tree.
use combotree_new.Prelude.{
  ℕ, zero, suc, ◌≤◌, ◌<◌, ◌≡◌, refl, arith, ap, ◌∙◌, sym, subst, Bool, true, false, Option, none,
  some, ◌==◌, if◌then◌else◌, Bool-cases, inl, inr, ne→==, ==→eq, ==→ne,
}
use combotree_new.Word.{word_mod}
use combotree_new.PmemKv.{lookup}
use combotree_new.SortBuffer.{SortBuffer, find, find_le, sort_value, delete}
use combotree_new.SortBuffer.View.{pairs}
use combotree_new.SortBuffer.AsMap.{Changes, delete-Changes}
use combotree_new.Clevel.{MemControl, leaf, is_leaf, get_child, set_buf, find_leaf, delete_node}
use combotree_new.Clevel.Tree.{Holds, InPart, find_le-InPart, find-lookup}
use combotree_new.Clevel.Change.{
  LeafUnder, IsApart, nodes-set_buf, nodes-set_buf_apart, index-apart, Holds-ext,
  Holds-set_buf_apart, IsApart-set_buf, find_leaf-IsLeafOf, IsLeafOf,
}

-- The map `m` with the key sent to `new`.
abbrev pub changed : (ℕ → Option ℕ) → ℕ → Option ℕ → ℕ → Option ℕ
changed m key new j = if j == key then new else m j

pub some-injective : (a b : ℕ) → some a ≡ some b → a ≡ b
some-injective a b e = ap value_of e
  where
    value_of : Option ℕ → ℕ
    value_of none = a
    value_of (some x) = x

-- A key belongs to one child only.
InPart-unique :
    (b : SortBuffer) (i j key : ℕ)
    → i ≤ b.entries
    → j ≤ b.entries
    → InPart b i key
    → InPart b j key
    → i ≡ j
InPart-unique b i j key hi hj (below, above) (below', above') = elim (Bool-cases (i == j)) [
  | inl same ↦ ==→eq i j same
  | inr other ↦ absurd (grind (arith, ==→ne i j other, below' i, above i, below j, above' j))
]

Holds-set_leaf_at :
    (mem : MemControl) (p a l : ℕ) (In : ℕ → Type 0) (m : ℕ → Option ℕ) (key : ℕ) (c : SortBuffer)
    (new : Option ℕ)
    → Holds mem p zero a In m
    → a ≡ l
    → Changes 8 p (mem.nodes l).buf c key new
    → Holds (set_buf mem l c) p zero a In (changed m key new)
unfolding Holds
Holds-set_leaf_at mem p a l In m key c new (node, pre, maps) e change =
    subst
      (λ (l : ℕ).
        Changes 8 p (mem.nodes l).buf c key new
        → Holds (set_buf mem l c) p zero a In (changed m key new))
      e
      (λ change. rw (nodes-set_buf mem a c) (
        (node.0, change.valid, change.sorted),
        (λ j has. rw (change.suffix_kept) (pre j has)),
        λ j has. change.maps j ∙ ap (λ (q : Option ℕ). if j == key then new else q) (maps j has),
      ))
      change

-- The change of the child to which the key belongs, seen from the node above it.
Holds-set_part :
    (height : ℕ) (mem : MemControl) (p a : ℕ) (In : ℕ → Type 0) (m : ℕ → Option ℕ) (key l r : ℕ)
    (c : SortBuffer) (new : Option ℕ)
    → Holds mem p (suc height) a In m
    → IsApart mem (suc height) a
    → (mem.nodes l).type ≡ leaf
    → r ≤ (mem.nodes a).buf.entries
    → InPart (mem.nodes a).buf r key
    → LeafUnder mem height (get_child (mem.nodes a) r) l
    → Holds
        (set_buf mem l c)
        p
        height
        (get_child (mem.nodes a) r)
        (λ j. In j × InPart (mem.nodes a).buf r j)
        (changed m key new)
    → Holds (set_buf mem l c) p (suc height) a In (changed m key new)
unfolding Holds IsApart
Holds-set_part height mem p a In m key l r c new (node, small, parts) (below, apart) hl le part
      leaf_under inside =
    rw (nodes-set_buf_apart mem l a c (index-apart mem a l node.0 hl)) (
      node,
      small,
      λ i hi. elim (Bool-cases (i == r)) [
        | inl same ↦
            subst
              (λ (i : ℕ).
                Holds (set_buf mem l c) p height (get_child (mem.nodes a) i)
                  (λ j. In j × InPart b i j) (changed m key new))
              (sym (==→eq i r same)) inside
        | inr other ↦
            Holds-ext (set_buf mem l c) p height (get_child (mem.nodes a) i)
              (λ j. In j × InPart b i j) m (changed m key new)
              (λ j has.
                rw
                  (ne→== j key (λ q.
                    ==→ne i r other (
                      InPart-unique b i r key hi le (subst (λ (j : ℕ). InPart b i j) q has.1)
                        part)))
                  refl)
              (Holds-set_buf_apart mem p height (get_child (mem.nodes a) i)
                (λ j. In j × InPart b i j) m l c hl
                (λ under. ==→ne i r other (apart i r l hi le under leaf_under)) (parts i hi))
      ],
    )
  where
    b : SortBuffer
    b = (mem.nodes a).buf

-- A change of the leaf of a key is a change of the tree's map at that key.
pub Holds-set_leaf :
    (height fuel : ℕ) (mem : MemControl) (p a : ℕ) (In : ℕ → Type 0) (m : ℕ → Option ℕ) (key l : ℕ)
    (c : SortBuffer) (new : Option ℕ)
    → Holds mem p height a In m
    → IsApart mem height a
    → In key
    → height < fuel
    → find_leaf fuel mem a key ≡ some l
    → (mem.nodes l).type ≡ leaf
    → Changes 8 p (mem.nodes l).buf c key new
    → Holds (set_buf mem l c) p height a In (changed m key new)
unfolding Holds IsApart find_leaf is_leaf
Holds-set_leaf zero zero mem p a In m key l c new h apart has lt e hl change = absurd (omega arith)
Holds-set_leaf (suc height) zero mem p a In m key l c new h apart has lt e hl change =
    absurd (omega arith)
Holds-set_leaf zero (suc fuel) mem p a In m key l c new (node, pre, maps) apart has lt e hl change =
    Holds-set_leaf_at mem p a l In m key c new (node, pre, maps)
      (some-injective a l (rw (node.0) at e)) change
Holds-set_leaf (suc height) (suc fuel) mem p a In m key l c new (node, small, parts) apart has lt e
      hl change =
    let r : ℕ = (find_le (mem.nodes a).buf key).0 in
    let child : ℕ = get_child (mem.nodes a) r in
    let (le, part) = find_le-InPart 6 (mem.nodes a).buf key node.1 node.2 (small key has) in
    let deeper : find_leaf fuel mem child key ≡ some l = rw (node.0) at e in
    let (l', e', found) =
      find_leaf-IsLeafOf height fuel mem p child (λ k. In k × InPart (mem.nodes a).buf r k) m key
        (parts r le) (has, part) (omega arith) in
    Holds-set_part height mem p a In m key l r c new (node, small, parts) apart hl le part
      (subst (LeafUnder mem height child) (some-injective l' l (sym e' ∙ deeper)) found.under)
      (Holds-set_leaf height fuel mem p child (λ k. In k × InPart (mem.nodes a).buf r k) m key l c
        new (parts r le) (apart.0 r le) (has, part) (omega arith) deeper hl change)

-- On a well-formed tree of an owner with a 64-bit key, whose leaves lie apart, with fuel above its
-- height, Delete of a key of the tree's range ends with true and the value that the tree mapped the
-- key to. The tree after it is well formed, its leaves lie apart, and it maps what it did before
-- but for the key.
pub delete_node-Holds :
    (height fuel : ℕ) (mem : MemControl) (p a : ℕ) (In : ℕ → Type 0) (m : ℕ → Option ℕ) (key : ℕ)
    → Holds mem p height a In m
    → IsApart mem height a
    → p < word_mod
    → In key
    → height < fuel
    → (after : MemControl) × (delete_node fuel mem a key ≡ some (after, m key, true))
      × Holds after p height a In (changed m key none)
      × IsApart after height a
unfolding delete_node
delete_node-Holds height fuel mem p a In m key h apart hp has lt = search found
  where
    walk : (l : ℕ) × (find_leaf fuel mem a key ≡ some l) × IsLeafOf mem p height a l key m
    walk = find_leaf-IsLeafOf height fuel mem p a In m key h has lt

    l : ℕ
    l = walk.0

    at : IsLeafOf mem p height a l key m
    at = walk.2

    b : SortBuffer
    b = (mem.nodes l).buf

    found :
        (r : ℕ × Bool) × (find b key ≡ some r)
        × ((if r.1 then some (sort_value 8 b r.0) else none) ≡ lookup key (pairs 8 b p))
    found = find-lookup b p key at.valid at.sorted hp at.pre

    search :
        ((r : ℕ × Bool) × (find b key ≡ some r)
          × ((if r.1 then some (sort_value 8 b r.0) else none) ≡ lookup key (pairs 8 b p)))
        → (after : MemControl) × (delete_node fuel mem a key ≡ some (after, m key, true))
          × Holds after p height a In (changed m key none)
          × IsApart after height a
    search ((pos, true), e, value) = (
      set_buf mem l (delete b pos),
      rw (walk.1, e)
          (ap (λ (q : Option ℕ). some (set_buf mem l (delete b pos), q, true)) (value ∙ at.maps)),
      Holds-set_leaf height fuel mem p a In m key l (delete b pos) none h apart has lt walk.1
          at.kind (delete-Changes 8 p b key pos at.valid at.sorted hp at.pre e),
      IsApart-set_buf mem p height a In m l (delete b pos) at.kind h apart,
    )
    search ((pos, false), e, value) = (
      mem,
      rw (walk.1, e) (ap (λ (q : Option ℕ). some (mem, q, true)) (value ∙ at.maps)),
      Holds-ext mem p height a In m (changed m key none)
          (λ j has. elim (Bool-cases (j == key)) [
            | inl same ↦ rw same (ap m (==→eq j key same) ∙ sym (value ∙ at.maps))
            | inr other ↦ rw other refl
          ])
          h,
      apart,
    )
