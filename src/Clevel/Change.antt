-- ===== src/Clevel/Change.antt =====
-- A change of one leaf of the tree of src/clevel.cc, and `Node::Delete`.
use combotree_new.Prelude.{
  ℕ, zero, suc, ◌≤◌, ◌<◌, ◌≡◌, ◌≢◌, refl, arith, ap, ◌∙◌, sym, true, false, Option, some, ne→==,
  ==-refl,
}
use combotree_new.PmemKv.{lookup}
use combotree_new.SortBuffer.{SortBuffer, find_le}
use combotree_new.SortBuffer.Valid.{IsValid}
use combotree_new.SortBuffer.View.{pairs}
use combotree_new.SortBuffer.Search.{IsSorted}
use combotree_new.SortBuffer.AsMap.{HasPrefix}
use combotree_new.Clevel.{
  MemControl, leaf, index_node, is_leaf, get_child, set_node, set_buf, find_leaf,
}
use combotree_new.Clevel.Tree.{Holds, InPart, find_le-InPart}

-- The leaf at `l` is one of the tree at `a`.
unfoldable pub LeafUnder : MemControl → ℕ → ℕ → ℕ → Type 0
LeafUnder mem zero a l = a ≡ l
LeafUnder mem (suc height) a l =
    (i : ℕ) × (i ≤ (mem.nodes a).buf.entries) × LeafUnder mem height (get_child (mem.nodes a) i) l

-- No two children of a node share a leaf.
unfoldable pub IsApart : MemControl → ℕ → ℕ → Type 0
unfolding LeafUnder
IsApart mem zero a = Unit
IsApart mem (suc height) a =
    ((i : ℕ) → i ≤ (mem.nodes a).buf.entries → IsApart mem height (get_child (mem.nodes a) i))
    × ((i j l : ℕ)
        → i ≤ (mem.nodes a).buf.entries
        → j ≤ (mem.nodes a).buf.entries
        → LeafUnder mem height (get_child (mem.nodes a) i) l
        → LeafUnder mem height (get_child (mem.nodes a) j) l
        → i ≡ j)

pub nodes-set_buf_apart :
    (mem : MemControl) (l x : ℕ) (c : SortBuffer) → x ≢ l → (set_buf mem l c).nodes x ≡ mem.nodes x
unfolding set_buf set_node
nodes-set_buf_apart mem l x c apart = rw (ne→== x l apart) refl

pub nodes-set_buf :
    (mem : MemControl) (l : ℕ) (c : SortBuffer)
    → (set_buf mem l c).nodes l ≡ record (mem.nodes l) { buf = c }
unfolding set_buf set_node
nodes-set_buf mem l c = rw (==-refl l) refl

false≢true : false ≢ true
false≢true e = absurd (cc e)

pub index-apart :
    (mem : MemControl) (a l : ℕ)
    → (mem.nodes a).type ≡ index_node
    → (mem.nodes l).type ≡ leaf
    → a ≢ l
unfolding is_leaf
index-apart mem a l ha hl e =
    false≢true (sym (ap is_leaf ha) ∙ ap (λ (q : ℕ). is_leaf (mem.nodes q).type) e ∙ ap is_leaf hl)

-- Only what the tree maps the keys of `In` to matters.
pub Holds-ext :
    (mem : MemControl) (p height a : ℕ) (In : ℕ → Type 0) (m m' : ℕ → Option ℕ)
    → ((j : ℕ) → In j → m j ≡ m' j)
    → Holds mem p height a In m
    → Holds mem p height a In m'
unfolding Holds
Holds-ext mem p zero a In m m' same (node, pre, maps) =
    (node, pre, λ j has. maps j has ∙ same j has)
Holds-ext mem p (suc height) a In m m' same (node, small, parts) = (
  node,
  small,
  λ i le.
      Holds-ext mem p height (get_child (mem.nodes a) i) (λ j. In j × InPart (mem.nodes a).buf i j)
        m m' (λ j has. same j has.0) (parts i le),
)

-- A tree without the leaf is as before.
pub Holds-set_buf_apart :
    (mem : MemControl) (p height a : ℕ) (In : ℕ → Type 0) (m : ℕ → Option ℕ) (l : ℕ)
    (c : SortBuffer)
    → (mem.nodes l).type ≡ leaf
    → (LeafUnder mem height a l → ⊥)
    → Holds mem p height a In m
    → Holds (set_buf mem l c) p height a In m
unfolding Holds LeafUnder
Holds-set_buf_apart mem p zero a In m l c hl apart h = rw (nodes-set_buf_apart mem l a c apart) h
Holds-set_buf_apart mem p (suc height) a In m l c hl apart (node, small, parts) =
    rw (nodes-set_buf_apart mem l a c (index-apart mem a l node.0 hl)) (
      node,
      small,
      λ i le.
          Holds-set_buf_apart mem p height (get_child (mem.nodes a) i)
            (λ j. In j × InPart (mem.nodes a).buf i j) m l c hl (λ under. apart (i, le, under))
            (parts i le),
    )

LeafUnder-set_buf :
    (mem : MemControl) (p height a : ℕ) (In : ℕ → Type 0) (m : ℕ → Option ℕ) (l : ℕ)
    (c : SortBuffer) (x : ℕ)
    → (mem.nodes l).type ≡ leaf
    → Holds mem p height a In m
    → LeafUnder (set_buf mem l c) height a x
    → LeafUnder mem height a x
unfolding Holds LeafUnder
LeafUnder-set_buf mem p zero a In m l c x hl h under = under
LeafUnder-set_buf mem p (suc height) a In m l c x hl (node, small, parts) under =
    let (i, le, deeper) =
      rw (nodes-set_buf_apart mem l a c (index-apart mem a l node.0 hl)) at under in
    (
      i,
      le,
      LeafUnder-set_buf mem p height (get_child (mem.nodes a) i)
          (λ j. In j × InPart (mem.nodes a).buf i j) m l c x hl (parts i le) deeper,
    )

pub IsApart-set_buf :
    (mem : MemControl) (p height a : ℕ) (In : ℕ → Type 0) (m : ℕ → Option ℕ) (l : ℕ)
    (c : SortBuffer)
    → (mem.nodes l).type ≡ leaf
    → Holds mem p height a In m
    → IsApart mem height a
    → IsApart (set_buf mem l c) height a
unfolding Holds IsApart
IsApart-set_buf mem p zero a In m l c hl h apart = tt
IsApart-set_buf mem p (suc height) a In m l c hl (node, small, parts) (below, apart) =
    let back = λ (i : ℕ) (le : i ≤ (mem.nodes a).buf.entries) (x : ℕ).
      LeafUnder-set_buf mem p height (get_child (mem.nodes a) i)
        (λ j. In j × InPart (mem.nodes a).buf i j) m l c x hl (parts i le) in
    rw (nodes-set_buf_apart mem l a c (index-apart mem a l node.0 hl)) (
      (λ i le.
          IsApart-set_buf mem p height (get_child (mem.nodes a) i)
            (λ j. In j × InPart (mem.nodes a).buf i j) m l c hl (parts i le) (below i le)),
      λ i j x le le' under under'. apart i j x le le' (back i le x under) (back j le' x under'),
    )

-- What the walk down to the leaf of a key finds.
pub record IsLeafOf (mem : MemControl) (p height a l key : ℕ) (m : ℕ → Option ℕ) : Type 0 where
  pub kind : (mem.nodes l).type ≡ leaf
  pub valid : IsValid 8 (mem.nodes l).buf
  pub sorted : IsSorted (mem.nodes l).buf
  pub pre : HasPrefix (mem.nodes l).buf.suffix_bytes p key
  pub maps : lookup key (pairs 8 (mem.nodes l).buf p) ≡ m key
  pub under : LeafUnder mem height a l

pub find_leaf-IsLeafOf :
    (height fuel : ℕ) (mem : MemControl) (p a : ℕ) (In : ℕ → Type 0) (m : ℕ → Option ℕ) (key : ℕ)
    → Holds mem p height a In m
    → In key
    → height < fuel
    → (l : ℕ) × (find_leaf fuel mem a key ≡ some l) × IsLeafOf mem p height a l key m
unfolding find_leaf Holds is_leaf LeafUnder
find_leaf-IsLeafOf zero zero mem p a In m key h has lt = absurd (omega arith)
find_leaf-IsLeafOf (suc height) zero mem p a In m key h has lt = absurd (omega arith)
find_leaf-IsLeafOf zero (suc fuel) mem p a In m key (node, pre, maps) has lt = (
  a,
  rw (node.0) refl,
  record {
    kind = node.0;
    valid = node.1;
    sorted = node.2;
    pre = pre key has;
    maps = maps key has;
    under = refl;
  },
)
find_leaf-IsLeafOf (suc height) (suc fuel) mem p a In m key (node, small, parts) has lt =
    let i : ℕ = (find_le (mem.nodes a).buf key).0 in
    let (le, part) = find_le-InPart 6 (mem.nodes a).buf key node.1 node.2 (small key has) in
    let (l, e, found) =
      find_leaf-IsLeafOf height fuel mem p (get_child (mem.nodes a) i)
        (λ k. In k × InPart (mem.nodes a).buf i k) m key (parts i le) (has, part) (omega arith) in
    (
      l,
      rw (node.0) e,
      record {
        kind = found.kind;
        valid = found.valid;
        sorted = found.sorted;
        pre = found.pre;
        maps = found.maps;
        under = (i, le, found.under);
      },
    )
