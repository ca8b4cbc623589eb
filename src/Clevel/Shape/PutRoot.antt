-- ===== src/Clevel/Shape/PutRoot.antt =====
-- `CLevel::Put` of src/clevel.cc: the tree of a root, which may get a new root.

use combotree_new.Prelude.{
  ◌⊎◌, inr, ◌%◌, ℕ, zero, suc, ◌+◌, ◌*◌, ◌^◌, ◌≤◌, ◌<◌, ◌≡◌, refl, arith, ap, ◌∙◌, subst, Option,
  none, some, ==-refl, ne→==,
}
use combotree_new.SortBuffer.{find, fresh}
use combotree_new.Clevel.{MemControl, split_leaf, split_index}
use combotree_new.Clevel.Shape.{IsRange, IsLeaf, IsTree, Home}
use combotree_new.Clevel.Shape.Frame.{Keeps}
use combotree_new.Clevel.Shape.Outcome.{new_home, with_child}
use combotree_new.Clevel.Shape.RootSplit.{
  IsRootSplit, bare_root, split_leaf-IsRootSplit, split_index-IsRootSplit,
}
use combotree_new.Clevel.Shape.RootTree.{find-bare, root-IsTree}
use combotree_new.Clevel.Shape.SplitLeaf.{
  leaf_separator, leaf_separator-between, leaf_separator_read, lower_half as lower_leaf_half,
  upper_half as upper_leaf_half, lower_leaf-IsTree, upper_leaf-IsTree,
}
use combotree_new.Clevel.Shape.SplitNode.{
  index_separator, index_separator-between, index_separator_read, lower_half as lower_index_half,
  upper_half as upper_index_half, lower_index-IsTree, upper_index-IsTree,
}
use combotree_new.Clevel.Shape.IndexCases.{HasParts}

-- The result is a root whose tree is of the height of the one at `a` or one higher, with at most one
-- node more for each level. The root is that at `a` or a new node.
abbrev pub Grows :
    ℕ → ℕ → MemControl → ℕ → ℕ → ℕ → ℕ → (ℕ → Option ℕ) → Option (MemControl × ℕ) → Type 0
Grows s p mem height a lo hi m result =
    (after : MemControl) × (home : Home) × (height' : ℕ) × (root : ℕ) × (result
      ≡ some (after, root))
    × IsTree s p after home height' root lo hi m
    × (height' ≤ height + 1)
    × (after.cur_addr ≤ mem.cur_addr + 128 * (height + 2))
    × (after.cur_addr % 128 ≡ mem.cur_addr % 128)
    × ((root ≡ a) ⊎ (root % 128 ≡ mem.cur_addr % 128))

-- The homes after a split of a root.
abbrev pub root_home : Home → ℕ → ℕ → ℕ → ℕ → Home
root_home home n height separator lo =
    new_home (new_home home n height separator) (n + 128) (suc height) lo

module _ (home : Home) (n height separator lo : ℕ) where
  root_home-root : root_home home n height separator lo (n + 128) ≡ (suc height, lo)
  root_home-root = rw (==-refl (n + 128)) refl

  root_home-new : root_home home n height separator lo n ≡ (height, separator)
  root_home-new = rw (ne→== n (n + 128) (λ e. absurd (omega arith)), ==-refl n) refl

  root_home-old : (x : ℕ) → x < n → root_home home n height separator lo x ≡ home x
  root_home-old x lt =
      rw (ne→== x (n + 128) (λ e. absurd (omega arith)), ne→== x n (λ e. absurd (omega arith))) refl

-- The new root of a full leaf.
module _ (s p : ℕ) (mem : MemControl) (home : Home) (a lo hi : ℕ) (m : ℕ → Option ℕ) (key : ℕ)
    (range : IsRange s p lo hi) (at : home a ≡ (zero, lo)) (known : a < mem.cur_addr)
    (node : IsLeaf s p (mem.nodes a) lo hi m)
    (full : (mem.nodes a).buf.entries ≡ (mem.nodes a).buf.max_entries) (low : lo ≤ key)
    (high : key < hi) (memory : mem.cur_addr + 128 * 2 ≤ 2 ^ 48) where
  abbrev leaf_sep : ℕ
  leaf_sep = leaf_separator s p mem a lo hi m key range node full low high

  pub split_leaf-Grows : Grows s p mem 0 a lo hi m (split_leaf mem a key none)
  split_leaf-Grows =
      let (above, below) = leaf_separator-between s p mem a lo hi m key range node full low high in
      let read = leaf_separator_read s p mem a lo hi m key range node full low high in
      let (after, e, h) = split_leaf-IsRootSplit mem a key known (λ old.
        ap (find (fresh old (mem.nodes a).buf.suffix_bytes)) read
        ∙ ap (λ (q : ℕ). find (fresh old q) leaf_sep) node.node.suffix
        ∙ find-bare s p lo hi range a old leaf_sep above below) in
      grow after e (
        subst
          (λ q.
            IsRootSplit mem a q (lower_leaf_half s p mem a lo hi m key range node full low high)
              (upper_leaf_half s p mem a lo hi m key range node full low high) after)
          read h)
    where
      grow :
          (after : MemControl)
          → split_leaf mem a key none ≡ some (after, mem.cur_addr + 128)
          → IsRootSplit mem a leaf_sep
              (lower_leaf_half s p mem a lo hi m key range node full low high)
              (upper_leaf_half s p mem a lo hi m key range node full low high)
              after
          → Grows s p mem 0 a lo hi m (split_leaf mem a key none)
      grow after e h =
          let (above, below) =
            leaf_separator-between s p mem a lo hi m key range node full low high in
          let home' : Home = root_home home mem.cur_addr 0 leaf_sep lo in
          (
            after,
            home',
            1,
            mem.cur_addr + 128,
            e,
            root-IsTree s p after home' 0 a mem.cur_addr (mem.cur_addr + 128) lo hi m range leaf_sep
                (mem.nodes (mem.cur_addr + 128)).buf.buf above below
                (lower_leaf-IsTree s p mem a lo hi m key range node full low high after home'
                  (root_home-old home mem.cur_addr 0 leaf_sep lo a known ∙ at)
                  (omega (arith, h.cur)) h.at_old)
                (upper_leaf-IsTree s p mem a lo hi m key range node full low high after home'
                  (root_home-new home mem.cur_addr 0 leaf_sep lo) (omega (arith, h.cur)) h.at_new)
                (omega (arith, h.cur, memory)) (omega (arith, h.cur))
                (root_home-root home mem.cur_addr 0 leaf_sep lo)
                (h.at_root
                  ∙ ap
                      (λ (q : ℕ).
                        with_child (bare_root a (mem.nodes (mem.cur_addr + 128)).buf.buf q) 0
                          leaf_sep mem.cur_addr)
                      node.node.suffix),
            omega arith,
            omega (arith, h.cur),
            omega (arith, h.cur),
            inr (omega arith),
          )

-- The new root of a full index node.
module _ (s p : ℕ) (mem : MemControl) (home : Home) (height a lo hi : ℕ) (m : ℕ → Option ℕ)
    (key : ℕ) (range : IsRange s p lo hi) (at : home a ≡ (suc height, lo))
    (known : a < mem.cur_addr) (has : HasParts s p mem home height lo hi m (mem.nodes a))
    (full : (mem.nodes a).buf.entries ≡ (mem.nodes a).buf.max_entries) (low : lo ≤ key)
    (high : key < hi) (memory : mem.cur_addr + 128 * 2 ≤ 2 ^ 48) where
  pub below_top : mem.cur_addr ≤ 2 ^ 48
  below_top = omega arith

  abbrev index_sep : ℕ
  index_sep = index_separator s p mem home height a lo hi m range has.0 full has.1 below_top

  abbrev pub index_home : Home
  index_home = root_home home mem.cur_addr (suc height) index_sep lo

  pub split_index-Grows :
      (after : MemControl) × (root : ℕ) × (split_index mem a key none ≡ some (after, root))
      × IsTree s p after index_home (suc (suc height)) root lo hi m
      × (after.cur_addr ≡ mem.cur_addr + 128 + 128)
      × (root ≡ mem.cur_addr + 128)
  split_index-Grows =
      let (above, below) =
        index_separator-between s p mem home height a lo hi m range has.0 full has.1 below_top in
      let read =
        index_separator_read s p mem home height a lo hi m range has.0 full has.1 below_top key low
          high in
      let (after, e, h) = split_index-IsRootSplit mem a key known (λ old.
        ap (find (fresh old (mem.nodes a).buf.suffix_bytes)) read
        ∙ ap (λ (q : ℕ). find (fresh old q) index_sep) has.0.node.suffix
        ∙ find-bare s p lo hi range a old index_sep above below) in
      grow after e (
        subst
          (λ q.
            IsRootSplit mem a q
              (lower_index_half s p mem home height a lo hi m range has.0 full has.1 below_top)
              (upper_index_half s p mem home height a lo hi m range has.0 full has.1 below_top)
              after)
          read h)
    where
      grow :
          (after : MemControl)
          → split_index mem a key none ≡ some (after, mem.cur_addr + 128)
          → IsRootSplit mem a index_sep
              (lower_index_half s p mem home height a lo hi m range has.0 full has.1 below_top)
              (upper_index_half s p mem home height a lo hi m range has.0 full has.1 below_top)
              after
          → (after : MemControl) × (root : ℕ) × (split_index mem a key none ≡ some (after, root))
            × IsTree s p after index_home (suc (suc height)) root lo hi m
            × (after.cur_addr ≡ mem.cur_addr + 128 + 128)
            × (root ≡ mem.cur_addr + 128)
      grow after e h =
          let (above, below) =
            index_separator-between s p mem home height a lo hi m range has.0 full has.1
              below_top in
          let homes = root_home-old home mem.cur_addr (suc height) index_sep lo in
          let keeps : Keeps mem home after index_home height lo hi = record {
            grows = omega (arith, h.cur);
            nodes = λ y lt small under over.
                h.other y
                  (λ e. absurd (omega (arith, ap (λ (t : ℕ). (home t).0) e, ap (λ t. t.0) at))) lt;
            homes = homes;
          } in
          (
            after,
            mem.cur_addr + 128,
            e,
            root-IsTree s p after index_home (suc height) a mem.cur_addr (mem.cur_addr + 128) lo hi
                m range index_sep (mem.nodes (mem.cur_addr + 128)).buf.buf above below
                (lower_index-IsTree s p mem home height a lo hi m range has.0 full has.1 below_top
                  after index_home keeps (homes a known ∙ at) (omega (arith, h.cur)) h.at_old)
                (upper_index-IsTree s p mem home height a lo hi m range has.0 full has.1 below_top
                  after index_home keeps (root_home-new home mem.cur_addr (suc height) index_sep lo)
                  (omega (arith, h.cur)) h.at_new)
                (omega (arith, h.cur, memory)) (omega (arith, h.cur))
                (root_home-root home mem.cur_addr (suc height) index_sep lo)
                (h.at_root
                  ∙ ap
                      (λ (q : ℕ).
                        with_child (bare_root a (mem.nodes (mem.cur_addr + 128)).buf.buf q) 0
                          index_sep mem.cur_addr)
                      has.0.node.suffix),
            h.cur,
            refl,
          )
