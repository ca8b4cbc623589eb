-- ===== src/Clevel/Shape/Regrown.antt =====
-- An index node of src/clevel.cc after `Put` on one of its children has split the child.
use combotree_new.Prelude.{
  ℕ, zero, suc, ◌+◌, ◌^◌, ◌≤◌, ◌<◌, ◌≡◌, ◌≢◌, arith, sym, subst, Option, some, ltb, ◌==◌,
  Bool-cases, inl, inr, ==→eq, ==→ne, ltb→lt,
}
use combotree_new.Clevel.{MemControl, Node, get_child}
use combotree_new.Clevel.Delete.{changed}
use combotree_new.Clevel.Shape.{IsRange, IsIndex, IsTree, Home, low_at, high_at, keys_of}
use combotree_new.Clevel.Shape.Frame.{IsTree-known}
use combotree_new.Clevel.Shape.Insert.{
  grown-fields, grown-IsIndex, key-new, child-before, child-new, child-after, low-before, low-after,
  high-before, high-place, high-after,
}
use combotree_new.Clevel.Shape.Outcome.{Splits, with_child}
use combotree_new.Clevel.Shape.Parts.{IsTree-place}
use combotree_new.Clevel.Shape.Sibling.{sibling-IsTree}

module _ (s p : ℕ) (mem : MemControl) (home : Home) (height a lo hi : ℕ) (m : ℕ → Option ℕ)
    (key x : ℕ) (range : IsRange s p lo hi) (at : home a ≡ (suc height, lo))
    (node : IsIndex s p (mem.nodes a) lo hi) (q : ℕ) (le : q ≤ (mem.nodes a).buf.entries)
    (from : low_at (keys_of p (mem.nodes a).buf) lo q ≤ key)
    (to : key < high_at (keys_of p (mem.nodes a).buf) hi (mem.nodes a).buf.entries q)
    (after : MemControl) (home' : Home) (fresh separator : ℕ)
    (room : (mem.nodes a).buf.entries < (mem.nodes a).buf.max_entries)
    (parts : (i : ℕ)
      → i ≤ (mem.nodes a).buf.entries
      → IsTree s p mem home height
          (get_child (mem.nodes a) i)
          (low_at (keys_of p (mem.nodes a).buf) lo i)
          (high_at (keys_of p (mem.nodes a).buf) hi (mem.nodes a).buf.entries i)
          m)
    (h : Splits s p mem home height
      (get_child (mem.nodes a) q)
      a
      q
      (low_at (keys_of p (mem.nodes a).buf) lo q)
      (high_at (keys_of p (mem.nodes a).buf) hi (mem.nodes a).buf.entries q)
      (changed m key (some x))
      after
      home'
      fresh
      separator)
    (memory : after.cur_addr ≤ 2 ^ 48) where
  abbrev n : Node
  n = mem.nodes a

  abbrev grown : Node
  grown = with_child n q separator fresh

  abbrev after_map : ℕ → Option ℕ
  after_map = changed m key (some x)

  small : fresh < 256 ^ 6
  small = omega (
    arith,
    (IsTree-known s p after home' height fresh separator
        (high_at (keys_of p n.buf) hi n.buf.entries q) after_map h.upper).1,
  )

  pub regrown-IsIndex : IsIndex s p grown lo hi
  regrown-IsIndex =
      grown-IsIndex s p lo hi n q separator fresh range node room le h.above h.below small

  pub regrown-fields :
      (grown.buf.suffix_bytes ≡ n.buf.suffix_bytes)
      × (grown.buf.max_entries ≡ n.buf.max_entries)
      × (grown.buf.entries ≡ n.buf.entries + 1)
  regrown-fields =
      grown-fields s p lo hi n q separator fresh range node room le h.above h.below small

  abbrev PartAt : ℕ → Type 0
  PartAt i =
      IsTree s p after home' height (get_child grown i) (low_at (keys_of p grown.buf) lo i)
        (high_at (keys_of p grown.buf) hi grown.buf.entries i) after_map

  sibling :
      (i : ℕ)
      → i ≤ n.buf.entries
      → i ≢ q
      → IsTree s p after home' height
          (get_child n i)
          (low_at (keys_of p n.buf) lo i)
          (high_at (keys_of p n.buf) hi n.buf.entries i)
          after_map
  sibling i le' d =
      sibling-IsTree s p mem home height a lo hi m key (some x) range at node q le from to after
        home' h.within i le' d (parts i le')

  part-before : (i : ℕ) → i < q → PartAt i
  part-before i lt =
      IsTree-place s p after home' height lo hi after_map _ _ _ _ _ _
        (child-before s p lo hi n q separator fresh range node room le h.above h.below small i
          (omega arith))
        (low-before s p lo hi n q separator fresh range node room le h.above h.below small i
          (omega arith))
        (high-before s p lo hi n q separator fresh range node room le h.above h.below small i lt)
        (sibling i (omega arith) (λ e. absurd (omega arith)))

  part-place : PartAt q
  part-place =
      IsTree-place s p after home' height lo hi after_map _ _ _ _ _ _
        (child-before s p lo hi n q separator fresh range node room le h.above h.below small q
          (omega arith))
        (low-before s p lo hi n q separator fresh range node room le h.above h.below small q
          (omega arith))
        (high-place s p lo hi n q separator fresh range node room le h.above h.below small) h.lower

  part-new : PartAt (suc q)
  part-new =
      IsTree-place s p after home' height lo hi after_map _ _ _ _ _ _
        (child-new s p lo hi n q separator fresh range node room le h.above h.below small)
        (key-new s p lo hi n q separator fresh range node room le h.above h.below small)
        (high-after s p lo hi n q separator fresh range node room le h.above h.below small q
          (omega arith) le)
        h.upper

  part-after : (i : ℕ) → q < i → i ≤ n.buf.entries → PartAt (suc i)
  part-after i lt le' =
      IsTree-place s p after home' height lo hi after_map _ _ _ _ _ _
        (child-after s p lo hi n q separator fresh range node room le h.above h.below small i lt
          le')
        (low-after s p lo hi n q separator fresh range node room le h.above h.below small i lt le')
        (high-after s p lo hi n q separator fresh range node room le h.above h.below small i
          (omega arith) le')
        (sibling i le' (λ e. absurd (omega arith)))

  -- The children of the node that has got the new one are trees, for the changed map.
  pub regrown-parts : (i : ℕ) → i ≤ grown.buf.entries → PartAt i
  regrown-parts i le' = elim (Bool-cases (ltb i q)) [
    | inl before ↦ part-before i (ltb→lt i q before)
    | inr late ↦ elim (Bool-cases (i == q)) [
      | inl place ↦ subst PartAt (sym (==→eq i q place)) part-place
      | inr other ↦ behind i le' (ground (arith, ==→ne i q other))
    ]
  ]
    where
      behind : (i : ℕ) → i ≤ grown.buf.entries → q < i → PartAt i
      behind zero le' lt = absurd (omega arith)
      behind (suc i) le' lt = elim (Bool-cases (i == q)) [
        | inl new ↦ subst (λ j. PartAt (suc j)) (sym (==→eq i q new)) part-new
        | inr other ↦ part-after i (ground (arith, ==→ne i q other)) (omega (arith, regrown-fields))
      ]
