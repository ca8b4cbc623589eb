-- ===== src/Clevel/Shape/Sibling.antt =====
-- What the other children of an index node of src/clevel.cc are after `Put` on one of them.
use combotree_new.Prelude.{
  ℕ, zero, suc, ◌≤◌, ◌<◌, ◌≡◌, ◌≢◌, ◌⊎◌, refl, arith, ap, Option, ltb, ◌==◌, Bool-cases, inl, inr,
  ==→eq, ==→ne, ne→==, lt→ltb,
}
use combotree_new.Clevel.{MemControl, Node, get_child}
use combotree_new.Clevel.Delete.{changed}
use combotree_new.Clevel.Shape.{
  IsRange, IsIndex, IsTree, Home, low_at, high_at, keys_of, keys_of-IsAscending, part-within,
}
use combotree_new.Clevel.Shape.Frame.{Keeps, IsTree-Keeps, IsTree-ext}
use combotree_new.Clevel.Shape.Outcome.{Within}

-- The bounds of an earlier child end where those of a later one begin, or before.
pub high-le-low :
    (s p lo hi : ℕ) (n : Node)
    → IsRange s p lo hi
    → IsIndex s p n lo hi
    → (i j : ℕ) → i < j
    → j ≤ n.buf.entries
    → high_at (keys_of p n.buf) hi n.buf.entries i ≤ low_at (keys_of p n.buf) lo j
high-le-low s p lo hi n range h i zero lt le = absurd (omega arith)
high-le-low s p lo hi n range h i (suc j) lt le =
    rw (lt→ltb i n.buf.entries (omega arith)) (elim (Bool-cases (i == j)) [
      | inl same ↦ omega (arith, ap (keys_of p n.buf) (==→eq i j same))
      | inr other ↦
          let before : i < j = ground (arith, ==→ne i j other) in
          omega (arith, keys_of-IsAscending s 6 p n.buf h.node range.owner i j before (omega arith))
    ])

module _ (s p : ℕ) (mem : MemControl) (home : Home) (height a lo hi : ℕ) (m : ℕ → Option ℕ)
    (key : ℕ) (new : Option ℕ) (range : IsRange s p lo hi) (at : home a ≡ (suc height, lo))
    (node : IsIndex s p (mem.nodes a) lo hi) where
  abbrev n : Node
  n = mem.nodes a

  abbrev low : ℕ → ℕ
  low i = low_at (keys_of p n.buf) lo i

  abbrev high : ℕ → ℕ
  high i = high_at (keys_of p n.buf) hi n.buf.entries i

  module _ (q : ℕ) (le : q ≤ n.buf.entries) (from : low q ≤ key) (to : key < high q)
      (after : MemControl) (home' : Home)
      (within : Within mem home after home' height (low q) (high q) a) where
    pub sibling-Keeps :
        (i : ℕ) → i ≤ n.buf.entries → i ≢ q → Keeps mem home after home' height (low i) (high i)
    sibling-Keeps i le' d = record {
      grows = within.grows;
      nodes = λ y known small over under.
          within.kept y known
            (λ e. absurd (omega (arith, ap (λ (t : ℕ). (home t).0) e, ap (λ t. t.0) at)))
            (inr (side y over under));
      homes = within.homes;
    }
      where
        side :
            (y : ℕ)
            → low i ≤ (home y).1
            → (home y).1 < high i
            → ((home y).1 < low q) ⊎ (high q ≤ (home y).1)
        side y over under = elim (Bool-cases (ltb i q)) [
          | inl before ↦
              inl (omega (arith, high-le-low s p lo hi n range node i q (ground arith) le))
          | inr behind ↦
              inr (omega (arith, high-le-low s p lo hi n range node q i (ground (arith, d)) le'))
        ]

    -- A child other than that of the key is the same tree, for the changed map too.
    pub sibling-IsTree :
        (i : ℕ)
        → i ≤ n.buf.entries
        → i ≢ q
        → IsTree s p mem home height (get_child n i) (low i) (high i) m
        → IsTree s p after home' height (get_child n i) (low i) (high i) (changed m key new)
    sibling-IsTree i le' d tree =
        let (below, between, above) =
          part-within s p lo hi i n node range.owner range.some_key le' in
        IsTree-ext s p after home' height (get_child n i) (low i) (high i) m (changed m key new)
          range.owner between same
          (IsTree-Keeps s p mem after home home' height (get_child n i) (low i) (high i) m
            range.owner between (sibling-Keeps i le' d) tree)
      where
        same : (k : ℕ) → low i ≤ k → k < high i → m k ≡ changed m key new k
        same k over under = rw (ne→== k key apart) refl
          where
            apart : k ≢ key
            apart e = elim (Bool-cases (ltb i q)) [
              | inl before ↦
                  absurd (omega (arith, high-le-low s p lo hi n range node i q (ground arith) le))
              | inr behind ↦
                  absurd
                    (omega (arith, high-le-low s p lo hi n range node q i (ground (arith, d)) le'))
            ]

    -- What changes in the child's range and in the node itself is within the node's own range.
    pub Within-above : (par : ℕ) → Within mem home after home' (suc height) lo hi par
    Within-above par =
        let (below, between, above) =
          part-within s p lo hi q n node range.owner range.some_key le in
        record {
          grows = within.grows;
          few = omega (arith, within.few);
          aligned = within.aligned;
          homes = within.homes;
          kept =
              λ y known d out. within.kept y known (λ e. inside y e out) (wider y out below above);
        }
      where
        inside :
            (y : ℕ)
            → y ≡ a
            → ((suc height < (home y).0) ⊎ (((home y).1 < lo) ⊎ (hi ≤ (home y).1)))
            → ⊥
        inside y e (inl t) = omega (arith, ap (λ (t : ℕ). (home t).0) e, ap (λ t. t.0) at)
        inside y e (inr (inl t)) = omega (arith, ap (λ (t : ℕ). (home t).1) e, ap (λ t. t.1) at)
        inside y e (inr (inr t)) =
            omega (arith, ap (λ (t : ℕ). (home t).1) e, ap (λ t. t.1) at, range.some_key)

        wider :
            (y : ℕ)
            → ((suc height < (home y).0) ⊎ (((home y).1 < lo) ⊎ (hi ≤ (home y).1)))
            → lo ≤ low q
            → high q ≤ hi
            → ((height < (home y).0) ⊎ (((home y).1 < low q) ⊎ (high q ≤ (home y).1)))
        wider y (inl t) below above = inl (omega arith)
        wider y (inr (inl t)) below above = inr (inl (omega arith))
        wider y (inr (inr t)) below above = inr (inr (omega arith))
