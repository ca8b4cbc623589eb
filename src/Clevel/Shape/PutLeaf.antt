-- ===== src/Clevel/Shape/PutLeaf.antt =====
-- `Put` of src/clevel.cc on a leaf under a parent that has room.
use combotree_new.Prelude.{
  ℕ, zero, ◌^◌, ◌≤◌, ◌<◌, ◌≡◌, ◌≢◌, ◌⊎◌, inl, inr, refl, arith, ap, ◌∙◌, false, Option, some,
}
use combotree_new.SortBuffer.{SortBuffer, find}
use combotree_new.SortBuffer.AsMap.{Changes}
use combotree_new.Clevel.{MemControl, set_buf, set_node, split_leaf, put_leaf}
use combotree_new.Clevel.Change.{nodes-set_buf, nodes-set_buf_apart}
use combotree_new.Clevel.Delete.{changed}
use combotree_new.Clevel.Shape.{IsRange, IsLeaf, Home}
use combotree_new.Clevel.Shape.LeafCases.{
  grown, grown_mem, written-IsLeaf, written-IsTree, put_leaf_cases,
}
use combotree_new.Clevel.Shape.SplitLeaf.{split_leaf-Splits}
use combotree_new.Clevel.Shape.Outcome.{Splits, Outcome, with_child}

module _ (s p : ℕ) (mem : MemControl) (home : Home) (a par r lo hi : ℕ) (m : ℕ → Option ℕ)
    (key x : ℕ) (range : IsRange s p lo hi) (at : home a ≡ (zero, lo)) (known : a < mem.cur_addr)
    (node : IsLeaf s p (mem.nodes a) lo hi m)
    (room : (mem.nodes a).buf.entries < (mem.nodes a).buf.max_entries) (low : lo ≤ key)
    (high : key < hi) (small : x < 256 ^ 8) (known' : par < mem.cur_addr) (over : 0 < (home par).0)
    (place : (k : ℕ) → lo < k → k < hi → find (mem.nodes par).buf k ≡ some (r, false)) where
  abbrev b : SortBuffer
  b = (mem.nodes a).buf

  abbrev after_map : ℕ → Option ℕ
  after_map = changed m key (some x)

  apart : par ≢ a
  apart e = absurd (omega (arith, ap (λ (q : ℕ). (home q).0) e, ap (λ q. q.0) at))

  inside : (y : ℕ) → y ≡ a → ((0 < (home y).0) ⊎ (((home y).1 < lo) ⊎ (hi ≤ (home y).1))) → ⊥
  inside y e (inl q) = omega (arith, ap (λ (t : ℕ). (home t).0) e, ap (λ t. t.0) at)
  inside y e (inr (inl q)) = omega (arith, ap (λ (t : ℕ). (home t).1) e, ap (λ t. t.1) at)
  inside y e (inr (inr q)) =
      omega (arith, ap (λ (t : ℕ). (home t).1) e, ap (λ t. t.1) at, range.some_key)

  cur_same : (c : SortBuffer) → (set_buf mem a c).cur_addr ≡ mem.cur_addr
  cur_same c = unfold set_buf in unfold set_node in refl

  -- The leaf keeps its place with a changed buffer.
  stays :
      (c : SortBuffer)
      → Changes 8 p b c key (some x)
      → c.max_entries ≡ b.max_entries
      → c.entries < c.max_entries
      → Outcome s p mem home 0 a par r lo hi after_map (some (set_buf mem a c, a))
  stays c change most open_leaf = (
    set_buf mem a c,
    home,
    inl (
      refl,
      record {
        within = record {
          grows = omega (arith, cur_same c);
          few = omega (arith, cur_same c);
          aligned = omega (arith, cur_same c);
          homes = λ y lt. refl;
          kept = λ y lt d out. nodes-set_buf_apart mem a y c λ e. inside y e out;
        };
        tree =
            written-IsTree s p mem a lo hi m key x range node room low high small home c at known
              change most open_leaf;
        parent = nodes-set_buf_apart mem a par c apart;
      },
    ),
  )

  -- The write of the leaf before the split counts as part of it.
  Splits-from_grown :
      (c : SortBuffer) (after : MemControl) (home' : Home) (n separator : ℕ)
      → Splits s p (set_buf mem a c) home 0 a par r lo hi after_map after home' n separator
      → Splits s p mem home 0 a par r lo hi after_map after home' n separator
  Splits-from_grown c after home' n separator h = record {
    within = record {
      grows = omega (arith, h.within.grows, cur_same c);
      few = omega (arith, h.within.few, cur_same c);
      aligned = omega (arith, h.within.aligned, cur_same c);
      homes = λ y lt. h.within.homes y (omega (arith, cur_same c));
      kept = λ y lt d out.
          h.within.kept y (omega (arith, cur_same c)) d out
          ∙ nodes-set_buf_apart mem a y c (λ e. inside y e out);
    };
    above = h.above;
    below = h.below;
    lower = h.lower;
    upper = h.upper;
    new = omega (arith, h.new, cur_same c);
    parent =
        h.parent ∙ ap (λ q. with_child q r separator n) (nodes-set_buf_apart mem a par c apart);
  }

  splits :
      (pos : ℕ)
      → Changes 8 p b
          (grown s p mem a lo hi m key x range node room low high small pos)
          key
          (some x)
      → (grown s p mem a lo hi m key x range node room low high small pos).max_entries
        ≡ b.max_entries
      → (grown s p mem a lo hi m key x range node room low high small pos).entries
        ≡ (grown s p mem a lo hi m key x range node room low high small pos).max_entries
      → Outcome s p mem home 0 a par r lo hi after_map (
          split_leaf
            (grown_mem s p mem a lo hi m key x range node room low high small pos)
            a
            key
            (some par))
  splits pos change most full =
      let c : SortBuffer = grown s p mem a lo hi m key x range node room low high small pos in
      let (after, e, h) =
        split_leaf-Splits s p (set_buf mem a c) home a par r lo hi after_map key range at
          (omega (arith, known, cur_same c))
          (written-IsLeaf s p mem a lo hi m key x range node room low high small c change most)
          (rw (nodes-set_buf mem a c) full) low high (omega (arith, known', cur_same c)) over
          (λ k q t. rw (nodes-set_buf_apart mem a par c apart) (place k q t)) in
      (
        after,
        _,
        inr (
          (set_buf mem a c).cur_addr,
          _,
          e,
          Splits-from_grown c after _ (set_buf mem a c).cur_addr _ h,
        ),
      )

  -- Put of a key in the range of a leaf, under a parent that has room, ends: the leaf maps the key to
  -- the value and keeps its place, or it becomes two leaves and the parent gets the second.
  pub put_leaf-Outcome :
      Outcome s p mem home 0 a par r lo hi after_map (put_leaf mem a key x (some par))
  put_leaf-Outcome =
      put_leaf_cases s p mem a lo hi m key x range node room low high small (some par)
        (Outcome s p mem home 0 a par r lo hi after_map) stays splits
