-- ===== src/Clevel/Shape/Parts.antt =====
-- The two trees whose roots are the halves of an index node that src/clevel.cc splits.
use combotree_new.Prelude.{ℕ, suc, ◌+◌, ◌-◌, ◌≤◌, ◌<◌, ◌≡◌, arith, ap, ◌∙◌, sym, subst, Option}
use combotree_new.Bytes.{Bytes}
use combotree_new.Word.{word_mod}
use combotree_new.SortBuffer.Header.{Turns}
use combotree_new.SortBuffer.Delete.{delete_data-fields}
use combotree_new.Clevel.{MemControl, Node, get_child}
use combotree_new.Clevel.Shape.{IsIndex, IsTree, Home, keys_of, low_at, high_at}
use combotree_new.Clevel.Shape.Halves.{back-fields}
use combotree_new.Clevel.Shape.Indexes.{
  lower, lower-fields, lower-IsIndex, lower-child, lower-low, lower-high, higher, higher-fields,
  higher-IsIndex, higher-child, higher-low, higher-high,
}

module _ (s p : ℕ) (after : MemControl) (home : Home) (height lo hi : ℕ) (m : ℕ → Option ℕ) where
  -- A tree at the same place, by other terms for it.
  pub IsTree-place :
      (c c' low low' high high' : ℕ)
      → c ≡ c'
      → low ≡ low'
      → high ≡ high'
      → IsTree s p after home height c' low' high' m
      → IsTree s p after home height c low high m
  IsTree-place c c' low low' high high' ec el eh h =
      subst (λ q. IsTree s p after home height q low high m) (sym ec)
        (subst (λ q. IsTree s p after home height c' q high m) (sym el)
          (subst (λ q. IsTree s p after home height c' low' q m) (sym eh) h))

  module _ (n : Node) (k : ℕ) (h : IsIndex s p n lo hi) (hp : p < word_mod) (lt : k < n.buf.entries)
      (most : n.buf.entries ≤ n.buf.max_entries)
      (children : (i : ℕ)
        → i ≤ n.buf.entries
        → IsTree s p after home height
            (get_child n i)
            (low_at (keys_of p n.buf) lo i)
            (high_at (keys_of p n.buf) hi n.buf.entries i)
            m) where
    pub lower-IsTree :
        Turns k (n.buf.entries - k)
        → (a : ℕ) → home a ≡ (suc height, lo)
        → a < after.cur_addr
        → after.nodes a ≡ lower s p lo hi n k h hp lt n.link
        → IsTree s p after home (suc height) a lo (keys_of p n.buf k) m
    unfolding IsTree
    lower-IsTree turns a at known here =
        let few = lower-fields s p lo hi n k h hp lt turns n.link in
        let fields = delete_data-fields 6 n.buf k h.node.valid (omega arith) turns in
        (
          at,
          known,
          rw here (lower-IsIndex s p lo hi n k h hp lt turns n.link),
          rw here (omega (arith, fields)),
          rw here λ i le.
              let inside : i ≤ k = omega (arith, few) in
              IsTree-place _ _ _ _ _ _ (lower-child s p lo hi n k h hp lt turns i inside)
                (lower-low s p lo hi n k h hp lt turns i inside)
                (ap
                    (λ (q : ℕ).
                      high_at (keys_of p (lower s p lo hi n k h hp lt n.link).buf)
                        (keys_of p n.buf k) q i)
                    few
                  ∙ lower-high s p lo hi n k h hp lt turns i inside)
                (children i (omega arith)),
        )

    pub higher-IsTree :
        k + 1 < n.buf.entries
        → (old : Bytes) (a : ℕ) → home a ≡ (suc height, keys_of p n.buf k)
        → a < after.cur_addr
        → after.nodes a ≡ higher s p lo hi n k h hp lt old
        → IsTree s p after home (suc height) a (keys_of p n.buf k) hi m
    unfolding IsTree
    higher-IsTree more old a at known here =
        let few = higher-fields s p lo hi n k h hp lt old in
        let fields = back-fields s 6 p n.buf (k + 1) h.node hp (omega arith) old in
        (
          at,
          known,
          rw here (higher-IsIndex s p lo hi n k h hp lt old more),
          rw here (omega (arith, fields)),
          rw here λ i le.
              let inside : i ≤ n.buf.entries - (k + 1) = omega (arith, few) in
              IsTree-place _ _ _ _ _ _ (higher-child s p lo hi n k h hp lt old i inside)
                (higher-low s p lo hi n k h hp lt old i inside)
                (ap (λ (q : ℕ). high_at (keys_of p (higher s p lo hi n k h hp lt old).buf) hi q i)
                    few
                  ∙ higher-high s p lo hi n k h hp lt old i inside)
                (children (k + 1 + i) (omega arith)),
        )
