-- ===== src/Clevel/Shape/Leaf.antt =====
-- A leaf of src/clevel.cc after a change of one key.
use combotree_new.Prelude.{
  ℕ, zero, suc, ◌≤◌, ◌<◌, ◌≡◌, refl, arith, ◌∙◌, sym, Option, some, ◌==◌, Bool-cases, inl, inr,
  ==→eq, ==-refl,
}
use combotree_new.Sequence.{tabulate}
use combotree_new.PmemKv.{lookup}
use combotree_new.SortBuffer.{SortBuffer}
use combotree_new.SortBuffer.View.{pairs, pair_at}
use combotree_new.SortBuffer.AsMap.{Changes}
use combotree_new.Clevel.{Node}
use combotree_new.Clevel.Delete.{changed}
use combotree_new.Clevel.Shape.{IsLeaf, keys_of}

-- A key that is found is that of some pair.
lookup-place :
    (f : ℕ → ℕ × ℕ) (key n y : ℕ)
    → lookup key (tabulate f n) ≡ some y
    → (i : ℕ) × (i < n) × ((f i).0 ≡ key)
unfolding lookup tabulate
lookup-place f key zero y e = absurd (cc e)
lookup-place f key (suc n) y e = elim (Bool-cases ((f 0).0 == key)) [
  | inl hit ↦ (0, omega arith, ==→eq (f 0).0 key hit)
  | inr miss ↦
      let (i, lt, same) = lookup-place (λ i. f (suc i)) key n y (rw miss at e) in
      (suc i, omega arith, same)
]

-- The key of a pair is found.
lookup-own : (f : ℕ → ℕ × ℕ) (n i : ℕ) → i < n → (y : ℕ) × (lookup (f i).0 (tabulate f n) ≡ some y)
unfolding lookup tabulate
lookup-own f zero i lt = absurd (omega arith)
lookup-own f (suc n) zero lt = ((f 0).1, rw (==-refl (f 0).0) refl)
lookup-own f (suc n) (suc i) lt = elim (Bool-cases ((f 0).0 == (f (suc i)).0)) [
  | inl hit ↦ ((f 0).1, rw hit refl)
  | inr miss ↦ let (y, e) = lookup-own (λ i. f (suc i)) n i (omega arith) in (y, rw miss e)
]

module _ (s p lo hi : ℕ) (n : Node) (m : ℕ → Option ℕ) (key : ℕ) (new : Option ℕ) (c : SortBuffer)
    (h : IsLeaf s p n lo hi m) (low : lo ≤ key) (high : key < hi)
    (change : Changes 8 p n.buf c key new) (most : c.max_entries ≡ n.buf.max_entries) where
  bounds-changed : (i : ℕ) → i < c.entries → (lo ≤ keys_of p c i) × (keys_of p c i < hi)
  unfolding pairs pair_at
  bounds-changed i lt =
      let k : ℕ = keys_of p c i in
      let (y, found) = lookup-own (pair_at 8 c p) c.entries i lt in
      elim (Bool-cases (k == key)) [
        | inl same ↦ let e = ==→eq k key same in (omega (arith, e), omega (arith, e))
        | inr other ↦
            let old : lookup k (pairs 8 n.buf p) ≡ some y =
              rw other at (sym (change.maps k) ∙ found) in
            let (j, inside, e) = lookup-place (pair_at 8 n.buf p) k n.buf.entries y old in
            let b = h.bounds j inside in (omega (arith, b, e), omega (arith, b, e))
      ]

  -- The leaf with the changed buffer.
  pub changed-IsLeaf :
      (link : ℕ)
      → IsLeaf s p (record { type = n.type; link = link; buf = c }) lo hi (changed m key new)
  changed-IsLeaf link = record {
    kind = h.kind;
    node = record {
      valid = change.valid;
      sorted = change.sorted;
      suffix = change.suffix_kept ∙ h.node.suffix;
      capacity = most ∙ h.node.capacity;
    };
    bounds = bounds-changed;
    maps = λ j below above. change.maps j ∙ rw (h.maps j below above) refl;
  }
