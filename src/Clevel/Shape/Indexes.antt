-- ===== src/Clevel/Shape/Indexes.antt =====
-- The index nodes of src/clevel.cc: the halves of one that is split, and one that gets a child more.
use combotree_new.Prelude.{
  ℕ, zero, suc, ◌+◌, ◌-◌, ◌≤◌, ◌<◌, ◌≡◌, refl, arith, ap, ◌∙◌, ltb, Bool-cases, inl, inr, lt→ltb,
  le→ltb, ltb→lt, ltb→le,
}
use combotree_new.Bytes.{Bytes}
use combotree_new.Word.{word_mod}
use combotree_new.SortBuffer.{delete_data, copy_data, fresh}
use combotree_new.SortBuffer.Header.{Turns}
use combotree_new.SortBuffer.Delete.{delete_data-fields}
use combotree_new.Clevel.{Node, index_node, get_child}
use combotree_new.Clevel.Shape.{IsIndex, keys_of, keys_of-IsAscending, low_at, high_at}
use combotree_new.Clevel.Shape.Halves.{
  front-key, front-value, front-IsNodeBuffer, back-fields, back-key, back-value, back-IsNodeBuffer,
}

module _ (s p lo hi : ℕ) (n : Node) (k : ℕ) (h : IsIndex s p n lo hi) (hp : p < word_mod)
    (lt : k < n.buf.entries) where
  abbrev keys : ℕ → ℕ
  keys = keys_of p n.buf

  up : (i j : ℕ) → i < j → j < n.buf.entries → keys i < keys j
  up = keys_of-IsAscending s 6 p n.buf h.node hp

  le : k ≤ n.buf.entries
  le = omega arith

  le-suc : k + 1 ≤ n.buf.entries
  le-suc = omega arith

  -- What `DeleteData` leaves, and the first `k + 1` children.
  abbrev pub lower : ℕ → Node
  lower link = record { type = n.type; link = link; buf = delete_data n.buf k }

  pub lower-fields : Turns k (n.buf.entries - k) → (link : ℕ) → (lower link).buf.entries ≡ k
  lower-fields turns link =
      let (suffix_kept, few, most) = delete_data-fields 6 n.buf k h.node.valid le turns in few

  pub lower-IsIndex :
      Turns k (n.buf.entries - k) → (link : ℕ) → IsIndex s p (lower link) lo (keys k)
  lower-IsIndex turns link = record {
    kind = h.kind;
    node = front-IsNodeBuffer s 6 p n.buf k h.node hp le turns;
    bounds = λ i hi.
        let inside : i < k = omega (arith, lower-fields turns link) in
        let e = front-key s 6 p n.buf k h.node hp le turns i inside in
        (omega (arith, e, h.bounds i (omega arith)), omega (arith, e, up i k inside lt));
  }

  pub lower-child :
      Turns k (n.buf.entries - k) → (i : ℕ) → i ≤ k → get_child (lower n.link) i ≡ get_child n i
  unfolding get_child
  lower-child turns zero hi = refl
  lower-child turns (suc i) hi = front-value s 6 p n.buf k h.node hp le turns i (omega arith)

  pub lower-low :
      Turns k (n.buf.entries - k)
      → (i : ℕ) → i ≤ k
      → low_at (keys_of p (delete_data n.buf k)) lo i ≡ low_at keys lo i
  lower-low turns zero hi = refl
  lower-low turns (suc i) hi = front-key s 6 p n.buf k h.node hp le turns i (omega arith)

  pub lower-high :
      Turns k (n.buf.entries - k)
      → (i : ℕ) → i ≤ k
      → high_at (keys_of p (delete_data n.buf k)) (keys k) k i ≡ high_at keys hi n.buf.entries i
  lower-high turns i hi = elim (Bool-cases (ltb i k)) [
    | inl inside ↦
        let l = ltb→lt i k inside in
        rw (inside, lt→ltb i n.buf.entries (omega arith))
          (front-key s 6 p n.buf k h.node hp le turns i l)
    | inr last ↦
        let l = ltb→le i k last in
        rw (last, lt→ltb i n.buf.entries (omega arith)) (ap keys (omega arith))
  ]

  module _ (old : Bytes) where
    -- What `CopyData` moves, and the children from `k + 1` on.
    abbrev pub higher : Node
    higher = record {
      type = index_node;
      link = get_child n (k + 1);
      buf = copy_data 6 n.buf (fresh old n.buf.suffix_bytes) (k + 1);
    }

    pub higher-fields : higher.buf.entries ≡ n.buf.entries - (k + 1)
    higher-fields =
        let (suffix_kept, few, most) = back-fields s 6 p n.buf (k + 1) h.node hp le-suc old in few

    moved_key : (i : ℕ) → i < n.buf.entries - (k + 1) → keys_of p higher.buf i ≡ keys (k + 1 + i)
    moved_key i hi = back-key s 6 p n.buf (k + 1) h.node hp le-suc old i hi

    pub higher-IsIndex : k + 1 < n.buf.entries → IsIndex s p higher (keys k) hi
    higher-IsIndex more = record {
      kind = refl;
      node = back-IsNodeBuffer s 6 p n.buf (k + 1) h.node hp le-suc old more;
      bounds = λ i hi.
          let inside : i < n.buf.entries - (k + 1) = omega (arith, higher-fields) in
          let e = moved_key i inside in
          (
            omega (arith, e, up k (k + 1 + i) (omega arith) (omega arith)),
            omega (arith, e, h.bounds (k + 1 + i) (omega arith)),
          );
    }

    pub higher-child :
        (i : ℕ) → i ≤ n.buf.entries - (k + 1) → get_child higher i ≡ get_child n (k + 1 + i)
    unfolding get_child
    higher-child zero hi = ap (get_child n) (omega arith)
    higher-child (suc i) hi =
        back-value s 6 p n.buf (k + 1) h.node hp le-suc old i (omega arith)
        ∙ ap (get_child n) {x = suc (k + 1 + i)} {y = k + 1 + suc i} (omega arith)

    pub higher-low :
        (i : ℕ)
        → i ≤ n.buf.entries - (k + 1)
        → low_at (keys_of p higher.buf) (keys k) i ≡ low_at keys lo (k + 1 + i)
    higher-low zero hi = ap (low_at keys lo) {x = suc k} {y = k + 1 + 0} (omega arith)
    higher-low (suc i) hi =
        moved_key i (omega arith)
        ∙ ap (low_at keys lo) {x = suc (k + 1 + i)} {y = k + 1 + suc i} (omega arith)

    pub higher-high :
        (i : ℕ)
        → i ≤ n.buf.entries - (k + 1)
        → high_at (keys_of p higher.buf) hi (n.buf.entries - (k + 1)) i
          ≡ high_at keys hi n.buf.entries (k + 1 + i)
    higher-high i hi = elim (Bool-cases (ltb i (n.buf.entries - (k + 1)))) [
      | inl inside ↦
          let l = ltb→lt i (n.buf.entries - (k + 1)) inside in
          rw (inside, lt→ltb (k + 1 + i) n.buf.entries (omega arith)) (moved_key i l)
      | inr last ↦
          let l = ltb→le i (n.buf.entries - (k + 1)) last in
          rw (last, le→ltb (k + 1 + i) n.buf.entries (omega arith)) refl
    ]
