-- ===== src/Clevel/Shape/SplitLeaf.antt =====
-- The two trees that the split of a full leaf of src/clevel.cc leaves under a parent that has room.
use combotree_new.Prelude.{
  ◌-◌, ℕ, zero, ◌+◌, ◌/◌, ◌%◌, ◌^◌, ◌≤◌, ◌<◌, ◌≡◌, ◌≢◌, ◌⊎◌, inl, inr, refl, arith, ap, ◌∙◌, sym,
  subst, false, Option, some, ne→==, ==-refl,
}
use combotree_new.SortBuffer.{SortBuffer, sort_key, find, delete_data, copy_data, fresh}
use combotree_new.SortBuffer.Fresh.{capacity-two}
use combotree_new.SortBuffer.Header.{Turns, cut-Turns}
use combotree_new.SortBuffer.Delete.{delete_data-fields}
use combotree_new.SortBuffer.AsMap.{HasPrefix, sort_key-prefix}
use combotree_new.Clevel.{MemControl, Node, leaf, split_leaf}
use combotree_new.Clevel.Shape.{IsRange, IsRange-HasPrefix, IsLeaf, IsTree, Home, keys_of}
use combotree_new.Clevel.Shape.Halves.{
  back-fields, back-key, back-IsNodeBuffer, separator-between, front-IsLeaf, back-IsLeaf,
}
use combotree_new.Clevel.Shape.Split.{IsSplit, split_leaf-IsSplit}
use combotree_new.Clevel.Shape.Outcome.{Splits, new_home}

module _ (s p : ℕ) (mem : MemControl) (a lo hi : ℕ) (m : ℕ → Option ℕ) (key : ℕ)
    (range : IsRange s p lo hi) (node : IsLeaf s p (mem.nodes a) lo hi m)
    (full : (mem.nodes a).buf.entries ≡ (mem.nodes a).buf.max_entries) (low : lo ≤ key)
    (high : key < hi) where
  abbrev b : SortBuffer
  b = (mem.nodes a).buf

  abbrev half : ℕ
  half = b.entries / 2

  abbrev upper_buf : SortBuffer
  upper_buf = copy_data 8 b (fresh (mem.nodes mem.cur_addr).buf.buf b.suffix_bytes) half

  abbrev pub leaf_separator : ℕ
  leaf_separator = keys_of p b half

  several : 1 < b.entries
  several = omega (arith, capacity-two s range.long, node.node.capacity, full)

  some_low : 0 < half
  some_low = omega (arith, several)

  some_high : half < b.entries
  some_high = omega (arith, several)

  half-Turns : Turns half (b.entries - half)
  half-Turns =
      let valid = node.node.valid in
      cut-Turns b.entries half (omega (arith, valid.capacity, valid.count)) some_high (omega arith)

  pub leaf_separator-between : (lo < leaf_separator) × (leaf_separator < hi)
  leaf_separator-between =
      separator-between s p lo hi (mem.nodes a) m half node range.owner some_low some_high

  -- The source reads the separator with the prefix of the key, which is that of the owner.
  pub leaf_separator_read : sort_key upper_buf 0 key ≡ leaf_separator
  leaf_separator_read =
      let le : half ≤ b.entries = omega (arith, some_high) in
      let old = (mem.nodes mem.cur_addr).buf.buf in
      let back = back-IsNodeBuffer s 8 p b half node.node range.owner le old some_high in
      sort_key-prefix 8 upper_buf 0 p key back.valid range.owner (
        subst (λ q. HasPrefix q p key) (sym back.suffix)
          (IsRange-HasPrefix s p lo hi key range low high))
      ∙ back-key s 8 p b half node.node range.owner le old 0 (omega (arith, some_high))
      ∙ ap (keys_of p b) {x = half + 0} {y = half} (omega arith)

  abbrev pub lower_half : Node
  lower_half = record {
    type = (mem.nodes a).type;
    link = mem.cur_addr % 2 ^ 48;
    buf = delete_data b half;
  }

  abbrev pub upper_half : Node
  upper_half = record { type = leaf; link = (mem.nodes a).link % 2 ^ 48; buf = upper_buf }

  module _ (after : MemControl) (home : Home) where
    pub lower_leaf-IsTree :
        home a ≡ (zero, lo)
        → a < after.cur_addr
        → after.nodes a ≡ lower_half
        → IsTree s p after home zero a lo leaf_separator m
    unfolding IsTree
    lower_leaf-IsTree at known here =
        let fields =
          delete_data-fields 8 b half node.node.valid (omega (arith, some_high)) half-Turns in
        (
          at,
          known,
          subst (λ n. IsLeaf s p n lo leaf_separator m) (sym here)
              (front-IsLeaf s p lo hi (mem.nodes a) m half node range.owner some_low some_high
                half-Turns (mem.cur_addr % 2 ^ 48)),
          rw here (omega (arith, fields, full, some_high)),
        )

    pub upper_leaf-IsTree :
        home mem.cur_addr ≡ (zero, leaf_separator)
        → mem.cur_addr < after.cur_addr
        → after.nodes mem.cur_addr ≡ upper_half
        → IsTree s p after home zero mem.cur_addr leaf_separator hi m
    unfolding IsTree
    upper_leaf-IsTree at known here =
        let old = (mem.nodes mem.cur_addr).buf.buf in
        let fields =
          back-fields s 8 p b half node.node range.owner (omega (arith, some_high)) old in
        (
          at,
          known,
          subst (λ n. IsLeaf s p n leaf_separator hi m) (sym here)
              (back-IsLeaf s p lo hi (mem.nodes a) m half node range.owner some_low some_high
                ((mem.nodes a).link % 2 ^ 48) old),
          rw here (omega (arith, fields, full, some_low, some_high)),
        )

module _ (s p : ℕ) (mem : MemControl) (home : Home) (a par r lo hi : ℕ) (m : ℕ → Option ℕ) (key : ℕ)
    (range : IsRange s p lo hi) (at : home a ≡ (zero, lo)) (known : a < mem.cur_addr)
    (node : IsLeaf s p (mem.nodes a) lo hi m)
    (full : (mem.nodes a).buf.entries ≡ (mem.nodes a).buf.max_entries) (low : lo ≤ key)
    (high : key < hi) (known' : par < mem.cur_addr) (over : 0 < (home par).0)
    (place : (k : ℕ) → lo < k → k < hi → find (mem.nodes par).buf k ≡ some (r, false)) where
  abbrev separator : ℕ
  separator = leaf_separator s p mem a lo hi m key range node full low high

  between : (lo < separator) × (separator < hi)
  between = leaf_separator-between s p mem a lo hi m key range node full low high

  apart : a ≢ par
  apart e = absurd (omega (arith, ap (λ (q : ℕ). (home q).0) e, ap (λ q. q.0) at))

  abbrev home' : Home
  home' = new_home home mem.cur_addr zero separator

  homes : (x : ℕ) → x < mem.cur_addr → home' x ≡ home x
  homes x lt = rw (ne→== x mem.cur_addr (λ e. absurd (omega arith))) refl

  inside : (y : ℕ) → y ≡ a → ((0 < (home y).0) ⊎ (((home y).1 < lo) ⊎ (hi ≤ (home y).1))) → ⊥
  inside y e (inl q) = omega (arith, ap (λ (t : ℕ). (home t).0) e, ap (λ t. t.0) at)
  inside y e (inr (inl q)) = omega (arith, ap (λ (t : ℕ). (home t).1) e, ap (λ t. t.1) at)
  inside y e (inr (inr q)) =
      omega (arith, ap (λ (t : ℕ). (home t).1) e, ap (λ t. t.1) at, range.some_key)

  abbrev old_half : Node
  old_half = lower_half s p mem a lo hi m key range node full low high

  abbrev new_half : Node
  new_half = upper_half s p mem a lo hi m key range node full low high

  splits :
      (after : MemControl)
      → IsSplit mem a par r separator old_half new_half after
      → Splits s p mem home zero a par r lo hi m after home' mem.cur_addr separator
  splits after h = record {
    within = record {
      grows = omega (arith, h.cur);
      few = omega (arith, h.cur);
      aligned = omega (arith, h.cur);
      homes = homes;
      kept = λ x lt dp out. h.other x (λ e. inside x e out) dp (λ e. absurd (omega arith));
    };
    above = between.0;
    below = between.1;
    lower =
        lower_leaf-IsTree s p mem a lo hi m key range node full low high after home'
          (homes a known ∙ at) (omega (arith, h.cur)) h.at_old;
    upper =
        upper_leaf-IsTree s p mem a lo hi m key range node full low high after home'
          (rw (==-refl mem.cur_addr) refl) (omega (arith, h.cur)) h.at_new;
    new = omega arith;
    parent = h.at_par;
  }

  -- A full leaf becomes two.
  pub split_leaf-Splits :
      (after : MemControl) × (split_leaf mem a key (some par) ≡ some (after, mem.cur_addr))
      × Splits s p mem home zero a par r lo hi m after home' mem.cur_addr separator
  split_leaf-Splits =
      let read = leaf_separator_read s p mem a lo hi m key range node full low high in
      let (after, e, h) =
        split_leaf-IsSplit mem a key known par r known' apart
          (ap (find (mem.nodes par).buf) read ∙ place separator between.0 between.1) in
      (after, e, splits after (subst (λ q. IsSplit mem a par r q old_half new_half after) read h))
