-- ===== src/Clevel/Shape/RootTree.antt =====
-- The tree under a new root of src/clevel.cc.
use native.Mathlib.Nat.{mod-eq_of_lt}
use combotree_new.Prelude.{ℕ, zero, suc, ◌^◌, ◌≤◌, ◌<◌, ◌≡◌, refl, arith, ◌∙◌, false, Option, some}
use combotree_new.Bytes.{Bytes}
use combotree_new.SortBuffer.{fresh, find}
use combotree_new.SortBuffer.Fresh.{fresh-IsValid, capacity-two}
use combotree_new.Clevel.{MemControl, Node, get_child}
use combotree_new.Clevel.Shape.{IsRange, IsIndex, IsTree, Home, low_at, high_at, keys_of}
use combotree_new.Clevel.Shape.Frame.{IsTree-known}
use combotree_new.Clevel.Shape.Insert.{
  find-place, grown-fields, grown-IsIndex, key-new, child-before, child-new, high-place, high-after,
}
use combotree_new.Clevel.Shape.Outcome.{with_child}
use combotree_new.Clevel.Shape.Parts.{IsTree-place}
use combotree_new.Clevel.Shape.RootSplit.{bare_root}

module _ (s p lo hi : ℕ) (range : IsRange s p lo hi) (a : ℕ) (old : Bytes) where
  abbrev empty : Node
  empty = bare_root a old s

  pub bare-IsIndex : IsIndex s p empty lo hi
  unfolding fresh
  bare-IsIndex = record {
    kind = refl;
    node = record {
      valid = fresh-IsValid 6 old s range.long range.stored (omega arith);
      sorted = λ i j lt hj. absurd (omega arith);
      suffix = refl;
      capacity = refl;
    };
    bounds = λ i lt. absurd (omega arith);
  }

  pub bare_room : empty.buf.entries < empty.buf.max_entries
  unfolding fresh
  bare_room = omega (arith, capacity-two s range.long)

  module _ (separator : ℕ) (above : lo < separator) (below : separator < hi) where
    pub bare_below : separator < high_at (keys_of p empty.buf) hi empty.buf.entries 0
    unfolding fresh
    bare_below = below

    pub find-bare : find (fresh old s) separator ≡ some (0, false)
    find-bare =
        find-place s p lo hi empty 0 separator 0 range bare-IsIndex bare_room (omega arith) above
          bare_below (omega arith)

module _ (s p : ℕ) (after : MemControl) (home : Home) (height a n root lo hi : ℕ) (m : ℕ → Option ℕ)
    (range : IsRange s p lo hi) (separator : ℕ) (old : Bytes) (above : lo < separator)
    (below : separator < hi) (lower : IsTree s p after home height a lo separator m)
    (upper : IsTree s p after home height n separator hi m) (memory : after.cur_addr ≤ 2 ^ 48)
    (known : root < after.cur_addr) (at : home root ≡ (suc height, lo))
    (here : after.nodes root ≡ with_child (bare_root a old s) 0 separator n) where
  abbrev bare : Node
  bare = bare_root a old s

  abbrev grown : Node
  grown = with_child bare 0 separator n

  index : IsIndex s p bare lo hi
  index = bare-IsIndex s p lo hi range a old

  room : bare.buf.entries < bare.buf.max_entries
  room = bare_room s p lo hi range a old

  under : separator < high_at (keys_of p bare.buf) hi bare.buf.entries 0
  under = bare_below s p lo hi range a old separator above below

  small : n < 256 ^ 6
  small = omega (arith, memory, (IsTree-known s p after home height n separator hi m upper).1)

  fields : (grown.buf.max_entries ≡ bare.buf.max_entries) × (grown.buf.entries ≡ 1)
  unfolding fresh
  fields =
      let (suffix_kept, most, more) =
        grown-fields s p lo hi bare 0 separator n range index room (omega arith) above under
          small in
      (most, more)

  abbrev PartAt : ℕ → Type 0
  PartAt i =
      IsTree s p after home height (get_child grown i) (low_at (keys_of p grown.buf) lo i)
        (high_at (keys_of p grown.buf) hi grown.buf.entries i) m

  link : get_child bare 0 ≡ a
  unfolding get_child
  link =
      mod-eq_of_lt
        (omega (arith, memory, (IsTree-known s p after home height a lo separator m lower).1))

  part-lower : PartAt 0
  part-lower =
      IsTree-place s p after home height lo hi m _ _ _ _ _ _
        (child-before s p lo hi bare 0 separator n range index room (omega arith) above under small
            0 (omega arith)
          ∙ link)
        refl
        (high-place s p lo hi bare 0 separator n range index room (omega arith) above under small)
        lower

  bare_high : high_at (keys_of p bare.buf) hi bare.buf.entries 0 ≡ hi
  unfolding fresh
  bare_high = refl

  part-upper : PartAt 1
  part-upper =
      IsTree-place s p after home height lo hi m _ _ _ _ _ _
        (child-new s p lo hi bare 0 separator n range index room (omega arith) above under small)
        (key-new s p lo hi bare 0 separator n range index room (omega arith) above under small)
        (high-after s p lo hi bare 0 separator n range index room (omega arith) above under small 0
            (omega arith) (omega arith)
          ∙ bare_high)
        upper

  part : (i : ℕ) → i ≤ grown.buf.entries → PartAt i
  part zero le = part-lower
  part (suc zero) le = part-upper
  part (suc (suc i)) le = absurd (omega (arith, fields))

  -- A root over two trees.
  pub root-IsTree : IsTree s p after home (suc height) root lo hi m
  unfolding IsTree
  root-IsTree = (
    at,
    known,
    rw here (
        grown-IsIndex s p lo hi bare 0 separator n range index room (omega arith) above under
          small),
    rw here (omega (arith, fields, index.node.capacity, capacity-two s range.long)),
    rw here part,
  )
