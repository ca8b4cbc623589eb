-- ===== src/Clevel/Shape/PutIndex.antt =====
-- `Put` of src/clevel.cc on an index node under a parent that has room, from what `Put` did to the
-- child of the key.
use combotree_new.Prelude.{
  ℕ, suc, ◌+◌, ◌-◌, ◌/◌, ◌*◌, ◌^◌, ◌≤◌, ◌<◌, ◌≡◌, ◌⊎◌, inl, inr, refl, arith, ap, ◌∙◌, sym, subst,
  false, Option, some,
}
use combotree_new.SortBuffer.{find}
use combotree_new.Clevel.{MemControl, Node, get_child, split_index}
use combotree_new.Clevel.Delete.{changed}
use combotree_new.Clevel.Shape.{IsRange, IsTree, Home, keys_of, low_at, high_at}
use combotree_new.Clevel.Shape.IndexCases.{HasParts, after_child, after_child_cases}
use combotree_new.Clevel.Shape.Outcome.{Within, Stays, Outcome, with_child}
use combotree_new.Clevel.Shape.Sibling.{Within-above}
use combotree_new.Clevel.Shape.SplitNode.{split_index-Splits}

module _ (s p : ℕ) (mem : MemControl) (home : Home) (height a par r lo hi : ℕ) (m : ℕ → Option ℕ)
    (key : ℕ) (range : IsRange s p lo hi) (at : home a ≡ (suc height, lo))
    (known : a < mem.cur_addr) (low : lo ≤ key) (high : key < hi) (known' : par < mem.cur_addr)
    (over : suc height < (home par).0)
    (place : (k : ℕ) → lo < k → k < hi → find (mem.nodes par).buf k ≡ some (r, false))
    (memory : mem.cur_addr + 128 * (height + 1) ≤ 2 ^ 48) (after : MemControl) (home' : Home)
    (within : Within mem home after home' (suc height) lo hi par)
    (few : after.cur_addr ≤ mem.cur_addr + 128 * (height + 1))
    (par_same : after.nodes par ≡ mem.nodes par)
    (has : HasParts s p after home' height lo hi m (after.nodes a)) where
  -- The node has room left.
  open_node :
      (after.nodes a).buf.entries < (after.nodes a).buf.max_entries
      → Stays s p mem home (suc height) a par r lo hi m after home'
  unfolding IsTree
  open_node room = record {
    within = within;
    tree = (within.homes a known ∙ at, omega (arith, within.grows), has.0, room, has.1);
    parent = par_same;
  }

  abbrev middle_key : ℕ
  middle_key = keys_of p (after.nodes a).buf (((after.nodes a).buf.entries + 1) / 2 - 1)

  -- The node is full and is split.
  full_node :
      (after.nodes a).buf.entries ≡ (after.nodes a).buf.max_entries
      → Outcome s p mem home (suc height) a par r lo hi m (split_index after a key (some par))
  full_node full =
      let (last, e, cur, h) =
        split_index-Splits s p after home' height a par r lo hi m key range
          (within.homes a known ∙ at) (omega (arith, within.grows)) has.0 full has.1 low high
          (omega (arith, within.grows))
          (omega (arith, over, ap (λ t. t.0) (within.homes par known')))
          (λ k q t. rw par_same (place k q t)) (omega (arith, few, memory)) in
      (
        last,
        _,
        inr (
          after.cur_addr,
          _,
          e,
          record {
            within = record {
              grows = omega (arith, cur, within.grows);
              few = omega (arith, cur, few);
              aligned = omega (arith, cur, within.aligned);
              homes = λ y lt. h.within.homes y (omega (arith, within.grows)) ∙ within.homes y lt;
              kept = λ y lt d out.
                  h.within.kept y (omega (arith, within.grows)) d (
                    subst (λ (t : ℕ × ℕ). (suc height < t.0) ⊎ ((t.1 < lo) ⊎ (hi ≤ t.1)))
                      (sym (within.homes y lt)) out)
                  ∙ within.kept y lt d out;
            };
            above = h.above;
            below = h.below;
            lower = h.lower;
            upper = h.upper;
            new = within.grows;
            parent = h.parent ∙ ap (λ q. with_child q r middle_key after.cur_addr) par_same;
          },
        ),
      )

module _ (s p : ℕ) (mem : MemControl) (home : Home) (height a par r lo hi : ℕ) (m : ℕ → Option ℕ)
    (key x : ℕ) (range : IsRange s p lo hi) (at : home a ≡ (suc height, lo))
    (known : a < mem.cur_addr) (low : lo ≤ key) (high : key < hi) (known' : par < mem.cur_addr)
    (over : suc height < (home par).0)
    (place : (k : ℕ) → lo < k → k < hi → find (mem.nodes par).buf k ≡ some (r, false))
    (memory : mem.cur_addr + 128 * (suc height + 1) ≤ 2 ^ 48)
    (room : (mem.nodes a).buf.entries < (mem.nodes a).buf.max_entries)
    (has : HasParts s p mem home height lo hi m (mem.nodes a)) (q : ℕ)
    (le : q ≤ (mem.nodes a).buf.entries) (from : low_at (keys_of p (mem.nodes a).buf) lo q ≤ key)
    (to : key < high_at (keys_of p (mem.nodes a).buf) hi (mem.nodes a).buf.entries q) where
  abbrev n : Node
  n = mem.nodes a

  abbrev after_map : ℕ → Option ℕ
  after_map = changed m key (some x)

  abbrev low_q : ℕ
  low_q = low_at (keys_of p n.buf) lo q

  abbrev high_q : ℕ
  high_q = high_at (keys_of p n.buf) hi n.buf.entries q

  module _ (after : MemControl) (home' : Home)
      (within : Within mem home after home' height low_q high_q a) where
    wider : Within mem home after home' (suc height) lo hi par
    wider =
        Within-above s p mem home height a lo hi m key (some x) range at has.0 q le from to after
          home' within par

    par_same : after.nodes par ≡ mem.nodes par
    par_same =
        within.kept par known'
          (λ e. absurd (omega (arith, ap (λ (t : ℕ). (home t).0) e, ap (λ t. t.0) at)))
          (inl (omega arith))

    room_left :
        HasParts s p after home' height lo hi after_map (after.nodes a)
        → (after.nodes a).buf.entries < (after.nodes a).buf.max_entries
        → Outcome s p mem home (suc height) a par r lo hi after_map (some (after, a))
    room_left parts open_room = (
      after,
      home',
      inl (
        refl,
        open_node s p mem home height a par r lo hi after_map key range at known low high known'
            over place (omega (arith, memory)) after home' wider (omega (arith, within.few))
            par_same parts open_room,
      ),
    )

    no_room :
        HasParts s p after home' height lo hi after_map (after.nodes a)
        → (after.nodes a).buf.entries ≡ (after.nodes a).buf.max_entries
        → Outcome s p mem home
            (suc height)
            a
            par
            r
            lo
            hi
            after_map
            (split_index after a key (some par))
    no_room parts full =
        full_node s p mem home height a par r lo hi after_map key range at known low high known'
          over place (omega (arith, memory)) after home' wider (omega (arith, within.few)) par_same
          parts full

  -- The outcome for the child gives that for the node.
  pub after_child-Outcome :
      (answer : Option (MemControl × ℕ))
      → Outcome s p mem home height (get_child n q) a q low_q high_q after_map answer
      → (result : MemControl × ℕ) × (answer ≡ some result)
        × Outcome s p mem home
            (suc height)
            a
            par
            r
            lo
            hi
            after_map
            (after_child a key (some par) (get_child n q) result)
  after_child-Outcome =
      after_child_cases s p mem home height a lo hi m key x range at (omega (arith, memory)) room
        has q le from to (some par) (Outcome s p mem home (suc height) a par r lo hi after_map)
        room_left no_room
