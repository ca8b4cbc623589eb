-- ===== src/Clevel/Shape/IndexCases.antt =====
-- What `Put` of src/clevel.cc does to an index node, under any parent or none, from what it did to the
-- child of the key.
use combotree_new.Prelude.{
  ℕ, suc, ◌+◌, ◌*◌, ◌^◌, ◌≤◌, ◌<◌, ◌≡◌, inl, inr, refl, arith, ap, ◌∙◌, sym, subst, Bool, true,
  false, Option, some, ◌==◌, not, ◌&&◌, Bool-cases, ==→eq, ==→ne, ==-refl, ne→==, if◌then◌else◌,
  ◌>>=◌, if-true, if-false,
}
use combotree_new.SortBuffer.{find_le}
use combotree_new.Clevel.{
  MemControl, Node, is_leaf, is_index, index_node, get_child, split_index, put_node,
}
use combotree_new.Clevel.Delete.{changed}
use combotree_new.Clevel.Shape.{IsRange, IsIndex, IsTree, Home, keys_of, low_at, high_at}
use combotree_new.Clevel.Shape.Frame.{IsTree-known}
use combotree_new.Clevel.Shape.Outcome.{Within, Stays, Splits, Outcome}
use combotree_new.Clevel.Shape.Sibling.{sibling-IsTree}
use combotree_new.Clevel.Shape.Regrown.{regrown-IsIndex, regrown-fields, regrown-parts}

-- What `put_node` does at an index node when its child is done.
abbrev pub after_child : ℕ → ℕ → Option ℕ → ℕ → MemControl × ℕ → Option (MemControl × ℕ)
after_child a key parent child done =
    if not (done.1 == child) && ((done.0.nodes a).buf.entries == (done.0.nodes a).buf.max_entries)
    then split_index done.0 a key parent
    else some (done.0, a)

pub put_node-after_child :
    (fuel : ℕ) (mem : MemControl) (a key x : ℕ) (parent : Option ℕ) (done : MemControl × ℕ)
    → (mem.nodes a).type ≡ index_node
    → put_node fuel mem (get_child (mem.nodes a) (find_le (mem.nodes a).buf key).0) key x (some a)
      ≡ some done
    → put_node (suc fuel) mem a key x parent
      ≡ after_child a key parent (get_child (mem.nodes a) (find_le (mem.nodes a).buf key).0) done
unfolding put_node is_leaf is_index
put_node-after_child fuel mem a key x parent done kind below =
    if-false (is_leaf (mem.nodes a).type) _ _ (ap is_leaf kind)
    ∙ if-true (is_index (mem.nodes a).type) _ _ (ap is_index kind)
    ∙ ap
        (λ o.
          o
          >>= after_child a key parent (get_child (mem.nodes a) (find_le (mem.nodes a).buf key).0))
        below

-- An index node whose children are trees.
abbrev pub HasParts : ℕ → ℕ → MemControl → Home → ℕ → ℕ → ℕ → (ℕ → Option ℕ) → Node → Type 0
HasParts s p mem home height lo hi m n =
    IsIndex s p n lo hi
    × ((i : ℕ)
        → i ≤ n.buf.entries
        → IsTree s p mem home height (get_child n i) (low_at (keys_of p n.buf) lo i)
            (high_at (keys_of p n.buf) hi n.buf.entries i) m)

module _ (s p : ℕ) (mem : MemControl) (home : Home) (height a lo hi : ℕ) (m : ℕ → Option ℕ)
    (key x : ℕ) (range : IsRange s p lo hi) (at : home a ≡ (suc height, lo))
    (memory : mem.cur_addr + 128 * (height + 1) ≤ 2 ^ 48)
    (room : (mem.nodes a).buf.entries < (mem.nodes a).buf.max_entries)
    (has : HasParts s p mem home height lo hi m (mem.nodes a)) (q : ℕ)
    (le : q ≤ (mem.nodes a).buf.entries) (from : low_at (keys_of p (mem.nodes a).buf) lo q ≤ key)
    (to : key < high_at (keys_of p (mem.nodes a).buf) hi (mem.nodes a).buf.entries q) where
  abbrev n : Node
  n = mem.nodes a

  abbrev pub child : ℕ
  child = get_child n q

  abbrev after_map : ℕ → Option ℕ
  after_map = changed m key (some x)

  abbrev low_q : ℕ
  low_q = low_at (keys_of p n.buf) lo q

  abbrev high_q : ℕ
  high_q = high_at (keys_of p n.buf) hi n.buf.entries q

  Stays-HasParts :
      (after : MemControl) (home' : Home)
      → Stays s p mem home height child a q low_q high_q after_map after home'
      → HasParts s p after home' height lo hi after_map (after.nodes a)
  Stays-HasParts after home' h =
      subst (HasParts s p after home' height lo hi after_map) (sym h.parent) (has.0, parts)
    where
      parts :
          (i : ℕ)
          → i ≤ n.buf.entries
          → IsTree s p after home' height
              (get_child n i)
              (low_at (keys_of p n.buf) lo i)
              (high_at (keys_of p n.buf) hi n.buf.entries i)
              after_map
      parts i le' = elim (Bool-cases (i == q)) [
        | inl same ↦
            subst
              (λ (j : ℕ).
                IsTree s p after home' height (get_child n j) (low_at (keys_of p n.buf) lo j)
                  (high_at (keys_of p n.buf) hi n.buf.entries j) after_map)
              (sym (==→eq i q same)) h.tree
        | inr other ↦
            sibling-IsTree s p mem home height a lo hi m key (some x) range at has.0 q le from to
              after home' h.within i le' (==→ne i q other) (has.1 i le')
      ]

  Splits-HasParts :
      (after : MemControl) (home' : Home) (fresh separator : ℕ)
      → Splits s p mem home height child a q low_q high_q after_map after home' fresh separator
      → HasParts s p after home' height lo hi after_map (after.nodes a)
        × ((after.nodes a).buf.entries ≤ (after.nodes a).buf.max_entries)
  Splits-HasParts after home' fresh separator h =
      let small : after.cur_addr ≤ 2 ^ 48 = omega (arith, h.within.few, memory) in
      let fields =
        regrown-fields s p mem home height a lo hi m key x range at has.0 q le from to after home'
          fresh separator room has.1 h small in
      (
        subst (HasParts s p after home' height lo hi after_map) (sym h.parent) (
          regrown-IsIndex s p mem home height a lo hi m key x range at has.0 q le from to after
              home' fresh separator room has.1 h small,
          regrown-parts s p mem home height a lo hi m key x range at has.0 q le from to after home'
              fresh separator room has.1 h small,
        ),
        rw h.parent (omega (arith, fields)),
      )

  child_known : child < mem.cur_addr
  child_known = (IsTree-known s p mem home height child low_q high_q m (has.1 q le)).1

  -- A property of the result holds if it does where the node has room left, and where it is full
  -- and split.
  module _ (parent : Option ℕ) (P : Option (MemControl × ℕ) → Type 0)
      (open_node : (after : MemControl) (home' : Home)
        → Within mem home after home' height low_q high_q a
        → HasParts s p after home' height lo hi after_map (after.nodes a)
        → (after.nodes a).buf.entries < (after.nodes a).buf.max_entries
        → P (some (after, a)))
      (full_node : (after : MemControl) (home' : Home)
        → Within mem home after home' height low_q high_q a
        → HasParts s p after home' height lo hi after_map (after.nodes a)
        → (after.nodes a).buf.entries ≡ (after.nodes a).buf.max_entries
        → P (split_index after a key parent)) where
    room_cases :
        (after : MemControl) (home' : Home)
        → Within mem home after home' height low_q high_q a
        → HasParts s p after home' height lo hi after_map (after.nodes a)
        → (after.nodes a).buf.entries ≤ (after.nodes a).buf.max_entries
        → (full : Bool) → ((after.nodes a).buf.entries == (after.nodes a).buf.max_entries) ≡ full
        → P (if full then split_index after a key parent else some (after, a))
    room_cases after home' within parts most true e =
        full_node after home' within parts
          (==→eq (after.nodes a).buf.entries (after.nodes a).buf.max_entries e)
    room_cases after home' within parts most false e =
        open_node after home' within parts (
          ground (arith, ==→ne (after.nodes a).buf.entries (after.nodes a).buf.max_entries e, most))

    abbrev Chosen : MemControl → Bool → Type 0
    Chosen after same = P (
        if not same && ((after.nodes a).buf.entries == (after.nodes a).buf.max_entries)
        then split_index after a key parent
        else some (after, a))

    pub after_child_cases :
        (answer : Option (MemControl × ℕ))
        → Outcome s p mem home height child a q low_q high_q after_map answer
        → (result : MemControl × ℕ) × (answer ≡ some result)
          × P (after_child a key parent child result)
    after_child_cases answer (after, home', inl (e, h)) = (
      (after, child),
      e,
      subst (Chosen after) (sym (==-refl child))
          (open_node after home' h.within (Stays-HasParts after home' h) (rw h.parent room)),
    )
    after_child_cases answer (after, home', inr (fresh, separator, e, h)) =
        let (parts, most) = Splits-HasParts after home' fresh separator h in
        (
          (after, fresh),
          e,
          subst (Chosen after)
              (sym (ne→== fresh child (λ e. absurd (omega (arith, child_known, h.new)))))
              (room_cases after home' h.within parts most
                ((after.nodes a).buf.entries == (after.nodes a).buf.max_entries) refl),
        )
