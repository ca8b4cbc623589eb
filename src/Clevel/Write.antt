-- ===== src/Clevel/Write.antt =====
-- `Update` and `Delete` of src/clevel.cc on a tree with the bounds of its nodes.
use combotree_new.Prelude.{
  ℕ, ◌^◌, ◌≤◌, ◌<◌, ◌≡◌, refl, arith, ap, ◌∙◌, sym, true, false, Bool, Bool-cases, Option, none,
  some, inl, inr, ◌==◌, ==→eq, if◌then◌else◌,
}
use combotree_new.SortBuffer.{SortBuffer, find, sort_value, update, delete}
use combotree_new.SortBuffer.Delete.{delete-fields}
use combotree_new.SortBuffer.AsMap.{HasPrefix, find-Locates, delete-Changes}
use combotree_new.SortBuffer.Update.{update-Changes}
use combotree_new.Clevel.{MemControl, set_buf, update_node, delete_node}
use combotree_new.Clevel.Delete.{changed}
use combotree_new.Clevel.Tree.{find-lookup}
use combotree_new.Clevel.Shape.{IsRange, IsRange-HasPrefix, IsTree, Home}
use combotree_new.Clevel.Shape.Frame.{IsTree-ext}
use combotree_new.Clevel.Shape.Target.{Target, target}

module _ (s p : ℕ) (mem : MemControl) (home : Home) (m : ℕ → Option ℕ) (height fuel a lo hi : ℕ)
    (range : IsRange s p lo hi) (tree : IsTree s p mem home height a lo hi m) (deep : height < fuel)
    (key : ℕ) (low : lo ≤ key) (high : key < hi) where
  abbrev leaf_at : ℕ
  leaf_at = (target s p mem home m key height fuel a lo hi range tree low high deep).0

  abbrev first : ℕ
  first = (target s p mem home m key height fuel a lo hi range tree low high deep).1

  abbrev last : ℕ
  last = (target s p mem home m key height fuel a lo hi range tree low high deep).2

  found : Target s p mem home height fuel a lo hi m key leaf_at first last
  found = (target s p mem home m key height fuel a lo hi range tree low high deep).3

  abbrev b : SortBuffer
  b = (mem.nodes leaf_at).buf

  pre : HasPrefix b.suffix_bytes p key
  pre =
      rw (found.node.node.suffix)
        (IsRange-HasPrefix s p first last key found.range found.low found.high)

  looked :
      (r : ℕ × Bool) × (find b key ≡ some r)
      × ((if r.1 then some (sort_value 8 b r.0) else none) ≡ m key)
  looked =
      let (r, e, value) =
        find-lookup b p key found.node.node.valid found.node.node.sorted range.owner pre in
      (r, e, value ∙ found.node.maps key found.low found.high)

  -- On a tree of an owner, for a key of its range and a value of 64 bits, with fuel above its
  -- height: Update of a key that the tree maps ends with true, takes no memory for nodes, and
  -- leaves a tree that maps the key to the value and every other key as before; Update of a key
  -- that it does not map ends with false and changes nothing, in a build without assertions.
  pub update_node-IsTree :
      (x : ℕ)
      → x < 256 ^ 8
      → ((old : ℕ)
          → m key ≡ some old
          → (after : MemControl) × (update_node fuel mem a key x ≡ some (after, true))
            × (after.cur_addr ≡ mem.cur_addr)
            × IsTree s p after home height a lo hi (changed m key (some x)))
        × (m key ≡ none → update_node fuel mem a key x ≡ some (mem, false))
  unfolding update_node
  update_node-IsTree x small = (λ old held. present old held looked, λ gone. absent gone looked)
    where
      present :
          (old : ℕ)
          → m key ≡ some old
          → ((r : ℕ × Bool) × (find b key ≡ some r)
              × ((if r.1 then some (sort_value 8 b r.0) else none) ≡ m key))
          → (after : MemControl) × (update_node fuel mem a key x ≡ some (after, true))
            × (after.cur_addr ≡ mem.cur_addr)
            × IsTree s p after home height a lo hi (changed m key (some x))
      present old held ((pos, false), e, value) = absurd (cc (value, held))
      present old held ((pos, true), e, value) = (
        set_buf mem leaf_at (update 8 b pos x),
        rw (found.walk, e) refl,
        unfold set_buf in refl,
        found.written (update 8 b pos x) (some x)
            (update-Changes 8 p b key pos found.node.node.valid found.node.node.sorted range.owner
              pre x small e)
            (unfold update in refl) (unfold update in found.room),
      )

      absent :
          m key ≡ none
          → ((r : ℕ × Bool) × (find b key ≡ some r)
              × ((if r.1 then some (sort_value 8 b r.0) else none) ≡ m key))
          → update_node fuel mem a key x ≡ some (mem, false)
      absent gone ((pos, true), e, value) = absurd (cc (value, gone))
      absent gone ((pos, false), e, value) = rw (found.walk, e) refl

  -- On a tree of an owner, for a key of its range, with fuel above its height: Delete ends with
  -- true and the value that the tree mapped the key to, if any, and leaves a tree that maps every
  -- other key as before and the key to nothing.
  pub delete_node-IsTree :
      (after : MemControl) × (delete_node fuel mem a key ≡ some (after, m key, true))
      × IsTree s p after home height a lo hi (changed m key none)
  unfolding delete_node
  delete_node-IsTree = go looked
    where
      go :
          ((r : ℕ × Bool) × (find b key ≡ some r)
            × ((if r.1 then some (sort_value 8 b r.0) else none) ≡ m key))
          → (after : MemControl) × (delete_node fuel mem a key ≡ some (after, m key, true))
            × IsTree s p after home height a lo hi (changed m key none)
      go ((pos, true), e, value) =
          let at =
            find-Locates 8 p b key pos found.node.node.valid found.node.node.sorted range.owner pre
              true e in
          let fields = delete-fields 8 b pos found.node.node.valid at.0 in
          (
            set_buf mem leaf_at (delete b pos),
            rw (found.walk, e)
                (ap (λ (q : Option ℕ). some (set_buf mem leaf_at (delete b pos), q, true)) value),
            found.written (delete b pos) none
                (delete-Changes 8 p b key pos found.node.node.valid found.node.node.sorted
                  range.owner pre e)
                (omega (arith, fields)) (omega (arith, fields, found.room)),
          )
      go ((pos, false), e, value) = (
        mem,
        rw (found.walk, e) (ap (λ (q : Option ℕ). some (mem, q, true)) value),
        IsTree-ext s p mem home height a lo hi m (changed m key none) range.owner range.some_key
            (λ j below above. same j value) tree,
      )
        where
          same : (j : ℕ) → none ≡ m key → m j ≡ changed m key none j
          same j value = elim (Bool-cases (j == key)) [
            | inl hit ↦ rw hit (ap m (==→eq j key hit) ∙ sym value)
            | inr miss ↦ rw miss refl
          ]
