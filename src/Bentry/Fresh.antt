-- ===== src/Bentry/Fresh.antt =====
-- A new entry of src/bentry.h maps the pair that it was made with, and nothing else.

use combotree_new.Prelude.{
  ℕ, zero, suc, ◌+◌, ◌-◌, ◌%◌, ◌^◌, ◌<◌, ◌≡◌, refl, arith, sym, subst, true, none, some, ◌==◌,
  if◌then◌else◌, ==-refl,
}
use combotree_new.Word.{word_mod}
use combotree_new.SortBuffer.{fresh}
use combotree_new.SortBuffer.Fresh.{capacity-two}
use combotree_new.SortBuffer.AsMap.{HasPrefix}
use combotree_new.Clevel.{
  MemControl, has_setup, setup, leaf, new_node, find_leaf, put_root, put_node, is_leaf,
}
use combotree_new.Clevel.Tree.{Holds, get_node-Holds}
use combotree_new.Clevel.Change.{IsApart}
use combotree_new.Clevel.Delete.{changed, some-injective}
use combotree_new.Clevel.Put.{put_node-Holds}
use combotree_new.Clevel.Setup.{setup-Holds, setup-type, setup-buf}
use combotree_new.Bentry.{NobufBentry, new_entry, new_pair, get}

find_leaf-leaf :
    (fuel : ℕ) (mem : MemControl) (a key l : ℕ)
    → (mem.nodes a).type ≡ leaf
    → find_leaf fuel mem a key ≡ some l
    → a ≡ l
unfolding find_leaf is_leaf
find_leaf-leaf zero mem a key l kind e = absurd (cc e)
find_leaf-leaf (suc fuel) mem a key l kind e = some-injective a l (rw kind at e)

module _ (fuel : ℕ) (mem : MemControl) (key value prefix_len rest : ℕ) (deep : 0 < fuel)
    (cut : prefix_len < 8) (room : mem.cur_addr < 2 ^ 48) (aligned : mem.cur_addr % 2 ≡ 0)
    (hk : key < word_mod) (small : value < 256 ^ 8) where
  abbrev s : ℕ
  s = 8 - prefix_len

  abbrev ready : MemControl
  ready = (setup mem s).0

  abbrev r : ℕ
  r = (setup mem s).1

  -- The only leaf of the new tree has room.
  leaf_room :
      (l : ℕ)
      → find_leaf fuel ready r key ≡ some l
      → (ready.nodes l).buf.entries + 1 < (ready.nodes l).buf.max_entries
  leaf_room l e =
      subst (λ (l : ℕ). (ready.nodes l).buf.entries + 1 < (ready.nodes l).buf.max_entries)
        (find_leaf-leaf fuel ready r key l (setup-type mem s 0 (omega arith) (omega arith) room) e)
        (subst (λ b. b.entries + 1 < b.max_entries)
          (sym (setup-buf mem s 0 (omega arith) (omega arith) room))
          (unfold fresh in capacity-two s (omega arith)))

  r-even : has_setup r ≡ true
  unfolding setup new_node has_setup
  r-even = ground (arith, room, aligned)

  first :
      (after : MemControl) × (put_node fuel ready r key value none ≡ some (after, r))
      × Holds after key 0 r (HasPrefix s key) (changed (λ j. none) key (some value))
      × IsApart after 0 r
  first =
      let (h, apart) = setup-Holds mem s key (omega arith) (omega arith) room in
      put_node-Holds 0 fuel ready key r (HasPrefix s key) (λ j. none) key value h apart hk
        (hk, refl) deep small leaf_room

  new_pair-first :
      new_pair fuel mem key value prefix_len rest
      ≡ some (first.0, (new_entry mem key prefix_len rest).1)
  unfolding new_pair new_entry put_root
  new_pair-first = rw (first.1, ==-refl r) refl

  -- With fuel above 0, a prefix of less than eight bytes, 64-bit key and value, and a next node at
  -- an even address below 2^48, an entry can be made with a pair. Get on it finds the value of its
  -- key, and nothing at another key of its prefix.
  pub get-new_pair :
      (j : ℕ)
      → HasPrefix s key j
      → (made : MemControl × NobufBentry) × (new_pair fuel mem key value prefix_len rest
          ≡ some made)
        × (get fuel made.0 made.1 j ≡ some (if j == key then some value else none))
  unfolding get new_entry
  get-new_pair j has = (
    (first.0, (new_entry mem key prefix_len rest).1),
    new_pair-first,
    rw r-even (
        get_node-Holds 0 fuel first.0 key r (HasPrefix s key) (changed (λ j. none) key (some value))
          j first.2 hk has deep),
  )
