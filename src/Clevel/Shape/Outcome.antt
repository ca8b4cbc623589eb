-- ===== src/Clevel/Shape/Outcome.antt =====
-- What `Put` of src/clevel.cc does to a tree under a parent that has room: the tree stays where it is, or
-- it becomes two trees and the parent gets the second as a child.
use combotree_new.Prelude.{
  ℕ, ◌+◌, ◌*◌, ◌%◌, ◌≤◌, ◌<◌, ◌≡◌, ◌≢◌, ◌⊎◌, Option, some, ◌==◌, if◌then◌else◌,
}
use combotree_new.SortBuffer.{put}
use combotree_new.Clevel.{MemControl, Node}
use combotree_new.Clevel.Shape.{IsTree, Home}

-- Besides the parent only nodes of the tree change: those up to its height with a least key from `lo`
-- up to `hi`. At most one node for each level is new, of 128 bytes.
pub record Within (mem : MemControl) (home : Home) (mem' : MemControl) (home' : Home)
    (height lo hi par : ℕ) : Type 0 where
  pub grows : mem.cur_addr ≤ mem'.cur_addr
  pub few : mem'.cur_addr ≤ mem.cur_addr + 128 * (height + 1)
  pub aligned : mem'.cur_addr % 128 ≡ mem.cur_addr % 128
  pub homes : (x : ℕ) → x < mem.cur_addr → home' x ≡ home x
  pub kept :
      (x : ℕ)
      → x < mem.cur_addr
      → x ≢ par
      → ((height < (home x).0) ⊎ (((home x).1 < lo) ⊎ (hi ≤ (home x).1)))
      → mem'.nodes x ≡ mem.nodes x

abbrev pub new_home : Home → ℕ → ℕ → ℕ → Home
new_home home n height separator x = if x == n then (height, separator) else home x

abbrev pub with_child : Node → ℕ → ℕ → ℕ → Node
with_child n r separator child = record {
  type = n.type;
  link = n.link;
  buf = put 6 n.buf r separator child;
}

module _ (s p : ℕ) (mem : MemControl) (home : Home) (height a par r lo hi : ℕ)
    (m : ℕ → Option ℕ) where
  pub record Stays (after : MemControl) (home' : Home) : Type 0 where
    pub within : Within mem home after home' height lo hi par
    pub tree : IsTree s p after home' height a lo hi m
    pub parent : after.nodes par ≡ mem.nodes par

  pub record Splits (after : MemControl) (home' : Home) (n separator : ℕ) : Type 0 where
    pub within : Within mem home after home' height lo hi par
    pub above : lo < separator
    pub below : separator < hi
    pub lower : IsTree s p after home' height a lo separator m
    pub upper : IsTree s p after home' height n separator hi m
    pub new : mem.cur_addr ≤ n
    pub parent : after.nodes par ≡ with_child (mem.nodes par) r separator n

  abbrev pub Outcome : Option (MemControl × ℕ) → Type 0
  Outcome result =
      (after : MemControl) × (home' : Home) × (((result ≡ some (after, a)) × Stays after home')
        ⊎ ((n : ℕ) × (separator : ℕ) × (result ≡ some (after, n)) × Splits after home' n separator))
