-- ===== src/Clevel/Shape.antt =====
-- The tree of src/clevel.cc with the bounds of every node: what `Put` needs and keeps. `home` is no
-- part of the program: it names for each node its height and the least key that may stand in it, so
-- that no node can stand in two places.
pub mod Frame
pub mod Halves
pub mod Indexes
pub mod Insert
pub mod Split
pub mod SplitIndex
pub mod Leaf
pub mod Outcome
pub mod Sibling
pub mod Parts
pub mod Regrown
pub mod SplitLeaf
pub mod SplitNode
pub mod PutIndex
pub mod PutNode
pub mod RootSplit
pub mod RootTree
pub mod LeafCases
pub mod IndexCases
pub mod PutRoot
pub mod Target
pub mod PutLeaf
use combotree_new.Prelude.{
  ℕ, zero, suc, ◌+◌, ◌*◌, ◌/◌, ◌%◌, ◌^◌, ◌≤◌, ◌<◌, ◌≡◌, refl, arith, ap, ◌∙◌, sym, Option, ltb,
  if◌then◌else◌,
}
use native.Mathlib.Nat.{div-lt_iff_lt-mul, le-div_iff_mul-le, one-le-pow}
use combotree_new.Word.{word_mod}
use combotree_new.Slots.{max_entries_of, prefix_of}
use combotree_new.PmemKv.{lookup}
use combotree_new.SortBuffer.{SortBuffer, sort_key}
use combotree_new.SortBuffer.Valid.{IsValid}
use combotree_new.SortBuffer.View.{pairs}
use combotree_new.SortBuffer.Search.{IsSorted, sort_key-IsAscending}
use combotree_new.SortBuffer.AsMap.{HasPrefix}
use combotree_new.Clevel.{MemControl, Node, leaf, index_node, get_child}

-- The keys from `lo` up to `hi`, not empty, all of the prefix of the owner `p`.
pub record IsRange (s p lo hi : ℕ) : Type 0 where
  pub stored : 0 < s
  pub long : s ≤ 8
  pub owner : p < word_mod
  pub from_prefix : p / 256 ^ s * 256 ^ s ≤ lo
  pub to_prefix : hi ≤ (p / 256 ^ s + 1) * 256 ^ s
  pub to_word : hi ≤ word_mod
  pub some_key : lo < hi

pub record IsNodeBuffer (s v : ℕ) (b : SortBuffer) : Type 0 where
  pub valid : IsValid v b
  pub sorted : IsSorted b
  pub suffix : b.suffix_bytes ≡ s
  pub capacity : b.max_entries ≡ max_entries_of 8 s % 16

pub record IsLeaf (s p : ℕ) (n : Node) (lo hi : ℕ) (m : ℕ → Option ℕ) : Type 0 where
  pub kind : n.type ≡ leaf
  pub node : IsNodeBuffer s 8 n.buf
  pub bounds : (i : ℕ) → i < n.buf.entries → (lo ≤ sort_key n.buf i p) × (sort_key n.buf i p < hi)
  pub maps : (key : ℕ) → lo ≤ key → key < hi → lookup key (pairs 8 n.buf p) ≡ m key

pub record IsIndex (s p : ℕ) (n : Node) (lo hi : ℕ) : Type 0 where
  pub kind : n.type ≡ index_node
  pub node : IsNodeBuffer s 6 n.buf
  pub bounds : (i : ℕ) → i < n.buf.entries → (lo < sort_key n.buf i p) × (sort_key n.buf i p < hi)

-- The bounds of child `i`, by the keys of its node.
abbrev pub low_at : (ℕ → ℕ) → ℕ → ℕ → ℕ
low_at keys lo zero = lo
low_at keys lo (suc i) = keys i

abbrev pub high_at : (ℕ → ℕ) → ℕ → ℕ → ℕ → ℕ
high_at keys hi count i = if ltb i count then keys i else hi

abbrev pub keys_of : ℕ → SortBuffer → ℕ → ℕ
keys_of p b i = sort_key b i p

abbrev pub Home : Type 0
Home = ℕ → ℕ × ℕ

module _ (s p : ℕ) where
  -- A tree of the given height at `a` for the keys from `lo` up to `hi`, which maps them as `m` does.
  unfoldable pub IsTree : MemControl → Home → ℕ → ℕ → ℕ → ℕ → (ℕ → Option ℕ) → Type 0
  IsTree mem home zero a lo hi m =
      (home a ≡ (zero, lo))
      × (a < mem.cur_addr)
      × IsLeaf s p (mem.nodes a) lo hi m
      × ((mem.nodes a).buf.entries < (mem.nodes a).buf.max_entries)
  IsTree mem home (suc height) a lo hi m =
      (home a ≡ (suc height, lo))
      × (a < mem.cur_addr)
      × IsIndex s p (mem.nodes a) lo hi
      × ((mem.nodes a).buf.entries < (mem.nodes a).buf.max_entries)
      × ((i : ℕ)
          → i ≤ (mem.nodes a).buf.entries
          → IsTree mem home height (get_child (mem.nodes a) i)
              (low_at (keys_of p (mem.nodes a).buf) lo i)
              (high_at (keys_of p (mem.nodes a).buf) hi (mem.nodes a).buf.entries i) m)

pub IsRange-HasPrefix :
    (s p lo hi key : ℕ) → IsRange s p lo hi → lo ≤ key → key < hi → HasPrefix s p key
IsRange-HasPrefix s p lo hi key h below above =
    let pos : 0 < 256 ^ s = one-le-pow s 256 (omega arith) in
    let under =
      (div-lt_iff_lt-mul {x = key} {y = p / 256 ^ s + 1} pos).1 (omega (arith, h.to_prefix)) in
    let over =
      (le-div_iff_mul-le {x = p / 256 ^ s} {y = key} pos).1 (omega (arith, h.from_prefix)) in
    (omega (arith, h.to_word), omega (arith, under, over))

-- The keys of a node grow.
pub keys_of-IsAscending :
    (s v p : ℕ) (b : SortBuffer)
    → IsNodeBuffer s v b
    → p < word_mod
    → (i j : ℕ) → i < j
    → j < b.entries
    → keys_of p b i < keys_of p b j
keys_of-IsAscending s v p b h hp = sort_key-IsAscending v b p h.valid h.sorted hp

-- The bounds of a child lie in those of the node, and leave room for a key.
pub part-within :
    (s p lo hi i : ℕ) (n : Node)
    → IsIndex s p n lo hi
    → p < word_mod
    → lo < hi
    → i ≤ n.buf.entries
    → (lo ≤ low_at (keys_of p n.buf) lo i)
      × (low_at (keys_of p n.buf) lo i < high_at (keys_of p n.buf) hi n.buf.entries i)
      × (high_at (keys_of p n.buf) hi n.buf.entries i ≤ hi)
part-within s p lo hi zero n h hp lt le = ground (arith, h.bounds 0)
part-within s p lo hi (suc i) n h hp lt le =
    ground
      (arith, h.bounds i, h.bounds (suc i), keys_of-IsAscending s 6 p n.buf h.node hp i (suc i))

pub IsRange-part :
    (s p lo hi i : ℕ) (n : Node)
    → IsRange s p lo hi
    → IsIndex s p n lo hi
    → i ≤ n.buf.entries
    → IsRange s p (low_at (keys_of p n.buf) lo i) (high_at (keys_of p n.buf) hi n.buf.entries i)
IsRange-part s p lo hi i n range h le =
    let (below, between, above) = part-within s p lo hi i n h range.owner range.some_key le in
    record {
      stored = range.stored;
      long = range.long;
      owner = range.owner;
      from_prefix = omega (arith, range.from_prefix);
      to_prefix = omega (arith, range.to_prefix);
      to_word = omega (arith, range.to_word);
      some_key = between;
    }
