-- ===== src/Clevel/Setup.antt =====
-- `Setup` of src/clevel.cc for an empty tree.
use native.Mathlib.Nat.{mod-eq_of_lt}
use combotree_new.Prelude.{ℕ, ◌^◌, ◌≤◌, ◌<◌, ◌≡◌, refl, arith, sym, subst, none, ==-refl}
use combotree_new.PmemKv.{lookup}
use combotree_new.Sequence.{tabulate}
use combotree_new.Bytes.{Bytes}
use combotree_new.SortBuffer.Valid.{IsValid}
use combotree_new.SortBuffer.{SortBuffer, fresh}
use combotree_new.SortBuffer.View.{pairs}
use combotree_new.SortBuffer.Fresh.{fresh-IsValid}
use combotree_new.SortBuffer.Search.{IsSorted}
use combotree_new.SortBuffer.AsMap.{HasPrefix}
use combotree_new.Clevel.{MemControl, NodeType, leaf, setup, new_node, set_link, set_node}
use combotree_new.Clevel.Tree.{Holds}
use combotree_new.Clevel.Shape.{IsRange, IsLeaf, IsTree}
use combotree_new.SortBuffer.Fresh.{capacity-two}
use combotree_new.Clevel.Change.{IsApart}

-- A leaf that maps none of the keys.
abbrev IsEmptyLeaf : ℕ → ℕ → SortBuffer → Type 0
IsEmptyLeaf s p b =
    IsValid 8 b
    × IsSorted b
    × ((key : ℕ) → HasPrefix s p key → HasPrefix b.suffix_bytes p key)
    × ((key : ℕ) → lookup key (pairs 8 b p) ≡ none)

fresh-IsEmptyLeaf : (old : Bytes) (s p : ℕ) → 0 < s → s ≤ 8 → IsEmptyLeaf s p (fresh old s)
unfolding fresh pairs lookup tabulate
fresh-IsEmptyLeaf old s p stored long = (
  fresh-IsValid 8 old s long stored (omega arith),
  (λ i j lt hj. absurd (omega arith)),
  (λ key has. has),
  λ key. refl,
)

fresh-IsLeaf :
    (old : Bytes) (s p : ℕ)
    → 0 < s
    → s ≤ 8
    → (link lo hi : ℕ)
    → IsLeaf s p (record { type = leaf; link = link; buf = fresh old s }) lo hi (λ key. none)
unfolding fresh pairs lookup tabulate
fresh-IsLeaf old s p stored long link lo hi = record {
  kind = refl;
  node = record {
    valid = fresh-IsValid 8 old s long stored (omega arith);
    sorted = λ i j lt hj. absurd (omega arith);
    suffix = refl;
    capacity = refl;
  };
  bounds = λ i lt. absurd (omega arith);
  maps = λ key low high. refl;
}

module _ (mem : MemControl) (s p : ℕ) (stored : 0 < s) (long : s ≤ 8)
    (room : mem.cur_addr < 2 ^ 48) where
  pub setup-type : ((setup mem s).0.nodes (setup mem s).1).type ≡ leaf
  unfolding setup new_node set_link set_node
  setup-type = rw (mod-eq_of_lt room, ==-refl mem.cur_addr) refl

  pub setup-buf :
      ((setup mem s).0.nodes (setup mem s).1).buf ≡ fresh (mem.nodes mem.cur_addr).buf.buf s
  unfolding setup new_node set_link set_node
  setup-buf = rw (mod-eq_of_lt room, ==-refl mem.cur_addr) refl

  -- For a suffix of one to eight bytes and a next node below 2^48, Setup makes a well-formed tree
  -- that maps no key of the owner's prefix.
  pub setup-Holds :
      Holds (setup mem s).0 p 0 (setup mem s).1 (HasPrefix s p) (λ key. none)
      × IsApart (setup mem s).0 0 (setup mem s).1
  unfolding Holds IsApart
  setup-Holds =
      let (valid, sorted, pre, gone) =
        subst (IsEmptyLeaf s p) (sym setup-buf)
          (fresh-IsEmptyLeaf (mem.nodes mem.cur_addr).buf.buf s p stored long) in
      (((setup-type, valid, sorted), pre, λ key has. gone key), tt)

  setup-known : (setup mem s).1 < (setup mem s).0.cur_addr
  unfolding setup new_node set_link set_node
  setup-known = omega (arith, room, mod-eq_of_lt room)

  -- For a suffix of one to eight bytes and a next node below 2^48, Setup makes a tree for any range
  -- of the owner, which maps nothing.
  pub setup-IsTree :
      (lo hi : ℕ)
      → IsRange s p lo hi
      → IsTree s p (setup mem s).0 (λ x. (0, lo)) 0 (setup mem s).1 lo hi (λ key. none)
  unfolding IsTree
  setup-IsTree lo hi range = (
    refl,
    setup-known,
    subst
        (λ (q : NodeType × SortBuffer).
          IsLeaf s p
            (record { type = q.0; link = ((setup mem s).0.nodes (setup mem s).1).link; buf = q.1 })
            lo hi (λ key. none))
        (λ i. (sym setup-type i, sym setup-buf i))
        (fresh-IsLeaf (mem.nodes mem.cur_addr).buf.buf s p stored long
          ((setup mem s).0.nodes (setup mem s).1).link lo hi),
    subst (λ b. b.entries < b.max_entries) (sym setup-buf)
        (unfold fresh in omega (arith, capacity-two s long)),
  )
