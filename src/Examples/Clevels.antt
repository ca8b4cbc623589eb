-- ===== src/Examples/Clevels.antt =====
-- A tree of src/clevel.cc with two leaves: at 0 with the pair (5, 50), at 128 with (9, 90), under the
-- root at 256, for the owner with prefix 0 and keys of two bytes.
use combotree_new.Prelude.{
  ℕ, zero, suc, ◌≤◌, ◌≡◌, arith, refl, ap, sym, ◌∙◌, Option, some, none, ◌==◌, ne→==, [], ◌∷◌,
  if◌then◌else◌,
}
use combotree_new.Bytes.{load}
use combotree_new.Slots.{read_key, read_value}
use combotree_new.Sequence.{tabulate}
use combotree_new.PmemKv.{lookup}
use combotree_new.SortBuffer.{SortBuffer, fresh, put, sort_key, sort_value}
use combotree_new.SortBuffer.Valid.{IsValid}
use combotree_new.SortBuffer.View.{pairs}
use combotree_new.SortBuffer.Put.{put-IsValid}
use combotree_new.SortBuffer.Fresh.{fresh-IsValid}
use combotree_new.SortBuffer.Search.{IsSorted}
use combotree_new.SortBuffer.AsMap.{HasPrefix, sort_key-prefix}
use combotree_new.Clevel.{MemControl, Node, leaf, index_node, get_child, get_node}
use combotree_new.Clevel.Tree.{Holds, InPart, get_node-Holds}

abbrev pub empty : SortBuffer
empty = fresh (λ i. 0) 2

abbrev pub left : SortBuffer
left = put 8 empty 0 5 50

abbrev pub right : SortBuffer
right = put 8 empty 0 9 90

abbrev pub root : SortBuffer
root = put 6 empty 0 9 128

abbrev pub node_at : ℕ → Node
node_at a =
    if a == 0
    then record { type = leaf; link = 128; buf = left }
    else if a == 128
    then record { type = leaf; link = 1; buf = right }
    else record { type = index_node; link = 0; buf = root }

abbrev pub mem : MemControl
mem = record { nodes = node_at; cur_addr = 384 }

empty-IsValid : (v : ℕ) → v ≤ 8 → IsValid v empty
empty-IsValid v h = fresh-IsValid v (λ i. 0) 2 (omega arith) (omega arith) h

pub one-IsValid : (v k x : ℕ) → v ≤ 8 → IsValid v (put v empty 0 k x)
one-IsValid v k x h =
    put-IsValid v empty 0 k x (empty-IsValid v h) (unfold fresh in omega arith)
      (unfold fresh in omega arith)

pub left-IsSorted : IsSorted left
unfolding put fresh
left-IsSorted i j lt hj = absurd (omega arith)

pub right-IsSorted : IsSorted right
unfolding put fresh
right-IsSorted i j lt hj = absurd (omega arith)

pub root-IsSorted : IsSorted root
unfolding put fresh
root-IsSorted i j lt hj = absurd (omega arith)

abbrev pub map_of : ℕ → Option ℕ
map_of key = if 5 == key then some 50 else if 9 == key then some 90 else none

abbrev pub Keys : ℕ → Type 0
Keys key = HasPrefix 2 0 key

pub pairs-left : pairs 8 left 0 ≡ (5, 50) ∷ []
unfolding pairs put fresh tabulate sort_key sort_value read_key read_value load
pairs-left = refl

pub pairs-right : pairs 8 right 0 ≡ (9, 90) ∷ []
unfolding pairs put fresh tabulate sort_key sort_value read_key read_value load
pairs-right = refl

-- The key in the root, which every key of the owner reads as 9.
separator : (key : ℕ) → Keys key → sort_key root 0 key ≡ 9
separator key h =
    sort_key-prefix 6 root 0 0 key (one-IsValid 6 9 128 (omega arith)) (omega arith)
      (unfold put in unfold fresh in h)
    ∙ unfold put in unfold fresh in unfold sort_key in unfold read_key in unfold load in refl

left-Holds : Holds mem 0 0 0 (λ key. Keys key × InPart root 0 key) map_of
unfolding Holds lookup put fresh
left-Holds = (
  (refl, one-IsValid 8 5 50 (omega arith), left-IsSorted),
  (λ key has. has.0),
  λ key has.
      ap (lookup key) pairs-left
      ∙ ap (λ (q : Option ℕ). if 5 == key then some 50 else q)
          (sym (
            rw
              (ne→== 9 key
                (omega (arith, separator key has.0, has.1.1 0 (omega arith) (omega arith))))
              refl)),
)

right-Holds : Holds mem 0 0 128 (λ key. Keys key × InPart root 1 key) map_of
unfolding Holds lookup put fresh
right-Holds = (
  (refl, one-IsValid 8 9 90 (omega arith), right-IsSorted),
  (λ key has. has.0),
  λ key has.
      ap (lookup key) pairs-right
      ∙ sym (rw (ne→== 5 key (omega (arith, separator key has.0, has.1.0 0 (omega arith)))) refl),
)

pub tree-Holds : Holds mem 0 1 256 Keys map_of
unfolding Holds put fresh get_child sort_value read_value load
tree-Holds =
    ((refl, one-IsValid 6 9 128 (omega arith), root-IsSorted), (λ key has. has.0), children)
  where
    children :
        (i : ℕ)
        → i ≤ root.entries
        → Holds mem 0 0 (get_child (mem.nodes 256) i) (λ key. Keys key × InPart root i key) map_of
    children zero le = left-Holds
    children (suc zero) le = right-Holds
    children (suc (suc i)) le = absurd (omega arith)

get_node-Holds_example : get_node 2 mem 256 9 ≡ some (some 90)
get_node-Holds_example =
    get_node-Holds 1 2 mem 0 256 Keys map_of 9 tree-Holds (omega arith) (omega arith, refl)
      (omega arith)
