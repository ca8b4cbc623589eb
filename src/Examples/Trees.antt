-- ===== src/Examples/Trees.antt =====
-- The tree of Examples/Clevels with the bounds of its nodes.
use combotree_new.Prelude.{
  ℕ, zero, suc, ◌≤◌, ◌<◌, ◌≡◌, arith, refl, ap, ◌∙◌, sym, true, false, Option, none, some, ◌==◌,
  ne→==, if◌then◌else◌,
}
use combotree_new.Bytes.{load}
use combotree_new.Slots.{read_key, read_value}
use combotree_new.PmemKv.{lookup}
use combotree_new.SortBuffer.{fresh, put, sort_key, sort_value}
use combotree_new.Clevel.{MemControl, get_child, put_root, update_node, delete_node, setup}
use combotree_new.Clevel.Delete.{changed}
use combotree_new.Clevel.Setup.{setup-IsTree}
use combotree_new.Clevel.Insert.{put_root-IsTree}
use combotree_new.Clevel.Write.{update_node-IsTree, delete_node-IsTree}
use combotree_new.Clevel.Shape.{IsRange, IsTree, Home, low_at, high_at, keys_of}
use combotree_new.Clevel.Shape.PutRoot.{Grows}
use combotree_new.Examples.Clevels.{
  mem, map_of, left, right, root, one-IsValid, left-IsSorted, right-IsSorted, root-IsSorted,
  pairs-left, pairs-right,
}

abbrev home : Home
home a = if a == 0 then (0, 0) else if a == 128 then (0, 9) else (1, 0)

-- Keys of two bytes, for the owner with prefix 0.
range : IsRange 2 0 0 65536
range = record {
  stored = omega arith;
  long = omega arith;
  owner = omega arith;
  from_prefix = omega arith;
  to_prefix = omega arith;
  to_word = omega arith;
  some_key = omega arith;
}

-- The leaf with the pair (5, 50).
left-IsTree : IsTree 2 0 mem home 0 0 0 9 map_of
unfolding IsTree put fresh lookup sort_key read_key load
left-IsTree = (
  refl,
  omega arith,
  record {
    kind = refl;
    node = record {
      valid = one-IsValid 8 5 50 (omega arith);
      sorted = left-IsSorted;
      suffix = refl;
      capacity = refl;
    };
    bounds = first;
    maps = λ key low high.
        ap (lookup key) pairs-left
        ∙ ap (λ (q : Option ℕ). if 5 == key then some 50 else q)
            (sym (rw (ne→== 9 key (λ e. absurd (omega arith))) refl));
  },
  omega arith,
)
  where
    first : (i : ℕ) → i < 1 → (0 ≤ sort_key left i 0) × (sort_key left i 0 < 9)
    first zero lt = omega arith
    first (suc i) lt = absurd (omega arith)

-- The leaf with the pair (9, 90).
right-IsTree : IsTree 2 0 mem home 0 128 9 65536 map_of
unfolding IsTree put fresh lookup sort_key read_key load
right-IsTree = (
  refl,
  omega arith,
  record {
    kind = refl;
    node = record {
      valid = one-IsValid 8 9 90 (omega arith);
      sorted = right-IsSorted;
      suffix = refl;
      capacity = refl;
    };
    bounds = first;
    maps = λ key low high.
        ap (lookup key) pairs-right ∙ sym (rw (ne→== 5 key (λ e. absurd (omega arith))) refl);
  },
  omega arith,
)
  where
    first : (i : ℕ) → i < 1 → (9 ≤ sort_key right i 0) × (sort_key right i 0 < 65536)
    first zero lt = omega arith
    first (suc i) lt = absurd (omega arith)

tree-IsTree : IsTree 2 0 mem home 1 256 0 65536 map_of
unfolding IsTree put fresh sort_key read_key get_child sort_value read_value load
tree-IsTree = (
  refl,
  omega arith,
  record {
    kind = refl;
    node = record {
      valid = one-IsValid 6 9 128 (omega arith);
      sorted = root-IsSorted;
      suffix = refl;
      capacity = refl;
    };
    bounds = first;
  },
  omega arith,
  children,
)
  where
    first : (i : ℕ) → i < 1 → (0 < sort_key root i 0) × (sort_key root i 0 < 65536)
    first zero lt = omega arith
    first (suc i) lt = absurd (omega arith)

    children :
        (i : ℕ)
        → i ≤ 1
        → IsTree 2 0 mem home 0
            (get_child (mem.nodes 256) i)
            (low_at (keys_of 0 root) 0 i)
            (high_at (keys_of 0 root) 65536 1 i)
            map_of
    children zero le = left-IsTree
    children (suc zero) le = right-IsTree
    children (suc (suc i)) le = absurd (omega arith)

put_root-IsTree_example :
    Grows 2 0 mem 1 256 0 65536 (changed map_of 7 (some 70)) (put_root 2 mem 256 7 70)
put_root-IsTree_example =
    put_root-IsTree 2 0 mem home map_of 1 2 256 0 65536 range tree-IsTree (omega arith) 7 70
      (omega arith) (omega arith) (omega arith) (omega arith)

update_node-IsTree_example :
    ((old : ℕ)
      → map_of 9 ≡ some old
      → (after : MemControl) × (update_node 2 mem 256 9 91 ≡ some (after, true))
        × (after.cur_addr ≡ mem.cur_addr)
        × IsTree 2 0 after home 1 256 0 65536 (changed map_of 9 (some 91)))
    × (map_of 9 ≡ none → update_node 2 mem 256 9 91 ≡ some (mem, false))
update_node-IsTree_example =
    update_node-IsTree 2 0 mem home map_of 1 2 256 0 65536 range tree-IsTree (omega arith) 9
      (omega arith) (omega arith) 91 (omega arith)

delete_node-IsTree_example :
    (after : MemControl) × (delete_node 2 mem 256 9 ≡ some (after, some 90, true))
    × IsTree 2 0 after home 1 256 0 65536 (changed map_of 9 none)
delete_node-IsTree_example =
    delete_node-IsTree 2 0 mem home map_of 1 2 256 0 65536 range tree-IsTree (omega arith) 9
      (omega arith) (omega arith)

setup-IsTree_example :
    IsTree 2 0 (setup mem 2).0 (λ x. (0, 0)) 0 (setup mem 2).1 0 65536 (λ key. none)
setup-IsTree_example = setup-IsTree mem 2 0 (omega arith) (omega arith) (omega arith) 0 65536 range
