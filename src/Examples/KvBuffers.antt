-- ===== src/Examples/KvBuffers.antt =====
-- A buffer of src/kvbuffer.h with two-byte suffixes: the pairs (9, 90) and (5, 50), in the order of
-- insertion, for the owner with prefix 0.
use mathlib.Core.List.{Perm}
use combotree_new.Prelude.{◌≡◌, arith, refl, [], ◌∷◌, ◌++◌}
use combotree_new.Bytes.{Bytes}
use combotree_new.KvBuffer.{KvBuffer, key, find, fresh, put, delete}
use combotree_new.KvBuffer.Find.{Finds, find-Finds}
use combotree_new.KvBuffer.Laws.{IsValid, pair_at, pairs, put-IsValid, put-append}
use combotree_new.KvBuffer.Delete.{delete-perm}

abbrev memory : Bytes
memory i = 0

abbrev empty : KvBuffer
empty = fresh memory 6

abbrev one : KvBuffer
one = put 8 empty 0 9 90

abbrev two : KvBuffer
two = put 8 one 1 5 50

empty-IsValid : IsValid 8 empty
unfolding fresh
empty-IsValid = record {
  widths = omega arith;
  capacity = omega arith;
  fits = omega arith;
  value_fits = omega arith;
  count = omega arith;
}

one-IsValid : IsValid 8 one
one-IsValid = put-IsValid 8 empty 0 9 90 empty-IsValid (unfold fresh in omega arith)

two-IsValid : IsValid 8 two
two-IsValid = put-IsValid 8 one 1 5 50 one-IsValid (unfold put in unfold fresh in omega arith)

put-append_example : pairs 8 (put 8 one 1 5 50) 0 ≡ pairs 8 one 0 ++ (5, 50) ∷ []
unfolding put fresh
put-append_example =
    put-append 8 one 5 50 0 one-IsValid (omega arith) (omega arith) (omega arith) refl (omega arith)

delete-perm_example : Perm (pair_at 8 two 0 0 ∷ pairs 8 (delete 8 two 0) 0) (pairs 8 two 0)
delete-perm_example =
    delete-perm 8 two 0 0 two-IsValid (unfold put in unfold fresh in omega arith) (omega arith)

find-Finds_example : Finds (λ j. key two j 5) 5 two.entries (find two 5)
find-Finds_example = find-Finds 8 two 5 two-IsValid (omega arith)
