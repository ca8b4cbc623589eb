-- ===== src/Examples/SortBuffers.antt =====
-- A buffer of src/sortbuffer.h with two-byte suffixes: the pairs (5, 50) and (9, 90), put in that
-- order, for the owner with prefix 0.
use combotree_new.Prelude.{
  ℕ, zero, suc, ◌+◌, ◌/◌, ◌*◌, ◌^◌, ◌≡◌, arith, refl, drop, Bool, true, false, some, none,
}
use combotree_new.Bytes.{Bytes, load}
use combotree_new.Word.{circular_lshift, circular_rshift}
use combotree_new.Word.Fields.{rshift-lshift}
use combotree_new.Slots.{read_key, read_key-eq, key_offset}
use combotree_new.Sequence.{insert_at, remove_at}
use combotree_new.SortBuffer.{
  SortBuffer, fresh, put, find, find_le, delete, copy_data, sort_key, update,
}
use combotree_new.SortBuffer.Valid.{IsValid}
use combotree_new.SortBuffer.View.{pairs}
use combotree_new.SortBuffer.Put.{put-IsValid, put-pairs}
use combotree_new.SortBuffer.Delete.{delete-pairs}
use combotree_new.SortBuffer.Search.{IsSorted, find_total, find_le-Precedes, Precedes}
use combotree_new.SortBuffer.AsMap.{Changes, put-Changes, delete-Changes}
use combotree_new.SortBuffer.Update.{update-Changes}
use combotree_new.SortBuffer.Copy.{upper-pairs}
use combotree_new.Bisect.{bisect, Locates}
use combotree_new.SortBuffer.Fresh.{fresh-IsValid}

abbrev memory : Bytes
memory i = 0

abbrev empty : SortBuffer
empty = fresh memory 2

abbrev one : SortBuffer
one = put 8 empty 0 5 50

abbrev two : SortBuffer
two = put 8 one 1 9 90

empty-IsValid : IsValid 8 empty
empty-IsValid = fresh-IsValid 8 memory 2 (omega arith) (omega arith) (omega arith)

one-IsValid : IsValid 8 one
one-IsValid =
    put-IsValid 8 empty 0 5 50 empty-IsValid (unfold fresh in omega arith)
      (unfold fresh in omega arith)

two-IsValid : IsValid 8 two
two-IsValid =
    put-IsValid 8 one 1 9 90 one-IsValid (unfold put in unfold fresh in omega arith)
      (unfold put in unfold fresh in omega arith)

two-IsSorted : IsSorted two
unfolding put fresh load
two-IsSorted zero (suc zero) lt hj = omega arith
two-IsSorted zero (suc (suc j)) lt hj = absurd (omega arith)
two-IsSorted (suc i) (suc zero) lt hj = absurd (omega arith)
two-IsSorted (suc i) (suc (suc j)) lt hj = absurd (omega arith)
two-IsSorted i zero lt hj = absurd (omega arith)

put-pairs_example : pairs 8 (put 8 one 1 9 90) 0 ≡ insert_at 1 (9, 90) (pairs 8 one 0)
put-pairs_example =
    put-pairs 8 one 1 9 90 one-IsValid (unfold put in unfold fresh in omega arith)
      (unfold put in unfold fresh in omega arith) 0 (omega arith) (omega arith)
      (unfold put in unfold fresh in refl) (omega arith)

delete-pairs_example : pairs 8 (delete two 0) 0 ≡ remove_at 0 (pairs 8 two 0)
delete-pairs_example =
    delete-pairs 8 two 0 0 two-IsValid (unfold put in unfold fresh in omega arith) (omega arith)

upper-pairs_example : pairs 8 (copy_data 8 two (fresh memory 2) 1) 0 ≡ drop 1 (pairs 8 two 0)
unfolding put fresh
upper-pairs_example =
    upper-pairs 8 two memory 1 two-IsValid (unfold put in unfold fresh in refl)
      (unfold put in unfold fresh in omega arith) 0 (omega arith)

find_total_example :
    (r : ℕ × Bool) × (find two 9 ≡ some r) × Locates (λ i. sort_key two i 9) 9 two.entries r
find_total_example = find_total 8 two 9 two-IsValid two-IsSorted (omega arith)

find_le-Precedes_example : Precedes (λ j. sort_key two j 7) 7 two.entries (find_le two 7)
find_le-Precedes_example = find_le-Precedes 8 two 7 two-IsValid two-IsSorted (omega arith)

rshift-lshift_example :
    circular_rshift (circular_lshift 0x123456789ABCDEF0 16 4) 16 4 ≡ 0x123456789ABCDEF0
rshift-lshift_example =
    rshift-lshift 0x123456789ABCDEF0 16 4 (omega arith) (omega arith) (omega arith)

read_key-eq_example :
    read_key memory 6 2 3 0x1234567890ABCDEF
    ≡ 0x1234567890ABCDEF / 256 ^ 2 * 256 ^ 2 + load memory (key_offset 2 3) 2
read_key-eq_example = read_key-eq memory 6 2 3 0x1234567890ABCDEF (omega arith) (omega arith)

find_seven : find two 7 ≡ some (1, false)
unfolding put fresh find bisect sort_key read_key load
find_seven = refl

find_nine : find two 9 ≡ some (1, true)
unfolding put fresh find bisect sort_key read_key load
find_nine = refl

put-Changes_example : Changes 8 0 two (put 8 two 1 7 70) 7 (some 70)
put-Changes_example =
    put-Changes 8 0 two 7 1 two-IsValid two-IsSorted (omega arith)
      (unfold put in unfold fresh in (omega arith, refl)) 70
      (unfold put in unfold fresh in omega arith) (omega arith) find_seven

delete-Changes_example : Changes 8 0 two (delete two 1) 9 none
delete-Changes_example =
    delete-Changes 8 0 two 9 1 two-IsValid two-IsSorted (omega arith)
      (unfold put in unfold fresh in (omega arith, refl)) find_nine

update-Changes_example : Changes 8 0 two (update 8 two 1 91) 9 (some 91)
update-Changes_example =
    update-Changes 8 0 two 9 1 two-IsValid two-IsSorted (omega arith)
      (unfold put in unfold fresh in (omega arith, refl)) 91 (omega arith) find_nine
