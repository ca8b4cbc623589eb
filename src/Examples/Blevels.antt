-- ===== src/Examples/Blevels.antt =====
-- Entries of src/blevel.cc with the keys 10, 20, 30, 40, ....
use combotree_new.Prelude.{ℕ, ◌+◌, ◌*◌, ◌≡◌, arith, some}
use combotree_new.Blevel.{find_between}
use combotree_new.Blevel.Search.{search_between, walk_near}
use combotree_new.Blevel.Search.Agree.{searches-agree}
use combotree_new.Blevel.Find.{IsLastLe, find_between-IsLastLe}

abbrev tens : ℕ → ℕ
tens i = i * 10 + 10

find_between-IsLastLe_example :
    (r : ℕ) × (find_between tens 34 0 5 ≡ some r) × IsLastLe tens 34 0 5 r
find_between-IsLastLe_example =
    find_between-IsLastLe tens 34 0 5 (λ i j p q r. omega arith) (omega arith) (omega arith)
      (omega arith)

searches-agree_example :
    (r : ℕ) × (find_between tens 34 0 5 ≡ some r)
    × (search_between tens 34 0 5 ≡ some r)
    × (walk_near tens 34 0 5 4 + 1 ≡ r)
searches-agree_example =
    searches-agree tens 34 0 5 (λ i j p q r. omega arith) (omega arith) 4 (omega arith)
      (omega arith) (omega arith)
