-- ===== src/PmemKv.antt =====
-- `PmemKV` of src/pmemkv.h as it is built by default, over a std::map. The map is an association list
-- without repeated keys; its order of iteration shows nowhere, since `Scan` sorts. `write_valid` and
-- `read_valid` are static members, so one copy of them stands for the one store of a tree.
pub mod Map
pub mod Scan
pub mod Migration
use combotree_new.Prelude.{
  ℕ, suc, ◌+◌, ◌-◌, ◌^◌, ◌++◌, Bool, true, false, Option, none, some, List, [], ◌∷◌, ltb, leb, ◌==◌,
  ◌&&◌, ◌||◌, if◌then◌else◌, length, take,
}
use combotree_new.Status.{Status, ok, failed}

-- kv_data[key] = value
unfoldable pub upsert : ℕ → ℕ → List (ℕ × ℕ) → List (ℕ × ℕ)
upsert k x [] = (k, x) ∷ []
upsert k x ((j, y) ∷ rest) = if j == k then (k, x) ∷ rest else (j, y) ∷ upsert k x rest

-- kv_data.find(key)
unfoldable pub lookup : ℕ → List (ℕ × ℕ) → Option ℕ
lookup k [] = none
lookup k ((j, y) ∷ rest) = if j == k then some y else lookup k rest

-- kv_data.erase(key)
unfoldable pub erase : ℕ → List (ℕ × ℕ) → List (ℕ × ℕ)
erase k [] = []
erase k ((j, y) ∷ rest) = if j == k then rest else (j, y) ∷ erase k rest

pub record PmemKv : Type 0 where
  pub kv_data : List (ℕ × ℕ)
  pub write_ref : ℕ
  pub read_ref : ℕ
  pub write_valid : Bool
  pub read_valid : Bool

-- The first store of a process. The constructor leaves the two static flags as they are, which are
-- true at the start.
abbrev pub fresh : PmemKv
fresh = record { kv_data = []; write_ref = 0; read_ref = 0; write_valid = true; read_valid = true }

-- A call that is refused returns before `WriteUnRef_`.
unfoldable pub put : PmemKv → ℕ → ℕ → PmemKv × Status
unfolding upsert
put s k x =
    let entered = record s { write_ref = s.write_ref + 1 } in
    if s.write_valid
    then (record entered { kv_data = upsert k x s.kv_data; write_ref = entered.write_ref - 1 }, ok)
    else (entered, failed)

unfoldable pub update : PmemKv → ℕ → ℕ → PmemKv × Bool
unfolding upsert
update s k x =
    let entered = record s { write_ref = s.write_ref + 1 } in
    if s.write_valid
    then (
      record entered { kv_data = upsert k x s.kv_data; write_ref = entered.write_ref - 1 },
      true,
    )
    else (entered, false)

-- The variable `value` and the result of `Get`, by what the map holds.
unfoldable pub found : ℕ → Option ℕ → ℕ × Bool
found value none = (value, true)
found value (some y) = (y, true)

-- `value` is what the caller's variable held. The reference that is taken is given back.
unfoldable pub get : PmemKv → ℕ → ℕ → ℕ × Bool
unfolding lookup found
get s k value = found value (lookup k s.kv_data)

unfoldable pub delete : PmemKv → ℕ → PmemKv × Bool
unfolding erase
delete s k =
    let entered = record s { write_ref = s.write_ref + 1 } in
    if s.write_valid
    then (record entered { kv_data = erase k s.kv_data; write_ref = entered.write_ref - 1 }, true)
    else (entered, false)

-- std::sort on pairs, which compares the keys and then the values.
unfoldable pub pair_leb : ℕ × ℕ → ℕ × ℕ → Bool
pair_leb (j, y) (k, x) = ltb j k || (j == k) && leb y x

unfoldable pub insert_pair : ℕ × ℕ → List (ℕ × ℕ) → List (ℕ × ℕ)
unfolding pair_leb
insert_pair p [] = p ∷ []
insert_pair p (q ∷ qs) = if pair_leb p q then p ∷ q ∷ qs else q ∷ insert_pair p qs

unfoldable pub sort_pairs : List (ℕ × ℕ) → List (ℕ × ℕ)
unfolding insert_pair
sort_pairs [] = []
sort_pairs (p ∷ ps) = insert_pair p (sort_pairs ps)

-- `Scan` into a vector that holds `kv`; the size that it returns is that of the result.
unfoldable pub scan : PmemKv → ℕ → ℕ → ℕ → List (ℕ × ℕ) → List (ℕ × ℕ)
unfolding sort_pairs
scan s min_key max_key max_size kv = take max_size (sort_pairs (kv ++ s.kv_data))

-- `Size`; -1 on size_t, the largest number of it, where reading is off.
unfoldable pub size : PmemKv → PmemKv × ℕ
size s =
    if s.read_valid
    then (s, length s.kv_data)
    else (record s { read_ref = s.read_ref + 1 }, 2 ^ 64 - 1)

unfoldable pub no_write_ref : PmemKv → Bool
no_write_ref s = s.write_ref == 0

unfoldable pub no_read_ref : PmemKv → Bool
no_read_ref s = s.read_ref == 0

unfoldable pub set_write_valid : PmemKv → Bool → PmemKv
set_write_valid s b = record s { write_valid = b }

unfoldable pub set_read_valid : PmemKv → Bool → PmemKv
set_read_valid s b = record s { read_valid = b }
