-- ===== src/ComboTree/Errors.antt =====
-- What `Update` of src/combotree.cc returns while its pairs are in `PmemKV`.
use combotree_new.Prelude.{ℕ, ◌≡◌, some, List}
use combotree_new.PmemKv.{PmemKv}
use combotree_new.PmemKv
use combotree_new.Status.{Status}
use combotree_new.ComboTree.{ComboTree}

-- The tree has a store, in which the pairs are.
abbrev pub Stores {ℓ} : {L : Type ℓ} → ComboTree L → List (ℕ × ℕ) → Type 0
Stores c kvs = (s : PmemKv) × (c.pmemkv ≡ some s) × (s.kv_data ≡ kvs)
