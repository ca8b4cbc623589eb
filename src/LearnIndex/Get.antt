-- ===== src/LearnIndex/Get.antt =====
-- `Learn_Index::Get` of src/learn_index.h over a level that src/blevel.cc has filled, down to the trees of
-- the entries.
use combotree_new.Prelude.{ℕ, ◌+◌, ◌-◌, ◌≤◌, ◌≡◌, ◌^◌, Option, some}
use combotree_new.Blevel.{Blevel}
use combotree_new.Blevel.Find.{AscendsBetween, IsLastLe}
use combotree_new.Blevel.Search.Near.{EntryMaps, entry_keys}
use combotree_new.Blevel.Expansion.{set_ranges}
use combotree_new.Blevel.Expansion.Ranges.Near.{get_near_pos-anywhere}
use combotree_new.LearnIndex.{LearnIndex, SearchRange, near_pos, get}

-- Over a level with at least four entries, up to 2^30, their keys ascending, the first of them at
-- most the key, with the ranges that Expansion lays over the entries, where the tree of the key's
-- entry maps it as `m` does: Get through the index ends, with what `m` maps the key to, whatever
-- position the trained model predicts.
pub LearnIndex_get-maps :
    (search : ℕ → SearchRange) (ix : LearnIndex) (fuel : ℕ) (b : Blevel) (count key : ℕ)
    (m : ℕ → Option ℕ)
    → count ≤ 2 ^ 30
    → 4 ≤ count
    → AscendsBetween (entry_keys b) 0 (count - 1)
    → entry_keys b 0 ≤ key
    → ((i : ℕ)
        → IsLastLe (entry_keys b) key 0 (count - 1) (i + 1)
        → EntryMaps fuel (set_ranges b count) i key m)
    → get search fuel ix (set_ranges b count) key ≡ some (m key)
unfolding get
LearnIndex_get-maps search ix fuel b count key m small full up low maps =
    get_near_pos-anywhere b count small full up fuel key (near_pos search ix key) m low maps
