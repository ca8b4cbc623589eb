-- ===== src/LearnIndex.antt =====
-- `Learn_Index` of src/learn_index.h and src/learn_index.cc, which ComboTree puts over the B level. The
-- model that it is trained with, `LI::LearnIndex` of another project, is the parameter `search`: for a key
-- the bounds `lo` and `hi` and the position `pos` that it predicts.
pub mod Get
use combotree_new.Prelude.{
  ℕ, ◌+◌, ◌-◌, ◌%◌, ◌^◌, Bool, true, false, Option, none, some, ◌>>=◌, ltb, leb, if◌then◌else◌,
}
use combotree_new.Status.{Status}
use combotree_new.Blevel.{Blevel, find_brange, get_physical}
use combotree_new.Blevel
use combotree_new.Blevel.Search.{put_near_pos, get_near_pos}

pub record SearchRange : Type 0 where
  pub lo : ℕ
  pub hi : ℕ
  pub pos : ℕ

pub record LearnIndex : Type 0 where
  pub min_key : ℕ
  pub max_key : ℕ
  pub nr_blevel_entry : ℕ

-- `BLevel::EntryKey`, by a logical index.
unfoldable pub entry_key : Blevel → ℕ → Option ℕ
unfolding find_brange get_physical
entry_key b logical_idx = do
  range ← find_brange b logical_idx
  some (b.entries (get_physical (b.ranges range) logical_idx)).entry_key

-- The constructor, before the training. The first entry, of key 0, does not count.
unfoldable pub new_index : Blevel → Option LearnIndex
unfolding entry_key
new_index b = do
  let nr = (b.nr_entries + (2 ^ 64 - 1)) % 2 ^ 64
  low ← entry_key b 1
  high ← entry_key b nr
  some (record { min_key = low; max_key = high; nr_blevel_entry = nr })

module _ (search : ℕ → SearchRange) where
  unfoldable pub get_blevel_range : LearnIndex → ℕ → ℕ × ℕ
  get_blevel_range ix key =
      if ltb key ix.min_key
      then (0, 0)
      else if leb ix.max_key key
      then (ix.nr_blevel_entry, ix.nr_blevel_entry)
      else ((search key).lo, (search key).hi)

  unfoldable pub near_pos : LearnIndex → ℕ → ℕ
  near_pos ix key =
      if ltb key ix.min_key
      then 0
      else if leb ix.max_key key
      then ix.nr_blevel_entry
      else (search key).pos

  unfoldable pub put : ℕ → LearnIndex → Blevel → ℕ → ℕ → Option (Blevel × Status)
  unfolding near_pos put_near_pos
  put fuel ix b key value = put_near_pos fuel b key value (near_pos ix key)

  unfoldable pub update : ℕ → LearnIndex → Blevel → ℕ → ℕ → Option (Blevel × Bool)
  unfolding get_blevel_range Blevel.update
  update fuel ix b key value =
      let (begin, end) = get_blevel_range ix key in Blevel.update fuel b key value begin end

  unfoldable pub get : ℕ → LearnIndex → Blevel → ℕ → Option (Option ℕ)
  unfolding near_pos get_near_pos
  get fuel ix b key = get_near_pos fuel b key (near_pos ix key)

  unfoldable pub delete : ℕ → LearnIndex → Blevel → ℕ → Option (Blevel × Option ℕ × Bool)
  unfolding get_blevel_range Blevel.delete
  delete fuel ix b key =
      let (begin, end) = get_blevel_range ix key in Blevel.delete fuel b key begin end
