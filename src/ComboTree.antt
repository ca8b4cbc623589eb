-- ===== src/ComboTree.antt =====
-- `ComboTree` of src/combotree.cc in the default build (BRANGE): the five states, the object, and the
-- steps that call nothing below. The two B levels and the learned index over them are behind the
-- interface `Levels`. Times that a thread sleeps are left out.
pub mod Operations
pub mod Errors
use combotree_new.Prelude.{
  ℕ, ◌+◌, ◌-◌, Bool, true, false, Option, none, some, List, ltb, ◌==◌, ◌&&◌, if◌then◌else◌,
}
use combotree_new.Status.{Status, ok, failed, full, exist, no_exist}
use combotree_new.PmemKv.{PmemKv, fresh, set_write_valid}
use combotree_new.Blevel.{expand_threads}

pub data State : Type 0 where
  using_pmemkv : State
  pmemkv_to_combo_tree : State
  using_combo_tree : State
  prepare_expanding : State
  combo_tree_expanding : State

-- What the tree calls of `learn_index_`, `blevel_` and `old_blevel_`. `build` is a new level with
-- `Expansion` of a vector, `prepare` a new one with `PrepareExpansion`, `advance` a part of the running
-- `Expansion`, and `finish` what follows it. `is_key_expanded` is the range and the end where it is true.
pub record Levels {ℓ} (L : Type ℓ) : Type ℓ where
  pub put : L → ℕ → ℕ → L × Status
  pub update : L → ℕ → ℕ → L × Bool
  pub get : L → ℕ → Option ℕ
  pub delete : L → ℕ → L × Bool
  pub size : L → ℕ
  pub entries : L → ℕ
  pub is_key_expanded : L → ℕ → Option (ℕ × ℕ)
  pub put_range : L → ℕ → ℕ → ℕ → ℕ → L × Status
  pub update_range : L → ℕ → ℕ → ℕ → ℕ → L × Bool
  pub build : List (ℕ × ℕ) → L
  pub prepare : L → L
  pub advance : L → L
  pub finish : L → L

-- `none` is a null pointer. `expanders` counts the threads that are started and have not run yet.
pub record ComboTree {ℓ} (L : Type ℓ) : Type ℓ where
  pub status : State
  pub pmemkv : Option PmemKv
  pub levels : Option L
  pub is_combo_tree : Bool  -- in the manifest
  pub permit_delete : Bool
  pub need_sleep : Bool
  pub sleeped_threads : ℕ
  pub expanders : ℕ

abbrev pub pmemkv_threshold : ℕ
pmemkv_threshold = 10000

-- EXPANSION_FACTOR * BLEVEL_EXPAND_BUF_KEY
abbrev pub keys_per_entry : ℕ
keys_per_entry = 8

-- What a pass of a loop does: it leaves the loop with a result, goes round again, or follows a null
-- pointer.
pub data Pass {ℓ} (L : Type ℓ) (A : Type 0) : Type ℓ where
  done : ComboTree L → A → Pass L A
  retry : ComboTree L → Pass L A
  crash : Pass L A

unfoldable pub is_ok : Status → Bool
is_ok ok = true
is_ok failed = false
is_ok full = false
is_ok exist = false
is_ok no_exist = false

unfoldable pub is_full : Status → Bool
is_full full = true
is_full ok = false
is_full failed = false
is_full exist = false
is_full no_exist = false

unfoldable pub is_using_pmemkv : State → Bool
is_using_pmemkv using_pmemkv = true
is_using_pmemkv pmemkv_to_combo_tree = false
is_using_pmemkv using_combo_tree = false
is_using_pmemkv prepare_expanding = false
is_using_pmemkv combo_tree_expanding = false

unfoldable pub is_using_combo_tree : State → Bool
is_using_combo_tree using_pmemkv = false
is_using_combo_tree pmemkv_to_combo_tree = false
is_using_combo_tree using_combo_tree = true
is_using_combo_tree prepare_expanding = false
is_using_combo_tree combo_tree_expanding = false

-- The constructor, for the first tree of a process; the members that it leaves unset are an argument.
unfoldable pub new_tree {ℓ} : {L : Type ℓ} → Bool → ℕ → ComboTree L
new_tree need_sleep sleeped = record {
  status = using_pmemkv;
  pmemkv = some fresh;
  levels = none;
  is_combo_tree = false;
  permit_delete = true;
  need_sleep = need_sleep;
  sleeped_threads = sleeped;
  expanders = 0;
}

module _ {ℓ} {L : Type ℓ} where
  -- `ChangeToComboTree_`: the compare and exchange, which fails in any other state.
  unfoldable pub change_status : ComboTree L → Option (ComboTree L)
  unfolding is_using_pmemkv
  change_status c =
      if is_using_pmemkv c.status then some (record c { status = pmemkv_to_combo_tree }) else none

  -- Then the destructor has to wait, and writing is forbidden. Until here writers are still admitted.
  unfoldable pub forbid_writes : ComboTree L → ComboTree L
  unfolding set_write_valid
  forbid_writes c = record c {
    permit_delete = false;
    pmemkv = elim c.pmemkv [ none ↦ none | some s ↦ some (set_write_valid s false) ];
  }

  -- `ChangeToComboTree_` up to its first wait, with no other thread in between.
  unfoldable pub begin_change : ComboTree L → ComboTree L
  unfolding change_status forbid_writes
  begin_change c = elim (change_status c) [ none ↦ c | some c' ↦ forbid_writes c' ]

  -- A writer in PREPARE_EXPANDING or COMBO_TREE_EXPANDING that may have to sleep.
  unfoldable pub wait_pass : ComboTree L → ComboTree L
  wait_pass c =
      if c.need_sleep && ltb c.sleeped_threads expand_threads
      then record c {
        sleeped_threads = c.sleeped_threads + 1;
        need_sleep = if (c.sleeped_threads + 1) == expand_threads then false else c.need_sleep;
      }
      else c

  -- `ChangeToComboTree_` after the last reader: the store is deleted.
  unfoldable pub finish_change : ComboTree L → ComboTree L
  finish_change c = record c { pmemkv = none; permit_delete = true }

  unfoldable pub start_expander : ComboTree L → ComboTree L
  start_expander c = record c { expanders = c.expanders + 1 }

  -- `ExpandComboTree_` up to `PrepareExpansion`, in a thread that was started.
  unfoldable pub begin_expansion : ComboTree L → ComboTree L
  unfolding is_using_combo_tree
  begin_expansion c =
      let taken = record c { expanders = c.expanders - 1 } in
      if is_using_combo_tree c.status
      then record taken {
        status = prepare_expanding;
        permit_delete = false;
        sleeped_threads = 1;
        need_sleep = true;
      }
      else taken
