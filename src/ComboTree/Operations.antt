-- ===== src/ComboTree/Operations.antt =====
-- The operations of src/combotree.cc: one pass of the loop of each, and the steps of the migration and
-- of the expansion. A pass takes the state that it loaded, so that it can act on a tree that has moved
-- on since.
use combotree_new.Prelude.{
  ℕ, zero, suc, ◌-◌, ◌*◌, ◌^◌, Bool, true, false, Option, none, some, [], leb, if◌then◌else◌,
}
use combotree_new.Status.{Status, ok, to_bool}
use combotree_new.PmemKv.{scan, set_read_valid}
use combotree_new.PmemKv
use combotree_new.ComboTree.{
  ComboTree, Levels, State, using_pmemkv, pmemkv_to_combo_tree, using_combo_tree, prepare_expanding,
  combo_tree_expanding, Pass, done, retry, crash, pmemkv_threshold, keys_per_entry, is_ok, is_full,
  begin_change, wait_pass, start_expander,
}

module _ {ℓ} {L : Type ℓ} (ops : Levels L) where
  -- `Size`, by the state as it is now.
  unfoldable pub tree_size : ComboTree L → Option (ComboTree L × ℕ)
  unfolding PmemKv.size
  tree_size c = elim c.status [
    | using_pmemkv ↦ elim c.pmemkv [
      | none ↦ none
      | some s ↦ let (s', n) = PmemKv.size s in some (record c { pmemkv = some s' }, n)
    ]
    | pmemkv_to_combo_tree ↦ elim c.pmemkv [
      | none ↦ none
      | some s ↦ let (s', n) = PmemKv.size s in some (record c { pmemkv = some s' }, n)
    ]
    | using_combo_tree ↦ elim c.levels [ none ↦ none | some l ↦ some (c, ops.size l) ]
    | prepare_expanding ↦ elim c.levels [ none ↦ none | some l ↦ some (c, ops.size l) ]
    | combo_tree_expanding ↦ elim c.levels [ none ↦ none | some l ↦ some (c, ops.size l) ]
  ]

  -- The test after the write to the store, which starts the migration.
  unfoldable pub after_pmemkv : ComboTree L → Status → Pass L Status
  unfolding tree_size begin_change
  after_pmemkv c ret = elim (tree_size c) [
    | none ↦ crash
    | some (c', n) ↦ done (if leb pmemkv_threshold n then begin_change c' else c') ret
  ]

  -- `Put` and `Update` share what they do in USING_PMEMKV.
  unfoldable pub put_in_pmemkv : ComboTree L → ℕ → ℕ → Pass L Status
  unfolding PmemKv.put after_pmemkv
  put_in_pmemkv c key value = elim c.pmemkv [
    | none ↦ crash
    | some s ↦
        let (s', ret) = PmemKv.put s key value in after_pmemkv (record c { pmemkv = some s' }) ret
  ]

  -- What `Put` does with the index's status in USING_COMBO_TREE.
  unfoldable pub after_put : ComboTree L → L → Status → Pass L Status
  unfolding is_full start_expander tree_size
  after_put c l ret = if is_full ret then retry (start_expander c) else elim (tree_size c) [
    | none ↦ crash
    | some (c', n) ↦
        done (if leb (keys_per_entry * ops.entries l) n then start_expander c' else c') ok
  ]

  -- A write during the expansion goes to the new level where the key has been moved already.
  unfoldable pub put_expanding : L → ℕ → ℕ → L × Status
  put_expanding l key value = elim (ops.is_key_expanded l key) [
    | some (range, end) ↦ ops.put_range l key value range end
    | none ↦ ops.put l key value
  ]

  unfoldable pub update_expanding : L → ℕ → ℕ → L × Bool
  update_expanding l key value = elim (ops.is_key_expanded l key) [
    | some (range, end) ↦ ops.update_range l key value range end
    | none ↦ ops.update l key value
  ]

  unfoldable pub put_pass : State → ComboTree L → ℕ → ℕ → Pass L Status
  unfolding put_in_pmemkv after_put wait_pass put_expanding is_ok
  put_pass using_pmemkv c key value = put_in_pmemkv c key value
  put_pass pmemkv_to_combo_tree c key value = retry c
  put_pass using_combo_tree c key value = elim c.levels [
    | none ↦ crash
    | some l ↦
        let (l', ret) = ops.put l key value in after_put (record c { levels = some l' }) l' ret
  ]
  put_pass prepare_expanding c key value = retry (wait_pass c)
  put_pass combo_tree_expanding c key value =
      if c.need_sleep then retry (wait_pass c) else elim c.levels [
        | none ↦ crash
        | some l ↦
            let (l', ret) = put_expanding l key value in
            let c' = record c { levels = some l' } in if is_ok ret then done c' ret else retry c'
      ]

  -- The status of the store's `Put` becomes a bool.
  unfoldable pub as_bool : Pass L Status → Pass L Bool
  unfolding to_bool
  as_bool (done c ret) = done c (to_bool ret)
  as_bool (retry c) = retry c
  as_bool crash = crash

  unfoldable pub update_pass : State → ComboTree L → ℕ → ℕ → Pass L Bool
  unfolding put_in_pmemkv wait_pass update_expanding as_bool
  update_pass using_pmemkv c key value = as_bool (put_in_pmemkv c key value)
  update_pass pmemkv_to_combo_tree c key value = retry c
  update_pass using_combo_tree c key value = elim c.levels [
    | none ↦ crash
    | some l ↦
        let (l', ret) = ops.update l key value in
        let c' = record c { levels = some l' } in if ret then done c' ret else retry c'
  ]
  update_pass prepare_expanding c key value = retry (wait_pass c)
  update_pass combo_tree_expanding c key value =
      if c.need_sleep then retry (wait_pass c) else elim c.levels [
        | none ↦ crash
        | some l ↦
            let (l', ret) = update_expanding l key value in
            let c' = record c { levels = some l' } in if ret then done c' ret else retry c'
      ]

  -- `value` is what the caller's variable held; the result is the variable and the returned bool.
  unfoldable pub get_pass : State → ComboTree L → ℕ → ℕ → Pass L (ℕ × Bool)
  unfolding PmemKv.get
  get_pass using_pmemkv c key value = elim c.pmemkv [
    | none ↦ crash
    | some s ↦ done c (PmemKv.get s key value)
  ]
  get_pass pmemkv_to_combo_tree c key value = elim c.pmemkv [
    | none ↦ crash
    | some s ↦ done c (PmemKv.get s key value)
  ]
  get_pass using_combo_tree c key value = elim c.levels [
    | none ↦ crash
    | some l ↦ done c (elim (ops.get l key) [ none ↦ (value, false) | some x ↦ (x, true) ])
  ]
  get_pass prepare_expanding c key value = retry c
  get_pass combo_tree_expanding c key value = retry c

  unfoldable pub delete_pass : State → ComboTree L → ℕ → Pass L Bool
  unfolding PmemKv.delete
  delete_pass using_pmemkv c key = elim c.pmemkv [
    | none ↦ crash
    | some s ↦ let (s', ret) = PmemKv.delete s key in done (record c { pmemkv = some s' }) ret
  ]
  delete_pass pmemkv_to_combo_tree c key = retry c
  delete_pass using_combo_tree c key = elim c.levels [
    | none ↦ crash
    | some l ↦ let (l', ret) = ops.delete l key in done (record c { levels = some l' }) ret
  ]
  delete_pass prepare_expanding c key = retry c
  delete_pass combo_tree_expanding c key = retry c

  -- `ChangeToComboTree_` between its two waits, where no writer holds a reference.
  unfoldable pub migrate : ComboTree L → Option (ComboTree L)
  unfolding scan set_read_valid
  migrate c = elim c.pmemkv [
    | none ↦ none
    | some s ↦ some (record c {
      levels = some (ops.build (scan s 0 (2 ^ 64 - 1) (2 ^ 64 - 1) []));
      is_combo_tree = true;
      status = using_combo_tree;
      pmemkv = some (set_read_valid s false);
    })
  ]

  -- `ExpandComboTree_` with `PrepareExpansion`, which ends in COMBO_TREE_EXPANDING.
  unfoldable pub prepare_expansion : ComboTree L → Option (ComboTree L)
  prepare_expansion c = elim c.levels [
    | none ↦ none
    | some l ↦ some (record c {
      levels = some (ops.prepare l);
      status = combo_tree_expanding;
      need_sleep = false;
    })
  ]

  unfoldable pub advance_expansion : ComboTree L → Option (ComboTree L)
  advance_expansion c = elim c.levels [
    | none ↦ none
    | some l ↦ some (record c { levels = some (ops.advance l) })
  ]

  -- `ExpandComboTree_` after the new level's `Expansion`.
  unfoldable pub finish_expansion : ComboTree L → Option (ComboTree L)
  finish_expansion c = elim c.levels [
    | none ↦ none
    | some l ↦ some (record c {
      levels = some (ops.finish l);
      status = using_combo_tree;
      need_sleep = false;
      permit_delete = true;
    })
  ]

  -- The loop of `Update` in a single thread, on fuel for its passes.
  unfoldable pub update_loop : ℕ → ComboTree L → ℕ → ℕ → Option (ComboTree L × Bool)
  unfolding update_pass
  update_loop zero c key value = none
  update_loop (suc fuel) c key value = elim (update_pass c.status c key value) [
    | done c' ret ↦ some (c', ret)
    | retry c' ↦ update_loop fuel c' key value
    | crash ↦ none
  ]
