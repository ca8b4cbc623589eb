-- ===== src/Examples/ComboTrees.antt =====
-- A tree of src/combotree.cc whose store has one pair, over levels that hold nothing.
use combotree_new.Prelude.{ℕ, true, false, none, some, [], ◌∷◌}
use combotree_new.Status.{failed}
use combotree_new.PmemKv.{PmemKv}
use combotree_new.ComboTree.{ComboTree, Levels, using_pmemkv}

abbrev no_levels : Levels ℕ
no_levels = record {
  put = λ l k x. (l, failed);
  update = λ l k x. (l, false);
  get = λ l k. none;
  delete = λ l k. (l, false);
  size = λ l. 0;
  entries = λ l. 0;
  is_key_expanded = λ l k. none;
  put_range = λ l k x range end. (l, failed);
  update_range = λ l k x range end. (l, false);
  build = λ kvs. 0;
  prepare = λ l. l;
  advance = λ l. l;
  finish = λ l. l;
}

abbrev store : PmemKv
store = record {
  kv_data = (7, 70) ∷ [];
  write_ref = 0;
  read_ref = 0;
  write_valid = true;
  read_valid = true;
}

abbrev young : ComboTree ℕ
young = record {
  status = using_pmemkv;
  pmemkv = some store;
  levels = none;
  is_combo_tree = false;
  permit_delete = true;
  need_sleep = false;
  sleeped_threads = 0;
  expanders = 0;
}
