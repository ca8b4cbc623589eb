-- ===== src/Examples/PmemKvs.antt =====
-- A store of src/pmemkv.h with the pair (7, 70), and a run in which one writer is refused.
use combotree_new.Prelude.{◌+◌, ◌≡◌, if◌then◌else◌, arith, refl, true, false}
use combotree_new.PmemKv.{PmemKv, fresh, put, delete, get, set_write_valid}
use combotree_new.PmemKv.Map.{IsMap, get-put, get-delete}
use combotree_new.PmemKv.Migration.{
  World, start, Steps, waiting, enter, refuse, forbid, done, next, refused-stuck, put-Steps,
}

abbrev seven : PmemKv
seven = (put fresh 7 70).0

seven-IsMap : IsMap seven.kv_data
unfolding IsMap put
seven-IsMap = (refl, tt)

get-put_example : get (put seven 8 80).0 8 0 ≡ (80, true)
unfolding put
get-put_example = get-put seven 8 80 8 0 refl

get-delete_example : get (delete seven 7).0 7 0 ≡ (0, true)
unfolding put
get-delete_example = get-delete seven 7 7 0 refl seven-IsMap

-- A writer that enters too late.
abbrev late : World
late = record start {
  store = record fresh { write_ref = 1; write_valid = false };
  refused = 1;
  phase = waiting;
}

to_late : Steps start late
unfolding set_write_valid
to_late = next (next (next done (forbid refl)) enter) (refuse (omega arith) refl)

abbrev later : World
later = record late { store = record late.store { write_ref = 2 }; entered = 1 }

refused-stuck_example : later.phase ≡ waiting
refused-stuck_example = refused-stuck late later to_late refl (omega arith) (next done enter)

put-Steps_example :
    (u : World) × Steps late u
    × (u.store ≡ (put late.store 1 2).0)
    × (u.phase ≡ late.phase)
    × (u.entered ≡ late.entered)
    × (u.admitted ≡ late.admitted)
    × (u.written ≡ late.written)
    × (u.refused ≡ (if late.store.write_valid then late.refused else late.refused + 1))
put-Steps_example = put-Steps late 1 2
