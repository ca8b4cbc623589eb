-- ===== src/Status.antt =====
-- The enum `status` of include/combotree/combotree.h.
use combotree_new.Prelude.{Bool, true, false}

pub data Status : Type 0 where
  failed : Status
  ok : Status
  full : Status
  exist : Status
  no_exist : Status

-- The conversion of the enum to bool: OK is 0, every other value is not.
unfoldable pub to_bool : Status → Bool
to_bool ok = false
to_bool failed = true
to_bool full = true
to_bool exist = true
to_bool no_exist = true
