-- ===== src/Examples/Bentries.antt =====
-- An entry of src/bentry.h made with the pair (500, 50), over untouched memory.
use combotree_new.Prelude.{ℕ, ◌+◌, ◌*◌, ◌≤◌, ◌<◌, List, [], ◌∷◌, ◌≡◌, arith, refl, some, none}
use combotree_new.SortBuffer.{fresh}
use combotree_new.Status.{ok}
use combotree_new.Clevel.{MemControl, invalid, setup, new_node, set_link, set_node}
use combotree_new.Clevel.Delete.{changed}
use combotree_new.Clevel.Shape.{IsRange, Home}
use combotree_new.Bentry.{NobufBentry, new_entry, new_pair, get, put}
use combotree_new.Bentry.Map.{
  IsEntry, new_entry-IsEntry, put-IsEntry, put_all, after_puts, put_all-get,
}
use combotree_new.Bentry.Fresh.{get-new_pair}

abbrev untouched : MemControl
untouched = record {
  nodes = λ a. record { type = invalid; link = 0; buf = fresh (λ i. 0) 1 };
  cur_addr = 128;
}

get-new_pair_example :
    (made : MemControl × NobufBentry) × (new_pair 1 untouched 500 50 6 0 ≡ some made)
    × (get 1 made.0 made.1 501 ≡ some none)
get-new_pair_example =
    get-new_pair 1 untouched 500 50 6 0 (omega arith) (omega arith) (omega arith) refl (omega arith)
      (omega arith) 501 (omega arith, refl)

-- The keys of the entry's prefix from its own key on.
range : IsRange 2 500 500 65536
range = record {
  stored = omega arith;
  long = omega arith;
  owner = omega arith;
  from_prefix = omega arith;
  to_prefix = omega arith;
  to_word = omega arith;
  some_key = omega arith;
}

abbrev ready : MemControl
ready = (new_entry untouched 500 6 0).0

abbrev entry : NobufBentry
entry = (new_entry untouched 500 6 0).1

entry-IsEntry : IsEntry ready (λ x. (0, 500)) entry 0 500 65536 (λ key. none)
entry-IsEntry = new_entry-IsEntry untouched 500 6 0 500 65536 range (omega arith) refl

put-IsEntry_example :
    (after : MemControl) × (e' : NobufBentry) × (home' : Home) × (height' : ℕ) × (put 1 ready entry
        600 60
      ≡ some (after, e', ok))
    × (e'.entry_key ≡ entry.entry_key)
    × IsEntry after home' e' height' 500 65536 (changed (λ key. none) 600 (some 60))
    × (height' ≤ 0 + 1)
    × (after.cur_addr ≤ ready.cur_addr + 128 * (0 + 2))
put-IsEntry_example =
    put-IsEntry 1 ready (λ x. (0, 500)) entry 0 500 65536 (λ key. none) entry-IsEntry (omega arith)
      600 (omega arith) (omega arith) 60 (omega arith)
      (unfold new_entry in
        unfold setup in unfold new_node in unfold set_link in unfold set_node in omega arith)

-- Twelve pairs, of which one key comes twice, fill a leaf of two-byte keys and split it.
abbrev kvs : List (ℕ × ℕ)
kvs =
    (501, 1)
    ∷ (502, 2)
    ∷ (503, 3)
    ∷ (504, 4)
    ∷ (505, 5)
    ∷ (506, 6)
    ∷ (507, 7)
    ∷ (508, 8)
    ∷ (509, 9)
    ∷ (510, 10)
    ∷ (511, 11)
    ∷ (503, 12)
    ∷ []

put_all-get_example :
    (after : MemControl) × (e : NobufBentry) × (put_all 13
        (new_entry untouched 500 6 0).0
        (new_entry untouched 500 6 0).1
        kvs
      ≡ some (after, e))
    × ((other : ℕ)
        → 500 ≤ other
        → other < 65536
        → get 13 after e other ≡ some (after_puts (λ key. none) kvs other))
put_all-get_example =
    put_all-get untouched 500 6 0 500 65536 13 kvs range refl (omega arith) (omega arith)
      (omega arith)
