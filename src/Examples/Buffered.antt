-- ===== src/Examples/Buffered.antt =====
-- A buffered entry of src/bentry.h over an empty tree, with the pair (600, 60) in its buffer, for keys
-- of two bytes from 500 on.
use combotree_new.Prelude.{ℕ, ◌+◌, ◌≤◌, ◌^◌, ◌≡◌, arith, refl, true, false, Option, some, none}
use combotree_new.Status.{ok}
use combotree_new.KvBuffer as Kv
use combotree_new.KvBuffer.Laws.{IsValid}
use combotree_new.Clevel.{MemControl, invalid, setup, new_node, set_link, set_node}
use combotree_new.SortBuffer.{fresh}
use combotree_new.Clevel.Delete.{changed}
use combotree_new.Clevel.Setup.{setup-IsTree}
use combotree_new.Clevel.Shape.{IsRange, Home}
use combotree_new.Bentry.Map.{bytes_for}
use combotree_new.Bentry.Buffered.{Bentry, put, update, get, flush}
use combotree_new.Bentry.Buffered.Update.{update-IsBuffered}
use combotree_new.Bentry.Buffered.Map.{
  IsBuffered, appended-IsBuffered, get-IsBuffered, flush-IsBuffered, put-IsBuffered,
}

abbrev untouched : MemControl
untouched = record {
  nodes = λ a. record { type = invalid; link = 0; buf = fresh (λ i. 0) 1 };
  cur_addr = 128;
}

abbrev mem : MemControl
mem = (setup untouched 2).0

abbrev empty : Bentry
empty = record { entry_key = 500; root = (setup untouched 2).1; buf = Kv.fresh (λ i. 0) 6 }

abbrev one : Bentry
one = record empty { buf = Kv.put 8 empty.buf empty.buf.entries 600 60 }

abbrev home : Home
home x = (0, 500)

range : IsRange 2 500 500 65536
range = record {
  stored = omega arith;
  long = omega arith;
  owner = omega arith;
  from_prefix = omega arith;
  to_prefix = omega arith;
  to_word = omega arith;
  some_key = omega arith;
}

fresh-IsValid : IsValid 8 empty.buf
unfolding Kv.fresh
fresh-IsValid = record {
  widths = omega arith;
  capacity = omega arith;
  fits = omega arith;
  value_fits = omega arith;
  count = omega arith;
}

empty-IsBuffered : IsBuffered mem home empty 0 500 65536 (λ k. none) (λ k. none)
unfolding Kv.fresh setup new_node set_link set_node Kv.find_below
empty-IsBuffered = record {
  range = range;
  tree = setup-IsTree untouched 2 500 (omega arith) (omega arith) (omega arith) 500 65536 range;
  valid = fresh-IsValid;
  some_room = omega arith;
  inside = λ i lt. absurd (omega arith);
  maps = λ k low high. refl;
  even = omega arith;
  aligned = omega arith;
}

one-IsBuffered : IsBuffered mem home one 0 500 65536 (λ k. none) (changed (λ k. none) 600 (some 60))
one-IsBuffered =
    appended-IsBuffered mem home empty 0 500 65536 (λ k. none) (λ k. none) empty-IsBuffered 600 60
      (omega arith) (omega arith) (omega arith) (unfold Kv.fresh in omega arith)

one_entry : one.buf.entries ≡ 1
unfolding Kv.put Kv.fresh
one_entry = refl

one_memory : mem.cur_addr + bytes_for one.buf.entries 0 ≤ 2 ^ 48
unfolding Kv.put Kv.fresh setup new_node set_link set_node
one_memory = omega arith

flush-IsBuffered_example :
    (after : MemControl) × (e' : Bentry) × (home' : Home) × (height' : ℕ) × (below' : ℕ → Option ℕ)
    × (flush 2 mem one ≡ some (after, e'))
    × IsBuffered after home' e' height' 500 65536 below' (changed (λ k. none) 600 (some 60))
    × (e'.entry_key ≡ one.entry_key)
    × (e'.buf.entries ≡ 0)
    × (height' ≤ 0 + one.buf.entries)
    × (after.cur_addr ≤ mem.cur_addr + bytes_for one.buf.entries 0)
flush-IsBuffered_example =
    flush-IsBuffered 2 mem home one 0 500 65536 (λ k. none) (changed (λ k. none) 600 (some 60))
      one-IsBuffered (omega (arith, one_entry)) one_memory

put-IsBuffered_example :
    (after : MemControl) × (e' : Bentry) × (home' : Home) × (height' : ℕ) × (below' : ℕ → Option ℕ)
    × (put 2 mem one 601 61 ≡ some (after, e', ok))
    × IsBuffered after home' e' height' 500 65536 below'
        (changed (changed (λ k. none) 600 (some 60)) 601 (some 61))
    × (height' ≤ 0 + one.buf.entries)
put-IsBuffered_example =
    put-IsBuffered 2 mem home one 0 500 65536 (λ k. none) (changed (λ k. none) 600 (some 60))
      one-IsBuffered (omega (arith, one_entry)) one_memory 601 61 (omega arith) (omega arith)
      (omega arith)

update-IsBuffered_example :
    ((old : ℕ)
      → changed (λ k. none) 600 (some 60) 600 ≡ some old
      → (after : MemControl) × (e' : Bentry) × (below' : ℕ → Option ℕ) × (update 1 mem one 600 61
          ≡ some (after, e', true))
        × IsBuffered after home e' 0 500 65536 below'
            (changed (changed (λ k. none) 600 (some 60)) 600 (some 61)))
    × (changed (λ k. none) 600 (some 60) 600 ≡ none
        → update 1 mem one 600 61 ≡ some (mem, one, false))
update-IsBuffered_example =
    update-IsBuffered 1 mem home one 0 500 65536 (λ k. none) (changed (λ k. none) 600 (some 60))
      one-IsBuffered 600 61 (omega arith) (omega arith) (omega arith) (omega arith)

get-IsBuffered_example : get 1 mem one 600 ≡ some (changed (λ k. none) 600 (some 60) 600)
get-IsBuffered_example =
    get-IsBuffered 1 mem home one 0 500 65536 (λ k. none) (changed (λ k. none) 600 (some 60))
      one-IsBuffered 600 (omega arith) (omega arith) (omega arith)
