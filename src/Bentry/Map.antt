-- ===== src/Bentry/Map.antt =====
-- `NobufBEntry` of src/bentry.h as a finite map of the keys of its range.
use combotree_new.Prelude.{
  ℕ, zero, suc, ◌+◌, ◌-◌, ◌*◌, ◌%◌, ◌^◌, ◌≤◌, ◌<◌, ◌≡◌, ◌⊎◌, refl, arith, ap, ◌∙◌, inl, inr, true,
  Option, none, some, List, [], ◌∷◌, ◌>>=◌,
}
use combotree_new.Status.{Status, ok}
use combotree_new.Clevel.{MemControl, has_setup, setup, new_node, set_link, set_node}
use combotree_new.Clevel.Delete.{changed}
use combotree_new.Clevel.Tree.{get_node-Holds}
use combotree_new.Clevel.Shape.{IsRange, IsTree, Home}
use combotree_new.Clevel.Shape.Frame.{IsTree-Holds}
use combotree_new.Clevel.Setup.{setup-IsTree}
use combotree_new.Clevel.Insert.{put_root-IsTree}
use combotree_new.Clevel.Write.{delete_node-IsTree}
use combotree_new.Bentry.{NobufBentry, new_entry, put, get, delete}

-- The entry's tree is set up and maps the keys from `lo` up to `hi` as `m` does. Nodes are taken at
-- multiples of their size, so that the address of a root is even.
pub record IsEntry (mem : MemControl) (home : Home) (e : NobufBentry) (height lo hi : ℕ)
    (m : ℕ → Option ℕ) : Type 0 where
  pub range : IsRange e.suffix_bytes e.entry_key lo hi
  pub tree : IsTree e.suffix_bytes e.entry_key mem home height e.root lo hi m
  pub even : e.root % 2 ≡ 0
  pub aligned : mem.cur_addr % 128 ≡ 0

ready : (root : ℕ) → root % 2 ≡ 0 → has_setup root ≡ true
unfolding has_setup
ready root e = ground (arith, e)

-- A new entry is empty.
pub new_entry-IsEntry :
    (mem : MemControl) (key prefix_len rest lo hi : ℕ)
    → IsRange (8 - prefix_len) key lo hi
    → mem.cur_addr < 2 ^ 48
    → mem.cur_addr % 128 ≡ 0
    → IsEntry
        (new_entry mem key prefix_len rest).0
        (λ x. (0, lo))
        (new_entry mem key prefix_len rest).1
        0
        lo
        hi
        (λ k. none)
unfolding new_entry
new_entry-IsEntry mem key prefix_len rest lo hi range room aligned = record {
  range = range;
  tree = setup-IsTree mem (8 - prefix_len) key range.stored range.long room lo hi range;
  even = unfold setup in unfold new_node in omega (arith, room, aligned);
  aligned = unfold setup in unfold new_node in omega (arith, aligned);
}

new_entry-cur :
    (mem : MemControl) (key prefix_len rest : ℕ)
    → (new_entry mem key prefix_len rest).0.cur_addr ≡ mem.cur_addr + 128
unfolding new_entry setup new_node set_link set_node
new_entry-cur mem key prefix_len rest = refl

module _ (fuel : ℕ) (mem : MemControl) (home : Home) (e : NobufBentry) (height lo hi : ℕ)
    (m : ℕ → Option ℕ) (h : IsEntry mem home e height lo hi m) (deep : height < fuel) (key : ℕ)
    (low : lo ≤ key) (high : key < hi) where
  -- On a set-up entry whose tree maps the keys of its range, for a key of the range, with fuel above
  -- the tree's height: Get ends with what the tree maps the key to.
  pub get-IsEntry : get fuel mem e key ≡ some (m key)
  unfolding get
  get-IsEntry = rw (ready e.root h.even) (
      get_node-Holds height fuel mem e.entry_key e.root (λ k. (lo ≤ k) × (k < hi)) m key
        (IsTree-Holds e.suffix_bytes e.entry_key mem home height e.root lo hi m h.range h.tree)
        h.range.owner (low, high) deep)

  -- On a set-up entry whose tree maps the keys of its range, for a key of the range and a value of
  -- 64 bits, with fuel above the tree's height and addresses of 48 bits for one node more for each
  -- level: Put ends with OK. The entry keeps its key and is set up, its tree maps the key to the
  -- value and every other key as before, is at most one higher, and took at most one node for each
  -- level and one for a new root.
  pub put-IsEntry :
      (x : ℕ)
      → x < 256 ^ 8
      → mem.cur_addr + 128 * (height + 2) ≤ 2 ^ 48
      → (after : MemControl) × (e' : NobufBentry) × (home' : Home) × (height' : ℕ) × (put fuel mem e
            key x
          ≡ some (after, e', ok))
        × (e'.entry_key ≡ e.entry_key)
        × IsEntry after home' e' height' lo hi (changed m key (some x))
        × (height' ≤ height + 1)
        × (after.cur_addr ≤ mem.cur_addr + 128 * (height + 2))
  unfolding put
  put-IsEntry x small memory =
      let (after, home', height', root, done, tree, higher, few, aligned, place) =
        put_root-IsTree e.suffix_bytes e.entry_key mem home m height fuel e.root lo hi h.range
          h.tree deep key x low high small memory in
      (
        after,
        record e { root = root },
        home',
        height',
        rw (ready e.root h.even, done) refl,
        refl,
        record {
          range = h.range;
          tree = tree;
          even = even root place;
          aligned = omega (arith, aligned, h.aligned);
        },
        higher,
        few,
      )
    where
      even : (root : ℕ) → ((root ≡ e.root) ⊎ (root % 128 ≡ mem.cur_addr % 128)) → root % 2 ≡ 0
      even root (inl same) = omega (arith, same, h.even)
      even root (inr new) = omega (arith, new, h.aligned)

  -- On a set-up entry whose tree maps the keys of its range, for a key of the range, with fuel above
  -- the tree's height: Delete ends with true and the value that the tree mapped the key to, if any;
  -- the tree maps every other key as before and the key to nothing.
  pub delete-IsEntry :
      (after : MemControl) × (delete fuel mem e key ≡ some (after, m key, true))
      × IsTree e.suffix_bytes e.entry_key after home height e.root lo hi (changed m key none)
  unfolding delete
  delete-IsEntry =
      let (after, done, tree) =
        delete_node-IsTree e.suffix_bytes e.entry_key mem home m height fuel e.root lo hi h.range
          h.tree deep key low high in
      (after, rw (ready e.root h.even) done, tree)

-- Put of each pair in turn.
abbrev pub put_all : ℕ → MemControl → NobufBentry → List (ℕ × ℕ) → Option (MemControl × NobufBentry)
put_all fuel mem e [] = some (mem, e)
put_all fuel mem e ((key, x) ∷ rest) = put fuel mem e key x >>= (λ r. put_all fuel r.0 r.1 rest)

-- The map after the pairs, the last one of a key winning.
abbrev pub after_puts : (ℕ → Option ℕ) → List (ℕ × ℕ) → ℕ → Option ℕ
after_puts m [] = m
after_puts m ((key, x) ∷ rest) = after_puts (changed m key (some x)) rest

abbrev pub count : List (ℕ × ℕ) → ℕ
count [] = 0
count (kv ∷ rest) = suc (count rest)

-- Keys of the range and values of 64 bits.
abbrev pub Fit : ℕ → ℕ → List (ℕ × ℕ) → Type 0
Fit lo hi [] = Unit
Fit lo hi ((key, x) ∷ rest) = (lo ≤ key) × (key < hi) × (x < 256 ^ 8) × Fit lo hi rest

-- The most that a number of calls of Put take, the first on a tree of the given height.
abbrev pub bytes_for : ℕ → ℕ → ℕ
bytes_for zero height = 0
bytes_for (suc n) height = 128 * (height + 2) + bytes_for n (height + 1)

pub bytes_for_mono : (n low high : ℕ) → low ≤ high → bytes_for n low ≤ bytes_for n high
bytes_for_mono zero low high le = omega arith
bytes_for_mono (suc n) low high le =
    omega (arith, bytes_for_mono n (low + 1) (high + 1) (omega arith))

put_all-IsEntry :
    (kvs : List (ℕ × ℕ)) (fuel : ℕ) (mem : MemControl) (home : Home) (e : NobufBentry)
    (height lo hi : ℕ) (m : ℕ → Option ℕ)
    → IsEntry mem home e height lo hi m
    → Fit lo hi kvs
    → height + count kvs < fuel
    → mem.cur_addr + bytes_for (count kvs) height ≤ 2 ^ 48
    → (after : MemControl) × (e' : NobufBentry) × (home' : Home) × (height' : ℕ) × (put_all fuel mem
          e kvs
        ≡ some (after, e'))
      × IsEntry after home' e' height' lo hi (after_puts m kvs)
      × (height' < fuel)
put_all-IsEntry [] fuel mem home e height lo hi m h fit deep memory =
    (mem, e, home, height, refl, h, omega arith)
put_all-IsEntry ((key, x) ∷ rest) fuel mem home e height lo hi m h (low, high, small, fit) deep
      memory =
    let (after, e', home', height', done, kept, h', higher, few) =
      put-IsEntry fuel mem home e height lo hi m h (omega arith) key low high x small
        (omega arith) in
    let (last, e'', home'', height'', done', h'', deep') =
      put_all-IsEntry rest fuel after home' e' height' lo hi (changed m key (some x)) h' fit
        (omega arith)
        (omega (arith, few, bytes_for_mono (count rest) height' (height + 1) higher)) in
    (last, e'', home'', height'', ap (λ o. o >>= continue rest) done ∙ done', h'', deep')
  where
    continue : List (ℕ × ℕ) → MemControl × NobufBentry × Status → Option (MemControl × NobufBentry)
    continue rest r = put_all fuel r.0 r.1 rest

-- For a new entry in memory from which nodes are taken at multiples of 128, and any pairs with keys
-- of its range and values of 64 bits, with fuel above the number of pairs, and addresses of 48 bits
-- for one node and those that each Put may take: Put of each pair in turn ends, and Get then ends,
-- for every key of the range, with the value of the last pair with that key, or without one where
-- there is none.
pub put_all-get :
    (mem : MemControl) (key prefix_len rest lo hi fuel : ℕ) (kvs : List (ℕ × ℕ))
    → IsRange (8 - prefix_len) key lo hi
    → mem.cur_addr % 128 ≡ 0
    → Fit lo hi kvs
    → count kvs < fuel
    → mem.cur_addr + 128 + bytes_for (count kvs) 0 ≤ 2 ^ 48
    → (after : MemControl) × (e : NobufBentry) × (put_all fuel
          (new_entry mem key prefix_len rest).0
          (new_entry mem key prefix_len rest).1
          kvs
        ≡ some (after, e))
      × ((other : ℕ)
          → lo ≤ other
          → other < hi
          → get fuel after e other ≡ some (after_puts (λ k. none) kvs other))
put_all-get mem key prefix_len rest lo hi fuel kvs range aligned fit deep memory =
    let start = new_entry-IsEntry mem key prefix_len rest lo hi range (omega arith) aligned in
    let (after, e, home, height, done, h, deep') =
      put_all-IsEntry kvs fuel (new_entry mem key prefix_len rest).0 (λ x. (0, lo))
        (new_entry mem key prefix_len rest).1 0 lo hi (λ k. none) start fit (omega arith)
        (omega (arith, new_entry-cur mem key prefix_len rest)) in
    (
      after,
      e,
      done,
      λ other low high.
          get-IsEntry fuel after home e height lo hi (after_puts (λ k. none) kvs) h deep' other low
            high,
    )
