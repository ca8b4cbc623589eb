-- ===== src/Bentry/Buffered/Map.antt =====
-- `BEntry` of src/bentry.h, once its tree is set up, as a finite map of the keys of its range.
use combotree_new.Prelude.{
  ℕ, ◌+◌, ◌-◌, ◌%◌, ◌^◌, ◌≤◌, ◌<◌, ◌≡◌, refl, arith, ap, ◌∙◌, inl, inr, true, false, Bool, Option,
  some, none, Bool-cases, ◌==◌, ◌>>=◌, if◌then◌else◌, leb→lt, ◌&&◌, ◌||◌, not,
}
use combotree_new.Bytes.{load-lt}
use combotree_new.Status.{Status, ok}
use combotree_new.KvBuffer as Kv
use combotree_new.KvBuffer.{KvBuffer, key, value, same_suffix, find_below, is_full, clear}
use combotree_new.KvBuffer.Laws.{IsValid, pair_at, pair_at-eq}
use combotree_new.Clevel.{MemControl, has_setup, get_node}
use combotree_new.Clevel.Delete.{changed}
use combotree_new.Clevel.Tree.{get_node-Holds}
use combotree_new.Clevel.Shape.{IsRange, IsTree, Home}
use combotree_new.Clevel.Shape.Frame.{IsTree-Holds}
use combotree_new.Bentry.Map.{bytes_for}
use combotree_new.Bentry.Buffered.{Bentry, flush, flush_from, setup_from, put, get}
use combotree_new.Bentry.Buffered.Append.{longer-IsValid, under-put, inside-put}
use combotree_new.Bentry.Buffered.Flush.{under, flush_from-IsTree}

-- The buffer over the tree maps the keys from `lo` up to `hi` as `m` does; `below` is the tree's map.
pub record IsBuffered (mem : MemControl) (home : Home) (e : Bentry) (height lo hi : ℕ)
    (below m : ℕ → Option ℕ) : Type 0 where
  pub range : IsRange e.buf.suffix_bytes e.entry_key lo hi
  pub tree : IsTree e.buf.suffix_bytes e.entry_key mem home height e.root lo hi below
  pub valid : IsValid 8 e.buf
  pub some_room : 0 < e.buf.max_entries
  pub inside :
      (i : ℕ) → i < e.buf.entries → (lo ≤ key e.buf i e.entry_key) × (key e.buf i e.entry_key < hi)
  pub maps : (k : ℕ) → lo ≤ k → k < hi → under e.buf below e.buf.entries k ≡ m k
  pub even : e.root % 2 ≡ 0
  pub aligned : mem.cur_addr % 128 ≡ 0

pub ready : (root : ℕ) → root % 2 ≡ 0 → has_setup root ≡ true
unfolding has_setup
ready root e = ground (arith, e)

value-lt : (b : KvBuffer) (i : ℕ) → IsValid 8 b → value 8 b i < 256 ^ 8
unfolding pair_at
value-lt b i valid =
    let e : value 8 b i ≡ _ = ap (λ q. q.1) (pair_at-eq 8 b 0 i valid (omega arith)) in
    omega (arith, e, load-lt b.buf _ 8)

-- On a buffered entry whose tree is set up, for a key of its range, with fuel above the tree's
-- height: Get ends with what the entry maps the key to.
pub get-IsBuffered :
    (fuel : ℕ) (mem : MemControl) (home : Home) (e : Bentry) (height lo hi : ℕ)
    (below m : ℕ → Option ℕ)
    → IsBuffered mem home e height lo hi below m
    → (k : ℕ) → lo ≤ k
    → k < hi
    → height < fuel
    → get fuel mem e k ≡ some (m k)
unfolding get Kv.find
get-IsBuffered fuel mem home e height lo hi below m h k low high deep =
    ap
      (λ (t : Bool).
        if hit.1
        then some (some (value 8 e.buf hit.0))
        else if t
        then get_node fuel mem e.root k
        else some none)
      (ready e.root h.even)
    ∙ ap (λ q. if hit.1 then some (some (value 8 e.buf hit.0)) else q)
        (get_node-Holds height fuel mem e.entry_key e.root (λ j. (lo ≤ j) × (j < hi)) below k
          (IsTree-Holds e.buf.suffix_bytes e.entry_key mem home height e.root lo hi below h.range
            h.tree)
          h.range.owner (low, high) deep)
    ∙ inside hit.1
    ∙ ap some (h.maps k low high)
  where
    hit : ℕ × Bool
    hit = find_below e.buf k e.buf.entries

    inside :
        (t : Bool)
        → (if t then some (some (value 8 e.buf hit.0)) else some (below k))
          ≡ some (if t then some (value 8 e.buf hit.0) else below k)
    inside true = refl
    inside false = refl

module _ (fuel : ℕ) (mem : MemControl) (home : Home) (e : Bentry) (height lo hi : ℕ)
    (below m : ℕ → Option ℕ) (h : IsBuffered mem home e height lo hi below m)
    (deep : height + e.buf.entries < fuel)
    (memory : mem.cur_addr + bytes_for e.buf.entries height ≤ 2 ^ 48) where
  flushed : MemControl × ℕ → Option (MemControl × Bentry)
  flushed r = some (r.0, record e { root = r.1; buf = clear e.buf })

  -- On a buffered entry whose tree is set up, with fuel above the tree's height and the number of
  -- pairs in the buffer, and addresses of 48 bits for the nodes that their Puts may take:
  -- FlushToCLevel ends with the buffer empty, and the entry maps every key of its range as before.
  pub flush-IsBuffered :
      (after : MemControl) × (e' : Bentry) × (home' : Home) × (height' : ℕ) × (below' : ℕ
        → Option ℕ)
      × (flush fuel mem e ≡ some (after, e'))
      × IsBuffered after home' e' height' lo hi below' m
      × (e'.entry_key ≡ e.entry_key)
      × (e'.buf.entries ≡ 0)
      × (height' ≤ height + e.buf.entries)
      × (after.cur_addr ≤ mem.cur_addr + bytes_for e.buf.entries height)
  unfolding flush clear find_below flushed
  flush-IsBuffered =
      let (after, home', root', height', done, tree, higher, few, aligned, even) =
        flush_from-IsTree e.entry_key lo hi e.buf h.valid h.range below h.inside
          (λ i. value-lt e.buf i h.valid) e.buf.entries 0 fuel mem home e.root height (omega arith)
          h.tree deep memory h.aligned h.even in
      (
        after,
        record e { root = root'; buf = clear e.buf },
        home',
        height',
        under e.buf below e.buf.entries,
        ap
              (λ (t : Bool).
                (if t
                  then flush_from fuel mem e.root e.entry_key e.buf 0 e.buf.entries
                  else some (setup_from mem e.buf))
                >>= flushed)
              (ready e.root h.even)
            ∙ ap (λ o. o >>= flushed) done,
        record {
          range = h.range;
          tree = tree;
          valid = record {
            widths = h.valid.widths;
            capacity = h.valid.capacity;
            fits = h.valid.fits;
            value_fits = h.valid.value_fits;
            count = omega arith;
          };
          some_room = h.some_room;
          inside = λ i lt. absurd (omega arith);
          maps = h.maps;
          even = even;
          aligned = aligned;
        },
        refl,
        refl,
        higher,
        few,
      )

-- The buffer's own Put.
pub appended-IsBuffered :
    (mem : MemControl) (home : Home) (e : Bentry) (height lo hi : ℕ) (below m : ℕ → Option ℕ)
    → IsBuffered mem home e height lo hi below m
    → (new x : ℕ) → lo ≤ new
    → new < hi
    → x < 256 ^ 8
    → e.buf.entries < e.buf.max_entries
    → IsBuffered mem home
        (record e { buf = Kv.put 8 e.buf e.buf.entries new x })
        height
        lo
        hi
        below
        (changed m new (some x))
unfolding Kv.put
appended-IsBuffered mem home e height lo hi below m h new x low high small room = record {
  range = h.range;
  tree = h.tree;
  valid = longer-IsValid e.entry_key lo hi e.buf h.valid h.range below new x low high small room;
  some_room = h.some_room;
  inside =
      inside-put e.entry_key lo hi e.buf h.valid h.range below new x low high small room h.inside;
  maps = λ k from to.
      under-put e.entry_key lo hi e.buf h.valid h.range below new x low high small room k from to
      ∙ ap (λ q. if k == new then some x else q) (h.maps k from to);
  even = h.even;
  aligned = h.aligned;
}

module _ (fuel : ℕ) (mem : MemControl) (home : Home) (e : Bentry) (height lo hi : ℕ)
    (below m : ℕ → Option ℕ) (h : IsBuffered mem home e height lo hi below m)
    (deep : height + e.buf.entries < fuel)
    (memory : mem.cur_addr + bytes_for e.buf.entries height ≤ 2 ^ 48) (new x : ℕ) (low : lo ≤ new)
    (high : new < hi) (small : x < 256 ^ 8) where
  written : MemControl × Bentry → Option (MemControl × Bentry × Status)
  written r = some (r.0, record (r.1) { buf = Kv.put 8 (r.1).buf (r.1).buf.entries new x }, ok)

  put-written :
      (full : Bool)
      → is_full e.buf ≡ full
      → put fuel mem e new x ≡ ((if full then flush fuel mem e else some (mem, e)) >>= written)
  unfolding put written
  put-written full same =
      ap
        (λ (t : Bool).
          (if (not t && (e.buf.entries == (e.buf.max_entries - 1))) || is_full e.buf
            then flush fuel mem e
            else some (mem, e))
          >>= written)
        (ready e.root h.even)
      ∙ ap (λ (t : Bool). (if t then flush fuel mem e else some (mem, e)) >>= written) same

  -- On a buffered entry whose tree is set up, for a key of its range and a value of 64 bits, with
  -- fuel above the tree's height and the number of pairs in the buffer, and addresses of 48 bits
  -- for the nodes that their Puts may take: Put ends with OK, and the entry maps the key to the
  -- value and every other key of its range as before, whether the buffer was flushed or not.
  pub put-IsBuffered :
      (after : MemControl) × (e' : Bentry) × (home' : Home) × (height' : ℕ) × (below' : ℕ
        → Option ℕ)
      × (put fuel mem e new x ≡ some (after, e', ok))
      × IsBuffered after home' e' height' lo hi below' (changed m new (some x))
      × (height' ≤ height + e.buf.entries)
  unfolding written
  put-IsBuffered = elim (Bool-cases (is_full e.buf)) [
    | inl full ↦
        let (after, e', home', height', below', done, kept, same, none_left, higher, few) =
          flush-IsBuffered fuel mem home e height lo hi below m h deep memory in
        (
          after,
          record e' { buf = Kv.put 8 e'.buf e'.buf.entries new x },
          home',
          height',
          below',
          put-written true full ∙ ap (λ o. o >>= written) done,
          appended-IsBuffered after home' e' height' lo hi below' m kept new x low high small
              (omega (arith, none_left, kept.some_room)),
          higher,
        )
    | inr open_buf ↦ (
      mem,
      record e { buf = Kv.put 8 e.buf e.buf.entries new x },
      home,
      height,
      below,
      put-written false open_buf,
      appended-IsBuffered mem home e height lo hi below m h new x low high small
          (not_full e.buf open_buf),
      omega arith,
    )
  ]
    where
      not_full : (b : KvBuffer) → is_full b ≡ false → b.entries < b.max_entries
      not_full b e = leb→lt b.max_entries b.entries (unfold is_full in e)
