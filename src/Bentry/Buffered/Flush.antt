-- ===== src/Bentry/Buffered/Flush.antt =====
-- `FlushToCLevel` of src/bentry.cc on an entry whose tree is set up.
use combotree_new.Prelude.{
  ℕ, zero, suc, ◌+◌, ◌*◌, ◌%◌, ◌^◌, ◌≤◌, ◌<◌, ◌≡◌, ◌⊎◌, refl, arith, ap, ◌∙◌, sym, inl, inr, true,
  false, Bool, Option, some, Bool-cases, ◌==◌, ==→eq, ==→ne, ne→==, ==-refl, ◌>>=◌, if◌then◌else◌,
}
use combotree_new.Word.{word_mod}
use combotree_new.Slots.Writes.{suffix}
use combotree_new.KvBuffer.{KvBuffer, key, value, same_suffix, find_below}
use combotree_new.KvBuffer.Laws.{IsValid, pair_at, pair_at-eq}
use combotree_new.KvBuffer.Find.{same_suffix-key}
use combotree_new.SortBuffer.AsMap.{HasPrefix}
use combotree_new.Clevel.{MemControl}
use combotree_new.Clevel.Delete.{changed}
use combotree_new.Clevel.Shape.{IsRange, IsRange-HasPrefix, IsTree, Home}
use combotree_new.Clevel.Shape.Frame.{IsTree-ext}
use combotree_new.Clevel.Insert.{put_root-IsTree}
use combotree_new.Bentry.Map.{bytes_for, bytes_for_mono}
use combotree_new.Bentry.Buffered.{flush_from}

-- The map `m` under the first `n` pairs of the buffer, of which the last with a key counts.
abbrev pub choose : KvBuffer → (ℕ → Option ℕ) → ℕ → ℕ × Bool → Option ℕ
choose b m k r = if r.1 then some (value 8 b r.0) else m k

abbrev pub under : KvBuffer → (ℕ → Option ℕ) → ℕ → ℕ → Option ℕ
under b m n k = choose b m k (find_below b k n)

-- The whole key at a place is the same for all keys of the owner's prefix.
pub key-same :
    (b : KvBuffer) (i k p : ℕ)
    → IsValid 8 b
    → p < word_mod
    → HasPrefix b.suffix_bytes p k
    → key b i k ≡ key b i p
unfolding pair_at
key-same b i k p valid hp (small, same) =
    ap (λ q. q.0) (pair_at-eq 8 b k i valid small)
    ∙ ap (λ (q : ℕ). q * 256 ^ b.suffix_bytes + suffix b.buf b.suffix_bytes i) same
    ∙ sym (ap (λ q. q.0) (pair_at-eq 8 b p i valid hp))

module _ (p lo hi : ℕ) (b : KvBuffer) (valid : IsValid 8 b) (range : IsRange b.suffix_bytes p lo hi)
    (m : ℕ → Option ℕ) where
  -- One pair more.
  pub under-suc :
      (n k : ℕ)
      → lo ≤ k
      → k < hi
      → changed (under b m n) (key b n p) (some (value 8 b n)) k ≡ under b m (suc n) k
  unfolding find_below
  under-suc n k low high =
      let pre = IsRange-HasPrefix b.suffix_bytes p lo hi k range low high in
      let hit : same_suffix b n k ≡ (key b n p == k) =
        same_suffix-key 8 b n k valid pre.0
        ∙ ap (λ (q : ℕ). q == k) (key-same b n k p valid range.owner pre) in
      elim (Bool-cases (key b n p == k)) [
        | inl same ↦
            let e = ==→eq (key b n p) k same in
            let found : same_suffix b n k ≡ true = hit ∙ same in
            let back : (k == key b n p) ≡ true = ap (λ (q : ℕ). k == q) e ∙ ==-refl k in
            ap (λ t. if t then some (value 8 b n) else under b m n k) back
            ∙ sym (ap (λ t. choose b m k (if t then (n, true) else find_below b k n)) found)
        | inr other ↦
            let d = ==→ne (key b n p) k other in
            let missed : same_suffix b n k ≡ false = hit ∙ other in
            let back : (k == key b n p) ≡ false = ne→== k (key b n p) (λ e. d (sym e)) in
            ap (λ t. if t then some (value 8 b n) else under b m n k) back
            ∙ sym (ap (λ t. choose b m k (if t then (n, true) else find_below b k n)) missed)
      ]

  under-next :
      (n k : ℕ)
      → lo ≤ k
      → k < hi
      → changed (under b m n) (key b n p) (some (value 8 b n)) k ≡ under b m (n + 1) k
  under-next n k low high =
      under-suc n k low high ∙ ap (λ (q : ℕ). under b m q k) {x = suc n} {y = n + 1} (omega arith)

  module _ (inside : (i : ℕ) → i < b.entries → (lo ≤ key b i p) × (key b i p < hi))
      (small : (i : ℕ) → value 8 b i < 256 ^ 8) where
    -- The loop puts the pairs from `i` on over a tree that has those before.
    pub flush_from-IsTree :
        (left i fuel : ℕ) (mem : MemControl) (home : Home) (root height : ℕ)
        → i + left ≡ b.entries
        → IsTree b.suffix_bytes p mem home height root lo hi (under b m i)
        → height + left < fuel
        → mem.cur_addr + bytes_for left height ≤ 2 ^ 48
        → mem.cur_addr % 128 ≡ 0
        → root % 2 ≡ 0
        → (after : MemControl) × (home' : Home) × (root' : ℕ) × (height' : ℕ) × (flush_from fuel mem
              root p b i left
            ≡ some (after, root'))
          × IsTree b.suffix_bytes p after home' height' root' lo hi (under b m b.entries)
          × (height' ≤ height + left)
          × (after.cur_addr ≤ mem.cur_addr + bytes_for left height)
          × (after.cur_addr % 128 ≡ 0)
          × (root' % 2 ≡ 0)
    unfolding flush_from
    flush_from-IsTree zero i fuel mem home root height all tree deep memory aligned even =
        let e : i ≡ b.entries = omega (arith, all) in
        (
          mem,
          home,
          root,
          height,
          refl,
          IsTree-ext b.suffix_bytes p mem home height root lo hi (under b m i) (under b m b.entries)
              range.owner range.some_key (λ k low high. ap (λ (n : ℕ). under b m n k) e) tree,
          omega arith,
          omega arith,
          aligned,
          even,
        )
    flush_from-IsTree (suc left) i fuel mem home root height all tree deep memory aligned even =
        let at = inside i (omega (arith, all)) in
        let (after, home', height', root', done, tree', higher, few, step, place) =
          put_root-IsTree b.suffix_bytes p mem home (under b m i) height fuel root lo hi range tree
            (omega arith) (key b i p) (value 8 b i) at.0 at.1 (small i) (omega (arith, memory)) in
        let more = bytes_for_mono left height' (height + 1) higher in
        let (last, home'', root'', height'', done', tree'', higher', few', aligned', even') =
          flush_from-IsTree left (i + 1) fuel after home' root' height' (omega (arith, all))
            (IsTree-ext b.suffix_bytes p after home' height' root' lo hi
              (changed (under b m i) (key b i p) (some (value 8 b i))) (under b m (i + 1))
              range.owner range.some_key (under-next i) tree')
            (omega (arith, higher)) (omega (arith, few, more, memory))
            (omega (arith, step, aligned)) (parity root' place aligned even) in
        (
          last,
          home'',
          root'',
          height'',
          ap (λ o. o >>= continue left i fuel) done ∙ done',
          tree'',
          omega (arith, higher, higher'),
          omega (arith, few, few', more),
          aligned',
          even',
        )
      where
        continue : ℕ → ℕ → ℕ → MemControl × ℕ → Option (MemControl × ℕ)
        continue left i fuel r = flush_from fuel r.0 r.1 p b (i + 1) left

        parity :
            (root' : ℕ)
            → ((root' ≡ root) ⊎ (root' % 128 ≡ mem.cur_addr % 128))
            → mem.cur_addr % 128 ≡ 0
            → root % 2 ≡ 0
            → root' % 2 ≡ 0
        parity root' (inl same) aligned even = omega (arith, same)
        parity root' (inr new) aligned even = omega (arith, new)
