-- ===== src/Bentry/Buffered/Update.antt =====
-- `Update` of src/bentry.cc on an entry whose tree is set up.
use combotree_new.Prelude.{
  ℕ, zero, suc, ◌%◌, ◌^◌, ◌≤◌, ◌<◌, ◌≡◌, ◌≢◌, refl, arith, ap, ◌∙◌, sym, subst, inl, inr, true,
  false, Bool, Option, some, none, Bool-cases, ◌==◌, ==→eq, ==→ne, ==-refl, ◌>>=◌, if◌then◌else◌,
}
use mathlib.Core.Path.{ap₂}
use combotree_new.Word.{word_mod}
use combotree_new.KvBuffer as Kv
use combotree_new.KvBuffer.{KvBuffer, key, value, same_suffix, find_below}
use combotree_new.KvBuffer.Laws.{IsValid, pair_at, update-IsValid, update-pair}
use combotree_new.KvBuffer.Find.{same_suffix-key, Finds, find-Finds}
use combotree_new.Clevel.{MemControl, update_node}
use combotree_new.Clevel.Delete.{changed}
use combotree_new.Clevel.Write.{update_node-IsTree}
use combotree_new.Clevel.Shape.{IsRange, IsRange-HasPrefix, Home}
use combotree_new.Bentry.Buffered.{Bentry, update}
use combotree_new.Bentry.Buffered.Flush.{choose, under, key-same}
use combotree_new.Bentry.Buffered.Map.{IsBuffered, ready}

-- Update of the pair that Find finds.
module _ (p lo hi : ℕ) (b : KvBuffer) (valid : IsValid 8 b) (range : IsRange b.suffix_bytes p lo hi)
    (m : ℕ → Option ℕ) (k x pos : ℕ) (low : lo ≤ k) (high : k < hi) (small : x < 256 ^ 8)
    (hit : find_below b k b.entries ≡ (pos, true)) where
  abbrev renewed : KvBuffer
  renewed = Kv.update 8 b pos x

  word : k < word_mod
  word = (IsRange-HasPrefix b.suffix_bytes p lo hi k range low high).0

  place : (pos < b.entries) × (key b pos k ≡ k)
  unfolding Kv.find
  place =
      let f = subst (Finds (λ j. key b j k) k b.entries) hit (find-Finds 8 b k valid word) in
      (f.0, f.1)

  renewed-pair :
      (i t : ℕ)
      → i < b.entries
      → t < word_mod
      → pair_at 8 renewed t i ≡ (key b i t, (if i == pos then x else value 8 b i))
  renewed-pair i t lt small_key =
      update-pair 8 b pos x t i valid (omega (arith, place, valid.count)) small_key small
        (omega (arith, valid.count))

  renewed-key : (i t : ℕ) → i < b.entries → t < word_mod → key renewed i t ≡ key b i t
  unfolding pair_at
  renewed-key i t lt small_key = ap (λ q. q.0) (renewed-pair i t lt small_key)

  renewed-value :
      (i : ℕ) → i < b.entries → value 8 renewed i ≡ (if i == pos then x else value 8 b i)
  unfolding pair_at
  renewed-value i lt = ap (λ q. q.1) (renewed-pair i 0 lt (omega arith))

  find-renewed :
      (n t : ℕ) → n ≤ b.entries → t < word_mod → find_below renewed t n ≡ find_below b t n
  unfolding find_below Kv.update
  find-renewed zero t le small_key = refl
  find-renewed (suc n) t le small_key =
      ap₂ (λ (c : Bool) (r : ℕ × Bool). if c then (n, true) else r)
        (same_suffix-key 8 renewed n t (update-IsValid 8 b pos x valid) small_key
          ∙ ap (λ (q : ℕ). q == t) (renewed-key n t (omega arith) small_key)
          ∙ sym (same_suffix-key 8 b n t valid small_key))
        (find-renewed n t (omega arith) small_key)

  -- The place of another key is another place.
  elsewhere : (t i : ℕ) → lo ≤ t → t < hi → key b i t ≡ t → t ≢ k → (i == pos) ≡ false
  elsewhere t i from to at differs = elim (Bool-cases (i == pos)) [
    | inr other ↦ other
    | inl same ↦
        let pre = IsRange-HasPrefix b.suffix_bytes p lo hi t range from to in
        let pre' = IsRange-HasPrefix b.suffix_bytes p lo hi k range low high in
        let moved = ap (λ (q : ℕ). key b q t) (==→eq i pos same) in
        absurd (
          differs (
            sym at
            ∙ moved
            ∙ key-same b pos t p valid range.owner pre
            ∙ sym (key-same b pos k p valid range.owner pre')
            ∙ place.1))
  ]

  choose-renewed :
      (t : ℕ) (r : ℕ × Bool)
      → lo ≤ t
      → t < hi
      → t ≢ k
      → Finds (λ j. key b j t) t b.entries r
      → choose renewed m t r ≡ choose b m t r
  choose-renewed t (i, false) from to differs f = refl
  choose-renewed t (i, true) from to differs (lt, at, above) = ap some (
      renewed-value i lt
      ∙ ap (λ (c : Bool). if c then x else value 8 b i) (elsewhere t i from to at differs))

  pub under-renewed :
      (t : ℕ)
      → lo ≤ t
      → t < hi
      → under renewed m b.entries t ≡ changed (under b m b.entries) k (some x) t
  unfolding Kv.find
  under-renewed t from to =
      let (small_key, same_prefix) = IsRange-HasPrefix b.suffix_bytes p lo hi t range from to in
      ap (choose renewed m t) (find-renewed b.entries t (omega arith) small_key)
      ∙ elim (Bool-cases (t == k)) [
        | inl same ↦
            ap (λ (q : ℕ). choose renewed m q (find_below b q b.entries)) (==→eq t k same)
            ∙ ap (choose renewed m k) hit
            ∙ ap some (
                renewed-value pos place.0
                ∙ ap (λ (c : Bool). if c then x else value 8 b pos) (==-refl pos))
            ∙ sym (ap (λ (c : Bool). if c then some x else under b m b.entries t) same)
        | inr other ↦
            choose-renewed t (find_below b t b.entries) from to (==→ne t k other)
              (find-Finds 8 b t valid small_key)
            ∙ sym (ap (λ (c : Bool). if c then some x else under b m b.entries t) other)
      ]

-- Update of the tree under a buffer that does not have the key.
under-below :
    (b : KvBuffer) (m : ℕ → Option ℕ) (k x j t : ℕ)
    → find_below b k b.entries ≡ (j, false)
    → under b (changed m k (some x)) b.entries t ≡ changed (under b m b.entries) k (some x) t
under-below b m k x j t miss = elim (Bool-cases (t == k)) [
  | inl same ↦
      ap (λ (q : ℕ). choose b (changed m k (some x)) q (find_below b q b.entries)) (==→eq t k same)
      ∙ ap (choose b (changed m k (some x)) k) miss
      ∙ ap (λ (c : Bool). if c then some x else m k) (==-refl k)
      ∙ sym (ap (λ (c : Bool). if c then some x else under b m b.entries t) same)
  | inr other ↦
      ap
        (λ (q : Option ℕ).
          if (find_below b t b.entries).1 then some (value 8 b (find_below b t b.entries).0) else q)
        (ap (λ (c : Bool). if c then some x else m t) other)
      ∙ sym (ap (λ (c : Bool). if c then some x else under b m b.entries t) other)
]

module _ (fuel : ℕ) (mem : MemControl) (home : Home) (e : Bentry) (height lo hi : ℕ)
    (below m : ℕ → Option ℕ) (h : IsBuffered mem home e height lo hi below m) (k x : ℕ)
    (low : lo ≤ k) (high : k < hi) (deep : height < fuel) (small : x < 256 ^ 8) where
  updated : MemControl × Bool → Option (MemControl × Bentry × Bool)
  updated r = some (r.0, e, r.1)

  update-hit :
      (pos : ℕ)
      → find_below e.buf k e.buf.entries ≡ (pos, true)
      → update fuel mem e k x ≡ some (mem, record e { buf = Kv.update 8 e.buf pos x }, true)
  unfolding update Kv.find
  update-hit pos hit = rw hit refl

  update-miss :
      (j : ℕ)
      → find_below e.buf k e.buf.entries ≡ (j, false)
      → update fuel mem e k x ≡ (update_node fuel mem e.root k x >>= updated)
  unfolding update Kv.find updated
  update-miss j miss = rw (miss, ready e.root h.even) refl

  abbrev Present : Type 0
  Present =
      (after : MemControl) × (e' : Bentry) × (below' : ℕ → Option ℕ) × (update fuel mem e k x
        ≡ some (after, e', true))
      × IsBuffered after home e' height lo hi below' (changed m k (some x))

  in_buffer : (pos : ℕ) → find_below e.buf k e.buf.entries ≡ (pos, true) → Present
  unfolding Kv.update
  in_buffer pos hit = (
    mem,
    record e { buf = Kv.update 8 e.buf pos x },
    below,
    update-hit pos hit,
    record {
      range = h.range;
      tree = h.tree;
      valid = update-IsValid 8 e.buf pos x h.valid;
      some_room = h.some_room;
      inside = λ i lt.
          let same =
            renewed-key e.entry_key lo hi e.buf h.valid h.range below k x pos low high small hit i
              e.entry_key lt h.range.owner in
          (omega (arith, same, h.inside i lt), omega (arith, same, h.inside i lt));
      maps = λ t from to.
          under-renewed e.entry_key lo hi e.buf h.valid h.range below k x pos low high small hit t
            from to
          ∙ ap (λ q. if t == k then some x else q) (h.maps t from to);
      even = h.even;
      aligned = h.aligned;
    },
  )

  below-k : (j : ℕ) → find_below e.buf k e.buf.entries ≡ (j, false) → below k ≡ m k
  below-k j miss = sym (ap (choose e.buf below k) miss) ∙ h.maps k low high

  in_tree : (old j : ℕ) → find_below e.buf k e.buf.entries ≡ (j, false) → m k ≡ some old → Present
  unfolding updated
  in_tree old j miss held =
      let (after, done, same, tree) =
        (update_node-IsTree e.buf.suffix_bytes e.entry_key mem home below height fuel e.root lo hi
            h.range h.tree deep k low high x small).0
          old (below-k j miss ∙ held) in
      (
        after,
        e,
        changed below k (some x),
        update-miss j miss ∙ ap (λ o. o >>= updated) done,
        record {
          range = h.range;
          tree = tree;
          valid = h.valid;
          some_room = h.some_room;
          inside = h.inside;
          maps = λ t from to.
              under-below e.buf below k x j t miss
              ∙ ap (λ q. if t == k then some x else q) (h.maps t from to);
          even = h.even;
          aligned = ap (λ (q : ℕ). q % 128) same ∙ h.aligned;
        },
      )

  present :
      (old : ℕ) → (r : ℕ × Bool) → find_below e.buf k e.buf.entries ≡ r → m k ≡ some old → Present
  present old (pos, true) found held = in_buffer pos found
  present old (j, false) found held = in_tree old j found held

  missing :
      (r : ℕ × Bool)
      → find_below e.buf k e.buf.entries ≡ r
      → m k ≡ none
      → update fuel mem e k x ≡ some (mem, e, false)
  unfolding updated
  missing (pos, true) found gone =
      absurd (cc (sym (ap (choose e.buf below k) found) ∙ h.maps k low high ∙ gone))
  missing (j, false) found gone =
      update-miss j found
      ∙ ap (λ o. o >>= updated)
          ((update_node-IsTree e.buf.suffix_bytes e.entry_key mem home below height fuel e.root lo
              hi h.range h.tree deep k low high x small).1
            (below-k j found ∙ gone))

  -- On a buffered entry whose tree is set up, for a key of its range and a value of 64 bits, with
  -- fuel above the tree's height: Update of a key that the entry maps, in its buffer or in its
  -- tree, ends with true, and the entry maps the key to the value and every other key of its range
  -- as before; Update of a key that it does not map ends with false and changes nothing, in a build
  -- without assertions.
  pub update-IsBuffered :
      ((old : ℕ)
        → m k ≡ some old
        → (after : MemControl) × (e' : Bentry) × (below' : ℕ → Option ℕ) × (update fuel mem e k x
            ≡ some (after, e', true))
          × IsBuffered after home e' height lo hi below' (changed m k (some x)))
      × (m k ≡ none → update fuel mem e k x ≡ some (mem, e, false))
  update-IsBuffered = (
    λ old held. present old (find_below e.buf k e.buf.entries) refl held,
    λ gone. missing (find_below e.buf k e.buf.entries) refl gone,
  )
