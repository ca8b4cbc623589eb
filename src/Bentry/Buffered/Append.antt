-- ===== src/Bentry/Buffered/Append.antt =====
-- A pair at the end of the buffer of src/bentry.h, over the map of the tree below it.
use combotree_new.Prelude.{
  ℕ, zero, suc, ◌^◌, ◌≤◌, ◌<◌, ◌≡◌, refl, arith, ap, ◌∙◌, sym, inl, inr, true, false, Bool, Option,
  some, Bool-cases, ◌==◌, ==→eq, ==→ne, ne→==, ==-refl, if◌then◌else◌,
}
use mathlib.Core.Path.{ap₂}
use combotree_new.Word.{word_mod}
use combotree_new.KvBuffer as Kv
use combotree_new.KvBuffer.{KvBuffer, key, value, same_suffix, find_below, is_full, clear}
use combotree_new.KvBuffer.Laws.{IsValid, pair_at, put-IsValid, put_kept, put_new}
use combotree_new.KvBuffer.Find.{same_suffix-key}
use combotree_new.Clevel.Delete.{changed}
use combotree_new.Clevel.Shape.{IsRange, IsRange-HasPrefix}
use combotree_new.Bentry.Buffered.Flush.{choose, under}

choose-if :
    (b : KvBuffer) (m : ℕ → Option ℕ) (k i : ℕ) (t : Bool) (r : ℕ × Bool)
    → choose b m k (if t then (i, true) else r) ≡ (if t then some (value 8 b i) else choose b m k r)
choose-if b m k i true r = refl
choose-if b m k i false r = refl

-- A pair at the end of the buffer.
module _ (p lo hi : ℕ) (b : KvBuffer) (valid : IsValid 8 b) (range : IsRange b.suffix_bytes p lo hi)
    (m : ℕ → Option ℕ) (new x : ℕ) (low : lo ≤ new) (high : new < hi) (small : x < 256 ^ 8)
    (room : b.entries < b.max_entries) where
  abbrev longer : KvBuffer
  longer = Kv.put 8 b b.entries new x

  pub longer-IsValid : IsValid 8 longer
  longer-IsValid = put-IsValid 8 b b.entries new x valid room

  longer-key : (i k : ℕ) → i < b.entries → k < word_mod → key longer i k ≡ key b i k
  unfolding pair_at
  longer-key i k lt word = ap (λ q. q.0) (put_kept 8 b new x k valid room word i lt)

  longer-value : (i : ℕ) → i < b.entries → value 8 longer i ≡ value 8 b i
  unfolding pair_at
  longer-value i lt = ap (λ q. q.1) (put_kept 8 b new x 0 valid room (omega arith) i lt)

  under-longer : (n k : ℕ) → n ≤ b.entries → k < word_mod → under longer m n k ≡ under b m n k
  unfolding find_below
  under-longer zero k le word = refl
  under-longer (suc n) k le word =
      let same : same_suffix longer n k ≡ same_suffix b n k =
        same_suffix-key 8 longer n k longer-IsValid word
        ∙ ap (λ (q : ℕ). q == k) (longer-key n k (omega arith) word)
        ∙ sym (same_suffix-key 8 b n k valid word) in
      choose-if longer m k n (same_suffix longer n k) (find_below longer k n)
      ∙ ap₂ (λ (t : Bool) (y : ℕ). if t then some y else under longer m n k) same
          (longer-value n (omega arith))
      ∙ ap (λ q. if same_suffix b n k then some (value 8 b n) else q)
          (under-longer n k (omega arith) word)
      ∙ sym (choose-if b m k n (same_suffix b n k) (find_below b k n))

  longer-entries : longer.entries ≡ suc b.entries
  unfolding Kv.put
  longer-entries = omega (arith, valid.capacity)

  pub under-put :
      (k : ℕ)
      → lo ≤ k
      → k < hi
      → under longer m longer.entries k ≡ changed (under b m b.entries) new (some x) k
  unfolding find_below pair_at
  under-put k below above =
      let (word, same) = IsRange-HasPrefix b.suffix_bytes p lo hi k range below above in
      let (word', same') = IsRange-HasPrefix b.suffix_bytes p lo hi new range low high in
      let pair = put_new 8 b new x k valid room word (same' ∙ sym same) small in
      let hit : same_suffix longer b.entries k ≡ (new == k) =
        same_suffix-key 8 longer b.entries k longer-IsValid word
        ∙ ap (λ (q : ℕ × ℕ). q.0 == k) pair in
      ap (λ (n : ℕ). under longer m n k) longer-entries
      ∙ choose-if longer m k b.entries (same_suffix longer b.entries k)
          (find_below longer k b.entries)
      ∙ ap₂ (λ (t : Bool) (y : ℕ). if t then some y else under longer m b.entries k)
          (hit ∙ turn new k) (ap (λ q. q.1) pair)
      ∙ ap (λ q. if k == new then some x else q) (under-longer b.entries k (omega arith) word)
    where
      turn : (i j : ℕ) → (i == j) ≡ (j == i)
      turn i j = elim (Bool-cases (i == j)) [
        | inl same ↦ same ∙ sym (ap (λ (q : ℕ). j == q) (==→eq i j same) ∙ ==-refl j)
        | inr other ↦ other ∙ sym (ne→== j i (λ e. ==→ne i j other (sym e)))
      ]

  pub inside-put :
      ((i : ℕ) → i < b.entries → (lo ≤ key b i p) × (key b i p < hi))
      → (i : ℕ) → i < longer.entries
      → (lo ≤ key longer i p) × (key longer i p < hi)
  unfolding pair_at
  inside-put inside i lt = elim (Bool-cases (i == b.entries)) [
    | inl last ↦
        let (word', same') = IsRange-HasPrefix b.suffix_bytes p lo hi new range low high in
        let e : key longer b.entries p ≡ new =
          ap (λ q. q.0) (put_new 8 b new x p valid room range.owner same' small) in
        let at = ap (λ (q : ℕ). key longer q p) (==→eq i b.entries last) in
        (omega (arith, at, e), omega (arith, at, e))
    | inr other ↦
        let l : i < b.entries = ground (arith, ==→ne i b.entries other, longer-entries, lt) in
        let e = longer-key i p l range.owner in
        (omega (arith, e, inside i l), omega (arith, e, inside i l))
  ]
