-- ===== src/KvBuffer/Laws.antt =====
-- What the operations of src/kvbuffer.h do to the list of pairs, in the order of insertion.
use mathlib.Core.Path.{ap₂}
use native.Mathlib.Nat.{mod-eq_of_lt, div-add-mod'}
use combotree_new.Prelude.{
  ℕ, suc, ◌+◌, ◌*◌, ◌%◌, ◌^◌, ◌≤◌, ◌<◌, ◌≡◌, arith, ap, ◌∙◌, sym, ◌==◌, if◌then◌else◌, Bool-cases,
  inl, inr, List, [], ◌∷◌, ◌++◌, ne→==, ==-refl,
}
use combotree_new.Bytes.{store}
use combotree_new.Word.{word_mod}
use combotree_new.Sequence.{tabulate, tabulate-append}
use combotree_new.Slots.{prefix_of, key_offset, read_key-eq, read_value-eq}
use combotree_new.Slots.Writes.{
  suffix, payload, Fits, suffix-store_key, suffix-store_value, payload-store_key,
  payload-store_value,
}
use combotree_new.KvBuffer.{KvBuffer, key, value, put, delete, update}

pub record IsValid (value_size : ℕ) (b : KvBuffer) : Type 0 where
  pub widths : b.prefix_bytes + b.suffix_bytes ≡ 8
  pub capacity : b.max_entries < 16
  pub fits : Fits b.max_entries b.suffix_bytes value_size
  pub value_fits : value_size ≤ 8
  pub count : b.entries ≤ b.max_entries

unfoldable pub pair_at : ℕ → KvBuffer → ℕ → ℕ → ℕ × ℕ
pair_at v b p i = (key b i p, value v b i)

unfoldable pub pairs : ℕ → KvBuffer → ℕ → List (ℕ × ℕ)
unfolding pair_at
pairs v b p = tabulate (pair_at v b p) b.entries

pub pair_at-eq :
    (v : ℕ) (b : KvBuffer) (p i : ℕ)
    → IsValid v b
    → p < word_mod
    → pair_at v b p i ≡ (
      prefix_of b.suffix_bytes p * 256 ^ b.suffix_bytes + suffix b.buf b.suffix_bytes i,
      payload b.buf v i,
    )
unfolding pair_at key value
pair_at-eq v b p i h small =
    ap₂ (λ (q r : ℕ). (q, r)) (read_key-eq b.buf b.prefix_bytes b.suffix_bytes i p h.widths small)
      (read_value-eq b.buf v i h.value_fits)

module _ (v : ℕ) (b : KvBuffer) (pos k x : ℕ) (valid : IsValid v b)
    (room : pos < b.max_entries) where
  suffix-put :
      (j : ℕ)
      → j < b.max_entries
      → suffix (put v b pos k x).buf b.suffix_bytes j
        ≡ (if j == pos then k % 256 ^ b.suffix_bytes else suffix b.buf b.suffix_bytes j)
  unfolding put
  suffix-put j hj =
      suffix-store_value b.max_entries b.suffix_bytes v valid.fits
        (store b.buf (key_offset b.suffix_bytes pos) k b.suffix_bytes) pos j x room hj
      ∙ suffix-store_key b.max_entries b.suffix_bytes v valid.fits b.buf pos j k room hj

  payload-put :
      (j : ℕ)
      → j < b.max_entries
      → payload (put v b pos k x).buf v j ≡ (if j == pos then x % 256 ^ v else payload b.buf v j)
  unfolding put
  payload-put j hj =
      payload-store_value b.max_entries b.suffix_bytes v valid.fits
        (store b.buf (key_offset b.suffix_bytes pos) k b.suffix_bytes) pos j x room hj
      ∙ ap (λ (q : ℕ). if j == pos then x % 256 ^ v else q)
          (payload-store_key b.max_entries b.suffix_bytes v valid.fits b.buf pos j k room hj)

pub put-IsValid :
    (v : ℕ) (b : KvBuffer) (pos k x : ℕ)
    → IsValid v b
    → b.entries < b.max_entries
    → IsValid v (put v b pos k x)
unfolding put
put-IsValid v b pos k x h room = record {
  widths = h.widths;
  capacity = h.capacity;
  fits = h.fits;
  value_fits = h.value_fits;
  count = omega (arith, h.capacity);
}

-- Put at `entries` keeps the pairs before it.
pub put_kept :
    (v : ℕ) (b : KvBuffer) (k x p : ℕ)
    → IsValid v b
    → b.entries < b.max_entries
    → p < word_mod
    → (i : ℕ) → i < b.entries
    → pair_at v (put v b b.entries k x) p i ≡ pair_at v b p i
unfolding put
put_kept v b k x p h room hp i hi =
    let s : ℕ = b.suffix_bytes in
    let other = ne→== i b.entries (omega arith) in
    pair_at-eq v (put v b b.entries k x) p i (put-IsValid v b b.entries k x h room) hp
    ∙ ap₂ (λ (q r : ℕ). (prefix_of s p * 256 ^ s + q, r))
        (rw other at (suffix-put v b b.entries k x h room i (omega arith)))
        (rw other at (payload-put v b b.entries k x h room i (omega arith)))
    ∙ sym (pair_at-eq v b p i h hp)

-- The pair that Put at `entries` writes.
pub put_new :
    (v : ℕ) (b : KvBuffer) (k x p : ℕ)
    → IsValid v b
    → b.entries < b.max_entries
    → p < word_mod
    → prefix_of b.suffix_bytes k ≡ prefix_of b.suffix_bytes p
    → x < 256 ^ v
    → pair_at v (put v b b.entries k x) p b.entries ≡ (k, x)
unfolding put
put_new v b k x p h room hp same hx =
    let s : ℕ = b.suffix_bytes in
    let self = ==-refl b.entries in
    pair_at-eq v (put v b b.entries k x) p b.entries (put-IsValid v b b.entries k x h room) hp
    ∙ ap₂ (λ (q r : ℕ). (prefix_of s p * 256 ^ s + q, r))
        (rw self at (suffix-put v b b.entries k x h room b.entries room))
        ((rw self at (payload-put v b b.entries k x h room b.entries room)) ∙ mod-eq_of_lt hx)
    ∙ ap (λ (q : ℕ). (q, x)) (rw (← same) (div-add-mod' k (256 ^ s)))

-- For a well-formed unsorted buffer that is not full, Put at entries of a pair whose key has the
-- prefix of the owner and whose value fits appends exactly that pair; keys are of 64 bits.
pub put-append :
    (v : ℕ) (b : KvBuffer) (k x p : ℕ)
    → IsValid v b
    → b.entries < b.max_entries
    → k < word_mod
    → p < word_mod
    → prefix_of b.suffix_bytes k ≡ prefix_of b.suffix_bytes p
    → x < 256 ^ v
    → pairs v (put v b b.entries k x) p ≡ pairs v b p ++ (k, x) ∷ []
unfolding pairs put
put-append v b k x p h room hk hp same hx =
    let c : KvBuffer = put v b b.entries k x in
    ap (tabulate (pair_at v c p)) {x = c.entries} {y = suc b.entries} (omega (arith, h.capacity))
    ∙ tabulate-append (pair_at v c p) (pair_at v b p) (k, x) b.entries
        (put_kept v b k x p h room hp) (put_new v b k x p h room hp same hx)

pub update-IsValid : (v : ℕ) (b : KvBuffer) (pos x : ℕ) → IsValid v b → IsValid v (update v b pos x)
unfolding update
update-IsValid v b pos x h = record {
  widths = h.widths;
  capacity = h.capacity;
  fits = h.fits;
  value_fits = h.value_fits;
  count = h.count;
}

-- Update writes the value of one pair.
pub update-pair :
    (v : ℕ) (b : KvBuffer) (pos x p i : ℕ)
    → IsValid v b
    → pos < b.max_entries
    → p < word_mod
    → x < 256 ^ v
    → i < b.max_entries
    → pair_at v (update v b pos x) p i ≡ (key b i p, (if i == pos then x else value v b i))
unfolding update pair_at
update-pair v b pos x p i h room hp hx hi =
    let s : ℕ = b.suffix_bytes in
    let n : ℕ = b.max_entries in
    pair_at-eq v (update v b pos x) p i (update-IsValid v b pos x h) hp
    ∙ ap₂ (λ (q r : ℕ). (prefix_of s p * 256 ^ s + q, r))
        (suffix-store_value n s v h.fits b.buf pos i x room hi)
        (payload-store_value n s v h.fits b.buf pos i x room hi
          ∙ ap (λ (q : ℕ). if i == pos then q else payload b.buf v i) (mod-eq_of_lt hx))
    ∙ ap (λ (q : ℕ × ℕ). (q.0, (if i == pos then x else q.1))) (sym (pair_at-eq v b p i h hp))

pub delete-IsValid :
    (v : ℕ) (b : KvBuffer) (pos : ℕ) → IsValid v b → pos < b.entries → IsValid v (delete v b pos)
unfolding delete
delete-IsValid v b pos h lt = elim (Bool-cases ((pos + 1) == b.entries)) [
  | inl last ↦ rw last (omega (arith, h))
  | inr inner ↦ rw inner (omega (arith, h))
]
