-- ===== src/KvBuffer/Delete.antt =====
-- `Delete` of src/kvbuffer.h: the last pair is moved into the gap.
use mathlib.Core.Path.{ap₂}
use mathlib.Core.List.{Perm, perm_append_singleton}
use mathlib.Core.List.Perm
use combotree_new.Prelude.{
  ℕ, zero, suc, ◌+◌, ◌-◌, ◌*◌, ◌^◌, ◌≤◌, ◌<◌, ◌≡◌, refl, arith, ap, ◌∙◌, sym, subst, ◌==◌,
  if◌then◌else◌, Bool-cases, inl, inr, set, take, length, get_or, List, [], ◌∷◌, ==→eq, ==→ne,
  ne→==, ==-refl,
}
use combotree_new.Bytes.{Bytes, copy}
use combotree_new.Word.{word_mod}
use combotree_new.Sequence.{tabulate, tabulate-set, tabulate-append, take-tabulate, length-tabulate}
use combotree_new.Slots.{prefix_of, key_offset, value_offset}
use combotree_new.Slots.Writes.{
  suffix, payload, suffix-copy_key, suffix-copy_value, payload-copy_key, payload-copy_value,
}
use combotree_new.KvBuffer.{KvBuffer, delete}
use combotree_new.KvBuffer.Laws.{IsValid, pair_at, pair_at-eq, pairs, delete-IsValid}

-- The bytes after `Delete` in front of the last entry.
module _ (v : ℕ) (b : KvBuffer) (pos : ℕ) (h : IsValid v b) (lt : pos < b.entries - 1) where
  deleted_suffix :
      (j : ℕ)
      → j < b.max_entries
      → suffix (delete v b pos).buf b.suffix_bytes j ≡ (
          if j == pos
          then suffix b.buf b.suffix_bytes (b.entries - 1)
          else suffix b.buf b.suffix_bytes j)
  unfolding delete
  deleted_suffix j hj =
      let s : ℕ = b.suffix_bytes in
      let few = h.count in
      let last : ℕ = b.entries - 1 in
      let b' : Bytes = copy b.buf (key_offset s pos) b.buf (key_offset s last) s in
      rw (ne→== (pos + 1) b.entries (omega arith)) (
        suffix-copy_value b.max_entries s v h.fits b' b' pos j (value_offset v last) (omega arith)
          hj
        ∙ suffix-copy_key b.max_entries s v h.fits b.buf b.buf pos j (key_offset s last)
            (omega arith) hj)

  deleted_payload :
      (j : ℕ)
      → j < b.max_entries
      → payload (delete v b pos).buf v j
        ≡ (if j == pos then payload b.buf v (b.entries - 1) else payload b.buf v j)
  unfolding delete
  deleted_payload j hj =
      let s : ℕ = b.suffix_bytes in
      let few = h.count in
      let last : ℕ = b.entries - 1 in
      let b' : Bytes = copy b.buf (key_offset s pos) b.buf (key_offset s last) s in
      let kept = λ (i : ℕ) (hi : i < b.max_entries).
        payload-copy_key b.max_entries s v h.fits b.buf b.buf pos i (key_offset s last)
          (omega arith) hi in
      rw (ne→== (pos + 1) b.entries (omega arith)) (
        payload-copy_value b.max_entries s v h.fits b' b' pos j (value_offset v last) (omega arith)
          hj
        ∙ ap₂ (λ (q r : ℕ). if j == pos then q else r) (kept last (omega arith)) (kept j hj))

  deleted_fields :
      ((delete v b pos).suffix_bytes ≡ b.suffix_bytes) × ((delete v b pos).entries ≡ b.entries - 1)
  unfolding delete
  deleted_fields = rw (ne→== (pos + 1) b.entries (omega arith)) (omega (arith, h.capacity, h.count))

module _ (v : ℕ) (b : KvBuffer) (pos : ℕ) (h : IsValid v b) (lt : pos < b.entries) where
  delete_fields :
      ((delete v b pos).suffix_bytes ≡ b.suffix_bytes) × ((delete v b pos).entries ≡ b.entries - 1)
  unfolding delete
  delete_fields = elim (Bool-cases ((pos + 1) == b.entries)) [
    | inl last ↦ rw last (omega (arith, h.capacity, h.count))
    | inr inner ↦ rw inner (omega (arith, h.capacity, h.count))
  ]

  -- The two halves of slot `j` after the deletion, whether the last entry is deleted or another.
  delete_slot :
      (j : ℕ)
      → j < b.entries - 1
      → (suffix (delete v b pos).buf b.suffix_bytes j ≡ (
          if j == pos
          then suffix b.buf b.suffix_bytes (b.entries - 1)
          else suffix b.buf b.suffix_bytes j))
        × (payload (delete v b pos).buf v j
            ≡ (if j == pos then payload b.buf v (b.entries - 1) else payload b.buf v j))
  delete_slot j hj = elim (Bool-cases ((pos + 1) == b.entries)) [
    | inr inner ↦
        let below : pos < b.entries - 1 = ground (arith, ==→ne (pos + 1) b.entries inner) in
        let few = h.count in
        (
          deleted_suffix v b pos h below j (omega arith),
          deleted_payload v b pos h below j (omega arith),
        )
    | inl last ↦
        let e : pos ≡ b.entries - 1 = omega (arith, ==→eq (pos + 1) b.entries last) in
        rw (ne→== j pos (omega arith)) (unfold delete in rw last (refl, refl))
  ]

  pair_at-delete :
      (p j : ℕ)
      → p < word_mod
      → j < b.entries - 1
      → pair_at v (delete v b pos) p j
        ≡ (if j == pos then pair_at v b p (b.entries - 1) else pair_at v b p j)
  pair_at-delete p j hp hj =
      pair_at-eq v (delete v b pos) p j (delete-IsValid v b pos h lt) hp
      ∙ ap
          (λ (q : ℕ). (
            prefix_of q p * 256 ^ q + suffix (delete v b pos).buf q j,
            payload (delete v b pos).buf v j,
          ))
          delete_fields.0
      ∙ ap₂ (λ (q r : ℕ). (prefix_of b.suffix_bytes p * 256 ^ b.suffix_bytes + q, r))
          (delete_slot j hj).0 (delete_slot j hj).1
      ∙ elim (Bool-cases (j == pos)) [
        | inl here ↦ rw here (sym (pair_at-eq v b p (b.entries - 1) h hp))
        | inr other ↦ rw other (sym (pair_at-eq v b p j h hp))
      ]

  -- `Delete` keeps all pairs but its own; the last one takes the place.
  pub delete-pairs :
      (p : ℕ)
      → p < word_mod
      → pairs v (delete v b pos) p
        ≡ set (take (b.entries - 1) (pairs v b p)) pos (pair_at v b p (b.entries - 1))
  unfolding pairs
  delete-pairs p hp =
      let n : ℕ = b.entries - 1 in
      ap (tabulate (pair_at v (delete v b pos) p)) delete_fields.1
      ∙ tabulate-set (pair_at v (delete v b pos) p) (pair_at v b p) (pair_at v b p n) n pos
          (λ i q r. pair_at-delete p i hp q ∙ rw (ne→== i pos r))
          (λ q. pair_at-delete p pos hp q ∙ rw (==-refl pos))
      ∙ ap (λ t. set t pos (pair_at v b p n))
          (sym (take-tabulate (pair_at v b p) b.entries n (omega arith)))

-- Overwriting a position exchanges its element for another.
set-perm {ℓ} :
    {A : Type ℓ} (xs : List A) (pos : ℕ) (e d : A)
    → pos < length xs
    → Perm (get_or xs pos d ∷ set xs pos e) (e ∷ xs)
set-perm [] pos e d h = absurd (omega arith)
set-perm (x ∷ xs) zero e d h = Perm.swap e x xs
set-perm (x ∷ xs) (suc pos) e d h =
    Perm.trans (Perm.swap x (get_or xs pos d) (set xs pos e))
      (Perm.trans (Perm.cons x (set-perm xs pos e d (omega arith))) (Perm.swap e x xs))

set_outside {ℓ} : {A : Type ℓ} (xs : List A) (pos : ℕ) (e : A) → length xs ≤ pos → set xs pos e ≡ xs
set_outside [] pos e h = refl
set_outside (x ∷ xs) zero e h = absurd (omega arith)
set_outside (x ∷ xs) (suc pos) e h = ap (λ t. x ∷ t) (set_outside xs pos e (omega arith))

get_or-tabulate {ℓ} :
    {A : Type ℓ} (f : ℕ → A) (n i : ℕ) (d : A) → i < n → get_or (tabulate f n) i d ≡ f i
unfolding tabulate
get_or-tabulate f zero i d h = absurd (omega arith)
get_or-tabulate f (suc n) zero d h = refl
get_or-tabulate f (suc n) (suc i) d h = get_or-tabulate (λ j. f (suc j)) n i d (omega arith)

-- Taking element `pos` out of a sequence by overwriting it with the last.
swap_remove-perm {ℓ} :
    {A : Type ℓ} (f : ℕ → A) (n pos : ℕ)
    → pos ≤ n
    → Perm (f pos ∷ set (tabulate f n) pos (f n)) (tabulate f (suc n))
swap_remove-perm f n pos le = Perm.trans front (
    subst (λ t. Perm (f n ∷ tabulate f n) t) (sym (tabulate-append f f (f n) n (λ i p. refl) refl))
      (Perm.symm (perm_append_singleton (f n) (tabulate f n))))
  where
    front : Perm (f pos ∷ set (tabulate f n) pos (f n)) (f n ∷ tabulate f n)
    front = elim (Bool-cases (pos == n)) [
      | inl same ↦
          let e = ==→eq pos n same in
          rw (set_outside (tabulate f n) pos (f n) (omega (arith, length-tabulate {ℓ} f n)), e)
            (Perm.refl (f n ∷ tabulate f n))
      | inr other ↦
          let lt : pos < n = ground (arith, ==→ne pos n other) in
          rw (get_or-tabulate f n pos (f n) lt) at
            (set-perm (tabulate f n) pos (f n) (f n) (omega (arith, length-tabulate {ℓ} f n)))
    ]

-- For a well-formed unsorted buffer, a position below entries and a 64-bit key of the owner, the
-- pair at the position together with the pairs after Delete is a permutation of the pairs before.
pub delete-perm :
    (v : ℕ) (b : KvBuffer) (pos p : ℕ)
    → IsValid v b
    → pos < b.entries
    → p < word_mod
    → Perm (pair_at v b p pos ∷ pairs v (delete v b pos) p) (pairs v b p)
unfolding pairs
delete-perm v b pos p h lt hp =
    let n : ℕ = b.entries - 1 in
    let f = pair_at v b p in
    let e : b.entries ≡ suc n = omega arith in
    let left : pairs v (delete v b pos) p ≡ set (tabulate f n) pos (f n) =
      delete-pairs v b pos h lt p hp
      ∙ ap (λ t. set t pos (f n)) (take-tabulate f b.entries n (omega arith)) in
    subst (λ t. Perm (f pos ∷ t) (tabulate f b.entries)) (sym left)
      (subst (λ (t : ℕ). Perm (f pos ∷ set (tabulate f n) pos (f n)) (tabulate f t)) (sym e)
        (swap_remove-perm f n pos (omega arith)))
