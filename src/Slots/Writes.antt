-- ===== src/Slots/Writes.antt =====
-- Writing one slot leaves the other slots and the other half of the buffer alone, as long as the
-- slots fit: this is what `MaxEntries` in src/kvbuffer.h and src/sortbuffer.h is for.
use native.Mathlib.Nat.{div-mul-le_self}
use combotree_new.Prelude.{
  ℕ, ◌+◌, ◌*◌, ◌%◌, ◌^◌, ◌≤◌, ◌<◌, ◌≡◌, ◌≢◌, ◌⊎◌, inl, inr, arith, ap, ◌∙◌, ltb, ◌==◌,
  if◌then◌else◌, Bool-cases, ==→eq, ==→ne, ltb→lt, ltb→le,
}
use combotree_new.Bytes.{
  Bytes, bytes_of, copy, store, load, load_variable, load-copy, load-copy_apart,
}
use combotree_new.Slots.{buf_size, max_entries_of, key_offset, value_offset}

-- The stored bytes of a slot.
abbrev pub suffix : Bytes → ℕ → ℕ → ℕ
suffix buf s i = load buf (key_offset s i) s

abbrev pub payload : Bytes → ℕ → ℕ → ℕ
payload buf v i = load buf (value_offset v i) v

-- `n` slots fit into the buffer.
abbrev pub Fits : ℕ → ℕ → ℕ → Type 0
Fits n s v = n * (v + s) ≤ buf_size

pub max_entries_of-Fits : (v s : ℕ) → 0 < s → Fits (max_entries_of v s) s v
unfolding max_entries_of
max_entries_of-Fits v s h = div-mul-le_self buf_size (v + s)

-- Every key lies below every value.
pub key_below_value :
    (n s v : ℕ) → Fits n s v → (i j : ℕ) → i < n → j < n → key_offset s j + s ≤ value_offset v i
unfolding key_offset value_offset
key_below_value n s v fits i j hi hj = grind arith

lt_of_ne : (i j : ℕ) → i ≤ j → j ≢ i → i < j
lt_of_ne i j h ne = ground arith

module _ (n s v : ℕ) (fits : Fits n s v) (buf src : Bytes) (i j from : ℕ) (hi : i < n)
    (hj : j < n) where
  keys_apart : j ≢ i → (key_offset s j + s ≤ key_offset s i) ⊎ (key_offset s i + s ≤ key_offset s j)
  unfolding key_offset
  keys_apart h = elim (Bool-cases (ltb j i)) [
    | inl less ↦ inl (grind (arith, ltb→lt j i less))
    | inr more ↦ inr (grind (arith, lt_of_ne i j (ltb→le j i more) h))
  ]

  values_apart :
      j ≢ i → (value_offset v j + v ≤ value_offset v i) ⊎ (value_offset v i + v ≤ value_offset v j)
  unfolding value_offset
  values_apart h = elim (Bool-cases (ltb j i)) [
    | inl less ↦ inr (grind (arith, ltb→lt j i less))
    | inr more ↦ inl (grind (arith, lt_of_ne i j (ltb→le j i more) h))
  ]

  pub suffix-copy_key :
      suffix (copy buf (key_offset s i) src from s) s j
      ≡ (if j == i then load src from s else suffix buf s j)
  suffix-copy_key = elim (Bool-cases (j == i)) [
    | inl same ↦ rw (same, ==→eq j i same) (load-copy buf (key_offset s i) src from s)
    | inr other ↦ rw other (
        load-copy_apart buf (key_offset s i) src from s (key_offset s j) s
          (keys_apart (==→ne j i other)))
  ]

  pub payload-copy_key : payload (copy buf (key_offset s i) src from s) v j ≡ payload buf v j
  payload-copy_key =
      load-copy_apart buf (key_offset s i) src from s (value_offset v j) v
        (inr (key_below_value n s v fits j i hj hi))

  pub suffix-copy_value : suffix (copy buf (value_offset v i) src from v) s j ≡ suffix buf s j
  suffix-copy_value =
      load-copy_apart buf (value_offset v i) src from v (key_offset s j) s
        (inl (key_below_value n s v fits i j hi hj))

  pub payload-copy_value :
      payload (copy buf (value_offset v i) src from v) v j
      ≡ (if j == i then load src from v else payload buf v j)
  payload-copy_value = elim (Bool-cases (j == i)) [
    | inl same ↦ rw (same, ==→eq j i same) (load-copy buf (value_offset v i) src from v)
    | inr other ↦ rw other (
        load-copy_apart buf (value_offset v i) src from v (value_offset v j) v
          (values_apart (==→ne j i other)))
  ]

-- The same for a variable that is stored into slot `i`.
module _ (n s v : ℕ) (fits : Fits n s v) (buf : Bytes) (i j x : ℕ) (hi : i < n) (hj : j < n) where
  pub suffix-store_key :
      suffix (store buf (key_offset s i) x s) s j ≡ (if j == i then x % 256 ^ s else suffix buf s j)
  unfolding store
  suffix-store_key =
      suffix-copy_key n s v fits buf (bytes_of x) i j 0 hi hj
      ∙ ap (λ (q : ℕ). if j == i then q else suffix buf s j) (load_variable x s)

  pub payload-store_key : payload (store buf (key_offset s i) x s) v j ≡ payload buf v j
  unfolding store
  payload-store_key = payload-copy_key n s v fits buf (bytes_of x) i j 0 hi hj

  pub suffix-store_value : suffix (store buf (value_offset v i) x v) s j ≡ suffix buf s j
  unfolding store
  suffix-store_value = suffix-copy_value n s v fits buf (bytes_of x) i j 0 hi hj

  pub payload-store_value :
      payload (store buf (value_offset v i) x v) v j
      ≡ (if j == i then x % 256 ^ v else payload buf v j)
  unfolding store
  payload-store_value =
      payload-copy_value n s v fits buf (bytes_of x) i j 0 hi hj
      ∙ ap (λ (q : ℕ). if j == i then q else payload buf v j) (load_variable x v)
