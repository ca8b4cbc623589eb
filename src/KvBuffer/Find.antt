-- ===== src/KvBuffer/Find.antt =====
-- `Find` and `FindLE` of src/kvbuffer.h.
use combotree_new.Prelude.{
  ℕ, zero, suc, ◌^◌, ◌≤◌, ◌<◌, ◌≡◌, ◌≢◌, refl, arith, Bool, true, false, ◌==◌, Bool-cases, inl, inr,
  ==→eq, ==→ne,
}
use native.Mathlib.Nat.{div-add-mod'}
use combotree_new.Bytes.{load_variable}
use combotree_new.Word.{word_mod}
use combotree_new.Slots.{read_key-eq}
use combotree_new.KvBuffer.{KvBuffer, key, same_suffix, find_below, find}
use combotree_new.KvBuffer.Laws.{IsValid}

-- The comparison of the stored bytes decides the comparison of the whole keys, the prefix of the
-- target taken for that of the buffer.
pub same_suffix-key :
    (v : ℕ) (b : KvBuffer) (i target : ℕ)
    → IsValid v b
    → target < word_mod
    → same_suffix b i target ≡ (key b i target == target)
unfolding same_suffix key
same_suffix-key v b i target h small =
    let s : ℕ = b.suffix_bytes in
    let whole = read_key-eq b.buf b.prefix_bytes s i target h.widths small in
    let cut = load_variable target s in
    let parts = div-add-mod' target (256 ^ s) in ground (arith, whole, cut, parts)

-- What `Find` returns: the last entry with the key, or `entries` where there is none.
abbrev pub Finds : (ℕ → ℕ) → ℕ → ℕ → ℕ × Bool → Type 0
Finds key_at target n (i, true) =
    (i < n) × (key_at i ≡ target) × ((j : ℕ) → i < j → j < n → key_at j ≢ target)
Finds key_at target n (i, false) = (i ≡ n) × ((j : ℕ) → j < n → key_at j ≢ target)

find_below-Finds :
    (v : ℕ) (b : KvBuffer) (target n : ℕ)
    → IsValid v b
    → target < word_mod
    → n ≤ b.entries
    → ((j : ℕ) → n ≤ j → j < b.entries → key b j target ≢ target)
    → Finds (λ j. key b j target) target b.entries (find_below b target n)
unfolding find_below
find_below-Finds v b target zero h small le above = (refl, λ j p. above j (omega arith) p)
find_below-Finds v b target (suc n) h small le above =
    rw (same_suffix-key v b n target h small) (elim (Bool-cases (key b n target == target)) [
      | inl hit ↦
          rw hit (omega arith, ==→eq (key b n target) target hit, λ j p q. above j (omega arith) q)
      | inr miss ↦
          let d = ==→ne (key b n target) target miss in
          rw miss (
            find_below-Finds v b target n h small (omega arith) λ j p q e.
              elim (Bool-cases (j == n)) [
                | inl same ↦ d (rw (==→eq j n same) at e)
                | inr other ↦ above j (ground (arith, ==→ne j n other)) q e
              ])
    ])

-- In a well-formed unsorted buffer and for a 64-bit target, Find returns the last entry whose key
-- is the target and true, or entries and false where there is none.
pub find-Finds :
    (v : ℕ) (b : KvBuffer) (target : ℕ)
    → IsValid v b
    → target < word_mod
    → Finds (λ j. key b j target) target b.entries (find b target)
unfolding find
find-Finds v b target h small =
    find_below-Finds v b target b.entries h small (omega arith) (λ j p q. absurd (omega arith))
