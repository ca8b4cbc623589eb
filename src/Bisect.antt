-- ===== src/Bisect.antt =====
-- The binary search that src/sortbuffer.h, src/kvbuffer.h (BUF_SORT), src/bucket.h and src/blevel.cc
-- write out: `while (left <= right)` over keys read by index. `hi` is `right + 1`, so that the
-- `right = -1` of an empty range needs no sign.
use combotree_new.Prelude.{
  ℕ, zero, suc, ◌+◌, ◌-◌, ◌/◌, ◌≤◌, ◌<◌, ◌≡◌, arith, Bool, true, false, Option, none, some, ltb,
  ◌==◌, if◌then◌else◌, Bool-cases, inl, inr, ltb→lt, ltb→le, ==→eq, ==→ne,
}

module _ (key_at : ℕ → ℕ) (target : ℕ) where
  -- The index of the target and `true`, or the first index whose key is above it and `false`.
  -- `none` means that the fuel ran out.
  unfoldable pub bisect : ℕ → ℕ → ℕ → Option (ℕ × Bool)
  bisect zero left hi = none
  bisect (suc fuel) left hi =
      let middle = (left + (hi - 1)) / 2 in
      let lower = bisect fuel left middle in
      let upper = bisect fuel (middle + 1) hi in
      if ltb left hi
      then (if key_at middle == target
          then some (middle, true)
          else if ltb target (key_at middle)
          then lower
          else upper)
      else some (left, false)

  -- What a result says of the keys below index `n`.
  abbrev pub Locates : ℕ → ℕ × Bool → Type 0
  Locates n (pos, true) = (pos < n) × (key_at pos ≡ target)
  Locates n (pos, false) =
      (pos ≤ n)
      × ((i : ℕ) → i < pos → key_at i < target)
      × ((i : ℕ) → pos ≤ i → i < n → target < key_at i)

-- Strictly ascending keys.
abbrev pub IsAscending : (ℕ → ℕ) → ℕ → Type 0
IsAscending key_at n = (i j : ℕ) → i < j → j < n → key_at i < key_at j

module _ (key_at : ℕ → ℕ) (target n : ℕ) (sorted : IsAscending key_at n) where
  pub bisect_total :
      (fuel left hi : ℕ)
      → hi - left < fuel
      → left ≤ hi
      → hi ≤ n
      → ((i : ℕ) → i < left → key_at i < target)
      → ((i : ℕ) → hi ≤ i → i < n → target < key_at i)
      → (r : ℕ × Bool) × (bisect key_at target fuel left hi ≡ some r) × Locates key_at target n r
  unfolding bisect
  bisect_total zero left hi enough le inside below above = absurd (omega arith)
  bisect_total (suc fuel) left hi enough le inside below above =
      let middle : ℕ = (left + (hi - 1)) / 2 in
      elim (Bool-cases (ltb left hi)) [
        | inr empty ↦
            let e : left ≡ hi = omega (arith, ltb→le left hi empty) in
            ((left, false), rw empty, (omega arith, below, λ i p q. above i (omega arith) q))
        | inl inside_now ↦
            let h = ltb→lt left hi inside_now in
            elim (Bool-cases (key_at middle == target)) [
              | inl hit ↦ (
                (middle, true),
                rw (inside_now, hit),
                (omega arith, ==→eq (key_at middle) target hit),
              )
              | inr miss ↦ elim (Bool-cases (ltb target (key_at middle))) [
                | inl high ↦
                    let k = ltb→lt target (key_at middle) high in
                    rw (inside_now, miss, high)
                      (bisect_total fuel left middle (omega arith) (omega arith) (omega arith) below
                        λ i p q. grind (arith, sorted middle i))
                | inr low ↦
                    let k = ltb→le target (key_at middle) low in
                    let d = ==→ne (key_at middle) target miss in
                    rw (inside_now, miss, low)
                      (bisect_total fuel (middle + 1) hi (omega arith) (omega arith) inside
                        (λ i p. grind (arith, sorted i middle)) above)
              ]
            ]
      ]
