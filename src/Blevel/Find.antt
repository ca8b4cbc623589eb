-- ===== src/Blevel/Find.antt =====
-- The search for an entry in src/blevel.cc, and for a range in src/blevel.h.
use combotree_new.Prelude.{
  ℕ, zero, suc, ◌+◌, ◌-◌, ◌/◌, ◌≤◌, ◌<◌, ◌≡◌, refl, arith, ap, ◌∙◌, ◌^◌, if-true, sym, ◌≢◌, subst,
  Bool, true, false, some, ltb, leb, ◌==◌, Bool-cases, inl, inr, ==→eq, ==→ne, ltb→lt, ltb→le,
  leb→le, leb→lt,
}
use combotree_new.Blevel.{
  Blevel, expand_threads, last_range, find_brange_by_key, scan_up, scan_down, find_between,
  find_from_middle, to_int,
}

-- The keys grow strictly from index `left` to index `right`.
abbrev pub AscendsBetween : (ℕ → ℕ) → ℕ → ℕ → Type 0
AscendsBetween key_at left right = (i j : ℕ) → left ≤ i → i < j → j ≤ right → key_at i < key_at j

-- `r` is one more than the last index whose key is at most `key`.
pub record IsLastLe (key_at : ℕ → ℕ) (key left right r : ℕ) : Type 0 where
  pub above_left : left < r
  pub in_bounds : r ≤ right + 1
  pub at_most : key_at (r - 1) ≤ key
  pub rest_above : (i : ℕ) → r ≤ i → i ≤ right → key < key_at i

module _ (key_at : ℕ → ℕ) (key left right : ℕ) (up : AscendsBetween key_at left right) where
  scan_up-IsLastLe :
      (n from : ℕ)
      → from + n ≡ right + 1
      → left < from
      → key_at (from - 1) ≤ key
      → IsLastLe key_at key left right (scan_up key_at key from n)
  unfolding scan_up
  scan_up-IsLastLe zero from e lt le = record {
    above_left = lt;
    in_bounds = omega arith;
    at_most = le;
    rest_above = λ i p q. absurd (omega arith);
  }
  scan_up-IsLastLe (suc n) from e lt le = elim (Bool-cases (leb (key_at from) key)) [
    | inl small ↦ rw small (
        scan_up-IsLastLe n (from + 1) (omega arith) (omega arith) (
          subst (λ (q : ℕ). key_at q ≤ key) {x = from} {y = from + 1 - 1} (omega arith)
            (leb→le (key_at from) key small)))
    | inr large ↦
        let k = leb→lt (key_at from) key large in
        rw large record {
          above_left = lt;
          in_bounds = omega arith;
          at_most = le;
          rest_above = λ i p q. elim (Bool-cases (i == from)) [
            | inl same ↦ rw (==→eq i from same) k
            | inr other ↦
                let beyond : from < i = ground (arith, ==→ne i from other) in
                omega (arith, up from i (omega arith) beyond q)
          ];
        }
  ]

  scan_down-IsLastLe :
      (n hi : ℕ)
      → left + n ≡ hi
      → hi ≤ right
      → key_at left ≤ key
      → key < key_at hi
      → 0 < n
      → IsLastLe key_at key left right (scan_down key_at key hi n)
  unfolding scan_down
  scan_down-IsLastLe zero hi e le first above pos = absurd (omega arith)
  scan_down-IsLastLe (suc n) hi e le first above pos =
      elim (Bool-cases (ltb key (key_at (hi - 1)))) [
        | inl large ↦
            let k = ltb→lt key (key_at (hi - 1)) large in
            let more : 0 < n = elim (Bool-cases (n == 0)) [
              | inl none_left ↦
                  let here : hi - 1 ≡ left = omega (arith, ==→eq n 0 none_left) in
                  absurd (omega (arith, ap key_at here))
              | inr some_left ↦ ground (arith, ==→ne n 0 some_left)
            ] in
            rw large (scan_down-IsLastLe n (hi - 1) (omega arith) (omega arith) first k more)
        | inr small ↦
            let k = ltb→le key (key_at (hi - 1)) small in
            rw small record {
              above_left = omega arith;
              in_bounds = omega arith;
              at_most = k;
              rest_above = λ i p q. elim (Bool-cases (i == hi)) [
                | inl same ↦ rw (==→eq i hi same) above
                | inr other ↦
                    let beyond : hi < i = ground (arith, ==→ne i hi other) in
                    omega (arith, up hi i (omega arith) beyond q)
              ];
            }
      ]

find_from_middle-IsLastLe :
    (key_at : ℕ → ℕ) (key left right : ℕ)
    → AscendsBetween key_at left right
    → left ≤ right
    → key_at left ≤ key
    → IsLastLe key_at key left right (find_from_middle key_at key left right)
unfolding find_from_middle
find_from_middle-IsLastLe key_at key left right up le first =
    let middle : ℕ = (left + right) / 2 in
    let inside : (left ≤ middle) × (middle ≤ right) = omega arith in
    let back : middle + 1 - 1 ≡ middle = omega arith in
    elim (Bool-cases (key_at middle == key)) [
      | inl hit ↦
          let e = ==→eq (key_at middle) key hit in
          rw hit record {
            above_left = omega arith;
            in_bounds = omega arith;
            at_most = omega (arith, ap key_at back, e);
            rest_above = λ i p q. omega (arith, up middle i inside.0 (omega arith) q, e);
          }
      | inr miss ↦ elim (Bool-cases (ltb (key_at middle) key)) [
        | inl low ↦
            let k = ltb→lt (key_at middle) key low in
            rw (miss, low)
              (scan_up-IsLastLe key_at key left right up (right - middle) (middle + 1) (omega arith)
                (omega arith) (omega (arith, ap key_at back, k)))
        | inr high ↦
            let k = ltb→le (key_at middle) key high in
            let above : key < key_at middle = ground (arith, ==→ne (key_at middle) key miss) in
            let apart : left < middle = elim (Bool-cases (left == middle)) [
              | inl same ↦ absurd (omega (arith, ap key_at (==→eq left middle same)))
              | inr other ↦ ground (arith, ==→ne left middle other)
            ] in
            rw (miss, high)
              (scan_down-IsLastLe key_at key left right up (middle - left) middle (omega arith)
                inside.1 first above (omega arith))
      ]
    ]

pub to_int-small : (i : ℕ) → i < 2 ^ 30 → to_int i ≡ some i
unfolding to_int
to_int-small i lt = if-true (ltb i (2 ^ 30)) _ _ (ground arith)

-- For entry keys that ascend between two indexes below 2^30, the first of them at most the key, the
-- walk of Find_ ends at the last index whose entry's key is at most the key.
pub find_between-IsLastLe :
    (key_at : ℕ → ℕ) (key left right : ℕ)
    → AscendsBetween key_at left right
    → left ≤ right
    → right < 2 ^ 30
    → key_at left ≤ key
    → (r : ℕ) × (find_between key_at key left right ≡ some r) × IsLastLe key_at key left right r
unfolding find_between
find_between-IsLastLe key_at key left right up le small first = (
  find_from_middle key_at key left right,
  rw (to_int-small left (omega arith), to_int-small right small) refl,
  find_from_middle-IsLastLe key_at key left right up le first,
)

false≢true : false ≢ true
false≢true e = cc e

le→leb : (a b : ℕ) → a ≤ b → leb a b ≡ true
le→leb a b h = ground arith

last_range-last :
    (test : ℕ → Bool) (n : ℕ)
    → 0 < n
    → test 0 ≡ true
    → (r : ℕ) × (last_range test n ≡ some r)
      × (r < n)
      × (test r ≡ true)
      × ((i : ℕ) → r < i → i < n → test i ≡ false)
unfolding last_range
last_range-last test zero pos first = absurd (omega arith)
last_range-last test (suc n) pos first = elim (Bool-cases (test n)) [
  | inl passes ↦ (n, rw passes refl, omega arith, passes, λ i p q. absurd (omega arith))
  | inr fails ↦
      let some_left : 0 < n = elim (Bool-cases (n == 0)) [
        | inl none_left ↦ absurd (false≢true (sym fails ∙ ap test (==→eq n 0 none_left) ∙ first))
        | inr more ↦ ground (arith, ==→ne n 0 more)
      ] in
      let (r, e, lt, passes, rest) = last_range-last test n some_left first in
      (
        r,
        rw fails e,
        omega arith,
        passes,
        λ i p q. elim (Bool-cases (i == n)) [
          | inl same ↦ ap test (==→eq i n same) ∙ fails
          | inr other ↦ rest i p (ground (arith, ==→ne i n other))
        ],
      )
]

-- Where the first range starts at or below a key, FindBRangeByKey_ returns the last range that
-- starts at or below it.
pub find_brange_by_key-last :
    (b : Blevel) (key : ℕ)
    → (b.ranges 0).start_key ≤ key
    → (r : ℕ) × (find_brange_by_key b key ≡ some r)
      × (r < expand_threads)
      × ((b.ranges r).start_key ≤ key)
      × ((i : ℕ) → r < i → i < expand_threads → key < (b.ranges i).start_key)
unfolding find_brange_by_key
find_brange_by_key-last b key first =
    let test = λ (i : ℕ). leb (b.ranges i).start_key key in
    let (r, e, lt, passes, rest) =
      last_range-last test expand_threads (omega arith) (le→leb (b.ranges 0).start_key key first) in
    (
      r,
      e,
      lt,
      leb→le (b.ranges r).start_key key passes,
      λ i p q. leb→lt (b.ranges i).start_key key (rest i p q),
    )
