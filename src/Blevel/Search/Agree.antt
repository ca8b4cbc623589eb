-- ===== src/Blevel/Search/Agree.antt =====
-- The searches of src/blevel.cc name the same entry.
use combotree_new.Prelude.{
  ℕ, zero, suc, ◌+◌, ◌-◌, ◌/◌, ◌%◌, ◌^◌, ◌≤◌, ◌<◌, ◌≡◌, refl, arith, ap, subst, Bool, true, false,
  some, ltb, leb, ◌==◌, Bool-cases, inl, inr, ==→eq, ==→ne, ltb→lt, ltb→le, leb→le, leb→lt,
  if◌then◌else◌,
}
use combotree_new.Bisect.{bisect}
use combotree_new.Blevel.{find_between}
use combotree_new.Blevel.Find.{AscendsBetween, IsLastLe, find_between-IsLastLe, to_int-small}
use combotree_new.Blevel.Search.{search_between, walk_up, walk_down, walk_near}

module _ (key_at : ℕ → ℕ) (key left right : ℕ) where
  -- There is only one such index.
  IsLastLe-unique :
      (r r' : ℕ) → IsLastLe key_at key left right r → IsLastLe key_at key left right r' → r ≡ r'
  IsLastLe-unique r r' h h' = elim (Bool-cases (r == r')) [
    | inl same ↦ ==→eq r r' same
    | inr other ↦ elim (Bool-cases (ltb r r')) [
      | inl low ↦
          let lt = ltb→lt r r' low in
          absurd (
            omega (
              arith,
              h.rest_above (r' - 1) (omega arith) (omega (arith, h'.in_bounds)),
              h'.at_most,
            ))
      | inr high ↦
          let le = ltb→le r r' high in
          let ne = ==→ne r r' other in
          absurd (ground (arith, h'.rest_above (r - 1), h.in_bounds, h.at_most))
    ]
  ]

  module _ (up : AscendsBetween key_at left right) (first : key_at left ≤ key) where
    beyond_is_above :
        (middle i : ℕ)
        → left ≤ middle
        → middle ≤ i
        → i ≤ right
        → key < key_at middle
        → key < key_at i
    beyond_is_above middle i le p q k = elim (Bool-cases (middle == i)) [
      | inl same ↦ subst (λ (j : ℕ). key < key_at j) (==→eq middle i same) k
      | inr other ↦
          let beyond : middle < i = ground (arith, ==→ne middle i other) in
          omega (arith, up middle i le beyond q, k)
    ]

    not_at_left : (pos : ℕ) → left ≤ pos → key < key_at pos → left < pos
    not_at_left pos le k = elim (Bool-cases (left == pos)) [
      | inl same ↦ absurd (omega (arith, ap key_at (==→eq left pos same), first, k))
      | inr other ↦ ground (arith, ==→ne left pos other)
    ]

    -- The binary search between `lo` and `hi`, with the entries before and after known.
    bisect-IsLastLe :
        (fuel lo hi : ℕ)
        → hi - lo < fuel
        → left ≤ lo
        → lo ≤ hi
        → hi ≤ right + 1
        → (left < lo → key_at (lo - 1) ≤ key)
        → (lo ≡ left → lo < hi)
        → ((i : ℕ) → hi ≤ i → i ≤ right → key < key_at i)
        → (r : ℕ × Bool) × (bisect key_at key fuel lo hi ≡ some r)
          × IsLastLe key_at key left right (if r.1 then r.0 + 1 else r.0)
    unfolding bisect
    bisect-IsLastLe zero lo hi enough start le inside below more above = absurd (omega arith)
    bisect-IsLastLe (suc fuel) lo hi enough start le inside below more above =
        let middle : ℕ = (lo + (hi - 1)) / 2 in
        elim (Bool-cases (ltb lo hi)) [
          | inr empty ↦
              let e : lo ≡ hi = omega (arith, ltb→le lo hi empty) in
              let beyond : left < lo = ground (arith, more) in
              (
                (lo, false),
                rw empty refl,
                record {
                  above_left = beyond;
                  in_bounds = omega arith;
                  at_most = below beyond;
                  rest_above = λ i p q. above i (omega arith) q;
                },
              )
          | inl inside_now ↦
              let h = ltb→lt lo hi inside_now in
              elim (Bool-cases (key_at middle == key)) [
                | inl hit ↦
                    let e = ==→eq (key_at middle) key hit in
                    let back : middle + 1 - 1 ≡ middle = omega arith in
                    (
                      (middle, true),
                      rw (inside_now, hit) refl,
                      record {
                        above_left = omega arith;
                        in_bounds = omega arith;
                        at_most = omega (arith, ap key_at back, e);
                        rest_above =
                            λ i p q. omega (arith, up middle i (omega arith) (omega arith) q, e);
                      },
                    )
                | inr miss ↦ elim (Bool-cases (ltb key (key_at middle))) [
                  | inl high ↦
                      let k = ltb→lt key (key_at middle) high in
                      rw (inside_now, miss, high)
                        (bisect-IsLastLe fuel lo middle (omega arith) start (omega arith)
                          (omega arith) below
                          (λ e. omega (arith, not_at_left middle (omega arith) k))
                          λ i p q. beyond_is_above middle i (omega arith) p q k)
                  | inr low ↦
                      let k = ltb→le key (key_at middle) low in
                      let back : middle + 1 - 1 ≡ middle = omega arith in
                      rw (inside_now, miss, low)
                        (bisect-IsLastLe fuel (middle + 1) hi (omega arith) (omega arith)
                          (omega arith) inside (λ p. omega (arith, ap key_at back, k))
                          (λ e. absurd (omega arith)) above)
                ]
              ]
        ]

    pub walk_up-IsLastLe :
        (n pos : ℕ)
        → pos + n ≡ right
        → left ≤ pos
        → key_at pos ≤ key
        → IsLastLe key_at key left right (walk_up key_at key pos n + 1)
    unfolding walk_up
    walk_up-IsLastLe zero pos e start le =
        let back : pos + 1 - 1 ≡ pos = omega arith in
        record {
          above_left = omega arith;
          in_bounds = omega arith;
          at_most = omega (arith, ap key_at back, le);
          rest_above = λ i p q. absurd (omega arith);
        }
    walk_up-IsLastLe (suc n) pos e start le = elim (Bool-cases (leb (key_at (pos + 1)) key)) [
      | inl small ↦ rw small (
          walk_up-IsLastLe n (pos + 1) (omega arith) (omega arith)
            (leb→le (key_at (pos + 1)) key small))
      | inr large ↦
          let k = leb→lt (key_at (pos + 1)) key large in
          let back : pos + 1 - 1 ≡ pos = omega arith in
          rw large record {
            above_left = omega arith;
            in_bounds = omega arith;
            at_most = omega (arith, ap key_at back, le);
            rest_above = λ i p q. beyond_is_above (pos + 1) i (omega arith) p q k;
          }
    ]

    walk_down-IsLastLe :
        (n pos : ℕ)
        → left + n ≡ pos
        → pos < right
        → key < key_at (pos + 1)
        → IsLastLe key_at key left right (walk_down key_at key pos n + 1)
    unfolding walk_down
    walk_down-IsLastLe zero pos e lt k =
        let back : pos + 1 - 1 ≡ left = omega arith in
        record {
          above_left = omega arith;
          in_bounds = omega arith;
          at_most = omega (arith, ap key_at back, first);
          rest_above = λ i p q. beyond_is_above (pos + 1) i (omega arith) p q k;
        }
    walk_down-IsLastLe (suc n) pos e lt k = elim (Bool-cases (ltb key (key_at pos))) [
      | inl large ↦
          let back : pos - 1 + 1 ≡ pos = omega arith in
          rw large (
            walk_down-IsLastLe n (pos - 1) (omega arith) (omega arith)
              (omega (arith, ap key_at back, ltb→lt key (key_at pos) large)))
      | inr small ↦
          let back : pos + 1 - 1 ≡ pos = omega arith in
          rw small record {
            above_left = omega arith;
            in_bounds = omega arith;
            at_most = omega (arith, ap key_at back, ltb→le key (key_at pos) small);
            rest_above = λ i p q. beyond_is_above (pos + 1) i (omega arith) p q k;
          }
    ]

    pub walk_near-IsLastLe :
        (pos : ℕ)
        → left ≤ pos
        → pos ≤ right
        → right < 2 ^ 64
        → IsLastLe key_at key left right (walk_near key_at key left right pos + 1)
    unfolding walk_near
    walk_near-IsLastLe pos low high small = elim (Bool-cases (leb (key_at pos) key)) [
      | inl le ↦
          rw le (walk_up-IsLastLe (right - pos) pos (omega arith) low (leb→le (key_at pos) key le))
      | inr gt ↦
          let k = leb→lt (key_at pos) key gt in
          let apart : left < pos = not_at_left pos low k in
          let before : (pos + (2 ^ 64 - 1)) % 2 ^ 64 ≡ pos - 1 = omega arith in
          let back : pos - 1 + 1 ≡ pos = omega arith in
          rw (gt, before)
            (walk_down-IsLastLe (pos - 1 - left) (pos - 1) (omega arith) (omega arith)
              (omega (arith, ap key_at back, k)))
    ]

    -- For entry keys that ascend between two indexes below 2^30, the first of them at most the key,
    -- and a position between the two: the loop of BinarySearch_ and FindByRange_ ends at the entry
    -- of Find_, and the walk of FindNearPos_ from the position ends there too.
    pub searches-agree :
        (pos : ℕ)
        → left ≤ pos
        → pos ≤ right
        → right < 2 ^ 30
        → (r : ℕ) × (find_between key_at key left right ≡ some r)
          × (search_between key_at key left right ≡ some r)
          × (walk_near key_at key left right pos + 1 ≡ r)
    unfolding search_between
    searches-agree pos low high small =
        let (i, found, looked) =
          find_between-IsLastLe key_at key left right up (omega arith) small first in
        let (r, e, at) =
          bisect-IsLastLe (right + 2) left (right + 1) (omega arith) (omega arith) (omega arith)
            (omega arith) (λ p. absurd (omega arith)) (λ p. omega arith)
            λ i p q. absurd (omega arith) in
        (
          i,
          found,
          rw (to_int-small left (omega arith), to_int-small right small, e)
              (ap some (IsLastLe-unique (if r.1 then r.0 + 1 else r.0) i at looked)),
          IsLastLe-unique (walk_near key_at key left right pos + 1) i
              (walk_near-IsLastLe pos low high (omega arith)) looked,
        )
