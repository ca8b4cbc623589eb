-- ===== src/PmemKv/Scan.antt =====
-- `PmemKV::Scan` of src/pmemkv.h over the whole store, as the migration calls it.
use combotree_new.Prelude.{
  ℕ, zero, suc, ◌+◌, ◌≤◌, ◌≡◌, refl, arith, ap, ◌∙◌, sym, false, none, some, List, [], ◌∷◌, ◌==◌,
  if◌then◌else◌, length, take, Bool-cases, inl, inr, ==→eq, ==→ne, ne→==,
}
use combotree_new.PmemKv.{PmemKv, lookup, pair_leb, insert_pair, sort_pairs, scan}
use combotree_new.PmemKv.Map.{IsMap}

lookup-insert_pair :
    (j k x : ℕ) (qs : List (ℕ × ℕ))
    → lookup k qs ≡ none
    → lookup j (insert_pair (k, x) qs) ≡ (if k == j then some x else lookup j qs)
unfolding lookup insert_pair
lookup-insert_pair j k x [] h = refl
lookup-insert_pair j k x ((i, y) ∷ rest) h = elim (Bool-cases (pair_leb (k, x) (i, y))) [
  | inl first ↦ rw first refl
  | inr later ↦ elim (Bool-cases (i == k)) [
    | inl same ↦ absurd (cc (sym (rw same at h)))
    | inr other ↦
        let absent : lookup k rest ≡ none = rw other at h in
        elim (Bool-cases (i == j)) [
          | inl hit ↦
              let d : (k == j) ≡ false = ne→== k j (λ e. ==→ne i k other (==→eq i j hit ∙ sym e)) in
              rw (later, hit, d) refl
          | inr miss ↦ rw (later, miss) (lookup-insert_pair j k x rest absent)
        ]
  ]
]

insert_pair-IsMap :
    (k x : ℕ) (qs : List (ℕ × ℕ)) → lookup k qs ≡ none → IsMap qs → IsMap (insert_pair (k, x) qs)
unfolding lookup insert_pair IsMap
insert_pair-IsMap k x [] h map = (refl, tt)
insert_pair-IsMap k x ((i, y) ∷ rest) h (fresh, map) = elim (Bool-cases (i == k)) [
  | inl same ↦ absurd (cc (sym (rw same at h)))
  | inr other ↦
      let absent : lookup k rest ≡ none = rw other at h in
      let d : (k == i) ≡ false = ne→== k i (λ e. ==→ne i k other (sym e)) in
      elim (Bool-cases (pair_leb (k, x) (i, y))) [
        | inl first ↦ rw (first, other) (absent, (fresh, map))
        | inr later ↦ rw later (
          lookup-insert_pair i k x rest absent ∙ rw d fresh,
          insert_pair-IsMap k x rest absent map,
        )
      ]
]

pub lookup-sort_pairs :
    (kvs : List (ℕ × ℕ))
    → IsMap kvs
    → IsMap (sort_pairs kvs) × ((j : ℕ) → lookup j (sort_pairs kvs) ≡ lookup j kvs)
unfolding sort_pairs lookup IsMap
lookup-sort_pairs [] h = (tt, λ j. refl)
lookup-sort_pairs ((k, x) ∷ rest) (fresh, h) =
    let (map, same) = lookup-sort_pairs rest h in
    let absent : lookup k (sort_pairs rest) ≡ none = same k ∙ fresh in
    (
      insert_pair-IsMap k x (sort_pairs rest) absent map,
      λ j. lookup-insert_pair j k x (sort_pairs rest) absent ∙ rw (same j) refl,
    )

length-insert_pair : (k x : ℕ) (qs : List (ℕ × ℕ)) → length (insert_pair (k, x) qs) ≡ length qs + 1
unfolding insert_pair
length-insert_pair k x [] = refl
length-insert_pair k x ((i, y) ∷ rest) = elim (Bool-cases (pair_leb (k, x) (i, y))) [
  | inl first ↦ rw first (omega arith)
  | inr later ↦ rw later (omega (arith, length-insert_pair k x rest))
]

length-sort_pairs : (kvs : List (ℕ × ℕ)) → length (sort_pairs kvs) ≡ length kvs
unfolding sort_pairs
length-sort_pairs [] = refl
length-sort_pairs ((k, x) ∷ rest) =
    omega (arith, length-insert_pair k x (sort_pairs rest), length-sort_pairs rest)

take-all {ℓ} : {A : Type ℓ} (n : ℕ) (xs : List A) → length xs ≤ n → take n xs ≡ xs
take-all zero [] h = refl
take-all zero (x ∷ xs) h = absurd (omega arith)
take-all (suc n) [] h = refl
take-all (suc n) (x ∷ xs) h = ap (λ t. x ∷ t) (take-all n xs (omega arith))

-- For a store that repeats no key and holds at most as many pairs as the scan may take, the scan into
-- an empty vector repeats no key and maps every key as the store does.
pub scan-IsMap :
    (s : PmemKv) (low high max : ℕ)
    → IsMap s.kv_data
    → length s.kv_data ≤ max
    → IsMap (scan s low high max [])
      × ((j : ℕ) → lookup j (scan s low high max []) ≡ lookup j s.kv_data)
unfolding scan
scan-IsMap s low high max map le =
    rw (take-all max (sort_pairs s.kv_data) (omega (arith, length-sort_pairs s.kv_data)))
      (lookup-sort_pairs s.kv_data map)
