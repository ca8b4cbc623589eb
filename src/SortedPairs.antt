-- ===== src/SortedPairs.antt =====
-- Lists of pairs with ascending keys: the abstract view of a sorted buffer, as a finite map.
use combotree_new.Prelude.{
  ℕ, zero, suc, ◌≤◌, ◌<◌, ◌≡◌, refl, arith, sym, false, none, some, ◌==◌, if◌then◌else◌, Bool-cases,
  inl, inr, ne→==, ==→eq, ==→ne, ==-refl, List, [], ◌∷◌,
}
use combotree_new.Sequence.{tabulate, insert_at, remove_at}
use combotree_new.PmemKv.{lookup}

-- Every key of the list is above `k`.
unfoldable pub AllAbove : ℕ → List (ℕ × ℕ) → Type 0
AllAbove k [] = Unit
AllAbove k ((j, y) ∷ rest) = (k < j) × AllAbove k rest

unfoldable pub IsAscendingList : List (ℕ × ℕ) → Type 0
unfolding AllAbove
IsAscendingList [] = Unit
IsAscendingList ((j, y) ∷ rest) = AllAbove j rest × IsAscendingList rest

-- The first `pos` keys are below `k`, the others above.
unfoldable pub Splits : ℕ → ℕ → List (ℕ × ℕ) → Type 0
unfolding AllAbove
Splits k zero kvs = AllAbove k kvs
Splits k (suc pos) [] = Unit
Splits k (suc pos) ((j, y) ∷ rest) = (j < k) × Splits k pos rest

AllAbove-le : (k j : ℕ) (kvs : List (ℕ × ℕ)) → k ≤ j → AllAbove j kvs → AllAbove k kvs
unfolding AllAbove
AllAbove-le k j [] le h = tt
AllAbove-le k j ((i, y) ∷ rest) le (lt, h) = (omega arith, AllAbove-le k j rest le h)

lookup-AllAbove : (k j : ℕ) (kvs : List (ℕ × ℕ)) → j ≤ k → AllAbove k kvs → lookup j kvs ≡ none
unfolding AllAbove lookup
lookup-AllAbove k j [] le h = refl
lookup-AllAbove k j ((i, y) ∷ rest) le (lt, h) =
    rw (ne→== i j (omega arith)) (lookup-AllAbove k j rest le h)

pub lookup-Splits : (k pos : ℕ) (kvs : List (ℕ × ℕ)) → Splits k pos kvs → lookup k kvs ≡ none
unfolding Splits lookup
lookup-Splits k zero kvs h = lookup-AllAbove k k kvs (omega arith) h
lookup-Splits k (suc pos) [] h = refl
lookup-Splits k (suc pos) ((j, y) ∷ rest) (lt, h) =
    rw (ne→== j k (omega arith)) (lookup-Splits k pos rest h)

-- Inserting a pair at its place maps its key to its value, and no other key elsewhere.
pub lookup-insert_at :
    (k x pos j : ℕ) (kvs : List (ℕ × ℕ))
    → Splits k pos kvs
    → lookup j (insert_at pos (k, x) kvs) ≡ (if j == k then some x else lookup j kvs)
unfolding Splits lookup insert_at
lookup-insert_at k x zero j kvs h = elim (Bool-cases (j == k)) [
  | inl same ↦ rw (same, ==→eq j k same, ==-refl k) refl
  | inr other ↦ rw (other, ne→== k j (λ e. ==→ne j k other (sym e))) refl
]
lookup-insert_at k x (suc pos) j [] h = elim (Bool-cases (j == k)) [
  | inl same ↦ rw (same, ==→eq j k same, ==-refl k) refl
  | inr other ↦ rw (other, ne→== k j (λ e. ==→ne j k other (sym e))) refl
]
lookup-insert_at k x (suc pos) j ((i, y) ∷ rest) (lt, h) = elim (Bool-cases (i == j)) [
  | inl hit ↦ let e = ==→eq i j hit in rw (hit, ne→== j k (omega arith)) refl
  | inr miss ↦ rw miss (lookup-insert_at k x pos j rest h)
]

AllAbove-insert_at :
    (i k x pos : ℕ) (kvs : List (ℕ × ℕ))
    → i < k
    → AllAbove i kvs
    → AllAbove i (insert_at pos (k, x) kvs)
unfolding AllAbove insert_at
AllAbove-insert_at i k x zero kvs lt h = (lt, h)
AllAbove-insert_at i k x (suc pos) [] lt h = (lt, tt)
AllAbove-insert_at i k x (suc pos) ((j, y) ∷ rest) lt (above, h) =
    (above, AllAbove-insert_at i k x pos rest lt h)

pub insert_at-IsAscendingList :
    (k x pos : ℕ) (kvs : List (ℕ × ℕ))
    → Splits k pos kvs
    → IsAscendingList kvs
    → IsAscendingList (insert_at pos (k, x) kvs)
unfolding IsAscendingList Splits insert_at
insert_at-IsAscendingList k x zero kvs s h = (s, h)
insert_at-IsAscendingList k x (suc pos) [] s h = (tt, tt)
insert_at-IsAscendingList k x (suc pos) ((j, y) ∷ rest) (lt, s) (above, h) =
    (AllAbove-insert_at j k x pos rest lt above, insert_at-IsAscendingList k x pos rest s h)

AllAbove-remove_at :
    (i pos : ℕ) (kvs : List (ℕ × ℕ)) → AllAbove i kvs → AllAbove i (remove_at pos kvs)
unfolding AllAbove remove_at
AllAbove-remove_at i zero [] h = tt
AllAbove-remove_at i (suc pos) [] h = tt
AllAbove-remove_at i zero ((j, y) ∷ rest) h = h.1
AllAbove-remove_at i (suc pos) ((j, y) ∷ rest) h = (h.0, AllAbove-remove_at i pos rest h.1)

pub remove_at-IsAscendingList :
    (pos : ℕ) (kvs : List (ℕ × ℕ)) → IsAscendingList kvs → IsAscendingList (remove_at pos kvs)
unfolding IsAscendingList remove_at
remove_at-IsAscendingList zero [] h = tt
remove_at-IsAscendingList (suc pos) [] h = tt
remove_at-IsAscendingList zero ((j, y) ∷ rest) h = h.1
remove_at-IsAscendingList (suc pos) ((j, y) ∷ rest) h =
    (AllAbove-remove_at j pos rest h.0, remove_at-IsAscendingList pos rest h.1)

AllAbove-tabulate :
    (k : ℕ) (f : ℕ → ℕ × ℕ) (n : ℕ) → ((i : ℕ) → i < n → k < (f i).0) → AllAbove k (tabulate f n)
unfolding AllAbove tabulate
AllAbove-tabulate k f zero h = tt
AllAbove-tabulate k f (suc n) h =
    (h 0 (omega arith), AllAbove-tabulate k (λ i. f (suc i)) n (λ i p. h (suc i) (omega arith)))

pub tabulate-IsAscendingList :
    (f : ℕ → ℕ × ℕ) (n : ℕ)
    → ((i j : ℕ) → i < j → j < n → (f i).0 < (f j).0)
    → IsAscendingList (tabulate f n)
unfolding IsAscendingList tabulate
tabulate-IsAscendingList f zero h = tt
tabulate-IsAscendingList f (suc n) h = (
  AllAbove-tabulate (f 0).0 (λ i. f (suc i)) n λ i p. h 0 (suc i) (omega arith) (omega arith),
  tabulate-IsAscendingList (λ i. f (suc i)) n
      λ i j p q. h (suc i) (suc j) (omega arith) (omega arith),
)

AllAbove-at : (k : ℕ) (f : ℕ → ℕ × ℕ) (n i : ℕ) → AllAbove k (tabulate f n) → i < n → k < (f i).0
unfolding AllAbove tabulate
AllAbove-at k f zero i h lt = absurd (omega arith)
AllAbove-at k f (suc n) zero h lt = h.0
AllAbove-at k f (suc n) (suc i) h lt = AllAbove-at k (λ i. f (suc i)) n i h.1 (omega arith)

pub IsAscendingList-at :
    (f : ℕ → ℕ × ℕ) (n i j : ℕ) → IsAscendingList (tabulate f n) → i < j → j < n → (f i).0 < (f j).0
unfolding IsAscendingList tabulate
IsAscendingList-at f zero i j h lt p = absurd (omega arith)
IsAscendingList-at f (suc n) i zero h lt p = absurd (omega arith)
IsAscendingList-at f (suc n) zero (suc j) h lt p =
    AllAbove-at (f 0).0 (λ i. f (suc i)) n j h.0 (omega arith)
IsAscendingList-at f (suc n) (suc i) (suc j) h lt p =
    IsAscendingList-at (λ i. f (suc i)) n i j h.1 (omega arith) (omega arith)

pub tabulate-Splits :
    (k : ℕ) (f : ℕ → ℕ × ℕ) (n pos : ℕ)
    → ((i : ℕ) → i < pos → i < n → (f i).0 < k)
    → ((i : ℕ) → pos ≤ i → i < n → k < (f i).0)
    → Splits k pos (tabulate f n)
unfolding Splits tabulate
tabulate-Splits k f n zero below above = AllAbove-tabulate k f n (λ i p. above i (omega arith) p)
tabulate-Splits k f zero (suc pos) below above = tt
tabulate-Splits k f (suc n) (suc pos) below above = (
  below 0 (omega arith) (omega arith),
  tabulate-Splits k (λ i. f (suc i)) n pos (λ i p q. below (suc i) (omega arith) (omega arith))
      λ i p q. above (suc i) (omega arith) (omega arith),
)

-- Removing a position unmaps its key, and no other key.
pub lookup-remove_at :
    (f : ℕ → ℕ × ℕ) (n pos j : ℕ)
    → pos < n
    → IsAscendingList (tabulate f n)
    → lookup j (remove_at pos (tabulate f n))
      ≡ (if j == (f pos).0 then none else lookup j (tabulate f n))
unfolding tabulate remove_at lookup IsAscendingList
lookup-remove_at f zero pos j lt h = absurd (omega arith)
lookup-remove_at f (suc n) zero j lt h = elim (Bool-cases (j == (f 0).0)) [
  | inl same ↦ rw same (
      lookup-AllAbove (f 0).0 j (tabulate (λ i. f (suc i)) n) (omega (arith, ==→eq j (f 0).0 same))
        h.0)
  | inr other ↦ rw (other, ne→== (f 0).0 j (λ e. ==→ne j (f 0).0 other (sym e))) refl
]
lookup-remove_at f (suc n) (suc pos) j lt h = elim (Bool-cases ((f 0).0 == j)) [
  | inl hit ↦
      let d : (j == (f (suc pos)).0) ≡ false = ne→== j (f (suc pos)).0 (
        omega (
          arith,
          ==→eq (f 0).0 j hit,
          AllAbove-at (f 0).0 (λ i. f (suc i)) n pos h.0 (omega arith),
        )) in
      rw (hit, d) refl
  | inr miss ↦ rw miss (lookup-remove_at (λ i. f (suc i)) n pos j (omega arith) h.1)
]
