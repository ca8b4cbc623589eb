-- ===== src/PmemKv/Map.antt =====
-- The map of src/pmemkv.h: what a key is mapped to after each change, and that no key is repeated.
use combotree_new.Prelude.{
  ℕ, ◌≡◌, refl, ap, ◌∙◌, sym, Bool, true, false, Option, none, some, List, [], ◌∷◌, ◌==◌,
  if◌then◌else◌, Bool-cases, inl, inr, ==→eq, ==→ne, ne→==,
}
use combotree_new.PmemKv.{PmemKv, upsert, lookup, erase, put, delete, get, found}

-- What lookup finds after `kv_data[k] = x`.
pub lookup-upsert :
    (j k x : ℕ) (kvs : List (ℕ × ℕ))
    → lookup j (upsert k x kvs) ≡ (if k == j then some x else lookup j kvs)
unfolding lookup upsert
lookup-upsert j k x [] = refl
lookup-upsert j k x ((i, y) ∷ rest) = elim (Bool-cases (i == k)) [
  | inl same ↦
      let e = ==→eq i k same in
      elim (Bool-cases (k == j)) [
        | inl hit ↦ rw (same, hit) refl
        | inr miss ↦ rw (same, miss, e, miss) refl
      ]
  | inr other ↦ elim (Bool-cases (i == j)) [
    | inl hit ↦
        let d : (k == j) ≡ false = ne→== k j (λ e. ==→ne i k other (==→eq i j hit ∙ sym e)) in
        rw (other, hit, d) refl
    | inr miss ↦ rw (other, miss) (lookup-upsert j k x rest)
  ]
]

-- The keys are all different.
unfoldable pub IsMap : List (ℕ × ℕ) → Type 0
unfolding lookup
IsMap [] = Unit
IsMap ((k, x) ∷ rest) = (lookup k rest ≡ none) × IsMap rest

-- What lookup finds after `erase`.
pub lookup-erase :
    (j k : ℕ) (kvs : List (ℕ × ℕ))
    → IsMap kvs
    → lookup j (erase k kvs) ≡ (if k == j then none else lookup j kvs)
unfolding lookup erase IsMap
lookup-erase j k [] h = elim (Bool-cases (k == j)) [
  | inl hit ↦ rw hit refl
  | inr miss ↦ rw miss refl
]
lookup-erase j k ((i, y) ∷ rest) (fresh, h) = elim (Bool-cases (i == k)) [
  | inl same ↦
      let e = ==→eq i k same in
      elim (Bool-cases (k == j)) [
        | inl hit ↦ rw (same, hit) (ap (λ (q : ℕ). lookup q rest) (sym (e ∙ ==→eq k j hit)) ∙ fresh)
        | inr miss ↦ rw (same, miss, e, miss) refl
      ]
  | inr other ↦ elim (Bool-cases (i == j)) [
    | inl hit ↦
        let d : (k == j) ≡ false = ne→== k j (λ e. ==→ne i k other (==→eq i j hit ∙ sym e)) in
        rw (other, hit, d) refl
    | inr miss ↦ rw (other, miss) (lookup-erase j k rest h)
  ]
]

pub upsert-IsMap : (k x : ℕ) (kvs : List (ℕ × ℕ)) → IsMap kvs → IsMap (upsert k x kvs)
unfolding lookup upsert IsMap
upsert-IsMap k x [] h = (refl, tt)
upsert-IsMap k x ((i, y) ∷ rest) (fresh, h) = elim (Bool-cases (i == k)) [
  | inl same ↦ rw same (ap (λ (q : ℕ). lookup q rest) (sym (==→eq i k same)) ∙ fresh, h)
  | inr other ↦
      let d : (k == i) ≡ false = ne→== k i (λ e. ==→ne i k other (sym e)) in
      rw other (lookup-upsert i k x rest ∙ rw d fresh, upsert-IsMap k x rest h)
]

pub erase-IsMap : (k : ℕ) (kvs : List (ℕ × ℕ)) → IsMap kvs → IsMap (erase k kvs)
unfolding lookup erase IsMap
erase-IsMap k [] h = tt
erase-IsMap k ((i, y) ∷ rest) (fresh, h) = elim (Bool-cases (i == k)) [
  | inl same ↦ rw same h
  | inr other ↦
      let d : (k == i) ≡ false = ne→== k i (λ e. ==→ne i k other (sym e)) in
      rw other (lookup-erase i k rest h ∙ rw d fresh, erase-IsMap k rest h)
]

put-kv_data :
    (s : PmemKv) (k x : ℕ) → s.write_valid ≡ true → (put s k x).0.kv_data ≡ upsert k x s.kv_data
unfolding put
put-kv_data s k x valid = rw valid refl

delete-kv_data :
    (s : PmemKv) (k : ℕ) → s.write_valid ≡ true → (delete s k).0.kv_data ≡ erase k s.kv_data
unfolding delete
delete-kv_data s k valid = rw valid refl

found-if :
    (old : ℕ) (b : Bool) (p q : Option ℕ)
    → found old (if b then p else q) ≡ (if b then found old p else found old q)
found-if old true p q = refl
found-if old false p q = refl

-- In a store that takes writes, Get after Put returns the new value for the key, and for another
-- key what Get returned before.
pub get-put :
    (s : PmemKv) (k x j old : ℕ)
    → s.write_valid ≡ true
    → get (put s k x).0 j old ≡ (if k == j then (x, true) else get s j old)
unfolding get
get-put s k x j old valid =
    ap (λ t. found old (lookup j t)) (put-kv_data s k x valid)
    ∙ ap (found old) (lookup-upsert j k x s.kv_data)
    ∙ found-if old (k == j) (some x) (lookup j s.kv_data)

-- In a store that takes writes and repeats no key, Get after Delete returns true and leaves the
-- variable alone for the key, and for another key returns what it returned before.
pub get-delete :
    (s : PmemKv) (k j old : ℕ)
    → s.write_valid ≡ true
    → IsMap s.kv_data
    → get (delete s k).0 j old ≡ (if k == j then (old, true) else get s j old)
unfolding get
get-delete s k j old valid h =
    ap (λ t. found old (lookup j t)) (delete-kv_data s k valid)
    ∙ ap (found old) (lookup-erase j k s.kv_data h)
    ∙ found-if old (k == j) none (lookup j s.kv_data)
