-- ===== src/Clevel/Tree.antt =====
-- The tree of src/clevel.cc as a finite map, and `Node::Get`.

use combotree_new.Prelude.{
  ℕ, zero, suc, ◌-◌, ◌≤◌, ◌<◌, ◌≡◌, ◌≢◌, refl, arith, ap, ◌∙◌, sym, Bool, true, false, Option, none,
  some, ◌==◌, if◌then◌else◌, Bool-cases, inl, inr, ne→==, ==→eq, ==→ne, ==-refl,
}
use combotree_new.Word.{word_mod}
use combotree_new.Sequence.{tabulate}
use combotree_new.PmemKv.{lookup}
use combotree_new.SortBuffer.{SortBuffer, find, find_le, sort_key, sort_value}
use combotree_new.SortBuffer.Valid.{IsValid}
use combotree_new.SortBuffer.View.{pairs, pair_at}
use combotree_new.SortBuffer.Search.{
  IsSorted, sort_key-IsAscending, find_total, find_le-Precedes, Precedes,
}
use combotree_new.SortBuffer.AsMap.{HasPrefix, sort_key-prefix}
use combotree_new.Bisect.{Locates}
use combotree_new.Clevel.{MemControl, leaf, index_node, is_leaf, get_child, find_leaf, get_node}

-- The first pair with the key is found, or none is.
pub lookup-tabulate :
    (f : ℕ → ℕ × ℕ) (key n pos : ℕ)
    → pos < n
    → (f pos).0 ≡ key
    → ((i : ℕ) → i < pos → (f i).0 ≢ key)
    → lookup key (tabulate f n) ≡ some (f pos).1
unfolding lookup tabulate
lookup-tabulate f key zero pos lt e before = absurd (omega arith)
lookup-tabulate f key (suc n) zero lt e before = rw (e, ==-refl key) refl
lookup-tabulate f key (suc n) (suc pos) lt e before =
    rw (ne→== (f 0).0 key (before 0 (omega arith))) (
      lookup-tabulate (λ i. f (suc i)) key n pos (omega arith) e
        λ i p. before (suc i) (omega arith))

pub lookup-tabulate-none :
    (f : ℕ → ℕ × ℕ) (key n : ℕ)
    → ((i : ℕ) → i < n → (f i).0 ≢ key)
    → lookup key (tabulate f n) ≡ none
unfolding lookup tabulate
lookup-tabulate-none f key zero apart = refl
lookup-tabulate-none f key (suc n) apart =
    rw (ne→== (f 0).0 key (apart 0 (omega arith)))
      (lookup-tabulate-none (λ i. f (suc i)) key n λ i p. apart (suc i) (omega arith))

-- The keys that belong to child `i` of an index node: at or above the keys before it, below the rest.
abbrev pub InPart : SortBuffer → ℕ → ℕ → Type 0
InPart b i key =
    ((j : ℕ) → j < i → sort_key b j key ≤ key)
    × ((j : ℕ) → i ≤ j → j < b.entries → key < sort_key b j key)

-- The tree of the given height at address `a` maps the keys of `In` as `m` does.
unfoldable pub Holds : MemControl → ℕ → ℕ → ℕ → (ℕ → Type 0) → (ℕ → Option ℕ) → Type 0
Holds mem p zero a In m =
    (((mem.nodes a).type ≡ leaf) × IsValid 8 (mem.nodes a).buf × IsSorted (mem.nodes a).buf)
    × ((key : ℕ) → In key → HasPrefix (mem.nodes a).buf.suffix_bytes p key)
    × ((key : ℕ) → In key → lookup key (pairs 8 (mem.nodes a).buf p) ≡ m key)
Holds mem p (suc height) a In m =
    (((mem.nodes a).type ≡ index_node) × IsValid 6 (mem.nodes a).buf × IsSorted (mem.nodes a).buf)
    × ((key : ℕ) → In key → key < word_mod)
    × ((i : ℕ)
        → i ≤ (mem.nodes a).buf.entries
        → Holds mem p height (get_child (mem.nodes a) i)
            (λ key. In key × InPart (mem.nodes a).buf i key) m)

-- What `Get` does in a leaf.
pub find-lookup :
    (b : SortBuffer) (p key : ℕ)
    → IsValid 8 b
    → IsSorted b
    → p < word_mod
    → HasPrefix b.suffix_bytes p key
    → (r : ℕ × Bool) × (find b key ≡ some r)
      × ((if r.1 then some (sort_value 8 b r.0) else none) ≡ lookup key (pairs 8 b p))
unfolding pairs pair_at
find-lookup b p key h s hp pre = go (find_total 8 b key h s pre.0)
  where
    up : (i j : ℕ) → i < j → j < b.entries → sort_key b i key < sort_key b j key
    up = sort_key-IsAscending 8 b key h s pre.0

    go :
        ((r : ℕ × Bool) × (find b key ≡ some r) × Locates (λ i. sort_key b i key) key b.entries r)
        → (r : ℕ × Bool) × (find b key ≡ some r)
          × ((if r.1 then some (sort_value 8 b r.0) else none) ≡ lookup key (pairs 8 b p))
    go ((pos, true), e, at) = (
      (pos, true),
      e,
      sym (
          lookup-tabulate (pair_at 8 b p) key b.entries pos at.0
            (sym (sort_key-prefix 8 b pos p key h hp pre) ∙ at.1)
            λ i q r. omega (arith, at.1, up i pos q at.0, sort_key-prefix 8 b i p key h hp pre)),
    )
    go ((pos, false), e, at) = (
      (pos, false),
      e,
      sym (
          lookup-tabulate-none (pair_at 8 b p) key b.entries
            λ i q r. grind (arith, at.1 i, at.2 i, sort_key-prefix 8 b i p key h hp pre)),
    )

-- `FindLE` names the child to which a key belongs.
pub find_le-InPart :
    (v : ℕ) (b : SortBuffer) (key : ℕ)
    → IsValid v b
    → IsSorted b
    → key < word_mod
    → ((find_le b key).0 ≤ b.entries) × InPart b (find_le b key).0 key
find_le-InPart v b key h s small = go (find_le b key) (find_le-Precedes v b key h s small)
  where
    up : (i j : ℕ) → i < j → j < b.entries → sort_key b i key < sort_key b j key
    up = sort_key-IsAscending v b key h s small

    go :
        (r : ℕ × Bool)
        → Precedes (λ j. sort_key b j key) key b.entries r
        → (r.0 ≤ b.entries) × InPart b r.0 key
    go (r, true) (pos, le, hit) =
        (le, (λ j lt. below j lt, λ j q lt. omega (arith, up (r - 1) j (omega arith) lt, hit)))
      where
        below : (j : ℕ) → j < r → sort_key b j key ≤ key
        below j lt = elim (Bool-cases (j == (r - 1))) [
          | inl same ↦ omega (arith, ap (λ (q : ℕ). sort_key b q key) (==→eq j (r - 1) same), hit)
          | inr other ↦
              let d : j < r - 1 = ground (arith, ==→ne j (r - 1) other) in
              omega (arith, up j (r - 1) d (omega arith), hit)
        ]
    go (r, false) (le, below, above) = (le, (λ j lt. omega (arith, below j lt), above))

-- On a well-formed tree of an owner with a 64-bit key, with fuel above its height, Get of a key of
-- the tree's range ends and returns what the tree maps the key to.
pub get_node-Holds :
    (height fuel : ℕ) (mem : MemControl) (p a : ℕ) (In : ℕ → Type 0) (m : ℕ → Option ℕ) (key : ℕ)
    → Holds mem p height a In m
    → p < word_mod
    → In key
    → height < fuel
    → get_node fuel mem a key ≡ some (m key)
unfolding get_node find_leaf Holds is_leaf
get_node-Holds zero zero mem p a In m key h hp has lt = absurd (omega arith)
get_node-Holds (suc height) zero mem p a In m key h hp has lt = absurd (omega arith)
get_node-Holds zero (suc fuel) mem p a In m key ((kind, valid, sorted), pre, same) hp has lt =
    let (r, e, found) = find-lookup (mem.nodes a).buf p key valid sorted hp (pre key has) in
    rw (kind, e) (ap some (found ∙ same key has))
get_node-Holds (suc height) (suc fuel) mem p a In m key ((kind, valid, sorted), small, parts) hp has
      lt =
    let (le, part) = find_le-InPart 6 (mem.nodes a).buf key valid sorted (small key has) in
    rw kind (
      get_node-Holds height fuel mem p (get_child (mem.nodes a) (find_le (mem.nodes a).buf key).0)
        (λ k. In k × InPart (mem.nodes a).buf (find_le (mem.nodes a).buf key).0 k) m key
        (parts (find_le (mem.nodes a).buf key).0 le) hp (has, part) (omega arith))
