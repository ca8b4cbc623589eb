-- ===== src/SortBuffer/AsMap.antt =====
-- A sorted buffer of src/sortbuffer.h as a finite map: what a search followed by `Put` or by `Delete`
-- does to it, as src/clevel.cc combines them.

use combotree_new.Prelude.{
  ℕ, ◌+◌, ◌*◌, ◌^◌, ◌<◌, ◌≡◌, arith, ap, ◌∙◌, sym, subst, Bool, true, false, Option, none, some,
  ◌==◌, if◌then◌else◌,
}
use combotree_new.Bisect.{Locates}
use combotree_new.Word.{word_mod}
use combotree_new.Slots.{prefix_of}
use combotree_new.Slots.Writes.{suffix}
use combotree_new.PmemKv.{lookup}
use combotree_new.SortedPairs.{
  IsAscendingList, Splits, lookup-insert_at, insert_at-IsAscendingList, remove_at-IsAscendingList,
  tabulate-IsAscendingList, IsAscendingList-at, tabulate-Splits, lookup-remove_at,
}
use combotree_new.SortBuffer.{SortBuffer, index, find, sort_key, put, delete}
use combotree_new.SortBuffer.Valid.{IsValid}
use combotree_new.SortBuffer.View.{pairs, pair_at}
use combotree_new.SortBuffer.Search.{IsSorted, sort_key-eq, sort_key-IsAscending, find_total}
use combotree_new.SortBuffer.Put.{put-IsValid, put-fields, put-pairs}
use combotree_new.SortBuffer.Delete.{delete-IsValid, delete-pairs, delete-suffix_bytes}

-- The keys that share the prefix of `p`.
abbrev pub HasPrefix : ℕ → ℕ → ℕ → Type 0
HasPrefix s p key = (key < word_mod) × (prefix_of s key ≡ prefix_of s p)

-- A key of the owner's prefix reads the same through its own prefix.
pub sort_key-prefix :
    (v : ℕ) (b : SortBuffer) (i p key : ℕ)
    → IsValid v b
    → p < word_mod
    → HasPrefix b.suffix_bytes p key
    → sort_key b i key ≡ sort_key b i p
sort_key-prefix v b i p key h hp (hk, same) =
    sort_key-eq v b i key h hk
    ∙ ap (λ (q : ℕ). q * 256 ^ b.suffix_bytes + suffix b.buf b.suffix_bytes (index b i)) same
    ∙ sym (sort_key-eq v b i p h hp)

pub pairs-IsAscendingList :
    (v : ℕ) (b : SortBuffer) (p : ℕ)
    → IsValid v b
    → IsSorted b
    → p < word_mod
    → IsAscendingList (pairs v b p)
unfolding pairs pair_at
pairs-IsAscendingList v b p h s hp =
    tabulate-IsAscendingList (pair_at v b p) b.entries (sort_key-IsAscending v b p h s hp)

pub IsAscendingList-IsSorted :
    (v : ℕ) (b : SortBuffer) (p : ℕ)
    → IsValid v b
    → p < word_mod
    → IsAscendingList (pairs v b p)
    → IsSorted b
unfolding pairs pair_at
IsAscendingList-IsSorted v b p h hp up i j lt hj = omega (
  arith,
  IsAscendingList-at (pair_at v b p) b.entries i j up lt hj,
  sort_key-eq v b i p h hp,
  sort_key-eq v b j p h hp,
)

-- `c` is well formed and sorted as `b` is, and maps what `b` maps, but the key to `new`.
pub record Changes (v p : ℕ) (b c : SortBuffer) (key : ℕ) (new : Option ℕ) : Type 0 where
  pub valid : IsValid v c
  pub sorted : IsSorted c
  pub suffix_kept : c.suffix_bytes ≡ b.suffix_bytes
  pub maps : (j : ℕ) → lookup j (pairs v c p) ≡ (if j == key then new else lookup j (pairs v b p))

value_or : ℕ × Bool → Option (ℕ × Bool) → ℕ × Bool
value_or d none = d
value_or d (some r) = r

module _ (v p : ℕ) (b : SortBuffer) (key pos : ℕ) (h : IsValid v b) (s : IsSorted b)
    (hp : p < word_mod) (pre : HasPrefix b.suffix_bytes p key) where
  pub find-Locates :
      (hit : Bool)
      → find b key ≡ some (pos, hit)
      → Locates (λ i. sort_key b i key) key b.entries (pos, hit)
  unfolding value_or
  find-Locates hit e =
      let (r, f, at) = find_total v b key h s pre.0 in
      subst (Locates (λ i. sort_key b i key) key b.entries) (ap (value_or (0, true)) (sym f ∙ e)) at

  find-Splits : find b key ≡ some (pos, false) → Splits key pos (pairs v b p)
  unfolding pairs pair_at
  find-Splits e =
      let at = find-Locates false e in
      tabulate-Splits key (pair_at v b p) b.entries pos
        (λ i lt q. omega (arith, at.1 i lt, sort_key-prefix v b i p key h hp pre))
        λ i le q. omega (arith, at.2 i le q, sort_key-prefix v b i p key h hp pre)

  -- In a well-formed sorted buffer that is not full, Put at the position that Find gives for an
  -- absent key of the owner's prefix, with a value that fits, keeps the buffer well formed and
  -- sorted, maps the key to the value and changes no other key.
  pub put-Changes :
      (x : ℕ)
      → b.entries < b.max_entries
      → x < 256 ^ v
      → find b key ≡ some (pos, false)
      → Changes v p b (put v b pos key x) key (some x)
  put-Changes x room hx e =
      let at = find-Locates false e in
      let cut = find-Splits e in
      let valid = put-IsValid v b pos key x h room at.0 in
      let after = put-pairs v b pos key x h room at.0 p hp pre.0 pre.1 hx in
      record {
        valid = valid;
        sorted = IsAscendingList-IsSorted v (put v b pos key x) p valid hp (
            subst IsAscendingList (sym after) (
              insert_at-IsAscendingList key x pos (pairs v b p) cut
                (pairs-IsAscendingList v b p h s hp)));
        suffix_kept = (put-fields v b pos key x h room at.0).1;
        maps = λ j. ap (lookup j) after ∙ lookup-insert_at key x pos j (pairs v b p) cut;
      }

  -- In a well-formed sorted buffer, Delete at the position where Find finds a key of the owner's
  -- prefix keeps the buffer well formed and sorted, unmaps the key and changes no other key.
  pub delete-Changes : find b key ≡ some (pos, true) → Changes v p b (delete b pos) key none
  unfolding pairs pair_at
  delete-Changes e =
      let at = find-Locates true e in
      let valid = delete-IsValid v b pos h at.0 in
      let after = delete-pairs v b pos p h at.0 hp in
      let up = pairs-IsAscendingList v b p h s hp in
      let here : sort_key b pos p ≡ key = sym (sort_key-prefix v b pos p key h hp pre) ∙ at.1 in
      record {
        valid = valid;
        sorted =
            IsAscendingList-IsSorted v (delete b pos) p valid hp
              (subst IsAscendingList (sym after) (remove_at-IsAscendingList pos (pairs v b p) up));
        suffix_kept = delete-suffix_bytes v b pos h at.0;
        maps = λ j.
            ap (lookup j) after
            ∙ lookup-remove_at (pair_at v b p) b.entries pos j at.0 up
            ∙ ap (λ (q : ℕ). if j == q then none else lookup j (pairs v b p)) here;
      }
