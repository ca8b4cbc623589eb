-- ===== src/SortBuffer/View.antt =====
-- What a buffer of src/sortbuffer.h stands for: the list of its pairs in sorted order, for the
-- prefix `p` of its owner, and what the operations do to such a list.
use combotree_new.Prelude.{ℕ, ◌+◌, ◌*◌, ◌^◌, ◌<◌, ◌≡◌, List}
use mathlib.Core.Path.{ap₂}
use combotree_new.Word.{word_mod}
use combotree_new.Slots.{prefix_of, read_key-eq, read_value-eq}
use combotree_new.Slots.Writes.{suffix, payload}
use combotree_new.SortBuffer.{SortBuffer, index, sort_key, sort_value, key, value}
use combotree_new.SortBuffer.Valid.{IsValid}
use combotree_new.Sequence.{tabulate}

-- The pair at a sorted position.
unfoldable pub pair_at : ℕ → SortBuffer → ℕ → ℕ → ℕ × ℕ
pair_at v b p i = (sort_key b i p, sort_value v b i)

unfoldable pub pairs : ℕ → SortBuffer → ℕ → List (ℕ × ℕ)
unfolding pair_at
pairs v b p = tabulate (pair_at v b p) b.entries

-- The same from the stored bytes.
pub pair_at-eq :
    (v : ℕ) (b : SortBuffer) (p i : ℕ)
    → IsValid v b
    → p < word_mod
    → pair_at v b p i ≡ (
      prefix_of b.suffix_bytes p * 256 ^ b.suffix_bytes + suffix b.buf b.suffix_bytes (index b i),
      payload b.buf v (index b i),
    )
unfolding pair_at sort_key sort_value key value
pair_at-eq v b p i h small =
    ap₂ (λ (q r : ℕ). (q, r))
      (read_key-eq b.buf b.prefix_bytes b.suffix_bytes (index b i) p h.widths small)
      (read_value-eq b.buf v (index b i) h.value_fits)
