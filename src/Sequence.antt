-- ===== src/Sequence.antt =====
-- Lists given by a function of the position, and insertion, removal, front and rest of such a list:
-- what the buffers' operations do to the sequences that they stand for.
use mathlib.Core.Path.{ap₂}
use combotree_new.Prelude.{
  ℕ, zero, suc, ◌+◌, ◌≤◌, ◌<◌, ◌≡◌, refl, arith, ap, ◌∙◌, List, [], ◌∷◌, length, take, drop, set,
  ◌++◌, ◌≢◌,
}

module _ {ℓ} {A : Type ℓ} where
  unfoldable pub tabulate : (ℕ → A) → ℕ → List A
  tabulate f zero = []
  tabulate f (suc n) = f 0 ∷ tabulate (λ i. f (suc i)) n

  unfoldable pub insert_at : ℕ → A → List A → List A
  insert_at zero e xs = e ∷ xs
  insert_at (suc i) e [] = e ∷ []
  insert_at (suc i) e (x ∷ xs) = x ∷ insert_at i e xs

  unfoldable pub remove_at : ℕ → List A → List A
  remove_at i [] = []
  remove_at zero (x ∷ xs) = xs
  remove_at (suc i) (x ∷ xs) = x ∷ remove_at i xs

module _ {ℓ} {A : Type ℓ} where
  pub tabulate_ext :
      (f g : ℕ → A) (n : ℕ) → ((i : ℕ) → i < n → f i ≡ g i) → tabulate f n ≡ tabulate g n
  unfolding tabulate
  tabulate_ext f g zero h = refl
  tabulate_ext f g (suc n) h =
      ap₂ ◌∷◌ (h 0 (omega arith))
        (tabulate_ext (λ i. f (suc i)) (λ i. g (suc i)) n (λ i p. h (suc i) (omega arith)))

  pub length-tabulate : (f : ℕ → A) (n : ℕ) → length (tabulate f n) ≡ n
  unfolding tabulate
  length-tabulate f zero = refl
  length-tabulate f (suc n) = ap suc (length-tabulate (λ i. f (suc i)) n)

  pub tabulate-insert_at :
      (g f : ℕ → A) (e : A) (n pos : ℕ)
      → pos ≤ n
      → ((i : ℕ) → i < pos → g i ≡ f i)
      → g pos ≡ e
      → ((i : ℕ) → pos ≤ i → i < n → g (suc i) ≡ f i)
      → tabulate g (suc n) ≡ insert_at pos e (tabulate f n)
  unfolding tabulate insert_at
  tabulate-insert_at g f e n zero le below at above =
      ap₂ ◌∷◌ at (tabulate_ext (λ i. g (suc i)) f n (λ i p. above i (omega arith) p))
  tabulate-insert_at g f e zero (suc pos) le below at above = absurd (omega arith)
  tabulate-insert_at g f e (suc n) (suc pos) le below at above = ap₂ ◌∷◌ (below 0 (omega arith)) (
      tabulate-insert_at (λ i. g (suc i)) (λ i. f (suc i)) e n pos (omega arith)
        (λ i p. below (suc i) (omega arith)) at λ i p q. above (suc i) (omega arith) (omega arith))

  pub tabulate-remove_at :
      (g f : ℕ → A) (n pos : ℕ)
      → pos ≤ n
      → ((i : ℕ) → i < pos → g i ≡ f i)
      → ((i : ℕ) → pos ≤ i → i < n → g i ≡ f (suc i))
      → tabulate g n ≡ remove_at pos (tabulate f (suc n))
  unfolding tabulate remove_at
  tabulate-remove_at g f n zero le below above =
      tabulate_ext g (λ i. f (suc i)) n (λ i p. above i (omega arith) p)
  tabulate-remove_at g f zero (suc pos) le below above = absurd (omega arith)
  tabulate-remove_at g f (suc n) (suc pos) le below above = ap₂ ◌∷◌ (below 0 (omega arith)) (
      tabulate-remove_at (λ i. g (suc i)) (λ i. f (suc i)) n pos (omega arith)
        (λ i p. below (suc i) (omega arith)) λ i p q. above (suc i) (omega arith) (omega arith))

  pub take-tabulate : (f : ℕ → A) (n k : ℕ) → k ≤ n → take k (tabulate f n) ≡ tabulate f k
  unfolding tabulate
  take-tabulate f n zero h = refl
  take-tabulate f zero (suc k) h = absurd (omega arith)
  take-tabulate f (suc n) (suc k) h =
      ap (λ t. f 0 ∷ t) (take-tabulate (λ i. f (suc i)) n k (omega arith))

  pub drop-tabulate :
      (f : ℕ → A) (n k c : ℕ) → k + c ≡ n → drop k (tabulate f n) ≡ tabulate (λ i. f (k + i)) c
  unfolding tabulate
  drop-tabulate f n zero c e =
      ap (tabulate f) {x = n} {y = c} (omega arith)
      ∙ tabulate_ext f (λ i. f (0 + i)) c (λ i p. ap f (omega arith))
  drop-tabulate f zero (suc k) c e = absurd (omega arith)
  drop-tabulate f (suc n) (suc k) c e =
      drop-tabulate (λ i. f (suc i)) n k c (omega arith)
      ∙ tabulate_ext (λ i. f (suc (k + i))) (λ i. f (suc k + i)) c (λ i p. ap f (omega arith))

  pub tabulate-append :
      (g f : ℕ → A) (e : A) (n : ℕ)
      → ((i : ℕ) → i < n → g i ≡ f i)
      → g n ≡ e
      → tabulate g (suc n) ≡ tabulate f n ++ e ∷ []
  unfolding tabulate
  tabulate-append g f e zero below last = ap (λ t. t ∷ []) last
  tabulate-append g f e (suc n) below last = ap₂ ◌∷◌ (below 0 (omega arith)) (
      tabulate-append (λ i. g (suc i)) (λ i. f (suc i)) e n (λ i p. below (suc i) (omega arith))
        last)

  -- One element is overwritten by `e`.
  pub tabulate-set :
      (g f : ℕ → A) (e : A) (n pos : ℕ)
      → ((i : ℕ) → i < n → i ≢ pos → g i ≡ f i)
      → (pos < n → g pos ≡ e)
      → tabulate g n ≡ set (tabulate f n) pos e
  unfolding tabulate
  tabulate-set g f e zero pos other here = refl
  tabulate-set g f e (suc n) zero other here = ap₂ ◌∷◌ (here (omega arith)) (
      tabulate_ext (λ i. g (suc i)) (λ i. f (suc i)) n
        (λ i p. other (suc i) (omega arith) (omega arith)))
  tabulate-set g f e (suc n) (suc pos) other here = ap₂ ◌∷◌ (other 0 (omega arith) (omega arith)) (
      tabulate-set (λ i. g (suc i)) (λ i. f (suc i)) e n pos
        (λ i p q. other (suc i) (omega arith) (λ r. q (omega arith))) λ p. here (omega arith))
