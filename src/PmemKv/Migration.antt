-- ===== src/PmemKv/Migration.antt =====
-- The hand-over of src/pmemkv.h in src/combotree.cc: any number of threads in `Put`, and the thread in
-- `ChangeToComboTree_` that forbids writing, waits until no writer holds a reference, and scans.
-- The atomic operations interleave in one order that all threads see, as if they were sequentially
-- consistent, which the source does not ask for: it stores `write_valid_` with release. Each step below is one of them. `entered`, `admitted`,
-- `written` and `refused` count the threads that stand after `WriteRef_`, after the test of
-- `write_valid_`, after the write to `kv_data` and after `return status::Failed`.
use combotree_new.Prelude.{
  ℕ, ◌+◌, ◌-◌, ◌≡◌, ◌<◌, refl, arith, ◌∙◌, sym, Bool, true, false, List, ==→eq, subst, Bool-cases,
  inl, inr, if◌then◌else◌,
}
use combotree_new.PmemKv.{PmemKv, upsert, put, no_write_ref, set_write_valid, fresh}

pub data Phase : Type 0 where
  open_to_writes : Phase
  waiting : Phase  -- in the loop `while (!pmemkv_->NoWriteRef())`
  scanned : List (ℕ × ℕ) → Phase

pub record World : Type 0 where
  pub store : PmemKv
  pub entered : ℕ
  pub admitted : ℕ
  pub written : ℕ
  pub refused : ℕ
  pub phase : Phase

abbrev pub start : World
start = record {
  store = fresh;
  entered = 0;
  admitted = 0;
  written = 0;
  refused = 0;
  phase = open_to_writes;
}

abbrev with_ref : PmemKv → ℕ → PmemKv
with_ref s n = record s { write_ref = n }

pub data Step : World → World → Type 0 where
  enter :
      {w : World}
      → Step w
          (record w { store = with_ref w.store (w.store.write_ref + 1); entered = w.entered + 1 })
  admit :
      {w : World}
      → 0 < w.entered
      → w.store.write_valid ≡ true
      → Step w (record w { entered = w.entered - 1; admitted = w.admitted + 1 })
  refuse :
      {w : World}
      → 0 < w.entered
      → w.store.write_valid ≡ false
      → Step w (record w { entered = w.entered - 1; refused = w.refused + 1 })
  write :
      {w : World} (k x : ℕ)
      → 0 < w.admitted
      → Step w (record w {
        store = record (w.store) { kv_data = upsert k x w.store.kv_data };
        admitted = w.admitted - 1;
        written = w.written + 1;
      })
  leave :
      {w : World}
      → 0 < w.written
      → Step w
          (record w { store = with_ref w.store (w.store.write_ref - 1); written = w.written - 1 })
  forbid :
      {w : World}
      → w.phase ≡ open_to_writes
      → Step w (record w { store = set_write_valid w.store false; phase = waiting })
  scan_all :
      {w : World}
      → w.phase ≡ waiting
      → no_write_ref w.store ≡ true
      → Step w (record w { phase = scanned w.store.kv_data })

pub data Steps : World → World → Type 0 where
  done : {w : World} → Steps w w
  next : {w v u : World} → Steps w v → Step v u → Steps w u

-- What each phase promises of the flag, the writers and the data.
unfoldable pub Held : Phase → Bool → ℕ → ℕ → List (ℕ × ℕ) → Type 0
Held open_to_writes valid admitted written kvs = valid ≡ true
Held waiting valid admitted written kvs = valid ≡ false
Held (scanned seen) valid admitted written kvs =
    (valid ≡ false) × (admitted ≡ 0) × (written ≡ 0) × (kvs ≡ seen)

pub record IsCounted (w : World) : Type 0 where
  pub refs : w.store.write_ref ≡ w.entered + w.admitted + w.written + w.refused
  pub held : Held w.phase w.store.write_valid w.admitted w.written w.store.kv_data

Held-admit :
    (p : Phase) (valid : Bool) (a n : ℕ) (kvs : List (ℕ × ℕ))
    → valid ≡ true
    → Held p valid a n kvs
    → Held p valid (a + 1) n kvs
unfolding Held
Held-admit open_to_writes valid a n kvs e h = h
Held-admit waiting valid a n kvs e h = h
Held-admit (scanned seen) valid a n kvs e h = absurd (cc (sym e ∙ h.0))

Held-write :
    (p : Phase) (valid : Bool) (a n k x : ℕ) (kvs : List (ℕ × ℕ))
    → 0 < a
    → Held p valid a n kvs
    → Held p valid (a - 1) (n + 1) (upsert k x kvs)
unfolding Held
Held-write open_to_writes valid a n k x kvs lt h = h
Held-write waiting valid a n k x kvs lt h = h
Held-write (scanned seen) valid a n k x kvs lt h = absurd (omega arith)

Held-leave :
    (p : Phase) (valid : Bool) (a n : ℕ) (kvs : List (ℕ × ℕ))
    → 0 < n
    → Held p valid a n kvs
    → Held p valid a (n - 1) kvs
unfolding Held
Held-leave open_to_writes valid a n kvs lt h = h
Held-leave waiting valid a n kvs lt h = h
Held-leave (scanned seen) valid a n kvs lt h = absurd (omega arith)

Held-scan :
    (p : Phase) (valid : Bool) (a n : ℕ) (kvs : List (ℕ × ℕ))
    → p ≡ waiting
    → a ≡ 0
    → n ≡ 0
    → Held p valid a n kvs
    → Held (scanned kvs) valid a n kvs
unfolding Held
Held-scan p valid a n kvs e ha hn h =
    let shut : valid ≡ false = subst (λ q. Held q valid a n kvs) e h in (shut, ha, hn, refl)

Step-IsCounted : {w u : World} → Step w u → IsCounted w → IsCounted u
Step-IsCounted {w = w} enter h = record { refs = omega (arith, h.refs); held = h.held }
Step-IsCounted {w = w} (admit lt valid) h = record {
  refs = omega (arith, h.refs);
  held = Held-admit w.phase w.store.write_valid w.admitted w.written w.store.kv_data valid h.held;
}
Step-IsCounted {w = w} (refuse lt valid) h = record { refs = omega (arith, h.refs); held = h.held }
Step-IsCounted {w = w} (write k x lt) h = record {
  refs = omega (arith, h.refs);
  held = Held-write w.phase w.store.write_valid w.admitted w.written k x w.store.kv_data lt h.held;
}
Step-IsCounted {w = w} (leave lt) h = record {
  refs = omega (arith, h.refs);
  held = Held-leave w.phase w.store.write_valid w.admitted w.written w.store.kv_data lt h.held;
}
Step-IsCounted {w = w} (forbid e) h =
    unfold set_write_valid in unfold Held in record { refs = h.refs; held = refl }
Step-IsCounted {w = w} (scan_all e none_left) h =
    let zero_refs : w.store.write_ref ≡ 0 =
      unfold no_write_ref in ==→eq w.store.write_ref 0 none_left in
    record {
      refs = h.refs;
      held =
          Held-scan w.phase w.store.write_valid w.admitted w.written w.store.kv_data e
            (omega (arith, h.refs)) (omega (arith, h.refs)) h.held;
    }

start-IsCounted : IsCounted start
unfolding Held
start-IsCounted = record { refs = refl; held = refl }

Steps-IsCounted : {w u : World} → Steps w u → IsCounted w → IsCounted u
Steps-IsCounted done h = h
Steps-IsCounted (next before step) h = Step-IsCounted step (Steps-IsCounted before h)

Step-stuck :
    {w u : World}
    → Step w u
    → IsCounted w
    → w.phase ≡ waiting
    → 0 < w.refused
    → (u.phase ≡ waiting) × (0 < u.refused)
Step-stuck enter h e lt = (e, lt)
Step-stuck (admit p q) h e lt = (e, lt)
Step-stuck (refuse p q) h e lt = (e, omega arith)
Step-stuck (write k x p) h e lt = (e, lt)
Step-stuck (leave p) h e lt = (e, lt)
Step-stuck (forbid p) h e lt = (refl, lt)
Step-stuck {w = w} (scan_all p none_left) h e lt =
    let zero_refs : w.store.write_ref ≡ 0 =
      unfold no_write_ref in ==→eq w.store.write_ref 0 none_left in
    absurd (omega (arith, h.refs))

Steps-stuck :
    {w u : World}
    → Steps w u
    → IsCounted w
    → w.phase ≡ waiting
    → 0 < w.refused
    → (u.phase ≡ waiting) × (0 < u.refused)
Steps-stuck done h e lt = (e, lt)
Steps-stuck (next before step) h e lt =
    let b = Steps-stuck before h e lt in Step-stuck step (Steps-IsCounted before h) b.0 b.1

-- If in a reachable state the migration waits for the writers and a writer has been refused, then
-- it waits in every later state.
pub refused-stuck :
    (w u : World)
    → Steps start w
    → w.phase ≡ waiting
    → 0 < w.refused
    → Steps w u
    → u.phase ≡ waiting
refused-stuck w u before e lt after =
    (Steps-stuck after (Steps-IsCounted before start-IsCounted) e lt).0

-- A whole Put is a path of the atomic steps that ends in the store of Put, in the same phase, and
-- with one more refused thread exactly where writing is forbidden.
pub put-Steps :
    (w : World) (k x : ℕ)
    → (u : World) × Steps w u
      × (u.store ≡ (put w.store k x).0)
      × (u.phase ≡ w.phase)
      × (u.entered ≡ w.entered)
      × (u.admitted ≡ w.admitted)
      × (u.written ≡ w.written)
      × (u.refused ≡ (if w.store.write_valid then w.refused else w.refused + 1))
unfolding put
put-Steps w k x = elim (Bool-cases w.store.write_valid) [
  | inl valid ↦ (
    _,
    next (next (next (next done enter) (admit (omega arith) valid)) (write k x (omega arith)))
        (leave (omega arith)),
    rw valid refl,
    refl,
    omega arith,
    omega arith,
    omega arith,
    rw valid refl,
  )
  | inr invalid ↦ (
    _,
    next (next done enter) (refuse (omega arith) invalid),
    rw invalid refl,
    refl,
    omega arith,
    refl,
    refl,
    rw invalid refl,
  )
]
