-- ===== src/Ledger/Delivery/Recovery.antt =====
-- `recover_restart_work` of src/personal_ai_brain/watched_ledger.py.
use personal_ai_brain.Prelude.{
  ℕ, ◌+◌, ◌≤◌, String, ◌≡◌, refl, ◌∙◌, false, some, List, [], ◌∷◌, ◌==◌, arith, str_eq, leb, ok,
  if◌then◌else◌, Option-cases, Bool-cases, inl, inr, ◌&&◌, map, keep, length, All, bind_ok,
}
use personal_ai_brain.Ledger.Schema.{Platform, DeliveryRow, Db}
use personal_ai_brain.Ledger.Ingest.{timestamp}
use personal_ai_brain.Ledger.Delivery.{
  recover_restart_work, quarantine_stale, is_stale, runnable_ids, insert_id, is_runnable,
}

-- In ascending order.
abbrev pub IsSorted : List ℕ → Type 0
IsSorted [] = Unit
IsSorted (n ∷ ns) = All (λ m. n ≤ m) ns × IsSorted ns

abbrev pub occurrences : ℕ → List ℕ → ℕ
occurrences n [] = 0
occurrences n (m ∷ ms) = (if m == n then 1 else 0) + occurrences n ms

occurrences-insert_id :
    (n m : ℕ) (ms : List ℕ)
    → occurrences n (insert_id m ms) ≡ (if m == n then 1 else 0) + occurrences n ms
unfolding insert_id
occurrences-insert_id n m [] = refl
occurrences-insert_id n m (k ∷ ms) = ground (arith, occurrences-insert_id n m ms)

All-insert_id :
    (k m : ℕ) (ms : List ℕ) → k ≤ m → All (λ j. k ≤ j) ms → All (λ j. k ≤ j) (insert_id m ms)
unfolding insert_id
All-insert_id k m [] h a = (h, tt)
All-insert_id k m (j ∷ ms) h a = ground (arith, All-insert_id k m ms h a.1)

All-weaken : (k m : ℕ) (ms : List ℕ) → k ≤ m → All (λ j. m ≤ j) ms → All (λ j. k ≤ j) ms
All-weaken k m [] h a = tt
All-weaken k m (j ∷ ms) h a = (omega arith, All-weaken k m ms h a.1)

insert_id-IsSorted : (m : ℕ) (ms : List ℕ) → IsSorted ms → IsSorted (insert_id m ms)
unfolding insert_id
insert_id-IsSorted m [] h = (tt, tt)
insert_id-IsSorted m (j ∷ ms) h = elim (Bool-cases (leb m j)) [
  | inl e ↦ rw e ((ground arith, All-weaken m j ms (ground arith) h.0), h)
  | inr e ↦ rw e (All-insert_id j m ms (ground arith) h.0, insert_id-IsSorted m ms h.1)
]

pub runnable_ids-IsSorted : (now : String) (ds : List DeliveryRow) → IsSorted (runnable_ids now ds)
unfolding runnable_ids
runnable_ids-IsSorted now [] = tt
runnable_ids-IsSorted now (d ∷ ds) = elim (Bool-cases (is_runnable now d)) [
  | inl e ↦ rw e (insert_id-IsSorted d.id (runnable_ids now ds) (runnable_ids-IsSorted now ds))
  | inr e ↦ rw e (runnable_ids-IsSorted now ds)
]

occurrences-runnable_ids :
    (now : String) (n : ℕ) (ds : List DeliveryRow)
    → occurrences n (runnable_ids now ds) ≡ length (keep (λ d. d.id == n && is_runnable now d) ds)
unfolding runnable_ids
occurrences-runnable_ids now n [] = refl
occurrences-runnable_ids now n (d ∷ ds) =
    ground
      (arith, occurrences-runnable_ids now n ds, occurrences-insert_id n d.id (runnable_ids now ds))

quarantine_stale-not_stale :
    (before : String) (d : DeliveryRow) → is_stale before (quarantine_stale before d) ≡ false
unfolding quarantine_stale is_stale
quarantine_stale-not_stale before d = ground arith

none_stale :
    (before : String) (ds : List DeliveryRow)
    → All (λ d. is_stale before d ≡ false) (map (quarantine_stale before) ds)
none_stale before [] = tt
none_stale before (d ∷ ds) = (quarantine_stale-not_stale before d, none_stale before ds)

unchanged :
    (before : String) (ds : List DeliveryRow)
    → All (λ d. is_stale before d ≡ false) ds
    → map (quarantine_stale before) ds ≡ ds
unfolding quarantine_stale
unchanged before [] h = refl
unchanged before (d ∷ ds) h = ground (arith, unchanged before ds h.1)

timestamp_ok :
    (p : Platform) (t v : String) (a b : Db)
    → timestamp p t a ≡ (ok v, b)
    → (b ≡ a) × (p.normalize t ≡ some v) × ((c : Db) → timestamp p t c ≡ (ok v, c))
unfolding timestamp
timestamp_ok p t v a b h = elim (Bool-cases (str_eq t "")) [
  | inl e ↦ absurd (ground arith)
  | inr e ↦ elim (Option-cases (p.normalize t)) [
    | inl f ↦ absurd (ground arith)
    | inr (w, f) ↦ (ground arith, ground arith, λ c. ground arith)
  ]
]

-- A recovery that returns has normalized both times and quarantined; its result is read after.
recover_shape :
    (p : Platform) (now before : String) (a b : Db) (ids : List ℕ)
    → recover_restart_work p now before a ≡ (ok ids, b)
    → (due : String) × (stale : String) × (p.normalize now ≡ some due)
      × (p.normalize before ≡ some stale)
      × (b ≡ record a { deliveries = map (quarantine_stale stale) a.deliveries })
      × (ids ≡ runnable_ids due b.deliveries)
      × ((c : Db)
          → recover_restart_work p now before c ≡ (
            ok (runnable_ids due (map (quarantine_stale stale) c.deliveries)),
            record c { deliveries = map (quarantine_stale stale) c.deliveries },
          ))
unfolding recover_restart_work
recover_shape p now before a b ids h =
    let (due, c, got, rest) = bind_ok (timestamp p now) _ a ids b h in
    let (stale, d, got', last) = bind_ok (timestamp p before) _ c ids b rest in
    let (same, norm, always) = timestamp_ok p now due a c got in
    let (same', norm', always') = timestamp_ok p before stale c d got' in
    (due, stale, norm, norm', ground arith, ground arith, λ e. rw (always e, always' e))

-- After a recovery no delivery is in flight since before the stale time; the numbers returned
-- are in order, and each stands there as often as a delivery of that number is pending, or in
-- `retry_wait` with a deadline that has come.
pub recover_restart_work-runnable :
    (p : Platform) (now before : String) (a b : Db) (ids : List ℕ)
    → recover_restart_work p now before a ≡ (ok ids, b)
    → (n : ℕ)
    → (due : String) × (stale : String) × (p.normalize now ≡ some due)
      × (p.normalize before ≡ some stale)
      × All (λ d. is_stale stale d ≡ false) b.deliveries
      × IsSorted ids
      × (occurrences n ids ≡ length (keep (λ d. d.id == n && is_runnable due d) b.deliveries))
recover_restart_work-runnable p now before a b ids h n =
    let (due, stale, norm, norm', wrote, read, _) = recover_shape p now before a b ids h in
    (
      due,
      stale,
      norm,
      norm',
      rw wrote (none_stale stale a.deliveries),
      rw read (runnable_ids-IsSorted due b.deliveries),
      rw read (occurrences-runnable_ids due n b.deliveries),
    )

-- A second recovery with the same times returns the same numbers and changes nothing.
pub recover_restart_work-again :
    (p : Platform) (now before : String) (a b : Db) (ids : List ℕ)
    → recover_restart_work p now before a ≡ (ok ids, b)
    → recover_restart_work p now before b ≡ (ok ids, b)
recover_restart_work-again p now before a b ids h =
    let (due, stale, _, _, wrote, read, always) = recover_shape p now before a b ids h in
    let same = unchanged stale b.deliveries (rw wrote (none_stale stale a.deliveries)) in
    always b ∙ rw (same, read) refl
