-- ===== src/Reconcile/Batch.antt =====
-- The loop over a batch in src/personal_ai_brain/tautulli_reconciliation.py.
use personal_ai_brain.Prelude.{
  ℕ, ◌≤◌, ◌<◌, max, leb, ◌≡◌, refl, ◌∙◌, ◌⊎◌, inl, inr, Bool-cases, Option, none, some, List, [],
  ◌∷◌, All, Result, ok, err, arith, if◌then◌else◌,
}
use personal_ai_brain.Ledger.Schema.{Db}
use personal_ai_brain.Ledger.Ingest.{IngestResult}
use personal_ai_brain.Reconcile.{
  SourceEvent, Failure, Counts, ReconciliationResult, Reconciler, cursor_value, insert_event,
  sort_events, count_known, count_status, store_cursor, record_cursor_error, is_known, ingest_event,
  after_event, run_batch,
}
use personal_ai_brain.Reconcile.Cursors.{
  cursor_value-store_cursor, cursor_value-record_cursor_error, cursor_value-cong, ingest_event-rest,
}

-- Each position is at most the ones behind it.
abbrev pub IsAscending : List SourceEvent → Type 0
IsAscending [] = Unit {0}
IsAscending (e ∷ es) = All (λ (f : SourceEvent). e.position ≤ f.position) es × IsAscending es

All-insert_event :
    (P : SourceEvent → Type 0) (e : SourceEvent) (es : List SourceEvent)
    → P e
    → All P es
    → All P (insert_event e es)
All-insert_event P e [] h k = (h, tt)
All-insert_event P e (f ∷ fs) h k = elim (Bool-cases (leb e.position f.position)) [
  | inl t ↦ rw t (h, k)
  | inr t ↦ rw t (k.0, All-insert_event P e fs h k.1)
]

All-insert_event_inv :
    (P : SourceEvent → Type 0) (e : SourceEvent) (es : List SourceEvent)
    → All P (insert_event e es)
    → P e × All P es
All-insert_event_inv P e [] h = h
All-insert_event_inv P e (f ∷ fs) h = elim (Bool-cases (leb e.position f.position)) [
  | inl t ↦ (let k = rw t at h in k)
  | inr t ↦
      (let k = rw t at h in let rest = All-insert_event_inv P e fs k.1 in (rest.0, (k.0, rest.1)))
]

-- What holds of every event once they are sorted holds of every event.
pub All-sort_events :
    (P : SourceEvent → Type 0) (es : List SourceEvent) → All P (sort_events es) → All P es
All-sort_events P [] h = h
All-sort_events P (e ∷ es) h =
    let k = All-insert_event_inv P e (sort_events es) h in (k.0, All-sort_events P es k.1)

All-weaken :
    (a b : ℕ) (es : List SourceEvent)
    → a ≤ b
    → All (λ (f : SourceEvent). b ≤ f.position) es
    → All (λ (f : SourceEvent). a ≤ f.position) es
All-weaken a b [] h k = tt
All-weaken a b (f ∷ fs) h k = (omega (arith, h, k.0), All-weaken a b fs h k.1)

insert_event-IsAscending :
    (e : SourceEvent) (es : List SourceEvent) → IsAscending es → IsAscending (insert_event e es)
insert_event-IsAscending e [] h = (tt, tt)
insert_event-IsAscending e (f ∷ fs) h = elim (Bool-cases (leb e.position f.position)) [
  | inl t ↦
      (let le : e.position ≤ f.position = ground arith in
        rw t ((le, All-weaken e.position f.position fs le h.0), h))
  | inr t ↦
      (let ge : f.position ≤ e.position = ground arith in
        rw t (
          All-insert_event (λ (g : SourceEvent). f.position ≤ g.position) e fs ge h.0,
          insert_event-IsAscending e fs h.1,
        ))
]

pub sort_events-IsAscending : (es : List SourceEvent) → IsAscending (sort_events es)
sort_events-IsAscending [] = tt
sort_events-IsAscending (e ∷ es) =
    insert_event-IsAscending e (sort_events es) (sort_events-IsAscending es)

-- A position is not before the event that failed.
abbrev pub IsLeft : Option (ℕ × Failure) → ℕ → Type 0
IsLeft none n = ⊥
IsLeft (some (f, x)) n = f ≤ n

-- The event that failed is behind the cursor.
abbrev pub IsBeyond : Option (ℕ × Failure) → ℕ → Type 0
IsBeyond none n = Unit {0}
IsBeyond (some (f, x)) n = n < f

module _ (r : Reconciler) where
  -- After a batch from a cursor: no delivery has changed; the stored cursor is the result's and no
  -- earlier than before; every event is behind it, or not before the one that failed.
  pub record IsAdvanced (events : List SourceEvent) (cursor : ℕ) (before : Db)
      (result : ReconciliationResult) (after : Db) : Type 0 where
    pub deliveries : after.deliveries ≡ before.deliveries
    pub stored : cursor_value r.account_scope after ≡ ok (some result.cursor)
    pub forward : cursor ≤ result.cursor
    pub beyond : IsBeyond result.failed result.cursor
    pub handled :
        All
          (λ (e : SourceEvent). (e.position ≤ result.cursor) ⊎ IsLeft result.failed e.position)
          events

  All-IsLeft :
      (e : SourceEvent) (es : List SourceEvent) (x : Failure) (n : ℕ)
      → All (λ (f : SourceEvent). e.position ≤ f.position) es
      → All (λ (f : SourceEvent). (f.position ≤ n) ⊎ IsLeft (some (e.position, x)) f.position) es
  All-IsLeft e [] x n h = tt
  All-IsLeft e (f ∷ fs) x n h = (inr h.0, All-IsLeft e fs x n h.1)

  after_event-IsAdvanced :
      (read : ℕ) (e : SourceEvent) (es : List SourceEvent) (counts : Counts) (cursor : ℕ)
      (before : Db) (x : Result Failure IngestResult × Db)
      (next : Counts → ℕ → Db → ReconciliationResult × Db)
      → cursor < e.position
      → All (λ (f : SourceEvent). e.position ≤ f.position) es
      → x.1.deliveries ≡ before.deliveries
      → cursor_value r.account_scope x.1 ≡ ok (some cursor)
      → ((c : Counts) (n : ℕ) (db : Db)
          → cursor_value r.account_scope db ≡ ok (some n)
          → IsAdvanced es n db (next c n db).0 (next c n db).1)
      → IsAdvanced
          (e ∷ es)
          cursor
          before
          (after_event r read e counts cursor x next).0
          (after_event r read e counts cursor x next).1
  unfolding record_cursor_error store_cursor
  after_event-IsAdvanced read e es counts cursor before (err f, db) next l a d c k = record {
    deliveries = d;
    stored = cursor_value-record_cursor_error r db ∙ c;
    forward = omega arith;
    beyond = l;
    handled = (inr (omega arith), All-IsLeft e es f cursor a);
  }
  after_event-IsAdvanced read e es counts cursor before (ok v, db) next l a d c k =
      let reached = max cursor e.position in
      let behind : e.position ≤ reached = omega arith in
      let ahead : cursor ≤ reached = omega arith in
      let rest =
        k (count_status v.status counts) reached (store_cursor r reached db)
          (cursor_value-store_cursor r reached db) in
      record {
        deliveries = rest.deliveries ∙ d;
        stored = rest.stored;
        forward = omega (arith, ahead, rest.forward);
        beyond = rest.beyond;
        handled = (inl (omega (arith, behind, rest.forward)), rest.handled);
      }

  pub run_batch-IsAdvanced :
      (read : ℕ) (events : List SourceEvent) (counts : Counts) (cursor : ℕ) (db : Db)
      → IsAscending events
      → cursor_value r.account_scope db ≡ ok (some cursor)
      → IsAdvanced events cursor db
          (run_batch r read events counts cursor db).0
          (run_batch r read events counts cursor db).1
  unfolding run_batch
  run_batch-IsAdvanced read [] counts cursor db a c = record {
    deliveries = refl;
    stored = c;
    forward = omega arith;
    beyond = tt;
    handled = tt;
  }
  run_batch-IsAdvanced read (e ∷ es) counts cursor db a c =
      elim (Bool-cases (leb e.position cursor)) [
        | inl t ↦
            (let counted = if is_known r e db then count_known counts else counts in
              let rest = run_batch-IsAdvanced read es counted cursor db a.1 c in
              let old : e.position ≤ cursor = ground arith in
              rw (run_batch, t)
                (record {
                  deliveries = rest.deliveries;
                  stored = rest.stored;
                  forward = rest.forward;
                  beyond = rest.beyond;
                  handled = (inl (omega (arith, old, rest.forward)), rest.handled);
                }))
        | inr t ↦
            (let kept = ingest_event-rest r e db in
              let new : cursor < e.position = ground arith in
              rw (run_batch, t)
                (after_event-IsAdvanced read e es counts cursor db (ingest_event r e db)
                  (λ counts' cursor' db'. run_batch r read es counts' cursor' db') new a.0 kept.0
                  (cursor_value-cong r db (ingest_event r e db).1 kept.1 ∙ c)
                  (λ n m b h. run_batch-IsAdvanced read es n m b a.1 h)))
      ]
