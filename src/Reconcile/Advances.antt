-- ===== src/Reconcile/Advances.antt =====
-- What a run of `reconcile_tautulli` of src/personal_ai_brain/tautulli_reconciliation.py comes to.
use personal_ai_brain.Prelude.{
  ℕ, ◌-◌, pos, ◌≡◌, ◌≤◌, subst, subst₂, ◌⊎◌, inl, inr, not, ◌||◌, Bool-cases, none, some, List, any,
  leb, length, str_eq, is_negative, is_positive, ok, arith,
}
use personal_ai_brain.Ledger.Schema.{Db}
use personal_ai_brain.Reconcile.{
  SourceEvent, ReconciliationResult, Reconciler, cursor_value, sort_events, has_duplicates,
  no_counts, store_cursor, run_batch, natural, run_events, run_from, initialize, resume, reconcile,
}
use personal_ai_brain.Reconcile.Cursors.{cursor_value-store_cursor}
use personal_ai_brain.Reconcile.Batch.{
  IsAscending, All-sort_events, sort_events-IsAscending, IsLeft, IsAdvanced, run_batch-IsAdvanced,
}

module _ (r : Reconciler) where
  -- The cursor that a run starts from: the stored one, or the given watermark where none is
  -- stored.
  pub data StartsAt (db : Db) (start : ℕ) : Type 0 where
    resumed : cursor_value r.account_scope db ≡ ok (some start) → StartsAt db start
    fresh :
        cursor_value r.account_scope db ≡ ok none
        → r.initial_watermark ≡ some (pos start)
        → StartsAt db start

  -- The positions that the source is asked for come after this one.
  abbrev pub window : ℕ → ℕ
  window start = start - natural r r.overlap

  sorted_back :
      (events : List SourceEvent) (cursor : ℕ) (before : Db) (res : ReconciliationResult)
      (after : Db)
      → IsAdvanced r (sort_events events) cursor before res after
      → IsAdvanced r events cursor before res after
  sorted_back events cursor before res after a = record {
    deliveries = a.deliveries;
    stored = a.stored;
    forward = a.forward;
    beyond = a.beyond;
    handled =
        All-sort_events
          (λ (e : SourceEvent). (e.position ≤ res.cursor) ⊎ IsLeft res.failed e.position) events
          a.handled;
  }

  run_events-IsAdvanced :
      (start : ℕ) (events : List SourceEvent) (cursor : ℕ) (db : Db) (res : ReconciliationResult)
      (after : Db)
      → IsAscending events
      → cursor_value r.account_scope db ≡ ok (some cursor)
      → run_events r start events cursor db ≡ (ok res, after)
      → IsAdvanced r events cursor db res after
  run_events-IsAdvanced start events cursor db res after a c h =
      elim (Bool-cases (any (λ (e : SourceEvent). leb e.position start) events)) [
        | inl e ↦ (let raised = rw e at h in absurd (ground arith))
        | inr e ↦ elim (Bool-cases (has_duplicates events)) [
          | inl d ↦ (let raised = rw (e, d) at h in absurd (ground arith))
          | inr d ↦
              (let done = rw (e, d) at h in
                let batch = run_batch r (length events) events no_counts cursor db in
                let result : batch.0 ≡ res = ground arith in
                let state : batch.1 ≡ after = ground arith in
                subst₂ (λ v w. IsAdvanced r events cursor db v w) result state
                  (run_batch-IsAdvanced r (length events) events no_counts cursor db a c))
        ]
      ]

  run_from-IsAdvanced :
      (events : List SourceEvent) (cursor : ℕ) (db : Db) (res : ReconciliationResult) (after : Db)
      → r.read_after (window cursor) (natural r r.limit) ≡ some events
      → cursor_value r.account_scope db ≡ ok (some cursor)
      → run_from r cursor db ≡ (ok res, after)
      → IsAdvanced r events cursor db res after
  unfolding run_from
  run_from-IsAdvanced events cursor db res after q c h = sorted_back events cursor db res after (
      run_events-IsAdvanced (window cursor) (sort_events events) cursor db res after
        (sort_events-IsAscending events) c (rw q at h))

  resume-IsAdvanced :
      (events : List SourceEvent) (start : ℕ) (db : Db) (res : ReconciliationResult) (after : Db)
      → StartsAt db start
      → r.read_after (window start) (natural r r.limit) ≡ some events
      → resume r (cursor_value r.account_scope db) db ≡ (ok res, after)
      → IsAdvanced r events start db res after
  unfolding store_cursor
  resume-IsAdvanced events start db res after (resumed c) q h =
      run_from-IsAdvanced events start db res after q c (rw c at h)
  resume-IsAdvanced events start db res after (fresh c w) q h =
      let unset = rw c at h in
      let initialized = subst (λ o. initialize r o db ≡ (ok res, after)) w unset in
      let moved =
        run_from-IsAdvanced events start (store_cursor r start db) res after q
          (cursor_value-store_cursor r start db) initialized in
      record {
        deliveries = moved.deliveries;
        stored = moved.stored;
        forward = moved.forward;
        beyond = moved.beyond;
        handled = moved.handled;
      }

-- Where a run starts from a cursor, the source returns some events and the run returns a result:
-- no delivery was created or changed; the stored cursor is the result's, which is no earlier than
-- the start; a failed event is behind the cursor; and every event that the source returned is
-- before or at the cursor, or not before the failed one, so that a failure leaves no gap.
pub reconcile-IsAdvanced :
    (r : Reconciler) (db : Db) (start : ℕ) (events : List SourceEvent) (res : ReconciliationResult)
    (after : Db)
    → StartsAt r db start
    → r.read_after (window r start) (natural r r.limit) ≡ some events
    → reconcile r db ≡ (ok res, after)
    → IsAdvanced r events start db res after
unfolding reconcile
reconcile-IsAdvanced r db start events res after s q h =
    elim (Bool-cases
      (str_eq r.account_scope "" || is_negative r.overlap || not (is_positive r.limit))) [
        | inl e ↦ (let raised = rw e at h in absurd (ground arith))
        | inr e ↦ resume-IsAdvanced r events start db res after s q (rw e at h)
      ]
