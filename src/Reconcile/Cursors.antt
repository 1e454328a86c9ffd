-- ===== src/Reconcile/Cursors.antt =====
-- The cursor that src/personal_ai_brain/tautulli_reconciliation.py stores is the one it reads.
use personal_ai_brain.Prelude.{
  ℕ, pos, String, ◌≡◌, refl, ap, ◌∙◌, inl, inr, true, Bool-cases, none, some, List, [], ◌∷◌, find?,
  str_eq_refl, Result, ok, err,
}
use personal_ai_brain.Ledger.Schema.{Error, watermark, CursorRow, Db, cursor_at}
use personal_ai_brain.Ledger.Ingest.{Observation, IngestResult, ingest_observation}
use personal_ai_brain.Ledger.Ingest.Frame.{ingest_observation-rest}
use personal_ai_brain.Plex.{PlexError, normalize}
use personal_ai_brain.Reconcile.{
  SourceEvent, Reconciler, cursor_kind, row_number, cursor_value, is_at, upsert_row, mark_error,
  store_cursor, record_cursor_error, hooked, ingest_normalized, ingest_event,
}

find?-upsert_row :
    (a : String) (row : CursorRow) (cs : List CursorRow)
    → is_at a row ≡ true
    → row_number (find? (λ (c : CursorRow). is_at a c) (upsert_row a row cs))
      ≡ row_number (some row)
find?-upsert_row a row [] h = rw h refl
find?-upsert_row a row (c ∷ cs) h = elim (Bool-cases (is_at a c)) [
  | inl e ↦ rw (e, e) refl
  | inr e ↦ rw (e, e) (find?-upsert_row a row cs h)
]

find?-mark_error :
    (a now : String) (cs : List CursorRow)
    → row_number (find? (λ (c : CursorRow). is_at a c) (mark_error a now cs))
      ≡ row_number (find? (λ (c : CursorRow). is_at a c) cs)
find?-mark_error a now [] = refl
find?-mark_error a now (c ∷ cs) = elim (Bool-cases (is_at a c)) [
  | inl e ↦ rw (e, e) refl
  | inr e ↦ rw (e, e) (find?-mark_error a now cs)
]

module _ (r : Reconciler) where
  pub cursor_value-store_cursor :
      (n : ℕ) (db : Db) → cursor_value r.account_scope (store_cursor r n db) ≡ ok (some n)
  unfolding store_cursor cursor_at
  cursor_value-store_cursor n db =
      find?-upsert_row r.account_scope
        (record {
          source = "plex";
          account_scope = r.account_scope;
          cursor_or_watermark = watermark cursor_kind (pos n);
          last_success_at = some r.platform.clock;
          last_error_at = none;
        })
        db.cursors (rw (str_eq_refl r.account_scope) refl)

  pub cursor_value-record_cursor_error :
      (db : Db)
      → cursor_value r.account_scope (record_cursor_error r db) ≡ cursor_value r.account_scope db
  unfolding record_cursor_error cursor_at
  cursor_value-record_cursor_error db = find?-mark_error r.account_scope r.platform.clock db.cursors

  pub cursor_value-cong :
      (a b : Db)
      → b.cursors ≡ a.cursors
      → cursor_value r.account_scope b ≡ cursor_value r.account_scope a
  unfolding cursor_at
  cursor_value-cong a b h =
      ap (λ cs. row_number (find? (λ (c : CursorRow). is_at r.account_scope c) cs)) h

  hooked-rest : (e : SourceEvent) (x : Result Error IngestResult × Db) → (hooked r e x).1 ≡ x.1
  hooked-rest e (ok a, db) = refl
  hooked-rest e (err a, db) = refl

  ingest_normalized-rest :
      (e : SourceEvent) (o : Result PlexError Observation) (db : Db)
      → ((ingest_normalized r e o db).1.deliveries ≡ db.deliveries)
        × ((ingest_normalized r e o db).1.cursors ≡ db.cursors)
  ingest_normalized-rest e (err x) db = (refl, refl)
  ingest_normalized-rest e (ok o) db =
      let rest = ingest_observation-rest r.platform o none db in
      let same = hooked-rest e (ingest_observation r.platform o none db) in
      elim (Bool-cases (r.resolver_raises e)) [
        | inl f ↦ rw f (refl, refl)
        | inr f ↦
            rw f (
              ap (λ (d : Db). d.deliveries) same ∙ rest.0,
              ap (λ (d : Db). d.cursors) same ∙ rest.1,
            )
      ]

  -- An event changes no delivery and no cursor before the cursor is advanced.
  pub ingest_event-rest :
      (e : SourceEvent) (db : Db)
      → ((ingest_event r e db).1.deliveries ≡ db.deliveries)
        × ((ingest_event r e db).1.cursors ≡ db.cursors)
  unfolding ingest_event
  ingest_event-rest e db =
      ingest_normalized-rest e (normalize r.plex e.payload "tautulli_reconciliation") db
