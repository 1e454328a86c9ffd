-- ===== src/Ledger/Ingest/Frame.antt =====
-- The ingest side of src/personal_ai_brain/watched_ledger.py touches neither deliveries nor cursors.
use personal_ai_brain.Prelude.{
  ℕ, String, ◌≡◌, refl, ap, ◌∙◌, inl, inr, Bool-cases, Option, none, some, Option-cases, List,
  Result, ok, err, settle, transaction, continue, ◌>>=◌, ◌||◌, str_eq, IsReadOnly, pure-IsReadOnly,
  gets-IsReadOnly, arith,
}
use personal_ai_brain.Ledger.Schema.{
  Error, Platform, Event, Link, DeliveryRow, CursorRow, Db, Ledger, insert_event, insert_link,
  link_by_event, event_by_fingerprint,
}
use personal_ai_brain.Ledger.Ingest.{
  Observation, Prepared, ingest_observation, ingest_body, ingest_new, ingest_by_fingerprint,
  known_source, link_source, link_external_event, new_link, suppressed_by_boundary,
}
use personal_ai_brain.Ledger.Ingest.Atomic.{prepare-IsReadOnly}

-- What stays: the deliveries and the cursors.
abbrev pub rest_of : Db → List DeliveryRow × List CursorRow
rest_of db = (db.deliveries, db.cursors)

-- A call that leaves them alone, however it ends.
pub record Frames {A : Type 0} (m : Ledger A) : Type 0 where
  pub kept : (db : Db) → rest_of (m db).1 ≡ rest_of db

IsReadOnly-Frames : {A : Type 0} (m : Ledger A) → IsReadOnly m → Frames m
IsReadOnly-Frames m h = record { kept = λ db. ap rest_of (h.same db) }

continue-rest_of :
    {A B : Type 0} (f : A → Ledger B) (db : Db) (r : Result Error A × Db)
    → rest_of r.1 ≡ rest_of db
    → ((a : A) → Frames (f a))
    → rest_of (continue r f).1 ≡ rest_of db
continue-rest_of f db (ok a, t) h k = (k a).kept t ∙ h
continue-rest_of f db (err e, t) h k = h

bind-Frames :
    {A B : Type 0} (m : Ledger A) (f : A → Ledger B)
    → Frames m
    → ((a : A) → Frames (f a))
    → Frames (m >>= f)
bind-Frames m f h k = record { kept = λ db. continue-rest_of f db (m db) (h.kept db) k }

settle-rest_of :
    {A : Type 0} (db : Db) (r : Result Error A × Db)
    → rest_of r.1 ≡ rest_of db
    → rest_of (settle db r).1 ≡ rest_of db
settle-rest_of db (ok a, t) h = h
settle-rest_of db (err e, t) h = refl

transaction-Frames : {A : Type 0} (m : Ledger A) → Frames m → Frames (transaction m)
transaction-Frames m h = record { kept = λ db. settle-rest_of db (m db) (h.kept db) }

insert_event-Frames : (e : Event) → Frames (insert_event e)
unfolding insert_event
insert_event-Frames e = record { kept = λ db. ground arith }

insert_link-Frames : (l : Link) → Frames (insert_link l)
unfolding insert_link
insert_link-Frames l = record { kept = λ db. ground arith }

ruleset frame_rules = (
  IsReadOnly-Frames, pure-IsReadOnly, gets-IsReadOnly, bind-Frames, transaction-Frames,
  insert_event-Frames, insert_link-Frames,
)

module _ (p : Platform) where
  pub link_external_event-Frames :
      (n : ℕ) (system external : String) (media at : Option String)
      → Frames (link_external_event p n system external media at)
  unfolding link_external_event
  link_external_event-Frames n system external media at = record {
    kept = λ db. elim (Bool-cases (str_eq system "" || str_eq external "")) [
      | inl e ↦ rw e refl
      | inr e ↦ elim (Option-cases (link_by_event system external db)) [
        | inl f ↦
            rw (e, f) ((insert_link-Frames (new_link p n system external media at db)).kept db)
        | inr (l, f) ↦ rw (e, f) refl
      ]
    ];
  }

  link_source-Frames :
      (o : Observation) (n : ℕ) (now : String) (ext : Option String)
      → Frames (link_source p o n now ext)
  unfolding link_source
  link_source-Frames o n now none = search frame_rules
  link_source-Frames o n now (some x) = link_external_event-Frames n _ x _ _

  ingest_new-Frames :
      (o : Observation) (now : String) (v : Prepared) → Frames (ingest_new p o now v)
  unfolding ingest_new
  ingest_new-Frames o now v = search (frame_rules, link_source-Frames) depth 8

  ingest_by_fingerprint-Frames :
      (o : Observation) (now : String) (v : Prepared) → Frames (ingest_by_fingerprint p o now v)
  unfolding ingest_by_fingerprint
  ingest_by_fingerprint-Frames o now v = record {
    kept = λ db. elim (Option-cases (event_by_fingerprint v.fingerprint db)) [
      | inl e ↦ rw (ingest_by_fingerprint, e) ((ingest_new-Frames o now v).kept db)
      | inr (found, e) ↦
          rw (ingest_by_fingerprint, e)
            ((bind-Frames (link_source p o found.id now o.source_event_id) _
                (link_source-Frames o found.id now o.source_event_id)
                (λ u. IsReadOnly-Frames _ (pure-IsReadOnly _))).kept
              db)
    ];
  }

  pub ingest_body-Frames :
      (o : Observation) (now : String) (v : Prepared) → Frames (ingest_body p o now v)
  unfolding ingest_body
  ingest_body-Frames o now v = record {
    kept = λ db. elim (Bool-cases (suppressed_by_boundary p o db)) [
      | inl e ↦ rw e refl
      | inr e ↦ elim (Option-cases (known_source p o db)) [
        | inl f ↦ rw (e, f) ((ingest_by_fingerprint-Frames o now v).kept db)
        | inr (found, f) ↦ rw (e, f) refl
      ]
    ];
  }

  ingest_observation-Frames :
      (o : Observation) (at : Option String) → Frames (ingest_observation p o at)
  unfolding ingest_observation
  ingest_observation-Frames o at =
      search (frame_rules, prepare-IsReadOnly, ingest_body-Frames) depth 6

-- An ingest changes no delivery and no cursor, however it ends.
pub ingest_observation-rest :
    (p : Platform) (o : Observation) (at : Option String) (db : Db)
    → ((ingest_observation p o at db).1.deliveries ≡ db.deliveries)
      × ((ingest_observation p o at db).1.cursors ≡ db.cursors)
ingest_observation-rest p o at db =
    let kept = (ingest_observation-Frames p o at).kept db in
    (
      ap (λ (r : List DeliveryRow × List CursorRow). r.0) kept,
      ap (λ (r : List DeliveryRow × List CursorRow). r.1) kept,
    )
