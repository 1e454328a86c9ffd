-- ===== src/Ledger/Ingest/Constraints.antt =====
-- Which constraint of the schema `ingest_observation` of src/personal_ai_brain/watched_ledger.py
-- can violate.
use personal_ai_brain.Prelude.{
  ℕ, String, ℤ, ◌≡◌, ◌≢◌, refl, ap, Bool, true, false, Option, none, some, List, [], ◌∷◌, arith,
  eq_iff, is_some, member, falsy, Result, ok, err, settle, fresh_id, fresh_id-above, find?,
  Option-cases, Bool-cases, ◌⊎◌, inl, inr, ◌==◌, Avoids, avoid_rules, or_raise-Avoids, bind_ok,
  continue-Avoids, pure-Avoids, if◌then◌else◌, or_else, Bool-false,
}
use personal_ai_brain.Ledger.Schema.{
  Error, integrity, Platform, Event, Db, event_fits, insert_event, insert_link, identity_check,
  event_by_id, event_by_fingerprint, link_by_event, media_kinds, precisions, sources, confidences,
}
use personal_ai_brain.Ledger.Ingest.{
  Observation, Prepared, IngestResult, ingest_observation, ingest_body, ingest_new,
  ingest_by_fingerprint, known_source, check_observation, event_fingerprint, timestamp, link_source,
  link_external_event, new_link, new_event, prepare, suppressed_by_boundary,
}
use personal_ai_brain.Ledger.Ingest.Writes.{body_fresh, fingerprint_new}

-- What the guards have established of an observation.
pub record IsChecked (o : Observation) : Type 0 where
  pub kind : member o.media_kind media_kinds ≡ true
  pub precision : member o.watched_date_precision precisions ≡ true
  pub source : member o.source sources ≡ true
  pub confidence : member o.confidence confidences ≡ true
  pub identity : falsy o.quarantine_reason ≡ is_some o.local_media_id

pub check_observation-IsChecked :
    (p : Platform) (o : Observation) (a b : Db) → check_observation p o a ≡ (ok tt, b) → IsChecked o
unfolding check_observation
check_observation-IsChecked p o a b h = ground arith

-- An identified observation whose reason is the empty text: it passes the guards, and no row has
-- such an identity.
abbrev pub HasEmptyReason : Observation → Type 0
HasEmptyReason o = (is_some o.local_media_id ≡ true) × (o.quarantine_reason ≡ some "")

identity_cases :
    (m : Option ℤ) (r : Option String)
    → falsy r ≡ is_some m
    → identity_check m r ≡ false
    → (is_some m ≡ true) × (r ≡ some "")
unfolding identity_check
identity_cases none none h n = absurd (ground arith)
identity_cases none (some x) h n = absurd (ground arith)
identity_cases (some m) none h n = absurd (ground arith)
identity_cases (some m) (some x) h n = (refl, ap some ((eq_iff x "").0 h))

-- The error of a violated constraint.
abbrev pub is_integrity : Error → Bool
is_integrity Error.integrity = true
is_integrity _ = false

timestamp-Avoids : (p : Platform) (t : String) → Avoids is_integrity (timestamp p t)
unfolding timestamp
timestamp-Avoids p t = search avoid_rules

event_fingerprint-Avoids :
    (p : Platform) (o : Observation) → Avoids is_integrity (event_fingerprint p o)
unfolding event_fingerprint
event_fingerprint-Avoids p o = search (avoid_rules, or_raise-Avoids, timestamp-Avoids)

check_observation-Avoids :
    (p : Platform) (o : Observation) → Avoids is_integrity (check_observation p o)
unfolding check_observation
check_observation-Avoids p o = search avoid_rules depth 10

prepare-Avoids : (p : Platform) (o : Observation) → Avoids is_integrity (prepare p o)
unfolding prepare
prepare-Avoids p o =
    search (avoid_rules, timestamp-Avoids, event_fingerprint-Avoids, check_observation-Avoids) depth
      10

-- A row that has some key is found by its number.
module _ {A : Type 0} (f : A → ℕ) (p : A → Bool) where
  found_by_id :
      (xs : List A) (a : A) → find? p xs ≡ some a → is_some (find? (λ x. f x == f a) xs) ≡ true
  found_by_id [] a h = absurd (ground arith)
  found_by_id (x ∷ xs) a h = ground (arith, found_by_id xs a)

module _ (p : Platform) (o : Observation) (now : String) (v : Prepared) (a : Db) where
  new_event-fits :
      IsChecked o
      → identity_check o.local_media_id o.quarantine_reason ≡ true
      → known_source p o a ≡ none
      → event_by_fingerprint v.fingerprint a ≡ none
      → event_fits (new_event p o now v (fresh_id (λ (e : Event). e.id) a.events)) a ≡ true
  unfolding event_fits new_event known_source event_by_id
  new_event-fits c i k f = ground (
    arith,
    fresh_id-above (λ (e : Event). e.id) (fresh_id (λ (e : Event). e.id) a.events) a.events,
  )

  -- A link of the observation's event to a row that is there violates nothing.
  link_source-avoids :
      (n : ℕ) (ext : Option String) (b : Db) (e : Error)
      → (ext ≡ o.source_event_id) ⊎ (ext ≡ none)
      → b.links ≡ a.links
      → known_source p o a ≡ none
      → is_some (event_by_id n b) ≡ true
      → (link_source p o n now ext b).0 ≡ err e
      → is_integrity e ≡ false
  unfolding link_source link_external_event insert_link link_by_event new_link known_source
  link_source-avoids n none b e w k l h j = absurd (ground arith)
  link_source-avoids n (some x) b e w k l h j = ground arith

  inserted :
      (n : ℕ)
      → event_fits (new_event p o now v n) a ≡ true
      → insert_event (new_event p o now v n) a
        ≡ (ok tt, record a { events = new_event p o now v n ∷ a.events })
  unfolding insert_event
  inserted n h = rw h

  head_by_id :
      (n : ℕ)
      → is_some (event_by_id n (record a { events = new_event p o now v n ∷ a.events })) ≡ true
  unfolding event_by_id new_event
  head_by_id n = ground arith

  source_or_none :
      ((if is_some o.local_media_id then o.source_event_id else none) ≡ o.source_event_id)
      ⊎ ((if is_some o.local_media_id then o.source_event_id else none) ≡ none)
  source_or_none = ground arith

  ingest_new-avoids :
      (e : Error)
      → IsChecked o
      → identity_check o.local_media_id o.quarantine_reason ≡ true
      → known_source p o a ≡ none
      → event_by_fingerprint v.fingerprint a ≡ none
      → (ingest_new p o now v a).0 ≡ err e
      → is_integrity e ≡ false
  unfolding ingest_new
  ingest_new-avoids e c i k f h =
      let n = fresh_id (λ (e : Event). e.id) a.events in
      let b = record a { events = new_event p o now v n ∷ a.events } in
      let ext = if is_some o.local_media_id then o.source_event_id else none in
      continue-Avoids is_integrity (link_source p o n now ext b) _
        (λ x j. link_source-avoids n ext b x source_or_none refl k (head_by_id n) j)
        (λ _. pure-Avoids is_integrity _) e (rw (inserted n (new_event-fits c i k f)) at h)

  duplicate_by_id :
      (x : Event)
      → event_by_fingerprint v.fingerprint a ≡ some x
      → is_some (event_by_id x.id a) ≡ true
  unfolding event_by_fingerprint event_by_id
  duplicate_by_id x f = found_by_id (λ (e : Event). e.id) _ a.events x f

  duplicate-avoids :
      (e : Error) (x : Event)
      → known_source p o a ≡ none
      → event_by_fingerprint v.fingerprint a ≡ some x
      → (ingest_by_fingerprint p o now v a).0 ≡ err e
      → is_integrity e ≡ false
  unfolding ingest_by_fingerprint
  duplicate-avoids e x k f h =
      continue-Avoids is_integrity (link_source p o x.id now o.source_event_id a) _
        (λ y j.
          link_source-avoids x.id o.source_event_id a y (inl refl) refl k (duplicate_by_id x f) j)
        (λ _. pure-Avoids is_integrity _) e (rw (f, ingest_by_fingerprint) at h)

  body_returns :
      (e : Error) → suppressed_by_boundary p o a ≡ true → (ingest_body p o now v a).0 ≢ err e
  unfolding ingest_body
  body_returns e s h = ground arith

  body_knows :
      (e : Error) (r : IngestResult)
      → suppressed_by_boundary p o a ≡ false
      → known_source p o a ≡ some r
      → (ingest_body p o now v a).0 ≢ err e
  unfolding ingest_body
  body_knows e r s k h = ground arith

  -- Only the identity CHECK can be violated.
  body-avoids :
      (e : Error)
      → IsChecked o
      → identity_check o.local_media_id o.quarantine_reason ≡ true
      → (ingest_body p o now v a).0 ≡ err e
      → is_integrity e ≡ false
  body-avoids e c i h = elim (Bool-cases (suppressed_by_boundary p o a)) [
    | inl s ↦ absurd (body_returns e s h)
    | inr s ↦ elim (Option-cases (known_source p o a)) [
      | inr (r, k) ↦ absurd (body_knows e r s k h)
      | inl k ↦ elim (Option-cases (event_by_fingerprint v.fingerprint a)) [
        | inr (x, f) ↦ duplicate-avoids e x k f (rw (body_fresh p o now v a s k) at h)
        | inl f ↦
            ingest_new-avoids e c i k f
              (rw (body_fresh p o now v a s k, fingerprint_new p o now v a f) at h)
      ]
    ]
  ]

settle_err :
    (s : Db) (m : Result Error IngestResult × Db) (e : Error) → (settle s m).0 ≡ err e → m.0 ≡ err e
settle_err s (ok a, u) e h = absurd (ground arith)
settle_err s (err x, u) e h = h

prepare-IsChecked :
    (p : Platform) (o : Observation) (a b : Db) (v : Prepared)
    → prepare p o a ≡ (ok v, b)
    → IsChecked o
unfolding prepare
prepare-IsChecked p o a b v h =
    let (_, c, checked, _) = bind_ok (check_observation p o) _ a v b h in
    check_observation-IsChecked p o a c checked

prepare-cases :
    (p : Platform) (o : Observation) (a : Db)
    → ((e : Error) × (b : Db) × (prepare p o a ≡ (err e, b)) × (is_integrity e ≡ false))
      ⊎ ((v : Prepared) × (b : Db) × (prepare p o a ≡ (ok v, b)))
prepare-cases p o a = go (prepare p o a) refl
  where
    go :
        (r : Result Error Prepared × Db)
        → prepare p o a ≡ r
        → ((e : Error) × (b : Db) × (prepare p o a ≡ (err e, b)) × (is_integrity e ≡ false))
          ⊎ ((v : Prepared) × (b : Db) × (prepare p o a ≡ (ok v, b)))
    go (ok v, b) h = inr (v, b, h)
    go (err e, b) h =
        inl
          (e, b, h, (prepare-Avoids p o).never a e (ap (λ (r : Result Error Prepared × Db). r.0) h))

-- The guards and lookups of an ingest leave the schema one constraint to refuse: an insertion or
-- a link never meets a UNIQUE, PRIMARY KEY or REFERENCES violation, whatever the database, and an
-- `IntegrityError` means that an identified observation carried an empty, non-null reason.
pub ingest_observation-integrity :
    (p : Platform) (o : Observation) (at : Option String) (a : Db)
    → (ingest_observation p o at a).0 ≡ err integrity
    → (is_some o.local_media_id ≡ true) × (o.quarantine_reason ≡ some "")
unfolding ingest_observation
ingest_observation-integrity p o at a h = elim (prepare-cases p o a) [
  | inl (e, b, failed, other) ↦ absurd (ground arith)
  | inr (v, b, prepared) ↦
      (let c = prepare-IsChecked p o a b v prepared in
        let ran =
          settle_err b (ingest_body p o (or_else at p.clock) v b) integrity (rw prepared at h) in
        identity_cases o.local_media_id o.quarantine_reason c.identity (
          Bool-false _
            (λ i. (let x = body-avoids p o (or_else at p.clock) v b integrity c i ran in cc))))
]
