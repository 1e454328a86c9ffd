-- ===== src/Plex/Accepted.antt =====
-- What src/personal_ai_brain/plex_observation.py makes passes the guards of the ledger's ingest.
use personal_ai_brain.Prelude.{
  String, ◌≡◌, refl, subst, inl, inr, Bool, true, false, not, ◌&&◌, Bool-cases, Option, none, some,
  is_some, [], ◌∷◌, is_positive, member, str_eq, ok, arith,
}
use personal_ai_brain.Prelude.Values.{text, mapping, Fields, get, or_null, require, bind_ok}
use personal_ai_brain.Ledger.Schema.{Platform, Db, media_kinds}
use personal_ai_brain.Ledger.Ingest.{Observation, check_observation}
use personal_ai_brain.Plex.{
  PlexIdentity, PlexIdentityEvidence, PlexError, not_a_watch, Plex, or_value, first, as_object,
  unique_from, str, str_or_none, timestamp, guids_of, event_id_of, usable, unresolved, resolved,
  observe, normalize_metadata, normalize,
}

module _ (plex : Plex) (p : Platform) (db : Db) where
  -- The guards pass, and an observation is for quarantine exactly when it has no identity.
  abbrev pub IsAccepted : Observation → Type 0
  IsAccepted o =
      (check_observation p o db ≡ (ok tt, db))
      × (is_some o.quarantine_reason ≡ not (is_some o.local_media_id))

  unresolved-IsAccepted :
      (e : PlexIdentityEvidence) (at : String) (id : Option String) (via : String)
      → member e.media_kind media_kinds ≡ true
      → IsAccepted (unresolved plex e at id via)
  unfolding check_observation member
  unresolved-IsAccepted e at id via h = (ground arith, refl)

  resolved-IsAccepted :
      (i : PlexIdentity) (e : PlexIdentityEvidence) (at : String) (id : Option String)
      (via : String)
      → member e.media_kind media_kinds ≡ true
      → is_positive i.local_media_id ≡ true
      → IsAccepted (resolved plex i e at id via)
  unfolding check_observation member
  resolved-IsAccepted i e at id via h k = (ground arith, refl)

  observe-IsAccepted :
      (i : Option PlexIdentity) (e : PlexIdentityEvidence) (at : String) (id : Option String)
      (via : String)
      → member e.media_kind media_kinds ≡ true
      → IsAccepted (observe plex (usable plex i e.media_kind) e at id via)
  observe-IsAccepted none e at id via h = unresolved-IsAccepted e at id via h
  observe-IsAccepted (some i) e at id via h =
      elim (Bool-cases (str_eq i.media_kind e.media_kind && is_positive i.local_media_id)) [
        | inl k ↦ rw k (resolved-IsAccepted i e at id via h (ground arith))
        | inr k ↦ rw k (unresolved-IsAccepted e at id via h)
      ]

  require_ok : (b : Bool) (e : PlexError) (u : Unit {0}) → require b e ≡ ok u → b ≡ true
  require_ok true e u h = refl
  require_ok false e u h = absurd (ground arith)

  normalize_metadata-IsAccepted :
      (payload metadata : Fields) (via : String) (o : Observation)
      → normalize_metadata plex payload metadata via ≡ ok o
      → IsAccepted o
  unfolding normalize_metadata
  normalize_metadata-IsAccepted payload metadata via o h =
      let kind = str plex (or_value (first ("type" ∷ "media_type" ∷ []) metadata) (text "")) in
      let watch = bind_ok (require (member kind ("movie" ∷ "episode" ∷ [])) not_a_watch) _ o h in
      let at = bind_ok (timestamp plex _) _ o watch.2 in
      let evidence : PlexIdentityEvidence = record {
        media_kind = kind;
        rating_key = str_or_none plex (first ("ratingKey" ∷ "rating_key" ∷ []) metadata);
        guids = unique_from [] (guids_of plex metadata);
      } in
      let event =
        event_id_of plex (first ("notification_uuid" ∷ "event_id" ∷ "history_id" ∷ []) payload)
          (first ("sessionKey" ∷ "session_key" ∷ "session_id" ∷ []) payload)
          (str_or_none plex (first ("ratingKey" ∷ "rating_key" ∷ []) metadata)) at.0 in
      let same : observe plex (usable plex (plex.resolve_identity evidence) kind) evidence at.0
            event via
          ≡ o =
        ground arith in
      subst IsAccepted same (
        observe-IsAccepted (plex.resolve_identity evidence) evidence at.0 event via
          (require_ok (member kind ("movie" ∷ "episode" ∷ [])) not_a_watch watch.0 watch.1))

-- Every observation that the normalisation returns passes the guards of the ledger's ingest, and
-- is for quarantine exactly when it has no identity.
pub normalize-IsAccepted :
    (plex : Plex) (p : Platform) (payload : Fields) (via : String) (o : Observation) (db : Db)
    → normalize plex payload via ≡ ok o
    → IsAccepted plex p db o
unfolding normalize
normalize-IsAccepted plex p payload via o db h =
    let metadata =
      bind_ok
        (as_object (
          or_value (or_null (get "Metadata" payload))
            (or_value (or_null (get "metadata" payload)) (mapping payload))))
        _ o h in
    normalize_metadata-IsAccepted plex p db payload metadata.0 via o metadata.2
