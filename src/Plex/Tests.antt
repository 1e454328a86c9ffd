-- ===== src/Plex/Tests.antt =====
-- A payload of Tautulli.
use personal_ai_brain.Prelude.{
  ℕ, pos, String, ◌≡◌, refl, Option, none, some, List, [], member, ok, err,
}
use personal_ai_brain.Prelude.Values.{Value, integer, text, sequence, nothing, Fields, end, field}
use personal_ai_brain.Ledger.Schema.{Platform, Payload, Db}
use personal_ai_brain.Ledger.Ingest.{Observation}
use personal_ai_brain.Plex.{
  PlexIdentityEvidence, Plex, naive, zoneless, timestamp, normalize_metadata, normalize,
}
use personal_ai_brain.Plex.Accepted.{IsAccepted, normalize-IsAccepted}

abbrev payload : Fields
payload = field "history_id" (text "e1") (
    field "watched_at" (integer (pos 0)) (
      field "media_type" (text "movie") (
        field "rating_key" (text "7") (
          field "lastViewedAt" (integer (pos 1700000000)) (field "guids" (sequence nothing) end)))))

abbrev plex : Plex
plex = record {
  show = λ (v : Value). "7";
  fromtimestamp = λ (v : Value). some "2026-01-01T00:00:00Z";
  fromisoformat = λ (t : String). zoneless;
  provenance = λ (via : String) (key : Option String) (guids : List String). "{}";
  resolve_identity = λ (e : PlexIdentityEvidence).
      some (record { local_media_id = pos 7; media_kind = "movie"; external_media_id = none });
}

abbrev platform : Platform
platform = record {
  normalize = λ (t : String). some t;
  fingerprint = λ (p : Payload). "f";
  request_hash = λ (t : String). t;
  key_hash = λ (n : ℕ) (t u : String). u;
  int_of = λ (t : String). none;
  clock = "2026-01-02T00:00:00Z";
}

abbrev empty : Db
empty = record { events = []; links = []; deliveries = []; cursors = [] }

abbrev watch : Observation
watch = record {
  media_kind = "movie";
  local_media_id = some (pos 7);
  watched_at = "2026-01-01T00:00:00Z";
  watched_date_precision = "exact";
  source = "plex";
  provenance = some "{}";
  source_event_id = some "e1";
  confidence = "high";
  account_scope = "default";
  external_media_id = some "7";
  quarantine_reason = none;
}

normalized : normalize plex payload "tautulli_reconciliation" ≡ ok watch
unfolding normalize normalize_metadata timestamp member
normalized = refl

normalize-IsAccepted_example : IsAccepted plex platform empty watch
normalize-IsAccepted_example =
    normalize-IsAccepted plex platform payload "tautulli_reconciliation" watch empty normalized

-- A text without a zone is refused.
no_zone : normalize plex (field "watched_at" (text "2026-01-01") payload) "webhook" ≡ err naive
unfolding normalize normalize_metadata timestamp member
no_zone = refl
