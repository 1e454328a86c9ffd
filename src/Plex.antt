-- ===== src/Plex.antt =====
-- `normalize_plex_observation` of src/personal_ai_brain/plex_observation.py: one payload of Plex or
-- Tautulli as an observation of the ledger. A payload is a JSON object, so that a scalar is a float.
mod Accepted
mod Tests
use personal_ai_brain.Prelude.{
  ℕ, ℤ, pos, String, Bool, true, false, not, ◌&&◌, ◌||◌, Option, none, some, List, [], ◌∷◌, keep,
  is_positive, member, str_eq, concat, or_else, falsy, Result, ok, err, if◌then◌else◌,
}
use personal_ai_brain.Prelude.Values.{
  Value, null, boolean, integer, scalar, text, sequence, mapping, Values, nothing, item, Fields,
  get, or_null, is_falsy, str_of, ◌>>=◌, require,
}
use personal_ai_brain.Ledger.Ingest.{Observation}

pub record PlexIdentity : Type 0 where
  pub local_media_id : ℤ
  pub media_kind : String
  pub external_media_id : Option String

pub record PlexIdentityEvidence : Type 0 where
  pub media_kind : String
  pub rating_key : Option String
  pub guids : List String

-- The `LedgerError`s by their messages, and a number that is no time.
pub data PlexError : Type 0 where
  not_an_object not_a_watch malformed naive no_timestamp out_of_range : PlexError

-- What `datetime.fromisoformat` makes of a text: it raises, the time has no zone, or it is the
-- text of the time in UTC.
pub data Parsed : Type 0 where
  unparsable : Parsed
  zoneless : Parsed
  instant : String → Parsed

-- Python's `str`, times from numbers (none where it raises) and texts, the JSON text of the
-- provenance by what varies in it, and the injected resolver.
pub record Plex : Type 0 where
  pub show : Value → String
  pub fromtimestamp : Value → Option String
  pub fromisoformat : String → Parsed
  pub provenance : String → Option String → List String → String
  pub resolve_identity : PlexIdentityEvidence → Option PlexIdentity

-- `first or second`
abbrev pub or_value : Value → Value → Value
or_value v w = if is_falsy (some v) then w else v

-- `_first`
abbrev pub first : List String → Fields → Value
first [] fs = null
first (k ∷ ks) fs = let rest = first ks fs in elim (or_null (get k fs)) [ null ↦ rest | v ↦ v ]

abbrev pub as_object : Value → Result PlexError Fields
as_object (mapping fs) = ok fs
as_object v = err not_an_object

-- `tuple(dict.fromkeys(values))`: the first of each.
abbrev pub unique_from : List String → List String → List String
unique_from seen [] = []
unique_from seen (t ∷ ts) =
    let rest = unique_from (t ∷ seen) ts in
    let again = unique_from seen ts in if member t seen then again else t ∷ rest

abbrev pub or_none : Option Value → Option Value
or_none (some null) = none
or_none o = o

abbrev pub first_of : List String → Option String → Option String
first_of [] other = other
first_of (t ∷ ts) other = some t

module _ (plex : Plex) where
  -- `str(value)`
  abbrev pub str : Value → String
  str v = str_of plex.show v

  -- `str(value) if value is not None else None`
  abbrev pub str_or_none : Value → Option String
  str_or_none null = none
  str_or_none v = some (str v)

  abbrev pub from_number : Value → Result PlexError String
  from_number v = elim (plex.fromtimestamp v) [ none ↦ err out_of_range | some t ↦ ok t ]

  abbrev pub from_text : Parsed → Result PlexError String
  from_text unparsable = err malformed
  from_text zoneless = err naive
  from_text (instant t) = ok t

  -- `_timestamp`
  unfoldable pub timestamp : Value → Result PlexError String
  timestamp (integer n) = from_number (integer n)
  timestamp (boolean b) = from_number (boolean b)
  timestamp (scalar t) = from_number (scalar t)
  timestamp (text t) = if str_eq t "" then err no_timestamp else from_text (plex.fromisoformat t)
  timestamp v = err no_timestamp

  abbrev pub guid_texts : Values → List String
  guid_texts nothing = []
  guid_texts (item (mapping fs) vs) =
      let rest = guid_texts vs in
      if is_falsy (get "id" fs) then rest else str (or_null (get "id" fs)) ∷ rest
  guid_texts (item (text t) vs) = t ∷ guid_texts vs
  guid_texts (item v vs) = guid_texts vs

  abbrev pub guids_in : Value → List String
  guids_in (sequence vs) = guid_texts vs
  guids_in v = []

  -- `guids`
  abbrev pub guids_of : Fields → List String
  guids_of metadata =
      let direct = first ("guid" ∷ "plex_guid" ∷ []) metadata in
      let listed =
        guids_in (or_value (or_null (get "Guid" metadata)) (or_null (get "guids" metadata))) in
      if is_falsy (some direct) then listed else str direct ∷ listed

  -- The source event: named, or put together from the session.
  abbrev pub event_id_of : Value → Value → Option String → String → Option String
  event_id_of null null rating_key watched_at = none
  event_id_of null session rating_key watched_at = some (
      concat (str session) (
        concat ":" (
          concat (elim rating_key [ none ↦ "unknown" | some k ↦ or_else (some k) "unknown" ])
            (concat ":" watched_at))))
  event_id_of explicit session rating_key watched_at = some (str explicit)

  -- `identity is None or identity.media_kind != media_kind or identity.local_media_id <= 0`
  abbrev pub usable : Option PlexIdentity → String → Option PlexIdentity
  usable none media_kind = none
  usable (some identity) media_kind =
      if str_eq identity.media_kind media_kind && is_positive identity.local_media_id
      then some identity
      else none

  abbrev pub unresolved : PlexIdentityEvidence → String → Option String → String → Observation
  unresolved evidence watched_at source_event_id observed_via = record {
    media_kind = evidence.media_kind;
    local_media_id = none;
    watched_at = watched_at;
    watched_date_precision = "exact";
    source = "plex";
    provenance = some (plex.provenance observed_via evidence.rating_key evidence.guids);
    source_event_id = source_event_id;
    confidence = "low";
    account_scope = "default";
    external_media_id = first_of evidence.guids evidence.rating_key;
    quarantine_reason = some "stable_media_identity_unresolved";
  }

  abbrev pub external_id : Option String → Option String → Option String
  external_id o other = if falsy o then other else o

  abbrev pub resolved :
      PlexIdentity → PlexIdentityEvidence → String → Option String → String → Observation
  resolved identity evidence watched_at source_event_id observed_via = record {
    media_kind = evidence.media_kind;
    local_media_id = some identity.local_media_id;
    watched_at = watched_at;
    watched_date_precision = "exact";
    source = "plex";
    provenance = some (plex.provenance observed_via evidence.rating_key evidence.guids);
    source_event_id = source_event_id;
    confidence = "high";
    account_scope = "default";
    external_media_id =
        external_id identity.external_media_id (first_of evidence.guids evidence.rating_key);
    quarantine_reason = none;
  }

  abbrev pub observe :
      Option PlexIdentity → PlexIdentityEvidence → String → Option String → String → Observation
  observe none evidence watched_at source_event_id observed_via =
      unresolved evidence watched_at source_event_id observed_via
  observe (some identity) evidence watched_at source_event_id observed_via =
      resolved identity evidence watched_at source_event_id observed_via

  unfoldable pub normalize_metadata : Fields → Fields → String → Result PlexError Observation
  normalize_metadata payload metadata observed_via =
      let kind = or_value (first ("type" ∷ "media_type" ∷ []) metadata) (text "") in
      let rating_key = str_or_none (first ("ratingKey" ∷ "rating_key" ∷ []) metadata) in
      let explicit = first ("notification_uuid" ∷ "event_id" ∷ "history_id" ∷ []) payload in
      let session = first ("sessionKey" ∷ "session_key" ∷ "session_id" ∷ []) payload in
      do
        _ ← require (member (str kind) ("movie" ∷ "episode" ∷ [])) not_a_watch
        watched_at ← timestamp (
            or_value (first ("event_at" ∷ "timestamp" ∷ "watched_at" ∷ []) payload)
              (first ("lastViewedAt" ∷ "last_viewed_at" ∷ "watched_at" ∷ []) metadata))
        let evidence : PlexIdentityEvidence = record {
          media_kind = str kind;
          rating_key = rating_key;
          guids = unique_from [] (guids_of metadata);
        }
        ok (
            observe (usable (plex.resolve_identity evidence) (str kind)) evidence watched_at
              (event_id_of explicit session rating_key watched_at) observed_via)

  -- `normalize_plex_observation`
  unfoldable pub normalize : Fields → String → Result PlexError Observation
  normalize payload observed_via = do
    metadata ← as_object (
        or_value (or_null (get "Metadata" payload))
          (or_value (or_null (get "metadata" payload)) (mapping payload)))
    normalize_metadata payload metadata observed_via
