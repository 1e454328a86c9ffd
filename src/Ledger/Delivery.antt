-- ===== src/Ledger/Delivery.antt =====
-- The delivery side of src/personal_ai_brain/watched_ledger.py: `create_delivery`, the table
-- `_TRANSITIONS`, `transition_delivery`, `record_delivery_failure` and `recover_restart_work`.

pub mod Machine
pub mod Creation
pub mod History
pub mod Recovery
use personal_ai_brain.Prelude.{
  ℕ, ◌+◌, String, Bool, true, false, ◌&&◌, ◌||◌, Option, none, some, List, [], ◌∷◌, ◌==◌, leb,
  str_eq, is_some, falsy, or_else, member, text_leb, fresh_id, coalesce, ok, err, ◌>>=◌, ◌>>◌,
  or_raise, transaction, modify, gets, if◌then◌else◌, map, Result,
}
use personal_ai_brain.Ledger.Schema.{
  Error, Platform, Event, State, pending, in_flight, verified, retry_wait, ambiguous, failed,
  DeliveryRow, Db, Ledger, event_by_id, delivery_by_id, insert_delivery, bad_provenance,
  bad_delivery_event, duplicate_key, bad_state, bad_transition, missing_target_event, missing_retry,
}
use personal_ai_brain.Ledger.Ingest.{timestamp}

pub record Delivery : Type 0 where
  pub id : ℕ
  pub state : State
  pub attempt_count : ℕ

-- The guard of `create_delivery`: no event, a quarantined one, or a superseded one.
unfoldable pub undeliverable : Option Event → Bool
undeliverable none = true
undeliverable (some e) = is_some e.quarantine_reason || is_some e.superseded_by

-- The `try` of `create_delivery` and what it returns.
abbrev pub as_created : Delivery → Result Error Unit × Db → Result Error Delivery × Db
as_created d (ok x, db) = (ok d, db)
as_created d (err e, db) = (err duplicate_key, db)

-- `_TRANSITIONS`
unfoldable pub transitions : State → List State
transitions pending = in_flight ∷ failed ∷ []
transitions retry_wait = in_flight ∷ failed ∷ []
transitions in_flight = verified ∷ retry_wait ∷ ambiguous ∷ failed ∷ []
transitions ambiguous = verified ∷ pending ∷ failed ∷ []
transitions verified = []
transitions failed = []

abbrev pub state_code : State → ℕ
state_code pending = 0
state_code in_flight = 1
state_code verified = 2
state_code retry_wait = 3
state_code ambiguous = 4
state_code failed = 5

abbrev pub state_eq : State → State → Bool
state_eq s t = state_code s == state_code t

unfoldable pub allowed : State → List State → Bool
allowed t [] = false
allowed t (s ∷ ss) = state_eq t s || allowed t ss

-- `new_state in DELIVERY_STATES`
unfoldable pub state_of : String → Option State
state_of s =
    if str_eq s "pending"
    then some pending
    else if str_eq s "in_flight"
    then some in_flight
    else if str_eq s "verified"
    then some verified
    else if str_eq s "retry_wait"
    then some retry_wait
    else if str_eq s "ambiguous"
    then some ambiguous
    else if str_eq s "failed"
    then some failed
    else none

-- The optional arguments of `transition_delivery`.
pub record Report : Type 0 where
  pub at : Option String
  pub next_attempt_at : Option String
  pub http_status : Option ℕ
  pub error_class : Option String
  pub target_event_id : Option String

-- What the UPDATE of `transition_delivery` makes of the row.
unfoldable pub moved : DeliveryRow → State → String → Report → DeliveryRow
moved d t now r = record d {
  state = t;
  attempt_count = d.attempt_count + (if state_eq t in_flight then 1 else 0);
  next_attempt_at = r.next_attempt_at;
  last_http_status = r.http_status;
  last_error_class = r.error_class;
  target_event_id = coalesce r.target_event_id d.target_event_id;
  started_at = coalesce (if state_eq t in_flight then some now else none) d.started_at;
  verified_at = coalesce (if state_eq t verified then some now else none) d.verified_at;
}

-- UPDATE ... WHERE id=?
unfoldable pub update_row : ℕ → (DeliveryRow → DeliveryRow) → List DeliveryRow → List DeliveryRow
update_row n f [] = []
update_row n f (d ∷ ds) = (if d.id == n then f d else d) ∷ update_row n f ds

-- The row that a transition to `t` may start from.
unfoldable pub movable : State → Option DeliveryRow → Option DeliveryRow
movable t none = none
movable t (some d) = if allowed t (transitions d.state) then some d else none

-- `UPDATE sync_deliveries SET state='ambiguous', ... WHERE state='in_flight' AND started_at <= ?`
unfoldable pub is_stale : String → DeliveryRow → Bool
is_stale before d =
    state_eq d.state in_flight
    && elim d.started_at [ none ↦ false | some started ↦ text_leb started before ]

unfoldable pub quarantine_stale : String → DeliveryRow → DeliveryRow
quarantine_stale before d =
    if is_stale before d
    then record d { state = ambiguous; last_error_class = some "restart_during_in_flight" }
    else d

-- `WHERE state='pending' OR (state='retry_wait' AND next_attempt_at <= ?)`
unfoldable pub is_runnable : String → DeliveryRow → Bool
is_runnable now d =
    state_eq d.state pending
    || state_eq d.state retry_wait
      && elim d.next_attempt_at [ none ↦ false | some due ↦ text_leb due now ]

-- `ORDER BY id`
unfoldable pub insert_id : ℕ → List ℕ → List ℕ
insert_id n [] = n ∷ []
insert_id n (m ∷ ms) = if leb n m then n ∷ m ∷ ms else m ∷ insert_id n ms

unfoldable pub runnable_ids : String → List DeliveryRow → List ℕ
runnable_ids now [] = []
runnable_ids now (d ∷ ds) =
    let rest = runnable_ids now ds in if is_runnable now d then insert_id d.id rest else rest

abbrev pub uncertain_errors : List String
uncertain_errors = "timeout_after_send" ∷ "connection_lost_after_send" ∷ "ambiguous_response" ∷ []

module _ (platform : Platform) where
  unfoldable pub new_delivery : ℕ → String → String → String → String → ℕ → DeliveryRow
  new_delivery event target operation key request n = record {
    id = n;
    watch_event_id = event;
    target = target;
    operation = operation;
    idempotency_key = key;
    request_hash = platform.request_hash request;
    state = pending;
    attempt_count = 0;
    next_attempt_at = none;
    last_http_status = none;
    last_error_class = none;
    target_event_id = none;
    started_at = none;
    verified_at = none;
  }

  -- `request` is its canonical JSON text, or none where `json.dumps` raises.
  unfoldable pub create_delivery :
      ℕ → String → String → Option String → Option String → Ledger Delivery
  create_delivery event target operation request key db =
      if undeliverable (event_by_id event db) then (err bad_delivery_event, db) else elim request [
        | none ↦ (err bad_provenance, db)
        | some text ↦
            (let n = fresh_id (λ (d : DeliveryRow). d.id) db.deliveries in
              let k = or_else key (platform.key_hash event target operation) in
              let row = new_delivery event target operation k text n in
              as_created (record { id = n; state = pending; attempt_count = 0 })
                (insert_delivery row db))
      ]

  -- The UPDATE, once the row and the new state are known.
  unfoldable pub perform : ℕ → State → Report → Option DeliveryRow → Ledger Delivery
  perform n t r none db = (err bad_transition, db)
  perform n t r (some d) db =
      if state_eq t verified && falsy r.target_event_id then (err missing_target_event, db) else (
        ok (record {
          id = n;
          state = t;
          attempt_count = d.attempt_count + (if state_eq t in_flight then 1 else 0);
        }),
        record db {
          deliveries =
              update_row n (λ (d : DeliveryRow). moved d t (or_else r.at platform.clock) r)
                db.deliveries;
        },
      )

  unfoldable pub transition_to : ℕ → Option State → Report → Ledger Delivery
  transition_to n none r db = (err bad_state, db)
  transition_to n (some t) r db = perform n t r (movable t (delivery_by_id n db)) db

  unfoldable pub transition_delivery : ℕ → String → Report → Ledger Delivery
  transition_delivery n new_state r = transition_to n (state_of new_state) r

  unfoldable pub record_delivery_failure :
      ℕ → String → Option ℕ → Option String → Option String → Ledger Delivery
  record_delivery_failure n error_class http_status retry_at at =
      let report : Report = record {
        at = at;
        next_attempt_at = none;
        http_status = http_status;
        error_class = some error_class;
        target_event_id = none;
      } in
      if elim http_status [ none ↦ false | some code ↦ code == 429 ]
      then (do
        deadline ← or_raise retry_at missing_retry
        due ← timestamp platform deadline
        transition_delivery n "retry_wait" (record report { next_attempt_at = some due }))
      else if member error_class uncertain_errors
      then transition_delivery n "ambiguous" report
      else transition_delivery n "failed" report

  -- The body of its transaction.
  abbrev pub recover_body : String → String → Ledger (List ℕ)
  recover_body now_value stale_value = do
    modify (λ db. record db { deliveries = map (quarantine_stale stale_value) db.deliveries })
    gets (λ db. runnable_ids now_value db.deliveries)

  unfoldable pub recover_restart_work : String → String → Ledger (List ℕ)
  recover_restart_work now stale_started_before = do
    now_value ← timestamp platform now
    stale_value ← timestamp platform stale_started_before
    transaction (recover_body now_value stale_value)
