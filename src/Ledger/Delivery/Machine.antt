-- ===== src/Ledger/Delivery/Machine.antt =====
-- The delivery state machine of src/personal_ai_brain/watched_ledger.py against a step relation.
use mathlib.Core.Option
use personal_ai_brain.Prelude.{
  ℕ, ◌+◌, String, ◌≡◌, ◌≢◌, refl, subst, true, false, Option, none, some, List, [], ◌∷◌, ◌==◌,
  arith, falsy, or_else, ok, some_inv, ◌&&◌, if◌then◌else◌, find?, Bool-cases, inl, inr,
}
use personal_ai_brain.Ledger.Schema.{
  Platform, State, pending, in_flight, verified, retry_wait, ambiguous, failed, DeliveryRow, Db,
  delivery_by_id,
}
use personal_ai_brain.Ledger.Delivery.{
  Delivery, Report, transitions, allowed, state_eq, state_of, moved, update_row, movable, perform,
  transition_to, transition_delivery,
}

-- The edges of the delivery lifecycle, by what happens to the delivery.
pub data Step : State → State → Type 0 where
  send : Step pending in_flight
  resend : Step retry_wait in_flight
  abandon : Step pending failed
  give_up : Step retry_wait failed
  confirm : Step in_flight verified
  back_off : Step in_flight retry_wait
  lose_track : Step in_flight ambiguous
  reject : Step in_flight failed
  reconcile : Step ambiguous verified
  release : Step ambiguous pending
  write_off : Step ambiguous failed

pub allowed-Step : (s t : State) → allowed t (transitions s) ≡ true → Step s t
unfolding allowed transitions
allowed-Step pending in_flight h = send
allowed-Step pending failed h = abandon
allowed-Step retry_wait in_flight h = resend
allowed-Step retry_wait failed h = give_up
allowed-Step in_flight verified h = confirm
allowed-Step in_flight retry_wait h = back_off
allowed-Step in_flight ambiguous h = lose_track
allowed-Step in_flight failed h = reject
allowed-Step ambiguous verified h = reconcile
allowed-Step ambiguous pending h = release
allowed-Step ambiguous failed h = write_off
allowed-Step _ _ h = absurd (ground arith)

pub Step-allowed : {s t : State} → Step s t → allowed t (transitions s) ≡ true
unfolding allowed transitions
Step-allowed send = refl
Step-allowed resend = refl
Step-allowed abandon = refl
Step-allowed give_up = refl
Step-allowed confirm = refl
Step-allowed back_off = refl
Step-allowed lose_track = refl
Step-allowed reject = refl
Step-allowed reconcile = refl
Step-allowed release = refl
Step-allowed write_off = refl

module _ (n : ℕ) (f : DeliveryRow → DeliveryRow)
    (same_id : (d : DeliveryRow) → (f d).id ≡ d.id) where
  find?-update_row_self :
      (ds : List DeliveryRow)
      → find? (λ d. d.id == n) (update_row n f ds) ≡ Option.map f (find? (λ d. d.id == n) ds)
  unfolding update_row
  find?-update_row_self [] = refl
  find?-update_row_self (d ∷ ds) = ground (arith, find?-update_row_self ds, same_id d)

  find?-update_row_ne :
      (m : ℕ) (ds : List DeliveryRow)
      → m ≢ n
      → find? (λ d. d.id == m) (update_row n f ds) ≡ find? (λ d. d.id == m) ds
  unfolding update_row
  find?-update_row_ne m [] h = refl
  find?-update_row_ne m (d ∷ ds) h = ground (arith, find?-update_row_ne m ds h, same_id d)

-- The name of a state in the database.
unfoldable pub name : State → String
name pending = "pending"
name in_flight = "in_flight"
name verified = "verified"
name retry_wait = "retry_wait"
name ambiguous = "ambiguous"
name failed = "failed"

pub state_of-name : (s : State) → state_of (name s) ≡ some s
unfolding name state_of
state_of-name pending = refl
state_of-name in_flight = refl
state_of-name verified = refl
state_of-name retry_wait = refl
state_of-name ambiguous = refl
state_of-name failed = refl

module _ (p : Platform) (n : ℕ) (t : State) (r : Report) where
  pub movable_inv :
      (o : Option DeliveryRow) (x : DeliveryRow)
      → movable t o ≡ some x
      → (o ≡ some x) × Step x.state t
  unfolding movable
  movable_inv none x h = absurd (ground arith)
  movable_inv (some y) x h = elim (Bool-cases (allowed t (transitions y.state))) [
    | inl e ↦ (
      ground arith,
      subst (λ (z : DeliveryRow). Step z.state t) (some_inv y x (rw e at h))
          (allowed-Step y.state t e),
    )
    | inr e ↦ absurd (ground arith)
  ]

  pub perform_ok :
      (o : Option DeliveryRow) (a b : Db) (d : Delivery)
      → perform p n t r o a ≡ (ok d, b)
      → (x : DeliveryRow) × (o ≡ some x)
        × ((state_eq t verified && falsy r.target_event_id) ≡ false)
        × (b ≡ record a {
          deliveries =
              update_row n (λ (y : DeliveryRow). moved y t (or_else r.at p.clock) r) a.deliveries;
        })
        × (d.attempt_count ≡ x.attempt_count + (if state_eq t in_flight then 1 else 0))
  unfolding perform
  perform_ok none a b d h = absurd (ground arith)
  perform_ok (some x) a b d h = (x, ground arith, ground arith, ground arith, ground arith)

  -- The row that was written, by number: `m` reads the moved row at `n` and its own elsewhere.
  pub row_after :
      (m : ℕ) (x : DeliveryRow) (ds : List DeliveryRow) (now : String)
      → find? (λ d. d.id == n) ds ≡ some x
      → find? (λ d. d.id == m) (update_row n (λ (y : DeliveryRow). moved y t now r) ds)
        ≡ (if m == n then some (moved x t now r) else find? (λ d. d.id == m) ds)
  unfolding moved
  row_after m x ds now h =
      let f = λ (y : DeliveryRow). moved y t now r in
      elim (Bool-cases (m == n)) [
        | inl e ↦
            (let same : m ≡ n = ground arith in
              rw (same, find?-update_row_self n f (λ d. refl) ds, h) (ground arith))
        | inr e ↦ rw (e, find?-update_row_ne n f (λ d. refl) m ds (ground arith)) refl
      ]

  -- An edge of the lifecycle from a delivery's state, with its evidence, is always granted.
  pub transition_delivery-grants :
      (a : Db) (x : DeliveryRow)
      → delivery_by_id n a ≡ some x
      → Step x.state t
      → (state_eq t verified && falsy r.target_event_id) ≡ false
      → (transition_delivery p n (name t) r a).0
        ≡ ok (record {
          id = n;
          state = t;
          attempt_count = x.attempt_count + (if state_eq t in_flight then 1 else 0);
        })
  unfolding transition_delivery transition_to perform movable
  transition_delivery-grants a x h s g = rw (state_of-name t, h, Step-allowed s, g)
