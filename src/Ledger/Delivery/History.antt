-- ===== src/Ledger/Delivery/History.antt =====
-- What a sequence of calls of the delivery side of src/personal_ai_brain/watched_ledger.py can
-- make of one delivery.
use personal_ai_brain.Prelude.{
  ℕ, ◌+◌, String, ◌≡◌, refl, sym, subst, subst₂, find?-map, find?-lt-fresh_id, ◌∙◌, true, false,
  Option, none, some, ◌==◌, arith, or_else, ok, err, bind_after, or_raise, or_raise-IsReadOnly,
  member, Result, if◌then◌else◌, Bool-cases, inl, inr, some_inv,
}
use personal_ai_brain.Ledger.Schema.{
  Error, Platform, State, missing_retry, in_flight, ambiguous, DeliveryRow, Db, delivery_by_id,
  insert_delivery,
}
use personal_ai_brain.Ledger.Ingest.{timestamp}
use personal_ai_brain.Ledger.Ingest.Atomic.{timestamp-IsReadOnly}
use personal_ai_brain.Ledger.Delivery.{
  Delivery, Report, moved, movable, perform, transition_to, transition_delivery, state_of,
  record_delivery_failure, recover_body, quarantine_stale, is_stale, create_delivery, new_delivery,
  state_eq, uncertain_errors,
}
use personal_ai_brain.Ledger.Delivery.Machine.{Step, lose_track, perform_ok, movable_inv, row_after}

-- What identifies a delivery's request never changes, and attempts are only added.
pub record SameRequest (x y : DeliveryRow) : Type 0 where
  pub id : y.id ≡ x.id
  pub event : y.watch_event_id ≡ x.watch_event_id
  pub target : y.target ≡ x.target
  pub operation : y.operation ≡ x.operation
  pub key : y.idempotency_key ≡ x.idempotency_key
  pub hash : y.request_hash ≡ x.request_hash
  pub attempts : y.attempt_count ≡ x.attempt_count + (if state_eq y.state in_flight then 1 else 0)

-- A delivery's row after some steps of the lifecycle.
pub data Evolves (x : DeliveryRow) : DeliveryRow → Type 0 where
  stay : Evolves x x
  next : {y z : DeliveryRow} → Evolves x y → Step y.state z.state → SameRequest y z → Evolves x z

abbrev pub Continues : DeliveryRow → Option DeliveryRow → Type 0
Continues x o = (y : DeliveryRow) × (o ≡ some y) × Evolves x y

moved-SameRequest :
    (x : DeliveryRow) (t : State) (now : String) (r : Report) → SameRequest x (moved x t now r)
unfolding moved
moved-SameRequest x t now r = record {
  id = refl;
  event = refl;
  target = refl;
  operation = refl;
  key = refl;
  hash = refl;
  attempts = refl;
}

moved-state :
    (x : DeliveryRow) (t : State) (now : String) (r : Report) → (moved x t now r).state ≡ t
unfolding moved
moved-state x t now r = refl

quarantine_stale-id : (before : String) (x : DeliveryRow) → (quarantine_stale before x).id ≡ x.id
unfolding quarantine_stale
quarantine_stale-id before x = ground arith

quarantine_stale-SameRequest :
    (before : String) (x : DeliveryRow)
    → is_stale before x ≡ true
    → SameRequest x (quarantine_stale before x)
unfolding quarantine_stale
quarantine_stale-SameRequest before x h = ground arith

-- Only a delivery in flight is stale, and it becomes ambiguous.
pub stale-Step :
    (before : String) (x : DeliveryRow)
    → is_stale before x ≡ true
    → (x.state ≡ in_flight) × ((quarantine_stale before x).state ≡ ambiguous)
unfolding quarantine_stale is_stale
stale-Step before x h = ground arith

quarantine_stale-Evolves :
    (before : String) (x : DeliveryRow) → Evolves x (quarantine_stale before x)
quarantine_stale-Evolves before x = elim (Bool-cases (is_stale before x)) [
  | inl stale ↦
      (let (was, is) = stale-Step before x stale in
        next stay (subst₂ Step (sym was) (sym is) lose_track)
          (quarantine_stale-SameRequest before x stale))
  | inr fresh ↦ (unfold quarantine_stale in rw fresh stay)
]

perform_err :
    (p : Platform) (n : ℕ) (t : State) (r : Report) (o : Option DeliveryRow) (a b : Db) (e : Error)
    → perform p n t r o a ≡ (err e, b)
    → b ≡ a
unfolding perform
perform_err p n t r none a b e h = ground arith
perform_err p n t r (some x) a b e h = ground arith

moved-Evolves :
    (x y : DeliveryRow) (t : State) (now : String) (r : Report)
    → x ≡ y
    → Step y.state t
    → Evolves x (moved y t now r)
moved-Evolves x y t now r same s =
    subst (λ (z : DeliveryRow). Evolves z (moved y t now r)) (sym same)
      (next stay (subst (Step y.state) (sym (moved-state y t now r)) s)
        (moved-SameRequest y t now r))

module _ (p : Platform) (n m : ℕ) (t : State) (r : Report) (a : Db) (x : DeliveryRow)
    (h : delivery_by_id m a ≡ some x) where
  perform-Continues :
      (result : Result Error Delivery × Db)
      → perform p n t r (movable t (delivery_by_id n a)) a ≡ result
      → Continues x (delivery_by_id m result.1)
  unfolding delivery_by_id
  perform-Continues (ok d, b) e =
      let (y, found, _, wrote, _) = perform_ok p n t r (movable t (delivery_by_id n a)) a b d e in
      let (there, step) = movable_inv p n t r (delivery_by_id n a) y found in
      let after = row_after p n t r m y a.deliveries (or_else r.at p.clock) there in
      rw wrote (elim (Bool-cases (m == n)) [
        | inl same ↦ (
          moved y t (or_else r.at p.clock) r,
          rw (after, same) refl,
          moved-Evolves x y t (or_else r.at p.clock) r
              (let eq : m ≡ n = ground arith in some_inv x y (sym h ∙ rw (← eq) at there)) step,
        )
        | inr other ↦ (x, rw (after, other) h, stay)
      ])
  perform-Continues (err z, b) e =
      rw (perform_err p n t r (movable t (delivery_by_id n a)) a b z e) (x, h, stay)

module _ (p : Platform) (m : ℕ) (a : Db) (x : DeliveryRow) (h : delivery_by_id m a ≡ some x) where
  pub transition_delivery-Continues :
      (n : ℕ) (s : String) (r : Report)
      → Continues x (delivery_by_id m (transition_delivery p n s r a).1)
  unfolding transition_delivery transition_to
  transition_delivery-Continues n s r = go (state_of s)
    where
      go : (o : Option State) → Continues x (delivery_by_id m (transition_to p n o r a).1)
      go none = (x, h, stay)
      go (some t) =
          perform-Continues p n m t r a x h (perform p n t r (movable t (delivery_by_id n a)) a)
            refl

  pub record_delivery_failure-Continues :
      (n : ℕ) (error_class : String) (http : Option ℕ) (retry_at at : Option String)
      → Continues x
          (delivery_by_id m (record_delivery_failure p n error_class http retry_at at a).1)
  unfolding record_delivery_failure
  record_delivery_failure-Continues n error_class http retry_at at =
      elim (Bool-cases (elim http [ none ↦ false | some code ↦ code == 429 ])) [
        | inl limited ↦ rw limited (
            bind_after C _ a (or_raise retry_at missing_retry) (or_raise-IsReadOnly _ _)
              (x, h, stay)
              λ deadline.
                bind_after C _ a (timestamp p deadline) (timestamp-IsReadOnly p deadline)
                  (x, h, stay) λ due. transition_delivery-Continues n "retry_wait" _)
        | inr not_limited ↦
            rw not_limited (elim (Bool-cases (member error_class uncertain_errors)) [
              | inl e ↦ rw e (transition_delivery-Continues n "ambiguous" _)
              | inr e ↦ rw e (transition_delivery-Continues n "failed" _)
            ])
      ]
    where
      C : Db → Type 0
      C b = Continues x (delivery_by_id m b)

  pub create_delivery-Continues :
      (event : ℕ) (target operation : String) (request key : Option String)
      → Continues x (delivery_by_id m (create_delivery p event target operation request key a).1)
  unfolding create_delivery insert_delivery delivery_by_id new_delivery
  create_delivery-Continues event target operation none key = (x, ground arith, stay)
  create_delivery-Continues event target operation (some text) key =
      (x, ground (arith, find?-lt-fresh_id (λ (d : DeliveryRow). d.id) m a.deliveries x h), stay)

  pub recover_body-Continues :
      (now_value stale : String)
      → Continues x (delivery_by_id m (recover_body p now_value stale a).1)
  unfolding delivery_by_id
  recover_body-Continues now_value stale = (
    quarantine_stale stale x,
    rw
        (
          find?-map (λ (d : DeliveryRow). d.id) (quarantine_stale stale) m a.deliveries
              (quarantine_stale-id stale),
          h,
        )
        refl,
    quarantine_stale-Evolves stale x,
  )
