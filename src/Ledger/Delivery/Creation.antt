-- ===== src/Ledger/Delivery/Creation.antt =====
-- `create_delivery` of src/personal_ai_brain/watched_ledger.py: who gets a delivery, and how often.
use personal_ai_brain.Prelude.{
  ℕ, String, ◌≡◌, Bool, Option, none, some, arith, eq_iff, or_else, ok, err,
}
use personal_ai_brain.Ledger.Schema.{
  Platform, Event, Db, event_by_id, insert_delivery, key_taken, duplicate_key,
}
use personal_ai_brain.Ledger.Delivery.{Delivery, create_delivery, new_delivery, undeliverable}

undeliverable_inv :
    (o : Option Event)
    → undeliverable o ≡ Bool.false
    → (e : Event) × (o ≡ some e) × (e.quarantine_reason ≡ none) × (e.superseded_by ≡ none)
unfolding undeliverable
undeliverable_inv none h = absurd (ground arith)
undeliverable_inv (some e) h = (e, ground arith, ground arith, ground arith)

-- A delivery is created for an event that is there, identified and not superseded; asked for once
-- more, with the same arguments, it is refused as a duplicate and nothing changes.
pub create_delivery-once :
    (p : Platform) (event : ℕ) (target operation : String) (request key : Option String) (a b : Db)
    (d : Delivery)
    → create_delivery p event target operation request key a ≡ (ok d, b)
    → (e : Event) × (event_by_id event a ≡ some e)
      × (e.quarantine_reason ≡ none)
      × (e.superseded_by ≡ none)
      × (create_delivery p event target operation request key b ≡ (err duplicate_key, b))
unfolding create_delivery insert_delivery key_taken new_delivery event_by_id
create_delivery-once p event target operation none key a b d h = absurd (ground arith)
create_delivery-once p event target operation (some text) key a b d h =
    let k = or_else key (p.key_hash event target operation) in
    let active : undeliverable (event_by_id event a) ≡ Bool.false = ground arith in
    let (e, there, identified, current) = undeliverable_inv (event_by_id event a) active in
    (e, there, identified, current, ground (arith, eq_iff target target, eq_iff k k))
