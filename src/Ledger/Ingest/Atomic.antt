-- ===== src/Ledger/Ingest/Atomic.antt =====
-- What src/personal_ai_brain/watched_ledger.py does before it opens a transaction writes nothing.
use personal_ai_brain.Prelude.{String, IsReadOnly, atomic_rules}
use personal_ai_brain.Ledger.Schema.{Platform}
use personal_ai_brain.Ledger.Ingest.{
  Observation, check_observation, prepare, event_fingerprint, timestamp,
}

pub timestamp-IsReadOnly : (p : Platform) (t : String) → IsReadOnly (timestamp p t)
unfolding timestamp
timestamp-IsReadOnly p t = search atomic_rules

event_fingerprint-IsReadOnly : (p : Platform) (o : Observation) → IsReadOnly (event_fingerprint p o)
unfolding event_fingerprint
event_fingerprint-IsReadOnly p o = search (atomic_rules, timestamp-IsReadOnly)

check_observation-IsReadOnly : (p : Platform) (o : Observation) → IsReadOnly (check_observation p o)
unfolding check_observation
check_observation-IsReadOnly p o = search atomic_rules depth 8

pub prepare-IsReadOnly : (p : Platform) (o : Observation) → IsReadOnly (prepare p o)
unfolding prepare
prepare-IsReadOnly p o =
    search
      (
        atomic_rules, timestamp-IsReadOnly, event_fingerprint-IsReadOnly,
        check_observation-IsReadOnly,
      )
      depth 8
