-- ===== src/Ledger/Session.antt =====
-- The calls of src/personal_ai_brain/watched_ledger.py on one SQLite connection, with what is
-- committed and what the connection has written since: a write opens a transaction, which the
-- caller or a later `with connection:` commits, and which a raise in a `with connection:` undoes
-- from the last commit on.
pub mod Lasting
use personal_ai_brain.Prelude.{
  ℕ, String, Option, List, [], ◌∷◌, ◌==◌, or_else, ℤ, Exec, Result, ok, err, ◌>>=◌, ◌>>◌, raise_if,
}
use personal_ai_brain.Ledger.Schema.{Error, Platform, Db, Ledger, self_supersede}
use personal_ai_brain.Ledger.Ingest.{
  Observation, IngestResult, timestamp, prepare, ingest_body, set_migration_boundary,
  link_external_event, supersede_body,
}
use personal_ai_brain.Ledger.Delivery.{
  Report, create_delivery, transition_delivery, record_delivery_failure, recover_body,
}

pub record Connection : Type 0 where
  pub committed : Db
  pub working : Db

abbrev pub Session : Type 0 → Type 0
Session A = Exec Connection Error A

-- A connection without uncommitted writes.
abbrev pub settled_at : Db → Connection
settled_at db = record { committed = db; working = db }

abbrev pub written : {A : Type 0} → Db → Result Error A × Db → Result Error A × Connection
written committed (r, db) = (r, record { committed = committed; working = db })

-- Statements outside a `with connection:`.
unfoldable pub writes : {A : Type 0} → Ledger A → Session A
writes m c = written c.committed (m c.working)

abbrev pub left_block : {A : Type 0} → Db → Result Error A × Db → Result Error A × Connection
left_block committed (ok a, db) = (ok a, settled_at db)
left_block committed (err e, db) = (err e, settled_at committed)

-- `with connection:`
unfoldable pub with_connection : {A : Type 0} → Ledger A → Session A
with_connection m c = left_block c.committed (m c.working)

-- `connection.commit()` and `connection.rollback()` of the caller, who also rolls back by closing.
unfoldable pub commit : Connection → Connection
commit c = settled_at c.working

unfoldable pub rollback : Connection → Connection
rollback c = settled_at c.committed

module _ (platform : Platform) where
  -- `ingest_observation` on a connection.
  unfoldable pub ingest : Observation → Option String → Session IngestResult
  ingest o imported_at = writes (prepare platform o) >>= λ values.
      with_connection (ingest_body platform o (or_else imported_at platform.clock) values)

  -- `supersede_event` on a connection.
  unfoldable pub supersede : ℕ → ℕ → Session Unit
  supersede old_id replacement_id =
      raise_if (old_id == replacement_id) self_supersede
      >> with_connection (supersede_body old_id replacement_id)

  -- `recover_restart_work` on a connection.
  unfoldable pub recover : String → String → Session (List ℕ)
  recover now stale_started_before = writes (timestamp platform now) >>= λ now_value.
      writes (timestamp platform stale_started_before) >>= λ stale_value.
      with_connection (recover_body platform now_value stale_value)

pub data Call : Type 0 where
  creates : ℕ → String → String → Option String → Option String → Call
  transitions : ℕ → String → Report → Call
  fails : ℕ → String → Option ℕ → Option String → Option String → Call
  recovers : String → String → Call
  ingests : Observation → Option String → Call
  bounds : String → String → ℤ → Option String → Call
  links : ℕ → String → String → Option String → Option String → Call
  supersedes : ℕ → ℕ → Call
  commits rolls_back : Call

abbrev pub perform_call : Platform → Call → Connection → Connection
perform_call p (creates event target operation request key) c =
    (writes (create_delivery p event target operation request key) c).1
perform_call p (transitions n s r) c = (writes (transition_delivery p n s r) c).1
perform_call p (fails n error_class http retry_at at) c =
    (writes (record_delivery_failure p n error_class http retry_at at) c).1
perform_call p (recovers now before) c = (recover p now before c).1
perform_call p (ingests o at) c = (ingest p o at c).1
perform_call p (bounds source scope maximum at) c =
    (writes (set_migration_boundary p source scope maximum at) c).1
perform_call p (links event system external media at) c =
    (writes (link_external_event p event system external media at) c).1
perform_call p (supersedes old replacement) c = (supersede p old replacement c).1
perform_call p commits c = commit c
perform_call p rolls_back c = rollback c

abbrev pub run : Platform → List Call → Connection → Connection
run p [] c = c
run p (x ∷ xs) c = run p xs (perform_call p x c)
