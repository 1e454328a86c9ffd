-- ===== src/Ledger/Session/Lasting.antt =====
-- What becomes of a committed delivery on a connection of src/personal_ai_brain/watched_ledger.py.
use mathlib.Core.Bool.{false≢true}
use personal_ai_brain.Prelude.{
  ℕ, String, ◌≡◌, refl, sym, ◌∙◌, ap, Bool, true, false, Option, some, List, [], ◌∷◌, ◌==◌, or_else,
  ℤ, Result, ok, err, IsReadOnly, continue, ◌>>=◌, ◌>>◌, raise_if, modify,
}
use personal_ai_brain.Ledger.Schema.{
  Error, Platform, State, verified, failed, DeliveryRow, Db, Ledger, delivery_by_id, bad_boundary,
  bad_supersede, self_supersede,
}
use personal_ai_brain.Ledger.Ingest.{
  Observation, timestamp, set_migration_boundary, mark_superseded, supersede_body,
}
use personal_ai_brain.Ledger.Ingest.Atomic.{prepare-IsReadOnly, timestamp-IsReadOnly}
use personal_ai_brain.Ledger.Ingest.Frame.{Frames, ingest_body-Frames, link_external_event-Frames}
use personal_ai_brain.Ledger.Delivery.Machine.{
  Step, send, resend, abandon, give_up, confirm, back_off, lose_track, reject, reconcile, release,
  write_off,
}
use personal_ai_brain.Ledger.Delivery.History.{
  Evolves, stay, next, Continues, transition_delivery-Continues, record_delivery_failure-Continues,
  create_delivery-Continues, recover_body-Continues,
}
use personal_ai_brain.Ledger.Session.{
  Connection, Session, settled_at, writes, left_block, with_connection, commit, rollback, ingest,
  supersede, recover, Call, creates, transitions, fails, recovers, ingests, bounds, links,
  supersedes, commits, rolls_back, perform_call, run,
}

Evolves-trans : {x y z : DeliveryRow} → Evolves x y → Evolves y z → Evolves x z
Evolves-trans e stay = e
Evolves-trans e (next f s r) = next (Evolves-trans e f) s r

-- A call under which every delivery goes on.
record Carries {A : Type 0} (m : Ledger A) : Type 0 where
  carried :
      (n : ℕ) (db : Db) (x : DeliveryRow)
      → delivery_by_id n db ≡ some x
      → Continues x (delivery_by_id n (m db).1)

same_deliveries :
    (n : ℕ) (db db' : Db) (x : DeliveryRow)
    → db'.deliveries ≡ db.deliveries
    → delivery_by_id n db ≡ some x
    → Continues x (delivery_by_id n db')
unfolding delivery_by_id
same_deliveries n db db' x e h = (x, rw e h, stay)

Frames-Carries : {A : Type 0} (m : Ledger A) → Frames m → Carries m
Frames-Carries m f = record {
  carried = λ n db x h. same_deliveries n db (m db).1 x (ap (λ r. r.0) (f.kept db)) h;
}

IsReadOnly-Carries : {A : Type 0} (m : Ledger A) → IsReadOnly m → Carries m
IsReadOnly-Carries m r = record {
  carried =
      λ n db x h. same_deliveries n db (m db).1 x (ap (λ (d : Db). d.deliveries) (r.same db)) h;
}

-- A delivery that was committed as `x` is committed as one that `x` became, and stands on the
-- connection as one that this became.
abbrev pub Lasts : ℕ → DeliveryRow → Connection → Type 0
Lasts n x c =
    (y : DeliveryRow) × (delivery_by_id n c.committed ≡ some y)
    × Evolves x y
    × ((z : DeliveryRow) × (delivery_by_id n c.working ≡ some z) × Evolves y z)

-- A call of the connection under which that stays so.
record Keeps {A : Type 0} (m : Session A) : Type 0 where
  keeps : (n : ℕ) (x : DeliveryRow) (c : Connection) → Lasts n x c → Lasts n x (m c).1

writes-Keeps : {A : Type 0} (m : Ledger A) → Carries m → Keeps (writes m)
unfolding writes
writes-Keeps m k = record {
  keeps = λ n x c l.
      let (y, h, e, (z, g, f)) = l in
      let (w, there, more) = k.carried n c.working z g in
      (y, h, e, (w, there, Evolves-trans f more));
}

with_connection-Keeps : {A : Type 0} (m : Ledger A) → Carries m → Keeps (with_connection m)
unfolding with_connection
with_connection-Keeps m k = record {
  keeps = λ n x c l.
      let (y, h, e, (z, g, f)) = l in
      let (w, there, more) = k.carried n c.working z g in
      block n x c y h e (m c.working) w there (Evolves-trans e (Evolves-trans f more));
}
  where
    block :
        {A : Type 0} (n : ℕ) (x : DeliveryRow) (c : Connection) (y : DeliveryRow)
        → delivery_by_id n c.committed ≡ some y
        → Evolves x y
        → (r : Result Error A × Db) (w : DeliveryRow) → delivery_by_id n r.1 ≡ some w
        → Evolves x w
        → Lasts n x (left_block c.committed r).1
    block n x c y h e (ok a, db) w g f = (w, g, f, (w, g, stay))
    block n x c y h e (err i, db) w g f = (y, h, e, (y, h, stay))

continue-Keeps :
    {A B : Type 0} (n : ℕ) (x : DeliveryRow) (r : Result Error A × Connection) (f : A → Session B)
    → Lasts n x r.1
    → ((a : A) → Keeps (f a))
    → Lasts n x (continue r f).1
continue-Keeps n x (ok a, c) f l k = (k a).keeps n x c l
continue-Keeps n x (err e, c) f l k = l

bind-Keeps :
    {A B : Type 0} (m : Session A) (f : A → Session B)
    → Keeps m
    → ((a : A) → Keeps (f a))
    → Keeps (m >>= f)
bind-Keeps m f h k = record { keeps = λ n x c l. continue-Keeps n x (m c) f (h.keeps n x c l) k }

raise_if-Keeps : (b : Bool) (e : Error) → Keeps (raise_if b e)
raise_if-Keeps true e = record { keeps = λ n x c l. l }
raise_if-Keeps false e = record { keeps = λ n x c l. l }

guarded-Carries :
    {A : Type 0} (b : Bool) (e : Error) (m : Ledger A) → Carries m → Carries (raise_if b e >> m)
guarded-Carries true e m k = record { carried = λ n db x h. (x, h, stay) }
guarded-Carries false e m k = record { carried = k.carried }

modify-Carries :
    (f : Db → Db) → ((db : Db) → (f db).deliveries ≡ db.deliveries) → Carries (modify f)
modify-Carries f k = record { carried = λ n db x h. same_deliveries n db (f db) x (k db) h }

supersede_body-Carries : (old replacement : ℕ) → Carries (supersede_body old replacement)
unfolding supersede_body
supersede_body-Carries old replacement = record {
  carried = λ n db.
      (guarded-Carries _ bad_supersede _ (
          modify-Carries (λ b. record b { events = mark_superseded old replacement b.events })
            (λ b. refl))).carried
        n db;
}

set_migration_boundary-Carries :
    (p : Platform) (source scope : String) (maximum : ℤ) (at : Option String)
    → Carries (set_migration_boundary p source scope maximum at)
unfolding set_migration_boundary
set_migration_boundary-Carries p source scope maximum at =
    guarded-Carries _ bad_boundary _ (modify-Carries _ (λ b. refl))

module _ (p : Platform) where
  timestamp-Keeps : (t : String) → Keeps (writes (timestamp p t))
  timestamp-Keeps t = writes-Keeps _ (IsReadOnly-Carries _ (timestamp-IsReadOnly p t))

  recover-Keeps : (now before : String) → Keeps (recover p now before)
  unfolding recover
  recover-Keeps now before = bind-Keeps _ _ (timestamp-Keeps now) (λ a.
      bind-Keeps _ _ (timestamp-Keeps before) (λ b.
        with_connection-Keeps _
          (record { carried = λ n db x h. recover_body-Continues p n db x h a b })))

  ingest-Keeps : (o : Observation) (at : Option String) → Keeps (ingest p o at)
  unfolding ingest
  ingest-Keeps o at =
      bind-Keeps _ _ (writes-Keeps _ (IsReadOnly-Carries _ (prepare-IsReadOnly p o))) (λ v.
        with_connection-Keeps _ (Frames-Carries _ (ingest_body-Frames p o (or_else at p.clock) v)))

  supersede-Keeps : (old replacement : ℕ) → Keeps (supersede p old replacement)
  unfolding supersede
  supersede-Keeps old replacement =
      bind-Keeps _ _ (raise_if-Keeps (old == replacement) self_supersede)
        (λ u. with_connection-Keeps _ (supersede_body-Carries old replacement))

  perform_call-Lasts :
      (call : Call) (n : ℕ) (x : DeliveryRow) (c : Connection)
      → Lasts n x c
      → Lasts n x (perform_call p call c)
  unfolding commit rollback
  perform_call-Lasts (creates event target operation request key) n x c l =
      (writes-Keeps _ (record {
        carried =
            λ n db x h. create_delivery-Continues p n db x h event target operation request key;
      })).keeps
        n x c l
  perform_call-Lasts (transitions k s r) n x c l =
      (writes-Keeps _
          (record { carried = λ n db x h. transition_delivery-Continues p n db x h k s r })).keeps
        n x c l
  perform_call-Lasts (fails k error_class http retry_at at) n x c l =
      (writes-Keeps _ (record {
        carried =
            λ n db x h. record_delivery_failure-Continues p n db x h k error_class http retry_at at;
      })).keeps
        n x c l
  perform_call-Lasts (recovers now before) n x c l = (recover-Keeps now before).keeps n x c l
  perform_call-Lasts (ingests o at) n x c l = (ingest-Keeps o at).keeps n x c l
  perform_call-Lasts (bounds source scope maximum at) n x c l =
      (writes-Keeps _ (set_migration_boundary-Carries p source scope maximum at)).keeps n x c l
  perform_call-Lasts (links event system external media at) n x c l =
      (writes-Keeps _
          (Frames-Carries _ (link_external_event-Frames p event system external media at))).keeps
        n x c l
  perform_call-Lasts (supersedes old replacement) n x c l =
      (supersede-Keeps old replacement).keeps n x c l
  perform_call-Lasts commits n x c l =
      let (y, h, e, (z, g, f)) = l in (z, g, Evolves-trans e f, (z, g, stay))
  perform_call-Lasts rolls_back n x c l = let (y, h, e, rest) = l in (y, h, e, (y, h, stay))

  run-Lasts :
      (calls : List Call) (n : ℕ) (x : DeliveryRow) (c : Connection)
      → Lasts n x c
      → Lasts n x (run p calls c)
  run-Lasts [] n x c l = l
  run-Lasts (call ∷ calls) n x c l =
      run-Lasts calls n x (perform_call p call c) (perform_call-Lasts call n x c l)

-- Whatever calls of the ledger follow on a connection, with commits and rollbacks among them and
-- whether they return or raise, a delivery that is committed before them is never lost: behind
-- them a row that it became is committed, and a row that this one became stands on the connection.
-- A row becomes another only along edges of the lifecycle, its request stays the same, and each
-- sending counts one attempt and nothing else does.
pub run-Evolves :
    (p : Platform) (calls : List Call) (n : ℕ) (db : Db) (x : DeliveryRow)
    → delivery_by_id n db ≡ some x
    → (y : DeliveryRow) × (delivery_by_id n (run p calls (settled_at db)).committed ≡ some y)
      × Evolves x y
      × ((z : DeliveryRow) × (delivery_by_id n (run p calls (settled_at db)).working ≡ some z)
          × Evolves y z)
run-Evolves p calls n db x h = run-Lasts p calls n x (settled_at db) (x, h, stay, (x, h, stay))

abbrev pub is_terminal : State → Bool
is_terminal verified = true
is_terminal failed = true
is_terminal _ = false

Step-leaves : {s t : State} → Step s t → is_terminal s ≡ false
Step-leaves send = refl
Step-leaves resend = refl
Step-leaves abandon = refl
Step-leaves give_up = refl
Step-leaves confirm = refl
Step-leaves back_off = refl
Step-leaves lose_track = refl
Step-leaves reject = refl
Step-leaves reconcile = refl
Step-leaves release = refl
Step-leaves write_off = refl

Evolves-terminal : {x y : DeliveryRow} → Evolves x y → is_terminal x.state ≡ true → y ≡ x
Evolves-terminal stay h = refl
Evolves-terminal (next {y = y} e s r) h =
    let same = Evolves-terminal e h in
    let open_still = Step-leaves s in
    absurd (false≢true (sym open_still ∙ ap (λ (w : DeliveryRow). is_terminal w.state) same ∙ h))

-- A verified or failed delivery that is committed is final: no calls of the ledger on a connection,
-- with commits and rollbacks among them and whether they return or raise, change any column of
-- its row, neither as it is committed nor as it stands on the connection.
pub run-terminal :
    (p : Platform) (calls : List Call) (n : ℕ) (db : Db) (x : DeliveryRow)
    → delivery_by_id n db ≡ some x
    → is_terminal x.state ≡ true
    → (delivery_by_id n (run p calls (settled_at db)).committed ≡ some x)
      × (delivery_by_id n (run p calls (settled_at db)).working ≡ some x)
run-terminal p calls n db x h t =
    let (y, there, e, (z, here, f)) = run-Evolves p calls n db x h in
    let same : y ≡ x = Evolves-terminal e t in
    let again : z ≡ y = Evolves-terminal f (rw same t) in
    (there ∙ ap some same, here ∙ ap some (again ∙ same))
