-- ===== src/Usage/Budget.antt =====
-- The limits that every sequence of calls of src/personal_ai_brain/inference_usage.py keeps.
use personal_ai_brain.Prelude.{
  ℕ, ◌+◌, ◌*◌, ◌≤◌, String, ◌≡◌, ◌≢◌, refl, subst, ◌∙◌, inl, inr, false, Bool-cases, Bool-false,
  text_leb, Option-cases, Option, none, some, List, [], ◌∷◌, arith, eq_iff, str_eq, length, All,
  All-find?, ltb, leb, ℤ,
}
use personal_ai_brain.Usage.{
  Turn, UsageRecord, Clock, Root, max_turns, month_budget, price_review_until, turn_reserve, read,
  write, provider_of, spent, share, total, append_turn, set_last, last_turn, received, tokens,
  recover, start, reserved_turn, over_budget, reserve_read, reserve, usage_turn, usage_read,
  usage_counted, usage, finish_read, finish, Op, recovers, starts, reserves, reports, finishes,
  apply, run,
}
use personal_ai_brain.Usage.Totals.{
  All-write, total-write, total-write_new, spent-set_last, length-set_last, length-append,
  same_share, share-append, name_read, interrupt_same, All-recover, total-recover,
}

-- The files of one provider, each with turns to its limit, and each month's total within its own.
pub record Fits (p : String) (d : Root) : Type 0 where
  pub own : All (λ (r : UsageRecord). provider_of r ≡ p) d
  pub turn_limit : All (λ (r : UsageRecord). length r.turns ≤ max_turns) d
  pub month_limit : p ≢ "acceptance" → (m : String) → total p m d ≤ month_budget

-- A file written again with its turns' months and reservations as they were.
rewritten-Fits :
    (p : String) (old r : UsageRecord) (d : Root)
    → read r.task_id d ≡ some old
    → provider_of r ≡ provider_of old
    → length r.turns ≡ length old.turns
    → ((m : String) → spent m r.turns ≡ spent m old.turns)
    → Fits p d
    → Fits p (write r d)
unfolding read
rewritten-Fits p old r d h k l s f =
    let was = All-find? (λ x. provider_of x ≡ p) (λ x. str_eq x.task_id r.task_id) d old f.own h in
    let limit =
      All-find? (λ x. length x.turns ≤ max_turns) (λ x. str_eq x.task_id r.task_id) d old
        f.turn_limit h in
    record {
      own = All-write (λ x. provider_of x ≡ p) r d (k ∙ was) f.own;
      turn_limit = All-write (λ x. length x.turns ≤ max_turns) r d (rw l limit) f.turn_limit;
      month_limit = λ q m.
          (let equal : share p m r ≡ share p m old = same_share p m old r k (s m) in
            ground (arith, total-write p m old r d h, f.month_limit q m));
    }

started-Fits :
    (p : String) (r : UsageRecord) (d : Root)
    → read r.task_id d ≡ none
    → provider_of r ≡ p
    → r.turns ≡ []
    → Fits p d
    → Fits p (write r d)
started-Fits p r d h k e f = record {
  own = All-write (λ x. provider_of x ≡ p) r d k f.own;
  turn_limit = All-write (λ x. length x.turns ≤ max_turns) r d (rw e (ground arith)) f.turn_limit;
  month_limit = λ q m. rw (total-write_new p m r d h e) (f.month_limit q m);
}

start-Fits :
    (p : String) (clock : Clock) (id hash : String) (d : Root)
    → Fits p d
    → Fits p (start p clock id hash d).1
unfolding start
start-Fits p clock id hash d f = elim (Option-cases (read id d)) [
  | inl h ↦ (elim (Bool-cases (leb 256 (length d))) [
    | inl e ↦ rw (h, e) f
    | inr e ↦ rw (h, e) (started-Fits p _ d h refl refl f)
  ])
  | inr h ↦ rw (h.1) f
]

-- What a reservation adds keeps to the limits, if it is not over budget.
pub within :
    (p : String) (clock : Clock) (r : UsageRecord) (d : Root)
    → over_budget p clock r d ≡ false
    → (length r.turns + 1 ≤ max_turns)
      × (p ≢ "acceptance" → total p clock.month d + turn_reserve ≤ month_budget)
unfolding over_budget
within p clock r d h = (
  ground arith,
  λ q.
      (let other : str_eq p "acceptance" ≡ false =
          Bool-false (str_eq p "acceptance") (λ e. q ((eq_iff p "acceptance").0 e)) in
        ground arith),
)

found_own :
    (p id : String) (r : UsageRecord) (d : Root) → read id d ≡ some r → Fits p d → provider_of r ≡ p
unfolding read
found_own p id r d h f = All-find? (λ x. provider_of x ≡ p) (λ x. str_eq x.task_id id) d r f.own h

reserved-month :
    (p : String) (clock : Clock) (r : UsageRecord) (d : Root)
    → read r.task_id d ≡ some r
    → total p clock.month d + turn_reserve ≤ month_budget
    → ((m : String) → total p m d ≤ month_budget)
    → (m : String) → total p m (write (append_turn (reserved_turn p clock) r) d) ≤ month_budget
reserved-month p clock r d h w f m =
    let t = reserved_turn p clock in
    let moved = total-write p m r (append_turn t r) d h in
    let grown = share-append p m t r in
    elim (Bool-cases (str_eq clock.month m)) [
      | inl e ↦
          (let now : total p m d + turn_reserve ≤ month_budget =
              subst (λ v. total p v d + turn_reserve ≤ month_budget) ((eq_iff clock.month m).0 e)
                w in
            let by : share p m (append_turn t r) ≤ share p m r + turn_reserve = rw e at grown in
            ground arith)
      | inr e ↦
          (let by : share p m (append_turn t r) ≤ share p m r + 0 = rw e at grown in
            let limit = f m in ground arith)
    ]

reserve_read-Fits :
    (p : String) (clock : Clock) (id : String) (o : Option UsageRecord) (d : Root)
    → read id d ≡ o
    → Fits p d
    → Fits p (reserve_read p clock o d).1
unfolding reserve_read
reserve_read-Fits p clock id none d h f = f
reserve_read-Fits p clock id (some r) d h f = elim (Bool-cases (over_budget p clock r d)) [
  | inl e ↦ rw e f
  | inr e ↦
      (let named = name_read id r d h in
        let room = within p clock r d e in
        let t = reserved_turn p clock in
        rw e (record {
          own =
              All-write (λ x. provider_of x ≡ p) (append_turn t r) d (found_own p id r d h f) f.own;
          turn_limit =
              All-write (λ x. length x.turns ≤ max_turns) (append_turn t r) d
                (ground (arith, length-append r.turns t)) f.turn_limit;
          month_limit = λ q. reserved-month p clock r d named (room.1 q) (f.month_limit q);
        }))
]

reserve-Fits :
    (p : String) (clock : Clock) (id : String) (d : Root)
    → Fits p d
    → Fits p (reserve p clock id d).1
unfolding reserve
reserve-Fits p clock id d f = elim (Bool-cases (text_leb clock.today price_review_until)) [
  | inl e ↦ rw e (reserve_read-Fits p clock id (read id d) d refl f)
  | inr e ↦ rw e f
]

usage_turn-Fits :
    (p : String) (clock : Clock) (input output : ℕ) (r : UsageRecord) (o : Option Turn) (d : Root)
    → read r.task_id d ≡ some r
    → Fits p d
    → Fits p (usage_turn p clock input output r o d).1
unfolding usage_turn
usage_turn-Fits p clock input output r none d h f = f
usage_turn-Fits p clock input output r (some t) d h f =
    let after : Fits p (write (record r { turns = set_last (received input output) r.turns }) d) =
      rewritten-Fits p r _ d h refl (length-set_last (received input output) r.turns)
        (λ m. spent-set_last m input output r.turns) f in
    elim (Bool-cases (ltb t.reserved_micro_usd (input * 3 + output * 11))) [
      | inl c ↦ rw c after
      | inr c ↦ rw c after
    ]

usage_read-Fits :
    (p : String) (clock : Clock) (input output : ℕ) (id : String) (o : Option UsageRecord)
    (d : Root)
    → read id d ≡ o
    → Fits p d
    → Fits p (usage_read p clock input output o d).1
unfolding usage_read
usage_read-Fits p clock input output id none d h f = f
usage_read-Fits p clock input output id (some r) d h f =
    usage_turn-Fits p clock input output r (last_turn r.turns) d (name_read id r d h) f

usage_counted-Fits :
    (p : String) (clock : Clock) (i o : Option ℕ) (id : String) (d : Root)
    → Fits p d
    → Fits p (usage_counted p clock i o id d).1
unfolding usage_counted
usage_counted-Fits p clock none o id d f = f
usage_counted-Fits p clock (some i) none id d f = f
usage_counted-Fits p clock (some i) (some o) id d f =
    usage_read-Fits p clock i o id (read id d) d refl f

usage-Fits :
    (p : String) (clock : Clock) (id : String) (report : Option (Option ℤ × Option ℤ)) (d : Root)
    → Fits p d
    → Fits p (usage p clock id report d).1
unfolding usage
usage-Fits p clock id none d f = f
usage-Fits p clock id (some (i, o)) d f = usage_counted-Fits p clock (tokens i) (tokens o) id d f

finish_read-Fits :
    (p : String) (clock : Clock) (code id : String) (o : Option UsageRecord) (d : Root)
    → read id d ≡ o
    → Fits p d
    → Fits p (finish_read p clock code o d).1
unfolding finish_read
finish_read-Fits p clock code id none d h f = f
finish_read-Fits p clock code id (some r) d h f =
    rewritten-Fits p r _ d (name_read id r d h) refl refl (λ m. refl) f

finish-Fits :
    (p : String) (clock : Clock) (id code : String) (d : Root)
    → Fits p d
    → Fits p (finish p clock id code d).1
unfolding finish
finish-Fits p clock id code d f = finish_read-Fits p clock code id (read id d) d refl f

recover-Fits : (p : String) (clock : Clock) (d : Root) → Fits p d → Fits p (recover p clock d)
recover-Fits p clock d f = record {
  own =
      All-recover (λ x. provider_of x ≡ p) p clock d (λ r h. (interrupt_same p clock r).1 ∙ h)
        f.own;
  turn_limit =
      All-recover (λ x. length x.turns ≤ max_turns) p clock d
        (λ r h. rw ((interrupt_same p clock r).0) h) f.turn_limit;
  month_limit = λ q m. rw (total-recover p m clock d) (f.month_limit q m);
}

apply-Fits : (p : String) (o : Op) (d : Root) → Fits p d → Fits p (apply p o d)
apply-Fits p (recovers clock) d f = recover-Fits p clock d f
apply-Fits p (starts clock id hash) d f = start-Fits p clock id hash d f
apply-Fits p (reserves clock id) d f = reserve-Fits p clock id d f
apply-Fits p (reports clock id report) d f = usage-Fits p clock id report d f
apply-Fits p (finishes clock id code) d f = finish-Fits p clock id code d f

run-Fits : (p : String) (os : List Op) (d : Root) → Fits p d → Fits p (run p os d)
run-Fits p [] d f = f
run-Fits p (o ∷ os) d f = run-Fits p os (apply p o d) (apply-Fits p o d f)

empty-Fits : (p : String) → Fits p []
unfolding total
empty-Fits p = record { own = tt; turn_limit = tt; month_limit = λ q m. ground arith }

-- Whatever calls one provider's ledger makes from an empty directory, on any clock: each task has
-- at most eight turns, and unless the provider is "acceptance", what is reserved for it in any
-- month is at most the month's budget.
pub run-budget :
    (p : String) (os : List Op)
    → All (λ (r : UsageRecord). length r.turns ≤ max_turns) (run p os [])
      × (p ≢ "acceptance" → (m : String) → total p m (run p os []) ≤ month_budget)
run-budget p os = let f = run-Fits p os [] (empty-Fits p) in (f.turn_limit, f.month_limit)
