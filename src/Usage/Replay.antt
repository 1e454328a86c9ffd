-- ===== src/Usage/Replay.antt =====
-- What is written before a paid request of src/personal_ai_brain/inference_usage.py stays written.
use personal_ai_brain.Prelude.{
  ℕ, ◌+◌, ◌≤◌, ◌≢◌, length, String, ◌≡◌, refl, sym, ap, subst, ◌∙◌, inl, inr, true, false,
  Bool-cases, Option, none, some, List, [], ◌∷◌, ◌++◌, arith, eq_iff, str_eq, str_eq_refl, text_leb,
  is_some, ok, err, if◌then◌else◌, ℤ, find?-passes,
}
use personal_ai_brain.Usage.Totals.{length-append}
use personal_ai_brain.Usage.Budget.{within}
use personal_ai_brain.Usage.{
  interrupted, outcome_unknown, total, Turn, UsageRecord, Clock, Root, read, write, append_turn,
  set_last, last_turn, received, tokens, interrupt, recover, new_file, start, reserved_turn,
  over_budget, reserve_read, reserve, usage_turn, usage_read, usage_counted, usage, finish_read,
  finish, Op, recovers, starts, reserves, reports, finishes, apply, run,
}

read-write :
    (id : String) (r : UsageRecord) (d : Root)
    → read id (write r d) ≡ (if str_eq r.task_id id then some r else read id d)
unfolding read write
read-write id r [] = refl
read-write id r (x ∷ xs) = ground (
  arith,
  read-write id r xs,
  eq_iff x.task_id r.task_id,
  eq_iff x.task_id id,
  eq_iff r.task_id id,
)

is_some-write :
    (id : String) (r : UsageRecord) (d : Root)
    → is_some (read id d) ≡ true
    → is_some (read id (write r d)) ≡ true
is_some-write id r d h = elim (Bool-cases (str_eq r.task_id id)) [
  | inl e ↦ rw (read-write, e) refl
  | inr e ↦ rw (read-write, e) h
]

module _ (p : String) (clock : Clock) (id : String) where
  interrupt_name : (r : UsageRecord) → (interrupt p clock r).task_id ≡ r.task_id
  unfolding interrupt
  interrupt_name r = ground arith

  is_some-recover :
      (d : Root) → is_some (read id d) ≡ true → is_some (read id (recover p clock d)) ≡ true
  unfolding read recover
  is_some-recover [] h = h
  is_some-recover (x ∷ xs) h = ground (arith, interrupt_name x, is_some-recover xs)

  is_some-start :
      (key hash : String) (d : Root)
      → is_some (read id d) ≡ true
      → is_some (read id (start p clock key hash d).1) ≡ true
  unfolding start
  is_some-start key hash d h = ground (arith, is_some-write id (new_file p clock key hash) d h)

  is_some-reserve_read :
      (o : Option UsageRecord) (d : Root)
      → is_some (read id d) ≡ true
      → is_some (read id (reserve_read p clock o d).1) ≡ true
  unfolding reserve_read
  is_some-reserve_read none d h = h
  is_some-reserve_read (some r) d h =
      ground (arith, is_some-write id (append_turn (reserved_turn p clock) r) d h)

  is_some-reserve :
      (key : String) (d : Root)
      → is_some (read id d) ≡ true
      → is_some (read id (reserve p clock key d).1) ≡ true
  unfolding reserve
  is_some-reserve key d h = ground (arith, is_some-reserve_read (read key d) d h)

  is_some-usage_turn :
      (i o : ℕ) (r : UsageRecord) (t : Option Turn) (d : Root)
      → is_some (read id d) ≡ true
      → is_some (read id (usage_turn p clock i o r t d).1) ≡ true
  unfolding usage_turn
  is_some-usage_turn i o r none d h = h
  is_some-usage_turn i o r (some t) d h =
      ground (arith, is_some-write id (record r { turns = set_last (received i o) r.turns }) d h)

  is_some-usage_counted :
      (i o : Option ℕ) (key : String) (d : Root)
      → is_some (read id d) ≡ true
      → is_some (read id (usage_counted p clock i o key d).1) ≡ true
  unfolding usage_counted usage_read
  is_some-usage_counted none o key d h = h
  is_some-usage_counted (some i) none key d h = h
  is_some-usage_counted (some i) (some o) key d h = go (read key d)
    where
      go : (x : Option UsageRecord) → is_some (read id (usage_read p clock i o x d).1) ≡ true
      go none = h
      go (some r) = is_some-usage_turn i o r (last_turn r.turns) d h

  is_some-usage :
      (key : String) (report : Option (Option ℤ × Option ℤ)) (d : Root)
      → is_some (read id d) ≡ true
      → is_some (read id (usage p clock key report d).1) ≡ true
  unfolding usage
  is_some-usage key none d h = h
  is_some-usage key (some (i, o)) d h = is_some-usage_counted (tokens i) (tokens o) key d h

  is_some-finish :
      (key code : String) (d : Root)
      → is_some (read id d) ≡ true
      → is_some (read id (finish p clock key code d).1) ≡ true
  unfolding finish finish_read
  is_some-finish key code d h = go (read key d)
    where
      go : (x : Option UsageRecord) → is_some (read id (finish_read p clock code x d).1) ≡ true
      go none = h
      go (some r) = is_some-write id _ d h

is_some-apply :
    (p id : String) (o : Op) (d : Root)
    → is_some (read id d) ≡ true
    → is_some (read id (apply p o d)) ≡ true
is_some-apply p id (recovers clock) d h = is_some-recover p clock id d h
is_some-apply p id (starts clock key hash) d h = is_some-start p clock id key hash d h
is_some-apply p id (reserves clock key) d h = is_some-reserve p clock id key d h
is_some-apply p id (reports clock key report) d h = is_some-usage p clock id key report d h
is_some-apply p id (finishes clock key code) d h = is_some-finish p clock id key code d h

is_some-run :
    (p id : String) (os : List Op) (d : Root)
    → is_some (read id d) ≡ true
    → is_some (read id (run p os d)) ≡ true
is_some-run p id [] d h = h
is_some-run p id (o ∷ os) d h = is_some-run p id os (apply p o d) (is_some-apply p id o d h)

start_written :
    (p : String) (clock : Clock) (id hash : String) (d d' : Root) (r : UsageRecord)
    → start p clock id hash d ≡ (ok r, d')
    → is_some (read id d') ≡ true
unfolding start
start_written p clock id hash d d' r h = elim (Bool-cases (is_some (read id d))) [
  | inl e ↦ absurd (ground arith)
  | inr e ↦
      (let made : write (new_file p clock id hash) d ≡ d' = ground arith in
        subst (λ v. is_some (read id v) ≡ true) made (rw (read-write, str_eq_refl id) refl))
]

start_refused :
    (p : String) (clock : Clock) (id hash : String) (d : Root)
    → is_some (read id d) ≡ true
    → start p clock id hash d ≡ (err interrupted, d)
unfolding start
start_refused p clock id hash d h = rw h refl

-- A task whose start has returned is not started again, whatever calls follow, by whichever
-- provider and with whatever request: the start is refused and nothing written.
pub run-start :
    (p : String) (clock : Clock) (id hash : String) (d d' : Root) (r : UsageRecord) (os : List Op)
    (q : String) (later : Clock) (hash' : String)
    → start p clock id hash d ≡ (ok r, d')
    → start q later id hash' (run p os d') ≡ (err interrupted, run p os d')
run-start p clock id hash d d' r os q later hash' h =
    start_refused q later id hash' (run p os d')
      (is_some-run p id os d' (start_written p clock id hash d d' r h))

name_read :
    (id : String) (r : UsageRecord) (d : Root) → read id d ≡ some r → str_eq r.task_id id ≡ true
unfolding read
name_read id r d h = find?-passes (λ (x : UsageRecord). str_eq x.task_id id) d r h

written_elsewhere :
    (id other : String) (r : UsageRecord) (d : Root)
    → str_eq r.task_id id ≡ true
    → str_eq id other ≡ false
    → read other (write r d) ≡ read other d
written_elsewhere id other r d named apart =
    let elsewhere : str_eq r.task_id other ≡ false = rw ((eq_iff r.task_id id).0 named) apart in
    rw (read-write other r d, elsewhere) refl

-- What a reservation that returns `r` leaves in `d'`.
abbrev IsReserved : String → Clock → String → Root → Root → UsageRecord → Type 0
IsReserved p clock id d d' r =
    (old : UsageRecord) × (turn : Turn) × (read id d ≡ some old)
    × (read id d' ≡ some r)
    × (r ≡ record old { turns = old.turns ++ turn ∷ [] })
    × ((turn.status ≡ outcome_unknown)
        × (turn.month ≡ clock.month)
        × (turn.reserved_micro_usd ≡ 250000))
    × ((other : String) → str_eq id other ≡ false → read other d' ≡ read other d)
    × ((length r.turns ≤ 8) × (p ≢ "acceptance" → total p clock.month d + 250000 ≤ 15000000))

reserve_read-IsReserved :
    (p : String) (clock : Clock) (id : String) (o : Option UsageRecord) (d d' : Root)
    (r : UsageRecord)
    → read id d ≡ o
    → reserve_read p clock o d ≡ (ok r, d')
    → IsReserved p clock id d d' r
unfolding reserve_read
reserve_read-IsReserved p clock id none d d' r e h = absurd (ground arith)
reserve_read-IsReserved p clock id (some old) d d' r e h =
    elim (Bool-cases (over_budget p clock old d)) [
      | inl o ↦ absurd (ground arith)
      | inr o ↦
          (let turn = reserved_turn p clock in
            let after = append_turn turn old in
            let returned : after ≡ r = ground arith in
            let left : write after d ≡ d' = ground arith in
            let named : str_eq after.task_id id ≡ true = name_read id old d e in
            let limits = within p clock old d o in
            (
              old,
              turn,
              e,
              sym (ap (read id) left) ∙ read-write id after d ∙ rw named (ap some returned),
              sym returned,
              (refl, refl, refl),
              λ other apart.
                  sym (ap (read other) left) ∙ written_elsewhere id other after d named apart,
              (
                subst (λ (v : UsageRecord). length v.turns ≤ 8) returned
                    (rw (length-append old.turns turn) limits.0),
                limits.1,
              ),
            ))
    ]

-- A reservation that returns was made no later than 2026-11-10, and is in the task's file by then:
-- what is read back is what was returned, the file with one more turn behind its turns, which is
-- charged 250,000 millionths of a dollar to the month and whose outcome is unknown; every other
-- task's file reads as before. The file has at most eight turns then, and unless the provider is that
-- of the acceptance run, what the provider had reserved in the month and this turn are at most
-- 15,000,000 millionths.
pub reserve-written :
    (p : String) (clock : Clock) (id : String) (d d' : Root) (r : UsageRecord)
    → reserve p clock id d ≡ (ok r, d')
    → ((old : UsageRecord) × (turn : Turn) × (read id d ≡ some old)
        × (read id d' ≡ some r)
        × (r ≡ record old { turns = old.turns ++ turn ∷ [] })
        × ((turn.status ≡ outcome_unknown)
            × (turn.month ≡ clock.month)
            × (turn.reserved_micro_usd ≡ 250000))
        × ((other : String) → str_eq id other ≡ false → read other d' ≡ read other d)
        × ((length r.turns ≤ 8) × (p ≢ "acceptance" → total p clock.month d + 250000 ≤ 15000000)))
      × (text_leb clock.today "2026-11-10" ≡ true)
unfolding reserve
reserve-written p clock id d d' r h = elim (Bool-cases (text_leb clock.today "2026-11-10")) [
  | inl e ↦ (reserve_read-IsReserved p clock id (read id d) d d' r refl (rw e at h), e)
  | inr e ↦ absurd (ground arith)
]
