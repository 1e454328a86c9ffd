-- ===== src/Usage.antt =====
-- `Ledger` of src/personal_ai_brain/inference_usage.py with the limits of coding_policy.py: the
-- reservations of paid model requests, a file per task.
mod Totals
pub mod Budget
pub mod Replay
mod Tests
use personal_ai_brain.Prelude.{
  ℕ, ◌+◌, ◌*◌, String, Bool, true, false, not, ◌&&◌, ◌||◌, Option, none, some, List, [], ◌∷◌, ◌++◌,
  str_eq, is_some, leb, ltb, text_leb, find?, length, Exec, Result, ok, err, if◌then◌else◌, ℤ, pos,
  negsuc,
}

-- A `CodingFailure` by its code, and the errors of a missing file and of a list without a turn.
pub data UsageError : Type 0 where
  interrupted model_budget_exceeded model_invalid_response : UsageError
  no_file no_turn : UsageError

pub data TurnStatus : Type 0 where
  outcome_unknown usage_received : TurnStatus

pub record Turn : Type 0 where
  pub month : String
  pub reserved_at : String
  pub reserved_micro_usd : ℕ
  pub status : TurnStatus
  pub input_tokens : Option ℕ
  pub output_tokens : Option ℕ
  pub estimated_micro_usd : Option ℕ

-- A task's file. Older files have no provider.
pub record UsageRecord : Type 0 where
  pub task_id : String
  pub payload_hash : String
  pub status : String
  pub started_at : String
  pub finished_at : Option String
  pub turns : List Turn
  pub provider : Option String

pub record Clock : Type 0 where
  pub today : String
  pub month : String
  pub stamp : String

abbrev pub Root : Type 0
Root = List UsageRecord

abbrev pub Call : Type 0
Call = Root → Result UsageError UsageRecord × Root

abbrev pub max_turns : ℕ
max_turns = 8

abbrev pub turn_reserve : ℕ
turn_reserve = 250000

abbrev pub task_budget : ℕ
task_budget = 2000000

abbrev pub month_budget : ℕ
month_budget = 15000000

abbrev pub price_review_until : String
price_review_until = "2026-11-10"

unfoldable pub read : String → Root → Option UsageRecord
read id d = find? (λ (r : UsageRecord). str_eq r.task_id id) d

-- `atomic_json(path, value)`
unfoldable pub write : UsageRecord → Root → Root
write r [] = r ∷ []
write r (x ∷ xs) = if str_eq x.task_id r.task_id then r ∷ xs else x ∷ write r xs

-- `item.get('provider', 'openai')`
abbrev pub provider_of : UsageRecord → String
provider_of r = elim r.provider [ none ↦ "openai" | some p ↦ p ]

unfoldable pub spent : String → List Turn → ℕ
spent m [] = 0
spent m (t ∷ ts) = (if str_eq t.month m then t.reserved_micro_usd else 0) + spent m ts

-- What a file has reserved for a provider in a month.
unfoldable pub share : String → String → UsageRecord → ℕ
share p m r = if str_eq (provider_of r) p then spent m r.turns else 0

unfoldable pub total : String → String → Root → ℕ
total p m [] = 0
total p m (r ∷ rs) = share p m r + total p m rs

abbrev pub append_turn : Turn → UsageRecord → UsageRecord
append_turn t r = record r { turns = r.turns ++ t ∷ [] }

unfoldable pub set_last : (Turn → Turn) → List Turn → List Turn
set_last f [] = []
set_last f (t ∷ []) = f t ∷ []
set_last f (t ∷ (u ∷ us)) = t ∷ set_last f (u ∷ us)

unfoldable pub last_turn : List Turn → Option Turn
last_turn [] = none
last_turn (t ∷ []) = some t
last_turn (t ∷ (u ∷ us)) = last_turn (u ∷ us)

-- A reported number: none where the key is missing or its value no integer.
unfoldable pub tokens : Option ℤ → Option ℕ
tokens (some (pos n)) = if leb n 1000000 then some n else none
tokens (some (negsuc n)) = none
tokens none = none

abbrev pub received : ℕ → ℕ → Turn → Turn
received input output t = record t {
  status = usage_received;
  input_tokens = some input;
  output_tokens = some output;
  estimated_micro_usd = some (input * 3 + output * 11);
}

module _ (provider : String) (clock : Clock) where
  unfoldable pub interrupt : UsageRecord → UsageRecord
  interrupt r =
      if str_eq r.status "reserved"
      then record r { status = "interrupted"; finished_at = some clock.stamp }
      else r

  unfoldable pub recover : Root → Root
  recover [] = []
  recover (r ∷ rs) = interrupt r ∷ recover rs

  abbrev pub new_file : String → String → UsageRecord
  new_file id hash = record {
    task_id = id;
    payload_hash = hash;
    status = "reserved";
    started_at = clock.stamp;
    finished_at = none;
    turns = [];
    provider = some provider;
  }

  -- `start`, for a task's name and the digest of its request.
  unfoldable pub start : String → String → Call
  start id hash d =
      if is_some (read id d)
      then (err interrupted, d)
      else if leb 256 (length d)
      then (err model_budget_exceeded, d)
      else (ok (new_file id hash), write (new_file id hash) d)

  abbrev pub reserved_turn : Turn
  reserved_turn = record {
    month = clock.month;
    reserved_at = clock.stamp;
    reserved_micro_usd = turn_reserve;
    status = outcome_unknown;
    input_tokens = none;
    output_tokens = none;
    estimated_micro_usd = none;
  }

  unfoldable pub over_budget : UsageRecord → Root → Bool
  over_budget r d =
      leb max_turns (length r.turns)
      || (ltb task_budget ((length r.turns + 1) * turn_reserve)
          || (not (str_eq provider "acceptance")
              && ltb month_budget (total provider clock.month d + turn_reserve)))

  -- `reserve` once the task's file is read.
  unfoldable pub reserve_read : Option UsageRecord → Call
  reserve_read none d = (err no_file, d)
  reserve_read (some r) d =
      if over_budget r d
      then (err model_budget_exceeded, d)
      else (ok (append_turn reserved_turn r), write (append_turn reserved_turn r) d)

  unfoldable pub reserve : String → Call
  reserve id d =
      if not (text_leb clock.today price_review_until)
      then (err model_budget_exceeded, d)
      else reserve_read (read id d) d

  -- `usage` for the last turn of the file that was read.
  unfoldable pub usage_turn : ℕ → ℕ → UsageRecord → Option Turn → Call
  usage_turn input output r none d = (err no_turn, d)
  usage_turn input output r (some t) d =
      let r' : UsageRecord = record r { turns = set_last (received input output) r.turns } in
      if ltb t.reserved_micro_usd (input * 3 + output * 11)
      then (err model_budget_exceeded, write r' d)
      else (ok r', write r' d)

  -- `usage` once the task's file is read.
  unfoldable pub usage_read : ℕ → ℕ → Option UsageRecord → Call
  usage_read input output none d = (err no_file, d)
  usage_read input output (some r) d = usage_turn input output r (last_turn r.turns) d

  unfoldable pub usage_counted : Option ℕ → Option ℕ → String → Call
  usage_counted (some input) (some output) id d = usage_read input output (read id d) d
  usage_counted _ _ id d = (err model_invalid_response, d)

  -- `usage`, none where the provider's report is no mapping.
  unfoldable pub usage : String → Option (Option ℤ × Option ℤ) → Call
  usage id none d = (err model_invalid_response, d)
  usage id (some (input, output)) d = usage_counted (tokens input) (tokens output) id d

  -- `finish` once the task's file is read.
  unfoldable pub finish_read : String → Option UsageRecord → Call
  finish_read code none d = (err no_file, d)
  finish_read code (some r) d =
      let r' : UsageRecord = record r { status = code; finished_at = some clock.stamp } in
      (ok r', write r' d)

  unfoldable pub finish : String → String → Call
  finish id code d = finish_read code (read id d) d

-- A call and the clock that it is made on.
pub data Op : Type 0 where
  recovers : Clock → Op
  starts : Clock → String → String → Op
  reserves : Clock → String → Op
  reports : Clock → String → Option (Option ℤ × Option ℤ) → Op
  finishes : Clock → String → String → Op

module _ (provider : String) where
  abbrev pub apply : Op → Root → Root
  apply (recovers clock) d = recover provider clock d
  apply (starts clock id hash) d = (start provider clock id hash d).1
  apply (reserves clock id) d = (reserve provider clock id d).1
  apply (reports clock id report) d = (usage provider clock id report d).1
  apply (finishes clock id code) d = (finish provider clock id code d).1

  abbrev pub run : List Op → Root → Root
  run [] d = d
  run (o ∷ os) d = run os (apply o d)
