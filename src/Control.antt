-- ===== src/Control.antt =====
-- `Worker.process` of src/personal_ai_brain/control_worker.py: one issue of the poller, with its
-- durable records. Each write, each invocation of a handler and each call of the transport that
-- changes something takes one unit of the power that is left before the process is killed.
pub mod Once
pub mod Delivers
pub mod Requests
mod Tests
use personal_ai_brain.Prelude.{
  concat, ℕ, suc, zero, String, Bool, true, false, not, ◌&&◌, ◌||◌, Option, none, some, List, [],
  ◌∷◌, ◌==◌, str_eq, any, find?, is_some, Exec, Result, ok, err, continue, pure, raise, or_raise,
  raise_if, ◌>>=◌, ◌>>◌, if◌then◌else◌,
}

pub data Status : Type 0 where
  processing capability_completed capability_execution_failed duplicate request_rejected : Status

-- The audit record of a request.
pub record ControlRecord : Type 0 where
  pub transport_issue : ℕ
  pub request_id : String
  pub capability : Option String
  pub is_accepted : Bool
  pub status : Status
  pub error : Option String
  pub execution_start : Option String
  pub execution_end : Option String
  pub result : Option String
  pub original_status : Option Status
  pub original_issue : Option ℕ

-- A file of `requests`, with the name it has.
pub record RequestFile : Type 0 where
  pub correlation : String
  pub content : ControlRecord

-- A file of `issues`.
pub record Delivery : Type 0 where
  pub number : ℕ
  pub content : ControlRecord
  pub posted : Bool
  pub closed : Bool

-- What is on disk, what handlers were invoked for, what was posted and closed, and the power left.
-- The files that do not parse are named apart: loading one raises, so that none is written over.
pub record Control : Type 0 where
  pub requests : List RequestFile
  pub issues : List Delivery
  pub executed : List String
  pub posts : List ℕ
  pub closes : List ℕ
  pub corrupt_requests : List String
  pub corrupt_issues : List ℕ
  pub power : ℕ

pub data Fault : Type 0 where
  killed transport_unavailable corrupt_file : Fault

-- An issue as the transport refreshes it.
pub record Issue : Type 0 where
  pub is_open : Bool
  pub has_title : Bool
  pub is_pull_request : Bool
  pub body : Option String

-- A request that `parse_request` accepts.
pub record ControlRequest : Type 0 where
  pub request_id : String
  pub capability : String
  pub arguments : String

pub data Outcome : Type 0 where
  completed : String → Outcome
  capability_failed timed_out handler_raised : Outcome

-- The transport, the handlers, the clock and Python's decimals, as they answer this time, and what
-- `parse_request` and `resolve` of Requests give, which depends on the clock and the registry:
-- whatever they answer is allowed for here. The redaction of texts is left out.
pub record World : Type 0 where
  pub get_issue : ℕ → Option Issue
  pub parse_request : Option String → Result String ControlRequest
  pub resolve : ControlRequest → Result String (Unit {0})
  pub handler : ControlRequest → Outcome
  pub post_result : Bool
  pub close_issue : Bool
  pub timestamp : String
  pub decimal : ℕ → String

abbrev pub Call : Type 0 → Type 0
Call A = Exec Control Fault A

-- One effect, or the end of the process before it.
unfoldable pub effect_with : ℕ → (Control → Control) → Call (Unit {0})
effect_with zero f d = (err killed, d)
effect_with (suc n) f d = (ok tt, f (record d { power = n }))

unfoldable pub effect : (Control → Control) → Call (Unit {0})
effect f d = effect_with d.power f d

unfoldable pub request_file : String → Control → Option RequestFile
request_file id d = find? (λ (r : RequestFile). str_eq r.correlation id) d.requests

unfoldable pub delivery_of : ℕ → Control → Option Delivery
delivery_of number d = find? (λ (v : Delivery). v.number == number) d.issues

unfoldable pub put_request : RequestFile → Control → Control
put_request r d = record d { requests = r ∷ d.requests }

unfoldable pub put_delivery : Delivery → Control → Control
put_delivery v d = record d { issues = v ∷ d.issues }

unfoldable pub invoke : String → Control → Control
invoke id d = record d { executed = id ∷ d.executed }

unfoldable pub post : ℕ → Control → Control
post number d = record d { posts = number ∷ d.posts }

-- `transport.close_issue`
unfoldable pub close_issue : ℕ → Control → Control
close_issue number d = record d { closes = number ∷ d.closes }

-- Whether `load_json` raises for a request's or an issue's file.
unfoldable pub is_corrupt_request : String → Control → Bool
is_corrupt_request id d = any (λ (s : String). str_eq s id) d.corrupt_requests

unfoldable pub is_corrupt_issue : ℕ → Control → Bool
is_corrupt_issue number d = any (λ (n : ℕ). n == number) d.corrupt_issues

module _ (w : World) where
  -- `record` before the request is parsed.
  unfoldable pub new_record : ℕ → ControlRecord
  new_record number = record {
    transport_issue = number;
    request_id = concat "invalid-issue-" (w.decimal number);
    capability = none;
    is_accepted = false;
    status = request_rejected;
    error = none;
    execution_start = none;
    execution_end = none;
    result = none;
    original_status = none;
    original_issue = none;
  }

  unfoldable pub rejected : String → ControlRecord → ControlRecord
  rejected code r = record r { status = request_rejected; error = some code }

  -- `record.update` for what the handler gave.
  unfoldable pub finished : Outcome → ControlRecord → ControlRecord
  finished (completed result) r = record r {
    status = capability_completed;
    result = some result;
    execution_end = some w.timestamp;
  }
  finished capability_failed r = record r {
    status = capability_execution_failed;
    error = some "source_read_failure";
    execution_end = some w.timestamp;
  }
  finished timed_out r = record r {
    status = capability_execution_failed;
    error = some "execution_timeout";
    execution_end = some w.timestamp;
  }
  finished handler_raised r = record r {
    status = capability_execution_failed;
    error = some "handler_failed";
    execution_end = some w.timestamp;
  }

  unfoldable pub started : ControlRecord → ControlRecord
  started r = record r { status = processing; execution_start = some w.timestamp }

  unfoldable pub execute : ControlRequest → ControlRecord → Call ControlRecord
  execute q r =
      effect (put_request (record { correlation = q.request_id; content = started r }))
      >> (effect (invoke q.request_id)
          >> (effect (
                put_request (record {
                  correlation = q.request_id;
                  content = finished (w.handler q) (started r);
                }))
              >> pure (finished (w.handler q) (started r))))

  unfoldable pub interrupted : ControlRecord → ControlRecord
  interrupted r = record r {
    status = capability_execution_failed;
    error = some "interrupted_execution_not_retried";
    execution_end = some w.timestamp;
  }

  unfoldable pub as_duplicate : ControlRecord → ControlRecord → ControlRecord
  as_duplicate r existing = record r {
    status = duplicate;
    original_status = some existing.status;
    original_issue = some existing.transport_issue;
    result = existing.result;
  }

  abbrev pub is_processing : Status → Bool
  is_processing processing = true
  is_processing s = false

  unfoldable pub repeat : ControlRequest → ControlRecord → ControlRecord → Call ControlRecord
  repeat q r existing d =
      if is_processing existing.status
      then (effect
              (put_request (record { correlation = q.request_id; content = interrupted existing }))
            >> pure (as_duplicate r (interrupted existing)))
          d
      else (ok (as_duplicate r existing), d)

  -- An accepted request, for what its file holds.
  unfoldable pub run_request :
      ControlRequest → ControlRecord → Option RequestFile → Call ControlRecord
  run_request q r none d = execute q r d
  run_request q r (some existing) d = repeat q r existing.content d

  unfoldable pub resolved :
      ControlRequest → ControlRecord → Result String (Unit {0}) → Call ControlRecord
  resolved q r (err code) d = (ok (rejected code r), d)
  resolved q r (ok u) d =
      if is_corrupt_request q.request_id d
      then (err corrupt_file, d)
      else run_request q (record r { is_accepted = true }) (request_file q.request_id d) d

  -- The block that `except Rejected` guards.
  unfoldable pub admitted : ℕ → Result String ControlRequest → Call ControlRecord
  admitted number (err code) d = (ok (rejected code (new_record number)), d)
  admitted number (ok q) d =
      resolved q
        (record (new_record number) { request_id = q.request_id; capability = some q.capability })
        (w.resolve q) d

  -- A call of the transport that changes something.
  unfoldable pub transport : Bool → (Control → Control) → Call (Unit {0})
  transport b f = raise_if (not b) transport_unavailable >> effect f

  unfoldable pub close : Delivery → Call (Option Status)
  close v =
      transport w.close_issue (close_issue v.number)
      >> (effect (put_delivery (record v { closed = true })) >> pure (some v.content.status))

  -- Posting and closing, for whether the result is posted already.
  unfoldable pub publish_posted : Delivery → Bool → Call (Option Status)
  publish_posted v true = close v
  publish_posted v false =
      transport w.post_result (post v.number)
      >> (effect (put_delivery (record v { posted = true })) >> close (record v { posted = true }))

  unfoldable pub publish : Delivery → Call (Option Status)
  publish v = publish_posted v v.posted

  -- A new issue, as it was refreshed.
  unfoldable pub take : ℕ → Option Issue → Call (Option Status)
  take number none d = (err transport_unavailable, d)
  take number (some issue) d =
      if not issue.is_open || (not issue.has_title || issue.is_pull_request)
      then (ok none, d)
      else continue (admitted number (w.parse_request issue.body) d) (λ (r : ControlRecord).
        let v : Delivery = record {
          number = number;
          content = r;
          posted = false;
          closed = false;
        } in
        effect (put_delivery v) >> publish v)

  -- `process` behind the lookup of the issue's file.
  unfoldable pub process_found : ℕ → Option Delivery → Call (Option Status)
  process_found number none d = take number (w.get_issue number) d
  process_found number (some v) d = publish v d

  -- `process`, with 0 for a number that is no positive integer.
  unfoldable pub process : ℕ → Call (Option Status)
  process number d =
      if number == 0
      then (err transport_unavailable, d)
      else if is_corrupt_issue number d
      then (err corrupt_file, d)
      else process_found number (delivery_of number d) d
