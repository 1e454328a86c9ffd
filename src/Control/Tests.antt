-- ===== src/Control/Tests.antt =====
-- One request, processed, killed and repeated.
use personal_ai_brain.Prelude.{
  ℕ, ◌≤◌, ◌≡◌, ◌≢◌, refl, arith, String, true, false, Option, some, List, [], ◌∷◌, ok,
}
use personal_ai_brain.Control.{
  Status, Issue, ControlRequest, completed, World, process, process_found, take, admitted, resolved,
  run_request, execute, repeat, transport, close, publish, publish_posted, effect, effect_with,
  request_file, delivery_of, put_request, put_delivery, invoke, post, close_issue,
  is_corrupt_request, is_corrupt_issue, started, finished, interrupted, as_duplicate, new_record,
}
use personal_ai_brain.Control.Delivers.{more_8, Done, posts_due, calls_due, process-IsDelivered}
use personal_ai_brain.Control.Once.{times, Run, run, empty, run-times}

abbrev number : ℕ
number = 1

abbrev request : ControlRequest
request = record { request_id = "7a"; capability = "runtime.health"; arguments = "{}" }

abbrev issue : Issue
issue = record { is_open = true; has_title = true; is_pull_request = false; body = some "{}" }

abbrev world : World
world = record {
  get_issue = λ (n : ℕ). some issue;
  parse_request = λ (b : Option String). ok request;
  resolve = λ (q : ControlRequest). ok tt;
  handler = λ (q : ControlRequest). completed "healthy";
  post_result = true;
  close_issue = true;
  timestamp = "2026-07-01T00:00:00Z";
  decimal = λ (n : ℕ). "1";
}

-- Killed behind the invocation, then retried, then sent again as another issue.
abbrev runs : List Run
runs =
    record { world = world; power = 2; number = 1 }
    ∷ record { world = world; power = 20; number = 1 }
    ∷ record { world = world; power = 20; number = 2 }
    ∷ []

run-times_example : times "7a" (run runs empty).executed ≤ 1
run-times_example = run-times runs "7a"

executed_once : (run runs empty).executed ≡ "7a" ∷ []
unfolding process process_found take admitted resolved run_request execute repeat transport close
    publish publish_posted effect effect_with request_file delivery_of put_request put_delivery
    invoke post close_issue is_corrupt_request is_corrupt_issue started finished interrupted
    as_duplicate new_record
executed_once = refl

both_posted : (run runs empty).posts ≡ 2 ∷ 1 ∷ []
unfolding process process_found take admitted resolved run_request execute repeat transport close
    publish publish_posted effect effect_with request_file delivery_of put_request put_delivery
    invoke post close_issue is_corrupt_request is_corrupt_issue started finished interrupted
    as_duplicate new_record
both_posted = refl

one_positive : number ≢ 0
one_positive h = ground arith

readable_issue : is_corrupt_issue 1 empty ≡ false
unfolding is_corrupt_issue
readable_issue = refl

readable_request :
    (q : ControlRequest)
    → world.parse_request issue.body ≡ ok q
    → is_corrupt_request q.request_id empty ≡ false
unfolding is_corrupt_request
readable_request q h = refl

process-IsDelivered_example :
    (s : Status) × Done 1 s
      (posts_due 1 (delivery_of 1 empty) empty)
      (calls_due world issue (delivery_of 1 empty) empty)
      empty
      (process world 1 (record empty { power = more_8 0 }))
process-IsDelivered_example =
    process-IsDelivered world 1 empty 0 issue refl refl one_positive refl refl readable_issue
      readable_request
