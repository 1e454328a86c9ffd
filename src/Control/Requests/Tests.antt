-- ===== src/Control/Requests/Tests.antt =====
-- One request's body and one registry.
use personal_ai_brain.Prelude.{◌≤◌, ◌≡◌, refl, String, true, some, [], ◌∷◌, ok, member}
use personal_ai_brain.Prelude.Values.{Value, text, mapping, end, field}
use personal_ai_brain.Control.Requests.{
  parsed, Reader, Request, Capability, has_fields, is_token, are_token_chars, as_text, as_arguments,
  as_request_id, check_time, parse_data, parse_json, parse_request, register_capability,
  register_capabilities, resolve,
}
use personal_ai_brain.Control.Requests.Policy.{
  IsRequest, IsAllowed, parse_request-IsRequest, resolve-IsAllowed,
}

abbrev data_of_body : Value
data_of_body = mapping (
    field "schema_version" (text "0.1") (
      field "request_id" (text "7a") (
        field "capability" (text "runtime.health") (
          field "arguments" (mapping end) (
            field "requested_by" (text "owner")
              (field "requested_at" (text "2026-07-01T00:00:00Z") end))))))

abbrev reader : Reader
reader = record {
  utf8_length = λ (t : String). 200;
  json = λ (t : String). parsed data_of_body;
  uuid = λ (t : String). some t;
  is_date_shape = λ (t : String). true;
  instant = λ (t : String). some 1000;
  now = 2000;
}

abbrev request : Request
request = record {
  request_id = "7a";
  capability = "runtime.health";
  arguments = end;
  requested_by = "owner";
  requested_at = "2026-07-01T00:00:00Z";
}

body_parsed : parse_request reader (some "{}") ≡ ok request
unfolding parse_request parse_json parse_data has_fields member as_request_id as_text is_token
    are_token_chars as_arguments check_time
body_parsed = refl

parse_request-IsRequest_example : (200 ≤ 8192) × IsRequest reader request
parse_request-IsRequest_example = parse_request-IsRequest reader "{}" request body_parsed

abbrev health : Capability
health = record { id = "runtime.health"; risk_level = "read_only"; side_effect_class = "none" }

abbrev submission : Capability
submission = record {
  id = "work.submit";
  risk_level = "bounded_work";
  side_effect_class = "local_work_handoff";
}

both_registered :
    register_capabilities (health ∷ submission ∷ []) [] ≡ ok (health ∷ submission ∷ [])
unfolding register_capabilities register_capability member
both_registered = refl

submission_resolved : resolve "work.submit" (health ∷ submission ∷ []) ≡ ok submission
unfolding resolve
submission_resolved = refl

abbrev work_submit : String
work_submit = "work.submit"

resolve-IsAllowed_example : (submission.id ≡ work_submit) × IsAllowed submission
resolve-IsAllowed_example =
    resolve-IsAllowed (health ∷ submission ∷ []) (health ∷ submission ∷ []) "work.submit" submission
      both_registered submission_resolved
