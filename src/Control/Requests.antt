-- ===== src/Control/Requests.antt =====
-- `parse_request`, the argument checks and the policy of capabilities of
-- src/personal_ai_brain/control.py.
pub mod Policy
mod Tests
use Prim.Native.Char.{code}
use personal_ai_brain.Prelude.{
  ℕ, ◌+◌, suc, zero, String, Bool, true, false, not, ◌&&◌, ◌||◌, Option, none, some, List, [], ◌∷◌,
  ◌++◌, ◌==◌, leb, any, all, find?, member, str_eq, ℤ, pos, negsuc, Result, ok, err, if◌then◌else◌,
}
use personal_ai_brain.Prelude.Values.{
  Value, null, boolean, integer, scalar, text, sequence, mapping, Values, Fields, end, field, get,
  get_or, require, ◌>>=◌,
}

-- `json.loads` with the hook for pairs and constants.
pub data Json : Type 0 where
  malformed duplicate_json_key : Json
  parsed : Value → Json

-- The length in UTF-8, `json.loads`, the canonical text of a UUID (none where it does not parse),
-- the shape and the instant of a time in microseconds, and the present instant.
pub record Reader : Type 0 where
  pub utf8_length : String → ℕ
  pub json : String → Json
  pub uuid : String → Option String
  pub is_date_shape : String → Bool
  pub instant : String → Option ℕ
  pub now : ℕ

pub record Request : Type 0 where
  pub request_id : String
  pub capability : String
  pub arguments : Fields
  pub requested_by : String
  pub requested_at : String

abbrev pub fields : List String
fields =
    "schema_version" ∷ "request_id" ∷ "capability" ∷ "arguments" ∷ "requested_by" ∷ "requested_at"
    ∷ []

abbrev pub keys : Fields → List String
keys end = []
keys (field k v fs) = k ∷ keys fs

-- `set(data) == fields`
unfoldable pub has_fields : Fields → Bool
has_fields fs =
    all (λ (k : String). member k fields) (keys fs)
    && all (λ (k : String). member k (keys fs)) fields

abbrev pub is_token_char : ℕ → Bool
is_token_char c =
    (leb 48 c && leb c 57)
    || (leb 65 c && leb c 90)
    || (leb 97 c && leb c 122)
    || c == 95
    || c == 46
    || c == 45

unfoldable pub are_token_chars : String → ℕ → Bool
are_token_chars String.[] n = true
are_token_chars (String.◌∷◌ c s) zero = false
are_token_chars (String.◌∷◌ c s) (suc n) = is_token_char (code c) && are_token_chars s n

-- `re.fullmatch(r"[A-Za-z0-9_.-]{1,64}", value)`
unfoldable pub is_token : String → Bool
is_token s = not (str_eq s "") && are_token_chars s 64

abbrev pub is_text_of : String → Option Value → Bool
is_text_of s (some (text t)) = str_eq t s
is_text_of s v = false

-- A text with a property, or a rejection.
unfoldable pub as_text : (String → Bool) → String → Option Value → Result String String
as_text p code (some (text t)) = if p t then ok t else err code
as_text p code v = err code

unfoldable pub as_arguments : Option Value → Result String Fields
as_arguments (some (mapping fs)) = ok fs
as_arguments v = err "arguments"

module _ (r : Reader) where
  -- The test of the request's id, where an unparsable one is a ValueError.
  unfoldable pub as_request_id : Option Value → Result String String
  as_request_id (some (text t)) = elim (r.uuid t) [
    | none ↦ err "malformed_request"
    | some canonical ↦ (if str_eq canonical t then ok t else err "request_id")
  ]
  as_request_id v = err "request_id"

  abbrev pub is_in_window : ℕ → Bool
  is_in_window at = leb at (r.now + 300000000) && leb r.now (at + 604800000000)

  unfoldable pub check_time : String → Option ℕ → Result String String
  check_time t none = err "malformed_request"
  check_time t (some at) = if is_in_window at then ok t else err "request_expired_or_future"

  unfoldable pub parse_data : Value → Result String Request
  parse_data (mapping fs) = do
    _ ← require (has_fields fs) "request_schema"
    _ ← require (is_text_of "0.1" (get "schema_version" fs)) "request_schema"
    request_id ← as_request_id (get "request_id" fs)
    capability ← as_text is_token "request_schema" (get "capability" fs)
    requested_by ← as_text is_token "request_schema" (get "requested_by" fs)
    arguments ← as_arguments (get "arguments" fs)
    date ← as_text r.is_date_shape "requested_at" (get "requested_at" fs)
    requested_at ← check_time date (r.instant date)
    ok (record {
      request_id = request_id;
      capability = capability;
      arguments = arguments;
      requested_by = requested_by;
      requested_at = requested_at;
    })
  parse_data v = err "request_schema"

  unfoldable pub parse_json : Json → Result String Request
  parse_json malformed = err "malformed_request"
  parse_json duplicate_json_key = err "duplicate_json_key"
  parse_json (parsed v) = parse_data v

  -- `parse_request`
  unfoldable pub parse_request : Option String → Result String Request
  parse_request none = err "request_size"
  parse_request (some body) =
      if leb (r.utf8_length body) 8192 then parse_json (r.json body) else err "request_size"

-- `no_arguments`
unfoldable pub no_arguments : Fields → Result String Fields
no_arguments end = ok end
no_arguments fs = err "invalid_arguments"

abbrev pub line_count : Value → Option ℕ
line_count (integer (pos n)) = if leb 1 n && leb n 100 then some n else none
line_count v = none

-- `log_arguments`
unfoldable pub log_arguments : Fields → Result String ℕ
log_arguments fs =
    if all (λ (k : String). str_eq k "lines") (keys fs)
    then elim (line_count (get_or "lines" (integer (pos 30)) fs)) [
      | none ↦ err "invalid_arguments"
      | some n ↦ ok n
    ]
    else err "invalid_arguments"

pub record Capability : Type 0 where
  pub id : String
  pub risk_level : String
  pub side_effect_class : String

abbrev pub Capabilities : Type 0
Capabilities = List Capability

-- The two capabilities that may hand over work.
abbrev pub is_bounded_work : Capability → Bool
is_bounded_work c =
    member c.id ("work.submit" ∷ "work.cancel" ∷ [])
    && (str_eq c.risk_level "bounded_work" && str_eq c.side_effect_class "local_work_handoff")

-- `Registry.register`
unfoldable pub register_capability : Capability → Capabilities → Result String Capabilities
register_capability c cs =
    if any (λ (x : Capability). str_eq x.id c.id) cs
    then err "duplicate_capability"
    else if not (is_bounded_work c)
        && (not (str_eq c.risk_level "read_only") || not (str_eq c.side_effect_class "none"))
    then err "capability_policy_denied"
    else ok (cs ++ c ∷ [])

-- `Registry.__init__`
unfoldable pub register_capabilities : List Capability → Capabilities → Result String Capabilities
register_capabilities [] known = ok known
register_capabilities (c ∷ cs) known = do
  more ← register_capability c known
  register_capabilities cs more

-- `Registry.resolve`, less the validation of the arguments.
unfoldable pub resolve : String → Capabilities → Result String Capability
resolve name cs = elim (find? (λ (c : Capability). str_eq c.id name) cs) [
  | none ↦ err "unknown_capability"
  | some c ↦ ok c
]
