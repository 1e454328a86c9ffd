-- ===== src/Control/Once.antt =====
-- A request of src/personal_ai_brain/control_worker.py is executed at most once, wherever the
-- process is killed.
use personal_ai_brain.Prelude.{
  ℕ, suc, zero, ◌+◌, ◌≤◌, String, ◌≡◌, refl, subst, ◌⊎◌, inl, inr, Bool, true, false, not, ◌||◌,
  Bool-cases, Option, none, some, List, [], ◌∷◌, ◌==◌, str_eq, str_eq_refl, eq_iff, is_some, Result,
  ok, err, continue, ◌>>◌, if◌then◌else◌, arith,
}
use personal_ai_brain.Control.{
  ControlRecord, RequestFile, Delivery, Control, Fault, Issue, ControlRequest, World, Call, effect,
  effect_with, request_file, delivery_of, put_request, put_delivery, invoke, post, close_issue,
  is_corrupt_request, is_corrupt_issue, finished, started, execute, is_processing, repeat,
  run_request, resolved, admitted, transport, close, publish_posted, publish, take, process_found,
  process,
}

-- How often a request's handler was invoked.
abbrev pub times : String → List String → ℕ
times id [] = 0
times id (x ∷ xs) = (if str_eq x id then 1 else 0) + times id xs

-- A request without a file was never executed, and any other at most once.
record Once (d : Control) : Type 0 where
  bound : (id : String) → times id d.executed ≤ (if is_some (request_file id d) then 1 else 0)

powered : ℕ → Control → Control
powered n d = record d { power = n }

powered-Once : (n : ℕ) (d : Control) → Once d → Once (record d { power = n })
unfolding request_file
powered-Once n d o = record { bound = o.bound }

module _ {A : Type 0} where
  -- An effect and what follows it, or the end of the process.
  then-Once :
      (f : Control → Control) (m : Call A) (d : Control)
      → Once d
      → ((n : ℕ) → Once (m (f (record d { power = n }))).1)
      → Once ((effect f >> m) d).1
  unfolding effect effect_with
  then-Once f m d o k = go d.power
    where
      go : (n : ℕ) → Once (continue (effect_with n f d) (λ u. m)).1
      go zero = o
      go (suc n) = k n

put_request-Once : (r : RequestFile) (d : Control) → Once d → Once (put_request r d)
unfolding put_request request_file
put_request-Once r d o = record { bound = λ id. ground (arith, o.bound id) }

put_delivery-Once : (v : Delivery) (d : Control) → Once d → Once (put_delivery v d)
unfolding put_delivery request_file
put_delivery-Once v d o = record { bound = o.bound }

post-Once : (n : ℕ) (d : Control) → Once d → Once (post n d)
unfolding post request_file
post-Once n d o = record { bound = o.bound }

invoke-Once :
    (id : String) (d : Control)
    → Once d
    → times id d.executed ≡ 0
    → is_some (request_file id d) ≡ true
    → Once (invoke id d)
unfolding invoke request_file
invoke-Once id d o h k = record {
  bound = λ other. case other (o.bound other) (Bool-cases (str_eq id other));
}
  where
    case :
        (other : String)
        → times other d.executed ≤ (if is_some (request_file other d) then 1 else 0)
        → (str_eq id other ≡ true) ⊎ (str_eq id other ≡ false)
        → times other (invoke id d).executed
          ≤ (if is_some (request_file other (invoke id d)) then 1 else 0)
    case other b (inl e) =
        let same : id ≡ other = (eq_iff id other).0 e in
        let none_yet : times other d.executed ≡ 0 = subst (λ v. times v d.executed ≡ 0) same h in
        let there : is_some (request_file other d) ≡ true =
          subst (λ v. is_some (request_file v d) ≡ true) same k in
        rw (e, there) (ground arith)
    case other b (inr e) = rw e (ground arith)

-- The first write does not execute.
unexecuted :
    (id : String) (d : Control) (n m : ℕ) (r : RequestFile)
    → request_file id d ≡ none
    → Once d
    → times id (record (put_request r (record d { power = n })) { power = m }).executed ≡ 0
unfolding put_request
unexecuted id d n m r h o = let b = o.bound id in ground arith

saved_file :
    (r : RequestFile) (d : Control) (n m : ℕ)
    → is_some
        (request_file r.correlation (record (put_request r (record d { power = n })) { power = m }))
      ≡ true
unfolding put_request request_file
saved_file r d n m = rw (str_eq_refl r.correlation) refl

close_issue-Once : (n : ℕ) (d : Control) → Once d → Once (close_issue n d)
unfolding close_issue request_file
close_issue-Once n d o = record { bound = o.bound }

module _ (w : World) where
  execute-Once :
      (q : ControlRequest) (r : ControlRecord) (d : Control)
      → request_file q.request_id d ≡ none
      → Once d
      → Once (execute w q r d).1
  unfolding execute
  execute-Once q r d h o =
      let first : RequestFile = record { correlation = q.request_id; content = started w r } in
      let last : RequestFile = record {
        correlation = q.request_id;
        content = finished w (w.handler q) (started w r);
      } in
      then-Once (put_request first) _ d o (λ n.
        let saved : Once (put_request first (record d { power = n })) =
          put_request-Once first _ (powered-Once n d o) in
        then-Once (invoke q.request_id) _ _ saved (λ m.
          let called : Once (
              invoke q.request_id
                (record (put_request first (record d { power = n })) { power = m })) =
            invoke-Once q.request_id _ (powered-Once m _ saved)
              (unexecuted q.request_id d n m first h o) (saved_file first d n m) in
          then-Once (put_request last) _ _ called
            (λ k. put_request-Once last _ (powered-Once k _ called))))

  repeat-Once :
      (q : ControlRequest) (r existing : ControlRecord) (d : Control)
      → Once d
      → Once (repeat w q r existing d).1
  unfolding repeat
  repeat-Once q r existing d o = elim (Bool-cases (is_processing w existing.status)) [
    | inl e ↦
        rw e (then-Once (put_request _) _ d o (λ n. put_request-Once _ _ (powered-Once n d o)))
    | inr e ↦ rw e o
  ]

  run_request-Once :
      (q : ControlRequest) (r : ControlRecord) (f : Option RequestFile) (d : Control)
      → request_file q.request_id d ≡ f
      → Once d
      → Once (run_request w q r f d).1
  unfolding run_request
  run_request-Once q r none d h o = execute-Once q r d h o
  run_request-Once q r (some x) d h o = repeat-Once q r x.content d o

  resolved-Once :
      (q : ControlRequest) (r : ControlRecord) (x : Result String (Unit {0})) (d : Control)
      → Once d
      → Once (resolved w q r x d).1
  unfolding resolved
  resolved-Once q r (err code) d o = o
  resolved-Once q r (ok u) d o = elim (Bool-cases (is_corrupt_request q.request_id d)) [
    | inl e ↦ rw e o
    | inr e ↦ rw e (run_request-Once q _ (request_file q.request_id d) d refl o)
  ]

  admitted-Once :
      (number : ℕ) (x : Result String ControlRequest) (d : Control)
      → Once d
      → Once (admitted w number x d).1
  unfolding admitted
  admitted-Once number (err code) d o = o
  admitted-Once number (ok q) d o = resolved-Once q _ (w.resolve q) d o

  transport-Once :
      {A : Type 0} (b : Bool) (f : Control → Control) (m : Call A) (d : Control)
      → Once d
      → ((n : ℕ) → Once (m (f (record d { power = n }))).1)
      → Once ((transport w b f >> m) d).1
  unfolding transport
  transport-Once true f m d o k = then-Once f m d o k
  transport-Once false f m d o k = o

  close-Once : (v : Delivery) (d : Control) → Once d → Once (close w v d).1
  unfolding close
  close-Once v d o = transport-Once w.close_issue (close_issue v.number) _ d o (λ n.
      let here = close_issue-Once v.number _ (powered-Once n d o) in
      then-Once (put_delivery _) _ _ here (λ m. put_delivery-Once _ _ (powered-Once m _ here)))

  publish_posted-Once :
      (v : Delivery) (b : Bool) (d : Control) → Once d → Once (publish_posted w v b d).1
  unfolding publish_posted
  publish_posted-Once v true d o = close-Once v d o
  publish_posted-Once v false d o = transport-Once w.post_result (post v.number) _ d o (λ n.
      let posted = post-Once v.number _ (powered-Once n d o) in
      then-Once (put_delivery _) _ _ posted
        (λ m. close-Once _ _ (put_delivery-Once _ _ (powered-Once m _ posted))))

  publish-Once : (v : Delivery) (d : Control) → Once d → Once (publish w v d).1
  unfolding publish
  publish-Once v d o = publish_posted-Once v v.posted d o

  take-Once : (number : ℕ) (x : Option Issue) (d : Control) → Once d → Once (take w number x d).1
  unfolding take
  take-Once number none d o = o
  take-Once number (some issue) d o =
      elim (Bool-cases (not issue.is_open || (not issue.has_title || issue.is_pull_request))) [
        | inl e ↦ rw e o
        | inr e ↦ rw e (
            go (admitted w number (w.parse_request issue.body) d)
              (admitted-Once number (w.parse_request issue.body) d o))
      ]
    where
      go :
          (x : Result Fault ControlRecord × Control)
          → Once x.1
          → Once
              (continue x (λ (r : ControlRecord).
                let v : Delivery = record {
                  number = number;
                  content = r;
                  posted = false;
                  closed = false;
                } in
                effect (put_delivery v) >> publish w v)).1
      go (ok r, e) k =
          then-Once (put_delivery _) _ e k
            (λ n. publish-Once _ _ (put_delivery-Once _ _ (powered-Once n e k)))
      go (err f, e) k = k

  process_found-Once :
      (number : ℕ) (x : Option Delivery) (d : Control)
      → Once d
      → Once (process_found w number x d).1
  unfolding process_found
  process_found-Once number none d o = take-Once number (w.get_issue number) d o
  process_found-Once number (some v) d o = publish-Once v d o

  process-Once : (number : ℕ) (d : Control) → Once d → Once (process w number d).1
  unfolding process
  process-Once number d o = elim (Bool-cases (number == 0)) [
    | inl e ↦ rw e o
    | inr e ↦ elim (Bool-cases (is_corrupt_issue number d)) [
      | inl f ↦ rw (e, f) o
      | inr f ↦ rw (e, f) (process_found-Once number (delivery_of number d) d o)
    ]
  ]

-- One process of an issue: what the world answers, the power until it is killed, and the number.
pub record Run : Type 0 where
  pub world : World
  pub power : ℕ
  pub number : ℕ

abbrev pub run : List Run → Control → Control
run [] d = d
run (r ∷ rs) d = run rs (process r.world r.number (record d { power = r.power })).1

abbrev pub empty : Control
empty = record {
  requests = [];
  issues = [];
  executed = [];
  posts = [];
  closes = [];
  corrupt_requests = [];
  corrupt_issues = [];
  power = 0;
}

run-Once : (rs : List Run) (d : Control) → Once d → Once (run rs d)
run-Once [] d o = o
run-Once (r ∷ rs) d o = run-Once rs _ (process-Once r.world r.number _ (powered-Once r.power d o))

empty-Once : Once empty
unfolding request_file
empty-Once = record { bound = λ id. ground arith }

-- From an empty state, however often issues are processed, in any order, with the same or other
-- requests, wherever each process is killed and whatever the transport and the handlers answer:
-- the handler is invoked at most once for each request id.
pub run-times : (rs : List Run) (id : String) → times id (run rs empty).executed ≤ 1
run-times rs id =
    let b = (run-Once rs empty empty-Once).bound id in
    ground (arith, Bool-cases (is_some (request_file id (run rs empty))))
