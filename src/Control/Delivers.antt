-- ===== src/Control/Delivers.antt =====
-- A process of src/personal_ai_brain/control_worker.py that is not killed delivers its issue.
use personal_ai_brain.Prelude.{
  ℕ, suc, ◌≡◌, ◌≢◌, refl, subst, inl, inr, Bool, true, false, not, ◌&&◌, ◌||◌, Bool-cases, Option,
  List, ◌∷◌, ap, ◌∙◌, if◌then◌else◌, none, some, String, ◌==◌, find?-passes, ok, err, Result, arith,
}
use personal_ai_brain.Control.{
  ControlRecord, RequestFile, Delivery, Control, Fault, Issue, ControlRequest, World, Status,
  effect, effect_with, request_file, delivery_of, put_request, put_delivery, invoke, post,
  close_issue, is_corrupt_request, is_corrupt_issue, new_record, rejected, finished, started,
  execute, interrupted, as_duplicate, is_processing, repeat, run_request, resolved, admitted,
  transport, close, publish_posted, publish, take, process_found, process,
}

abbrev more_5 : ℕ → ℕ
more_5 n = suc (suc (suc (suc (suc n))))

abbrev pub more_8 : ℕ → ℕ
more_8 n = suc (suc (suc (more_5 n)))

-- An issue's file has the status, and says that its result was posted and that it was closed.
pub record IsDelivered (number : ℕ) (s : Status) (d : Control) : Type 0 where
  pub delivery : Delivery
  pub found : delivery_of number d ≡ some delivery
  pub status : delivery.content.status ≡ s
  pub posted : delivery.posted ≡ true
  pub closed : delivery.closed ≡ true

-- What a process leaves: its result, the issue's file, the close, the posts and the invocations.
abbrev pub Done :
    ℕ → Status → List ℕ → List String → Control → Result Fault (Option Status) × Control → Type 0
Done number s posts executed d x =
    (x.0 ≡ ok (some s))
    × IsDelivered number s x.1
    × (x.1.closes ≡ number ∷ d.closes)
    × (x.1.posts ≡ posts)
    × (x.1.executed ≡ executed)

-- The posts behind a process: one more, unless the issue's file says that it is posted.
abbrev pub posts_due : ℕ → Option Delivery → Control → List ℕ
posts_due number none d = number ∷ d.posts
posts_due number (some v) d = if v.posted then d.posts else number ∷ d.posts

-- The invocations behind it: one more, if the issue has no file, its request is accepted, and the
-- request has no file.
abbrev pub calls_of :
    ControlRequest → Result String (Unit {0}) → Option RequestFile → Control → List String
calls_of q (err code) f d = d.executed
calls_of q (ok u) (some x) d = d.executed
calls_of q (ok u) none d = q.request_id ∷ d.executed

abbrev pub calls_for : World → Result String ControlRequest → Control → List String
calls_for w (err code) d = d.executed
calls_for w (ok q) d = calls_of q (w.resolve q) (request_file q.request_id d) d

abbrev pub calls_due : World → Issue → Option Delivery → Control → List String
calls_due w issue none d = calls_for w (w.parse_request issue.body) d
calls_due w issue (some v) d = d.executed

put_delivery-IsDelivered :
    (v : Delivery) (d : Control)
    → v.posted ≡ true
    → v.closed ≡ true
    → IsDelivered v.number v.content.status (put_delivery v d)
unfolding put_delivery delivery_of
put_delivery-IsDelivered v d h k = record {
  delivery = v;
  found = ground arith;
  status = refl;
  posted = h;
  closed = k;
}

named : (a b : ℕ) → (a == b) ≡ true → a ≡ b
named a b h = ground arith

module _ (w : World) (can_post : w.post_result ≡ true) (can_close : w.close_issue ≡ true) where
  close_ok :
      (v : Delivery) (d : Control) (n : ℕ)
      → v.posted ≡ true
      → Done v.number v.content.status d.posts d.executed d
          (close w v (record d { power = suc (suc n) }))
  unfolding close transport effect effect_with close_issue put_delivery
  close_ok v d n h = rw can_close (refl, put_delivery-IsDelivered _ _ h refl, refl, refl, refl)

  publish_posted_ok :
      (v : Delivery) (b : Bool) (d : Control) (n : ℕ)
      → v.posted ≡ b
      → Done v.number v.content.status
          (if b then d.posts else v.number ∷ d.posts)
          d.executed
          d
          (publish_posted w v b (record d { power = suc (suc (suc (suc n))) }))
  unfolding publish_posted transport effect effect_with post put_delivery
  publish_posted_ok v true d n h = close_ok v d (suc (suc n)) h
  publish_posted_ok v false d n h = simp can_post (
      close_ok (record v { posted = true })
        (put_delivery (record v { posted = true }) (post v.number d)) n refl)

  -- The request is dealt with by at most three effects, and these invocations.
  abbrev Leaves : Control → List String → Result Fault ControlRecord × Control → Type 0
  Leaves d executed x =
      (r : ControlRecord) × (e : Control) × (k : ℕ) × (x ≡ (ok r, record e { power = more_5 k }))
      × (e.posts ≡ d.posts)
      × (e.closes ≡ d.closes)
      × (e.executed ≡ executed)

  run_request_ok :
      (q : ControlRequest) (r : ControlRecord) (f : Option RequestFile) (d : Control) (n : ℕ)
      → Leaves d (calls_of q (ok tt) f d) (run_request w q r f (record d { power = more_8 n }))
  unfolding run_request execute repeat effect effect_with put_request invoke
  run_request_ok q r none d n = (
    finished w (w.handler q) (started w r),
    put_request
        (record { correlation = q.request_id; content = finished w (w.handler q) (started w r) })
        (invoke q.request_id
          (put_request (record { correlation = q.request_id; content = started w r }) d)),
    n,
    refl,
    refl,
    refl,
    refl,
  )
  run_request_ok q r (some x) d n = elim (Bool-cases (is_processing w x.content.status)) [
    | inl e ↦ (
      as_duplicate w r (interrupted w x.content),
      put_request (record { correlation = q.request_id; content = interrupted w x.content }) d,
      suc (suc n),
      rw e refl,
      refl,
      refl,
      refl,
    )
    | inr e ↦ (as_duplicate w r x.content, d, suc (suc (suc n)), rw e refl, refl, refl, refl)
  ]

  resolved_ok :
      (q : ControlRequest) (r : ControlRecord) (x : Result String (Unit {0})) (d : Control) (n : ℕ)
      → is_corrupt_request q.request_id d ≡ false
      → Leaves d
          (calls_of q x (request_file q.request_id d) d)
          (resolved w q r x (record d { power = more_8 n }))
  unfolding resolved is_corrupt_request request_file
  resolved_ok q r (err code) d n c =
      (rejected w code r, d, suc (suc (suc n)), refl, refl, refl, refl)
  resolved_ok q r (ok u) d n c =
      rw c (run_request_ok q (record r { is_accepted = true }) (request_file q.request_id d) d n)

  admitted_ok :
      (number : ℕ) (x : Result String ControlRequest) (d : Control) (n : ℕ)
      → ((q : ControlRequest) → x ≡ ok q → is_corrupt_request q.request_id d ≡ false)
      → Leaves d (calls_for w x d) (admitted w number x (record d { power = more_8 n }))
  unfolding admitted
  admitted_ok number (err code) d n c =
      (rejected w code (new_record w number), d, suc (suc (suc n)), refl, refl, refl, refl)
  admitted_ok number (ok q) d n c = resolved_ok q _ (w.resolve q) d n (c q refl)

  abbrev Delivers :
      ℕ → Issue → Option Delivery → Control → Result Fault (Option Status) × Control → Type 0
  Delivers number issue o d x =
      (s : Status) × Done number s (posts_due number o d) (calls_due w issue o d) d x

  take_ok :
      (number : ℕ) (issue : Issue) (d : Control) (n : ℕ)
      → (issue.is_open && (issue.has_title && not issue.is_pull_request)) ≡ true
      → ((q : ControlRequest)
          → w.parse_request issue.body ≡ ok q
          → is_corrupt_request q.request_id d ≡ false)
      → Delivers number issue none d (take w number (some issue) (record d { power = more_8 n }))
  unfolding take effect effect_with publish put_delivery
  take_ok number issue d n h c =
      let closed : (not issue.is_open || (not issue.has_title || issue.is_pull_request)) ≡ false =
        ground arith in
      let (r, e, k, x, posts, closes, executed) =
        admitted_ok number (w.parse_request issue.body) d n c in
      let v : Delivery = record { number = number; content = r; posted = false; closed = false } in
      let (returned, delivered, shut, sent, called) =
        publish_posted_ok v false (put_delivery v e) k refl in
      (
        r.status,
        rw (closed, x)
            (
              returned,
              delivered,
              shut ∙ ap (λ (l : List ℕ). number ∷ l) closes,
              sent ∙ ap (λ (l : List ℕ). number ∷ l) posts,
              called ∙ executed,
            ),
      )

  process_found_ok :
      (number : ℕ) (o : Option Delivery) (d : Control) (n : ℕ) (issue : Issue)
      → delivery_of number d ≡ o
      → w.get_issue number ≡ some issue
      → (issue.is_open && (issue.has_title && not issue.is_pull_request)) ≡ true
      → ((q : ControlRequest)
          → w.parse_request issue.body ≡ ok q
          → is_corrupt_request q.request_id d ≡ false)
      → Delivers number issue o d (process_found w number o (record d { power = more_8 n }))
  unfolding process_found publish delivery_of
  process_found_ok number none d n issue e g h c = rw g (take_ok number issue d n h c)
  process_found_ok number (some v) d n issue e g h c =
      let same : v.number ≡ number =
        named v.number number (find?-passes (λ (x : Delivery). x.number == number) d.issues v e) in
      let p = publish_posted_ok v v.posted d (suc (suc (suc (suc n)))) refl in
      (
        v.content.status,
        subst
            (λ k.
              Done k v.content.status (if v.posted then d.posts else k ∷ d.posts) d.executed d
                (publish_posted w v v.posted (record d { power = more_8 n })))
            same p,
      )

-- An issue whose process is not killed for eight effects, whose transport answers, and whose file
-- and its request's file parse if they are there, is dealt with, whatever its request, the
-- registry and the handler are and whatever else is on disk: if it is an open request when it is
-- refreshed, the process returns a status, which the issue's file then has with the marks that the
-- result was posted and the issue closed. The issue was closed once; its result was posted once,
-- or not at all if its file said that it was posted; and the handler was invoked once if the issue
-- had no file and its request was accepted and had none, and otherwise not at all.
pub process-IsDelivered :
    (w : World) (number : ℕ) (d : Control) (n : ℕ) (issue : Issue)
    → w.post_result ≡ true
    → w.close_issue ≡ true
    → number ≢ 0
    → w.get_issue number ≡ some issue
    → (issue.is_open && (issue.has_title && not issue.is_pull_request)) ≡ true
    → is_corrupt_issue number d ≡ false
    → ((q : ControlRequest)
        → w.parse_request issue.body ≡ ok q
        → is_corrupt_request q.request_id d ≡ false)
    → (s : Status) × Done number s
        (posts_due number (delivery_of number d) d)
        (calls_due w issue (delivery_of number d) d)
        d
        (process w number (record d { power = more_8 n }))
unfolding process delivery_of is_corrupt_issue
process-IsDelivered w number d n issue can_post can_close z g h i c =
    let positive : (number == 0) ≡ false = ground arith in
    let (s, done) =
      process_found_ok w can_post can_close number (delivery_of number d) d n issue refl g h c in
    (s, rw (positive, i) done)
