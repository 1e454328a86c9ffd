-- ===== src/Work/Transition/Chains.antt =====
-- What a chain of changes of a task's record cannot do: leave a terminal status, undo or outrun a
-- cancellation, run twice, change the request.
use personal_ai_brain.Prelude.{
  ℕ, ◌+◌, ◌≤◌, String, ◌≡◌, refl, subst, ◌∙◌, true, false, Option, none, some, List, [], ◌∷◌, ◌++◌,
  arith, some_inv, if◌then◌else◌,
}
use personal_ai_brain.Work.Store.{
  Status, submitted, reserved, running, succeeded, failed, blocked, cancelled, interrupted, Entry,
  TaskRecord, Request, Host, edge, is_terminal, same_status, new_record,
}
use personal_ai_brain.Work.Transition.{Extra, moved, is_progress}
use personal_ai_brain.Work.Transition.History.{
  Change, ask, move, Chain, stay, next, Later, absent, admitted, kept,
}

edge_live : (s t : Status) → edge s t ≡ true → is_terminal s ≡ false
unfolding edge is_terminal
edge_live submitted t h = refl
edge_live reserved t h = refl
edge_live running t h = refl
edge_live succeeded t h = absurd (ground arith)
edge_live failed t h = absurd (ground arith)
edge_live blocked t h = absurd (ground arith)
edge_live cancelled t h = absurd (ground arith)
edge_live interrupted t h = absurd (ground arith)

moved_status :
    (host : Host) (r : TaskRecord) (status : Status) (code : String) (extra : Extra)
    → (moved host r status code extra).status ≡ status
unfolding moved
moved_status host r status code extra = refl

moved_asked :
    (host : Host) (r : TaskRecord) (status : Status) (code : String) (extra : Extra)
    → (moved host r status code extra).cancel_requested ≡ r.cancel_requested
unfolding moved
moved_asked host r status code extra = refl

Change-live : (r s : TaskRecord) → Change r s → is_terminal r.status ≡ false
Change-live r s (ask host h) = h
Change-live r s (move host status code extra e c) = edge_live r.status status e

pub Chain-final : (r s : TaskRecord) → is_terminal r.status ≡ true → Chain r s → s ≡ r
Chain-final r s t stay = refl
Chain-final r s t (next {s = u} c x) =
    let same : u ≡ r = Chain-final r u t c in
    let live : is_terminal r.status ≡ false =
      subst (λ v. is_terminal v.status ≡ false) same (Change-live u s x) in
    absurd (ground arith)

-- Cancellation stays requested, and a status that it forbids is the one it found.
pub Chain-asked :
    (r s : TaskRecord)
    → r.cancel_requested ≡ true
    → Chain r s
    → (s.cancel_requested ≡ true) × (is_progress s.status ≡ true → s.status ≡ r.status)
Chain-asked r s h stay = (h, λ p. refl)
Chain-asked r s h (next {s = u} c (ask host live)) = (refl, (Chain-asked r u h c).1)
Chain-asked r s h (next {s = u} c (move host status code extra e f)) =
    let past = Chain-asked r u h c in
    (
      moved_asked host u status code extra ∙ past.0,
      λ p. absurd (
          let asked : u.cancel_requested ≡ true = past.0 in
          let forbidden : is_progress status ≡ true =
            subst (λ v. is_progress v ≡ true) (moved_status host u status code extra) p in
          ground arith),
    )

-- How often a task's history says that it was run.
abbrev pub times_run : List Entry → ℕ
times_run [] = 0
times_run (e ∷ es) = (if same_status e.status running then 1 else 0) + times_run es

times_run-append :
    (xs : List Entry) (e : Entry)
    → times_run (xs ++ e ∷ []) ≡ times_run xs + (if same_status e.status running then 1 else 0)
times_run-append [] e = ground arith
times_run-append (x ∷ xs) e = ground (arith, times_run-append xs e)

-- The runs that a status leaves room for.
abbrev pub runs_by : Status → ℕ
runs_by submitted = 0
runs_by reserved = 0
runs_by _ = 1

runs_by-edge :
    (s t : Status)
    → edge s t ≡ true
    → runs_by s + (if same_status t running then 1 else 0) ≤ runs_by t
unfolding edge is_terminal
runs_by-edge submitted t h = ground arith
runs_by-edge reserved t h = ground arith
runs_by-edge running t h = ground arith
runs_by-edge s t h = absurd (ground arith)

moved_history :
    (host : Host) (r : TaskRecord) (status : Status) (code : String) (extra : Extra)
    → (moved host r status code extra).history
      ≡ r.history ++ record { status = status; at = host.stamp; code = code } ∷ []
unfolding moved
moved_history host r status code extra = refl

pub Chain-once :
    (r s : TaskRecord)
    → times_run r.history ≤ runs_by r.status
    → Chain r s
    → times_run s.history ≤ runs_by s.status
Chain-once r s h stay = h
Chain-once r s h (next {s = u} c (ask host live)) = Chain-once r u h c
Chain-once r s h (next {s = u} c (move host status code extra e f)) =
    rw
      (
        moved_history host u status code extra,
        moved_status host u status code extra,
        times_run-append u.history (record { status = status; at = host.stamp; code = code }),
      )
      (ground (arith, Chain-once r u h c, runs_by-edge u.status status e))

pub runs_by_bound : (s : Status) → runs_by s ≤ 1
runs_by_bound submitted = ground arith
runs_by_bound reserved = ground arith
runs_by_bound s = ground arith

pub Chain-request :
    (r s : TaskRecord) → Chain r s → (s.request ≡ r.request) × (s.payload_hash ≡ r.payload_hash)
unfolding moved
Chain-request r s stay = (refl, refl)
Chain-request r s (next c (ask host live)) = Chain-request r _ c
Chain-request r s (next c (move host status code extra e f)) = Chain-request r _ c

pub Later-some :
    (o p : Option TaskRecord) (r : TaskRecord)
    → Later o p
    → o ≡ some r
    → (s : TaskRecord) × (p ≡ some s) × Chain r s
Later-some o p r absent e = absurd (ground arith)
Later-some o p r (admitted host q c) e = absurd (ground arith)
Later-some o p r (kept {r = x} {s} c) e =
    (s, refl, subst (λ (v : TaskRecord). Chain v s) (some_inv x r e) c)

pub Later-none :
    (o p : Option TaskRecord) (s : TaskRecord)
    → Later o p
    → o ≡ none
    → p ≡ some s
    → (host : Host) × (q : Request) × Chain (new_record host q) s
Later-none o p s absent e h = absurd (ground arith)
Later-none o p s (admitted host q {s = x} c) e h =
    (host, q, subst (Chain (new_record host q)) (some_inv x s h) c)
Later-none o p s (kept c) e h = absurd (ground arith)
