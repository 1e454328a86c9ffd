-- ===== src/Work/Recovery.antt =====
-- `Runner.recovery` of src/personal_ai_brain/work_runner.py leaves no task reserved or running.
use personal_ai_brain.Prelude.{
  String, ◌≡◌, refl, sym, ap, subst, ◌∙◌, ◌⊎◌, inl, inr, Bool, true, false, Option, none, some,
  List, [], ◌∷◌, arith, eq_iff, ◌&&◌, Bool-cases, ok, str_eq, some_inv, All, any, find?,
}
use personal_ai_brain.Work.Store.{
  Status, reserved, running, interrupted, TaskRecord, Disk, Host, audit_of, has_audit, can_write,
  load, save, edge, is_terminal,
}
use personal_ai_brain.Work.Store.Laws.{load-save, load_saved}
use personal_ai_brain.Work.Transition.{
  no_extra, moved, set_result, marked, can_read_agent, mark_interrupted, is_progress, transition,
  transition_loaded, transition_locked, recover_one, recover_all, recovery,
}
use personal_ai_brain.Work.Transition.History.{moved-name}
use personal_ai_brain.Work.Files.{
  is_unsettled, HasFiles, Reads, can_read-has_audit, marked-Reads, set_result-Reads,
}

-- What a file holds is missing or settled.
abbrev pub Settled : Option TaskRecord → Type 0
Settled o = (s : TaskRecord) → o ≡ some s → is_unsettled s.status ≡ false

-- A record of the list that is read back as it is, or as a terminal one.
abbrev pub Ready : Disk → TaskRecord → Type 0
Ready d r =
    (s : TaskRecord) × (load r.task_id d ≡ some s) × ((s ≡ r) ⊎ (is_terminal s.status ≡ true))

unsettled_live :
    (s : Status) → is_unsettled s ≡ true → (is_terminal s ≡ false) × (edge s interrupted ≡ true)
unfolding edge is_terminal
unsettled_live reserved h = (refl, refl)
unsettled_live running h = (refl, refl)
unsettled_live s h = absurd (ground arith)

terminal_settled : (s : Status) → is_terminal s ≡ true → is_unsettled s ≡ false
unfolding is_terminal
terminal_settled reserved h = absurd (ground arith)
terminal_settled running h = absurd (ground arith)
terminal_settled s h = refl

no_progress : (asked : Bool) → (asked && is_progress interrupted) ≡ false
unfolding is_progress
no_progress true = refl
no_progress false = refl

-- What recovering one record leaves of every file: what it held, which is settled if it is the
-- record's own, or a terminal record.
abbrev Recovered : TaskRecord → Disk → Disk → Type 0
Recovered x d e =
    (id : String)
    → ((load id e ≡ load id d) × (str_eq x.task_id id ≡ true → Settled (load id d)))
      ⊎ ((t : TaskRecord) × (load id e ≡ some t) × (is_terminal t.status ≡ true))

moved_terminal :
    (host : Host) (r : TaskRecord) (code : String)
    → is_terminal (moved host r interrupted code no_extra).status ≡ true
unfolding moved is_terminal
moved_terminal host r code = refl

own_file :
    (x s : TaskRecord) (d : Disk) (id : String)
    → load x.task_id d ≡ some s
    → is_unsettled s.status ≡ false
    → str_eq x.task_id id ≡ true
    → Settled (load id d)
own_file x s d id h u own z k =
    let same : x.task_id ≡ id = (eq_iff x.task_id id).0 own in
    let one : s ≡ z = some_inv s z (sym h ∙ ap (λ v. load v d) same ∙ k) in
    subst (λ v. is_unsettled v.status ≡ false) one u

Recovered-Settled :
    (x : TaskRecord) (d e : Disk) (id : String)
    → Recovered x d e
    → Settled (load id d)
    → Settled (load id e)
Recovered-Settled x d e id c h = elim (c id) [
  | inl k ↦ rw (k.0) h
  | inr k ↦ λ s q.
      subst (λ v. is_unsettled v.status ≡ false) (some_inv k.0 s (sym k.1 ∙ q))
        (terminal_settled (k.0).status k.2)
]

Recovered-own :
    (x : TaskRecord) (d e : Disk) (id : String)
    → Recovered x d e
    → str_eq x.task_id id ≡ true
    → Settled (load id e)
Recovered-own x d e id c own = elim (c id) [
  | inl k ↦ rw (k.0) (k.1 own)
  | inr k ↦ λ s q.
      subst (λ v. is_unsettled v.status ≡ false) (some_inv k.0 s (sym k.1 ∙ q))
        (terminal_settled (k.0).status k.2)
]

Recovered-Ready : (x y : TaskRecord) (d e : Disk) → Recovered x d e → Ready d y → Ready e y
Recovered-Ready x y d e c r = elim (c y.task_id) [
  | inl k ↦ (r.0, k.0 ∙ r.1, r.2)
  | inr k ↦ (k.0, k.1, inr k.2)
]

Recovered-All :
    (x : TaskRecord) (d e : Disk) (ys : List TaskRecord)
    → Recovered x d e
    → All (Ready d) ys
    → All (Ready e) ys
Recovered-All x d e [] c h = h
Recovered-All x d e (y ∷ ys) c h = (Recovered-Ready x y d e c h.0, Recovered-All x d e ys c h.1)

Reads-All :
    (d e : Disk) (ys : List TaskRecord) → Reads d e → All (HasFiles d) ys → All (HasFiles e) ys
Reads-All d e [] c h = h
Reads-All d e (y ∷ ys) c h = (c y h.0, Reads-All d e ys c h.1)

module _ (host : Host) where
  -- The transition that recovery makes, for a record that is read back as it is.
  interrupts :
      (id : String) (r : TaskRecord) (code : String) (d : Disk)
      → load id d ≡ some r
      → is_unsettled r.status ≡ true
      → has_audit r.task_id d ≡ true
      → can_write host ≡ true
      → transition host id interrupted code no_extra d ≡ (
        ok (moved host r interrupted code no_extra),
        save
            (moved host r interrupted code no_extra)
            (set_result (moved host r interrupted code no_extra) d),
      )
  unfolding transition transition_loaded transition_locked is_terminal
  interrupts id r code d h u g b =
      let live = unsettled_live r.status u in
      rw (h, live.0, no_progress r.cancel_requested, live.1, b, g) refl

  -- A terminal record is left as it is.
  passes_by :
      (id : String) (r : TaskRecord) (status : Status) (code : String) (d : Disk)
      → load id d ≡ some r
      → is_terminal r.status ≡ true
      → transition host id status code no_extra d ≡ (ok r, d)
  unfolding transition transition_loaded
  passes_by id r status code d h t = rw (h, t) refl

  marks :
      (x : TaskRecord) (d : Disk)
      → can_read_agent x (audit_of x.task_id d) ≡ true
      → can_write host ≡ true
      → mark_interrupted host x d ≡ (ok tt, marked host x d)
  unfolding mark_interrupted
  marks x d h b = rw (can_read-has_audit x d h, b, h) refl

  load-marked : (x : TaskRecord) (d : Disk) (id : String) → load id (marked host x d) ≡ load id d
  unfolding marked load
  load-marked x d id = refl

  load-set_result : (r : TaskRecord) (d : Disk) (id : String) → load id (set_result r d) ≡ load id d
  unfolding set_result load
  load-set_result r d id = refl

  -- What the write of the interrupted record leaves.
  interrupts-Recovered :
      (x : TaskRecord) (d : Disk)
      → let t : TaskRecord = moved host x interrupted "interrupted_no_retry" no_extra in
        Recovered x d (save t (set_result t (marked host x d)))
  interrupts-Recovered x d id =
      let t = moved host x interrupted "interrupted_no_retry" no_extra in
      let after = set_result t (marked host x d) in
      let name = moved-name host x interrupted "interrupted_no_retry" no_extra in
      elim (Bool-cases (str_eq x.task_id id)) [
        | inl e ↦ inr (
          t,
          load_saved id t after (name ∙ (eq_iff x.task_id id).0 e),
          moved_terminal host x "interrupted_no_retry",
        )
        | inr e ↦ inl (
          load-save id t after
              ∙ simp (name, e) (load-set_result t (marked host x d) id ∙ load-marked x d id),
          λ own. absurd (ground arith),
        )
      ]

  recover_one-Recovered :
      (x : TaskRecord) (d : Disk)
      → Ready d x
      → HasFiles d x
      → can_write host ≡ true
      → (e : Disk) × (recover_one host x d ≡ (ok tt, e)) × Recovered x d e × Reads d e
  unfolding recover_one
  recover_one-Recovered x d (s, h, k) f b = elim (Bool-cases (is_unsettled x.status)) [
    | inl u ↦
        (let m = marked host x d in
          let there : load x.task_id m ≡ some s = load-marked x d x.task_id ∙ h in
          elim k [
            | inl same ↦
                (let t = moved host x interrupted "interrupted_no_retry" no_extra in
                  let audit = can_read-has_audit x m (marked-Reads host x d x f u) in
                  (
                    save t (set_result t m),
                    rw
                        (
                          u,
                          marks x d (f u) b,
                          interrupts x.task_id x "interrupted_no_retry" m (there ∙ ap some same) u
                              audit b,
                        )
                        refl,
                    interrupts-Recovered x d,
                    λ y r. set_result-Reads t t m y (marked-Reads host x d y r),
                  ))
            | inr t ↦ (
              m,
              rw
                  (
                    u,
                    marks x d (f u) b,
                    passes_by x.task_id s interrupted "interrupted_no_retry" m there t,
                  )
                  refl,
              λ id. inl (load-marked x d id, own_file x s d id h (terminal_settled s.status t)),
              marked-Reads host x d,
            )
          ])
    | inr u ↦ (
      d,
      rw u refl,
      λ id. inl (
        refl,
        own_file x s d id h (elim k [
          | inl same ↦ subst (λ v. is_unsettled v.status ≡ false) (sym same) u
          | inr t ↦ terminal_settled s.status t
        ]),
      ),
      λ y r. r,
    )
  ]

  recover_all-Settled :
      (rs : List TaskRecord) (d : Disk) (id : String)
      → All (Ready d) rs
      → All (HasFiles d) rs
      → can_write host ≡ true
      → (any (λ (x : TaskRecord). str_eq x.task_id id) rs ≡ true) ⊎ Settled (load id d)
      → ((recover_all host rs d).0 ≡ ok tt) × Settled (load id (recover_all host rs d).1)
  unfolding recover_all
  recover_all-Settled [] d id h f b (inl e) = absurd (ground arith)
  recover_all-Settled [] d id h f b (inr e) = (refl, e)
  recover_all-Settled (x ∷ rs) d id h f b c =
      let one = recover_one-Recovered x d h.0 f.0 b in
      rw (one.1) (
        recover_all-Settled rs (one.0) id (Recovered-All x d one.0 rs one.2 h.1)
          (Reads-All d one.0 rs one.3 f.1) b
          (elim c [
            | inl e ↦ (elim (Bool-cases (str_eq x.task_id id)) [
              | inl own ↦ inr (Recovered-own x d one.0 id one.2 own)
              | inr other ↦ inl (ground arith)
            ])
            | inr e ↦ inr (Recovered-Settled x d one.0 id one.2 e)
          ]))

-- Each task's file is found under the name in it.
abbrev pub IsKeyed : Disk → Type 0
IsKeyed d = All (λ (r : TaskRecord). load r.task_id d ≡ some r) d.tasks

IsKeyed-Ready :
    (rs : List TaskRecord) (d : Disk)
    → All (λ (r : TaskRecord). load r.task_id d ≡ some r) rs
    → All (Ready d) rs
IsKeyed-Ready [] d h = h
IsKeyed-Ready (r ∷ rs) d h = ((r, h.0, inl refl), IsKeyed-Ready rs d h.1)

found_any :
    (id : String) (rs : List TaskRecord)
    → (any (λ (x : TaskRecord). str_eq x.task_id id) rs ≡ true)
      ⊎ (find? (λ (x : TaskRecord). str_eq x.task_id id) rs ≡ none)
found_any id [] = inr refl
found_any id (r ∷ rs) = ground (arith, found_any id rs)

-- On a disk where each task's file is found under its name, and each task that is reserved or
-- running has its audit directory, with agent-result.json in it if it is a coding task, a
-- recovery on a device that can be written returns, and then no task is reserved or running.
pub recovery-Settled :
    (host : Host) (d : Disk) (id : String)
    → IsKeyed d
    → All (HasFiles d) d.tasks
    → can_write host ≡ true
    → ((recovery host d).0 ≡ ok tt) × Settled (load id (recovery host d).1)
unfolding recovery load
recovery-Settled host d id h f b =
    recover_all-Settled host d.tasks d id (IsKeyed-Ready d.tasks d h) f b
      (elim (found_any id d.tasks) [ inl e ↦ inl e | inr e ↦ inr (λ s k. absurd (ground arith)) ])
