-- ===== src/Integrity/Newest.antt =====
-- The child that `_check_freshness` of src/personal_ai_brain/state_integrity.py names is the newest.
use personal_ai_brain.Prelude.{
  ℕ, ltb, ◌≤◌, ◌<◌, String, ◌≡◌, refl, sym, subst, ◌⊎◌, inl, inr, Bool, true, false, Bool-cases,
  Option, none, some, List, [], ◌∷◌, All, keep, concat, arith,
}
use personal_ai_brain.Core.{warning}
use personal_ai_brain.Quality.{add_finding}
use personal_ai_brain.Integrity.{IntegrityReport, LoadedState, IntegrityChecker, parse_date}
use personal_ai_brain.Integrity.Checks.{
  is_later, newer_of, newest_from, warn_newest, check_freshness,
}

-- A child is one of a list.
abbrev pub IsIn : LoadedState → List LoadedState → Type 0
IsIn x [] = ⊥
IsIn x (c ∷ cs) = (c ≡ x) ⊎ IsIn x cs

-- A date, if there is one, is not after a day.
abbrev pub IsUpTo : ℕ → Option ℕ → Type 0
IsUpTo day none = Unit {0}
IsUpTo day (some other) = other ≤ day

later-IsIn : (x b c : LoadedState) (cs : List LoadedState) → IsIn x (b ∷ cs) → IsIn x (b ∷ c ∷ cs)
later-IsIn x b c cs (inl e) = inl e
later-IsIn x b c cs (inr h) = inr (inr h)

or-IsIn :
    (x c : LoadedState) (cs ds : List LoadedState)
    → IsIn x (c ∷ cs)
    → (IsIn x cs → IsIn x ds)
    → IsIn x (c ∷ ds)
or-IsIn x c cs ds (inl e) f = inl e
or-IsIn x c cs ds (inr h) f = inr (f h)

IsIn-keep :
    (p : LoadedState → Bool) (x : LoadedState) (cs : List LoadedState)
    → IsIn x (keep p cs)
    → IsIn x cs
IsIn-keep p x [] h = h
IsIn-keep p x (c ∷ cs) h = elim (Bool-cases (p c)) [
  | inl e ↦ or-IsIn x c (keep p cs) cs (rw e at h) (IsIn-keep p x cs)
  | inr e ↦ inr (IsIn-keep p x cs (rw e at h))
]

not_later :
    (checker : IntegrityChecker) (o : Option ℕ) (day latest : ℕ)
    → day ≤ latest
    → is_later checker day o ≡ false
    → IsUpTo latest o
not_later checker none day latest l h = tt
not_later checker (some other) day latest l h = ground arith

module _ (checker : IntegrityChecker) where
  -- No child was verified after the day.
  abbrev pub AllUpTo : ℕ → List LoadedState → Type 0
  AllUpTo day cs = All (λ (c : LoadedState). IsUpTo day (parse_date checker c.last_verified)) cs

  -- A child with its date, the latest of some children and no earlier than a day.
  abbrev pub IsNewest : LoadedState → ℕ → ℕ → List LoadedState → Type 0
  IsNewest x latest day cs =
      (parse_date checker x.last_verified ≡ some latest) × (day ≤ latest) × AllUpTo latest cs

  abbrev pub Found : LoadedState → LoadedState → ℕ → List LoadedState → Type 0
  Found x best day cs = (latest : ℕ) × IsNewest x latest day cs × IsIn x (best ∷ cs)

  kept-Found :
      (x best c : LoadedState) (day other : ℕ) (cs : List LoadedState)
      → parse_date checker c.last_verified ≡ some other
      → Found x best day cs
      → other ≤ day
      → Found x best day (c ∷ cs)
  kept-Found x best c day other cs e (latest, (p, l, a), i) h =
      (latest, (p, l, (rw e (ground arith), a)), later-IsIn x best c cs i)

  taken-Found :
      (x best c : LoadedState) (day other : ℕ) (cs : List LoadedState)
      → parse_date checker c.last_verified ≡ some other
      → Found x c other cs
      → day < other
      → Found x best day (c ∷ cs)
  taken-Found x best c day other cs e (latest, (p, l, a), i) h =
      (latest, (p, ground arith, (rw e (ground arith), a)), inr i)

  newer_of-Found :
      (o : Option ℕ) (best c : LoadedState) (day : ℕ) (cs : List LoadedState) (kept : LoadedState)
      (taken : ℕ → LoadedState)
      → parse_date checker c.last_verified ≡ o
      → Found kept best day cs
      → ((other : ℕ) → o ≡ some other → Found (taken other) c other cs)
      → Found (newer_of checker o day kept taken) best day (c ∷ cs)
  newer_of-Found none best c day cs kept taken e (latest, (p, l, a), i) t =
      (latest, (p, l, (rw e tt, a)), later-IsIn kept best c cs i)
  newer_of-Found (some other) best c day cs kept taken e k t = elim (Bool-cases (ltb day other)) [
    | inl f ↦
        (let same : newer_of checker (some other) day kept taken ≡ taken other = rw f refl in
          subst (λ v. Found v best day (c ∷ cs)) (sym same)
            (taken-Found (taken other) best c day other cs e (t other refl) (ground arith)))
    | inr f ↦
        (let same : newer_of checker (some other) day kept taken ≡ kept = rw f refl in
          subst (λ v. Found v best day (c ∷ cs)) (sym same)
            (kept-Found kept best c day other cs e k (ground arith)))
  ]

  newest_from-Found :
      (best : LoadedState) (day : ℕ) (cs : List LoadedState)
      → parse_date checker best.last_verified ≡ some day
      → Found (newest_from checker best day cs) best day cs
  newest_from-Found best day [] h = (day, (h, ground arith, tt), inl refl)
  newest_from-Found best day (c ∷ cs) h =
      newer_of-Found (parse_date checker c.last_verified) best c day cs
        (newest_from checker best day cs) (λ other. newest_from checker c other cs) refl
        (newest_from-Found best day cs h) (λ other e. newest_from-Found c other cs e)

  -- What is kept is a child verified after the day; the rest were not.
  AllUpTo-keep :
      (day latest : ℕ) (cs : List LoadedState)
      → day ≤ latest
      → AllUpTo latest
          (keep (λ (c : LoadedState). is_later checker day (parse_date checker c.last_verified)) cs)
      → AllUpTo latest cs
  AllUpTo-keep day latest [] l h = tt
  AllUpTo-keep day latest (c ∷ cs) l h =
      elim (Bool-cases (is_later checker day (parse_date checker c.last_verified))) [
        | inl e ↦ (let rest = rw e at h in (rest.0, AllUpTo-keep day latest cs l rest.1))
        | inr e ↦ (
          not_later checker (parse_date checker c.last_verified) day latest l e,
          AllUpTo-keep day latest cs l (rw e at h),
        )
      ]

  abbrev later_children : ℕ → List LoadedState → List LoadedState
  later_children day cs =
      keep (λ (c : LoadedState). is_later checker day (parse_date checker c.last_verified)) cs

  first_later :
      (day : ℕ) (cs : List LoadedState) (c : LoadedState) (ds : List LoadedState)
      → later_children day cs ≡ c ∷ ds
      → is_later checker day (parse_date checker c.last_verified) ≡ true
  first_later day [] c ds h = absurd (ground arith)
  first_later day (b ∷ bs) c ds h =
      elim (Bool-cases (is_later checker day (parse_date checker b.last_verified))) [
        | inl e ↦
            (let whole : b ∷ later_children day bs ≡ c ∷ ds = rw e at h in
              let same : b ≡ c = cc in
              subst
                (λ (v : LoadedState).
                  is_later checker day (parse_date checker v.last_verified) ≡ true)
                same e)
        | inr e ↦ first_later day bs c ds (rw e at h)
      ]

  later_date :
      (o : Option ℕ) (day : ℕ)
      → is_later checker day o ≡ true
      → (other : ℕ) × (o ≡ some other) × (day < other)
  later_date none day h = absurd (ground arith)
  later_date (some other) day h = (other, refl, ground arith)

  -- What `_check_freshness` comes to for the children that are later.
  abbrev Outcome :
      String → LoadedState → List LoadedState → IntegrityReport → ℕ → IntegrityReport → Type 0
  Outcome name root active r day t =
      ((t ≡ r) × AllUpTo day active)
      ⊎ ((x : LoadedState) × (latest : ℕ) × (t
            ≡ add_finding warning "rollup_outdated" name
                (concat "Root rollup was verified " (
                  concat root.last_verified (
                    concat ", but workstream " (
                      concat x.path
                        (concat " was verified later on " (concat x.last_verified "."))))))
                r)
          × IsIn x active
          × IsNewest x latest day active
          × (day < latest))

  warn_newest-Outcome :
      (newer : List LoadedState) (name : String) (root : LoadedState) (active : List LoadedState)
      (r : IntegrityReport) (day : ℕ)
      → later_children day active ≡ newer
      → Outcome name root active r day (warn_newest checker newer name root day r)
  warn_newest-Outcome [] name root active r day h =
      inl (refl, AllUpTo-keep day day active (ground arith) (rw h tt))
  warn_newest-Outcome (c ∷ cs) name root active r day h =
      let dated =
        later_date (parse_date checker c.last_verified) day (first_later day active c cs h) in
      let found = newest_from-Found c dated.0 cs dated.1 in
      let x = newest_from checker c dated.0 cs in
      let later : ltb day dated.0 ≡ true = ground arith in
      let taken : newest_from checker c day (c ∷ cs) ≡ x = rw (dated.1, later) refl in
      let own : IsUpTo found.0 (parse_date checker c.last_verified) =
        rw dated.1 (omega (arith, found.1)) in
      inr (
        x,
        found.0,
        rw taken refl,
        IsIn-keep (λ (v : LoadedState). is_later checker day (parse_date checker v.last_verified)) x
            active (subst (λ vs. IsIn x vs) (sym h) found.2),
        (
          found.1.0,
          omega (arith, found.1),
          AllUpTo-keep day found.0 active (omega (arith, found.1))
              (subst (λ vs. AllUpTo found.0 vs) (sym h) (own, found.1.2)),
        ),
        omega (arith, found.1),
      )

-- Either no blocking child was verified after the rollup and the report is unchanged, or the
-- warning is added that names a blocking child which was verified after the rollup, and no
-- blocking child later than that one. Children whose date cannot be read do not count.
pub check_freshness-IsNewest :
    (checker : IntegrityChecker) (name : String) (root : LoadedState) (active : List LoadedState)
    (r : IntegrityReport) (day : ℕ)
    → parse_date checker root.last_verified ≡ some day
    → ((check_freshness checker name root active r ≡ r) × AllUpTo checker day active)
      ⊎ ((x : LoadedState) × (latest : ℕ) × (check_freshness checker name root active r
            ≡ add_finding warning "rollup_outdated" name
                (concat "Root rollup was verified " (
                  concat root.last_verified (
                    concat ", but workstream " (
                      concat x.path
                        (concat " was verified later on " (concat x.last_verified "."))))))
                r)
          × IsIn x active
          × IsNewest checker x latest day active
          × (day < latest))
unfolding check_freshness
check_freshness-IsNewest checker name root active r day h = rw h (
    warn_newest-Outcome checker
      (keep (λ (c : LoadedState). is_later checker day (parse_date checker c.last_verified)) active)
      name root active r day refl)
