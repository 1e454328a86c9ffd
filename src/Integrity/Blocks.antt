-- ===== src/Integrity/Blocks.antt =====
-- The single checks of a rollup in src/personal_ai_brain/state_integrity.py and their tests.
use personal_ai_brain.Prelude.{
  ℕ, ltb, String, ◌≡◌, refl, sym, ap, subst, ◌∙◌, inl, inr, Bool, true, not, ◌&&◌, ◌||◌, Bool-cases,
  Option, none, some, List, [], ◌∷◌, all, map, keep, member, str_eq, concat, arith,
}
use personal_ai_brain.Core.{error, warning}
use personal_ai_brain.Quality.Judges.{Judges, passes, fails}
use personal_ai_brain.Integrity.{
  IntegrityReport, LoadedState, IntegrityChecker, terminal_root_statuses, is_non_blocking,
  parse_date,
}
use personal_ai_brain.Integrity.Sets.{sorted_difference}
use personal_ai_brain.Integrity.Checks.{
  warn_paths, is_later, warn_newest, check_dates, check_freshness, sync_details, unsynced,
  check_sync, report_active, active_paths, check_status,
}
use personal_ai_brain.Integrity.Differences.{is_nil, is_nil-sorted_difference}

-- A statement of every workstream that blocks.
abbrev pub all_blocking : (LoadedState → Bool) → List LoadedState → Bool
all_blocking p children = all (λ (c : LoadedState). is_non_blocking c || p c) children

abbrev pub all_in : List String → List String → Bool
all_in paths others = all (λ s. member s others) paths

abbrev pub not_after : Option ℕ → Option ℕ → Bool
not_after none root = true
not_after (some day) none = true
not_after (some day) (some root) = not (ltb root day)

module _ (checker : IntegrityChecker) where
  warn_paths-Judges :
      (ss : List String) (code name message : String) (r : IntegrityReport)
      → Judges (is_nil ss) r (warn_paths ss code name message r)
  unfolding warn_paths
  warn_paths-Judges [] code name message r = passes r
  warn_paths-Judges (s ∷ ss) code name message r = fails warning code name _ r

  pub difference-Judges :
      (paths others : List String) (code name message : String) (r : IntegrityReport)
      → Judges
          (all_in paths others)
          r
          (warn_paths (sorted_difference paths others) code name message r)
  difference-Judges paths others code name message r =
      subst (λ b. Judges b r (warn_paths (sorted_difference paths others) code name message r))
        (is_nil-sorted_difference paths others)
        (warn_paths-Judges (sorted_difference paths others) code name message r)

  -- The children that block, as the method keeps them.
  abbrev pub active_of : List LoadedState → List LoadedState
  active_of children = keep (λ (c : LoadedState). not (is_non_blocking c)) children

  pub all-active_of :
      (p : LoadedState → Bool) (children : List LoadedState)
      → all p (active_of children) ≡ all_blocking p children
  all-active_of p [] = refl
  all-active_of p (c ∷ cs) = ground (arith, all-active_of p cs)

  pub all_in-map :
      (generated : List String) (cs : List LoadedState)
      → all_in (map (λ (c : LoadedState). c.path) cs) generated
        ≡ all (λ (c : LoadedState). member c.path generated) cs
  all_in-map generated [] = refl
  all_in-map generated (c ∷ cs) = ap (λ b. member c.path generated && b) (all_in-map generated cs)

  is_nil-keep :
      (p : LoadedState → Bool) (cs : List LoadedState)
      → is_nil (keep p cs) ≡ all (λ (c : LoadedState). not (p c)) cs
  is_nil-keep p [] = refl
  is_nil-keep p (c ∷ cs) = ground (arith, is_nil-keep p cs)

  warn_newest-Judges :
      (cs : List LoadedState) (name : String) (root : LoadedState) (day : ℕ) (r : IntegrityReport)
      → Judges (is_nil cs) r (warn_newest checker cs name root day r)
  warn_newest-Judges [] name root day r = passes r
  warn_newest-Judges (c ∷ cs) name root day r = fails warning "rollup_outdated" name _ r

  not_later : (day : ℕ) (o : Option ℕ) → not (is_later checker day o) ≡ not_after o (some day)
  not_later day none = refl
  not_later day (some other) = refl

  all-ext :
      (p q : LoadedState → Bool) (cs : List LoadedState)
      → ((c : LoadedState) → p c ≡ q c)
      → all p cs ≡ all q cs
  all-ext p q [] h = refl
  all-ext p q (c ∷ cs) h = ground (arith, h c, all-ext p q cs h)

  all-true :
      (p : LoadedState → Bool) (cs : List LoadedState)
      → ((c : LoadedState) → p c ≡ true)
      → all p cs ≡ true
  all-true p [] h = refl
  all-true p (c ∷ cs) h = ground (arith, h c, all-true p cs h)

  no_date : (o : Option ℕ) → not_after o none ≡ true
  no_date none = refl
  no_date (some day) = refl

  abbrev later : ℕ → LoadedState → Bool
  later day c = is_later checker day (parse_date checker c.last_verified)

  check_dates-Judges :
      (o : Option ℕ) (name : String) (root : LoadedState) (cs : List LoadedState)
      (r : IntegrityReport)
      → Judges
          (all (λ (c : LoadedState). not_after (parse_date checker c.last_verified) o) cs)
          r
          (check_dates checker o name root cs r)
  check_dates-Judges none name root cs r =
      subst (λ b. Judges b r r)
        (sym (
          all-true (λ (c : LoadedState). not_after (parse_date checker c.last_verified) none) cs
            (λ c. no_date (parse_date checker c.last_verified))))
        (passes r)
  check_dates-Judges (some day) name root cs r =
      subst (λ b. Judges b r (warn_newest checker (keep (later day) cs) name root day r))
        (is_nil-keep (later day) cs
          ∙ all-ext (λ c. not (later day c))
              (λ c. not_after (parse_date checker c.last_verified) (some day)) cs
              (λ c. not_later day (parse_date checker c.last_verified)))
        (warn_newest-Judges (keep (later day) cs) name root day r)

  pub check_freshness-Judges :
      (name : String) (root : LoadedState) (cs : List LoadedState) (r : IntegrityReport)
      → Judges
          (all
            (λ (c : LoadedState).
              not_after
                (parse_date checker c.last_verified)
                (parse_date checker root.last_verified))
            cs)
          r
          (check_freshness checker name root cs r)
  unfolding check_freshness
  check_freshness-Judges name root cs r =
      check_dates-Judges (parse_date checker root.last_verified) name root cs r

  is_nil-sync_details : (cs : List LoadedState) → is_nil (sync_details checker cs) ≡ is_nil cs
  is_nil-sync_details [] = refl
  is_nil-sync_details (c ∷ cs) = refl

  all_synced :
      (cs : List LoadedState)
      → is_nil (sync_details checker (unsynced checker cs))
        ≡ all (λ (c : LoadedState). str_eq c.sync_status "synced") cs
  all_synced [] = refl
  all_synced (c ∷ cs) = elim (Bool-cases (str_eq c.sync_status "synced")) [
    | inl e ↦ rw e (all_synced cs)
    | inr e ↦ rw e refl
  ]

  pub check_sync-Judges :
      (name : String) (root : LoadedState) (cs : List LoadedState) (r : IntegrityReport)
      → Judges
          (not (str_eq root.sync_status "synced")
            || all (λ (c : LoadedState). str_eq c.sync_status "synced") cs)
          r
          (check_sync checker name root cs r)
  unfolding check_sync
  check_sync-Judges name root cs r = elim (Bool-cases (str_eq root.sync_status "synced")) [
    | inl e ↦ rw e (
        subst
          (λ b. Judges b r (
            warn_paths (sync_details checker (unsynced checker cs)) "rollup_sync_conflict" name
              (concat "Root rollup claims sync.status='synced' while active workstream "
                "state is not synced: ")
              r))
          (all_synced cs)
          (warn_paths-Judges (sync_details checker (unsynced checker cs)) "rollup_sync_conflict"
            name _ r))
    | inr e ↦ rw e (passes r)
  ]

  none_active :
      (cs : List LoadedState)
      → is_nil (active_paths checker cs)
        ≡ all (λ (c : LoadedState). not (str_eq c.status "active")) cs
  none_active [] = refl
  none_active (c ∷ cs) = elim (Bool-cases (str_eq c.status "active")) [
    | inl e ↦ rw e refl
    | inr e ↦ rw e (none_active cs)
  ]

  report_active-Judges :
      (ss : List String) (name : String) (root : LoadedState) (r : IntegrityReport)
      → Judges (is_nil ss) r (report_active checker ss name root r)
  report_active-Judges [] name root r = passes r
  report_active-Judges (s ∷ ss) name root r = fails error "rollup_status_conflict" name _ r

  pub check_status-Judges :
      (name : String) (root : LoadedState) (cs : List LoadedState) (r : IntegrityReport)
      → Judges
          (not (member root.status terminal_root_statuses)
            || all (λ (c : LoadedState). not (str_eq c.status "active")) cs)
          r
          (check_status checker name root cs r)
  unfolding check_status
  check_status-Judges name root cs r =
      elim (Bool-cases (member root.status terminal_root_statuses)) [
        | inl e ↦ rw e (
            subst (λ b. Judges b r (report_active checker (active_paths checker cs) name root r))
              (none_active cs) (report_active-Judges (active_paths checker cs) name root r))
        | inr e ↦ rw e (passes r)
      ]
