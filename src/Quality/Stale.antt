-- ===== src/Quality/Stale.antt =====
-- When `_check_freshness` of src/personal_ai_brain/state_quality.py warns about the age of a state.
use personal_ai_brain.Prelude.{
  ℕ, ◌+◌, ◌-◌, pos, leb, String, ◌≡◌, inl, inr, Bool, true, false, not, ◌&&◌, Bool-cases, some,
  member, str_eq, arith,
}
use personal_ai_brain.Prelude.Values.{text, mapping, Fields, get, get_or}
use personal_ai_brain.Core.{warning}
use personal_ai_brain.Quality.{QualityReport, Checker, non_fresh_statuses, str}
use personal_ai_brain.Quality.Freshness.{days_between, judge, threshold_for, check_freshness}
use personal_ai_brain.Quality.Judges.{Judges, fails, decides}

-- The state's date of verification is a text that reads as this day.
pub record IsVerified (checker : Checker) (raw : Fields) (day : ℕ) : Type 0 where
  pub verification : Fields
  pub raw_date : String
  pub has_verification : get "verification" raw ≡ some (mapping verification)
  pub has_date : get "last_verified" verification ≡ some (text raw_date)
  pub is_given : str_eq raw_date "" ≡ false
  pub is_day : checker.fromisoformat raw_date ≡ some day

module _ (checker : Checker) where
  -- Freshness is judged, unless the state's status takes it out.
  abbrev pub is_judged : Fields → Bool
  is_judged raw =
      not (member (str checker (get_or "status" (text "unknown") raw)) non_fresh_statuses)

  judge-Judges :
      (day limit : ℕ) (raw_date subject attention : String) (r : QualityReport)
      → Judges
          (leb day checker.today && leb checker.today (day + limit))
          r
          (judge checker (days_between checker.today day) (pos limit) raw_date subject attention r)
  judge-Judges day limit raw_date subject attention r = elim (Bool-cases (leb day checker.today)) [
    | inl e ↦
        (let same : leb checker.today (day + limit) ≡ leb (checker.today - day) limit =
            ground arith in
          rw (e, same)
            (decides (leb (checker.today - day) limit) warning "state_stale_by_policy" subject _ r))
    | inr e ↦ rw e (fails warning "verification_date_in_future" subject _ r)
  ]

-- A state that is judged and whose date of verification is a day gets no further finding exactly
-- when it was verified no later than today and no longer ago than the limit.
pub check_freshness-Judges :
    (checker : Checker) (raw map_entry : Fields) (subject attention : String) (r s : QualityReport)
    (day limit : ℕ)
    → is_judged checker raw ≡ true
    → IsVerified checker raw day
    → threshold_for checker attention map_entry subject r ≡ (some (pos limit), s)
    → Judges
        (leb day checker.today && leb checker.today (day + limit))
        s
        (check_freshness checker raw subject attention map_entry r)
unfolding check_freshness
check_freshness-Judges checker raw map_entry subject attention r s day limit h v e =
    let judged : member (str checker (get_or "status" (text "unknown") raw)) non_fresh_statuses
        ≡ false =
      ground arith in
    rw (judged, e, v.has_verification, v.has_date, v.is_given, v.is_day)
      (judge-Judges checker day limit v.raw_date subject attention s)
