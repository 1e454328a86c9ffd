-- ===== src/Quality/Freshness.antt =====
-- `_check_freshness` and `_threshold_for` of src/personal_ai_brain/state_quality.py.
use personal_ai_brain.Prelude.{
  ℕ, suc, ◌-◌, ℤ, pos, negsuc, leb, leb_ℤ, String, Option, none, some, member, str_eq, concat,
  if◌then◌else◌,
}
use personal_ai_brain.Prelude.Values.{Value, null, integer, text, mapping, Fields, get, get_or}
use personal_ai_brain.Quality.{
  QualityReport, max_age_days, Checker, non_fresh_statuses, add_warning, str,
}

-- `(today - verified).days`
abbrev pub days_between : ℕ → ℕ → ℤ
days_between today verified =
    if leb verified today then pos (today - verified) else negsuc (verified - today - 1)

module _ (checker : Checker) where
  -- `_threshold_for`, for what the entry of the map has under `freshness_days`.
  abbrev pub threshold_in :
      Option Value → String → String → QualityReport → Option ℤ × QualityReport
  threshold_in none attention subject report = (max_age_days checker.policy attention, report)
  threshold_in (some null) attention subject report = (none, report)
  threshold_in (some (integer (pos n))) attention subject report = (some (pos n), report)
  threshold_in (some v) attention subject report = (
    max_age_days checker.policy attention,
    add_warning "freshness_override_invalid" subject
        (concat "Ignoring invalid freshness_days override " (concat (checker.repr v) ".")) report,
  )

  abbrev pub threshold_for : String → Fields → String → QualityReport → Option ℤ × QualityReport
  threshold_for attention map_entry subject report =
      threshold_in (get "freshness_days" map_entry) attention subject report

  abbrev number : ℕ → String
  number n = checker.show (integer (pos n))

  -- The age of a state against its threshold.
  abbrev pub judge : ℤ → ℤ → String → String → String → QualityReport → QualityReport
  judge (negsuc n) threshold raw_date subject attention report =
      add_warning "verification_date_in_future" subject
        (concat "verification.last_verified " (
          concat raw_date (
            concat " is " (
              concat (number (suc n)) (
                concat " day(s) ahead of checker date "
                  (concat (checker.isoformat checker.today) "."))))))
        report
  judge (pos age) threshold raw_date subject attention report =
      if leb_ℤ (pos age) threshold
      then report
      else add_warning "state_stale_by_policy" subject
          (concat "State is " (
            concat (number age) (
              concat " day(s) old; attention " (
                concat (checker.repr (text attention)) (
                  concat " allows at most "
                    (concat (checker.show (integer threshold)) " day(s) without refresh."))))))
          report

  -- The verified date, as `_parse_date` gives it.
  abbrev judge_date : Option ℕ → ℤ → String → String → String → QualityReport → QualityReport
  judge_date none threshold raw_date subject attention report = report
  judge_date (some verified) threshold raw_date subject attention report =
      judge (days_between checker.today verified) threshold raw_date subject attention report

  abbrev judge_raw_date : Option Value → ℤ → String → String → QualityReport → QualityReport
  judge_raw_date (some (text raw_date)) threshold subject attention report =
      if str_eq raw_date ""
      then report
      else judge_date (checker.fromisoformat raw_date) threshold raw_date subject attention report
  judge_raw_date v threshold subject attention report = report

  abbrev judge_verification : Option Value → ℤ → String → String → QualityReport → QualityReport
  judge_verification (some (mapping verification)) threshold subject attention report =
      judge_raw_date (get "last_verified" verification) threshold subject attention report
  judge_verification v threshold subject attention report = report

  abbrev judge_threshold : Option ℤ × QualityReport → Fields → String → String → QualityReport
  judge_threshold (none, report) raw subject attention = report
  judge_threshold (some threshold, report) raw subject attention =
      judge_verification (get "verification" raw) threshold subject attention report

  unfoldable pub check_freshness : Fields → String → String → Fields → QualityReport → QualityReport
  check_freshness raw subject attention map_entry report =
      if member (str checker (get_or "status" (text "unknown") raw)) non_fresh_statuses
      then report
      else judge_threshold (threshold_for attention map_entry subject report) raw subject attention
