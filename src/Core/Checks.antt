-- ===== src/Core/Checks.antt =====
-- When `_validate_record` of src/personal_ai_brain/core_agent.py warns.
use personal_ai_brain.Prelude.{
  ◌+◌, ◌<◌, String, ◌≡◌, refl, Bool, true, false, not, ◌&&◌, ◌||◌, List, [], ◌∷◌, ◌++◌, member,
  str_eq, length, arith, if◌then◌else◌,
}
use personal_ai_brain.Core.{
  Finding, StateRecord, CoreSnapshot, Agent, non_current_map_statuses, stale_statuses,
  is_non_blocking, warn_if, validate_record,
}

-- A record that needs nobody's attention: it blocks nothing, or it is synchronised, verified and
-- not stale, and the map does not call it outdated, which for an unassigned future project does
-- not count.
abbrev pub is_current : Agent → StateRecord → String → Bool
is_current agent r map_status =
    is_non_blocking agent r
    || (str_eq r.sync_status "synced"
        && (not (member r.status stale_statuses)
            && (not (str_eq r.last_verified "")
                && (not (member map_status non_current_map_statuses)
                    || str_eq r.status "future_unassigned"))))

length-append : (xs : List Finding) (x : Finding) → length (xs ++ x ∷ []) ≡ length xs + 1
length-append [] x = refl
length-append (y ∷ ys) x = ground (arith, length-append ys x)

length-warn_if :
    (agent : Agent) (b : Bool) (code subject message : String) (s : CoreSnapshot)
    → length (warn_if agent b code subject message s).findings
      ≡ length s.findings + (if b then 1 else 0)
length-warn_if agent true code subject message s = length-append s.findings _
length-warn_if agent false code subject message s = ground arith

length-validate_record :
    (agent : Agent) (r : StateRecord) (map_status : String) (s : CoreSnapshot)
    → length (validate_record agent r map_status s).findings
      ≡ length s.findings
        + (if not (str_eq r.sync_status "synced") && not (is_non_blocking agent r) then 1 else 0)
        + (if member r.status stale_statuses && not (is_non_blocking agent r) then 1 else 0)
        + (if member map_status non_current_map_statuses
              && (not (is_non_blocking agent r) && not (str_eq r.status "future_unassigned"))
            then 1
            else 0)
        + (if str_eq r.last_verified "" && not (is_non_blocking agent r) then 1 else 0)
unfolding validate_record
length-validate_record agent r map_status s =
    rw (length-warn_if, length-warn_if, length-warn_if, length-warn_if) refl

-- Validation adds no finding for a record that needs no attention, adds some for any other, and
-- never more than four.
pub validate_record-warns :
    (agent : Agent) (r : StateRecord) (map_status : String) (s : CoreSnapshot)
    → (is_current agent r map_status ≡ true
        → length (validate_record agent r map_status s).findings ≡ length s.findings)
      × (is_current agent r map_status ≡ false
          → length s.findings < length (validate_record agent r map_status s).findings)
      × (length (validate_record agent r map_status s).findings < length s.findings + 5)
validate_record-warns agent r map_status s =
    let counted = length-validate_record agent r map_status s in
    (λ h. ground arith, λ h. ground arith, ground arith)
