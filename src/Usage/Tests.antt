-- ===== src/Usage/Tests.antt =====
-- Runs of the usage ledger's calls.
use personal_ai_brain.Prelude.{
  ◌+◌, ◌++◌, str_eq, ◌≤◌, String, ◌≡◌, ◌≢◌, refl, true, false, some, List, [], ◌∷◌, length, All, ok,
  err, pos, text_leb,
}
use personal_ai_brain.Usage.{
  Turn, outcome_unknown, interrupted, UsageRecord, Clock, Op, recovers, starts, reserves, reports,
  finishes, run, start, reserve, reserve_read, over_budget, read, write, spent, share, total,
  new_file, append_turn, reserved_turn, max_turns, month_budget,
}
use personal_ai_brain.Usage.Budget.{run-budget}
use personal_ai_brain.Usage.Replay.{run-start, reserve-written}

abbrev clock : Clock
clock = record { today = "2026-07-01"; month = "2026-07"; stamp = "2026-07-01T00:00:00Z" }

abbrev openai : String
openai = "openai"

abbrev calls : List Op
calls =
    starts clock "one" "digest"
    ∷ reserves clock "one"
    ∷ reports clock "one" (some (some (pos 1200), some (pos 90)))
    ∷ reserves clock "one"
    ∷ recovers clock
    ∷ finishes clock "one" "model_failed"
    ∷ []

run-budget_example :
    All (λ (r : UsageRecord). length r.turns ≤ max_turns) (run "openai" calls [])
    × (openai ≢ "acceptance"
        → (m : String) → total "openai" m (run "openai" calls []) ≤ month_budget)
run-budget_example = run-budget "openai" calls

abbrev file : UsageRecord
file = new_file "openai" clock "one" "digest"

one_started : start "openai" clock "one" "digest" [] ≡ (ok file, file ∷ [])
unfolding start read write
one_started = refl

run-start_example :
    start "openai" clock "one" "other" (run "openai" calls (file ∷ []))
    ≡ (err interrupted, run "openai" calls (file ∷ []))
run-start_example =
    run-start "openai" clock "one" "digest" [] (file ∷ []) file calls "openai" clock "other"
      one_started

abbrev taken : UsageRecord
taken = append_turn (reserved_turn "openai" clock) file

one_reserved : reserve "openai" clock "one" (file ∷ []) ≡ (ok taken, taken ∷ [])
unfolding reserve reserve_read over_budget read write total share spent text_leb
one_reserved = refl

reserve-written_example :
    ((old : UsageRecord) × (turn : Turn) × (read "one" (file ∷ []) ≡ some old)
      × (read "one" (taken ∷ []) ≡ some taken)
      × (taken ≡ record old { turns = old.turns ++ turn ∷ [] })
      × ((turn.status ≡ outcome_unknown)
          × (turn.month ≡ "2026-07")
          × (turn.reserved_micro_usd ≡ 250000))
      × ((other : String)
          → str_eq "one" other ≡ false
          → read other (taken ∷ []) ≡ read other (file ∷ []))
      × ((length taken.turns ≤ 8)
          × (openai ≢ "acceptance" → total "openai" "2026-07" (file ∷ []) + 250000 ≤ 15000000)))
    × (text_leb "2026-07-01" "2026-11-10" ≡ true)
reserve-written_example =
    reserve-written "openai" clock "one" (file ∷ []) (taken ∷ []) taken one_reserved
