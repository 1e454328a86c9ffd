-- ===== src/Rollup/Equal.antt =====
-- The values that src/personal_ai_brain/rollup_proposal.py proposes equal themselves, and the newest
-- child has the date it was chosen for.
use personal_ai_brain.Prelude.{
  ℕ, ltb, String, ◌≡◌, refl, inl, inr, true, Bool-cases, Option, none, some, List, [], ◌∷◌,
  str_eq_refl, arith,
}
use personal_ai_brain.Prelude.Values.{
  sequence, mapping, Values, nothing, item, Fields, get, is_falsy,
}
use personal_ai_brain.Prelude.Equality.{same}
use personal_ai_brain.Rollup.{WorkstreamState, Engine, texts_value, parse_date}
use personal_ai_brain.Rollup.Steps.{workstream_entry, desired_workstreams, better, newest_after}

module _ (engine : Engine) where
  pub same-texts_value :
      (ts : List String)
      → same engine.show (sequence (texts_value ts)) (sequence (texts_value ts)) ≡ true
  unfolding same
  same-texts_value [] = refl
  same-texts_value (t ∷ ts) = ground (arith, str_eq_refl t, same-texts_value ts)

  same-workstream_entry :
      (fs : Fields)
      → same engine.show (workstream_entry engine fs) (workstream_entry engine fs) ≡ true
  unfolding same
  same-workstream_entry fs = elim (Bool-cases (is_falsy (get "state_status" fs))) [
    | inl e ↦ rw (e, str_eq_refl, str_eq_refl, str_eq_refl) refl
    | inr e ↦ rw (e, str_eq_refl, str_eq_refl, str_eq_refl, str_eq_refl) refl
  ]

  pub same-desired_workstreams :
      (vs : Values)
      → same engine.show
          (sequence (desired_workstreams engine vs))
          (sequence (desired_workstreams engine vs))
        ≡ true
  unfolding same
  same-desired_workstreams nothing = refl
  same-desired_workstreams (item (mapping fs) vs) =
      elim (Bool-cases (is_falsy (get "state_path" fs))) [
        | inl e ↦ rw e (same-desired_workstreams vs)
        | inr e ↦ rw (e, same-workstream_entry fs) (same-desired_workstreams vs)
      ]
  same-desired_workstreams (item v vs) = same-desired_workstreams vs

  -- The newest child's own date is the one it was chosen for.
  abbrev pub IsDated : Option (ℕ × WorkstreamState) → Type 0
  IsDated none = Unit {0}
  IsDated (some (day, child)) = parse_date engine child.last_verified ≡ some day

  better-IsDated :
      (best : Option (ℕ × WorkstreamState)) (o : Option ℕ) (c : WorkstreamState)
      → IsDated best
      → parse_date engine c.last_verified ≡ o
      → IsDated (better engine best o c)
  better-IsDated best none c h e = h
  better-IsDated none (some day) c h e = e
  better-IsDated (some (latest, newest)) (some day) c h e = elim (Bool-cases (ltb latest day)) [
    | inl f ↦ rw f e
    | inr f ↦ rw f h
  ]

  pub newest_after-IsDated :
      (best : Option (ℕ × WorkstreamState)) (cs : List WorkstreamState)
      → IsDated best
      → IsDated (newest_after engine best cs)
  newest_after-IsDated best [] h = h
  newest_after-IsDated best (c ∷ cs) h =
      newest_after-IsDated (better engine best (parse_date engine c.last_verified) c) cs
        (better-IsDated best (parse_date engine c.last_verified) c h refl)
