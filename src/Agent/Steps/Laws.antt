-- ===== src/Agent/Steps/Laws.antt =====
-- The steps that are read from a response stay within their limits.
use cogito_ai.Prelude.{◌≡◌, refl, Option, none, some, List, [], ◌∷◌, any, if_lem, subst, arith}
use cogito_ai.Prelude.Text.{Text, text, trim, trim_start_matches, lines}
use cogito_ai.Session.Compact.{is_empty}
use cogito_ai.Agent.Bounded.{bounded_summary}
use cogito_ai.Agent.Bounded.Laws.{
  AreBounded, len-bounded_summary-le, push_unique_bounded-AreBounded, nil-AreBounded,
}
use cogito_ai.Agent.Lines.{split_once}
use cogito_ai.Agent.Steps.{
  is_step_mark, push_step, ends_plan, steps_from, plan_remainder, first_step, plan_at, plan_from,
  extract_plan,
}

push_step-AreBounded :
    (plan : List Text) (trimmed : Text)
    → AreBounded 16 plan
    → AreBounded 16 (push_step plan trimmed)
unfolding push_step
push_step-AreBounded plan trimmed h =
    let item = trim (trim_start_matches is_step_mark trimmed) in
    if_lem (AreBounded 16) (is_empty item) h (
      push_unique_bounded-AreBounded plan (bounded_summary item) 16 h (len-bounded_summary-le item))

steps_from-AreBounded :
    (rest plan : List Text) → AreBounded 16 plan → AreBounded 16 (steps_from plan rest)
unfolding steps_from
steps_from-AreBounded [] plan h = h
steps_from-AreBounded (line ∷ rest) plan h = if_lem (AreBounded 16) (ends_plan (trim line)) h (
    steps_from-AreBounded rest (push_step plan (trim line))
      (push_step-AreBounded plan (trim line) h))

first_step-AreBounded : (remainder : Text) → AreBounded 16 (first_step remainder)
unfolding first_step any
first_step-AreBounded remainder =
    if_lem (AreBounded 16) (is_empty (trim remainder)) (nil-AreBounded 16) (record {
      short = omega arith;
      distinct = (refl, tt);
      summaries = (len-bounded_summary-le (trim remainder), tt);
    })

abbrev MayBeBounded : Option (List Text) → Type 0
MayBeBounded none = Unit
MayBeBounded (some plan) = AreBounded 16 plan

plan_at-AreBounded :
    (o : Option Text) (rest : List Text) (later : Option (List Text))
    → MayBeBounded later
    → MayBeBounded (plan_at o rest later)
unfolding plan_at
plan_at-AreBounded none rest later h = h
plan_at-AreBounded (some remainder) rest later h =
    steps_from-AreBounded rest (first_step remainder) (first_step-AreBounded remainder)

plan_from-AreBounded : (rest : List Text) → MayBeBounded (plan_from rest)
unfolding plan_from
plan_from-AreBounded [] = tt
plan_from-AreBounded (line ∷ rest) =
    plan_at-AreBounded (plan_remainder (split_once (text ":") (trim line))) rest (plan_from rest)
      (plan_from-AreBounded rest)

-- A plan that is read from a response has at most 16 steps, none of them twice and each of at most
-- 243 bytes.
pub extract_plan-AreBounded :
    (response : Text) (plan : List Text) → extract_plan response ≡ some plan → AreBounded 16 plan
unfolding extract_plan
extract_plan-AreBounded response plan h =
    subst MayBeBounded h (plan_from-AreBounded (lines response))
