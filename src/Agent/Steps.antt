-- ===== src/Agent/Steps.antt =====
-- The plans that the agent reads from a response of the model, of crates/harness-agent/src/lib.rs.
pub mod Laws
pub mod Sections
use cogito_ai.Prelude.{
  ℕ, suc, zero, Bool, true, false, not, ◌&&◌, ◌||◌, Option, none, some, List, [], ◌∷◌, ◌++◌, map,
  filter, any, drop, take, ◌==◌, if◌then◌else◌,
}
use cogito_ai.Prelude.Text.{
  Text, text, text_eq, starts_with, ends_with, trim, trim_start_matches, to_ascii_lowercase, lines,
  join, is_one_of, replace_char,
}
use cogito_ai.Session.Compact.{is_empty}
use cogito_ai.Session.Tasks.{ImplementationPlan}
use cogito_ai.Agent.Bounded.{bounded_summary, push_unique_bounded}
use cogito_ai.Agent.Lines.{
  split_once, eq_ignore_ascii_case, trim_hashes, trim_colons, plan_item, is_list_item,
}

-- `extract_plan`: the loop after the line `Plan:`, and the one before it.
is_step_mark : ℕ → Bool
is_step_mark c = c == b'-' || c == b'*' || c == b'+' || c == b' '

unfoldable pub push_step : List Text → Text → List Text
unfolding is_step_mark
push_step plan trimmed =
    let item = trim (trim_start_matches is_step_mark trimmed) in
    if is_empty item then plan else push_unique_bounded plan (bounded_summary item) 16

ends_plan : Text → Bool
ends_plan trimmed = is_empty trimmed || (ends_with trimmed (text ":") && not (is_list_item trimmed))

unfoldable pub steps_from : List Text → List Text → List Text
unfolding ends_plan
steps_from plan [] = plan
steps_from plan (line ∷ rest) =
    let more = steps_from (push_step plan (trim line)) rest in
    if ends_plan (trim line) then plan else more

-- What stands behind the colon, if the line is the heading of a plan.
unfoldable pub plan_remainder : Option (Text × Text) → Option Text
plan_remainder none = none
plan_remainder (some (heading, remainder)) =
    if eq_ignore_ascii_case heading (text "plan") then some remainder else none

unfoldable pub first_step : Text → List Text
first_step remainder =
    if is_empty (trim remainder) then [] else bounded_summary (trim remainder) ∷ []

plan_at : Option Text → List Text → Option (List Text) → Option (List Text)
unfolding first_step
plan_at none rest later = later
plan_at (some remainder) rest later = some (steps_from (first_step remainder) rest)

unfoldable pub plan_from : List Text → Option (List Text)
unfolding plan_at
plan_from [] = none
plan_from (line ∷ rest) =
    plan_at (plan_remainder (split_once (text ":") (trim line))) rest (plan_from rest)

unfoldable pub extract_plan : Text → Option (List Text)
unfolding plan_from
extract_plan value = plan_from (lines value)

-- `extract_plan_revision`
revision_reason : Option (Text × Text) → Option Text
revision_reason none = none
revision_reason (some (heading, reason)) =
    if eq_ignore_ascii_case (trim heading) (text "plan revision") then some (trim reason) else none

or_else : Option Text → Option Text → Option Text
or_else none later = later
or_else (some reason) later = some reason

unfoldable pub find_revision : List Text → Option Text
unfolding revision_reason or_else
find_revision [] = none
find_revision (line ∷ rest) =
    or_else (revision_reason (split_once (text ":") (trim line))) (find_revision rest)

-- The lines behind the one that starts with `plan revision:`.
behind_revision : List Text → List Text
behind_revision [] = []
behind_revision (line ∷ rest) =
    let later = behind_revision rest in
    if starts_with (to_ascii_lowercase (trim line)) (text "plan revision:") then rest else later

-- The lines from the first `Plan:` on.
from_plan : List Text → Option (List Text)
from_plan [] = none
from_plan (line ∷ rest) =
    let later = from_plan rest in
    if eq_ignore_ascii_case (trim line) (text "plan:") then some (line ∷ rest) else later

infixl 5 ◌>>=◌
abbrev ◌>>=◌ {ℓ κ} : {A : Type ℓ} {B : Type κ} (o : Option A) (next : A → Option B) → Option B
◌>>=◌ none next = none
◌>>=◌ (some a) next = next a

revision_with : Text → List Text → Option (Text × List Text)
revision_with revision [] = none
revision_with revision (s ∷ steps) = some (bounded_summary revision, s ∷ steps)

unfoldable pub extract_plan_revision : Text → Option (Text × List Text)
unfolding find_revision behind_revision from_plan revision_with
extract_plan_revision value = do
  revision ← find_revision (lines value)
  reason ← if is_empty revision then none else some revision
  found ← from_plan (lines (join (text "\n") (behind_revision (lines value))))
  steps ← extract_plan (join (text "\n") found)
  revision_with reason (take 32 steps)

-- `parse_implementation_plan`
pub data PlanSection : Type 0 where
  goal architecture files steps validation risks : PlanSection

unfoldable pub section_named : Text → Option PlanSection
section_named heading =
    if is_one_of heading ("goal" ∷ "objective" ∷ [])
    then some PlanSection.goal
    else if is_one_of heading ("relevant architecture" ∷ "architecture" ∷ [])
    then some architecture
    else if is_one_of heading
        ("files likely affected" ∷ "likely affected files" ∷ "affected files" ∷ [])
    then some files
    else if is_one_of heading ("implementation steps" ∷ "steps" ∷ "plan" ∷ [])
    then some PlanSection.steps
    else if is_one_of heading ("validation" ∷ "tests and validation" ∷ "tests" ∷ [])
    then some PlanSection.validation
    else if is_one_of heading ("risks/unknowns" ∷ "risks and unknowns" ∷ "risks" ∷ "unknowns" ∷ [])
    then some risks
    else none

unfoldable pub plan_section : Text → Option PlanSection
unfolding section_named
plan_section heading = section_named (
    replace_char b'-' b' ' (
      replace_char b'_' b' '
        (to_ascii_lowercase (trim (trim_colons (trim (trim_hashes heading)))))))

unfoldable pub push_new : List Text → Text → List Text
push_new items item = if any (text_eq item) items then items else items ++ item ∷ []

unfoldable pub push_plan_item : ImplementationPlan → PlanSection → Text → ImplementationPlan
unfolding push_new
push_plan_item plan PlanSection.goal item = plan
push_plan_item plan architecture item = record plan {
  relevant_architecture = push_new plan.relevant_architecture item;
}
push_plan_item plan files item = record plan {
  files_likely_affected = push_new plan.files_likely_affected item;
}
push_plan_item plan PlanSection.steps item = record plan {
  implementation_steps = push_new plan.implementation_steps item;
}
push_plan_item plan PlanSection.validation item = record plan {
  validation = push_new plan.validation item;
}
push_plan_item plan risks item = record plan {
  risks_or_unknowns = push_new plan.risks_or_unknowns item;
}

unfoldable pub push_filled : ImplementationPlan → PlanSection → Text → ImplementationPlan
push_filled plan place item = if is_empty item then plan else push_plan_item plan place item

-- The item behind the colon of a heading.
value_item : Option (Text × Text) → Text
value_item none = []
value_item (some (_, value)) = plan_item value

heading_value : Text → Text
unfolding value_item
heading_value line = value_item (split_once (text ":") (trim (trim_hashes line)))

push_in : ImplementationPlan → Option PlanSection → Text → ImplementationPlan
push_in plan none line = plan
push_in plan (some place) line = push_filled plan place (plan_item line)

-- The loop over the lines: the plan, the section, and whether there was a section.
pub record PlanState : Type 0 where
  pub plan : ImplementationPlan
  pub place : Option PlanSection
  pub structured : Bool

section_step : PlanState → Text → Option PlanSection → PlanState
unfolding heading_value push_in
section_step s line (some next) = record {
  plan = push_filled s.plan next (heading_value line);
  place = some next;
  structured = true;
}
section_step s line none = record s { plan = push_in s.plan s.place line }

unfoldable pub plan_step : PlanState → Text → PlanState
unfolding section_step
plan_step s line = if is_empty line then s else section_step s line (plan_section line)

unfoldable pub plan_steps : PlanState → List Text → PlanState
unfolding plan_step
plan_steps s [] = s
plan_steps s (line ∷ rest) = plan_steps (plan_step s (trim line)) rest

push_files : List Text → List Text → List Text
push_files paths [] = paths
push_files paths (path ∷ rest) = push_files (push_new paths path) rest

empty_plan : Text → ImplementationPlan
empty_plan objective = record {
  goal = objective;
  relevant_architecture = [];
  files_likely_affected = [];
  implementation_steps = [];
  validation = [];
  risks_or_unknowns = [];
}

unfoldable pub with_steps : PlanState → Text → ImplementationPlan
with_steps s response = if s.structured then s.plan else record (s.plan) {
  implementation_steps = filter (λ line. not (is_empty line)) (map plan_item (lines response));
}

unfoldable pub parse_implementation_plan : Text → Text → List Text → ImplementationPlan
unfolding push_files empty_plan plan_steps
parse_implementation_plan objective response relevant_files =
    let start : PlanState = record {
      plan = empty_plan objective;
      place = none;
      structured = false;
    } in
    let plan = with_steps (plan_steps start (lines response)) response in
    record plan { files_likely_affected = push_files plan.files_likely_affected relevant_files }
