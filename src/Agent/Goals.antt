-- ===== src/Agent/Goals.antt =====
-- What the agent reads from the text of a task: its acceptance criteria, its objective, and its
-- constraints, of crates/harness-agent/src/lib.rs.
pub mod Laws
use cogito_ai.Prelude.{
  ℕ, Bool, true, false, not, ◌&&◌, ◌||◌, Option, none, some, List, [], ◌∷◌, map, ◌==◌,
  if◌then◌else◌,
}
use cogito_ai.Prelude.Text.{
  Text, text, text_eq, starts_with, trim, trim_start_matches, to_ascii_lowercase, lines, join,
  is_one_of,
}
use cogito_ai.Session.Compact.{is_empty}
use cogito_ai.Session.Tasks.{Goal, new_goal}
use cogito_ai.Agent.Bounded.{bounded_summary, push_unique_bounded}
use cogito_ai.Agent.Lines.{
  split_once, eq_ignore_ascii_case, trim_hashes, trim_colons, plan_item, is_list_item,
}

-- The loop of `extract_acceptance_criteria` over the lines, with whether a section is open.
unfoldable pub is_criterion_mark : ℕ → Bool
is_criterion_mark c =
    c == b'-' || c == b'*' || c == b' ' || c == b'[' || c == b']' || c == b'x' || c == b'X'

unfoldable pub criterion_of : Text → Text
unfolding is_criterion_mark
criterion_of trimmed = trim (trim_start_matches is_criterion_mark trimmed)

unfoldable pub push_criterion : List Text → Text → List Text
unfolding criterion_of
push_criterion criteria trimmed =
    let item = criterion_of trimmed in
    if is_empty item then criteria else push_unique_bounded criteria (bounded_summary item) 32

opens_criteria : Text → Bool
opens_criteria trimmed =
    let lower = to_ascii_lowercase trimmed in
    starts_with lower (text "acceptance criteria") || text_eq lower (text "criteria:")

is_check_box : Text → Bool
is_check_box trimmed = starts_with trimmed (text "- [ ]") || starts_with trimmed (text "- [x]")

unfoldable pub criterion_step : Bool → List Text → Text → Bool × List Text
unfolding opens_criteria is_check_box push_criterion
criterion_step in_section criteria trimmed =
    if opens_criteria trimmed
    then (true, criteria)
    else if in_section && is_empty trimmed
    then (in_section, criteria)
    else let still = in_section && is_list_item trimmed in
      if (still || is_check_box trimmed) && is_list_item trimmed
      then (still, push_criterion criteria trimmed)
      else (still, criteria)

unfoldable pub criteria_from : Bool → List Text → List Text → List Text
criteria_from in_section criteria [] = criteria
criteria_from in_section criteria (line ∷ rest) =
    let (still, more) = criterion_step in_section criteria (trim line) in
    criteria_from still more rest

unfoldable pub extract_acceptance_criteria : Text → List Text
extract_acceptance_criteria goal = criteria_from false [] (lines goal)

-- The lines before the first section.
ends_with_completion : Option (Text × Text) → Bool
ends_with_completion none = false
ends_with_completion (some (heading, _)) =
    eq_ignore_ascii_case (trim heading) (text "completion condition")

unfoldable pub is_objective_line : Text → Bool
unfolding ends_with_completion
is_objective_line line =
    let heading = to_ascii_lowercase (trim_colons (trim (trim_hashes (trim line)))) in
    not (
      is_one_of heading (
        "acceptance criteria" ∷ "criteria" ∷ "constraints" ∷ "non-goals" ∷ "non goals"
        ∷ "completion condition" ∷ []))
    && not (ends_with_completion (split_once (text ":") line))

unfoldable pub take_while {ℓ} : {A : Type ℓ} → (A → Bool) → List A → List A
take_while p [] = []
take_while p (x ∷ xs) = let rest = take_while p xs in if p x then x ∷ rest else []

unfoldable pub extract_goal_objective : Text → Text
unfolding is_objective_line take_while
extract_goal_objective goal =
    let objective = trim (join (text "\n") (take_while is_objective_line (lines goal))) in
    if is_empty objective then trim goal else objective

-- The section that the loop of `parse_goal_details` is in.
pub data GoalSection : Type 0 where
  outside acceptance constraints non_goals completion : GoalSection

abbrev add_constraint : Goal → Text → Goal
add_constraint goal item = record goal {
  constraints = push_unique_bounded goal.constraints item 32;
}

abbrev add_non_goal : Goal → Text → Goal
add_non_goal goal item = record goal { non_goals = push_unique_bounded goal.non_goals item 32 }

-- A line that is a heading alone.
heading_section : Text → Option GoalSection
heading_section line =
    let normalized = to_ascii_lowercase (trim_colons (trim (trim_hashes line))) in
    if is_one_of normalized ("acceptance criteria" ∷ "criteria" ∷ [])
    then some acceptance
    else if is_one_of normalized ("constraints" ∷ [])
    then some constraints
    else if is_one_of normalized ("non-goals" ∷ "non goals" ∷ [])
    then some non_goals
    else none

-- A heading with a value behind its colon.
headed : Goal → Option (Text × Text) → Option (GoalSection × Goal)
headed goal none = none
headed goal (some (before, value)) =
    let heading = trim (trim_hashes (trim before)) in
    let blank = is_empty (trim value) in
    if eq_ignore_ascii_case heading (text "constraints")
    then some (constraints, if blank then goal else add_constraint goal (plan_item value))
    else if eq_ignore_ascii_case heading (text "non-goals")
        || eq_ignore_ascii_case heading (text "non goals")
    then some (non_goals, if blank then goal else add_non_goal goal (plan_item value))
    else if eq_ignore_ascii_case heading (text "completion condition")
    then some (completion, record goal { completion_condition = trim value })
    else none

add_listed : GoalSection → Goal → Text → Goal
add_listed constraints goal item = add_constraint goal item
add_listed non_goals goal item = add_non_goal goal item
add_listed outside goal item = goal
add_listed acceptance goal item = goal
add_listed completion goal item = goal

listed : GoalSection → Goal → Text → GoalSection × Goal
unfolding add_listed
listed section goal line =
    if is_empty line
    then (section, goal)
    else if is_list_item line
    then (section, add_listed section goal (plan_item line))
    else if not (starts_with line (text "- "))
    then (outside, goal)
    else (section, goal)

after_heading : Option (GoalSection × Goal) → GoalSection → Goal → Text → GoalSection × Goal
unfolding listed
after_heading (some next) section goal line = next
after_heading none section goal line = listed section goal line

goal_step_with : Option GoalSection → GoalSection → Goal → Text → GoalSection × Goal
unfolding after_heading headed
goal_step_with (some next) section goal line = (next, goal)
goal_step_with none section goal line =
    after_heading (headed goal (split_once (text ":") line)) section goal line

unfoldable pub goal_step : GoalSection → Goal → Text → GoalSection × Goal
unfolding goal_step_with heading_section
goal_step section goal line = goal_step_with (heading_section line) section goal line

unfoldable pub goal_from : GoalSection → Goal → List Text → Goal
goal_from section goal [] = goal
goal_from section goal (line ∷ rest) =
    let (next, more) = goal_step section goal (trim line) in goal_from next more rest

unfoldable pub parse_goal_details : Text → List Text → Goal
parse_goal_details goal criteria =
    goal_from outside
      (record (new_goal (extract_goal_objective goal)) { acceptance_criteria = criteria })
      (lines goal)
