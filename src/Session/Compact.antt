-- ===== src/Session/Compact.antt =====
-- `CompactState` and its rendering, of crates/harness-session/src/events.rs.
use cogito_ai.Prelude.{
  Bool, true, false, not, Option, none, some, List, [], ◌∷◌, ◌++◌, map, if◌then◌else◌, all, filter,
}
use cogito_ai.Prelude.Text.{Text, text, join, trim}
use cogito_ai.Session.Tasks.{Goal, ExecutionTask, ExecutionMilestone, ExecutionPlan, status_debug}

pub record CompactState : Type 0 where
  pub task : Text
  pub current_state : Text
  pub goal : Option Goal
  pub execution_plan : Option ExecutionPlan
  pub current_approach : Text
  pub discoveries : List Text
  pub important_symbols : List Text
  pub important_files : List Text
  pub files_modified : List Text
  pub decisions : List Text
  pub failed_attempts : List Text
  pub test_status : List Text
  pub commands_and_tests : List Text
  pub known_failures : List Text
  pub what_has_been_tried : List Text
  pub next_steps : List Text
  pub current_git_diff : Option Text
  pub remaining_work : List Text

unfoldable pub is_empty : Text → Bool
is_empty [] = true
is_empty (_ ∷ _) = false

is_filled : Text → Bool
unfolding is_empty
is_filled value = not (is_empty (trim value))

unfoldable pub push_section : List Text → Text → List Text → List Text
unfolding is_empty is_filled
push_section sections name [] = sections
push_section sections name (v ∷ values) =
    if all is_empty (v ∷ values)
    then sections
    else sections
      ++ (text "### " ++ (name ++ (text "\n" ++ join (text "\n") (filter is_filled (v ∷ values)))))
        ∷ []

-- The objective of the goal if there is one that is not empty, and the task otherwise.
unfoldable pub headline : Option Goal → Text → Text
unfolding is_empty
headline none task = task
headline (some g) task = if is_empty g.objective then task else g.objective

goal_sections : Option Goal → List Text → List Text
goal_sections none sections = sections
goal_sections (some g) sections =
    let s1 = push_section sections (text "persistent objective") (g.objective ∷ []) in
    let s2 = push_section s1 (text "acceptance criteria") g.acceptance_criteria in
    let s3 = push_section s2 (text "constraints") g.constraints in
    let s4 = push_section s3 (text "non-goals") g.non_goals in
    push_section s4 (text "completion condition") (g.completion_condition ∷ [])

task_line : ExecutionTask → Text
task_line t = text "- " ++ (status_debug t.status ++ (text ": " ++ t.description))

-- `flat_map` over the milestones: a line for each and a line for each of its tasks.
progress_lines : List ExecutionMilestone → List Text
unfolding task_line
progress_lines [] = []
progress_lines (m ∷ ms) =
    (m.title ++ (text " [" ++ (status_debug m.status ++ text "]"))) ∷ map task_line m.tasks
    ++ progress_lines ms

plan_sections : Option ExecutionPlan → List Text → List Text
unfolding progress_lines
plan_sections none sections = sections
plan_sections (some plan) sections =
    let s1 =
      push_section sections (text "execution plan progress") (progress_lines plan.milestones) in
    push_section s1 (text "plan decisions") plan.decision_notes

diff_section : Option Text → List Text → List Text
diff_section none sections = sections
diff_section (some diff) sections = push_section sections (text "CURRENT GIT DIFF") (diff ∷ [])

unfoldable pub list_sections : CompactState → List Text → List Text
list_sections c sections =
    let s1 = push_section sections (text "DECISIONS") c.decisions in
    let s2 = push_section s1 (text "FILES CHANGED") c.files_modified in
    let s3 = push_section s2 (text "IMPORTANT SYMBOLS") c.important_symbols in
    let s4 = push_section s3 (text "IMPORTANT FILES") c.important_files in
    let s5 = push_section s4 (text "DISCOVERIES") c.discoveries in
    let s6 = push_section s5 (text "COMMANDS/TESTS") c.commands_and_tests in
    let s7 = push_section s6 (text "TEST STATUS") c.test_status in
    let s8 = push_section s7 (text "KNOWN FAILURES") c.known_failures in
    let s9 = push_section s8 (text "FAILED ATTEMPTS") c.failed_attempts in
    let s10 = push_section s9 (text "WHAT HAS BEEN TRIED") c.what_has_been_tried in
    let s11 = push_section s10 (text "NEXT STEPS") c.next_steps in
    push_section s11 (text "REMAINING WORK") c.remaining_work

unfoldable pub render_sections : CompactState → List Text
unfolding goal_sections plan_sections diff_section is_empty
render_sections c =
    let s1 = push_section [] (text "GOAL") (headline c.goal c.task ∷ []) in
    let s2 = plan_sections c.execution_plan (goal_sections c.goal s1) in
    let s3 =
      push_section s2 (text "CURRENT STATE")
        ((if is_empty c.current_state then c.current_approach else c.current_state) ∷ []) in
    diff_section c.current_git_diff (list_sections c s3)

-- `CompactState::render`
unfoldable pub render : CompactState → Text
render c = join (text "\n\n") (render_sections c)
