-- ===== src/Agent/Examples/Reading.antt =====
-- Texts that the agent reads: criteria, plans and directives; and histories that it trims.
use cogito_ai.Prelude.{
  ℕ, ◌≡◌, refl, true, false, Option, none, some, List, [], ◌∷◌, ◌++◌, map, any, all, filter, arith,
}
use cogito_ai.Prelude.Text.{
  Text, text, text_eq, starts_with, ends_with, trim, trim_start_matches, trim_end_matches,
  to_ascii_lowercase, lines, join, is_one_of, decimal, len, utf8_width, is_char_boundary, slice_to,
  replace_char,
}
use cogito_ai.Session.Compact.{is_empty}
use cogito_ai.Session.Tasks.{ContextMetrics, new_task_run, new_goal, default_goal, default_metrics}
use cogito_ai.Context.Budget.{saturating_add_u32}
use cogito_ai.Agent.Bounded.{bounded_summary, push_bounded, push_unique_bounded}
use cogito_ai.Agent.Lines.{
  put_first, split_once, eq_ignore_ascii_case, is_ascii_digit, trim_hashes, trim_colons, plan_item,
  is_list_item,
}
use cogito_ai.Agent.Goals.{
  is_criterion_mark, criterion_of, push_criterion, criterion_step, criteria_from,
  extract_acceptance_criteria, is_objective_line, take_while, extract_goal_objective, goal_step,
  goal_from, parse_goal_details,
}
use cogito_ai.Agent.Steps.{
  push_step, steps_from, plan_remainder, first_step, plan_from, extract_plan, find_revision,
  extract_plan_revision, PlanSection, section_named, plan_section, parse_implementation_plan,
  push_new, push_plan_item, push_filled, plan_step, plan_steps, with_steps,
}
use cogito_ai.Agent.Steps.Sections.{IsWellRead, AreKept, parse_implementation_plan-IsWellRead}
use cogito_ai.Agent.Directives.{
  strip_text, parse_completion_directive, disposition_of, sort_lines,
  parse_unrelated_verification_directives, is_dismissed, dismiss, dismiss_all, remove_error,
  apply_unrelated_verification_dispositions,
}
use cogito_ai.Agent.Directives.Laws.{
  IsDismissed, apply_unrelated_verification_dispositions-IsDismissed, git_diff-kept,
}
use cogito_ai.Agent.History.{
  Message, ToolCall, assistant_tool_calls, tool_result, sum_usize, block_bytes, call_bytes,
  message_tokens, fold_tokens, estimate_model_history_tokens, previously_executed, drop_arguments,
}
use cogito_ai.Agent.Metrics.Laws.{AreInStep, recorded_turns, recorded_turns-AreInStep}

opened : Unit {0}
unfolding text text_eq starts_with ends_with trim trim_start_matches trim_end_matches
    to_ascii_lowercase lines join is_one_of decimal len utf8_width is_char_boundary slice_to
    replace_char any all filter is_empty new_task_run new_goal default_goal default_metrics
    bounded_summary push_bounded push_unique_bounded put_first split_once eq_ignore_ascii_case
    is_ascii_digit trim_hashes trim_colons plan_item is_list_item is_criterion_mark criterion_of
    push_criterion criterion_step criteria_from extract_acceptance_criteria is_objective_line
    take_while extract_goal_objective goal_step goal_from parse_goal_details push_step steps_from
    plan_remainder first_step plan_from extract_plan find_revision extract_plan_revision
    section_named plan_section push_new push_plan_item push_filled plan_step plan_steps with_steps
    parse_implementation_plan strip_text parse_completion_directive disposition_of sort_lines
    parse_unrelated_verification_directives is_dismissed dismiss dismiss_all remove_error
    apply_unrelated_verification_dispositions
opened = tt

criteria_read :
    extract_acceptance_criteria
      (text "Fix it\nAcceptance criteria:\n- builds\n- [x] tests pass\n\nThanks")
    ≡ text "builds" ∷ text "tests pass" ∷ []
unfolding opened
criteria_read = refl

-- The first letter of an item is taken for the mark of a check box.
criterion_cut :
    extract_acceptance_criteria (text "Criteria:\n- xterm works") ≡ text "term works" ∷ []
unfolding opened
criterion_cut = refl

constraints_read :
    (parse_goal_details (text "Tidy\nConstraints: no new crates\n- keep the API") []).constraints
    ≡ text "no new crates" ∷ text "keep the API" ∷ []
unfolding opened
constraints_read = refl

-- The line of a constraint is part of the objective too.
objective_read :
    (parse_goal_details (text "Tidy\nConstraints: no new crates") []).objective
    ≡ text "Tidy\nConstraints: no new crates"
unfolding opened
objective_read = refl

plan_read :
    extract_plan (text "So:\nPlan:\n1. read\n- edit\n\nDone")
    ≡ some (text "1. read" ∷ text "edit" ∷ [])
unfolding opened
plan_read = refl

-- Of seventeen steps the first is lost.
steps_lost :
    extract_plan (text "Plan:\na\nb\nc\nd\ne\nf\ng\nh\ni\nj\nk\nl\nm\nn\no\np\nq")
    ≡ some (map (λ c. c ∷ []) (text "bcdefghijklmnopq"))
unfolding opened
steps_lost = refl

revision_read :
    extract_plan_revision (text "Plan revision: no parser\nPlan:\n- write it")
    ≡ some (text "no parser", text "write it" ∷ [])
unfolding opened
revision_read = refl

-- A value in the line of a heading is lost: such a line is no heading.
heading_alone : plan_section (text "## Implementation steps:") ≡ some PlanSection.steps
unfolding opened
heading_alone = refl

heading_with_value : plan_section (text "Validation: cargo test") ≡ none
unfolding opened
heading_with_value = refl

value_misplaced :
    (parse_implementation_plan
      (text "Tidy")
      (text "Steps:\n- edit\nValidation: cargo test")
      []).implementation_steps
    ≡ text "edit" ∷ text "Validation: cargo test" ∷ []
unfolding opened
value_misplaced = refl

parse_implementation_plan-IsWellRead_example :
    IsWellRead
      (text "Tidy")
      (parse_implementation_plan (text "Tidy") (text "Steps:\n- edit") (text "a.rs" ∷ []))
    × AreKept
        (text "a.rs" ∷ [])
        (parse_implementation_plan (text "Tidy") (text "Steps:\n- edit") (text "a.rs" ∷ []))
parse_implementation_plan-IsWellRead_example =
    parse_implementation_plan-IsWellRead (text "Tidy") (text "Steps:\n- edit") (text "a.rs" ∷ [])

directive_read :
    parse_unrelated_verification_directives
      (text "Done.\n[UNRELATED_VERIFICATION] cargo test :: flaky")
    ≡ (text "Done.", (text "cargo test", text "flaky") ∷ [])
unfolding opened
directive_read = refl

abbrev errors : List (Text × Text)
errors =
    (text "verification:Test:cargo test", text "test")
    ∷ (text "verification:GitDiff:git diff --check", text "diff")
    ∷ []

abbrev dispositions : List (Text × Text)
dispositions = (text "cargo test", text "flaky") ∷ (text "git diff --check", text "mine") ∷ []

diff_kept :
    (apply_unrelated_verification_dispositions
      (new_task_run [])
      errors
      dispositions
      false).0.unresolved_errors
    ≡ text "diff" ∷ []
unfolding opened
diff_kept = refl

-- With its category the command names the failure of the final diff.
diff_dismissed :
    is_dismissed (text "GitDiff:git diff --check") (text "verification:GitDiff:git diff --check")
    ≡ true
unfolding opened
diff_dismissed = refl

apply_unrelated_verification_dispositions-IsDismissed_example :
    IsDismissed errors dispositions false
      (apply_unrelated_verification_dispositions (new_task_run []) errors dispositions false)
apply_unrelated_verification_dispositions-IsDismissed_example =
    apply_unrelated_verification_dispositions-IsDismissed (new_task_run []) errors dispositions
      false

git_diff-kept_example :
    is_dismissed (text "cargo test") (text "verification:" ++ (text "GitDiff:" ++ text "git diff"))
    ≡ false
unfolding opened
git_diff-kept_example = git_diff-kept (text "cargo test") (text "git diff") refl

-- A call without arguments and its result.
abbrev call : ToolCall
call = record { id = text "1"; name = text "ls"; arguments = text "{}" }

abbrev history : List Message
history = assistant_tool_calls (call ∷ []) ∷ tool_result (text "1") (text "a.rs b.rs") false ∷ []

-- The arguments that replace those of a call may be longer than they.
longer_arguments : estimate_model_history_tokens (assistant_tool_calls (call ∷ []) ∷ []) ≡ 2
unfolding opened assistant_tool_calls sum_usize block_bytes call_bytes message_tokens fold_tokens
    estimate_model_history_tokens saturating_add_u32
longer_arguments = refl

longer_after :
    estimate_model_history_tokens (map drop_arguments (assistant_tool_calls (call ∷ []) ∷ [])) ≡ 8
unfolding opened assistant_tool_calls sum_usize block_bytes call_bytes message_tokens fold_tokens
    estimate_model_history_tokens saturating_add_u32 drop_arguments previously_executed
longer_after = refl

abbrev turns : List (ℕ × ℕ × Option ℕ)
turns = (10, 0, some 9) ∷ (12, 8, none) ∷ []

recorded_turns-AreInStep_example :
    (last : ContextMetrics) × (recorded_turns default_metrics turns ≡ some last) × AreInStep last
unfolding opened
recorded_turns-AreInStep_example =
    recorded_turns-AreInStep turns default_metrics (record { same = refl; short = omega arith })
