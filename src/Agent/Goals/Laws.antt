-- ===== src/Agent/Goals/Laws.antt =====
-- What the agent reads from a task stays within its limits.
use cogito_ai.Prelude.{
  ◌≡◌, Bool, false, not, ◌&&◌, ◌||◌, Option, none, some, List, [], ◌∷◌, inl, inr, Bool-cases,
  if_lem, refl,
}
use cogito_ai.Prelude.Text.{Text, text, trim, starts_with, lines}
use cogito_ai.Session.Compact.{is_empty}
use cogito_ai.Session.Tasks.{Goal, new_goal, default_goal}
use cogito_ai.Agent.Bounded.{bounded_summary}
use cogito_ai.Agent.Bounded.Laws.{
  AreBounded, len-bounded_summary-le, push_unique_bounded-AreBounded, nil-AreBounded,
}
use cogito_ai.Agent.Lines.{trim_hashes, eq_ignore_ascii_case, plan_item, split_once, is_list_item}
use cogito_ai.Agent.Lines.Laws.{plan_item-IsSummary}
use cogito_ai.Agent.Goals.{
  criterion_of, push_criterion, opens_criteria, is_check_box, criterion_step, criteria_from,
  extract_acceptance_criteria, extract_goal_objective, GoalSection, outside, add_constraint,
  add_non_goal, heading_section, headed, add_listed, listed, after_heading, goal_step_with,
  goal_step, goal_from, parse_goal_details,
}

push_criterion-AreBounded :
    (criteria : List Text) (trimmed : Text)
    → AreBounded 32 criteria
    → AreBounded 32 (push_criterion criteria trimmed)
unfolding push_criterion
push_criterion-AreBounded criteria trimmed h = elim (Bool-cases (is_empty (criterion_of trimmed))) [
  | inl e ↦ rw (push_criterion, e) h
  | inr e ↦
      rw (push_criterion, e)
        (push_unique_bounded-AreBounded criteria (bounded_summary (criterion_of trimmed)) 32 h
          (len-bounded_summary-le (criterion_of trimmed)))
]

criterion_step-AreBounded :
    (in_section : Bool) (criteria : List Text) (trimmed : Text)
    → AreBounded 32 criteria
    → AreBounded 32 (criterion_step in_section criteria trimmed).1
unfolding criterion_step
criterion_step-AreBounded in_section criteria trimmed h =
    let holds : Bool × List Text → Type 0 = λ r. AreBounded 32 r.1 in
    if_lem holds (opens_criteria trimmed) h (
      if_lem holds (in_section && is_empty trimmed) h (
        if_lem holds
          ((in_section && is_list_item trimmed || is_check_box trimmed) && is_list_item trimmed)
          (push_criterion-AreBounded criteria trimmed h) h))

criteria_from-AreBounded :
    (rest : List Text) (in_section : Bool) (criteria : List Text)
    → AreBounded 32 criteria
    → AreBounded 32 (criteria_from in_section criteria rest)
unfolding criteria_from
criteria_from-AreBounded [] in_section criteria h = h
criteria_from-AreBounded (line ∷ rest) in_section criteria h =
    criteria_from-AreBounded rest (criterion_step in_section criteria (trim line)).0
      (criterion_step in_section criteria (trim line)).1
      (criterion_step-AreBounded in_section criteria (trim line) h)

pub extract_acceptance_criteria-AreBounded :
    (goal : Text) → AreBounded 32 (extract_acceptance_criteria goal)
unfolding extract_acceptance_criteria
extract_acceptance_criteria-AreBounded goal =
    criteria_from-AreBounded (lines goal) false [] (nil-AreBounded 32)

-- The lists of a goal that are read from the text, and the criteria, which are given.
pub record IsRead (criteria : List Text) (goal : Goal) : Type 0 where
  pub constraints_fit : AreBounded 32 goal.constraints
  pub non_goals_fit : AreBounded 32 goal.non_goals
  pub criteria_kept : goal.acceptance_criteria ≡ criteria

module _ (criteria : List Text) where
  add_constraint-IsRead :
      (goal : Goal) (line : Text)
      → IsRead criteria goal
      → IsRead criteria (add_constraint goal (plan_item line))
  add_constraint-IsRead goal line h = record {
    constraints_fit =
        push_unique_bounded-AreBounded goal.constraints (plan_item line) 32 h.constraints_fit
          (plan_item-IsSummary line);
    non_goals_fit = h.non_goals_fit;
    criteria_kept = h.criteria_kept;
  }

  add_non_goal-IsRead :
      (goal : Goal) (line : Text)
      → IsRead criteria goal
      → IsRead criteria (add_non_goal goal (plan_item line))
  add_non_goal-IsRead goal line h = record {
    constraints_fit = h.constraints_fit;
    non_goals_fit =
        push_unique_bounded-AreBounded goal.non_goals (plan_item line) 32 h.non_goals_fit
          (plan_item-IsSummary line);
    criteria_kept = h.criteria_kept;
  }

  -- The goal of a step, which may be none.
  abbrev Holds : GoalSection × Goal → Type 0
  Holds r = IsRead criteria r.1

  abbrev MayHold : Option (GoalSection × Goal) → Type 0
  MayHold none = Unit
  MayHold (some r) = Holds r

  headed-IsRead :
      (goal : Goal) (o : Option (Text × Text)) → IsRead criteria goal → MayHold (headed goal o)
  unfolding headed
  headed-IsRead goal none h = tt
  headed-IsRead goal (some (before, value)) h =
      let heading = trim (trim_hashes (trim before)) in
      let blank = is_empty (trim value) in
      if_lem MayHold (eq_ignore_ascii_case heading (text "constraints"))
        (if_lem (IsRead criteria) blank h (add_constraint-IsRead goal value h))
        (if_lem MayHold
          (eq_ignore_ascii_case heading (text "non-goals")
            || eq_ignore_ascii_case heading (text "non goals"))
          (if_lem (IsRead criteria) blank h (add_non_goal-IsRead goal value h))
          (if_lem MayHold (eq_ignore_ascii_case heading (text "completion condition"))
            (record {
              constraints_fit = h.constraints_fit;
              non_goals_fit = h.non_goals_fit;
              criteria_kept = h.criteria_kept;
            })
            tt))

  add_listed-IsRead :
      (place : GoalSection) (goal : Goal) (line : Text)
      → IsRead criteria goal
      → IsRead criteria (add_listed place goal (plan_item line))
  unfolding add_listed
  add_listed-IsRead GoalSection.outside goal line h = h
  add_listed-IsRead GoalSection.acceptance goal line h = h
  add_listed-IsRead GoalSection.constraints goal line h = add_constraint-IsRead goal line h
  add_listed-IsRead GoalSection.non_goals goal line h = add_non_goal-IsRead goal line h
  add_listed-IsRead GoalSection.completion goal line h = h

  goal_step-IsRead :
      (place : GoalSection) (goal : Goal) (line : Text)
      → IsRead criteria goal
      → Holds (goal_step place goal line)
  unfolding goal_step goal_step_with after_heading listed
  goal_step-IsRead place goal line h = at_heading (heading_section line)
    where
      behind :
          (o : Option (GoalSection × Goal)) → MayHold o → Holds (after_heading o place goal line)
      behind (some next) p = p
      behind none p = if_lem Holds (is_empty line) h (
          if_lem Holds (is_list_item line) (add_listed-IsRead place goal line h)
            (if_lem Holds (not (starts_with line (text "- "))) h h))

      at_heading : (o : Option GoalSection) → Holds (goal_step_with o place goal line)
      at_heading (some next) = h
      at_heading none =
          behind (headed goal (split_once (text ":") line))
            (headed-IsRead goal (split_once (text ":") line) h)

  goal_from-IsRead :
      (rest : List Text) (place : GoalSection) (goal : Goal)
      → IsRead criteria goal
      → IsRead criteria (goal_from place goal rest)
  unfolding goal_from
  goal_from-IsRead [] place goal h = h
  goal_from-IsRead (line ∷ rest) place goal h =
      goal_from-IsRead rest (goal_step place goal (trim line)).0
        (goal_step place goal (trim line)).1 (goal_step-IsRead place goal (trim line) h)

-- The goal that is read from a text has at most 32 constraints and 32 non-goals, none of them twice
-- and each of at most 243 bytes, and the acceptance criteria that are given.
pub parse_goal_details-IsRead :
    (goal : Text) (criteria : List Text) → IsRead criteria (parse_goal_details goal criteria)
unfolding parse_goal_details new_goal default_goal
parse_goal_details-IsRead goal criteria =
    goal_from-IsRead criteria (lines goal) outside
      (record (new_goal (extract_goal_objective goal)) { acceptance_criteria = criteria })
      (record {
        constraints_fit = nil-AreBounded 32;
        non_goals_fit = nil-AreBounded 32;
        criteria_kept = refl;
      })
