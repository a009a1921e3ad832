-- ===== src/Agent/Steps/Sections.antt =====
-- The sections of the plan that is read from a response keep what is given and repeat nothing.
use cogito_ai.Prelude.{
  ◌≡◌, refl, Bool, true, false, Option, none, some, List, [], ◌∷◌, any, any-append, All, inl, inr,
  Bool-cases, if_lem, ◌∙◌, arith,
}
use cogito_ai.Prelude.Text.{Text, text_eq, trim, lines}
use cogito_ai.Prelude.Text.Laws.{text_eq_refl}
use cogito_ai.Session.Compact.{is_empty}
use cogito_ai.Session.Tasks.{ImplementationPlan}
use cogito_ai.Agent.Bounded.Laws.{IsDistinct, IsDistinct-snoc}
use cogito_ai.Agent.Lines.{plan_item}
use cogito_ai.Agent.Steps.{
  push_new, push_plan_item, push_filled, PlanSection, PlanState, push_in, section_step,
  heading_value, plan_section, plan_step, plan_steps, push_files, empty_plan, with_steps,
  parse_implementation_plan,
}

push_new-IsDistinct :
    (items : List Text) (item : Text) → IsDistinct items → IsDistinct (push_new items item)
unfolding push_new
push_new-IsDistinct items item h = elim (Bool-cases (any (text_eq item) items)) [
  | inl e ↦ rw (push_new, e) h
  | inr e ↦ rw (push_new, e) (IsDistinct-snoc items item h e)
]

-- No item stands twice in a section of the plan, and its goal is the one that is given.
pub record IsWellRead (objective : Text) (plan : ImplementationPlan) : Type 0 where
  pub goal_kept : plan.goal ≡ objective
  pub architecture : IsDistinct plan.relevant_architecture
  pub files : IsDistinct plan.files_likely_affected
  pub validation : IsDistinct plan.validation
  pub risks : IsDistinct plan.risks_or_unknowns

module _ (objective : Text) where
  push_plan_item-IsWellRead :
      (plan : ImplementationPlan) (place : PlanSection) (item : Text)
      → IsWellRead objective plan
      → IsWellRead objective (push_plan_item plan place item)
  unfolding push_plan_item
  push_plan_item-IsWellRead plan PlanSection.goal item h = h
  push_plan_item-IsWellRead plan PlanSection.steps item h = record {
    goal_kept = h.goal_kept;
    architecture = h.architecture;
    files = h.files;
    validation = h.validation;
    risks = h.risks;
  }
  push_plan_item-IsWellRead plan PlanSection.architecture item h = record {
    goal_kept = h.goal_kept;
    architecture = push_new-IsDistinct plan.relevant_architecture item h.architecture;
    files = h.files;
    validation = h.validation;
    risks = h.risks;
  }
  push_plan_item-IsWellRead plan PlanSection.files item h = record {
    goal_kept = h.goal_kept;
    architecture = h.architecture;
    files = push_new-IsDistinct plan.files_likely_affected item h.files;
    validation = h.validation;
    risks = h.risks;
  }
  push_plan_item-IsWellRead plan PlanSection.validation item h = record {
    goal_kept = h.goal_kept;
    architecture = h.architecture;
    files = h.files;
    validation = push_new-IsDistinct plan.validation item h.validation;
    risks = h.risks;
  }
  push_plan_item-IsWellRead plan PlanSection.risks item h = record {
    goal_kept = h.goal_kept;
    architecture = h.architecture;
    files = h.files;
    validation = h.validation;
    risks = push_new-IsDistinct plan.risks_or_unknowns item h.risks;
  }

  push_filled-IsWellRead :
      (plan : ImplementationPlan) (place : PlanSection) (item : Text)
      → IsWellRead objective plan
      → IsWellRead objective (push_filled plan place item)
  unfolding push_filled
  push_filled-IsWellRead plan place item h =
      if_lem (IsWellRead objective) (is_empty item) h (push_plan_item-IsWellRead plan place item h)

  plan_step-IsWellRead :
      (s : PlanState) (line : Text)
      → IsWellRead objective s.plan
      → IsWellRead objective (plan_step s line).plan
  unfolding plan_step section_step push_in
  plan_step-IsWellRead s line h =
      if_lem (λ (t : PlanState). IsWellRead objective t.plan) (is_empty line) h
        (at_section (plan_section line))
    where
      within : (o : Option PlanSection) → IsWellRead objective (push_in s.plan o line)
      within none = h
      within (some place) = push_filled-IsWellRead s.plan place (plan_item line) h

      at_section : (o : Option PlanSection) → IsWellRead objective (section_step s line o).plan
      at_section none = within s.place
      at_section (some next) = push_filled-IsWellRead s.plan next (heading_value line) h

  plan_steps-IsWellRead :
      (rest : List Text) (s : PlanState)
      → IsWellRead objective s.plan
      → IsWellRead objective (plan_steps s rest).plan
  unfolding plan_steps
  plan_steps-IsWellRead [] s h = h
  plan_steps-IsWellRead (line ∷ rest) s h =
      plan_steps-IsWellRead rest (plan_step s (trim line)) (plan_step-IsWellRead s (trim line) h)

  with_steps-IsWellRead :
      (s : PlanState) (response : Text)
      → IsWellRead objective s.plan
      → IsWellRead objective (with_steps s response)
  unfolding with_steps
  with_steps-IsWellRead s response h = if_lem (IsWellRead objective) s.structured h (record {
    goal_kept = h.goal_kept;
    architecture = h.architecture;
    files = h.files;
    validation = h.validation;
    risks = h.risks;
  })

push_files-IsDistinct :
    (paths values : List Text) → IsDistinct values → IsDistinct (push_files values paths)
unfolding push_files
push_files-IsDistinct [] values h = h
push_files-IsDistinct (path ∷ paths) values h =
    push_files-IsDistinct paths (push_new values path) (push_new-IsDistinct values path h)

-- Membership by the test on texts.
abbrev pub has : List Text → Text → Bool
has values path = any (text_eq path) values

has-push_new :
    (values : List Text) (path p : Text) → has values p ≡ true → has (push_new values path) p ≡ true
unfolding push_new any
has-push_new values path p h =
    if_lem (λ (l : List Text). has l p ≡ true) (any (text_eq path) values) h
      (any-append (text_eq p) values (path ∷ []) ∙ ground arith)

new-push_new : (values : List Text) (path : Text) → has (push_new values path) path ≡ true
unfolding push_new any
new-push_new values path = elim (Bool-cases (any (text_eq path) values)) [
  | inl e ↦ rw (push_new, e) e
  | inr e ↦
      rw (push_new, e)
        (any-append (text_eq path) values (path ∷ []) ∙ ground (arith, text_eq_refl path))
]

has-push_files :
    (paths values : List Text) (p : Text)
    → has values p ≡ true
    → has (push_files values paths) p ≡ true
unfolding push_files
has-push_files [] values p h = h
has-push_files (path ∷ paths) values p h =
    has-push_files paths (push_new values path) p (has-push_new values path p h)

all-push_files :
    (paths values : List Text) → All (λ (p : Text). has (push_files values paths) p ≡ true) paths
unfolding push_files
all-push_files [] values = tt
all-push_files (path ∷ paths) values = (
  has-push_files paths (push_new values path) path (new-push_new values path),
  all-push_files paths (push_new values path),
)

-- All files are among those of the plan.
abbrev pub AreKept : List Text → ImplementationPlan → Type 0
AreKept relevant plan = All (λ (p : Text). has plan.files_likely_affected p ≡ true) relevant

-- The plan that is read from a response has the goal that is given, every file that is given as
-- relevant, and no item twice in the sections architecture, files, validation and risks.
pub parse_implementation_plan-IsWellRead :
    (objective response : Text) (relevant : List Text)
    → IsWellRead objective (parse_implementation_plan objective response relevant)
      × AreKept relevant (parse_implementation_plan objective response relevant)
unfolding parse_implementation_plan empty_plan
parse_implementation_plan-IsWellRead objective response relevant =
    let start : PlanState = record {
      plan = empty_plan objective;
      place = none;
      structured = false;
    } in
    let read = with_steps-IsWellRead objective (plan_steps start (lines response)) response (
      plan_steps-IsWellRead objective (lines response) start (record {
        goal_kept = refl;
        architecture = tt;
        files = tt;
        validation = tt;
        risks = tt;
      })) in
    let plan = with_steps (plan_steps start (lines response)) response in
    (
      record {
        goal_kept = read.goal_kept;
        architecture = read.architecture;
        files = push_files-IsDistinct relevant plan.files_likely_affected read.files;
        validation = read.validation;
        risks = read.risks;
      },
      all-push_files relevant plan.files_likely_affected,
    )
