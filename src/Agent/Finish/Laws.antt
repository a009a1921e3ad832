-- ===== src/Agent/Finish/Laws.antt =====
-- A run that ends as done owes nothing, whatever the response and the check of the diff are.
use cogito_ai.Prelude.{◌≡◌, Option, none, some, List, if_lem, subst, arith}
use cogito_ai.Prelude.Text.{Text}
use cogito_ai.Prelude.Results.{Result, ok, err}
use cogito_ai.Session.Tasks.{TaskCompletionStatus}
use cogito_ai.Agent.Limits.{AgentError, Ending}
use cogito_ai.Agent.Turn.{Settings, Turn, Check, ended, updated}
use cogito_ai.Agent.Finish.{
  dismissed, needs_diff, inspected, after_check, concluded, by_directive, final_response,
}
use cogito_ai.Agent.Turn.Honesty.{
  IsComplete, AreHonest, unfinished-IsHonest, blocked-IsHonest, judged-AreHonest,
}

module _ (debug : List Text → Text) (final_diff : Option Text) where
  concluded-AreHonest :
      (s : Settings) (t : Turn) (message : Text) (dispositions : List (Text × Text)) (check : Check)
      → AreHonest s (concluded debug final_diff s t message dispositions check)
  unfolding concluded after_check
  concluded-AreHonest s t message dispositions check =
      let after = dismissed t dispositions in
      if_lem (AreHonest s) (needs_diff s after.work.run)
        (checked (inspected debug final_diff s.max_repeated_failures after check))
        (judged-AreHonest s after message)
    where
      checked :
          (r : Result AgentError Turn) → AreHonest s (after_check debug final_diff s message r)
      checked (err e) = tt
      checked (ok t) =
          if_lem (AreHonest s) t.work.run.final_diff_inspected tt
            (judged-AreHonest s (updated t) message)

  by_directive-AreHonest :
      (s : Settings) (t : Turn) (response message : Text) (dispositions : List (Text × Text))
      (check : Check) (directive : Option TaskCompletionStatus)
      → AreHonest s
          (by_directive debug final_diff s t response message dispositions check directive)
  unfolding by_directive
  by_directive-AreHonest s t response message dispositions check none =
      concluded-AreHonest s _ message dispositions check
  by_directive-AreHonest s t response message dispositions check
        (some TaskCompletionStatus.user_input_required) =
      λ d. unfinished-IsHonest s s.hook_error _ message (λ p. absurd (ground arith)) d
  by_directive-AreHonest s t response message dispositions check
        (some TaskCompletionStatus.blocked) =
      λ d. blocked-IsHonest s _ _ d
  by_directive-AreHonest s t response message dispositions check
        (some TaskCompletionStatus.in_progress) =
      concluded-AreHonest s _ message dispositions check
  by_directive-AreHonest s t response message dispositions check (some TaskCompletionStatus.done) =
      concluded-AreHonest s _ message dispositions check
  by_directive-AreHonest s t response message dispositions check
        (some TaskCompletionStatus.resource_limit_reached) =
      concluded-AreHonest s _ message dispositions check
  by_directive-AreHonest s t response message dispositions check
        (some TaskCompletionStatus.cancelled) =
      concluded-AreHonest s _ message dispositions check

  -- If a response without calls of tools ends the run as done, no error of the run is unresolved, its
  -- plan is completed, the hooks at the end passed, and in the mode CODE the final diff was inspected
  -- if a file was changed; whatever the response says and the check of the diff finds.
  pub final_response-IsComplete :
      (s : Settings) (t : Turn) (response : Text) (check : Check) (e : Ending)
      → final_response debug final_diff s t response check ≡ ended e
      → e.run.completion_status ≡ TaskCompletionStatus.done
      → IsComplete s e.run
  unfolding final_response
  final_response-IsComplete s t response check e p d =
      subst (AreHonest s) p (by_directive-AreHonest s _ response _ _ check _) d
