-- ===== src/Context/Candidates.antt =====
-- The candidates that `build_for_context_window_reserving` makes from its input, with priority and
-- recency, and the assembly that it returns. `usize::MAX` is that of 64 bits.
pub mod Laws
use cogito_ai.Prelude.{
  ℕ, suc, ◌+◌, ◌-◌, ◌^◌, ◌≡◌, ◌≤◌, ◌<◌, Bool, true, false, not, ◌||◌, Option, none, some, List, [],
  ◌∷◌, ◌++◌, map, filter, drop, length, reverse, leb, sort_by, if◌then◌else◌, arith, ap, sym, refl,
}
use cogito_ai.Prelude.Text.{Text, text, decimal}
use cogito_ai.Prelude.Results.{Result, ok, err, ◌>>=◌, bind_ok, ok_injective}
use cogito_ai.Core.Errors.{Error}
use cogito_ai.Session.Compact.{is_empty, CompactState, render}
use cogito_ai.Session.Replay.{ConversationMessage}
use cogito_ai.Context.Budget.{ContextBudget, ContextBudgetManager, reserved_budget}
use cogito_ai.Context.Budget.Laws.{reserved_budget_ok}
use cogito_ai.Context.Truncate.{summarize_shell_output}
use cogito_ai.Context.Input.{
  InstructionFile, GitStatus, WorkspaceMetadata, ExplicitFile, ToolContextResult, ContextInput,
  workspace_text, git_text, role_name, is_failure, tool_priority,
}
use cogito_ai.Context.Items.{
  ContextCategory, ContextReason, ContextLimit, ContextItem, Candidate, candidate_le, choose_items,
  excluded_items, render_prompt,
}
use cogito_ai.Context.Items.Laws.{included_tokens, AreKept, choose_items-fits, choose_items-AreKept}

abbrev pub Ranked : Type 0
Ranked = ℕ × ℕ × Candidate

abbrev candidate :
    Text → ContextCategory → Text → ContextReason → Text → Bool → Option ContextLimit → Candidate
candidate id category source reason content is_required limit = record {
  id = id;
  category = category;
  source = source;
  reason = reason;
  content = content;
  is_required = is_required;
  limit = limit;
}

unfoldable pub fixed_candidates : ContextInput → List Ranked
fixed_candidates input =
    (
      0,
      0,
      candidate (text "system-instructions") ContextCategory.system (text "harness")
          ContextReason.required input.system_instructions true none,
    )
    ∷ (
      0,
      1,
      candidate (text "user-request") ContextCategory.user_request (text "conversation")
          ContextReason.current_user_request input.user_request true none,
    )
    ∷ []

unfoldable pub compacted_candidates : Option CompactState → List Ranked
compacted_candidates none = []
compacted_candidates (some c) =
    (
      3,
      2 ^ 64 - 1,
      candidate (text "compacted-state") ContextCategory.compaction_summary
          (text "session.context.compacted") ContextReason.compaction_summary (render c) false
          (some ContextLimit.compaction_summary_size),
    )
    ∷ []

unfoldable pub diff_candidates : Option Text → List Ranked
diff_candidates none = []
diff_candidates (some diff) =
    (
      1,
      0,
      candidate (text "current-git-diff") ContextCategory.git_diff (text "workspace task changes")
          ContextReason.git_state diff false (some ContextLimit.git_diff_size),
    )
    ∷ []

-- The instructions by precedence, numbered from an index.
unfoldable pub instruction_candidates : ℕ → List InstructionFile → List Ranked
instruction_candidates n [] = []
instruction_candidates n (i ∷ is) =
    (
      1,
      n,
      candidate (text "instruction-" ++ decimal i.precedence) ContextCategory.instruction i.path
          (ContextReason.project_instruction i.precedence) i.content false none,
    )
    ∷ instruction_candidates (suc n) is

abbrev instruction_le : InstructionFile → InstructionFile → Bool
instruction_le a b = leb a.precedence b.precedence

unfoldable pub git_candidates : ℕ → Option GitStatus → List Ranked
git_candidates n none = []
git_candidates n (some g) =
    (
      1,
      n + 1,
      candidate (text "git-status") ContextCategory.git g.repository_root ContextReason.git_state
          (git_text g) false none,
    )
    ∷ []

is_some : Option Text → Bool
is_some none = false
is_some (some _) = true

is_filled : {A : Type 0} → List A → Bool
is_filled [] = false
is_filled (_ ∷ _) = true

unfoldable pub workspace_candidates : WorkspaceMetadata → List Ranked
unfolding is_some is_filled
workspace_candidates w =
    if is_some w.root || is_filled w.languages || is_filled w.manifests || is_filled w.details
    then (
      3,
      0,
      candidate (text "workspace-metadata") ContextCategory.workspace (text "workspace")
          ContextReason.workspace_metadata (workspace_text w) false none,
    )
      ∷ []
    else []

-- The messages from an index on, of as many as there are in all.
unfoldable pub message_candidates : ℕ → ℕ → List ConversationMessage → List Ranked
message_candidates total n [] = []
message_candidates total n (m ∷ ms) =
    (
      3,
      total - n,
      candidate (text "conversation-" ++ decimal n) ContextCategory.conversation (role_name m)
          ContextReason.recent_conversation m.text false none,
    )
    ∷ message_candidates total (suc n) ms

unfoldable pub conversation_candidates : List ConversationMessage → List Ranked
conversation_candidates messages =
    let start = length messages - 8 in
    message_candidates (length messages) start (drop start messages)

unfoldable pub file_candidates : ℕ → List ExplicitFile → List Ranked
file_candidates n [] = []
file_candidates n (f ∷ fs) =
    (
      2,
      n,
      candidate (text "file-" ++ f.path) ContextCategory.file f.path
          ContextReason.explicitly_selected_file f.content false (some ContextLimit.file_size),
    )
    ∷ file_candidates (suc n) fs

-- The results that the model has not seen, with their index among all.
unfoldable pub visible_results : ℕ → List ToolContextResult → List (ℕ × ToolContextResult)
visible_results n [] = []
visible_results n (r ∷ rs) =
    let rest = visible_results (suc n) rs in
    if not r.already_in_model_history then (n, r) ∷ rest else rest

unfoldable pub tool_content : ContextBudget → ToolContextResult → Text
tool_content b r =
    if r.is_shell
    then summarize_shell_output r.result.output b.max_shell_output_bytes
    else r.result.output

unfoldable pub ranked_results : ContextBudget → ℕ → ℕ → List (ℕ × ToolContextResult) → List Ranked
ranked_results b total n [] = []
ranked_results b total n ((index, r) ∷ rs) =
    (
      tool_priority r,
      total - n,
      candidate (text "tool-" ++ (decimal index ++ (text "-" ++ r.name)))
          ContextCategory.tool_result r.name ContextReason.relevant_tool_result (tool_content b r)
          (is_failure r)
          (some
            (if r.is_shell then ContextLimit.shell_output_size else ContextLimit.tool_result_size)),
    )
    ∷ ranked_results b total (suc n) rs

unfoldable pub tool_candidates : ContextBudget → List ToolContextResult → List Ranked
tool_candidates b results =
    let visible = visible_results 0 results in
    let start = length visible - 24 in
    reverse (ranked_results b (length visible) start (drop start visible))

unfoldable pub candidates : ContextBudget → ContextInput → List Ranked
candidates b input =
    let instructions = sort_by instruction_le input.instructions in
    fixed_candidates input
    ++ (compacted_candidates input.compacted_state
        ++ (diff_candidates input.git_diff
            ++ (instruction_candidates 0 instructions
                ++ (git_candidates (length instructions) input.git_status
                    ++ (workspace_candidates input.workspace
                        ++ (conversation_candidates input.conversation
                            ++ (file_candidates 0 input.files
                                ++ tool_candidates b input.tool_results)))))))

pub record ContextAssembly : Type 0 where
  pub prompt : Text
  pub items : List ContextItem
  pub estimated_tokens : ℕ
  pub budget : ContextBudget
  pub excluded : ℕ

unfoldable pub assemble : ContextBudget → ContextInput → ContextAssembly
assemble b input =
    let (items, used) = choose_items b (candidates b input) in
    record {
      prompt = render_prompt items;
      items = items;
      estimated_tokens = used;
      budget = b;
      excluded = excluded_items items;
    }

-- `build_for_context_window_reserving`
unfoldable pub build :
    ContextBudgetManager → ContextInput → Option ℕ → ℕ → Result Error ContextAssembly
build manager input window reserved = do
  budget ← reserved_budget manager window reserved
  ok (assemble budget input)
