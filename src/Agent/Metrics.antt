-- ===== src/Agent/Metrics.antt =====
-- What a run measures of its context, and the results of tools that it shows to a model, of
-- crates/harness-agent/src/lib.rs.
pub mod Laws
use cogito_ai.Prelude.{
  ℕ, ◌+◌, ◌-◌, ◌^◌, min, Bool, true, false, not, ◌&&◌, ◌||◌, Option, none, some, List, [], ◌∷◌,
  ◌++◌, filter, find, length, leb, ltb, ◌==◌, if◌then◌else◌,
}
use cogito_ai.Prelude.Text.{Text, text, text_eq, len, slice_to, ends_with}
use cogito_ai.Session.Tasks.{ContextMetrics}
use cogito_ai.Context.Budget.{saturating_add_u32}
use cogito_ai.Context.Truncate.{floor_boundary, summarize_shell_output, marker}
use cogito_ai.Context.Items.{ContextItem}
use cogito_ai.Context.Input.{ToolResult}

unfoldable pub saturating_add_u64 : ℕ → ℕ → ℕ
saturating_add_u64 a b = min (a + b) (2 ^ 64 - 1)

-- The two lists after the oldest turn is removed by `Vec::remove(0)`; none if that panics, on an empty
-- list.
unfoldable pub removed_turn : List ℕ → List (Option ℕ) → Option (List ℕ × List (Option ℕ))
removed_turn [] reported = none
removed_turn (_ ∷ estimated) [] = none
removed_turn (_ ∷ estimated) (_ ∷ reported) = some (estimated, reported)

abbrev push_turn : ContextMetrics → ℕ → ℕ → List ℕ → List (Option ℕ) → ContextMetrics
push_turn metrics estimated_tokens reused_tokens estimated reported = record metrics {
  estimated_tokens_per_turn = estimated ++ estimated_tokens ∷ [];
  reported_input_tokens_per_turn = reported ++ none ∷ [];
  estimated_tokens_sent = saturating_add_u64 metrics.estimated_tokens_sent estimated_tokens;
  reused_context_tokens = saturating_add_u64 metrics.reused_context_tokens reused_tokens;
}

abbrev push_removed :
    ContextMetrics → ℕ → ℕ → Option (List ℕ × List (Option ℕ)) → Option ContextMetrics
push_removed metrics estimated_tokens reused_tokens none = none
push_removed metrics estimated_tokens reused_tokens (some (estimated, reported)) =
    some (push_turn metrics estimated_tokens reused_tokens estimated reported)

unfoldable pub record_context_request : ContextMetrics → ℕ → ℕ → Option ContextMetrics
record_context_request metrics estimated_tokens reused_tokens =
    let estimated = metrics.estimated_tokens_per_turn in
    let reported = metrics.reported_input_tokens_per_turn in
    if leb 512 (length estimated)
    then push_removed metrics estimated_tokens reused_tokens (removed_turn estimated reported)
    else some (push_turn metrics estimated_tokens reused_tokens estimated reported)

unfoldable pub set_last : List (Option ℕ) → Option ℕ → List (Option ℕ)
set_last [] value = []
set_last (_ ∷ []) value = value ∷ []
set_last (x ∷ y ∷ rest) value = x ∷ set_last (y ∷ rest) value

unfoldable pub record_context_response : ContextMetrics → Option ℕ → ContextMetrics
record_context_response metrics reported_input_tokens = record metrics {
  reported_input_tokens_per_turn =
      set_last metrics.reported_input_tokens_per_turn reported_input_tokens;
}

-- The tokens of the items that were there before with the same content.
reused_of : Option ContextItem → ContextItem → ℕ
reused_of none item = 0
reused_of (some old) item = min old.estimated_tokens item.estimated_tokens

unfoldable pub reused_tokens : List ContextItem → ContextItem → ℕ
unfolding reused_of
reused_tokens previous item =
    reused_of
      (find
        (λ (old : ContextItem).
          old.included && (text_eq old.id item.id && text_eq old.content item.content))
        previous)
      item

unfoldable pub reuse_from : List ContextItem → ℕ → List ContextItem → ℕ
unfolding reused_tokens
reuse_from previous total [] = total
reuse_from previous total (item ∷ rest) =
    let more = reuse_from previous (saturating_add_u32 total (reused_tokens previous item)) rest in
    let same = reuse_from previous total rest in if item.included then more else same

unfoldable pub context_reuse_tokens : List ContextItem → List ContextItem → ℕ
context_reuse_tokens previous current = reuse_from previous 0 current

-- `tool_error_result`
unfoldable pub tool_error_result : Text → Text → ToolResult
tool_error_result tool message = record {
  output = text "Tool " ++ (tool ++ (text " failed: " ++ message));
  metadata = [];
  changed_files = [];
  truncated = false;
  is_error = true;
}

-- `MAX_MODEL_TOOL_RESULT_BYTES`
abbrev pub max_result_bytes : ℕ
max_result_bytes = 16384

with_marker : Text → Text
with_marker bounded = if ends_with bounded marker then bounded else bounded ++ marker

unfoldable pub bound_tool_result_output : Text → Bool → Bool → Text × Bool
unfolding with_marker
bound_tool_result_output output already_truncated true =
    let bounded = summarize_shell_output output max_result_bytes in
    (bounded, already_truncated || not (text_eq bounded output))
bound_tool_result_output output already_truncated false =
    if not (already_truncated || ltb max_result_bytes (len output)) then (output, false) else (
      with_marker (
          slice_to output
            (floor_boundary output (min (len output) (max_result_bytes - len marker)))),
      true,
    )
