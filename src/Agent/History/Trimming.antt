-- ===== src/Agent/History/Trimming.antt =====
-- A trimmed history has the messages, calls and names of the whole, and the results of tools are cut.
use cogito_ai.Prelude.{ℕ, ◌≤◌, ◌<◌, ◌≡◌, ◌⊎◌, Bool, true, Option, List, [], map, All, if◌then◌else◌}
use cogito_ai.Prelude.Text.{Text, len}
use cogito_ai.Agent.History.{
  Role, ContentBlock, text_block, image, reasoning, ToolCall, Message, previously_executed,
  drop_arguments, is_tool, result_bytes, estimate_model_history_tokens,
}

-- What the provider pairs calls and results by: the role, the names and identifiers.
abbrev pub Shape : Type 0
Shape = Role × Option Text × Option Text × Bool × List (Text × Text)

abbrev pub shape : Message → Shape
shape m = (
  m.role,
  m.name,
  m.tool_call_id,
  m.is_error,
  map (λ (c : ToolCall). (c.id, c.name)) m.tool_calls,
)

-- A block of text has at most the given number of bytes.
abbrev pub BlockFits : ℕ → ContentBlock → Type 0
BlockFits bytes (text_block content) = len content ≤ bytes
BlockFits bytes (reasoning content) = Unit
BlockFits bytes (image media_type payload) = Unit

-- All texts of a tool's message do.
abbrev pub ResultFits : ℕ → Message → Type 0
ResultFits bytes m = is_tool m ≡ true → All (BlockFits bytes) m.content

-- The arguments of all calls of a message are replaced.
abbrev pub IsReplaced : Message → Type 0
IsReplaced m = All (λ (c : ToolCall). c.arguments ≡ previously_executed) m.tool_calls

-- A message without the arguments of its calls, and without the texts of a tool's results as well.
abbrev pub without_arguments : Message → Message
without_arguments m = record m {
  tool_calls = map (λ (c : ToolCall). record c { arguments = [] }) m.tool_calls;
}

abbrev pub without_text : ContentBlock → ContentBlock
without_text (text_block content) = text_block []
without_text (reasoning content) = reasoning content
without_text (image media_type payload) = image media_type payload

abbrev pub without_results : Message → Message
without_results m = record (without_arguments m) {
  content = if is_tool m then map without_text m.content else m.content;
}

-- The three ends of the trimming: the history fits and is not changed; it does not fit, and fits after
-- nothing but the arguments of the calls was replaced; or it does not fit then either, and besides every
-- text of a tool's message is cut to that tool's share, and nothing else.
abbrev pub Trimmed : List Message → ℕ → List Message → Type 0
Trimmed ms budget trimmed =
    (estimate_model_history_tokens ms ≤ budget × (trimmed ≡ ms))
    ⊎ ((budget < estimate_model_history_tokens ms)
        × (estimate_model_history_tokens trimmed ≤ budget)
        × All IsReplaced trimmed
        × (map without_arguments trimmed ≡ map without_arguments ms))
    ⊎ ((budget < estimate_model_history_tokens ms)
        × (budget < estimate_model_history_tokens (map drop_arguments ms))
        × All IsReplaced trimmed
        × (map without_results trimmed ≡ map without_results ms)
        × All (ResultFits (result_bytes (map drop_arguments ms) budget)) trimmed)

pub record IsTrimmed (ms : List Message) (budget : ℕ) (trimmed : List Message) : Type 0 where
  pub paired : map shape trimmed ≡ map shape ms
  pub shorter : Trimmed ms budget trimmed
