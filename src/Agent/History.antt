-- ===== src/Agent/History.antt =====
-- The messages that go to a model, of crates/harness-models/src/lib.rs, their size, and how a history
-- is trimmed to a budget, of crates/harness-agent/src/lib.rs. The arguments of a tool call are their
-- JSON text.
pub mod Laws
pub mod Trimming
use cogito_ai.Prelude.{
  ℕ, zero, suc, ◌+◌, ◌-◌, ◌*◌, ◌/◌, ◌%◌, ◌^◌, min, max, Bool, true, false, not, ◌&&◌, Option, none,
  some, List, [], ◌∷◌, ◌++◌, map, filter, length, leb, ltb, ◌==◌, if◌then◌else◌,
}
use cogito_ai.Prelude.Text.{Text, text, len, utf8_width, is_char_boundary, slice_to}
use cogito_ai.Context.Budget.{saturating_add_u32}
use cogito_ai.Context.Truncate.{floor_boundary}

pub data Role : Type 0 where
  system developer user assistant tool : Role

pub data ContentBlock : Type 0 where
  text_block : (content : Text) → ContentBlock
  image : (media_type : Text) → (bytes : Text) → ContentBlock
  reasoning : (content : Text) → ContentBlock

pub record ToolCall : Type 0 where
  pub id : Text
  pub name : Text
  pub arguments : Text

pub record Message : Type 0 where
  pub role : Role
  pub content : List ContentBlock
  pub name : Option Text
  pub tool_call_id : Option Text
  pub tool_calls : List ToolCall
  pub is_error : Bool

-- `Message::user_text`, `assistant_text`, `assistant_tool_calls` and `tool_result`.
abbrev message : Role → List ContentBlock → Message
message role content = record {
  role = role;
  content = content;
  name = none;
  tool_call_id = none;
  tool_calls = [];
  is_error = false;
}

unfoldable pub user_text : Text → Message
user_text value = message user (text_block value ∷ [])

unfoldable pub assistant_text : Text → Message
assistant_text value = message assistant (text_block value ∷ [])

unfoldable pub assistant_tool_calls : List ToolCall → Message
assistant_tool_calls calls = record (message assistant []) { tool_calls = calls }

unfoldable pub tool_result : Text → Text → Bool → Message
tool_result tool_call_id content is_error = record (message tool (text_block content ∷ [])) {
  tool_call_id = some tool_call_id;
  is_error = is_error;
}

-- `saturating_add` and `sum` of a `usize`, which wraps in a release build.
abbrev saturating_usize : ℕ → ℕ
saturating_usize n = min n (2 ^ 64 - 1)

unfoldable pub sum_usize : List ℕ → ℕ
sum_usize [] = 0
sum_usize (n ∷ ns) = (n + sum_usize ns) % 2 ^ 64

unfoldable pub block_bytes : ContentBlock → ℕ
block_bytes (text_block content) = len content
block_bytes (reasoning content) = len content
block_bytes (image media_type bytes) = saturating_usize (len bytes + len media_type)

unfoldable pub call_bytes : ToolCall → ℕ
call_bytes call =
    saturating_usize (saturating_usize (len call.id + len call.name) + len call.arguments)

unfoldable pub message_tokens : Message → ℕ
message_tokens m =
    let content_bytes = sum_usize (map block_bytes m.content) in
    let calls_bytes = sum_usize (map call_bytes m.tool_calls) in
    min (saturating_usize (saturating_usize (content_bytes + calls_bytes) + 3) / 4) (2 ^ 32 - 1)

-- The fold of the messages' tokens; saturating addition may start from the last message as well.
unfoldable pub fold_tokens : ℕ → List ℕ → ℕ
fold_tokens total [] = total
fold_tokens total (n ∷ ns) = fold_tokens (saturating_add_u32 total n) ns

unfoldable pub estimate_model_history_tokens : List Message → ℕ
estimate_model_history_tokens messages = fold_tokens 0 (map message_tokens messages)

-- `while !value.is_char_boundary(start) { start += 1 }`; the end of the text is a boundary, so as
-- many rounds as there are bytes behind the start are enough.
unfoldable pub ceil_from : Text → ℕ → ℕ → ℕ
ceil_from value zero start = start
ceil_from value (suc fuel) start =
    let next = ceil_from value fuel (start + 1) in
    if is_char_boundary value start then start else next

unfoldable pub ceil_boundary : Text → ℕ → ℕ
unfolding ceil_from
ceil_boundary value start = ceil_from value (len value - start) start

-- `&value[start..]` at a boundary.
unfoldable pub slice_from : Text → ℕ → Text
unfolding utf8_width
slice_from [] i = []
slice_from (c ∷ s) i = let rest = slice_from s (i - utf8_width c) in if i == 0 then c ∷ s else rest

unfoldable pub history_marker : Text
history_marker = text "\n[tool history trimmed]"

-- The head and the tail of the text around the marker.
unfoldable pub around_marker : Text → ℕ → Text
unfolding ceil_boundary
around_marker value max_bytes =
    let payload_bytes = max_bytes - len history_marker in
    let head_bytes = payload_bytes / 2 in
    let tail_bytes = payload_bytes - head_bytes in
    slice_to value (floor_boundary value (min head_bytes (len value)))
    ++ (history_marker ++ slice_from value (ceil_boundary value (len value - tail_bytes)))

unfoldable pub truncate_history_text : Text → ℕ → Text
unfolding around_marker
truncate_history_text value max_bytes =
    if leb (len value) max_bytes
    then value
    else if max_bytes == 0
    then []
    else let result = around_marker value max_bytes in
      if ltb max_bytes (len result)
      then slice_to result (floor_boundary result (min max_bytes (len result)))
      else result

-- The three stages of the trimming.
unfoldable pub previously_executed : Text
previously_executed = text "{\"previously_executed\":true}"

unfoldable pub drop_arguments : Message → Message
drop_arguments m = record m {
  tool_calls =
      map (λ (call : ToolCall). record call { arguments = previously_executed }) m.tool_calls;
}

abbrev pub is_tool : Message → Bool
is_tool m = elim m.role [ Role.tool ↦ true | _ ↦ false ]

-- The bytes that each tool message may keep.
unfoldable pub result_bytes : List Message → ℕ → ℕ
result_bytes messages max_tokens =
    let tool_messages = max (length (filter is_tool messages)) 1 in
    let others = fold_tokens 0 (
      map (λ m. estimate_model_history_tokens (m ∷ [])) (filter (λ m. not (is_tool m)) messages)) in
    let fixed_tokens = saturating_add_u32 others (min tool_messages (2 ^ 32 - 1)) in
    saturating_usize ((max_tokens - fixed_tokens) * 4) / tool_messages

unfoldable pub cut_block : ℕ → ContentBlock → ContentBlock
cut_block bytes (text_block content) = text_block (truncate_history_text content bytes)
cut_block bytes (reasoning content) = reasoning content
cut_block bytes (image media_type payload) = image media_type payload

unfoldable pub cut_results : ℕ → Message → Message
cut_results bytes m =
    if is_tool m then record m { content = map (cut_block bytes) m.content } else m

unfoldable pub trim_model_history_to_budget : List Message → ℕ → List Message
unfolding drop_arguments
trim_model_history_to_budget messages max_tokens =
    if leb (estimate_model_history_tokens messages) max_tokens
    then messages
    else let shorter = map drop_arguments messages in
      if leb (estimate_model_history_tokens shorter) max_tokens
      then shorter
      else map (cut_results (result_bytes shorter max_tokens)) shorter
