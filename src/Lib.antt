-- ===== src/Lib.antt =====
-- CogitoAI, a coding-agent harness in Rust: a model of its permission policy, of its session
-- records with the state that is rebuilt from them, of the budget of its prompts, and of the agent's
-- plans, approvals, limits and history.
--
-- How the parts work together. The agent asks the policy engine (crates/harness-policy) about every
-- tool call before it runs: the engine classifies the risks of the request, applies the rules of the
-- configuration and the defaults of the mode, and answers allow, ask or deny. What happens in a
-- session is a history of events (crates/harness-session): the store appends each event as a line of
-- JSON to the session's file, hands it to the subscribers of the bus, and rebuilds a session and its
-- state from the file alone. For each request to a model the context builder
-- (crates/harness-context) chooses what fits into the budget of the prompt. The agent
-- (crates/harness-agent) reads the goal from the text of the task and a plan from the responses of
-- the model, keeps both in the task state that the session records, lets the user approve what the
-- policy asks about, once for each approval, and stops a run at its limits.
--
-- Which file models what:
--   Prelude          text as a list of Unicode scalar values with what the code uses of `str`, lists
--                    over the native numbers, stable sorting, 32-bit negation, results with `?`
--   Core/Errors, Ids crates/harness-core/src/error.rs and ids.rs
--   Policy/Types     the data of crates/harness-policy/src/lib.rs
--   Policy/Paths     `normalize_path` and what it uses of `Path` and `PathBuf`, on Unix
--   Policy/Protected `is_high_risk_path`; Policy/Commands `classify_command_risks`,
--                    `command_has_outside_absolute_path` and `is_safe_command`
--   Policy/Risks     `PolicyRequest::risk_categories`; Policy/Rules `rule_matches`
--   Policy/Engine    `from_toml`, `evaluate_request`, `default_evaluation`
--   Policy/Access    the trait `Policy`, `ensure_decision`, `authorize`, `authorize_request`
--   Session/Tasks, Compact, Events   crates/harness-session/src/events.rs
--   Session/Replay   `validate_event`, `validate_events`, `reconstruct_state` of
--                    crates/harness-session/src/lib.rs, whose `match` is `apply_payload`
--   Session/Records  `write_event` and `read_events`, with `serde_json` as the parameter `json`
--   Session/Store    `session_path`, `reconstruct_session`, `create`, `append_event`,
--                    `load_with_report`, `load`, `resume`
--   Session/Recent   `recent` and `session_title`
--   Session/Bus      crates/harness-session/src/bus.rs
--   Context/Budget   `ContextBudget`, `ContextBudgetManager`, `estimate_tokens` of
--                    crates/harness-context/src/lib.rs
--   Context/Truncate `truncate_bytes`, `summarize_shell_output`
--   Context/Input, Candidates   the input of `build_for_context_window_reserving`, the candidates
--                    made from it, and the assembly
--   Context/Items    `add_item`, the loop over the sorted candidates, `render_prompt`
--   Agent/Bounded    bounded texts and lists of crates/harness-agent/src/lib.rs
--   Agent/Start      the task state at the start of `run_task`
--   Agent/Goals, Lines   `extract_acceptance_criteria`, `extract_goal_objective`,
--                    `parse_goal_details`, and what they look for in a line
--   Agent/Steps      `extract_plan`, `extract_plan_revision`, `parse_implementation_plan`
--   Agent/Plans      `execution_plan_from_implementation`, `advance_execution_plan`,
--                    `record_plan_progress`, `finish_plan_state`
--   Agent/Revision   `revise_execution_plan`
--   Agent/Approval   `ApprovedPolicy` and the approvals that `execute_tool` adds
--   Agent/Cost       `decimal_microusd`, `estimate_cost_microusd`, `usage_tokens`
--   Agent/Limits     `AgentLimits`, `check_limits`, and how a run ends
--   Agent/Directives `parse_completion_directive`, `parse_unrelated_verification_directives`,
--                    `apply_unrelated_verification_dispositions`
--   Agent/History    the messages of crates/harness-models/src/lib.rs, and
--                    `trim_model_history_to_budget` with what it calls
--   Agent/Reports, Verify   the reports of crates/harness-verification/src/lib.rs, and what
--                    `run_verification_if_needed` records of them
--   Agent/Turn, Finish   what `run_task` does with a response that calls no tools
--   Agent/Metrics    the metrics of a run's context, and `bound_tool_result_output`
-- The modules below these hold their proofs; Policy/Guarantees has those of the whole engine. The
-- modules named Examples run the definitions.
--
-- Choices. An identifier, a path of the store and a JSON value are their text, a time is its
-- milliseconds. The lock of the store makes each of its operations one step, and that of the bus each
-- of its own but a subscription, which fetches its identifier before it takes the lock: these are two
-- steps, and a thread waits between them. A run of several threads is a sequence of steps. The store is a value: its directory as a list
-- of files by path, and the events that the bus has published. A write takes a `Fault`: none, or the
-- number of characters that reach the file before the I/O error. What the system provides comes as
-- an argument: the clock, new identifiers, the canonical root, the order of a directory. `globset`,
-- `toml` and `serde_json` are parameters; what a theorem relies on of `serde_json` is said for the
-- events at hand by `IsSerialized`.
--
-- The agent. The arguments of a tool call are their JSON text, and the key of an approval is a
-- parameter, as `serde_json` makes it. A duration is in nanoseconds. The set of approvals is a list of
-- keys, and the map of unresolved errors a list of keys and errors, whose order stands for the
-- arbitrary one of a `HashMap`. What a run spends, whether it is cancelled, and whether the hooks at
-- its end fail are arguments, as is what a check of the final diff answers; the task state that is
-- recorded and the events are results. `{:?}` of a list of strings and the output of `git diff` are
-- parameters.
--
-- Bounds. Loops are structural recursion. The decimal of n is printed with the fuel n + 1, and each
-- round takes a digit. Arithmetic on `u32` saturates or wraps where the code's does; the theorems on
-- the choice of items are about budgets below 2^30 tokens, where no sum wraps. The subscription
-- counter of the bus wraps at 64 bits, and the negation of a priority at 32. Counters of type
-- `usize` are natural numbers: each counts elements of a list that is in memory.
--
-- Not modelled: failures to read a file or to list a directory; a write that stops between the bytes
-- of one character; the loading of a policy from a file; of the agent the calls of tools in a turn and
-- the loop over its turns, its hooks, its child agents, the compaction of its context and the
-- instructions that it renders; the other crates (tools, providers, Git, MCP, RPC, terminal,
-- verification), which mostly run processes or exchange messages; the desktop application.
pub mod Prelude
pub mod Core
pub mod Policy
pub mod Session
pub mod Context
pub mod Agent
