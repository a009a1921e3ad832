-- ===== src/Context/Input.antt =====
-- The input of the context builder, and the texts made from it. Paths are their text, and a map is
-- the list of its entries in order.
use cogito_ai.Prelude.{
  ℕ, Bool, true, false, Option, none, some, List, [], ◌∷◌, ◌++◌, ◌||◌, ◌&&◌, if◌then◌else◌,
}
use cogito_ai.Prelude.Text.{Text, text, join, is_one_of, text_eq, contains}
use cogito_ai.Session.Compact.{CompactState}
use cogito_ai.Session.Replay.{user, assistant, ConversationMessage}

pub data InstructionKind : Type 0 where
  global_agents agents claude readme contributing agent_instructions : InstructionKind

pub record InstructionFile : Type 0 where
  pub path : Text
  pub kind : InstructionKind
  pub precedence : ℕ
  pub content : Text

pub record GitStatus : Type 0 where
  pub repository_root : Text
  pub branch : Option Text
  pub head : Option Text
  pub is_clean : Bool
  pub changed_files : List Text
  pub staged_files : List Text
  pub unstaged_files : List Text
  pub untracked_files : List Text

pub record ToolResult : Type 0 where
  pub output : Text
  pub metadata : List (Text × Text)
  pub changed_files : List Text
  pub truncated : Bool
  pub is_error : Bool

pub record WorkspaceMetadata : Type 0 where
  pub root : Option Text
  pub branch : Option Text
  pub monorepo : Bool
  pub languages : List Text
  pub manifests : List Text
  pub details : List (Text × Text)

pub record ExplicitFile : Type 0 where
  pub path : Text
  pub content : Text

pub record ToolContextResult : Type 0 where
  pub name : Text
  pub result : ToolResult
  pub is_shell : Bool
  pub already_in_model_history : Bool

pub record ContextInput : Type 0 where
  pub system_instructions : Text
  pub workspace : WorkspaceMetadata
  pub instructions : List InstructionFile
  pub user_request : Text
  pub conversation : List ConversationMessage
  pub files : List ExplicitFile
  pub tool_results : List ToolContextResult
  pub compacted_state : Option CompactState
  pub git_status : Option GitStatus
  pub git_diff : Option Text

unfoldable pub bool_text : Bool → Text
bool_text true = text "true"
bool_text false = text "false"

line_if : Text → Option Text → Text
line_if name none = []
line_if name (some value) = name ++ (text ": " ++ (value ++ text "\n"))

detail_lines : List (Text × Text) → Text
detail_lines [] = []
detail_lines ((key, value) ∷ details) =
    key ++ (text ": " ++ (value ++ (text "\n" ++ detail_lines details)))

unfoldable pub workspace_text : WorkspaceMetadata → Text
unfolding line_if detail_lines
workspace_text w =
    line_if (text "root") w.root
    ++ (line_if (text "branch") w.branch
        ++ (text "monorepo: "
            ++ (bool_text w.monorepo
                ++ (text "\nlanguages: "
                    ++ (join (text ", ") w.languages
                        ++ (text "\nmanifests: "
                            ++ (join (text ", ") w.manifests ++ detail_lines w.details)))))))

or_default : Option Text → Text → Text
or_default none default = default
or_default (some value) default = value

unfoldable pub git_text : GitStatus → Text
unfolding or_default
git_text g =
    text "branch: "
    ++ (or_default g.branch (text "<detached>")
        ++ (text "\nhead: "
            ++ (or_default g.head (text "<none>")
                ++ (text "\nclean: "
                    ++ (bool_text g.is_clean
                        ++ (text "\nchanged: "
                            ++ (join (text ", ") g.changed_files
                                ++ (text "\nstaged: "
                                    ++ (join (text ", ") g.staged_files
                                        ++ (text "\nunstaged: "
                                            ++ (join (text ", ") g.unstaged_files
                                                ++ (text "\nuntracked: "
                                                    ++ join (text ", ")
                                                        g.untracked_files))))))))))))

unfoldable pub role_name : ConversationMessage → Text
role_name m = elim m.role [ user ↦ text "user" | assistant ↦ text "assistant" ]

unfoldable pub is_repository_retrieval_source : Text → Bool
is_repository_retrieval_source name = is_one_of name (
    "search_files" ∷ "search_text" ∷ "find_symbol" ∷ "find_references" ∷ "goto_definition"
    ∷ "get_diagnostics" ∷ "get_file_outline" ∷ "get_repo_tree" ∷ [])

-- `is_failure` of a tool result, and its priority.
unfoldable pub is_failure : ToolContextResult → Bool
is_failure r =
    r.result.is_error
    || text_eq r.name (text "task_completion_check")
    || (text_eq r.name (text "verification") && contains r.result.output (text "passed=false"))

unfoldable pub tool_priority : ToolContextResult → ℕ
tool_priority r =
    if is_failure r
    then 1
    else if text_eq r.name (text "read_file")
    then 2
    else if r.is_shell
    then 5
    else if is_repository_retrieval_source r.name
    then 3
    else 4
