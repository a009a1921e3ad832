-- ===== src/Agent/Reports.antt =====
-- The reports of a verification, of crates/harness-verification/src/lib.rs, and the texts that the
-- agent makes of them in crates/harness-agent/src/lib.rs.
use cogito_ai.Prelude.{
  ℕ, suc, ◌+◌, ◌^◌, ◌-◌, min, Bool, true, false, not, Option, none, some, List, [], ◌∷◌, ◌++◌, map,
  filter, any, ℤ, pos, negsuc, if◌then◌else◌,
}
use cogito_ai.Prelude.Text.{
  Text, text, text_eq, starts_with, contains, split, is_whitespace, join, to_ascii_lowercase,
  decimal,
}
use cogito_ai.Session.Compact.{is_empty}
use cogito_ai.Session.Tasks.{TaskRun}
use cogito_ai.Session.Events.{EventPayload}
use cogito_ai.Context.Input.{ToolContextResult}

pub data VerificationCategory : Type 0 where
  formatter lint typecheck build targeted_test general_test git_diff : VerificationCategory

-- `{:?}`
unfoldable pub category_debug : VerificationCategory → Text
category_debug formatter = text "Formatter"
category_debug lint = text "Lint"
category_debug typecheck = text "Typecheck"
category_debug build = text "Build"
category_debug targeted_test = text "TargetedTest"
category_debug general_test = text "GeneralTest"
category_debug git_diff = text "GitDiff"

abbrev pub is_git_diff : VerificationCategory → Bool
is_git_diff git_diff = true
is_git_diff _ = false

unfoldable pub is_compiled : VerificationCategory → Bool
is_compiled typecheck = true
is_compiled build = true
is_compiled _ = false

pub data FailureOrigin : Type 0 where
  introduced unrelated unknown : FailureOrigin

-- What the agent reads of a failure, and a report.
pub record VerificationFailure : Type 0 where
  pub relevant_output : Text
  pub affected_files : List Text
  pub origin : FailureOrigin

pub record VerificationReport : Type 0 where
  pub category : VerificationCategory
  pub command : Text
  pub duration_ms : ℕ
  pub passed : Bool
  pub exit_code : Option ℤ
  pub output : Text
  pub diagnostics : List Text
  pub failure : Option VerificationFailure

-- `normalize_failure`
unfoldable pub normalize_failure : Text → Text
normalize_failure value =
    to_ascii_lowercase
      (join (text " ") (filter (λ word. not (is_empty word)) (split is_whitespace value)))

-- `HashMap::insert` and `or_insert`, on a list of keys and values.
unfoldable pub insert_error : Text → Text → List (Text × Text) → List (Text × Text)
insert_error key value [] = (key, value) ∷ []
insert_error key value ((k, v) ∷ errors) =
    let rest = insert_error key value errors in
    if text_eq k key then (key, value) ∷ errors else (k, v) ∷ rest

unfoldable pub or_insert_error : Text → Text → List (Text × Text) → List (Text × Text)
or_insert_error key value errors =
    if any (λ (e : Text × Text). text_eq e.0 key) errors
    then errors
    else errors ++ (key, value) ∷ []

unfoldable pub drop_error : Text → List (Text × Text) → List (Text × Text)
drop_error key errors = filter (λ (e : Text × Text). not (text_eq e.0 key)) errors

-- The count of a failure's signature after one more, and the counts.
next_count : ℕ → ℕ
next_count n = min (n + 1) (2 ^ 32 - 1)

unfoldable pub count_failure : Text → List (Text × ℕ) → ℕ × List (Text × ℕ)
unfolding next_count
count_failure signature [] = (1, (signature, 1) ∷ [])
count_failure signature ((s, n) ∷ counts) =
    let (m, rest) = count_failure signature counts in
    if text_eq s signature then (next_count n, (s, next_count n) ∷ counts) else (m, (s, n) ∷ rest)

-- What the verification works on: the task state, the errors, the counts of failures, what the model
-- will be told, and the events.
pub record Work : Type 0 where
  pub run : TaskRun
  pub errors : List (Text × Text)
  pub repeated : List (Text × ℕ)
  pub observations : List ToolContextResult
  pub events : List EventPayload

abbrev pub error_texts : List (Text × Text) → List Text
error_texts errors = map (λ (e : Text × Text). e.1) errors

-- `unresolved_errors = unresolved_error_keys.values().cloned().collect()`
abbrev pub with_errors : Work → Work
with_errors w = record w { run = record (w.run) { unresolved_errors = error_texts w.errors } }

origin_text : FailureOrigin → Text
origin_text introduced = text "introduced"
origin_text unrelated = text "unrelated"
origin_text unknown = text "unknown"

unfoldable pub relevant_of : Option VerificationFailure → Text
relevant_of none = []
relevant_of (some f) = f.relevant_output

unfoldable pub files_of : Option VerificationFailure → List Text
files_of none = []
files_of (some f) = f.affected_files

unfoldable pub origin_of : Option VerificationFailure → Option Text
unfolding origin_text
origin_of none = none
origin_of (some f) = some (origin_text f.origin)

unfoldable pub first_filled : Text → Option Text → Text → Text
first_filled relevant (some diff) output = if is_empty relevant then diff else relevant
first_filled relevant none output = if is_empty relevant then output else relevant

int_text : ℤ → Text
int_text (pos n) = decimal n
int_text (negsuc n) = text "-" ++ decimal (suc n)

unfoldable pub code_debug : Option ℤ → Text
unfolding int_text
code_debug none = text "None"
code_debug (some n) = text "Some(" ++ (int_text n ++ text ")")

unfoldable pub code_or_minus : Option ℤ → Text
unfolding int_text
code_or_minus none = text "-1"
code_or_minus (some n) = int_text n

unfoldable pub attribution : Option Text → Text
attribution none = []
attribution (some origin) = text " likely_origin=" ++ origin

unfoldable pub notice : Text → Text
notice output =
    if contains output (text "relevant verification output truncated")
    then text " relevant verification output truncated"
    else []

unfoldable pub observation : Text → ToolContextResult
observation output = record {
  name = text "verification";
  result = record {
    output = output;
    metadata = [];
    changed_files = [];
    truncated = false;
    is_error = false;
  };
  is_shell = false;
  already_in_model_history = false;
}

unfoldable pub failure_key : VerificationReport → Text
failure_key r = text "verification:" ++ (category_debug r.category ++ (text ":" ++ r.command))

unfoldable pub passed_errors : VerificationReport → List (Text × Text) → List (Text × Text)
passed_errors r errors =
    let left = drop_error (failure_key r) errors in
    if is_compiled r.category
    then filter
        (λ (e : Text × Text).
          not (starts_with e.0 (text "verification:language-server diagnostics ")))
        left
    else left
