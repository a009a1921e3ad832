-- ===== src/Policy/Commands.antt =====
-- The classification of command lines of crates/harness-policy/src/lib.rs:
-- `classify_command_risks`, `command_has_outside_absolute_path` and `is_safe_command`.
use cogito_ai.Prelude.{
  ℕ, String, Bool, not, ◌||◌, ◌&&◌, none, some, List, [], ◌∷◌, ◌++◌, ◌==◌, if◌then◌else◌, any,
  filter,
}
use cogito_ai.Prelude.Text.{
  Text, text, text_eq, contains_any, is_one_of, starts_with, to_ascii_lowercase, is_whitespace,
  trim, trim_start, trim_matches, split, after_first,
}
use cogito_ai.Policy.Paths.{PathBuf, normalize_path, parse_path, is_absolute, path_starts_with}
use cogito_ai.Policy.Types.{
  RiskCategory, process, package_install, git_mutation, destructive, outside_workspace,
  secret_access,
}

abbrev outside_words : List String
outside_words =
    "../" ∷ "..\\" ∷ "~/" ∷ "$home" ∷ "$userprofile" ∷ "$env:userprofile" ∷ "$env:appdata"
    ∷ "%userprofile%" ∷ "%appdata%" ∷ "/etc/" ∷ []

abbrev secret_words : List String
secret_words =
    ".env" ∷ ".ssh" ∷ ".aws" ∷ ".npmrc" ∷ ".netrc" ∷ ".pypirc" ∷ "id_rsa" ∷ "id_ed25519"
    ∷ "credentials" ∷ "printenv" ∷ "export " ∷ "$env:" ∷ "%openai_api_key%" ∷ "get-childitem env:"
    ∷ "get-item env:" ∷ "dir env:" ∷ "get-credential" ∷ "credential-manager" ∷ ".bashrc" ∷ ".zshrc"
    ∷ "profile.ps1" ∷ []

abbrev install_words : List String
install_words =
    "npm install" ∷ "npm i " ∷ "npm ci" ∷ "pnpm install" ∷ "pnpm add " ∷ "yarn install"
    ∷ "yarn add " ∷ "bun install" ∷ "bun add " ∷ "cargo add " ∷ "cargo install " ∷ "pip install"
    ∷ "pip3 install" ∷ "python -m pip install" ∷ "python3 -m pip install" ∷ "pipx install"
    ∷ "uv add " ∷ "uv tool install " ∷ "uv pip install" ∷ "poetry add " ∷ "poetry install"
    ∷ "bundle install" ∷ "go get " ∷ "dotnet add package" ∷ "gem install " ∷ "composer install"
    ∷ "composer require " ∷ "brew install " ∷ "apt install " ∷ "apt-get install "
    ∷ "winget install " ∷ "choco install " ∷ []

abbrev network_words : List String
network_words =
    "curl " ∷ "wget " ∷ "invoke-webrequest" ∷ "invoke-restmethod" ∷ "irm " ∷ "fetch(" ∷ "http://"
    ∷ "https://" ∷ "ftp " ∷ []

abbrev git_words : List String
git_words =
    "git add " ∷ "git commit" ∷ "git checkout" ∷ "git switch" ∷ "git branch " ∷ "git reset"
    ∷ "git clean" ∷ "git stash" ∷ "git merge" ∷ "git push" ∷ "git pull" ∷ "git fetch" ∷ "git rebase"
    ∷ "git cherry-pick" ∷ "git tag " ∷ "git clone " ∷ []

abbrev git_network_words : List String
git_network_words = "git push" ∷ "git pull" ∷ "git fetch" ∷ "git clone" ∷ []

abbrev destructive_words : List String
destructive_words =
    "rm " ∷ "rmdir " ∷ "del " ∷ "erase " ∷ "remove-item " ∷ "unlink " ∷ "shred " ∷ "format "
    ∷ "diskpart" ∷ "truncate -s 0" ∷ "git clean -f" ∷ "cargo clean" ∷ []

abbrev process_words : List String
process_words =
    "bash -c " ∷ "bash -lc " ∷ "sh -c " ∷ "sh -lc " ∷ "cmd /c " ∷ "cmd /k " ∷ "cmd.exe /c "
    ∷ "cmd.exe /k " ∷ "powershell -command" ∷ "powershell -c " ∷ "powershell.exe -command"
    ∷ "powershell.exe -c " ∷ "pwsh -command" ∷ "pwsh -c " ∷ "python -c " ∷ "python3 -c "
    ∷ "node -e " ∷ "eval " ∷ "xargs " ∷ "sudo " ∷ []

abbrev safe_prefixes : List String
safe_prefixes =
    "git status" ∷ "git diff" ∷ "git log" ∷ "git show" ∷ "cargo check" ∷ "cargo test"
    ∷ "cargo clippy" ∷ "cargo fmt" ∷ "npm test" ∷ "npm run build" ∷ "npm run lint"
    ∷ "npm run typecheck" ∷ "pnpm test" ∷ "pnpm run build" ∷ "pnpm run lint" ∷ "pnpm run typecheck"
    ∷ "yarn test" ∷ "yarn build" ∷ []

-- The characters at which `command_has_outside_absolute_path` cuts a command.
is_separator : ℕ → Bool
unfolding is_whitespace
is_separator c =
    is_whitespace c
    || c == b'"'
    || c == b'\''
    || c == b';'
    || c == b'|'
    || c == b'&'
    || c == b'('
    || c == b')'
    || c == b'<'
    || c == b'>'
    || c == b','

is_bracket : ℕ → Bool
is_bracket c = c == b'[' || c == b']' || c == b'{' || c == b'}'

-- What stands behind the first `=` of a token, or the whole token.
token_value : Text → Text
unfolding after_first
token_value token = elim (after_first b'=' token) [ some value ↦ value | none ↦ token ]

is_outside_token : PathBuf → Text → Bool
unfolding is_bracket token_value trim_matches parse_path is_absolute path_starts_with normalize_path
is_outside_token workspace token =
    let path = parse_path (trim_matches is_bracket (token_value token)) in
    is_absolute path && not (path_starts_with (normalize_path path) workspace)

unfoldable pub command_has_outside_absolute_path : Text → PathBuf → Bool
unfolding is_separator is_outside_token normalize_path split filter any text_eq
command_has_outside_absolute_path command workspace_root =
    any (is_outside_token (normalize_path workspace_root))
      (filter (λ token. not (text_eq token [])) (split is_separator command))

-- The conditions of `classify_command_risks`, on the command in lower case.
unfoldable pub addresses_outside : Text → PathBuf → Bool
unfolding contains_any command_has_outside_absolute_path
addresses_outside command workspace_root =
    contains_any command outside_words || command_has_outside_absolute_path command workspace_root

unfoldable pub touches_secrets : Text → Bool
unfolding contains_any is_one_of trim trim_start starts_with text
touches_secrets command =
    contains_any command secret_words
    || is_one_of (trim command) ("env" ∷ "set" ∷ [])
    || starts_with (trim_start command) (text "env ")
    || starts_with (trim_start command) (text "set ")

unfoldable pub installs_packages : Text → Bool
unfolding contains_any
installs_packages command = contains_any command install_words

unfoldable pub uses_network : Text → Bool
unfolding contains_any
uses_network command = contains_any command network_words

unfoldable pub mutates_git : Text → Bool
unfolding contains_any
mutates_git command = contains_any command git_words

unfoldable pub talks_to_remote : Text → Bool
unfolding contains_any
talks_to_remote command = contains_any command git_network_words

unfoldable pub is_destructive : Text → Bool
unfolding contains_any
is_destructive command = contains_any command destructive_words

unfoldable pub starts_interpreter : Text → Bool
unfolding contains_any
starts_interpreter command = contains_any command process_words

-- `risks.push` under a condition.
abbrev pub push_if : Bool → RiskCategory → List RiskCategory → List RiskCategory
push_if test risk risks = if test then risks ++ risk ∷ [] else risks

unfoldable pub classify_lowered : Text → PathBuf → List RiskCategory → List RiskCategory
classify_lowered command workspace_root risks =
    let outside = push_if (addresses_outside command workspace_root) outside_workspace risks in
    let secret = push_if (touches_secrets command) secret_access outside in
    let install = push_if (installs_packages command) package_install secret in
    let net = push_if (uses_network command) RiskCategory.network install in
    let git = push_if (mutates_git command) git_mutation net in
    let remote =
      push_if (mutates_git command && talks_to_remote command) RiskCategory.network git in
    let gone = push_if (is_destructive command) destructive remote in
    push_if (starts_interpreter command) process gone

unfoldable pub classify_command_risks : Text → PathBuf → List RiskCategory → List RiskCategory
classify_command_risks command workspace_root risks =
    classify_lowered (to_ascii_lowercase command) workspace_root risks

unfoldable pub is_safe_command : Text → Bool
unfolding trim to_ascii_lowercase starts_with text any is_one_of
is_safe_command command =
    let lowered = to_ascii_lowercase (trim command) in
    any (λ p. starts_with lowered (text p)) safe_prefixes || is_one_of lowered ("ls" ∷ "pwd" ∷ [])
