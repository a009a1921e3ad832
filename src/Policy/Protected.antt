-- ===== src/Policy/Protected.antt =====
-- `is_high_risk_path` and `is_protected_path` of crates/harness-policy/src/lib.rs.
use cogito_ai.Prelude.{
  String, Bool, false, ◌||◌, Option, none, some, List, [], ◌∷◌, ◌==◌, if◌then◌else◌, any,
}
use cogito_ai.Prelude.Text.{
  Text, text, contains_any, is_one_of, ends_with, starts_with, to_ascii_lowercase, replace_char,
}
use cogito_ai.Policy.Paths.{normal, PathBuf, path_text, normalize_path}

-- `Path::file_name`, with the empty name where the path ends in no name.
unfoldable pub file_name : PathBuf → Text
file_name [] = []
file_name (normal s ∷ []) = s
file_name (_ ∷ []) = []
file_name (_ ∷ c ∷ path) = file_name (c ∷ path)

-- The text behind the last dot, if there is one.
after_last_dot : Text → Option Text
after_last_dot [] = none
after_last_dot (c ∷ s) = elim (after_last_dot s) [
  | some t ↦ some t
  | none ↦ if c == b'.' then some s else none
]

-- `Path::extension`: a dot in front of the whole name starts no extension.
unfoldable pub extension : Text → Option Text
unfolding after_last_dot
extension [] = none
extension (_ ∷ s) = after_last_dot s

abbrev protected_parts : List String
protected_parts =
    "/.ssh/" ∷ "/.aws/" ∷ "/.azure/" ∷ "/.gnupg/" ∷ "/.kube/" ∷ "/.docker/" ∷ "/.config/opencode/"
    ∷ "/.local/share/opencode/" ∷ "/.config/gh/hosts.yml" ∷ "/.config/gcloud/" ∷ "/credentials/"
    ∷ []

abbrev protected_ends : List String
protected_ends =
    "/.ssh" ∷ "/.aws" ∷ "/.azure" ∷ "/.gnupg" ∷ "/.kube" ∷ "/.docker" ∷ "/.config/opencode" ∷ []

abbrev protected_names : List String
protected_names =
    "id_rsa" ∷ "id_ed25519" ∷ "id_ecdsa" ∷ ".netrc" ∷ ".npmrc" ∷ ".pypirc" ∷ ".git-credentials"
    ∷ ".envrc" ∷ ".profile" ∷ ".bashrc" ∷ ".bash_profile" ∷ ".zshrc" ∷ ".zprofile" ∷ "config.fish"
    ∷ "profile.ps1" ∷ "microsoft.powershell_profile.ps1" ∷ "authorized_keys" ∷ []

abbrev protected_extensions : List String
protected_extensions = "pem" ∷ "key" ∷ "p12" ∷ "pfx" ∷ []

has_protected_extension : Option Text → Bool
unfolding is_one_of to_ascii_lowercase
has_protected_extension none = false
has_protected_extension (some e) = is_one_of (to_ascii_lowercase e) protected_extensions

-- The path is one that `normalize_path` returned.
unfoldable pub is_high_risk_path : PathBuf → Bool
unfolding path_text file_name extension has_protected_extension contains_any is_one_of ends_with
    starts_with to_ascii_lowercase replace_char text any
is_high_risk_path path =
    let normalized = to_ascii_lowercase (replace_char b'\\' b'/' (path_text path)) in
    let name = to_ascii_lowercase (file_name path) in
    contains_any normalized protected_parts
    || any (λ e. ends_with normalized (text e)) protected_ends
    || is_one_of name (".env" ∷ [])
    || starts_with name (text ".env.")
    || is_one_of name protected_names
    || has_protected_extension (extension (file_name path))

unfoldable pub is_protected_path : PathBuf → Bool
unfolding is_high_risk_path normalize_path
is_protected_path path = is_high_risk_path (normalize_path path)
