-- ===== src/Session/Records.antt =====
-- The JSON lines of a session file, of crates/harness-session/src/lib.rs. `serde_json` is the
-- parameter `json`. A file is its text: a write that fails leaves some of the characters behind.
pub mod Laws
pub mod Reading
pub mod Interrupted
use cogito_ai.Prelude.{
  ℕ, suc, ◌+◌, Bool, true, false, not, Option, none, some, List, [], ◌∷◌, ◌++◌, ◌==◌, if◌then◌else◌,
  filter, take,
}
use cogito_ai.Prelude.Text.{Text, text, trim, lines, decimal}
use cogito_ai.Prelude.Results.{Result, ok, err, ◌>>=◌}
use cogito_ai.Core.Errors.{Error, session, io}
use cogito_ai.Session.Events.{HarnessEvent}
use cogito_ai.Session.Compact.{is_empty}

pub record Json : Type 0 where
  pub to_string : HarnessEvent → Result Text Text
  pub from_str : Text → Result Text HarnessEvent

-- `none` where the write and the flush succeed; else the characters that reach the file, and the
-- message of the I/O error.
abbrev pub Fault : Type 0
Fault = Option (ℕ × Text)

pub record SessionWarning : Type 0 where
  pub line : ℕ
  pub reason : Text

-- The lines with their numbers from 0.
unfoldable pub enumerate : ℕ → List Text → List (ℕ × Text)
enumerate n [] = []
enumerate n (l ∷ ls) = (n, l) ∷ enumerate (suc n) ls

unfoldable pub is_record : ℕ × Text → Bool
unfolding is_empty
is_record (_, line) = not (is_empty (trim line))

unfoldable pub numbered_records : Text → List (ℕ × Text)
unfolding is_record
numbered_records contents = filter is_record (enumerate 0 (lines contents))

-- `lines.last().map(…).unwrap_or(0)`
unfoldable pub last_number : List (ℕ × Text) → ℕ
last_number [] = 0
last_number ((n, _) ∷ []) = n
last_number (_ ∷ l ∷ ls) = last_number (l ∷ ls)

unfoldable pub trailing : ℕ → Text → SessionWarning
trailing n message = record {
  line = n + 1;
  reason = text "ignored incomplete trailing record: " ++ message;
}

invalid_record : Text → ℕ → Text → Error
invalid_record path n message =
    session
      (path ++ (text ":" ++ (decimal (n + 1) ++ (text ": invalid JSONL record: " ++ message))))

module _ (json : Json) where
  -- What the file holds afterwards, and the result.
  unfoldable pub write_event : Fault → HarnessEvent → Text → Text × Result Error (Unit {0})
  write_event fault event contents = elim (json.to_string event) [
    | err message ↦ (contents, err (session (text "could not serialize event: " ++ message)))
    | ok serialized ↦ elim fault [
      | none ↦ (contents ++ (serialized ++ b'\n' ∷ []), ok tt)
      | some (n, message) ↦ (contents ++ take n (serialized ++ b'\n' ∷ []), err (io message))
    ]
  ]

  -- The loop of `read_events`.
  unfoldable pub read_from :
      Text → ℕ → List (ℕ × Text) → Result Error (List HarnessEvent × List SessionWarning)
  unfolding trailing invalid_record
  read_from path last [] = ok ([], [])
  read_from path last ((n, line) ∷ ls) =
      let rest = read_from path last ls in
      elim (json.from_str line) [
        | ok event ↦ rest >>= λ (events, warnings). ok (event ∷ events, warnings)
        | err message ↦
            if n == last
            then (rest >>= λ (events, warnings). ok (events, trailing n message ∷ warnings))
            else err (invalid_record path n message)
      ]

  unfoldable pub read_events : Text → Text → Result Error (List HarnessEvent × List SessionWarning)
  read_events path contents =
      let records = numbered_records contents in read_from path (last_number records) records
