-- ===== src/Core/Ids.antt =====
-- Identifiers, of crates/harness-core/src/ids.rs: an identifier is a text that is not blank.
use cogito_ai.Prelude.{[], ◌∷◌}
use cogito_ai.Prelude.Text.{Text, text, trim}
use cogito_ai.Prelude.Results.{Result, ok, err}
use cogito_ai.Core.Errors.{Error, invalid_id}

-- `Id::new`
unfoldable pub new_id : Text → Result Error Text
new_id value = elim (trim value) [
  | [] ↦ err (invalid_id (text "identifier must not be empty"))
  | _ ∷ _ ↦ ok value
]
