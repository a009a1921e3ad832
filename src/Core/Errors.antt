-- ===== src/Core/Errors.antt =====
-- The error type of crates/harness-core/src/error.rs. An I/O error is its message.
use cogito_ai.Prelude.Text.{Text}

pub data Error : Type 0 where
  invalid_config : (reason : Text) → Error
  invalid_id : (reason : Text) → Error
  invalid_request : (reason : Text) → Error
  not_found : (kind : Text) → (id : Text) → Error
  permission_denied : (capability : Text) → Error
  permission_required : (capability : Text) → (reason : Text) → Error
  provider : (name : Text) → (message : Text) → Error
  tool : (name : Text) → (message : Text) → Error
  verification : (message : Text) → Error
  invalid_event : (reason : Text) → Error
  session : (reason : Text) → Error
  logging : (message : Text) → Error
  io : (message : Text) → Error
