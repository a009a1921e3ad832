-- ===== src/Session/Recent.antt =====
-- `recent` and `session_title` of crates/harness-session/src/lib.rs. The stems of the `.jsonl` files
-- come in the order in which the system lists the directory.
pub mod Laws
use cogito_ai.Prelude.{
  ℕ, ◌+◌, Bool, true, false, not, ◌||◌, ◌&&◌, Option, none, some, List, [], ◌∷◌, ◌++◌, map, filter,
  take, drop, length, ltb, leb, ◌==◌, sort_by, if◌then◌else◌,
}
use cogito_ai.Prelude.Text.{Text, text, split, join, is_whitespace, trim_end_matches}
use cogito_ai.Prelude.Results.{Result, ok, err, ◌>>=◌}
use cogito_ai.Core.Errors.{Error}
use cogito_ai.Core.Ids.{new_id}
use cogito_ai.Session.Compact.{is_empty}
use cogito_ai.Session.Events.{EventPayload, HarnessEvent}
use cogito_ai.Session.Replay.{SessionStatus, SessionState, reconstruct_state}
use cogito_ai.Session.Records.{Json}
use cogito_ai.Session.Store.{Session, Store, load}

pub record SessionSummary : Type 0 where
  pub id : Text
  pub workspace_root : Text
  pub title : Option Text
  pub status : SessionStatus
  pub created_at : ℕ
  pub last_updated_at : ℕ
  pub event_count : ℕ
  pub context_compactions : ℕ

unfoldable pub user_text : EventPayload → Option Text
user_text (EventPayload.user_message content) = some content
user_text _ = none

-- `find_map`
unfoldable pub first_task : List HarnessEvent → Option Text
unfolding user_text
first_task [] = none
first_task (e ∷ es) =
    let rest = first_task es in
    elim (user_text e.payload) [ some content ↦ some content | none ↦ rest ]

-- `split_whitespace` drops the empty pieces.
unfoldable pub split_whitespace : Text → List Text
split_whitespace s = filter (λ piece. not (is_empty piece)) (split is_whitespace s)

-- A title of at most 64 characters, with an ellipsis if there was more.
unfoldable pub shorten : Text → Option Text
shorten normalized =
    if is_empty normalized
    then none
    else if is_empty (drop 64 normalized)
    then some (take 64 normalized)
    else some (trim_end_matches is_whitespace (take 64 normalized) ++ 0x2026 ∷ [])

unfoldable pub title_of : Option Text → Option Text
title_of none = none
title_of (some content) = shorten (join (text " ") (split_whitespace content))

unfoldable pub session_title : List HarnessEvent → Option Text
session_title events = title_of (first_task events)

unfoldable pub summary : Session → SessionState → SessionSummary
summary s state = record {
  id = s.id;
  workspace_root = s.workspace_root;
  title = session_title s.events;
  status = state.status;
  created_at = s.created_at;
  last_updated_at = s.last_updated_at;
  event_count = length s.events;
  context_compactions = state.context_compactions;
}

-- The latest first: by the last update, then by the creation.
abbrev pub summary_le : SessionSummary → SessionSummary → Bool
summary_le a b =
    ltb b.last_updated_at a.last_updated_at
    || (a.last_updated_at == b.last_updated_at && leb b.created_at a.created_at)

module _ (json : Json) where
  -- `Session::state` of a session that is loaded.
  unfoldable pub summarize : Store → Text → Result Error SessionSummary
  summarize store id = do
    s ← load json store id
    state ← reconstruct_state s.id s.events
    ok (summary s state)

  -- The loop over the directory; a stem that is no identifier is skipped.
  unfoldable pub summaries : Store → List Text → Result Error (List SessionSummary)
  summaries store [] = ok []
  summaries store (stem ∷ stems) =
      let rest = summaries store stems in
      elim (new_id stem) [
        | err _ ↦ rest
        | ok id ↦ summarize store id >>= λ x. rest >>= λ xs. ok (x ∷ xs)
      ]

  unfoldable pub recent : Store → ℕ → List Text → Result Error (List SessionSummary)
  recent store limit stems =
      if limit == 0
      then ok []
      else summaries store stems >>= λ xs. ok (take limit (sort_by summary_le xs))
