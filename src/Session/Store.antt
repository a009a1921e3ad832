-- ===== src/Session/Store.antt =====
-- `JsonlSessionStore` of crates/harness-session/src/lib.rs over a directory of session files. The
-- append lock makes each operation one step. What the system gives (identifiers, the time, the
-- canonical path, an I/O fault) comes as arguments.
pub mod Laws
pub mod Append
pub mod Failures
use cogito_ai.Prelude.{
  ℕ, suc, ◌+◌, Bool, true, false, not, ◌||◌, Option, none, some, List, [], ◌∷◌, ◌++◌, ◌==◌,
  if◌then◌else◌, any, map, filter,
}
use cogito_ai.Prelude.Text.{Text, text, text_eq, ends_with}
use cogito_ai.Prelude.Results.{Result, ok, err, ◌>>=◌}
use cogito_ai.Core.Errors.{Error, session, io, not_found, invalid_event, invalid_id}
use cogito_ai.Core.Ids.{new_id}
use cogito_ai.Session.Events.{EventPayload, HarnessEvent, new_event}
use cogito_ai.Session.Compact.{is_empty}
use cogito_ai.Session.Replay.{validate_event, validate_events}
use cogito_ai.Session.Records.{Json, Fault, SessionWarning, write_event, read_events}

pub record Session : Type 0 where
  pub id : Text
  pub workspace_root : Text
  pub created_at : ℕ
  pub last_updated_at : ℕ
  pub events : List HarnessEvent

pub record SessionLoadReport : Type 0 where
  pub loaded : Session
  pub warnings : List SessionWarning

-- The files by path, and the events that the bus has published.
pub record Store : Type 0 where
  pub root : Text
  pub files : List (Text × Text)
  pub published : List HarnessEvent

unfoldable pub lookup : Text → List (Text × Text) → Option Text
lookup path [] = none
lookup path ((p, contents) ∷ files) = if text_eq p path then some contents else lookup path files

unfoldable pub insert : Text → Text → List (Text × Text) → List (Text × Text)
insert path contents [] = (path, contents) ∷ []
insert path contents ((p, old) ∷ files) =
    let rest = insert path contents files in
    if text_eq p path then (path, contents) ∷ files else (p, old) ∷ rest

unfoldable pub is_separator : ℕ → Bool
is_separator c = c == b'/' || c == b'\\' || c == b':'

-- `Path::join` of a directory and the name of a file.
unfoldable pub joined : Text → Text → Text
unfolding ends_with
joined root name =
    if is_empty root || ends_with root (text "/") then root ++ name else root ++ (text "/" ++ name)

-- `session_path`
unfoldable pub session_path : Text → Text → Result Error Text
session_path root value =
    if is_empty value
      || text_eq value (text ".")
      || text_eq value (text "..")
      || any is_separator value
    then err (invalid_id (text "session identifier cannot contain path separators"))
    else ok (joined root (value ++ text ".jsonl"))

unfoldable pub last_timestamp : ℕ → List HarnessEvent → ℕ
last_timestamp t [] = t
last_timestamp t (e ∷ es) = last_timestamp e.timestamp es

unfoldable pub started_root : EventPayload → Option Text
started_root (EventPayload.session_started root) = some root
started_root _ = none

-- `reconstruct_session`
unfoldable pub reconstruct_session : Text → List HarnessEvent → Result Error Session
unfolding started_root last_timestamp
reconstruct_session id [] = err (session (text "session history has no events"))
reconstruct_session id (e ∷ es) = elim (started_root e.payload) [
  | none ↦ err (invalid_event (text "first session event must be session.started"))
  | some root ↦ validate_events id (e ∷ es) >>= λ _. ok (record {
    id = id;
    workspace_root = root;
    created_at = e.timestamp;
    last_updated_at = last_timestamp e.timestamp (e ∷ es);
    events = e ∷ es;
  })
]

module _ (json : Json) where
  unfoldable pub load_file : Text → Text → Option Text → Result Error SessionLoadReport
  load_file id path none = err (not_found (text "session") id)
  load_file id path (some contents) = do
    (events, warnings) ← read_events json path contents
    loaded ← reconstruct_session id events
    ok (record { loaded = loaded; warnings = warnings })

  unfoldable pub load_with_report : Store → Text → Result Error SessionLoadReport
  unfolding load_file
  load_with_report store id = do
    path ← session_path store.root id
    load_file id path (lookup path store.files)

  unfoldable pub load : Store → Text → Result Error Session
  load store id = do report ← load_with_report store id; ok report.loaded

  -- A session whose last record is torn takes no more events.
  unfoldable pub check_complete : List SessionWarning → Result Error (Unit {0})
  check_complete [] = ok tt
  check_complete (_ ∷ _) =
      err (session (text "cannot append to a session with an incomplete trailing record"))

  unfoldable pub check_contents :
      Store → Text → HarnessEvent → Text → Option Text → Result Error (Text × Text)
  unfolding check_complete
  check_contents store id event path none = err (not_found (text "session") id)
  check_contents store id event path (some contents) = do
    report ← load_with_report store id
    complete ← check_complete report.warnings
    ids ← validate_event event (map (λ e. e.event_id) report.loaded.events)
    ok (path, contents)

  -- The checks of `append_event` before the file is opened: the path, and what the file holds.
  unfoldable pub check_append : Store → Text → HarnessEvent → Result Error (Text × Text)
  check_append store id event =
      if not (text_eq event.session_id id)
      then err (invalid_event (text "event session ID does not match the session"))
      else session_path store.root id >>= λ path.
          check_contents store id event path (lookup path store.files)

  -- The record is written, and published if that succeeds.
  unfoldable pub write_record :
      Fault → HarnessEvent → Text → Text → Store → Store × Result Error (Unit {0})
  write_record fault event path contents store =
      let (after, result) = write_event json fault event contents in
      let written = record store { files = insert path after store.files } in
      elim result [
        | ok _ ↦ (record written { published = written.published ++ event ∷ [] }, ok tt)
        | err e ↦ (written, err e)
      ]

  unfoldable pub append_event :
      Fault → Store → Text → HarnessEvent → Store × Result Error (Unit {0})
  append_event fault store id event = elim (check_append store id event) [
    | err e ↦ (store, err e)
    | ok (path, contents) ↦ write_record fault event path contents store
  ]

  -- `resume`, with the identifier and the time of its event.
  unfoldable pub resume : Fault → Text → ℕ → Store → Text → Store × Result Error Session
  resume fault event_id now store id = elim (load store id) [
    | err e ↦ (store, err e)
    | ok _ ↦
        let event =
          new_event event_id now id
            (EventPayload.session_resumed (some (text "session resume requested"))) none none in
        let (store', result) = append_event fault store id event in
        elim result [ err e ↦ (store', err e) | ok _ ↦ (store', load store' id) ]
  ]

  -- `create`: the canonical workspace root and the refusal of `create_new` come from the system.
  check_create :
      Result Text Text → Text → Text → ℕ → Text → Store → Result Error (Text × Text × HarnessEvent)
  check_create canonical id event_id now taken store = elim canonical [
    | err message ↦ err (io message)
    | ok root ↦ do
      sid ← new_id id
      path ← session_path store.root sid
      elim (lookup path store.files) [
        | some _ ↦ err (io taken)
        | none ↦
            ok (sid, path, new_event event_id now sid (EventPayload.session_started root) none none)
      ]
  ]

  -- A record that cannot be written takes its new file with it.
  unfoldable pub create :
      Fault → Result Text Text → Text → Text → ℕ → Text → Store → Store × Result Error Session
  unfolding check_create
  create fault canonical id event_id now taken store =
      elim (check_create canonical id event_id now taken store) [
        | err e ↦ (store, err e)
        | ok (sid, path, event) ↦
            let (contents, result) = write_event json fault event [] in
            elim result [
              | err e ↦ (store, err e)
              | ok _ ↦ (
                record store {
                  files = insert path contents store.files;
                  published = store.published ++ event ∷ [];
                },
                reconstruct_session sid (event ∷ []),
              )
            ]
      ]
