-- ===== src/Session/Examples.antt =====
-- A small session: runs of the store, the replay and the bus, and their theorems at it.
mod States
use cogito_ai.Prelude.{
  ℕ, zero, suc, ◌+◌, ◌<◌, ◌≤◌, true, false, ◌≡◌, ◌↔◌, ◌⊎◌, ◌≢◌, Memᴰ, sort_by, refl, none, some,
  List, [], ◌∷◌, ◌++◌, ◌==◌, if◌then◌else◌, take, any, length, filter, All, arith,
}
use cogito_ai.Prelude.Text.{
  Text, text, text_eq, lines, lines_from, last_piece, drop_return, trim, decimal, is_whitespace,
  trim_start_matches, trim_end_matches, trim_matches, split, join,
}
use cogito_ai.Prelude.Results.{Result, ok, err}
use cogito_ai.Core.Errors.{Error, io, invalid_event}
use cogito_ai.Core.Ids.{new_id}
use cogito_ai.Session.Compact.{is_empty}
use cogito_ai.Session.Events.{
  EventPayload, HarnessEvent, new_event, event_type, event_type_eq, event_type_index,
}
use cogito_ai.Session.Replay.{
  validate_event, validate_from, validate_events, is_started, is_resumed, follows_terminal,
  add_message, compact, apply_payload, replay_event, replay, starts_session, initial_state,
  reconstruct_state, SessionState, user, active,
}
use cogito_ai.Session.Replay.Validation.{IsWellFormed, IsFresh, validate_events_iff}
use cogito_ai.Session.Replay.Summary.{Grows, reconstruct_state-Grows}
use cogito_ai.Session.Replay.Working.{IsConsistent, reconstruct_state-IsConsistent}
use cogito_ai.Session.Replay.Ending.{
  IsOpen, ended_after, ended_by, reconstruct_state_iff, reconstruct_state-after_end,
}
use cogito_ai.Session.Bus.{
  EventBus, new_bus, fetch_id, push_subscriber, subscribe, publish, unsubscribe,
}
use cogito_ai.Session.Bus.Laws.{IsValid, Reach, Step, Reach-IsValid, subscribe-unsubscribe}
use cogito_ai.Session.Records.{
  Json, trailing, enumerate, is_record, numbered_records, last_number, read_from, read_events,
  write_event,
}
use cogito_ai.Session.Records.Laws.{IsSerialized, IsFile}
use cogito_ai.Session.Records.Reading.{read_events-IsFile}
use cogito_ai.Session.Records.Interrupted.{read_events-interrupted}
use cogito_ai.Session.Store.{
  Session, Store, lookup, insert, is_separator, joined, session_path, started_root, last_timestamp,
  reconstruct_session, load_file, load_with_report, load, check_complete, check_contents,
  check_append, write_record, append_event,
}
use cogito_ai.Session.Recent.{
  SessionSummary, user_text, first_task, split_whitespace, shorten, title_of, session_title,
  summary, summarize, summaries, summary_le, recent,
}
use cogito_ai.Session.Recent.Laws.{recent-broken, length-recent-le, length-session_title-le}
use cogito_ai.Session.Store.Append.{append_event-load}
use cogito_ai.Session.Store.Failures.{append_event-failed, session_path-one_file}

abbrev event : ℕ → EventPayload → HarnessEvent
event n payload = new_event (n ∷ []) n (text "s") payload none none

abbrev start : HarnessEvent
start = event 0 (EventPayload.session_started (text "/w"))

abbrev greet : HarnessEvent
greet = event 1 (EventPayload.user_message (text "hi"))

abbrev finish : HarnessEvent
finish = event 2 (EventPayload.session_completed none)

-- A serializer of these events: an event is an object that holds its time.
abbrev parse : Text → Result Text HarnessEvent
parse (_ ∷ t ∷ _ ∷ []) = if t == 32 then ok start else if t == 33 then ok greet else ok finish
parse _ = err (text "EOF while parsing")

abbrev small_json : Json
small_json = record {
  to_string = λ e. ok (b'{' ∷ (32 + e.timestamp) ∷ b'}' ∷ []);
  from_str = parse;
}

-- Everything that the store and the replay call.
opened : Unit {0}
unfolding text text_eq lines lines_from last_piece drop_return trim decimal is_whitespace
    trim_start_matches trim_end_matches trim_matches is_empty new_event event_type event_type_eq
    event_type_index validate_event validate_from validate_events is_started is_resumed
    follows_terminal add_message compact apply_payload replay_event replay starts_session
    initial_state reconstruct_state ended_after ended_by new_bus fetch_id push_subscriber subscribe
    publish unsubscribe trailing enumerate is_record numbered_records last_number read_from
    read_events write_event lookup insert is_separator joined session_path started_root
    last_timestamp reconstruct_session load_file load_with_report load check_complete check_contents
    check_append write_record append_event any filter user_text first_task split_whitespace shorten
    title_of session_title summary summarize summaries recent sort_by new_id split join
opened = tt

start_line : IsSerialized small_json start (b'{' ∷ 32 ∷ b'}' ∷ [])
unfolding opened
start_line = record {
  printed = refl;
  parsed = refl;
  on_line = (omega arith, (omega arith, (omega arith, tt)));
  opened = (32 ∷ b'}' ∷ [], refl);
  torn = torn;
}
  where
    torn : (n : ℕ) → n < 3 → (m : Text) × (parse (take n (b'{' ∷ 32 ∷ b'}' ∷ [])) ≡ err m)
    torn zero h = (_, refl)
    torn (suc zero) h = (_, refl)
    torn (suc (suc zero)) h = (_, refl)
    torn (suc (suc (suc n))) h = absurd (omega arith)

greet_line : IsSerialized small_json greet (b'{' ∷ 33 ∷ b'}' ∷ [])
unfolding opened
greet_line = record {
  printed = refl;
  parsed = refl;
  on_line = (omega arith, (omega arith, (omega arith, tt)));
  opened = (33 ∷ b'}' ∷ [], refl);
  torn = torn;
}
  where
    torn : (n : ℕ) → n < 3 → (m : Text) × (parse (take n (b'{' ∷ 33 ∷ b'}' ∷ [])) ≡ err m)
    torn zero h = (_, refl)
    torn (suc zero) h = (_, refl)
    torn (suc (suc zero)) h = (_, refl)
    torn (suc (suc (suc n))) h = absurd (omega arith)

abbrev start_file : Text
start_file = b'{' ∷ 32 ∷ b'}' ∷ b'\n' ∷ []

start_file-IsFile : IsFile small_json (start ∷ []) start_file
start_file-IsFile = (_, [], start_line, refl, refl)

abbrev path : Text
path = text "/r/s.jsonl"

abbrev disk : Store
disk = record { root = text "/r"; files = (path, start_file) ∷ []; published = start ∷ [] }

abbrev written : Store
written = record disk {
  files = (path, start_file ++ b'{' ∷ 33 ∷ b'}' ∷ b'\n' ∷ []) ∷ [];
  published = start ∷ greet ∷ [];
}

append_greet : append_event small_json none disk (text "s") greet ≡ (written, ok tt)
unfolding opened
append_greet = refl

-- The second append is refused: the identifier of its event is taken.
append_again :
    (append_event small_json none written (text "s") greet).1
    ≡ err (invalid_event (text "duplicate event ID " ++ 1 ∷ []))
unfolding opened
append_again = refl

append_event-load_example : written.published ≡ disk.published ++ greet ∷ []
unfolding opened
append_event-load_example =
    (append_event-load small_json none disk written (text "s") path start_file _ (start ∷ []) greet
      refl refl start_file-IsFile greet_line append_greet).2

-- A disk that is full after two characters.
abbrev torn_disk : Store
torn_disk = record disk { files = (path, start_file ++ b'{' ∷ 33 ∷ []) ∷ [] }

append_event-failed_example :
    (torn_disk ≡ disk)
    ⊎ ((p contents line : Text) × (n : ℕ) × (session_path disk.root (text "s") ≡ ok p)
        × (lookup p disk.files ≡ some contents)
        × (small_json.to_string greet ≡ ok line)
        × (torn_disk ≡ record disk {
          files = insert p (contents ++ take n (line ++ b'\n' ∷ [])) disk.files;
        }))
unfolding opened
append_event-failed_example =
    append_event-failed small_json (some (2, text "No space left")) disk torn_disk (text "s") greet
      (io (text "No space left")) refl

abbrev two_written : ℕ
two_written = 2

read_events-interrupted_example :
    ((two_written ≡ 0)
      × (read_events small_json path
            (start_file ++ take two_written (b'{' ∷ 33 ∷ b'}' ∷ b'\n' ∷ []))
          ≡ ok (start ∷ [], [])))
    ⊎ ((0 < two_written)
        × (two_written < 3)
        × (m : Text) × (read_events small_json path
              (start_file ++ take two_written (b'{' ∷ 33 ∷ b'}' ∷ b'\n' ∷ []))
            ≡ ok (start ∷ [], trailing 1 m ∷ [])))
    ⊎ ((3 ≤ two_written)
        × (read_events small_json path
              (start_file ++ take two_written (b'{' ∷ 33 ∷ b'}' ∷ b'\n' ∷ []))
            ≡ ok (start ∷ greet ∷ [], [])))
read_events-interrupted_example =
    read_events-interrupted small_json path (start ∷ []) start_file greet (b'{' ∷ 33 ∷ b'}' ∷ []) 2
      start_file-IsFile greet_line

session_path-one_file_example :
    (any is_separator (text "s") ≡ false)
    × (path ≡ joined (text "/r") (text "s" ++ text ".jsonl"))
    × (text "s" ≡ text "s")
unfolding opened
session_path-one_file_example =
    session_path-one_file (text "/r") (text "s") (text "s") {path = path} refl refl
