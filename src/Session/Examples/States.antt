-- ===== src/Session/Examples/States.antt =====
-- The states, the lists and the bus of the small session.
use cogito_ai.Prelude.{
  true, false, ◌≡◌, ◌↔◌, Memᴰ, refl, none, some, List, [], ◌∷◌, ◌++◌, All, arith,
}
use cogito_ai.Prelude.Text.{Text, text}
use cogito_ai.Prelude.Results.{ok, err}
use cogito_ai.Core.Errors.{Error, invalid_event}
use cogito_ai.Session.Replay.{
  validate_events, add_message, starts_session, initial_state, reconstruct_state, SessionState,
  user, active,
}
use cogito_ai.Session.Replay.Validation.{IsWellFormed, IsFresh, validate_events_iff}
use cogito_ai.Session.Replay.Summary.{Grows, reconstruct_state-Grows}
use cogito_ai.Session.Replay.Working.{IsConsistent, reconstruct_state-IsConsistent}
use cogito_ai.Session.Replay.Ending.{IsOpen, reconstruct_state_iff}
use cogito_ai.Session.Bus.{
  EventBus, new_bus, fetch_id, push_subscriber, subscribe, publish, unsubscribe,
}
use cogito_ai.Session.Bus.Laws.{Shared, IsValid, Reach, Step, Reach-IsValid, subscribe-unsubscribe}
use cogito_ai.Session.Store.{Session, Store, append_event}
use cogito_ai.Session.Recent.{SessionSummary, recent}
use cogito_ai.Session.Recent.Laws.{recent-broken}
use cogito_ai.Session.Examples.{start, greet, finish, small_json, opened, start_file, path, disk}

validate_events_iff_example :
    ((ids : List Text) × (validate_events (text "s") (start ∷ greet ∷ []) ≡ ok ids))
    ↔ (All (IsWellFormed (text "s")) (start ∷ greet ∷ []) × IsFresh [] (start ∷ greet ∷ []))
validate_events_iff_example = validate_events_iff (text "s") (start ∷ greet ∷ [])

reconstruct_state_iff_example :
    ((s : SessionState) × (reconstruct_state (text "s") (start ∷ greet ∷ []) ≡ ok s)) ↔ (
      (starts_session (start ∷ greet ∷ []) ≡ true)
      × All (IsWellFormed (text "s")) (start ∷ greet ∷ [])
      × IsFresh [] (start ∷ greet ∷ [])
      × IsOpen false (start ∷ greet ∷ []))
reconstruct_state_iff_example = reconstruct_state_iff (text "s") (start ∷ greet ∷ [])

-- The append of that message succeeds all the same.
append_after_end :
    (append_event small_json none
      (record disk { files = (path, start_file ++ b'{' ∷ 34 ∷ b'}' ∷ b'\n' ∷ []) ∷ [] })
      (text "s")
      greet).1
    ≡ ok tt
unfolding opened
append_after_end = refl

reconstruct_state-Grows_example :
    Grows
      (initial_state (text "s"))
      (record (add_message user (text "hi") (initial_state (text "s"))) {
        last_event_id = some (1 ∷ []);
      })
      (start ∷ greet ∷ [])
unfolding opened
reconstruct_state-Grows_example = reconstruct_state-Grows (text "s") (start ∷ greet ∷ []) refl

reconstruct_state-IsConsistent_example :
    IsConsistent (record (add_message user (text "hi") (initial_state (text "s"))) {
      last_event_id = some (1 ∷ []);
    })
unfolding opened
reconstruct_state-IsConsistent_example =
    reconstruct_state-IsConsistent (text "s") (start ∷ greet ∷ []) refl

-- Two threads fetch an identifier each, the later one gets the lock first, and the earlier
-- subscription is dropped.
abbrev two_waiting : Shared Text
two_waiting =
    let first : EventBus Text = new_bus in
    record {
      bus = (fetch_id (fetch_id first).1).1;
      waiting = (fetch_id (fetch_id first).1).0 ∷ (fetch_id first).0 ∷ [];
    }

abbrev two : EventBus Text
two = push_subscriber (push_subscriber two_waiting.bus 1 (text "b")) 0 (text "a")

two-Reach : Reach (record { bus = two; waiting = [] })
unfolding opened
two-Reach =
    Reach.next
      (Reach.next
        (Reach.next (Reach.next Reach.start (Step.fetched (omega arith) refl))
          (Step.fetched (omega arith) refl))
        (Step.pushed [] 1 (0 ∷ []) (text "b") refl refl))
      (Step.pushed [] 0 [] (text "a") refl refl)

Reach-IsValid_example : IsValid (record { bus = unsubscribe two 0; waiting = [] })
Reach-IsValid_example = Reach-IsValid (Reach.next two-Reach (Step.dropped 0 refl))

subscribe-unsubscribe_example :
    (publish (subscribe two (text "c")).1 start ≡ publish two start ++ (text "c", start) ∷ [])
    × (publish (unsubscribe (subscribe two (text "c")).1 (subscribe two (text "c")).0) start
        ≡ publish two start)
subscribe-unsubscribe_example = subscribe-unsubscribe (text "c") start two-Reach

-- The subscription that got the lock first hears an event first, though its identifier is the later.
late_first : publish two start ≡ (text "b", start) ∷ (text "a", start) ∷ []
unfolding opened
late_first = refl

heard_by : publish (unsubscribe two 0) start ≡ (text "b", start) ∷ []
unfolding opened
heard_by = refl

-- A directory with a session that goes on after its end.
abbrev ended_file : Text
ended_file = start_file ++ (b'{' ∷ 34 ∷ b'}' ∷ b'\n' ∷ []) ++ (b'{' ∷ 33 ∷ b'}' ∷ b'\n' ∷ [])

abbrev ended_disk : Store
ended_disk = record disk { files = (path, ended_file) ∷ [] }

abbrev ended : Session
ended = record {
  id = text "s";
  workspace_root = text "/w";
  created_at = 0;
  last_updated_at = 1;
  events = start ∷ finish ∷ greet ∷ [];
}

recent-broken_example : (y : Error) × (recent small_json ended_disk 5 (text "s" ∷ []) ≡ err y)
unfolding opened
recent-broken_example =
    recent-broken small_json ended_disk 5 (text "s" ∷ []) (text "s") (text "s") ended
      (invalid_event (text "events cannot follow a terminal session event")) refl (Memᴰ.head refl)
      refl refl refl

abbrev listed : SessionSummary
listed = record {
  id = text "s";
  workspace_root = text "/w";
  title = some (text "hi");
  status = active;
  created_at = 0;
  last_updated_at = 1;
  event_count = 2;
  context_compactions = 0;
}
