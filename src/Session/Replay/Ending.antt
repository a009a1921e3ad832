-- ===== src/Session/Replay/Ending.antt =====
-- How a session ends: which histories `reconstruct_state` accepts, and what becomes of one that an
-- event follows after its end.
use cogito_ai.Prelude.{
  Bool, true, false, not, ◌&&◌, ◌≡◌, ◌↔◌, refl, List, [], ◌∷◌, ◌++◌, inl, inr, arith, All,
}
use cogito_ai.Prelude.Text.{Text}
use cogito_ai.Prelude.Results.{ok, err, bind_ok, Result-cases}
use cogito_ai.Core.Errors.{Error}
use cogito_ai.Session.Events.{EventPayload, HarnessEvent}
use cogito_ai.Session.Replay.{
  SessionState, Progress, apply_payload, replay_event, replay, follows_terminal, is_resumed,
  initial_state, starts_session, validate_events, reconstruct_state,
}
use cogito_ai.Session.Replay.Validation.{IsWellFormed, IsFresh, validate_events_iff}
use cogito_ai.Session.Replay.Summary.{
  found, left_by, replay_event_lem, replay_event_ok, reconstruct_state_ok,
}

-- Whether the session has ended after an event, from whether it had before.
unfoldable pub ended_after : Bool → EventPayload → Bool
ended_after t (EventPayload.session_completed _) = true
ended_after t (EventPayload.session_failed _) = true
ended_after t (EventPayload.session_resumed _) = false
ended_after t _ = t

-- Only a resumption or a change of the model comes after the end of the session.
abbrev pub IsOpen : Bool → List HarnessEvent → Type 0
IsOpen t [] = Unit
IsOpen t (e ∷ es) =
    ((t && not (follows_terminal e.payload)) ≡ false) × IsOpen (ended_after t e.payload) es

apply_payload-ended :
    (p : EventPayload) (t : Bool) (s : SessionState)
    → (apply_payload p (found (t, s) p)).0 ≡ ended_after t p
unfolding apply_payload found is_resumed ended_after
apply_payload-ended (EventPayload.session_completed _) t s = refl
apply_payload-ended _ t s = refl

left_by-ended :
    (t : Bool) (s : SessionState) (e : HarnessEvent)
    → (left_by (t, s) e).0 ≡ ended_after t e.payload
unfolding left_by
left_by-ended t s e = apply_payload-ended e.payload t s

replay_sound :
    (t : Bool) (s : SessionState) (events : List HarnessEvent) {p : Progress}
    → replay (t, s) events ≡ ok p
    → IsOpen t events
unfolding replay
replay_sound t s [] h = tt
replay_sound t s (e ∷ es) h =
    let (q, first, rest) = bind_ok (replay_event (t, s) e) _ h in
    let (k, x) = replay_event_ok t s e first in
    (
      k,
      rw (left_by-ended t s e) at
          (replay_sound (left_by (t, s) e).0 (left_by (t, s) e).1 es (rw x at rest)),
    )

replay_complete :
    (t : Bool) (s : SessionState) (events : List HarnessEvent)
    → IsOpen t events
    → (p : Progress) × (replay (t, s) events ≡ ok p)
unfolding replay
replay_complete t s [] h = ((t, s), refl)
replay_complete t s (e ∷ es) (k, h) =
    let (p, r) =
      replay_complete (left_by (t, s) e).0 (left_by (t, s) e).1 es
        (rw (← left_by-ended t s e) at h) in
    (p, rw (replay_event_lem t s e k) r)

-- `reconstruct_state` succeeds exactly for a valid history that starts with `session.started` and
-- in which only a resumption or a change of the model comes after the end of the session.
pub reconstruct_state_iff :
    (session : Text) (events : List HarnessEvent)
    → ((s : SessionState) × (reconstruct_state session events ≡ ok s)) ↔ (
        (starts_session events ≡ true)
        × All (IsWellFormed session) events
        × IsFresh [] events
        × IsOpen false events)
unfolding reconstruct_state
reconstruct_state_iff session events = (sound, complete)
  where
    sound :
        (s : SessionState) × (reconstruct_state session events ≡ ok s)
        → (starts_session events ≡ true)
          × All (IsWellFormed session) events
          × IsFresh [] events
          × IsOpen false events
    sound (s, h) =
        let (p, k, r, e) = reconstruct_state_ok session events h in
        let (ids, v, rest) = bind_ok (validate_events session events) _ h in
        let (a, f) = (validate_events_iff session events).0 (ids, v) in
        (k, a, f, replay_sound false (initial_state session) events r)

    complete :
        (starts_session events ≡ true)
          × All (IsWellFormed session) events
          × IsFresh [] events
          × IsOpen false events
        → (s : SessionState) × (reconstruct_state session events ≡ ok s)
    complete (k, a, f, o) =
        let (ids, v) = (validate_events_iff session events).1 (a, f) in
        let (p, r) = replay_complete false (initial_state session) events o in
        (p.1, rw (v, reconstruct_state, k, r))

-- The flag after a whole history.
unfoldable pub ended_by : Bool → List HarnessEvent → Bool
ended_by t [] = t
ended_by t (e ∷ es) = ended_by (ended_after t e.payload) es

IsOpen-append :
    (t : Bool) (es fs : List HarnessEvent) → IsOpen t (es ++ fs) → IsOpen (ended_by t es) fs
unfolding ended_by
IsOpen-append t [] fs h = h
IsOpen-append t (e ∷ es) fs h = IsOpen-append (ended_after t e.payload) es fs h.1

-- A history that goes on after its end with another event than a resumption or a change of the
-- model has no state any more, whatever follows.
pub reconstruct_state-after_end :
    (session : Text) (es : List HarnessEvent) (e : HarnessEvent) (fs : List HarnessEvent)
    → ended_by false es ≡ true
    → follows_terminal e.payload ≡ false
    → (x : Error) × (reconstruct_state session (es ++ e ∷ fs) ≡ err x)
reconstruct_state-after_end session es e fs d n =
    elim (Result-cases (reconstruct_state session (es ++ e ∷ fs))) [
      | inl r ↦ r
      | inr r ↦ absurd (closed ((reconstruct_state_iff session (es ++ e ∷ fs)).0 r).3)
    ]
  where
    closed : IsOpen false (es ++ e ∷ fs) → ⊥
    closed h =
        let k : (ended_by false es && not (follows_terminal e.payload)) ≡ false =
          (IsOpen-append false es (e ∷ fs) h).0 in
        ground arith
