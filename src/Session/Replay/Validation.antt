-- ===== src/Session/Replay/Validation.antt =====
-- Which histories `validate_events` accepts.
use cogito_ai.Prelude.{
  true, false, ◌≡◌, ◌↔◌, refl, List, [], ◌∷◌, any, All, Bool-cases, inl, inr, arith,
}
use cogito_ai.Prelude.Text.{Text, text_eq}
use cogito_ai.Prelude.Text.Laws.{text_eq_sound, text_eq_refl}
use cogito_ai.Prelude.Results.{ok, bind_ok, err-ne-ok}
use cogito_ai.Session.Events.{event_type, event_type_eq, HarnessEvent}
use cogito_ai.Session.Replay.{validate_event, validate_from, validate_events}

-- An event of the session, in the one schema, with the type of its payload.
pub record IsWellFormed (session : Text) (event : HarnessEvent) : Type 0 where
  pub of_session : event.session_id ≡ session
  pub of_schema : event.schema_version ≡ 1
  pub of_payload : event_type_eq event.event_type (event_type event.payload) ≡ true

-- No identifier occurs among the given ones or twice.
abbrev pub IsFresh : List Text → List HarnessEvent → Type 0
IsFresh ids [] = Unit
IsFresh ids (event ∷ events) =
    (any (text_eq event.event_id) ids ≡ false) × IsFresh (event.event_id ∷ ids) events

pub validate_event_ok :
    (event : HarnessEvent) (ids : List Text) {ids' : List Text}
    → validate_event event ids ≡ ok ids'
    → (event.schema_version ≡ 1)
      × (event_type_eq event.event_type (event_type event.payload) ≡ true)
      × (any (text_eq event.event_id) ids ≡ false)
      × (ids' ≡ event.event_id ∷ ids)
unfolding validate_event
validate_event_ok event ids h = ground arith

validate_from_sound :
    (session : Text) (ids : List Text) (events : List HarnessEvent) {ids' : List Text}
    → validate_from session ids events ≡ ok ids'
    → All (IsWellFormed session) events × IsFresh ids events
unfolding validate_from
validate_from_sound session ids [] h = (tt, tt)
validate_from_sound session ids (event ∷ events) h =
    elim (Bool-cases (text_eq event.session_id session)) [
      | inr e ↦ absurd (err-ne-ok (rw (e, validate_from) at h))
      | inl e ↦
          let (ids', v, rest) = bind_ok (validate_event event ids) _ (rw (e, validate_from) at h) in
          let (s, p, f, x) = validate_event_ok event ids v in
          let (all, fresh) =
            validate_from_sound session (event.event_id ∷ ids) events (rw x at rest) in
          (
            (record { of_session = text_eq_sound _ _ e; of_schema = s; of_payload = p }, all),
            (f, fresh),
          )
    ]

validate_event_complete :
    (session : Text) (event : HarnessEvent) (ids : List Text)
    → IsWellFormed session event
    → any (text_eq event.event_id) ids ≡ false
    → validate_event event ids ≡ ok (event.event_id ∷ ids)
unfolding validate_event
validate_event_complete session event ids w f = ground arith

validate_from_complete :
    (session : Text) (ids : List Text) (events : List HarnessEvent)
    → All (IsWellFormed session) events
    → IsFresh ids events
    → (ids' : List Text) × (validate_from session ids events ≡ ok ids')
unfolding validate_from
validate_from_complete session ids [] a f = (ids, refl)
validate_from_complete session ids (event ∷ events) (w, a) (f, g) =
    let (ids', h) = validate_from_complete session (event.event_id ∷ ids) events a g in
    let mine : text_eq event.session_id session ≡ true = rw w.of_session (text_eq_refl session) in
    (ids', rw (mine, validate_event_complete session event ids w f) h)

-- `validate_events` accepts a history exactly if every event is well formed for the session and no
-- identifier occurs twice.
pub validate_events_iff :
    (session : Text) (events : List HarnessEvent)
    → ((ids : List Text) × (validate_events session events ≡ ok ids))
      ↔ (All (IsWellFormed session) events × IsFresh [] events)
unfolding validate_events
validate_events_iff session events = (
  λ (ids, h). validate_from_sound session [] events h,
  λ (a, f). validate_from_complete session [] events a f,
)
