-- ===== src/Session/Store/Append.antt =====
-- An event that is appended is found again behind the earlier ones.
use cogito_ai.Prelude.{
  true, false, ◌≡◌, inl, inr, refl, sym, ap, ◌∙◌, Option, some, List, [], ◌∷◌, ◌++◌, map, any,
  All-append, arith, Option-cases,
}
use cogito_ai.Prelude.Text.{Text, text_eq}
use cogito_ai.Prelude.Text.Laws.{text_eq_sound}
use cogito_ai.Prelude.Results.{ok, ◌>>=◌, bind_ok, ok_injective, err-ne-ok}
use cogito_ai.Session.Events.{HarnessEvent}
use cogito_ai.Session.Replay.{validate_event, validate_events}
use cogito_ai.Session.Replay.Validation.{
  IsWellFormed, IsFresh, validate_event_ok, validate_events_iff,
}
use cogito_ai.Session.Records.{Json, Fault}
use cogito_ai.Session.Records.Laws.{IsSerialized, IsFile}
use cogito_ai.Session.Records.Reading.{read_events-IsFile}
use cogito_ai.Session.Records.Interrupted.{IsFile-snoc}
use cogito_ai.Session.Store.{
  Session, SessionLoadReport, Store, lookup, insert, session_path, started_root, last_timestamp,
  reconstruct_session, load_file, load_with_report, load, append_event,
}
use cogito_ai.Session.Store.Laws.{
  lookup-insert, lookup-insert-other, check_contents_ok, check_append_ok, write_record_ok,
  append_event_ok,
}

IsFresh-snoc :
    (ids : List Text) (es : List HarnessEvent) (e : HarnessEvent)
    → IsFresh ids es
    → any (text_eq e.event_id) ids ≡ false
    → any (text_eq e.event_id) (map (λ (x : HarnessEvent). x.event_id) es) ≡ false
    → IsFresh ids (es ++ e ∷ [])
unfolding any
IsFresh-snoc ids [] e f h k = (h, tt)
IsFresh-snoc ids (x ∷ es) e (p, f) h k =
    (p, IsFresh-snoc (x.event_id ∷ ids) es e f (ground arith) (ground arith))

-- A valid history stays valid with an event that passes the checks of the append.
pub validate_events-snoc :
    (id : Text) (es : List HarnessEvent) (e : HarnessEvent) {ids ids' : List Text}
    → validate_events id es ≡ ok ids
    → text_eq e.session_id id ≡ true
    → validate_event e (map (λ (x : HarnessEvent). x.event_id) es) ≡ ok ids'
    → (all : List Text) × (validate_events id (es ++ e ∷ []) ≡ ok all)
unfolding any
validate_events-snoc id es e h s v =
    let (good, fresh) = (validate_events_iff id es).0 (_, h) in
    let (schema, kind, new, _) = validate_event_ok e _ v in
    let mine : IsWellFormed id e = record {
      of_session = text_eq_sound _ _ s;
      of_schema = schema;
      of_payload = kind;
    } in
    (validate_events_iff id (es ++ e ∷ [])).1
      (All-append _ es (e ∷ []) good (mine, tt), IsFresh-snoc [] es e fresh refl new)

-- A session stays one, at the same root, with its history longer by the event.
reconstruct_session-snoc :
    (id : Text) (es : List HarnessEvent) (e : HarnessEvent) {old : Session} {ids : List Text}
    → reconstruct_session id es ≡ ok old
    → text_eq e.session_id id ≡ true
    → validate_event e (map (λ (x : HarnessEvent). x.event_id) old.events) ≡ ok ids
    → (s : Session) × (reconstruct_session id (es ++ e ∷ []) ≡ ok s)
      × (s.events ≡ old.events ++ e ∷ [])
      × (s.workspace_root ≡ old.workspace_root)
unfolding reconstruct_session
reconstruct_session-snoc id [] e h k v = absurd (err-ne-ok h)
reconstruct_session-snoc id (x ∷ es) e {old} h k v = elim (Option-cases (started_root x.payload)) [
  | inl r ↦ absurd (err-ne-ok (rw (reconstruct_session, r) at h))
  | inr (root, r) ↦
      let (ids, valid, made) =
        bind_ok (validate_events id (x ∷ es)) _ (rw (reconstruct_session, r) at h) in
      let same = ok_injective made in
      let kept : x ∷ es ≡ old.events = ap (λ (s : Session). s.events) same in
      let (all, longer) = validate_events-snoc id (x ∷ es) e valid k (rw (← kept) at v) in
      (
        record {
          id = id;
          workspace_root = root;
          created_at = x.timestamp;
          last_updated_at = last_timestamp x.timestamp (x ∷ es ++ e ∷ []);
          events = x ∷ es ++ e ∷ [];
        },
        rw (reconstruct_session, r, longer) refl,
        ap (λ (l : List HarnessEvent). l ++ e ∷ []) kept,
        ap (λ (s : Session). s.workspace_root) same,
      )
]

load_with_report_lem :
    (json : Json) (store : Store) (id path contents : Text) (es : List HarnessEvent)
    → session_path store.root id ≡ ok path
    → lookup path store.files ≡ some contents
    → IsFile json es contents
    → load_with_report json store id
      ≡ (reconstruct_session id es >>= λ loaded. ok (record { loaded = loaded; warnings = [] }))
unfolding load_with_report load_file
load_with_report_lem json store id path contents es p l f =
    rw (load_with_report, p, l, read_events-IsFile json path es contents f) refl

some_injective : {x y : Text} → ◌≡◌ {A = Option Text} (some x) (some y) → x ≡ y
some_injective e = cc

-- The session before and after an append, given what the append wrote.
load-written :
    (json : Json) (store store' : Store) (id path contents line : Text) (es : List HarnessEvent)
    (event : HarnessEvent) {report : SessionLoadReport} {ids : List Text}
    → session_path store.root id ≡ ok path
    → lookup path store.files ≡ some contents
    → IsFile json es contents
    → IsSerialized json event line
    → load_with_report json store id ≡ ok report
    → text_eq event.session_id id ≡ true
    → validate_event event (map (λ (e : HarnessEvent). e.event_id) report.loaded.events) ≡ ok ids
    → store'.root ≡ store.root
    → store'.files ≡ insert path (contents ++ (line ++ b'\n' ∷ [])) store.files
    → (s old : Session) × (load json store id ≡ ok old)
      × (load json store' id ≡ ok s)
      × (s.events ≡ old.events ++ event ∷ [])
      × (s.workspace_root ≡ old.workspace_root)
unfolding load
load-written json store store' id path contents line es event {report} p l f w lr mine v root
      files =
    let before = load_with_report_lem json store id path contents es p l f in
    let (old, made, e) = bind_ok (reconstruct_session id es) _ (sym before ∙ lr) in
    let same : old ≡ report.loaded = ap (λ (r : SessionLoadReport). r.loaded) (ok_injective e) in
    let (s, made', events, kept) =
      reconstruct_session-snoc id es event made mine (rw (← same) at v) in
    let found : lookup path store'.files ≡ some (contents ++ (line ++ b'\n' ∷ [])) =
      rw files (lookup-insert path _ store.files) in
    let after =
      load_with_report_lem json store' id path _ (es ++ event ∷ []) (rw root p) found
        (IsFile-snoc json es contents event line f w) in
    (s, old, rw (load, before, made) refl, rw (load, after, made') refl, events, kept)

-- If the session's file holds the records of its events and `serde_json` keeps its contract at the
-- event, a successful append makes the session load with the event behind the earlier ones, at the
-- same workspace root, leaves every other session file as it was, and publishes the event, once,
-- behind what was published before.
pub append_event-load :
    (json : Json) (fault : Fault) (store store' : Store) (id path contents line : Text)
    (es : List HarnessEvent) (event : HarnessEvent)
    → session_path store.root id ≡ ok path
    → lookup path store.files ≡ some contents
    → IsFile json es contents
    → IsSerialized json event line
    → append_event json fault store id event ≡ (store', ok tt)
    → ((s old : Session) × (load json store id ≡ ok old)
        × (load json store' id ≡ ok s)
        × (s.events ≡ old.events ++ event ∷ [])
        × (s.workspace_root ≡ old.workspace_root))
      × ((other : Text)
          → text_eq path other ≡ false
          → lookup other store'.files ≡ lookup other store.files)
      × (store'.published ≡ store.published ++ event ∷ [])
unfolding load
append_event-load json fault store store' id path contents line es event p l f w h =
    let (x, c, wrote) = append_event_ok json fault store id event h in
    let (mine, px, cx) = check_append_ok json store id event c in
    let (lx, _, report, lr, _, ids, v) = check_contents_ok json store id event x.0 _ cx in
    let same_path : x.0 ≡ path = ok_injective (sym px ∙ p) in
    let same : x.1 ≡ contents = some_injective (sym (rw same_path at lx) ∙ l) in
    let (line', printed, root, files, published) =
      write_record_ok json fault event x.0 x.1 store wrote in
    let same_line : line' ≡ line = ok_injective (sym printed ∙ w.printed) in
    let files' : store'.files ≡ insert path (contents ++ (line ++ b'\n' ∷ [])) store.files =
      rw (same_path, same, same_line) at files in
    (
      load-written json store store' id path contents line es event p l f w lr mine v root files',
      λ other k. rw files' (lookup-insert-other path other _ store.files k),
      published,
    )
