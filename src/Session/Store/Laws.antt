-- ===== src/Session/Store/Laws.antt =====
-- What an operation on the store changes, and what it leaves alone.
use cogito_ai.Prelude.{
  true, false, ◌≡◌, inl, inr, refl, sym, ap, ◌∙◌, Option, none, some, List, [], ◌∷◌, ◌++◌, map,
  if◌then◌else◌, arith, Bool-cases,
}
use cogito_ai.Prelude.Text.{Text, text_eq}
use cogito_ai.Prelude.Text.Laws.{text_eq_sound, text_eq_refl}
use cogito_ai.Prelude.Results.{Result, ok, bind_ok, ok_injective, err-ne-ok, Result-cases}
use cogito_ai.Core.Errors.{Error}
use cogito_ai.Session.Events.{HarnessEvent}
use cogito_ai.Session.Replay.{validate_event}
use cogito_ai.Session.Records.{Json, Fault, SessionWarning, write_event}
use cogito_ai.Session.Store.{
  SessionLoadReport, Store, lookup, insert, session_path, load_with_report, check_complete,
  check_contents, check_append, write_record, append_event,
}

-- A file that is written is found, and no other file is touched.
pub lookup-insert :
    (path contents : Text) (files : List (Text × Text))
    → lookup path (insert path contents files) ≡ some contents
unfolding lookup insert
lookup-insert path contents [] = rw (text_eq_refl path) refl
lookup-insert path contents ((p, old) ∷ files) = elim (Bool-cases (text_eq p path)) [
  | inl e ↦ rw (e, text_eq_refl path) refl
  | inr e ↦ rw (e, e) (lookup-insert path contents files)
]

pub lookup-insert-other :
    (path other contents : Text) (files : List (Text × Text))
    → text_eq path other ≡ false
    → lookup other (insert path contents files) ≡ lookup other files
unfolding lookup insert
lookup-insert-other path other contents [] h = rw h refl
lookup-insert-other path other contents ((p, old) ∷ files) h = elim (Bool-cases (text_eq p path)) [
  | inl e ↦ rw (e, h, text_eq_sound p path e, h) refl
  | inr e ↦ rw e (
      ap (λ (o : Option Text). if text_eq p other then some old else o)
        (lookup-insert-other path other contents files h))
]

-- What a successful append has checked, done, and published.
pub record Appended (json : Json) (store : Store) (id : Text) (event : HarnessEvent)
    (store' : Store) : Type 0 where
  pub path : Text
  pub contents : Text
  pub line : Text
  pub path_ok : session_path store.root id ≡ ok path
  pub found : lookup path store.files ≡ some contents
  pub printed : json.to_string event ≡ ok line
  pub root : store'.root ≡ store.root
  pub files : store'.files ≡ insert path (contents ++ (line ++ b'\n' ∷ [])) store.files
  pub published : store'.published ≡ store.published ++ event ∷ []

check_complete_ok :
    (json : Json) (ws : List SessionWarning) {c : Unit {0}}
    → check_complete json ws ≡ ok c
    → ws ≡ []
unfolding check_complete
check_complete_ok json [] k = refl
check_complete_ok json (w ∷ ws) k = absurd (err-ne-ok k)

pub check_contents_ok :
    (json : Json) (store : Store) (id : Text) (event : HarnessEvent) (path : Text) (o : Option Text)
    {x : Text × Text}
    → check_contents json store id event path o ≡ ok x
    → (o ≡ some x.1)
      × (path ≡ x.0)
      × (report : SessionLoadReport) × (load_with_report json store id ≡ ok report)
      × (report.warnings ≡ [])
      × (ids : List Text) × (validate_event event (map (λ e. e.event_id) report.loaded.events)
          ≡ ok ids)
unfolding check_contents
check_contents_ok json store id event path none h = absurd (err-ne-ok h)
check_contents_ok json store id event path (some contents) {x} h =
    let (report, l, h1) = bind_ok (load_with_report json store id) _ h in
    let (c, k, h2) = bind_ok (check_complete json report.warnings) _ h1 in
    let (ids, v, h3) = bind_ok (validate_event event _) _ h2 in
    let e : (path, contents) ≡ x = ok_injective h3 in
    (
      ap (λ (y : Text × Text). some y.1) e,
      ap (λ (y : Text × Text). y.0) e,
      report,
      l,
      check_complete_ok json report.warnings k,
      ids,
      v,
    )

write_event_ok :
    (json : Json) (fault : Fault) (event : HarnessEvent) (contents : Text)
    → (write_event json fault event contents).1 ≡ ok tt
    → (line : Text) × (json.to_string event ≡ ok line)
      × ((write_event json fault event contents).0 ≡ contents ++ (line ++ b'\n' ∷ []))
unfolding write_event
write_event_ok json none event contents h = elim (Result-cases (json.to_string event)) [
  | inl (m, e) ↦ absurd (err-ne-ok (rw (write_event, e) at h))
  | inr (line, e) ↦ (line, e, rw (write_event, e) refl)
]
write_event_ok json (some f) event contents h = elim (Result-cases (json.to_string event)) [
  | inl (m, e) ↦ absurd (err-ne-ok (rw (write_event, e) at h))
  | inr (line, e) ↦ absurd (err-ne-ok (rw (write_event, e) at h))
]

pub write_record_ok :
    (json : Json) (fault : Fault) (event : HarnessEvent) (path contents : Text) (store : Store)
    {store' : Store}
    → write_record json fault event path contents store ≡ (store', ok tt)
    → (line : Text) × (json.to_string event ≡ ok line)
      × (store'.root ≡ store.root)
      × (store'.files ≡ insert path (contents ++ (line ++ b'\n' ∷ [])) store.files)
      × (store'.published ≡ store.published ++ event ∷ [])
unfolding write_record
write_record_ok json fault event path contents store {store'} h =
    elim (Result-cases (write_event json fault event contents).1) [
      | inl (m, e) ↦ absurd (
          err-ne-ok (ap (λ (x : Store × Result Error (Unit {0})). x.1) (rw (write_record, e) at h)))
      | inr (u, e) ↦
          let done =
            ap (λ (x : Store × Result Error (Unit {0})). x.0) (rw (write_record, e) at h) in
          let (line, p, w) = write_event_ok json fault event contents e in
          (
            line,
            p,
            sym (ap (λ (x : Store). x.root) done),
            sym (ap (λ (x : Store). x.files) done) ∙ ap (λ (t : Text). insert path t store.files) w,
            sym (ap (λ (x : Store). x.published) done),
          )
    ]

pub append_event_ok :
    (json : Json) (fault : Fault) (store : Store) (id : Text) (event : HarnessEvent)
    {store' : Store}
    → append_event json fault store id event ≡ (store', ok tt)
    → (x : Text × Text) × (check_append json store id event ≡ ok x)
      × (write_record json fault event x.0 x.1 store ≡ (store', ok tt))
unfolding append_event
append_event_ok json fault store id event h =
    elim (Result-cases (check_append json store id event)) [
      | inl (m, e) ↦ absurd (
          ground
            (arith, ap (λ (x : Store × Result Error (Unit {0})). x.1) (rw (append_event, e) at h)))
      | inr (x, e) ↦ (x, e, rw (append_event, e) at h)
    ]

pub check_append_ok :
    (json : Json) (store : Store) (id : Text) (event : HarnessEvent) {x : Text × Text}
    → check_append json store id event ≡ ok x
    → (text_eq event.session_id id ≡ true)
      × (session_path store.root id ≡ ok x.0)
      × (check_contents json store id event x.0 (lookup x.0 store.files) ≡ ok x)
unfolding check_append
check_append_ok json store id event {x} h = elim (Bool-cases (text_eq event.session_id id)) [
  | inr e ↦ absurd (err-ne-ok (rw (check_append, e) at h))
  | inl e ↦
      let (path, p, h1) = bind_ok (session_path store.root id) _ (rw (check_append, e) at h) in
      let same : path ≡ x.0 = (check_contents_ok json store id event path _ h1).1 in
      (e, rw same at p, rw same at h1)
]
