-- ===== src/Session/Store/Failures.antt =====
-- Failed appends, and the files that session identifiers name.
use cogito_ai.Prelude.{
  ℕ, false, ◌||◌, ◌≡◌, ◌⊎◌, inl, inr, refl, sym, ap, ◌∙◌, none, some, List, [], ◌∷◌, ◌++◌, take,
  arith, Bool-cases, any,
}
use mathlib.Core.List.{append_cancel_left, append_cancel_right}
use cogito_ai.Prelude.Text.{Text, text, text_eq, ends_with}
use cogito_ai.Prelude.Text.Laws.{text_eq_sound}
use cogito_ai.Prelude.Results.{Result, ok, err, ok_injective, err-ne-ok, Result-cases}
use cogito_ai.Core.Errors.{Error}
use cogito_ai.Session.Compact.{is_empty}
use cogito_ai.Session.Events.{HarnessEvent}
use cogito_ai.Session.Records.{Json, Fault, write_event}
use cogito_ai.Session.Store.{
  Store, lookup, insert, is_separator, joined, session_path, check_append, write_record,
  append_event,
}
use cogito_ai.Session.Store.Laws.{check_contents_ok, check_append_ok}

insert-lookup :
    (path contents : Text) (files : List (Text × Text))
    → lookup path files ≡ some contents
    → insert path contents files ≡ files
unfolding lookup insert
insert-lookup path contents [] h = absurd (ground arith)
insert-lookup path contents ((p, old) ∷ files) h = elim (Bool-cases (text_eq p path)) [
  | inl e ↦
      let same : some old ≡ some contents = rw (lookup, e) at h in
      let same' : old ≡ contents = cc in rw (e, text_eq_sound p path e, same') refl
  | inr e ↦ rw (e, insert-lookup path contents files (rw (lookup, e) at h)) refl
]

-- What a write that fails leaves of the line in the file.
write_event_err :
    (json : Json) (fault : Fault) (event : HarnessEvent) (contents : Text) {x : Error}
    → (write_event json fault event contents).1 ≡ err x
    → ((write_event json fault event contents).0 ≡ contents)
      ⊎ ((n : ℕ) × (line : Text) × (json.to_string event ≡ ok line)
          × ((write_event json fault event contents).0 ≡ contents ++ take n (line ++ b'\n' ∷ [])))
unfolding write_event
write_event_err json none event contents h = elim (Result-cases (json.to_string event)) [
  | inl (m, e) ↦ inl (rw (write_event, e) refl)
  | inr (line, e) ↦ absurd (err-ne-ok (sym (rw (write_event, e) at h)))
]
write_event_err json (some (n, m)) event contents h = elim (Result-cases (json.to_string event)) [
  | inl (m', e) ↦ inl (rw (write_event, e) refl)
  | inr (line, e) ↦ inr (n, line, e, rw (write_event, e) refl)
]

write_record_err :
    (json : Json) (fault : Fault) (event : HarnessEvent) (id path contents : Text) (store : Store)
    {store' : Store} {x : Error}
    → session_path store.root id ≡ ok path
    → lookup path store.files ≡ some contents
    → write_record json fault event path contents store ≡ (store', err x)
    → (store' ≡ store)
      ⊎ ((path contents line : Text) × (n : ℕ) × (session_path store.root id ≡ ok path)
          × (lookup path store.files ≡ some contents)
          × (json.to_string event ≡ ok line)
          × (store' ≡ record store {
            files = insert path (contents ++ take n (line ++ b'\n' ∷ [])) store.files;
          }))
unfolding write_record
write_record_err json fault event id path contents store p l h =
    elim (Result-cases (write_event json fault event contents).1) [
      | inr (u, e) ↦ absurd (
          err-ne-ok
            (sym (ap (λ (r : Store × Result Error (Unit {0})). r.1) (rw (write_record, e) at h))))
      | inl (m, e) ↦
          let done =
            sym (ap (λ (r : Store × Result Error (Unit {0})). r.0) (rw (write_record, e) at h)) in
          elim (write_event_err json fault event contents e) [
            | inl w ↦ inl (
                done
                ∙ ap (λ (fs : List (Text × Text)). record store { files = fs })
                    (rw w (insert-lookup path contents store.files l)))
            | inr (n, line, s, w) ↦ inr (
              path,
              contents,
              line,
              n,
              p,
              l,
              s,
              done ∙ ap (λ (t : Text). record store { files = insert path t store.files }) w,
            )
          ]
    ]

-- An append that fails leaves the store as it was, or leaves some of the characters of the record's
-- line behind what the session's own file held; it publishes nothing.
pub append_event-failed :
    (json : Json) (fault : Fault) (store store' : Store) (id : Text) (event : HarnessEvent)
    (x : Error)
    → append_event json fault store id event ≡ (store', err x)
    → (store' ≡ store)
      ⊎ ((path contents line : Text) × (n : ℕ) × (session_path store.root id ≡ ok path)
          × (lookup path store.files ≡ some contents)
          × (json.to_string event ≡ ok line)
          × (store' ≡ record store {
            files = insert path (contents ++ take n (line ++ b'\n' ∷ [])) store.files;
          }))
unfolding append_event
append_event-failed json fault store store' id event x h =
    elim (Result-cases (check_append json store id event)) [
      | inl (m, e) ↦
          inl (sym (ap (λ (r : Store × Result Error (Unit {0})). r.0) (rw (append_event, e) at h)))
      | inr ((path, contents), e) ↦
          let (_, p, c) = check_append_ok json store id event e in
          let l = (check_contents_ok json store id event path _ c).0 in
          write_record_err json fault event id path contents store p l (rw (append_event, e) at h)
    ]

joined_injective : (root a b : Text) → joined root a ≡ joined root b → a ≡ b
unfolding joined
joined_injective root a b h = elim (Bool-cases (is_empty root || ends_with root (text "/"))) [
  | inl e ↦ append_cancel_left root a b (rw (joined, e) at h)
  | inr e ↦ append_cancel_left (text "/") a b (append_cancel_left root _ _ (rw (joined, e) at h))
]

session_path_ok :
    (root value : Text) {path : Text}
    → session_path root value ≡ ok path
    → ((is_empty value
          || text_eq value (text ".")
          || text_eq value (text "..")
          || any is_separator value)
        ≡ false)
      × (path ≡ joined root (value ++ text ".jsonl"))
unfolding session_path
session_path_ok root value h =
    elim (Bool-cases (
      is_empty value
      || text_eq value (text ".")
      || text_eq value (text "..")
      || any is_separator value)) [
        | inl e ↦ absurd (err-ne-ok (rw e at h))
        | inr e ↦ (e, sym (ok_injective (rw e at h)))
      ]

-- An identifier that names a file holds no separator, so that the file stands directly in the
-- directory of the sessions, and two identifiers that name the same file are equal.
pub session_path-one_file :
    (root a b : Text) {path : Text}
    → session_path root a ≡ ok path
    → session_path root b ≡ ok path
    → (any is_separator a ≡ false) × (path ≡ joined root (a ++ text ".jsonl")) × (a ≡ b)
session_path-one_file root a b h k =
    let (safe, p) = session_path_ok root a h in
    let (_, q) = session_path_ok root b k in
    let names = joined_injective root _ _ (sym p ∙ q) in
    (ground arith, p, append_cancel_right a b (text ".jsonl") names)
