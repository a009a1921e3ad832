-- ===== src/Session/Records/Reading.antt =====
-- A session file reads back as the events that were written, also after an interrupted write.
use cogito_ai.Prelude.{
  ℕ, suc, ◌+◌, ◌≤◌, true, ◌≡◌, refl, List, [], ◌∷◌, ◌++◌, filter, length, All, append-nil,
  append_assoc, arith,
}
use cogito_ai.Prelude.Text.{Text, lines, lines_from, last_piece}
use cogito_ai.Prelude.Results.{Result, ok, err, ◌>>=◌}
use cogito_ai.Core.Errors.{Error}
use cogito_ai.Session.Events.{HarnessEvent}
use cogito_ai.Session.Records.{
  Json, SessionWarning, enumerate, is_record, numbered_records, last_number, read_from, read_events,
}
use cogito_ai.Session.Records.Laws.{
  IsSerialized, IsFile, trim-object, lines_from-line, lines_from-last,
}

-- The numbered records from a line on.
abbrev pub records : ℕ → Text → List (ℕ × Text)
records n contents = filter is_record (enumerate n (lines_from [] contents))

abbrev pub Read : Type 0
Read = Result Error (List HarnessEvent × List SessionWarning)

is_record-object : (n : ℕ) (s : Text) → (t : Text) × (s ≡ b'{' ∷ t) → is_record (n, s) ≡ true
unfolding is_record
is_record-object n s (t, e) = rw (e, trim-object t) refl

-- The first line of a file of records.
records-line :
    (json : Json) (e : HarnessEvent) (n : ℕ) (s rest : Text)
    → IsSerialized json e s
    → records n (s ++ b'\n' ∷ rest) ≡ (n, s) ∷ records (suc n) rest
unfolding enumerate filter
records-line json e n s rest w =
    rw (lines_from-line [] s rest tt w.on_line, is_record-object n s w.opened) refl

-- An unended last line.
pub records-last :
    (n : ℕ) (s : Text)
    → All (λ c. 32 ≤ c) s
    → (t : Text) × (s ≡ b'{' ∷ t)
    → records n s ≡ (n, s) ∷ []
unfolding enumerate filter
records-last n s h (t, e) =
    rw (lines_from-last [] s h (b'{', t, e), is_record-object n s (t, e)) refl

-- The events of a file in front of what is read behind it.
abbrev pub prepend : List HarnessEvent → Read → Read
prepend es (err x) = err x
prepend es (ok (events, warnings)) = ok (es ++ events, warnings)

prepend-nil : (r : Read) → r ≡ prepend [] r
prepend-nil (err x) = refl
prepend-nil (ok x) = refl

prepend-cons :
    (e : HarnessEvent) (es : List HarnessEvent) (r : Read)
    → (prepend es r >>= λ (x : List HarnessEvent × List SessionWarning). ok (e ∷ x.0, x.1))
      ≡ prepend (e ∷ es) r
prepend-cons e es (err x) = refl
prepend-cons e es (ok x) = refl

read_from-append :
    (json : Json) (path : Text) (last n : ℕ) (es : List HarnessEvent) (contents tail : Text)
    → IsFile json es contents
    → read_from json path last (records n (contents ++ tail))
      ≡ prepend es (read_from json path last (records (n + length es) tail))
unfolding read_from
read_from-append json path last n [] contents tail h =
    let same : n + 0 ≡ n = omega arith in
    rw (h, same) (prepend-nil (read_from json path last (records n tail)))
read_from-append json path last n (e ∷ es) contents tail (s, rest, w, c, f) =
    let next : n + suc (length es) ≡ suc n + length es = omega arith in
    rw
      (
        c,
        append_assoc s (b'\n' ∷ rest) tail,
        records-line json e n s (rest ++ tail) w,
        read_from,
        w.parsed,
        read_from-append json path last (suc n) es rest tail f,
        next,
      )
      (prepend-cons e es (read_from json path last (records (suc n + length es) tail)))

pub last_number-append :
    (json : Json) (n : ℕ) (es : List HarnessEvent) (contents tail : Text) (x : ℕ × Text)
    → IsFile json es contents
    → records (n + length es) tail ≡ x ∷ []
    → ((y : ℕ × Text) × (ys : List (ℕ × Text)) × (records n (contents ++ tail) ≡ y ∷ ys))
      × (last_number (records n (contents ++ tail)) ≡ x.0)
unfolding last_number
last_number-append json n [] contents tail x h r =
    let same : n + 0 ≡ n = omega arith in
    let one : records n (contents ++ tail) ≡ x ∷ [] = rw (h, (rw same at r)) refl in
    ((x, [], one), rw one refl)
last_number-append json n (e ∷ es) contents tail x (s, rest, w, c, f) r =
    let next : n + suc (length es) ≡ suc n + length es = omega arith in
    let ((y, ys, more), same) = last_number-append json (suc n) es rest tail x f (rw next at r) in
    let all : records n (contents ++ tail) ≡ (n, s) ∷ y ∷ ys =
      rw (c, append_assoc s (b'\n' ∷ rest) tail, records-line json e n s (rest ++ tail) w, more)
        refl in
    (((n, s), y ∷ ys, all), rw all (rw more at same))

pub read_events-append :
    (json : Json) (path : Text) (es : List HarnessEvent) (contents tail : Text)
    → IsFile json es contents
    → (last : ℕ) → last_number (numbered_records (contents ++ tail)) ≡ last
    → read_events json path (contents ++ tail)
      ≡ prepend es (read_from json path last (records (0 + length es) tail))
unfolding read_events numbered_records lines
read_events-append json path es contents tail f last h =
    rw (read_events, h, read_from-append json path last 0 es contents tail f) refl

-- If `serde_json` keeps its contract at every event, a file of their records reads back as exactly the
-- events, without a warning.
pub read_events-IsFile :
    (json : Json) (path : Text) (es : List HarnessEvent) (contents : Text)
    → IsFile json es contents
    → read_events json path contents ≡ ok (es, [])
unfolding read_from enumerate filter lines_from last_piece
read_events-IsFile json path es contents f =
    rw (append-nil contents, append-nil es) at
      (read_events-append json path es contents [] f _ refl)
