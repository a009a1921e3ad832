-- ===== src/Session/Records/Interrupted.antt =====
-- What a write leaves in a session file, and what is read from it if the write was cut off.
use cogito_ai.Prelude.{
  ℕ, zero, suc, ◌+◌, ◌<◌, ◌≤◌, true, ◌≡◌, ◌⊎◌, inl, inr, refl, ap, List, [], ◌∷◌, ◌++◌, ◌==◌, take,
  length, All, append-nil, append_assoc, arith, ltb, Bool-cases,
}
use cogito_ai.Prelude.Text.{Text, lines, lines_from}
use cogito_ai.Prelude.Results.{ok, err}
use cogito_ai.Session.Events.{HarnessEvent}
use cogito_ai.Session.Records.{Json, trailing, numbered_records, read_from, read_events}
use cogito_ai.Session.Records.Laws.{IsSerialized, IsFile}
use cogito_ai.Session.Records.Reading.{
  records, prepend, records-last, last_number-append, read_events-append, read_events-IsFile,
}

take_all : (n : ℕ) (s : Text) → length s ≤ n → take n s ≡ s
take_all zero [] h = refl
take_all zero (c ∷ s) h = absurd (omega arith)
take_all (suc n) [] h = refl
take_all (suc n) (c ∷ s) h = ap (λ (t : Text). c ∷ t) (take_all n s (omega arith))

take_front : (n : ℕ) (s t : Text) → n ≤ length s → take n (s ++ t) ≡ take n s
take_front zero s t h = refl
take_front (suc n) [] t h = absurd (omega arith)
take_front (suc n) (c ∷ s) t h = ap (λ (u : Text). c ∷ u) (take_front n s t (omega arith))

All-take : (P : ℕ → Type 0) (n : ℕ) (s : Text) → All P s → All P (take n s)
All-take P zero s h = tt
All-take P (suc n) [] h = tt
All-take P (suc n) (c ∷ s) (p, h) = (p, All-take P n s h)

length-line : (s : Text) → length (s ++ b'\n' ∷ []) ≡ suc (length s)
length-line [] = refl
length-line (c ∷ s) = ap suc (length-line s)

==_refl : (n : ℕ) → (n == n) ≡ true
==_refl n = ground arith

-- A file that has grown by a record.
pub IsFile-snoc :
    (json : Json) (es : List HarnessEvent) (contents : Text) (e : HarnessEvent) (s : Text)
    → IsFile json es contents
    → IsSerialized json e s
    → IsFile json (es ++ e ∷ []) (contents ++ (s ++ b'\n' ∷ []))
IsFile-snoc json [] contents e s f w = (s, [], w, rw f refl, refl)
IsFile-snoc json (x ∷ es) contents e s (t, rest, v, c, f) w = (
  t,
  rest ++ (s ++ b'\n' ∷ []),
  v,
  rw (c, append_assoc t (b'\n' ∷ rest) (s ++ b'\n' ∷ [])) refl,
  IsFile-snoc json es rest e s f w,
)

-- The file with one more line that no line feed ends.
read_events-last :
    (json : Json) (path : Text) (es : List HarnessEvent) (contents t : Text)
    → IsFile json es contents
    → All (λ c. 32 ≤ c) t
    → (u : Text) × (t ≡ b'{' ∷ u)
    → read_events json path (contents ++ t)
      ≡ prepend es (read_from json path (length es) ((length es, t) ∷ []))
unfolding numbered_records lines lines_from
read_events-last json path es contents t f h o =
    let none_before : 0 + length es ≡ length es = omega arith in
    let one : records (0 + length es) t ≡ (length es, t) ∷ [] =
      rw none_before (records-last (length es) t h o) in
    rw one at (
      read_events-append json path es contents t f (length es)
        (last_number-append json 0 es contents t (length es, t) f one).1)

read_from-torn :
    (json : Json) (path : Text) (k : ℕ) (t m : Text)
    → json.from_str t ≡ err m
    → read_from json path k ((k, t) ∷ []) ≡ ok ([], trailing k m ∷ [])
unfolding read_from trailing
read_from-torn json path k t m h = rw (read_from, h, ==_refl k) refl

read_from-whole :
    (json : Json) (path : Text) (k : ℕ) (t : Text) (e : HarnessEvent)
    → json.from_str t ≡ ok e
    → read_from json path k ((k, t) ∷ []) ≡ ok (e ∷ [], [])
unfolding read_from
read_from-whole json path k t e h = rw (read_from, h) refl

read_events-torn :
    (json : Json) (path : Text) (es : List HarnessEvent) (contents : Text) (e : HarnessEvent)
    (s : Text) (n : ℕ)
    → IsFile json es contents
    → IsSerialized json e s
    → suc n < length s
    → (m : Text) × (read_events json path (contents ++ take (suc n) (s ++ b'\n' ∷ []))
        ≡ ok (es, trailing (length es) m ∷ []))
read_events-torn json path es contents e s n f w h =
    let (m, bad) = w.torn (suc n) h in
    let front : take (suc n) s ≡ b'{' ∷ take n w.opened.0 =
      ap (λ (t : Text). take (suc n) t) w.opened.1 in
    let last =
      read_events-last json path es contents (take (suc n) s) f (All-take _ (suc n) s w.on_line)
        (take n w.opened.0, front) in
    (
      m,
      rw
          (
            take_front (suc n) s (b'\n' ∷ []) (omega arith),
            last,
            read_from-torn json path (length es) (take (suc n) s) m bad,
            append-nil es,
          )
          refl,
    )

read_events-whole :
    (json : Json) (path : Text) (es : List HarnessEvent) (contents : Text) (e : HarnessEvent)
    (s : Text) (n : ℕ)
    → IsFile json es contents
    → IsSerialized json e s
    → length s ≤ n
    → read_events json path (contents ++ take n (s ++ b'\n' ∷ [])) ≡ ok (es ++ e ∷ [], [])
read_events-whole json path es contents e s n f w h = elim (Bool-cases (ltb (length s) n)) [
  | inl k ↦
      rw (take_all n (s ++ b'\n' ∷ []) (rw (length-line s) (ground arith)))
        (read_events-IsFile json path (es ++ e ∷ []) _ (IsFile-snoc json es contents e s f w))
  | inr k ↦
      rw
        (
          take_front n s (b'\n' ∷ []) (ground arith),
          take_all n s h,
          read_events-last json path es contents s f w.on_line w.opened,
          read_from-whole json path (length es) s e w.parsed,
        )
        refl
]

-- If the file holds the records of the earlier events and `serde_json` keeps its contract at the
-- event, a write that was cut off after some characters of its line loses no earlier event: nothing
-- of it is read if nothing was written; a part of the record is left out with a warning that names
-- its line; and the whole record is read, also without its line feed.
pub read_events-interrupted :
    (json : Json) (path : Text) (es : List HarnessEvent) (contents : Text) (e : HarnessEvent)
    (s : Text) (n : ℕ)
    → IsFile json es contents
    → IsSerialized json e s
    → ((n ≡ 0) × (read_events json path (contents ++ take n (s ++ b'\n' ∷ [])) ≡ ok (es, [])))
      ⊎ ((0 < n)
          × (n < length s)
          × (m : Text) × (read_events json path (contents ++ take n (s ++ b'\n' ∷ []))
              ≡ ok (es, trailing (length es) m ∷ [])))
      ⊎ ((length s ≤ n)
          × (read_events json path (contents ++ take n (s ++ b'\n' ∷ [])) ≡ ok (es ++ e ∷ [], [])))
read_events-interrupted json path es contents e s zero f w =
    inl (refl, rw (append-nil contents) (read_events-IsFile json path es contents f))
read_events-interrupted json path es contents e s (suc n) f w =
    elim (Bool-cases (ltb (suc n) (length s))) [
      | inl h ↦
          let (m, r) = read_events-torn json path es contents e s n f w (ground arith) in
          inr (inl (omega arith, ground arith, m, r))
      | inr h ↦ inr (
          inr
            (ground arith, read_events-whole json path es contents e s (suc n) f w (ground arith)))
    ]
