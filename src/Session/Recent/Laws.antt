-- ===== src/Session/Recent/Laws.antt =====
-- The list of recent sessions: its length, the length of a title, and what one broken session does.
use cogito_ai.Prelude.{
  ℕ, suc, ◌≤◌, ◌≡◌, ◌≢◌, refl, ap, subst, Bool, false, Option, none, some, List, [], ◌∷◌, ◌++◌,
  Memᴰ, take, drop, length, length-take, length-append, reverse, arith, min, ◌==◌, inl, inr,
  Bool-cases, sort_by,
}
use mathlib.Core.List.{reverse-cons}
use cogito_ai.Prelude.Text.{Text, is_whitespace, trim_start_matches, trim_end_matches}
use cogito_ai.Prelude.Results.{ok, err, bind_ok, ok_injective, Result-cases}
use cogito_ai.Core.Errors.{Error}
use cogito_ai.Core.Ids.{new_id}
use cogito_ai.Session.Compact.{is_empty}
use cogito_ai.Session.Events.{HarnessEvent}
use cogito_ai.Session.Replay.{reconstruct_state}
use cogito_ai.Session.Records.{Json}
use cogito_ai.Session.Store.{Session, Store, load}
use cogito_ai.Session.Recent.{
  SessionSummary, first_task, shorten, title_of, session_title, summarize, summaries, summary_le,
  recent,
}

summarize-broken :
    (json : Json) (store : Store) (id : Text) (s : Session) {x : Error}
    → load json store id ≡ ok s
    → reconstruct_state s.id s.events ≡ err x
    → summarize json store id ≡ err x
unfolding summarize
summarize-broken json store id s h k = rw (summarize, h, k) refl

summaries-broken :
    (json : Json) (store : Store) (stems : List Text) (stem id : Text) (x : Error)
    → Memᴰ stem stems
    → new_id stem ≡ ok id
    → summarize json store id ≡ err x
    → (y : Error) × (summaries json store stems ≡ err y)
unfolding summaries
summaries-broken json store [] stem id x m n b = elim m [ ]
summaries-broken json store (s ∷ stems) stem id x (Memᴰ.head e) n b =
    let same : new_id s ≡ ok id = rw (← e) n in (x, rw (summaries, same, b) refl)
summaries-broken json store (s ∷ stems) stem id x (Memᴰ.tail m) n b =
    let (y, rest) = summaries-broken json store stems stem id x m n b in
    elim (Result-cases (new_id s)) [
      | inl (z, e) ↦ (y, rw (summaries, e) rest)
      | inr (i, e) ↦ elim (Result-cases (summarize json store i)) [
        | inl (z, f) ↦ (z, rw (summaries, e, f) refl)
        | inr (w, f) ↦ (y, rw (summaries, e, f, rest) refl)
      ]
    ]

-- If the limit is not 0 and one file of the directory is a session that loads but has no state, no list
-- of recent sessions is returned, whatever the other files hold.
pub recent-broken :
    (json : Json) (store : Store) (limit : ℕ) (stems : List Text) (stem id : Text) (s : Session)
    (x : Error)
    → (limit == 0) ≡ false
    → Memᴰ stem stems
    → new_id stem ≡ ok id
    → load json store id ≡ ok s
    → reconstruct_state s.id s.events ≡ err x
    → (y : Error) × (recent json store limit stems ≡ err y)
unfolding recent
recent-broken json store limit stems stem id s x l m n h k =
    let (y, b) =
      summaries-broken json store stems stem id x m n (summarize-broken json store id s h k) in
    (y, rw (recent, l, b) refl)

-- A list of recent sessions has at most the given number of entries.
pub length-recent-le :
    (json : Json) (store : Store) (limit : ℕ) (stems : List Text) {xs : List SessionSummary}
    → recent json store limit stems ≡ ok xs
    → length xs ≤ limit
unfolding recent
length-recent-le json store limit stems {xs} h = elim (Bool-cases (limit == 0)) [
  | inl e ↦
      let same = ap (λ (l : List SessionSummary). length l) (ok_injective (rw (recent, e) at h)) in
      omega (arith, same)
  | inr e ↦
      let (all, _, h1) = bind_ok (summaries json store stems) _ (rw (recent, e) at h) in
      let same = ap (λ (l : List SessionSummary). length l) (ok_injective h1) in
      omega (arith, same, length-take limit (sort_by summary_le all))
]

length-trim_start_matches-le :
    (p : ℕ → Bool) (s : Text) → length (trim_start_matches p s) ≤ length s
unfolding trim_start_matches
length-trim_start_matches-le p [] = omega arith
length-trim_start_matches-le p (c ∷ s) = ground (arith, length-trim_start_matches-le p s)

length-reverse : (s : Text) → length (reverse s) ≡ length s
length-reverse [] = refl
length-reverse (c ∷ s) =
    rw (reverse-cons c s, length-append (reverse s) (c ∷ []), length-reverse s) (omega arith)

length-trim_end_matches-le : (p : ℕ → Bool) (s : Text) → length (trim_end_matches p s) ≤ length s
unfolding trim_end_matches
length-trim_end_matches-le p s = omega (
  arith,
  length-reverse s,
  length-reverse (trim_start_matches p (reverse s)),
  length-trim_start_matches-le p (reverse s),
)

length-ellipsis :
    (s : Text) (n : ℕ)
    → length s ≤ n
    → (s ++ 0x2026 ∷ [] ≢ []) × (length (s ++ 0x2026 ∷ []) ≤ suc n)
length-ellipsis [] n h = (λ e. absurd (ground arith), omega arith)
length-ellipsis (c ∷ s) n h =
    (λ e. absurd (ground arith), omega (arith, length-append s (0x2026 ∷ [])))

some_injective : {x y : Text} → ◌≡◌ {A = Option Text} (some x) (some y) → x ≡ y
some_injective e = cc

shorten_ok : (s : Text) {t : Text} → shorten s ≡ some t → (t ≢ []) × (length t ≤ 65)
unfolding shorten is_empty
shorten_ok [] h = absurd (ground arith)
shorten_ok (c ∷ s) {t} h = elim (Bool-cases (is_empty (drop 63 s))) [
  | inl e ↦
      subst (λ (u : Text). (u ≢ []) × (length u ≤ 65)) (some_injective (rw (shorten, e) at h))
        (short (length-take 63 s))
  | inr e ↦
      subst (λ (u : Text). (u ≢ []) × (length u ≤ 65)) (some_injective (rw (shorten, e) at h))
        (length-ellipsis (trim_end_matches is_whitespace (c ∷ take 63 s)) 64 (
          omega
            (arith, length-trim_end_matches-le is_whitespace (c ∷ take 63 s), length-take 63 s)))
]
  where
    short :
        length (take 63 s) ≡ min 63 (length s)
        → (c ∷ take 63 s ≢ []) × (length (c ∷ take 63 s) ≤ 65)
    short k = (λ q. absurd (ground arith), omega (arith, k))

-- A session has a title only if it has a user message; the title is not empty and has at most 65
-- characters, the ellipsis included.
pub length-session_title-le :
    (events : List HarnessEvent) {t : Text}
    → session_title events ≡ some t
    → (first_task events ≢ none) × (t ≢ []) × (length t ≤ 65)
unfolding session_title title_of
length-session_title-le events {t} h = go (first_task events) h
  where
    go : (o : Option Text) → title_of o ≡ some t → (o ≢ none) × (t ≢ []) × (length t ≤ 65)
    go none h' = absurd (ground arith)
    go (some content) h' =
        let (filled, short) = shorten_ok _ h' in (λ e. absurd (ground arith), filled, short)
