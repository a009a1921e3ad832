-- ===== src/Session/Records/Laws.antt =====
-- What is read back from a session file, the file that an interrupted write leaves included.
use cogito_ai.Prelude.{
  ℕ, ◌<◌, ◌≤◌, Bool, false, ◌≡◌, inl, inr, refl, ◌∙◌, List, [], ◌∷◌, ◌++◌, ◌==◌, take, length, All,
  append-nil, append_assoc, reverse, arith, Bool-cases,
}
use mathlib.Core.List.{reverse-cons, reverse-append, reverse_aux-eq}
use cogito_ai.Prelude.Text.{
  Text, is_whitespace, trim, trim_matches, trim_start_matches, trim_end_matches, lines_from,
  drop_return, last_piece,
}
use cogito_ai.Prelude.Results.{ok, err}
use cogito_ai.Session.Events.{HarnessEvent}
use cogito_ai.Session.Compact.{is_empty}
use cogito_ai.Session.Records.{Json}

-- What the store relies on of `serde_json` at one event: its record reads back as the event, is an
-- object, holds no control character, and no proper part of its front reads as an event.
pub record IsSerialized (json : Json) (event : HarnessEvent) (s : Text) : Type 0 where
  pub printed : json.to_string event ≡ ok s
  pub parsed : json.from_str s ≡ ok event
  pub on_line : All (λ c. 32 ≤ c) s
  pub opened : (t : Text) × (s ≡ b'{' ∷ t)
  pub torn : (n : ℕ) → n < length s → (m : Text) × (json.from_str (take n s) ≡ err m)

-- The file of the events: the record of each on a line.
abbrev pub IsFile : Json → List HarnessEvent → Text → Type 0
IsFile json [] contents = contents ≡ []
IsFile json (e ∷ es) contents =
    (s : Text) × (rest : Text) × IsSerialized json e s
    × (contents ≡ s ++ b'\n' ∷ rest)
    × IsFile json es rest

trim_start_matches-snoc :
    (p : ℕ → Bool) (s : Text) (c : ℕ)
    → p c ≡ false
    → (t : Text) × (trim_start_matches p (s ++ c ∷ []) ≡ t ++ c ∷ [])
unfolding trim_start_matches
trim_start_matches-snoc p [] c h = ([], rw h refl)
trim_start_matches-snoc p (d ∷ s) c h =
    let (t, e) = trim_start_matches-snoc p s c h in
    elim (Bool-cases (p d)) [ inl k ↦ (t, rw k e) | inr k ↦ (d ∷ s, rw k refl) ]

-- A text that starts with a brace is not blank.
pub trim-object : (t : Text) → is_empty (trim (b'{' ∷ t)) ≡ false
unfolding trim trim_matches trim_start_matches trim_end_matches is_whitespace is_empty
trim-object t =
    let (u, e) = trim_start_matches-snoc is_whitespace (reverse t) b'{' refl in
    rw (reverse_aux-eq t (b'{' ∷ []), e, reverse-append u (b'{' ∷ [])) refl

drop_return-plain : (s : Text) → All (λ c. 32 ≤ c) s → drop_return s ≡ s
unfolding drop_return
drop_return-plain [] h = refl
drop_return-plain (c ∷ s) (h, _) = let other : (c == 13) ≡ false = ground arith in rw other refl

-- A line that a line feed ends, and one that the file ends with.
pub lines_from-line :
    (p s rest : Text)
    → All (λ c. 32 ≤ c) p
    → All (λ c. 32 ≤ c) s
    → lines_from p (s ++ b'\n' ∷ rest) ≡ (reverse p ++ s) ∷ lines_from [] rest
unfolding lines_from
lines_from-line p [] rest h k = rw (drop_return-plain p h, append-nil (reverse p)) refl
lines_from-line p (c ∷ s) rest h (k, ks) =
    let other : (c == 10) ≡ false = ground arith in
    rw
      (
        other,
        lines_from-line (c ∷ p) s rest (k, h) ks,
        reverse-cons c p,
        append_assoc (reverse p) (c ∷ []) s,
      )
      refl

pub lines_from-last :
    (p s : Text)
    → All (λ c. 32 ≤ c) s
    → (c : ℕ) × (t : Text) × (reverse p ++ s ≡ c ∷ t)
    → lines_from p s ≡ (reverse p ++ s) ∷ []
unfolding lines_from last_piece
lines_from-last [] [] k (c, t, e) = absurd (ground arith)
lines_from-last (d ∷ p) [] k e = rw (append-nil (reverse (d ∷ p))) refl
lines_from-last p (c ∷ s) (k, ks) (d, t, e) =
    let other : (c == 10) ≡ false = ground arith in
    let same : reverse (c ∷ p) ++ s ≡ reverse p ++ c ∷ s =
      rw (reverse-cons c p, append_assoc (reverse p) (c ∷ []) s) refl in
    rw (other, lines_from-last (c ∷ p) s ks (d, t, same ∙ e), same) refl
