-- ===== src/Agent/History/Laws.antt =====
-- A text of the history is cut to its bytes, and its tail starts at a boundary of characters.
use cogito_ai.Prelude.{
  ℕ, zero, suc, ◌+◌, ◌-◌, ◌≤◌, ◌≡◌, ◌⊎◌, inl, inr, refl, min, Bool, true, false, ◌||◌, [], ◌∷◌, leb,
  ltb, ◌==◌, if◌then◌else◌, if_lem, Bool-cases, leb→le, arith,
}
use cogito_ai.Prelude.Text.{Text, len, is_char_boundary, utf8_width, slice_to}
use cogito_ai.Prelude.Text.Laws.{len-slice_to-le}
use cogito_ai.Context.Truncate.{floor_boundary, floor_boundary-le}
use cogito_ai.Agent.History.{ceil_from, ceil_boundary, around_marker, truncate_history_text}

-- A text of the history is cut to at most the given number of bytes.
pub len-truncate_history_text-le :
    (value : Text) (max_bytes : ℕ) → len (truncate_history_text value max_bytes) ≤ max_bytes
unfolding truncate_history_text len
len-truncate_history_text-le value max_bytes =
    let fits : Text → Type 0 = λ t. len t ≤ max_bytes in
    let result = around_marker value max_bytes in
    elim (Bool-cases (leb (len value) max_bytes)) [
      | inl e ↦ rw (truncate_history_text, e) (leb→le (len value) max_bytes e)
      | inr e ↦
          rw (truncate_history_text, e)
            (if_lem fits (max_bytes == 0) (omega arith)
              (cut result (Bool-cases (ltb max_bytes (len result)))))
    ]
  where
    cut :
        (result : Text)
        → ((ltb max_bytes (len result) ≡ true) ⊎ (ltb max_bytes (len result) ≡ false))
        → len (
            if ltb max_bytes (len result)
            then slice_to result (floor_boundary result (min max_bytes (len result)))
            else result)
          ≤ max_bytes
    cut result (inl e) = rw e (
        omega (
          arith,
          len-slice_to-le result (floor_boundary result (min max_bytes (len result))),
          floor_boundary-le result (min max_bytes (len result)),
        ))
    cut result (inr e) = rw e (ground arith)

-- The search for the start of a tail ends at a boundary of the text.
len_boundary : (value : Text) → is_char_boundary value (len value) ≡ true
unfolding is_char_boundary len
len_boundary [] = refl
len_boundary (c ∷ value) =
    let rest : utf8_width c + len value - utf8_width c ≡ len value = omega arith in
    let room : leb (utf8_width c) (utf8_width c + len value) ≡ true = ground arith in
    rw (rest, room, len_boundary value) (any_or ((utf8_width c + len value) == 0))
  where
    any_or : (b : Bool) → (b || true) ≡ true
    any_or b = ground arith

ceil_from-boundary :
    (value : Text) (fuel start : ℕ)
    → start + fuel ≡ len value
    → is_char_boundary value (ceil_from value fuel start) ≡ true
unfolding ceil_from
ceil_from-boundary value zero start h =
    let same : start ≡ len value = omega arith in rw same (len_boundary value)
ceil_from-boundary value (suc fuel) start h = elim (Bool-cases (is_char_boundary value start)) [
  | inl e ↦ rw (ceil_from, e) e
  | inr e ↦ rw (ceil_from, e) (ceil_from-boundary value fuel (start + 1) (omega arith))
]

pub ceil_boundary-boundary :
    (value : Text) (start : ℕ)
    → start ≤ len value
    → is_char_boundary value (ceil_boundary value start) ≡ true
unfolding ceil_boundary
ceil_boundary-boundary value start h =
    ceil_from-boundary value (len value - start) start (omega arith)
