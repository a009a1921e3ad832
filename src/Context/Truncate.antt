-- ===== src/Context/Truncate.antt =====
-- `truncate_bytes` and `summarize_shell_output` of crates/harness-context/src/lib.rs.
use cogito_ai.Prelude.{
  ℕ, zero, suc, ◌-◌, ◌≤◌, min, leb, ◌≡◌, arith, Bool, List, [], ◌∷◌, ◌++◌, filter, take, length,
  reverse, if◌then◌else◌, inl, inr, Bool-cases, refl, true, ◌⊎◌,
}
use cogito_ai.Prelude.Text.{
  Text, text, text_eq, len, slice_to, is_char_boundary, lines, join, decimal, contains_any,
  to_ascii_lowercase, starts_with,
}
use cogito_ai.Prelude.Text.Laws.{
  len-append, len-slice_to-le, starts_with-slice_to, starts_with_refl,
}

-- `while !value.is_char_boundary(end) { end = end.saturating_sub(1) }`; 0 is a boundary.
unfoldable pub floor_boundary : Text → ℕ → ℕ
floor_boundary value zero = zero
floor_boundary value (suc end) =
    let lower = floor_boundary value end in
    if is_char_boundary value (suc end) then suc end else lower

abbrev pub marker : Text
marker = b'\n' ∷ b'[' ∷ b't' ∷ b'r' ∷ b'u' ∷ b'n' ∷ b'c' ∷ b'a' ∷ b't' ∷ b'e' ∷ b'd' ∷ b']' ∷ []

unfoldable pub truncate_bytes : Text → ℕ → Text
truncate_bytes value max_bytes =
    if leb (len value) max_bytes
    then value
    else if leb max_bytes (len marker)
    then slice_to value (floor_boundary value (min max_bytes (len value)))
    else slice_to value (floor_boundary value (max_bytes - len marker)) ++ marker

pub floor_boundary-le : (value : Text) (end : ℕ) → floor_boundary value end ≤ end
unfolding floor_boundary
floor_boundary-le value zero = omega arith
floor_boundary-le value (suc end) = ground (arith, floor_boundary-le value end)

-- A truncated text has at most the given number of bytes, the marker included.
pub len-truncate_bytes-le :
    (value : Text) (max_bytes : ℕ) → len (truncate_bytes value max_bytes) ≤ max_bytes
unfolding truncate_bytes
len-truncate_bytes-le value max_bytes = elim (Bool-cases (leb (len value) max_bytes)) [
  | inl e ↦ rw (truncate_bytes, e) (ground arith)
  | inr e ↦ elim (Bool-cases (leb max_bytes (len marker))) [
    | inl f ↦
        rw (truncate_bytes, e, f)
          (omega (
            arith,
            len-slice_to-le value (floor_boundary value (min max_bytes (len value))),
            floor_boundary-le value (min max_bytes (len value)),
          ))
    | inr f ↦
        let room : len marker ≤ max_bytes = ground arith in
        rw
          (
            truncate_bytes,
            e,
            f,
            len-append (slice_to value (floor_boundary value (max_bytes - len marker))) marker,
          )
          (omega (
            arith,
            room,
            len-slice_to-le value (floor_boundary value (max_bytes - len marker)),
            floor_boundary-le value (max_bytes - len marker),
          ))
  ]
]

-- The lines that name a result, the first twenty of them.
is_diagnostic : Text → Bool
is_diagnostic line =
    contains_any (to_ascii_lowercase line)
      ("error" ∷ "failed" ∷ "failure" ∷ "warning" ∷ "passed" ∷ "test result" ∷ [])

-- `Vec::dedup`
unfoldable pub dedup_lines : List Text → List Text
dedup_lines [] = []
dedup_lines (l ∷ []) = l ∷ []
dedup_lines (l ∷ m ∷ ls) = let rest = dedup_lines (m ∷ ls) in if text_eq l m then rest else l ∷ rest

unfoldable pub selected_lines : List Text → List Text
unfolding is_diagnostic
selected_lines ls =
    dedup_lines (take 4 ls ++ (take 20 (filter is_diagnostic ls) ++ reverse (take 8 (reverse ls))))

unfoldable pub summarize_shell_output : Text → ℕ → Text
summarize_shell_output value max_bytes =
    if leb (len value) max_bytes
    then value
    else let ls = lines value in
      let selected = selected_lines ls in
      let omitted = length ls - length selected in
      truncate_bytes
        (text "[shell output summarized: "
          ++ (decimal (length ls)
              ++ (text " lines, omitted "
                  ++ (decimal omitted ++ (text "]\n" ++ join (text "\n") selected)))))
        max_bytes

-- A summary of the output of a shell has at most the given number of bytes.
pub len-summarize_shell_output-le :
    (value : Text) (max_bytes : ℕ) → len (summarize_shell_output value max_bytes) ≤ max_bytes
unfolding summarize_shell_output
len-summarize_shell_output-le value max_bytes = elim (Bool-cases (leb (len value) max_bytes)) [
  | inl e ↦ rw (summarize_shell_output, e) (ground arith)
  | inr e ↦ rw (summarize_shell_output, e) (len-truncate_bytes-le _ max_bytes)
]

-- A text is cut at a character boundary within the given number of bytes: what is left of it is a
-- front of it, and the marker follows if the text was too long and there is room for it.
pub truncate_bytes-front :
    (value : Text) (max_bytes : ℕ)
    → (front : Text) × (starts_with value front ≡ true)
      × ((truncate_bytes value max_bytes ≡ front)
          ⊎ (truncate_bytes value max_bytes ≡ front ++ marker))
unfolding truncate_bytes
truncate_bytes-front value max_bytes = elim (Bool-cases (leb (len value) max_bytes)) [
  | inl e ↦ (value, starts_with_refl value, inl (rw (truncate_bytes, e) refl))
  | inr e ↦ elim (Bool-cases (leb max_bytes (len marker))) [
    | inl f ↦ (
      slice_to value (floor_boundary value (min max_bytes (len value))),
      starts_with-slice_to value _,
      inl (rw (truncate_bytes, e, f) refl),
    )
    | inr f ↦ (
      slice_to value (floor_boundary value (max_bytes - len marker)),
      starts_with-slice_to value _,
      inr (rw (truncate_bytes, e, f) refl),
    )
  ]
]
