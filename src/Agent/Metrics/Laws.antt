-- ===== src/Agent/Metrics/Laws.antt =====
-- The two lists of a run's turns stay in step, and results that are shown have at most 16384 bytes.
use cogito_ai.Prelude.{
  ℕ, ◌-◌, ◌≤◌, ◌≡◌, refl, min, Bool, true, false, ◌||◌, Option, none, some, List, [], ◌∷◌, length,
  length-append, inl, inr, Bool-cases, leb, ltb, if_lem, arith,
}
use cogito_ai.Prelude.Text.{Text, len, utf8_width, slice_to, ends_with}
use cogito_ai.Prelude.Text.Laws.{len-append, len-slice_to-le}
use cogito_ai.Session.Tasks.{ContextMetrics}
use cogito_ai.Context.Truncate.{
  floor_boundary, floor_boundary-le, marker, len-summarize_shell_output-le,
}
use cogito_ai.Agent.Metrics.{
  removed_turn, push_turn, push_removed, record_context_request, set_last, record_context_response,
  max_result_bytes, with_marker, bound_tool_result_output,
}

-- As many reports as estimates, at most one for each of 512 turns.
pub record AreInStep (metrics : ContextMetrics) : Type 0 where
  pub same :
      length metrics.reported_input_tokens_per_turn ≡ length metrics.estimated_tokens_per_turn
  pub short : length metrics.estimated_tokens_per_turn ≤ 512

push_turn-AreInStep :
    (metrics : ContextMetrics) (tokens reused : ℕ) (estimated : List ℕ) (reported : List (Option ℕ))
    → length reported ≡ length estimated
    → length estimated ≤ 511
    → AreInStep (push_turn metrics tokens reused estimated reported)
push_turn-AreInStep metrics tokens reused estimated reported h k = record {
  same = omega (arith, length-append reported (none ∷ []), length-append estimated (tokens ∷ []));
  short = omega (arith, length-append estimated (tokens ∷ []));
}

removed-AreInStep :
    (metrics : ContextMetrics) (tokens reused : ℕ) (estimated : List ℕ) (reported : List (Option ℕ))
    → length reported ≡ length estimated
    → length estimated ≤ 512
    → 512 ≤ length estimated
    → (next : ContextMetrics) × (push_removed metrics tokens reused
          (removed_turn estimated reported)
        ≡ some next)
      × AreInStep next
unfolding removed_turn
removed-AreInStep metrics tokens reused [] reported h k l = absurd (omega arith)
removed-AreInStep metrics tokens reused (x ∷ estimated) [] h k l = absurd (omega arith)
removed-AreInStep metrics tokens reused (x ∷ estimated) (y ∷ reported) h k l = (
  push_turn metrics tokens reused estimated reported,
  refl,
  push_turn-AreInStep metrics tokens reused estimated reported (omega arith) (omega arith),
)

record_context_request-AreInStep :
    (metrics : ContextMetrics) (tokens reused : ℕ)
    → AreInStep metrics
    → (next : ContextMetrics) × (record_context_request metrics tokens reused ≡ some next)
      × AreInStep next
unfolding record_context_request
record_context_request-AreInStep metrics tokens reused h =
    let estimated = metrics.estimated_tokens_per_turn in
    let reported = metrics.reported_input_tokens_per_turn in
    elim (Bool-cases (leb 512 (length estimated))) [
      | inl e ↦
          rw (record_context_request, e)
            (removed-AreInStep metrics tokens reused estimated reported h.same h.short
              (ground arith))
      | inr e ↦
          rw (record_context_request, e)
            (
              push_turn metrics tokens reused estimated reported,
              refl,
              push_turn-AreInStep metrics tokens reused estimated reported h.same (ground arith),
            )
    ]

length-set_last : (l : List (Option ℕ)) (v : Option ℕ) → length (set_last l v) ≡ length l
unfolding set_last
length-set_last [] v = refl
length-set_last (_ ∷ []) v = refl
length-set_last (x ∷ y ∷ l) v = omega (arith, length-set_last (y ∷ l) v)

-- A turn with the model: its request is recorded and then its response.
abbrev pub recorded_turn : ContextMetrics → ℕ → ℕ → Option ℕ → Option ContextMetrics
recorded_turn metrics tokens reused response = elim (record_context_request metrics tokens reused) [
  | none ↦ none
  | some next ↦ some (record_context_response next response)
]

abbrev pub recorded_turns : ContextMetrics → List (ℕ × ℕ × Option ℕ) → Option ContextMetrics
recorded_turns metrics [] = some metrics
recorded_turns metrics ((tokens, reused, response) ∷ turns) =
    elim (recorded_turn metrics tokens reused response) [
      | none ↦ none
      | some next ↦ recorded_turns next turns
    ]

-- If there are as many reports as estimates and at most 512 of each, any number of turns is recorded
-- without a panic, and this still holds.
pub recorded_turns-AreInStep :
    (turns : List (ℕ × ℕ × Option ℕ)) (metrics : ContextMetrics)
    → AreInStep metrics
    → (last : ContextMetrics) × (recorded_turns metrics turns ≡ some last) × AreInStep last
unfolding record_context_response
recorded_turns-AreInStep [] metrics h = (metrics, refl, h)
recorded_turns-AreInStep ((tokens, reused, response) ∷ turns) metrics h =
    let (next, e, k) = record_context_request-AreInStep metrics tokens reused h in
    let answered : AreInStep (record_context_response next response) = record {
      same = omega (arith, length-set_last next.reported_input_tokens_per_turn response, k.same);
      short = k.short;
    } in
    rw (recorded_turns, recorded_turn, e)
      (recorded_turns-AreInStep turns (record_context_response next response) answered)

marker_fits : len marker ≤ max_result_bytes
unfolding len utf8_width
marker_fits = omega arith

-- A result of a tool that is shown to the model has at most 16384 bytes, its marker included, whether
-- it comes from a shell or not.
pub len-bound_tool_result_output-le :
    (output : Text) (already_truncated is_shell : Bool)
    → len (bound_tool_result_output output already_truncated is_shell).0 ≤ max_result_bytes
unfolding bound_tool_result_output with_marker
len-bound_tool_result_output-le output already_truncated true =
    len-summarize_shell_output-le output max_result_bytes
len-bound_tool_result_output-le output already_truncated false =
    elim (Bool-cases (already_truncated || ltb max_result_bytes (len output))) [
      | inl e ↦
          let cut =
            slice_to output
              (floor_boundary output (min (len output) (max_result_bytes - len marker))) in
          let room : len cut ≤ max_result_bytes - len marker = omega (
            arith,
            len-slice_to-le output
                (floor_boundary output (min (len output) (max_result_bytes - len marker))),
            floor_boundary-le output (min (len output) (max_result_bytes - len marker)),
          ) in
          rw e (
            if_lem (λ (t : Text). len t ≤ max_result_bytes) (ends_with cut marker) (omega arith)
              (omega (arith, len-append cut marker, marker_fits)))
      | inr e ↦ rw e (ground arith)
    ]
