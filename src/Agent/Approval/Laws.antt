-- ===== src/Agent/Approval/Laws.antt =====
-- What a set of one-shot approvals lets through.
use cogito_ai.Prelude.{
  ℕ, ◌+◌, ◌≤◌, ◌≡◌, refl, ap, ◌∙◌, Bool, true, false, not, ◌&&◌, ◌||◌, List, [], ◌∷◌, any, filter,
  inl, inr, Bool-cases, and-eq-true, if◌then◌else◌, arith,
}
use cogito_ai.Prelude.Text.{Text, text_eq}
use cogito_ai.Prelude.Text.Laws.{text_eq_sound, text_eq_refl}
use cogito_ai.Policy.Types.{PolicyDecision, PolicyRequest, PolicyEvaluation}
use cogito_ai.Policy.Access.{Policy}
use cogito_ai.Agent.Approval.{
  has_key, insert_key, remove_key, is_ask, approval, approval_key_from_request, approved_evaluate,
  grant,
}

has_key-insert_key :
    (approved : List Text) (key k : Text)
    → has_key k (insert_key approved key) ≡ (text_eq k key || has_key k approved)
unfolding insert_key any
has_key-insert_key approved key k = elim (Bool-cases (has_key key approved)) [
  | inl e ↦ elim (Bool-cases (text_eq k key)) [
    | inl f ↦ let same : k ≡ key = text_eq_sound k key f in rw (same, e, text_eq_refl key) e
    | inr f ↦ rw (e, f) refl
  ]
  | inr e ↦ rw e refl
]

has_key-remove_key :
    (key k : Text) (approved : List Text)
    → has_key k (remove_key key approved) ≡ (not (text_eq k key) && has_key k approved)
unfolding remove_key any filter
has_key-remove_key key k [] = ground arith
has_key-remove_key key k (x ∷ approved) =
    let rest = has_key-remove_key key k approved in
    elim (Bool-cases (text_eq key x)) [
      | inl e ↦
          let same : key ≡ x = text_eq_sound key x e in rw (e, rest) (rw (← same) (ground arith))
      | inr e ↦ elim (Bool-cases (text_eq k key)) [
        | inl f ↦ let same : k ≡ key = text_eq_sound k key f in rw (e, rest, f) (rw (same, e) refl)
        | inr f ↦ rw (e, rest, f) refl
      ]
    ]

-- What happens to the approvals of a run: the user approves a tool call, which makes some requests,
-- or a tool asks for the evaluation of a request.
pub data Step : Type 0 where
  granted : (requests : List PolicyRequest) → Step
  asked : (q : PolicyRequest) → Step

module _ (request_json : PolicyRequest → Text) (base : Policy) where
  -- The evaluations that the tools get.
  abbrev pub answers : List Text → List Step → List PolicyEvaluation
  answers approved [] = []
  answers approved (granted requests ∷ steps) = answers (grant request_json approved requests) steps
  answers approved (asked q ∷ steps) =
      let (result, left) = approved_evaluate request_json base approved q in
      result ∷ answers left steps

  -- The same of an abstract set of keys: an approval adds the keys of its requests, and a request that
  -- the base policy asks about is allowed if its key is in the set, and takes it out.
  abbrev pub AbstractSet : Type 0
  AbstractSet = Text → Bool

  abbrev pub add_keys : AbstractSet → List PolicyRequest → AbstractSet
  add_keys keys requests k = any (λ q. text_eq k (request_json q)) requests || keys k

  abbrev pub take_key : AbstractSet → Text → AbstractSet
  take_key keys key k = not (text_eq k key) && keys k

  abbrev pub abstract_answers : AbstractSet → List Step → List PolicyEvaluation
  abstract_answers keys [] = []
  abstract_answers keys (granted requests ∷ steps) = abstract_answers (add_keys keys requests) steps
  abstract_answers keys (asked q ∷ steps) =
      let used = is_ask (base.evaluate q).decision && keys (request_json q) in
      let left = abstract_answers (take_key keys (request_json q)) steps in
      let same = abstract_answers keys steps in
      if used then approval ∷ left else base.evaluate q ∷ same

  has_key-grant :
      (requests : List PolicyRequest) (approved : List Text) (k : Text)
      → has_key k (grant request_json approved requests)
        ≡ add_keys (λ x. has_key x approved) requests k
  unfolding grant approval_key_from_request any
  has_key-grant [] approved k = refl
  has_key-grant (q ∷ requests) approved k =
      rw
        (
          has_key-grant requests (insert_key approved (request_json q)) k,
          has_key-insert_key approved (request_json q) k,
        )
        (ground arith)

  -- The set of approvals behaves as the abstract set, in every sequence of approvals and requests.
  pub answers-abstract_answers :
      (steps : List Step) (approved : List Text)
      → answers approved steps ≡ abstract_answers (λ k. has_key k approved) steps
  unfolding approved_evaluate approval_key_from_request
  answers-abstract_answers [] approved = refl
  answers-abstract_answers (granted requests ∷ steps) approved =
      answers-abstract_answers steps (grant request_json approved requests)
      ∙ ap (λ (keys : AbstractSet). abstract_answers keys steps)
          (λ i k. has_key-grant requests approved k i)
  answers-abstract_answers (asked q ∷ steps) approved =
      let key = request_json q in
      elim (Bool-cases (is_ask (base.evaluate q).decision && has_key key approved)) [
        | inl e ↦ rw e (
            ap (λ (l : List PolicyEvaluation). approval ∷ l)
              (answers-abstract_answers steps (remove_key key approved)
                ∙ ap (λ (keys : AbstractSet). abstract_answers keys steps)
                    (λ i k. has_key-remove_key key k approved i)))
        | inr e ↦ rw e (
            ap (λ (l : List PolicyEvaluation). base.evaluate q ∷ l)
              (answers-abstract_answers steps approved))
      ]

  -- How often a key is used: a request with that key that the base policy asks about is allowed.
  abbrev pub uses : Text → List Text → List Step → ℕ
  uses key approved [] = 0
  uses key approved (granted requests ∷ steps) =
      uses key (grant request_json approved requests) steps
  uses key approved (asked q ∷ steps) =
      let (result, left) = approved_evaluate request_json base approved q in
      let rest = uses key left steps in
      if text_eq key (request_json q)
        && (is_ask (base.evaluate q).decision && not (is_ask result.decision))
      then 1 + rest
      else rest

  -- How many approvals of the user have a request with the key.
  abbrev pub grants : Text → List Step → ℕ
  grants key [] = 0
  grants key (granted requests ∷ steps) =
      let rest = grants key steps in
      if any (λ q. text_eq key (request_json q)) requests then 1 + rest else rest
  grants key (asked q ∷ steps) = grants key steps

  abbrev count : Bool → ℕ
  count b = if b then 1 else 0

  no_use : (b : Bool) (d : PolicyDecision) → (b && (is_ask d && not (is_ask d))) ≡ false
  no_use b d = ground arith

  uses-le :
      (key : Text) (steps : List Step) (approved : List Text)
      → uses key approved steps ≤ count (has_key key approved) + grants key steps
  unfolding approved_evaluate approval_key_from_request approval
  uses-le key [] approved = omega arith
  uses-le key (granted requests ∷ steps) approved = ground (
    arith,
    uses-le key steps (grant request_json approved requests),
    has_key-grant requests approved key,
  )
  uses-le key (asked q ∷ steps) approved =
      let k = request_json q in
      let e : PolicyEvaluation = base.evaluate q in
      elim (Bool-cases (is_ask (base.evaluate q).decision && has_key k approved)) [
        | inl u ↦
            let rest = uses-le key steps (remove_key k approved) in
            let gone = has_key-remove_key k key approved in
            elim (Bool-cases (text_eq key k)) [
              | inl f ↦
                  let same : key ≡ k = text_eq_sound key k f in
                  let (asks, has) = and-eq-true (is_ask e.decision) (has_key k approved) u in
                  let held : has_key key approved ≡ true = rw same has in
                  let none_left : has_key key (remove_key k approved) ≡ false = rw (gone, f) refl in
                  rw (u, f, asks, held) (omega (arith, rw none_left at rest))
              | inr f ↦ rw (u, f) (omega (arith, rw (gone, f) at rest))
            ]
        | inr u ↦ rw (u, no_use (text_eq key k) e.decision) (uses-le key steps approved)
      ]

  -- In every sequence of approvals and requests that starts without approvals, a request that the base
  -- policy asks about is allowed at most as often as the user approved it.
  pub uses-le-grants : (key : Text) (steps : List Step) → uses key [] steps ≤ grants key steps
  unfolding any
  uses-le-grants key steps = omega (arith, uses-le key steps [])
