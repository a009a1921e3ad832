-- ===== src/Session/Bus/Laws.antt =====
-- Subscriptions are independent of each other, whatever the threads do that share the bus.
use cogito_ai.Prelude.{
  ℕ, ◌+◌, ◌<◌, ◌^◌, Bool, false, not, ◌≡◌, ◌≢◌, ap, sym, List, [], ◌∷◌, ◌++◌, map, ◌==◌, filter,
  All, All-append, All-imp, arith, Bool-cases, inl, inr,
}
use mathlib.Core.List.{map-append}
use cogito_ai.Session.Events.{HarnessEvent}
use cogito_ai.Session.Bus.{
  EventBus, new_bus, fetch_id, push_subscriber, subscribe, publish, unsubscribe,
}

-- No two elements are equal.
abbrev pub AreDistinct : List ℕ → Type 0
AreDistinct [] = Unit
AreDistinct (x ∷ xs) = All (λ y. x ≢ y) xs × AreDistinct xs

AreDistinct-snoc :
    (xs : List ℕ) (n : ℕ) → All (λ x. x ≢ n) xs → AreDistinct xs → AreDistinct (xs ++ n ∷ [])
AreDistinct-snoc [] n b d = (tt, tt)
AreDistinct-snoc (x ∷ xs) n (p, b) (q, d) =
    (All-append _ xs (n ∷ []) q (p, tt), AreDistinct-snoc xs n b d)

-- One element is taken out of a list.
All-without :
    (P : ℕ → Type 0) (before : List ℕ) (n : ℕ) (after : List ℕ)
    → All P (before ++ n ∷ after)
    → P n × All P (before ++ after)
All-without P [] n after h = h
All-without P (x ∷ before) n after (p, h) =
    let (q, rest) = All-without P before n after h in (q, (p, rest))

AreDistinct-without :
    (before : List ℕ) (n : ℕ) (after : List ℕ)
    → AreDistinct (before ++ n ∷ after)
    → All (λ x. x ≢ n) (before ++ after) × AreDistinct (before ++ after)
AreDistinct-without [] n after (p, d) = (All-imp _ _ (λ x h e. h (sym e)) after p, d)
AreDistinct-without (x ∷ before) n after (p, d) =
    let (others, rest) = AreDistinct-without before n after d in
    let (here, p') = All-without _ before n after p in ((here, others), (p', rest))

All-both :
    (P Q R : ℕ → Type 0)
    → ((x : ℕ) → P x → Q x → R x)
    → (xs : List ℕ) → All P xs
    → All Q xs
    → All R xs
All-both P Q R f [] h k = tt
All-both P Q R f (x ∷ xs) (p, h) (q, k) = (f x p q, All-both P Q R f xs h k)

-- The bus, and the identifiers of the threads that have fetched one and wait for the lock.
pub record Shared (S : Type 0) : Type 0 where
  pub bus : EventBus S
  pub waiting : List ℕ

module _ {S : Type 0} where
  abbrev ids : List (ℕ × S) → List ℕ
  ids subscribers = map (λ (x : ℕ × S). x.0) subscribers

  -- The identifiers that are waiting or subscribed are all different and lie below the next one.
  pub record IsValid (t : Shared S) : Type 0 where
    pub waiting_below : All (λ n. n < t.bus.next_id) t.waiting
    pub below : All (λ (x : ℕ × S). x.0 < t.bus.next_id) t.bus.subscribers
    pub waiting_distinct : AreDistinct t.waiting
    pub distinct : AreDistinct (ids t.bus.subscribers)
    pub apart : All (λ n. All (λ (x : ℕ × S). x.0 ≢ n) t.bus.subscribers) t.waiting

  -- What the threads do to a bus, as long as the identifiers have not run through 64 bits: one fetches
  -- an identifier, any of those that wait gets the lock, and a subscription is dropped.
  pub data Step (t u : Shared S) : Type 0 where
    fetched :
        t.bus.next_id + 1 < 2 ^ 64
        → u ≡ record { bus = (fetch_id t.bus).1; waiting = (fetch_id t.bus).0 ∷ t.waiting }
        → Step t u
    pushed :
        (before : List ℕ) (id : ℕ) (after : List ℕ) (s : S)
        → t.waiting ≡ before ++ id ∷ after
        → u ≡ record { bus = push_subscriber t.bus id s; waiting = before ++ after }
        → Step t u
    dropped : (id : ℕ) → u ≡ record t { bus = unsubscribe t.bus id } → Step t u

  pub data Reach : Shared S → Type 0 where
    start : Reach (record { bus = new_bus; waiting = [] })
    next : {t u : Shared S} → Reach t → Step t u → Reach u

  All-filter :
      (P : ℕ × S → Type 0) (f : ℕ × S → Bool) (xs : List (ℕ × S)) → All P xs → All P (filter f xs)
  unfolding filter
  All-filter P f [] h = tt
  All-filter P f (x ∷ xs) (p, h) = elim (Bool-cases (f x)) [
    | inl e ↦ rw e (p, All-filter P f xs h)
    | inr e ↦ rw e (All-filter P f xs h)
  ]

  -- What holds of all subscribers holds of all their identifiers, and the other way round.
  All-ids : (P : ℕ → Type 0) (xs : List (ℕ × S)) → All (λ (x : ℕ × S). P x.0) xs → All P (ids xs)
  All-ids P [] h = tt
  All-ids P (x ∷ xs) (p, h) = (p, All-ids P xs h)

  ids-All : (P : ℕ → Type 0) (xs : List (ℕ × S)) → All P (ids xs) → All (λ (x : ℕ × S). P x.0) xs
  ids-All P [] h = tt
  ids-All P (x ∷ xs) (p, h) = (p, ids-All P xs h)

  AreDistinct-filter :
      (f : ℕ × S → Bool) (xs : List (ℕ × S))
      → AreDistinct (ids xs)
      → AreDistinct (ids (filter f xs))
  unfolding filter
  AreDistinct-filter f [] h = tt
  AreDistinct-filter f (x ∷ xs) (p, h) = elim (Bool-cases (f x)) [
    | inl e ↦
        let kept = All-ids _ (filter f xs) (All-filter _ f xs (ids-All _ xs p)) in
        rw e (kept, AreDistinct-filter f xs h)
    | inr e ↦ rw e (AreDistinct-filter f xs h)
  ]

  fetch-IsValid :
      (t : Shared S)
      → t.bus.next_id + 1 < 2 ^ 64
      → IsValid t
      → IsValid (record { bus = (fetch_id t.bus).1; waiting = (fetch_id t.bus).0 ∷ t.waiting })
  unfolding fetch_id
  fetch-IsValid t h v = record {
    waiting_below = (omega arith, All-imp _ _ (λ n p. omega arith) t.waiting v.waiting_below);
    below = All-imp _ _ (λ x p. omega arith) t.bus.subscribers v.below;
    waiting_distinct =
        (All-imp _ _ (λ n p e. absurd (omega arith)) t.waiting v.waiting_below, v.waiting_distinct);
    distinct = v.distinct;
    apart = (All-imp _ _ (λ x p e. absurd (omega arith)) t.bus.subscribers v.below, v.apart);
  }

  push-IsValid :
      (bus : EventBus S) (before : List ℕ) (id : ℕ) (after : List ℕ) (s : S)
      → IsValid (record { bus = bus; waiting = before ++ id ∷ after })
      → IsValid (record { bus = push_subscriber bus id s; waiting = before ++ after })
  unfolding push_subscriber
  push-IsValid bus before id after s v =
      let (fresh, rest_below) = All-without _ before id after v.waiting_below in
      let (others, rest) = AreDistinct-without before id after v.waiting_distinct in
      let (apart, rest_apart) = All-without _ before id after v.apart in
      record {
        waiting_below = rest_below;
        below = All-append _ bus.subscribers ((id, s) ∷ []) v.below (fresh, tt);
        waiting_distinct = rest;
        distinct = rw (map-append _ bus.subscribers ((id, s) ∷ [])) (
            AreDistinct-snoc (ids bus.subscribers) id (All-ids _ bus.subscribers apart) v.distinct);
        apart =
            All-both _ _ _
              (λ n p q. All-append _ bus.subscribers ((id, s) ∷ []) p (λ e. q (sym e), tt))
              (before ++ after) rest_apart others;
      }

  drop-IsValid :
      (t : Shared S) (id : ℕ) → IsValid t → IsValid (record t { bus = unsubscribe t.bus id })
  unfolding unsubscribe
  drop-IsValid t id v = record {
    waiting_below = v.waiting_below;
    below = All-filter _ _ t.bus.subscribers v.below;
    waiting_distinct = v.waiting_distinct;
    distinct = AreDistinct-filter _ t.bus.subscribers v.distinct;
    apart = All-imp _ _ (λ n p. All-filter _ _ t.bus.subscribers p) t.waiting v.apart;
  }

  Step-IsValid : {t u : Shared S} → Step t u → IsValid t → IsValid u
  Step-IsValid {t} (fetched h e) v = rw e (fetch-IsValid t h v)
  Step-IsValid {t} (pushed before id after s h e) v =
      let same : t ≡ record { bus = t.bus; waiting = before ++ id ∷ after } =
        ap (λ (l : List ℕ). record t { waiting = l }) h in
      rw e (push-IsValid t.bus before id after s (rw same at v))
  Step-IsValid {t} (dropped id e) v = rw e (drop-IsValid t id v)

  -- However the threads are interleaved that subscribe to a bus and drop their subscriptions, as long
  -- as fewer than 2^64 identifiers were fetched, the identifiers that are subscribed or still wait for
  -- the lock are all different and lie below the next one.
  pub Reach-IsValid : {t : Shared S} → Reach t → IsValid t
  unfolding new_bus
  Reach-IsValid start = record {
    waiting_below = tt;
    below = tt;
    waiting_distinct = tt;
    distinct = tt;
    apart = tt;
  }
  Reach-IsValid (next r st) = Step-IsValid st (Reach-IsValid r)

  filter-append_last :
      (n : ℕ) (s : S) (xs : List (ℕ × S))
      → All (λ (x : ℕ × S). x.0 < n) xs
      → filter (λ (x : ℕ × S). not (x.0 == n)) (xs ++ (n, s) ∷ []) ≡ xs
  unfolding filter
  filter-append_last n s [] h = ground arith
  filter-append_last n s (x ∷ xs) (p, h) =
      let other : (x.0 == n) ≡ false = ground arith in rw (other, filter-append_last n s xs h)

  -- In a bus that threads can reach, a subscription that no other thread interrupts and its drop leave
  -- the subscribers as they were, so every event is handed to the same subscribers in the same order
  -- as before; until the drop it is also handed to the new one, last.
  pub subscribe-unsubscribe :
      {bus : EventBus S} {waiting : List ℕ} (s : S) (event : HarnessEvent)
      → Reach (record { bus = bus; waiting = waiting })
      → (publish (subscribe bus s).1 event ≡ publish bus event ++ (s, event) ∷ [])
        × (publish (unsubscribe (subscribe bus s).1 (subscribe bus s).0) event ≡ publish bus event)
  unfolding publish subscribe fetch_id push_subscriber unsubscribe
  subscribe-unsubscribe {bus} s event r = (
    map-append _ bus.subscribers ((bus.next_id, s) ∷ []),
    ap (λ (l : List (ℕ × S)). map (λ (x : ℕ × S). (x.1, event)) l)
        (filter-append_last bus.next_id s bus.subscribers (Reach-IsValid r).below),
  )
