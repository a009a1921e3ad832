-- ===== src/Session/Bus.antt =====
-- The event bus of crates/harness-session/src/bus.rs. A subscription takes its identifier before the
-- lock of the subscribers, so it is two steps; the lock makes any other operation one. A subscriber is
-- a value of any type that a publication is handed to.
pub mod Laws
use cogito_ai.Prelude.{
  ℕ, zero, suc, ◌+◌, ◌%◌, ◌^◌, Bool, not, List, [], ◌∷◌, ◌++◌, map, ◌==◌, filter,
}
use cogito_ai.Session.Events.{HarnessEvent}

pub record EventBus (S : Type 0) : Type 0 where
  pub next_id : ℕ
  pub subscribers : List (ℕ × S)

module _ {S : Type 0} where
  unfoldable pub new_bus : EventBus S
  new_bus = record { next_id = 0; subscribers = [] }

  -- `next_id.fetch_add(1)`, which wraps at 64 bits: the identifier and the bus.
  unfoldable pub fetch_id : EventBus S → ℕ × EventBus S
  fetch_id bus = (bus.next_id, record bus { next_id = (bus.next_id + 1) % 2 ^ 64 })

  -- `lock().push((id, subscriber))`
  unfoldable pub push_subscriber : EventBus S → ℕ → S → EventBus S
  push_subscriber bus id subscriber = record bus {
    subscribers = bus.subscribers ++ (id, subscriber) ∷ [];
  }

  -- The two steps with no other thread between them: the identifier and the bus.
  unfoldable pub subscribe : EventBus S → S → ℕ × EventBus S
  unfolding fetch_id push_subscriber
  subscribe bus subscriber =
      let (id, fetched) = fetch_id bus in (id, push_subscriber fetched id subscriber)

  -- The calls of `on_event`, in order.
  unfoldable pub publish : EventBus S → HarnessEvent → List (S × HarnessEvent)
  publish bus event = map (λ (_, s). (s, event)) bus.subscribers

  -- The `drop` of a subscription.
  unfoldable pub unsubscribe : EventBus S → ℕ → EventBus S
  unfolding filter
  unsubscribe bus id = record bus { subscribers = filter (λ (i, _). not (i == id)) bus.subscribers }
