-- ===== src/Events/Subscriptions.antt =====
-- The subscription manager of apps/event-api/src/subscription: the arms of the loop of mod.rs over
-- the map of topics. tokio's broadcast channels are an interface; a receiver is known by its topic
-- and its channel, and a channel by a number. Metrics are left out.
pub mod Keys
pub mod Consistent
pub mod Worlds
pub mod Delivery
mod Tests
use tv.Prelude.{
  ℕ, suc, ◌≡◌, ◌↔◌, Bool, true, false, Option, none, some, List, [], ◌∷◌, ◌++◌, map, contains,
  nat_eq, ◌==◌, if◌then◌else◌,
}
use tv.Prelude.HashMap.{HashMap, get, insert, remove}
use tv.Events.Subscriptions.Keys.{TopicKey, topic_key_eq, message_keys}

-- `tokio::sync::broadcast`, over the channels of the receivers that are open. It documents that a
-- send fails if and only if the channel has no receiver.
pub record Broadcast : Type 0 where
  pub receiver_count : List ℕ → ℕ → ℕ
  pub is_sent : List ℕ → ℕ → Bool
  pub count_iff : (rxs : List ℕ) (c : ℕ) → (receiver_count rxs c ≡ 0) ↔ (contains rxs c ≡ false)
  pub sent_iff : (rxs : List ℕ) (c : ℕ) → (is_sent rxs c ≡ false) ↔ (contains rxs c ≡ false)

pub record SubscriberReceiver : Type 0 where
  pub topic : TopicKey
  pub rx : ℕ

-- `next` is the number of the next channel that is made.
pub record Manager : Type 0 where
  pub subscriptions : HashMap TopicKey ℕ
  pub receivers : List SubscriberReceiver
  pub next : ℕ

abbrev pub channels : List SubscriberReceiver → List ℕ
channels receivers = map (λ r. r.rx) receivers

-- `Event::Subscribe`; `waiting` says whether the caller still waits for the answer, and so whether
-- `tx.send` goes through.
unfoldable pub subscribe : TopicKey → Bool → Manager → Manager
subscribe topic waiting s = elim (get s.subscriptions topic) [
  | none ↦
      if waiting
      then record {
        subscriptions = insert s.subscriptions topic s.next;
        receivers = record { topic = topic; rx = s.next } ∷ s.receivers;
        next = suc s.next;
      }
      else record { subscriptions = s.subscriptions; receivers = s.receivers; next = suc s.next }
  | some btx ↦
      if waiting
      then record {
        subscriptions = s.subscriptions;
        receivers = record { topic = topic; rx = btx } ∷ s.receivers;
        next = s.next;
      }
      else s
]

module _ (b : Broadcast) where
  -- `Event::Unsubscribe`
  unfoldable pub unsubscribe : TopicKey → Manager → Manager
  unsubscribe topic s = elim (get s.subscriptions topic) [
    | none ↦ s
    | some btx ↦
        if b.receiver_count (channels s.receivers) btx == 0
        then record {
          subscriptions = remove s.subscriptions topic;
          receivers = s.receivers;
          next = s.next;
        }
        else s
  ]

  -- The loop over the keys of a message: the map after it, and the channels it was sent on.
  unfoldable pub send_keys :
      List ℕ → List TopicKey → HashMap TopicKey ℕ → HashMap TopicKey ℕ × List ℕ
  send_keys rxs [] m = (m, [])
  send_keys rxs (key ∷ keys) m = elim (get m key) [
    | none ↦ send_keys rxs keys m
    | some btx ↦ elim (b.is_sent rxs btx) [
      | true ↦ let (m', sent) = send_keys rxs keys m in (m', btx ∷ sent)
      | false ↦ send_keys rxs keys (remove m key)
    ]
  ]

  -- A message of NATS. A presence has only the key of its own topic.
  abbrev pub send_dispatch : TopicKey → Manager → HashMap TopicKey ℕ × List ℕ
  send_dispatch topic s = send_keys (channels s.receivers) (message_keys topic) s.subscriptions

  abbrev pub send_presence : TopicKey → Manager → HashMap TopicKey ℕ × List ℕ
  send_presence topic s = send_keys (channels s.receivers) (topic ∷ []) s.subscriptions
