-- ===== src/Events/Subscriptions/Delivery.antt =====
-- To whom a message goes: the loop over its keys in apps/event-api/src/subscription/mod.rs.
use tv.Prelude.{
  ℕ, ◌≡◌, sym, ap, ◌∙◌, ◌↔◌, ◌⊎◌, true, false, some, List, [], ◌∷◌, ◌++◌, arith, Bool-cases,
  Option-cases, inl, inr, contains, nat_eq, ==_iff, ◌==◌,
}
use tv.Prelude.HashMap.{HashMap, get, remove, IsUnique, get-remove, IsUnique-remove}
use tv.Events.Subscriptions.Keys.{some-injective, TopicKey, topic_key_eq, message_keys, wildcard}
use tv.Events.EventTypes.{EventType}
use tv.Events.Subscriptions.{
  Broadcast, SubscriberReceiver, Manager, channels, send_keys, send_dispatch, send_presence,
}
use tv.Events.Subscriptions.Worlds.{World, Reach, Reach-IsConsistent}
use tv.Events.Subscriptions.Consistent.{Attached, IsConsistent, All-at, get-remove-some}

-- An open receiver's channel has a receiver.
contains-channels :
    (before : List SubscriberReceiver) (r : SubscriberReceiver) (after : List SubscriberReceiver)
    → contains (channels (before ++ r ∷ after)) r.rx ≡ true
contains-channels [] r after = ground (arith, ==_iff r.rx r.rx)
contains-channels (x ∷ before) r after = ground (arith, contains-channels before r after)

module _ (b : Broadcast) (open_rxs : List ℕ) where
  send_keys-reaches :
      (keys : List TopicKey) (m : HashMap TopicKey ℕ) (r : SubscriberReceiver)
      → IsUnique m
      → Attached m r
      → contains open_rxs r.rx ≡ true
      → contains keys r.topic ≡ true
      → contains (send_keys b open_rxs keys m).1 r.rx ≡ true
  unfolding send_keys
  send_keys-reaches [] m r u a heard h = absurd cc
  send_keys-reaches (k ∷ keys) m r u a heard h = elim (Option-cases (get m k)) [
    | inl e ↦
        rw (e, send_keys)
          (send_keys-reaches keys m r u a heard (ground (arith, topic_key_eq.beq_iff k r.topic)))
    | inr (c, e) ↦ elim (Bool-cases (b.is_sent open_rxs c)) [
      | inl sent ↦
          rw (e, sent, send_keys)
            (ground (
              arith,
              topic_key_eq.beq_iff k r.topic,
              ==_iff c r.rx,
              send_keys-reaches keys m r u a heard,
            ))
      | inr failed ↦
          let idle : contains open_rxs c ≡ false = (b.sent_iff open_rxs c).0 failed in
          let other : topic_key_eq.beq k r.topic ≡ false =
            ground (arith, topic_key_eq.beq_iff k r.topic) in
          rw (e, failed, send_keys)
            (send_keys-reaches keys (remove m k) r (IsUnique-remove m k u)
              (ground (arith, get-remove m k r.topic u)) heard (ground arith))
    ]
  ]

  -- A key found among the others, in the map or in what is left of it.
  abbrev Found : List TopicKey → HashMap TopicKey ℕ → ℕ → Type 0
  Found keys m c = (k : TopicKey) × (contains keys k ≡ true) × (get m k ≡ some c)

  Found-later :
      (k : TopicKey) (keys : List TopicKey) (m : HashMap TopicKey ℕ) (c : ℕ)
      → Found keys m c
      → Found (k ∷ keys) m c
  Found-later k keys m c (j, member, e) = (j, ground (arith, topic_key_eq.beq_iff k j), e)

  send_keys-Found :
      (keys : List TopicKey) (m : HashMap TopicKey ℕ) (c : ℕ)
      → IsUnique m
      → contains (send_keys b open_rxs keys m).1 c ≡ true
      → Found keys m c
  unfolding send_keys
  send_keys-Found [] m c u h = absurd cc
  send_keys-Found (k ∷ keys) m c u h = elim (Option-cases (get m k)) [
    | inl e ↦ Found-later k keys m c (send_keys-Found keys m c u (ground (arith, e)))
    | inr (a, e) ↦ elim (Bool-cases (b.is_sent open_rxs a)) [
      | inl sent ↦ elim (Bool-cases (a == c)) [
        | inl same ↦
            (k, ground (arith, topic_key_eq.beq_iff k k), e ∙ ap some ((==_iff a c).0 same))
        | inr other ↦
            Found-later k keys m c (send_keys-Found keys m c u (ground (arith, e, sent, other)))
      ]
      | inr failed ↦
          let rest : Found keys (remove m k) c =
            send_keys-Found keys (remove m k) c (IsUnique-remove m k u)
              (ground (arith, e, failed)) in
          Found-later k keys m c (rest.0, rest.1, get-remove-some m k rest.0 c u rest.2)
    ]
  ]

-- A topic hears of its own messages, and a topic of a wildcard of those of the types it stands for
-- with the same scope.
abbrev pub Hears : TopicKey → TopicKey → Type 0
Hears topic k = (topic ≡ k) ⊎ (wildcard topic.event ≡ some k.event) × (topic.hash ≡ k.hash)

wildcard_key :
    (k : TopicKey) (any : EventType) (hash : ℕ)
    → any ≡ k.event
    → hash ≡ k.hash
    → record { event = any; hash = hash } ≡ k
wildcard_key k any hash h g = cc

contains-one : (a k : TopicKey) → (contains (a ∷ []) k ≡ true) ↔ (a ≡ k)
contains-one a k = (
  (λ h. ground (arith, topic_key_eq.beq_iff a k)),
  (λ h. ground (arith, topic_key_eq.beq_iff a k)),
)

contains-two : (a b k : TopicKey) → (contains (a ∷ b ∷ []) k ≡ true) ↔ ((a ≡ k) ⊎ (b ≡ k))
contains-two a b k = (
  (λ h. ground (arith, topic_key_eq.beq_iff a k, topic_key_eq.beq_iff b k)),
  (λ h. ground (arith, topic_key_eq.beq_iff a k, topic_key_eq.beq_iff b k)),
)

message_keys-Hears : (topic k : TopicKey) → (contains (message_keys topic) k ≡ true) ↔ Hears topic k
message_keys-Hears topic k = elim (Option-cases (wildcard topic.event)) [
  | inl e ↦
      rw (e, message_keys)
        (
          (λ h. inl ((contains-one topic k).0 h)),
          (λ h. elim h [ inl same ↦ (contains-one topic k).1 same | inr wild ↦ absurd cc ]),
        )
  | inr (any, e) ↦
      let second : TopicKey = record { event = any; hash = topic.hash } in
      rw (e, message_keys)
        (
          (λ h. elim ((contains-two topic second k).0 h) [
            | inl same ↦ inl same
            | inr wild ↦ inr (ap (λ t. some t.event) wild, ap (λ t. t.hash) wild)
          ]),
          (λ h. elim h [
            | inl same ↦ (contains-two topic second k).1 (inl same)
            | inr wild ↦
                (contains-two topic second k).1
                  (inr (wildcard_key k any topic.hash (some-injective any k.event wild.0) wild.1))
          ]),
        )
]

module _ (b : Broadcast) where
  sent-keys :
      (s : Manager) (keys : List TopicKey) (before : List SubscriberReceiver)
      (r : SubscriberReceiver) (after : List SubscriberReceiver)
      → IsConsistent s
      → s.receivers ≡ before ++ r ∷ after
      → (contains (send_keys b (channels s.receivers) keys s.subscriptions).1 r.rx ≡ true)
        ↔ (contains keys r.topic ≡ true)
  sent-keys s keys before r after i e =
      let here : Attached s.subscriptions r =
        All-at (Attached s.subscriptions) before r after (rw (sym e) i.attached) in
      let heard : contains (channels s.receivers) r.rx ≡ true =
        rw e (contains-channels before r after) in
      (
        (λ h.
            let found =
              send_keys-Found b (channels s.receivers) keys s.subscriptions r.rx i.unique h in
            rw (i.owned.own r.topic found.0 r.rx here found.2) found.1),
        (λ h.
            send_keys-reaches b (channels s.receivers) keys s.subscriptions r i.unique here heard
              h),
      )

  -- In every state that is reached, whatever callers and messages came before: a message is sent on
  -- the channel of an open receiver exactly if the receiver's topic is that of the message, or that
  -- of the wildcard of its type with the same scope; a presence exactly if the topic is its own.
  pub Reach-sent :
      (w : World) (topic : TopicKey) (before : List SubscriberReceiver) (r : SubscriberReceiver)
      (after : List SubscriberReceiver)
      → Reach b w
      → w.manager.receivers ≡ before ++ r ∷ after
      → ((contains (send_dispatch b topic w.manager).1 r.rx ≡ true) ↔ Hears topic r.topic)
        × ((contains (send_presence b topic w.manager).1 r.rx ≡ true) ↔ (topic ≡ r.topic))
  Reach-sent w topic before r after reach e =
      let i = Reach-IsConsistent b reach in
      let sent = sent-keys w.manager (message_keys topic) before r after i e in
      let alone = sent-keys w.manager (topic ∷ []) before r after i e in
      let keys = message_keys-Hears topic r.topic in
      (
        ((λ h. keys.0 (sent.0 h)), (λ h. sent.1 (keys.1 h))),
        (
          (λ h. (contains-one topic r.topic).0 (alone.0 h)),
          (λ h. alone.1 ((contains-one topic r.topic).1 h)),
        ),
      )
