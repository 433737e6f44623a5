-- ===== src/Events/Subscriptions/Worlds.antt =====
-- The subscription manager over time: callers ask for topics and drop their receivers while the loop
-- of apps/event-api/src/subscription/mod.rs takes events and messages in any order.
use tv.Prelude.{
  ℕ, ◌≡◌, sym, Bool, List, [], ◌∷◌, ◌++◌, arith, Bool-cases, Option-cases, inl, inr, nat_eq, ==_iff,
  ◌==◌,
}
use tv.Prelude.HashMap.{HashMap, get, get-insert, IsUnique-insert, IsUnique-remove}
use tv.Events.Subscriptions.Keys.{TopicKey, topic_key_eq, message_keys}
use tv.Events.Subscriptions.{
  Broadcast, SubscriberReceiver, Manager, channels, subscribe, unsubscribe, send_keys,
  send_dispatch, send_presence,
}
use tv.Events.Subscriptions.Consistent.{
  Attached, IsConsistent, All-less, Attached-insert, Attached-remove, IsOwned-remove, IsOwned-next,
  IsOwned-insert, send_keys-IsConsistent,
}

pub data Event : Type 0 where
  subscribed unsubscribed : TopicKey → Event

pub record World : Type 0 where
  pub manager : Manager
  pub events : List Event

abbrev pub start : World
start = record { manager = record { subscriptions = []; receivers = []; next = 0 }; events = [] }

abbrev pub with_receivers : Manager → List SubscriberReceiver → Manager
with_receivers s receivers = record {
  subscriptions = s.subscriptions;
  receivers = receivers;
  next = s.next;
}

abbrev pub with_subscriptions : Manager → HashMap TopicKey ℕ → Manager
with_subscriptions s m = record { subscriptions = m; receivers = s.receivers; next = s.next }

-- `ask` is the method `subscribe`, `close` the drop of a receiver with its guard, and `abandon` that
-- of a receiver whose caller is gone before it has a guard.
pub data Step (b : Broadcast) (w : World) : World → Type 0 where
  ask :
      (topic : TopicKey)
      → Step b w (record { manager = w.manager; events = w.events ++ Event.subscribed topic ∷ [] })
  open_topic :
      (topic : TopicKey) (waiting : Bool) (rest : List Event)
      → w.events ≡ Event.subscribed topic ∷ rest
      → Step b w (record { manager = subscribe topic waiting w.manager; events = rest })
  close_topic :
      (topic : TopicKey) (rest : List Event)
      → w.events ≡ Event.unsubscribed topic ∷ rest
      → Step b w (record { manager = unsubscribe b topic w.manager; events = rest })
  close :
      (before : List SubscriberReceiver) (r : SubscriberReceiver) (after : List SubscriberReceiver)
      → w.manager.receivers ≡ before ++ r ∷ after
      → Step b w (record {
        manager = with_receivers w.manager (before ++ after);
        events = w.events ++ Event.unsubscribed r.topic ∷ [];
      })
  abandon :
      (before : List SubscriberReceiver) (r : SubscriberReceiver) (after : List SubscriberReceiver)
      → w.manager.receivers ≡ before ++ r ∷ after
      → Step b w
          (record { manager = with_receivers w.manager (before ++ after); events = w.events })
  dispatch :
      (topic : TopicKey)
      → Step b w (record {
        manager = with_subscriptions w.manager (send_dispatch b topic w.manager).0;
        events = w.events;
      })
  presence :
      (topic : TopicKey)
      → Step b w (record {
        manager = with_subscriptions w.manager (send_presence b topic w.manager).0;
        events = w.events;
      })

pub data Reach (b : Broadcast) : World → Type 0 where
  here : Reach b start
  next : {w v : World} → Reach b w → Step b w v → Reach b v

subscribe-IsConsistent :
    (topic : TopicKey) (waiting : Bool) (s : Manager)
    → IsConsistent s
    → IsConsistent (subscribe topic waiting s)
unfolding subscribe
subscribe-IsConsistent topic waiting s i = elim (Option-cases (get s.subscriptions topic)) [
  | inl e ↦ elim (Bool-cases waiting) [
    | inl heard ↦
        rw (e, heard, subscribe)
          (record {
            unique = IsUnique-insert s.subscriptions topic s.next i.unique;
            attached = (
              ground (
                arith,
                topic_key_eq.beq_iff topic topic,
                get-insert s.subscriptions topic topic s.next,
              ),
              Attached-insert s.subscriptions topic s.next s.receivers e i.attached,
            );
            owned = IsOwned-insert s.subscriptions topic s.next i.owned;
          })
    | inr gone ↦
        rw (e, gone, subscribe)
          (record {
            unique = i.unique;
            attached = i.attached;
            owned = IsOwned-next s.subscriptions s.next i.owned;
          })
  ]
  | inr (c, e) ↦ elim (Bool-cases waiting) [
    | inl heard ↦
        rw (e, heard, subscribe)
          (record { unique = i.unique; attached = (e, i.attached); owned = i.owned })
    | inr gone ↦ rw (e, gone, subscribe) i
  ]
]

module _ (b : Broadcast) where
  unsubscribe-IsConsistent :
      (topic : TopicKey) (s : Manager) → IsConsistent s → IsConsistent (unsubscribe b topic s)
  unfolding unsubscribe
  unsubscribe-IsConsistent topic s i = elim (Option-cases (get s.subscriptions topic)) [
    | inl e ↦ rw (e, unsubscribe) i
    | inr (c, e) ↦ elim (Bool-cases (b.receiver_count (channels s.receivers) c == 0)) [
      | inl idle ↦
          rw (e, idle, unsubscribe)
            (record {
              unique = IsUnique-remove s.subscriptions topic i.unique;
              attached =
                  Attached-remove s.subscriptions topic c s.receivers i.unique e
                    ((b.count_iff (channels s.receivers) c).0
                      ((==_iff (b.receiver_count (channels s.receivers) c) 0).0 idle))
                    i.attached;
              owned = IsOwned-remove s.subscriptions topic s.next i.unique i.owned;
            })
      | inr used ↦ rw (e, used, unsubscribe) i
    ]
  ]

  published-IsConsistent :
      (keys : List TopicKey) (s : Manager)
      → IsConsistent s
      → IsConsistent
          (with_subscriptions s (send_keys b (channels s.receivers) keys s.subscriptions).0)
  published-IsConsistent keys s i =
      let kept =
        send_keys-IsConsistent b s.receivers keys s.subscriptions s.next i.unique i.attached
          i.owned in
      record { unique = kept.0; attached = kept.1; owned = kept.2 }

  closed-IsConsistent :
      (s : Manager) (before : List SubscriberReceiver) (r : SubscriberReceiver)
      (after : List SubscriberReceiver)
      → s.receivers ≡ before ++ r ∷ after
      → IsConsistent s
      → IsConsistent (with_receivers s (before ++ after))
  closed-IsConsistent s before r after e i = record {
    unique = i.unique;
    attached = All-less (Attached s.subscriptions) before r after (rw (sym e) i.attached);
    owned = i.owned;
  }

  Step-IsConsistent : {w v : World} → Step b w v → IsConsistent w.manager → IsConsistent v.manager
  Step-IsConsistent (ask topic) i = i
  Step-IsConsistent {w = w} (open_topic topic waiting rest e) i =
      subscribe-IsConsistent topic waiting w.manager i
  Step-IsConsistent {w = w} (close_topic topic rest e) i =
      unsubscribe-IsConsistent topic w.manager i
  Step-IsConsistent {w = w} (close before r after e) i =
      closed-IsConsistent w.manager before r after e i
  Step-IsConsistent {w = w} (abandon before r after e) i =
      closed-IsConsistent w.manager before r after e i
  Step-IsConsistent {w = w} (dispatch topic) i =
      published-IsConsistent (message_keys topic) w.manager i
  Step-IsConsistent {w = w} (presence topic) i = published-IsConsistent (topic ∷ []) w.manager i

  pub Reach-IsConsistent : {w : World} → Reach b w → IsConsistent w.manager
  Reach-IsConsistent here = record {
    unique = tt;
    attached = tt;
    owned = record { below = λ k c h. absurd cc; own = λ k j c h. absurd cc };
  }
  Reach-IsConsistent (next reach step) = Step-IsConsistent step (Reach-IsConsistent reach)
