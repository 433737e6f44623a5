-- ===== src/Events/Subscriptions/Tests.antt =====
-- Subscriptions on concrete channels (apps/event-api/src/subscription/mod.rs).
use tv.Prelude.{
  ℕ, ◌≡◌, refl, ◌↔◌, true, false, List, [], ◌∷◌, arith, count, contains, count-contains, nat_eq,
  none,
}
use tv.Prelude.HashMap.{get}
use tv.Events.EventTypes.{EventType}
use tv.Events.Subscriptions.Keys.{TopicKey, topic_key_eq}
use tv.Events.Subscriptions.{
  Broadcast, SubscriberReceiver, subscribe, unsubscribe, send_keys, send_dispatch, send_presence,
}
use tv.Events.Subscriptions.Worlds.{
  World, Reach, here, next, start, ask, open_topic, with_receivers,
}
use tv.Events.Subscriptions.Delivery.{Hears, Reach-sent}

contains-count : (xs : List ℕ) (a : ℕ) → count a xs ≡ 0 → contains xs a ≡ false
contains-count [] a h = refl
contains-count (x ∷ xs) a h = ground (arith, contains-count xs a)

-- Channels that count the receivers they are given.
abbrev counted : Broadcast
counted = record {
  receiver_count = λ rxs c. count c rxs;
  is_sent = contains;
  count_iff = λ rxs c. (contains-count rxs c, count-contains rxs c);
  sent_iff = λ rxs c. ((λ h. h), (λ h. h));
}

-- A caller listens to all changes of the emotes in a scope.
abbrev emotes : TopicKey
emotes = record { event = EventType.any_emote; hash = 7 }

abbrev update : TopicKey
update = record { event = EventType.update_emote; hash = 7 }

abbrev listener : SubscriberReceiver
listener = record { topic = emotes; rx = 0 }

abbrev listening : World
listening = record { manager = subscribe emotes true start.manager; events = [] }

listening-Reach : Reach counted listening
listening-Reach = next (next here (ask emotes)) (open_topic emotes true [] refl)

listening_listener : listening.manager.receivers ≡ listener ∷ []
unfolding subscribe
listening_listener = refl

Reach-sent_example :
    ((contains (send_dispatch counted update listening.manager).1 0 ≡ true) ↔ Hears update emotes)
    × ((contains (send_presence counted update listening.manager).1 0 ≡ true) ↔ (update ≡ emotes))
Reach-sent_example =
    Reach-sent counted listening update [] listener [] listening-Reach listening_listener

sent_on_wildcard : (send_dispatch counted update listening.manager).1 ≡ 0 ∷ []
unfolding subscribe send_keys
sent_on_wildcard = refl

-- Its entry goes when it unsubscribes after its receiver is gone, and stays before that.
unsubscribe_gone :
    get (unsubscribe counted emotes (with_receivers listening.manager [])).subscriptions emotes
    ≡ none
unfolding subscribe unsubscribe
unsubscribe_gone = refl

unsubscribe_open : unsubscribe counted emotes listening.manager ≡ listening.manager
unfolding subscribe unsubscribe
unsubscribe_open = refl
