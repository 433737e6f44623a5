-- ===== src/Events/Subscriptions/Consistent.antt =====
-- The map of topics of apps/event-api/src/subscription/mod.rs beside the receivers that are open: what
-- ties them, and what its insertions and removals keep.
use tv.Prelude.{
  ℕ, ◌≡◌, sym, ◌∙◌, ◌<◌, suc, ◌⊎◌, false, none, some, List, [], ◌∷◌, ◌++◌, arith, All, Bool-cases,
  Option-cases, inl, inr, contains, nat_eq, ==_iff,
}
use tv.Prelude.HashMap.{
  HashMap, get, insert, remove, IsUnique, get-insert, get-remove, IsUnique-remove,
}
use tv.Events.Subscriptions.Keys.{TopicKey, topic_key_eq}
use tv.Events.Subscriptions.{Broadcast, SubscriberReceiver, Manager, channels, send_keys}

-- The channel of a receiver stands in the map under its topic.
abbrev pub Attached : HashMap TopicKey ℕ → SubscriberReceiver → Type 0
Attached m r = get m r.topic ≡ some r.rx

-- No two topics share a channel, and the next one is new.
pub record IsOwned (m : HashMap TopicKey ℕ) (next : ℕ) : Type 0 where
  pub below : (k : TopicKey) (c : ℕ) → get m k ≡ some c → c < next
  pub own : (k j : TopicKey) (c : ℕ) → get m k ≡ some c → get m j ≡ some c → k ≡ j

pub record IsConsistent (s : Manager) : Type 0 where
  pub unique : IsUnique s.subscriptions
  pub attached : All (Attached s.subscriptions) s.receivers
  pub owned : IsOwned s.subscriptions s.next

module _ {A : Type 0} (P : A → Type 0) where
  pub All-less : (xs : List A) (x : A) (ys : List A) → All P (xs ++ x ∷ ys) → All P (xs ++ ys)
  All-less [] x ys h = h.1
  All-less (z ∷ xs) x ys h = (h.0, All-less xs x ys h.1)

  pub All-at : (xs : List A) (x : A) (ys : List A) → All P (xs ++ x ∷ ys) → P x
  All-at [] x ys h = h.0
  All-at (z ∷ xs) x ys h = All-at xs x ys h.1

-- A new entry at a free topic, and the loss of an entry whose channel nobody listens to.
pub Attached-insert :
    (m : HashMap TopicKey ℕ) (k : TopicKey) (v : ℕ) (rs : List SubscriberReceiver)
    → get m k ≡ none
    → All (Attached m) rs
    → All (Attached (insert m k v)) rs
Attached-insert m k v [] free h = tt
Attached-insert m k v (r ∷ rs) free h = (
  ground (arith, topic_key_eq.beq_iff k r.topic, get-insert m k r.topic v),
  Attached-insert m k v rs free h.1,
)

pub Attached-remove :
    (m : HashMap TopicKey ℕ) (k : TopicKey) (c : ℕ) (rs : List SubscriberReceiver)
    → IsUnique m
    → get m k ≡ some c
    → contains (channels rs) c ≡ false
    → All (Attached m) rs
    → All (Attached (remove m k)) rs
Attached-remove m k c [] u e idle h = tt
Attached-remove m k c (r ∷ rs) u e idle h = (
  ground (arith, topic_key_eq.beq_iff k r.topic, get-remove m k r.topic u, ==_iff r.rx c),
  Attached-remove m k c rs u e (ground arith) h.1,
)

pub get-remove-some :
    (m : HashMap TopicKey ℕ) (k j : TopicKey) (c : ℕ)
    → IsUnique m
    → get (remove m k) j ≡ some c
    → get m j ≡ some c
get-remove-some m k j c u h = ground (arith, get-remove m k j u)

pub IsOwned-remove :
    (m : HashMap TopicKey ℕ) (k : TopicKey) (n : ℕ)
    → IsUnique m
    → IsOwned m n
    → IsOwned (remove m k) n
IsOwned-remove m k n u o = record {
  below = λ j c h. o.below j c (get-remove-some m k j c u h);
  own = λ i j c h g. o.own i j c (get-remove-some m k i c u h) (get-remove-some m k j c u g);
}

-- Where an entry comes from after an insertion.
get-insert_cases :
    (m : HashMap TopicKey ℕ) (k j : TopicKey) (v c : ℕ)
    → get (insert m k v) j ≡ some c
    → (k ≡ j) × (v ≡ c) ⊎ (get m j ≡ some c)
get-insert_cases m k j v c h = ground (arith, topic_key_eq.beq_iff k j, get-insert m k j v)

pub IsOwned-next : (m : HashMap TopicKey ℕ) (n : ℕ) → IsOwned m n → IsOwned m (suc n)
IsOwned-next m n o = record { below = λ k c h. omega (arith, o.below k c h); own = o.own }

pub IsOwned-insert :
    (m : HashMap TopicKey ℕ) (k : TopicKey) (n : ℕ) → IsOwned m n → IsOwned (insert m k n) (suc n)
IsOwned-insert m k n o = record {
  below = λ j c h. elim (get-insert_cases m k j n c h) [
    | inl new ↦ omega (arith, new.1)
    | inr old ↦ omega (arith, o.below j c old)
  ];
  own = λ i j c h g. elim (get-insert_cases m k i n c h) [
    | inl new ↦ elim (get-insert_cases m k j n c g) [
      | inl both ↦ sym new.0 ∙ both.0
      | inr old ↦ absurd (omega (arith, new.1, o.below j c old))
    ]
    | inr old ↦ elim (get-insert_cases m k j n c g) [
      | inl new ↦ absurd (omega (arith, new.1, o.below i c old))
      | inr older ↦ o.own i j c old older
    ]
  ];
}

-- What the loop over the keys of a message keeps.
pub send_keys-IsConsistent :
    (b : Broadcast) (rs : List SubscriberReceiver) (keys : List TopicKey) (m : HashMap TopicKey ℕ)
    → (n : ℕ) → IsUnique m
    → All (Attached m) rs
    → IsOwned m n
    → IsUnique (send_keys b (channels rs) keys m).0
      × All (Attached (send_keys b (channels rs) keys m).0) rs
      × IsOwned (send_keys b (channels rs) keys m).0 n
unfolding send_keys
send_keys-IsConsistent b rs [] m n u h o = (u, h, o)
send_keys-IsConsistent b rs (k ∷ keys) m n u h o = elim (Option-cases (get m k)) [
  | inl e ↦ rw (e, send_keys) (send_keys-IsConsistent b rs keys m n u h o)
  | inr (c, e) ↦ elim (Bool-cases (b.is_sent (channels rs) c)) [
    | inl sent ↦ rw (e, sent, send_keys) (send_keys-IsConsistent b rs keys m n u h o)
    | inr failed ↦
        rw (e, failed, send_keys)
          (send_keys-IsConsistent b rs keys (remove m k) n (IsUnique-remove m k u)
            (Attached-remove m k c rs u e ((b.sent_iff (channels rs) c).0 failed) h)
            (IsOwned-remove m k n u o))
  ]
]
