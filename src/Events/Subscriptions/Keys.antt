-- ===== src/Events/Subscriptions/Keys.antt =====
-- The keys of a published message in apps/event-api/src/subscription: `TopicKey` of event_topic.rs
-- and the choice of keys in the loop of mod.rs. The hash of a scope is a number.
use tv.Prelude.{
  ℕ, ◌≡◌, refl, sym, ap, ◌∙◌, ◌↔◌, Bool, true, ◌&&◌, Option, none, some, List, [], ◌∷◌, arith, Eq,
  nat_eq, ◌==◌, ==_iff,
}
use tv.Prelude.HashMap.{HashMap, get}
use tv.Events.EventTypes.{EventType}

-- The position of a type in the enum, by which the derived equality compares.
abbrev pub discriminant : EventType → ℕ
discriminant EventType.any_system = 0
discriminant EventType.system_announcement = 1
discriminant EventType.any_emote = 2
discriminant EventType.create_emote = 3
discriminant EventType.update_emote = 4
discriminant EventType.delete_emote = 5
discriminant EventType.any_emote_set = 6
discriminant EventType.create_emote_set = 7
discriminant EventType.update_emote_set = 8
discriminant EventType.delete_emote_set = 9
discriminant EventType.any_user = 10
discriminant EventType.create_user = 11
discriminant EventType.update_user = 12
discriminant EventType.delete_user = 13
discriminant EventType.any_entitlement = 14
discriminant EventType.create_entitlement = 15
discriminant EventType.update_entitlement = 16
discriminant EventType.delete_entitlement = 17
discriminant EventType.reset_entitlement = 18
discriminant EventType.any_cosmetic = 19
discriminant EventType.create_cosmetic = 20
discriminant EventType.update_cosmetic = 21
discriminant EventType.delete_cosmetic = 22
discriminant EventType.whisper = 23
discriminant EventType.user_presence = 24

abbrev discriminants : HashMap ℕ EventType
discriminants =
    (0, EventType.any_system)
    ∷ (1, EventType.system_announcement)
    ∷ (2, EventType.any_emote)
    ∷ (3, EventType.create_emote)
    ∷ (4, EventType.update_emote)
    ∷ (5, EventType.delete_emote)
    ∷ (6, EventType.any_emote_set)
    ∷ (7, EventType.create_emote_set)
    ∷ (8, EventType.update_emote_set)
    ∷ (9, EventType.delete_emote_set)
    ∷ (10, EventType.any_user)
    ∷ (11, EventType.create_user)
    ∷ (12, EventType.update_user)
    ∷ (13, EventType.delete_user)
    ∷ (14, EventType.any_entitlement)
    ∷ (15, EventType.create_entitlement)
    ∷ (16, EventType.update_entitlement)
    ∷ (17, EventType.delete_entitlement)
    ∷ (18, EventType.reset_entitlement)
    ∷ (19, EventType.any_cosmetic)
    ∷ (20, EventType.create_cosmetic)
    ∷ (21, EventType.update_cosmetic)
    ∷ (22, EventType.delete_cosmetic)
    ∷ (23, EventType.whisper)
    ∷ (24, EventType.user_presence)
    ∷ []

get-discriminants : (e : EventType) → get discriminants (discriminant e) ≡ some e
get-discriminants EventType.any_system = refl
get-discriminants EventType.system_announcement = refl
get-discriminants EventType.any_emote = refl
get-discriminants EventType.create_emote = refl
get-discriminants EventType.update_emote = refl
get-discriminants EventType.delete_emote = refl
get-discriminants EventType.any_emote_set = refl
get-discriminants EventType.create_emote_set = refl
get-discriminants EventType.update_emote_set = refl
get-discriminants EventType.delete_emote_set = refl
get-discriminants EventType.any_user = refl
get-discriminants EventType.create_user = refl
get-discriminants EventType.update_user = refl
get-discriminants EventType.delete_user = refl
get-discriminants EventType.any_entitlement = refl
get-discriminants EventType.create_entitlement = refl
get-discriminants EventType.update_entitlement = refl
get-discriminants EventType.delete_entitlement = refl
get-discriminants EventType.reset_entitlement = refl
get-discriminants EventType.any_cosmetic = refl
get-discriminants EventType.create_cosmetic = refl
get-discriminants EventType.update_cosmetic = refl
get-discriminants EventType.delete_cosmetic = refl
get-discriminants EventType.whisper = refl
get-discriminants EventType.user_presence = refl

pub some-injective : {A : Type 0} (a b : A) → some a ≡ some b → a ≡ b
some-injective a b h = cc

event_type_beq_iff : (a b : EventType) → ((discriminant a == discriminant b) ≡ true) ↔ (a ≡ b)
event_type_beq_iff a b = (
  (λ h. some-injective a b (
      sym (get-discriminants a)
      ∙ ap (get discriminants) ((==_iff (discriminant a) (discriminant b)).0 h)
      ∙ get-discriminants b)),
  (λ h. (==_iff (discriminant a) (discriminant b)).1 (ap discriminant h)),
)

pub record TopicKey : Type 0 where
  pub event : EventType
  pub hash : ℕ

abbrev pub key_beq : TopicKey → TopicKey → Bool
key_beq a b = (discriminant a.event == discriminant b.event) && (a.hash == b.hash)

key_ext : (a b : TopicKey) → a.event ≡ b.event → a.hash ≡ b.hash → a ≡ b
key_ext a b h k = cc

key_same : (a b : TopicKey) → a ≡ b → key_beq a b ≡ true
key_same a b h =
    let same : (discriminant a.event == discriminant b.event) ≡ true =
      (event_type_beq_iff a.event b.event).1 (ap (λ k. k.event) h) in
    let hashes : (a.hash == b.hash) ≡ true = (==_iff a.hash b.hash).1 (ap (λ k. k.hash) h) in
    ground arith

pub key_beq_iff : (a b : TopicKey) → (key_beq a b ≡ true) ↔ (a ≡ b)
key_beq_iff a b = (
  (λ h. key_ext a b ((event_type_beq_iff a.event b.event).0 (ground arith)) (ground arith)),
  (λ h. key_same a b h),
)

instance abbrev pub topic_key_eq : Eq TopicKey
topic_key_eq = record { beq = key_beq; beq_iff = key_beq_iff }

-- The wildcard type that also hears of an event.
abbrev pub wildcard : EventType → Option EventType
wildcard EventType.any_system = none
wildcard EventType.system_announcement = some EventType.any_system
wildcard EventType.any_emote = none
wildcard EventType.create_emote = some EventType.any_emote
wildcard EventType.update_emote = some EventType.any_emote
wildcard EventType.delete_emote = some EventType.any_emote
wildcard EventType.any_emote_set = none
wildcard EventType.create_emote_set = some EventType.any_emote_set
wildcard EventType.update_emote_set = some EventType.any_emote_set
wildcard EventType.delete_emote_set = some EventType.any_emote_set
wildcard EventType.any_user = none
wildcard EventType.create_user = some EventType.any_user
wildcard EventType.update_user = some EventType.any_user
wildcard EventType.delete_user = some EventType.any_user
wildcard EventType.any_entitlement = none
wildcard EventType.create_entitlement = some EventType.any_entitlement
wildcard EventType.update_entitlement = some EventType.any_entitlement
wildcard EventType.delete_entitlement = some EventType.any_entitlement
wildcard EventType.reset_entitlement = some EventType.any_entitlement
wildcard EventType.any_cosmetic = none
wildcard EventType.create_cosmetic = some EventType.any_cosmetic
wildcard EventType.update_cosmetic = some EventType.any_cosmetic
wildcard EventType.delete_cosmetic = some EventType.any_cosmetic
wildcard EventType.whisper = none
wildcard EventType.user_presence = none

abbrev pub message_keys : TopicKey → List TopicKey
message_keys key = elim (wildcard key.event) [
  | none ↦ key ∷ []
  | some any ↦ key ∷ (record { event = any; hash = key.hash }) ∷ []
]
