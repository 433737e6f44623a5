-- ===== src/Events/Codes/Roundtrip.antt =====
-- The numbers of shared/src/event_api/types.rs, written and read.
use tv.Prelude.{ℕ, ◌≡◌, refl, ◌↔◌, some, [], ◌∷◌, Eq, nat_eq, All, Bool-cases, inl, inr}
use tv.Prelude.HashMap.{HashMap, get}
use tv.Events.Codes.{
  Opcode, opcode_as_u16, opcode_arms, opcode_from_u16, CloseCode, close_code_as_u16,
  close_code_arms, close_code_from_u16, ObjectKind, object_kind_as_u16, object_kind_arms,
  object_kind_from_u16,
}

module _ {ℓ κ} {K : Type ℓ} {V : Type κ} ⦃keys : Eq K⦄ (write : V → K) where
  -- The arms of a list write their keys.
  abbrev pub WritesKeys : HashMap K V → Type ℓ
  WritesKeys arms = All (λ (kv : K × V). write kv.1 ≡ kv.0) arms

  -- What is found under a key writes that key.
  pub get-writes :
      (arms : HashMap K V) (k : K) (v : V) → WritesKeys arms → get arms k ≡ some v → k ≡ write v
  get-writes [] k v all h = absurd cc
  get-writes ((j, w) ∷ arms) k v all h = elim (Bool-cases (keys.beq j k)) [
    | inl same ↦
        let found : some w ≡ some v = rw (same, get) at h in
        let first : write w ≡ j = all.0 in let equal : j ≡ k = (keys.beq_iff j k).0 same in cc
    | inr other ↦ get-writes arms k v all.1 (rw (other, get) at h)
  ]

opcode_read : (c : Opcode) → get opcode_arms (opcode_as_u16 c) ≡ some c
opcode_read Opcode.dispatch = refl
opcode_read Opcode.hello = refl
opcode_read Opcode.heartbeat = refl
opcode_read Opcode.reconnect = refl
opcode_read Opcode.ack = refl
opcode_read Opcode.error = refl
opcode_read Opcode.end_of_stream = refl
opcode_read Opcode.identify = refl
opcode_read Opcode.resume = refl
opcode_read Opcode.subscribe = refl
opcode_read Opcode.unsubscribe = refl
opcode_read Opcode.signal = refl
opcode_read Opcode.bridge = refl

close_code_read : (c : CloseCode) → get close_code_arms (close_code_as_u16 c) ≡ some c
close_code_read CloseCode.server_error = refl
close_code_read CloseCode.unknown_operation = refl
close_code_read CloseCode.invalid_payload = refl
close_code_read CloseCode.auth_failure = refl
close_code_read CloseCode.already_identified = refl
close_code_read CloseCode.rate_limit = refl
close_code_read CloseCode.restart = refl
close_code_read CloseCode.maintenance = refl
close_code_read CloseCode.timeout = refl
close_code_read CloseCode.already_subscribed = refl
close_code_read CloseCode.not_subscribed = refl
close_code_read CloseCode.insufficient_privilege = refl
close_code_read CloseCode.reconnect = refl
close_code_read CloseCode.normal_closure = refl

object_kind_read : (c : ObjectKind) → get object_kind_arms (object_kind_as_u16 c) ≡ some c
object_kind_read ObjectKind.user = refl
object_kind_read ObjectKind.emote = refl
object_kind_read ObjectKind.emote_set = refl
object_kind_read ObjectKind.role = refl
object_kind_read ObjectKind.entitlement = refl
object_kind_read ObjectKind.ban = refl
object_kind_read ObjectKind.message = refl
object_kind_read ObjectKind.report = refl
object_kind_read ObjectKind.presence = refl
object_kind_read ObjectKind.cosmetic = refl

reads_iff :
    {V : Type 0} (write : V → ℕ) (arms : HashMap ℕ V)
    → WritesKeys write arms
    → ((v : V) → get arms (write v) ≡ some v)
    → (n : ℕ) (v : V) → (get arms n ≡ some v) ↔ (n ≡ write v)
reads_iff write arms all read n v = (get-writes write arms n v all, λ same. rw (same) (read v))

-- For each of the three, a number is read as a value exactly if it is the number of that value.
pub from_u16-as_u16 :
    ((n : ℕ) (c : Opcode) → (opcode_from_u16 n ≡ some c) ↔ (n ≡ opcode_as_u16 c))
    × ((n : ℕ) (c : CloseCode) → (close_code_from_u16 n ≡ some c) ↔ (n ≡ close_code_as_u16 c))
    × ((n : ℕ) (c : ObjectKind) → (object_kind_from_u16 n ≡ some c) ↔ (n ≡ object_kind_as_u16 c))
unfolding opcode_from_u16 close_code_from_u16 object_kind_from_u16
from_u16-as_u16 = (
  reads_iff opcode_as_u16 opcode_arms
      (
        refl,
        (
          refl,
          (
            refl,
            (refl, (refl, (refl, (refl, (refl, (refl, (refl, (refl, (refl, (refl, tt)))))))))),
          ),
        ),
      )
      opcode_read,
  reads_iff close_code_as_u16 close_code_arms
      (
        refl,
        (
          refl,
          (
            refl,
            (
              refl,
              (refl, (refl, (refl, (refl, (refl, (refl, (refl, (refl, (refl, (refl, tt)))))))))),
            ),
          ),
        ),
      )
      close_code_read,
  reads_iff object_kind_as_u16 object_kind_arms
      (refl, (refl, (refl, (refl, (refl, (refl, (refl, (refl, (refl, (refl, tt))))))))))
      object_kind_read,
)
