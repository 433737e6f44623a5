-- ===== src/Events/Codes.antt =====
-- `Opcode`, `CloseCode` and `ObjectKind` of shared/src/event_api/types.rs. A `match` on a number is a
-- list of its arms.
pub mod Roundtrip
use tv.Prelude.{ℕ, Option, List, [], ◌∷◌, nat_eq}
use tv.Prelude.HashMap.{HashMap, get}
use tv.Prelude.Text.{Str, bytes}

pub data Opcode : Type 0 where
  dispatch hello heartbeat reconnect ack error end_of_stream identify resume subscribe unsubscribe
        signal bridge :
      Opcode

-- `self as u16`
abbrev pub opcode_as_u16 : Opcode → ℕ
opcode_as_u16 Opcode.dispatch = 0
opcode_as_u16 Opcode.hello = 1
opcode_as_u16 Opcode.heartbeat = 2
opcode_as_u16 Opcode.reconnect = 4
opcode_as_u16 Opcode.ack = 5
opcode_as_u16 Opcode.error = 6
opcode_as_u16 Opcode.end_of_stream = 7
opcode_as_u16 Opcode.identify = 33
opcode_as_u16 Opcode.resume = 34
opcode_as_u16 Opcode.subscribe = 35
opcode_as_u16 Opcode.unsubscribe = 36
opcode_as_u16 Opcode.signal = 37
opcode_as_u16 Opcode.bridge = 38

-- The arms of `from_u16`.
abbrev pub opcode_arms : HashMap ℕ Opcode
opcode_arms =
    (0, Opcode.dispatch)
    ∷ (1, Opcode.hello)
    ∷ (2, Opcode.heartbeat)
    ∷ (4, Opcode.reconnect)
    ∷ (5, Opcode.ack)
    ∷ (6, Opcode.error)
    ∷ (7, Opcode.end_of_stream)
    ∷ (33, Opcode.identify)
    ∷ (34, Opcode.resume)
    ∷ (35, Opcode.subscribe)
    ∷ (36, Opcode.unsubscribe)
    ∷ (37, Opcode.signal)
    ∷ (38, Opcode.bridge)
    ∷ []

unfoldable pub opcode_from_u16 : ℕ → Option Opcode
opcode_from_u16 value = get opcode_arms value

abbrev pub opcode_as_str : Opcode → Str
opcode_as_str Opcode.dispatch = bytes "DISPATCH"
opcode_as_str Opcode.hello = bytes "HELLO"
opcode_as_str Opcode.heartbeat = bytes "HEARTBEAT"
opcode_as_str Opcode.reconnect = bytes "RECONNECT"
opcode_as_str Opcode.ack = bytes "ACK"
opcode_as_str Opcode.error = bytes "ERROR"
opcode_as_str Opcode.end_of_stream = bytes "END_OF_STREAM"
opcode_as_str Opcode.identify = bytes "IDENTIFY"
opcode_as_str Opcode.resume = bytes "RESUME"
opcode_as_str Opcode.subscribe = bytes "SUBSCRIBE"
opcode_as_str Opcode.unsubscribe = bytes "UNSUBSCRIBE"
opcode_as_str Opcode.signal = bytes "SIGNAL"
opcode_as_str Opcode.bridge = bytes "BRIDGE"

pub data CloseCode : Type 0 where
  server_error unknown_operation invalid_payload auth_failure already_identified rate_limit restart
        maintenance timeout already_subscribed not_subscribed insufficient_privilege reconnect
        normal_closure :
      CloseCode

-- `self as u16`
abbrev pub close_code_as_u16 : CloseCode → ℕ
close_code_as_u16 CloseCode.server_error = 4000
close_code_as_u16 CloseCode.unknown_operation = 4001
close_code_as_u16 CloseCode.invalid_payload = 4002
close_code_as_u16 CloseCode.auth_failure = 4003
close_code_as_u16 CloseCode.already_identified = 4004
close_code_as_u16 CloseCode.rate_limit = 4005
close_code_as_u16 CloseCode.restart = 4006
close_code_as_u16 CloseCode.maintenance = 4007
close_code_as_u16 CloseCode.timeout = 4008
close_code_as_u16 CloseCode.already_subscribed = 4009
close_code_as_u16 CloseCode.not_subscribed = 4010
close_code_as_u16 CloseCode.insufficient_privilege = 4011
close_code_as_u16 CloseCode.reconnect = 4012
close_code_as_u16 CloseCode.normal_closure = 4013

-- The arms of `from_u16`.
abbrev pub close_code_arms : HashMap ℕ CloseCode
close_code_arms =
    (4000, CloseCode.server_error)
    ∷ (4001, CloseCode.unknown_operation)
    ∷ (4002, CloseCode.invalid_payload)
    ∷ (4003, CloseCode.auth_failure)
    ∷ (4004, CloseCode.already_identified)
    ∷ (4005, CloseCode.rate_limit)
    ∷ (4006, CloseCode.restart)
    ∷ (4007, CloseCode.maintenance)
    ∷ (4008, CloseCode.timeout)
    ∷ (4009, CloseCode.already_subscribed)
    ∷ (4010, CloseCode.not_subscribed)
    ∷ (4011, CloseCode.insufficient_privilege)
    ∷ (4012, CloseCode.reconnect)
    ∷ (4013, CloseCode.normal_closure)
    ∷ []

unfoldable pub close_code_from_u16 : ℕ → Option CloseCode
close_code_from_u16 value = get close_code_arms value

abbrev pub as_code_str : CloseCode → Str
as_code_str CloseCode.server_error = bytes "SERVER_ERROR"
as_code_str CloseCode.unknown_operation = bytes "UNKNOWN_OPERATION"
as_code_str CloseCode.invalid_payload = bytes "INVALID_PAYLOAD"
as_code_str CloseCode.auth_failure = bytes "AUTH_FAILURE"
as_code_str CloseCode.already_identified = bytes "ALREADY_IDENTIFIED"
as_code_str CloseCode.rate_limit = bytes "RATE_LIMIT"
as_code_str CloseCode.restart = bytes "RESTART"
as_code_str CloseCode.maintenance = bytes "MAINTENANCE"
as_code_str CloseCode.timeout = bytes "TIMEOUT"
as_code_str CloseCode.already_subscribed = bytes "ALREADY_SUBSCRIBED"
as_code_str CloseCode.not_subscribed = bytes "NOT_SUBSCRIBED"
as_code_str CloseCode.insufficient_privilege = bytes "INSUFFICIENT_PRIVILEGE"
as_code_str CloseCode.reconnect = bytes "RECONNECT"
as_code_str CloseCode.normal_closure = bytes "NORMAL_CLOSURE"

abbrev pub close_code_as_str : CloseCode → Str
close_code_as_str CloseCode.server_error = bytes "Internal Server Error"
close_code_as_str CloseCode.unknown_operation = bytes "Unknown Operation"
close_code_as_str CloseCode.invalid_payload = bytes "Invalid Payload"
close_code_as_str CloseCode.auth_failure = bytes "Authentication Failure"
close_code_as_str CloseCode.already_identified = bytes "Already identified"
close_code_as_str CloseCode.rate_limit = bytes "Rate limit reached"
close_code_as_str CloseCode.restart = bytes "Server is restarting"
close_code_as_str CloseCode.maintenance = bytes "Maintenance Mode"
close_code_as_str CloseCode.timeout = bytes "Timeout"
close_code_as_str CloseCode.already_subscribed = bytes "Already Subscribed"
close_code_as_str CloseCode.not_subscribed = bytes "Not Subscribed"
close_code_as_str CloseCode.insufficient_privilege = bytes "Insufficient Privilege"
close_code_as_str CloseCode.reconnect = bytes "Reconnect"
close_code_as_str CloseCode.normal_closure = bytes "Normal Closure"

abbrev pub into_websocket : CloseCode → ℕ
into_websocket CloseCode.already_identified = 1008
into_websocket CloseCode.already_subscribed = 1008
into_websocket CloseCode.auth_failure = 1008
into_websocket CloseCode.insufficient_privilege = 1008
into_websocket CloseCode.invalid_payload = 1008
into_websocket CloseCode.not_subscribed = 1008
into_websocket CloseCode.rate_limit = 1008
into_websocket CloseCode.unknown_operation = 1008
into_websocket CloseCode.maintenance = 1001
into_websocket CloseCode.reconnect = 1001
into_websocket CloseCode.restart = 1001
into_websocket CloseCode.normal_closure = 1000
into_websocket CloseCode.timeout = 1003
into_websocket CloseCode.server_error = 1003

pub data ObjectKind : Type 0 where
  user emote emote_set role entitlement ban message report presence cosmetic : ObjectKind

-- `self as u16`
abbrev pub object_kind_as_u16 : ObjectKind → ℕ
object_kind_as_u16 ObjectKind.user = 1
object_kind_as_u16 ObjectKind.emote = 2
object_kind_as_u16 ObjectKind.emote_set = 3
object_kind_as_u16 ObjectKind.role = 4
object_kind_as_u16 ObjectKind.entitlement = 5
object_kind_as_u16 ObjectKind.ban = 6
object_kind_as_u16 ObjectKind.message = 7
object_kind_as_u16 ObjectKind.report = 8
object_kind_as_u16 ObjectKind.presence = 9
object_kind_as_u16 ObjectKind.cosmetic = 10

-- The arms of `from_u16`.
abbrev pub object_kind_arms : HashMap ℕ ObjectKind
object_kind_arms =
    (1, ObjectKind.user)
    ∷ (2, ObjectKind.emote)
    ∷ (3, ObjectKind.emote_set)
    ∷ (4, ObjectKind.role)
    ∷ (5, ObjectKind.entitlement)
    ∷ (6, ObjectKind.ban)
    ∷ (7, ObjectKind.message)
    ∷ (8, ObjectKind.report)
    ∷ (9, ObjectKind.presence)
    ∷ (10, ObjectKind.cosmetic)
    ∷ []

unfoldable pub object_kind_from_u16 : ℕ → Option ObjectKind
object_kind_from_u16 value = get object_kind_arms value

abbrev pub object_kind_as_str : ObjectKind → Str
object_kind_as_str ObjectKind.user = bytes "USER"
object_kind_as_str ObjectKind.emote = bytes "EMOTE"
object_kind_as_str ObjectKind.emote_set = bytes "EMOTE_SET"
object_kind_as_str ObjectKind.role = bytes "ROLE"
object_kind_as_str ObjectKind.entitlement = bytes "ENTITLEMENT"
object_kind_as_str ObjectKind.ban = bytes "BAN"
object_kind_as_str ObjectKind.message = bytes "MESSAGE"
object_kind_as_str ObjectKind.report = bytes "REPORT"
object_kind_as_str ObjectKind.presence = bytes "PRESENCE"
object_kind_as_str ObjectKind.cosmetic = bytes "COSMETIC"
