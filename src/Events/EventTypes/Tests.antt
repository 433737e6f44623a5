-- ===== src/Events/EventTypes/Tests.antt =====
-- The theorem on names of event types, at a name and at the one that is not read.
use tv.Prelude.{◌≡◌, ◌≢◌, ◌↔◌}
use tv.Prelude.Results.{ok}
use tv.Prelude.Text.{bytes}
use tv.Events.EventTypes.{EventType, event_type_as_str, event_type_from_str}
use tv.Events.EventTypes.Parsed.{event_type_from_str_iff}

event_type_from_str_iff_example :
    (event_type_from_str (bytes "user.presence") ≡ ok EventType.user_presence) ↔ (
      (bytes "user.presence" ≡ event_type_as_str EventType.user_presence)
      × (EventType.user_presence ≢ EventType.user_presence))
event_type_from_str_iff_example =
    event_type_from_str_iff (bytes "user.presence") EventType.user_presence
