-- ===== src/Permissions/Record.antt =====
-- `Permissions`, `RateLimits` and `Permission` of
-- shared/src/database/types/role/permissions.rs, and the methods that build a `Permissions`.
-- A method that mutates `self` returns the new record. `Json` stands for `serde_json::Value`,
-- which is only copied.
use tv.Prelude.{Option, none, or_else, List, [], foldl}
use tv.Prelude.Int.{ℤ}
use tv.Prelude.HashMap.{HashMap, extend}
use tv.Prelude.Text.{Str, str_eq}
use tv.Permissions.Bitmask.{Mask, BitmaskEnum}
use tv.Permissions.AllowDeny.{AllowDeny}
use tv.Permissions.AllowDeny as Pair

pub record RateLimits : Type 0 where
  pub interval_seconds : ℤ
  pub requests : ℤ
  pub overuse_threshold : Option ℤ
  pub overuse_punishment : Option ℤ

pub record Permissions (Json : Type 0) : Type 0 where
  pub emote : AllowDeny
  pub role : AllowDeny
  pub emote_set : AllowDeny
  pub badge : AllowDeny
  pub paint : AllowDeny
  pub user : AllowDeny
  pub ticket : AllowDeny
  pub emote_moderation_request : AllowDeny
  pub admin : AllowDeny
  pub flags : AllowDeny
  pub emote_moderation_request_priority : Option ℤ
  pub emote_moderation_request_limit : Option ℤ
  pub emote_set_limit : Option ℤ
  pub emote_set_capacity : Option ℤ
  pub personal_emote_set_capacity : Option ℤ
  pub ratelimits : HashMap Str (Option RateLimits)
  pub unknown : HashMap Str Json

pub data Permission : Type 0 where
  emote role emote_set badge paint user ticket emote_moderation_request admin flags :
      Mask → Permission

module _ {Json : Type 0} where
  unfoldable pub merge_ref : Permissions Json → Permissions Json → Permissions Json
  merge_ref s other = record {
    emote = Pair.merge s.emote other.emote;
    role = Pair.merge s.role other.role;
    emote_set = Pair.merge s.emote_set other.emote_set;
    badge = Pair.merge s.badge other.badge;
    paint = Pair.merge s.paint other.paint;
    user = Pair.merge s.user other.user;
    ticket = Pair.merge s.ticket other.ticket;
    emote_moderation_request = Pair.merge s.emote_moderation_request other.emote_moderation_request;
    admin = Pair.merge s.admin other.admin;
    flags = Pair.merge s.flags other.flags;
    emote_moderation_request_priority =
        or_else other.emote_moderation_request_priority s.emote_moderation_request_priority;
    emote_moderation_request_limit =
        or_else other.emote_moderation_request_limit s.emote_moderation_request_limit;
    emote_set_limit = or_else other.emote_set_limit s.emote_set_limit;
    emote_set_capacity = or_else other.emote_set_capacity s.emote_set_capacity;
    personal_emote_set_capacity =
        or_else other.personal_emote_set_capacity s.personal_emote_set_capacity;
    ratelimits = extend s.ratelimits other.ratelimits;
    unknown = extend s.unknown other.unknown;
  }

  -- The keys of `unknown` are written a second time, by `self.unknown.extend(other.unknown)`.
  unfoldable pub merge : Permissions Json → Permissions Json → Permissions Json
  merge s other = let t = merge_ref s other in record t { unknown = extend t.unknown other.unknown }

  unfoldable pub allow : Permissions Json → Permission → Permissions Json
  allow s (Permission.emote p) = record s { emote = Pair.allow s.emote p }
  allow s (Permission.role p) = record s { role = Pair.allow s.role p }
  allow s (Permission.emote_set p) = record s { emote_set = Pair.allow s.emote_set p }
  allow s (Permission.badge p) = record s { badge = Pair.allow s.badge p }
  allow s (Permission.paint p) = record s { paint = Pair.allow s.paint p }
  allow s (Permission.user p) = record s { user = Pair.allow s.user p }
  allow s (Permission.ticket p) = record s { ticket = Pair.allow s.ticket p }
  allow s (Permission.emote_moderation_request p) = record s {
    emote_moderation_request = Pair.allow s.emote_moderation_request p;
  }
  allow s (Permission.admin p) = record s { admin = Pair.allow s.admin p }
  allow s (Permission.flags p) = record s { flags = Pair.allow s.flags p }

  unfoldable pub deny : Permissions Json → Permission → Permissions Json
  deny s (Permission.emote p) = record s { emote = Pair.deny s.emote p }
  deny s (Permission.role p) = record s { role = Pair.deny s.role p }
  deny s (Permission.emote_set p) = record s { emote_set = Pair.deny s.emote_set p }
  deny s (Permission.badge p) = record s { badge = Pair.deny s.badge p }
  deny s (Permission.paint p) = record s { paint = Pair.deny s.paint p }
  deny s (Permission.user p) = record s { user = Pair.deny s.user p }
  deny s (Permission.ticket p) = record s { ticket = Pair.deny s.ticket p }
  deny s (Permission.emote_moderation_request p) = record s {
    emote_moderation_request = Pair.deny s.emote_moderation_request p;
  }
  deny s (Permission.admin p) = record s { admin = Pair.deny s.admin p }
  deny s (Permission.flags p) = record s { flags = Pair.deny s.flags p }

module _ {Json : Type 0} ⦃lib : BitmaskEnum⦄ where
  -- `#[derive(Default)]`
  unfoldable pub default : Permissions Json
  default = record {
    emote = Pair.default;
    role = Pair.default;
    emote_set = Pair.default;
    badge = Pair.default;
    paint = Pair.default;
    user = Pair.default;
    ticket = Pair.default;
    emote_moderation_request = Pair.default;
    admin = Pair.default;
    flags = Pair.default;
    emote_moderation_request_priority = none;
    emote_moderation_request_limit = none;
    emote_set_limit = none;
    emote_set_capacity = none;
    personal_emote_set_capacity = none;
    ratelimits = [];
    unknown = [];
  }

  -- `FromIterator<&Permissions>`
  unfoldable pub from_iter : List (Permissions Json) → Permissions Json
  from_iter ps = foldl merge_ref default ps

  -- `FromIterator<Permissions>`
  unfoldable pub from_owned : List (Permissions Json) → Permissions Json
  from_owned ps = foldl merge default ps

  -- `FromIterator<Permission>`
  unfoldable pub from_permissions : List Permission → Permissions Json
  from_permissions ps = foldl allow default ps
