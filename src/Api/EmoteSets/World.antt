-- ===== src/Api/EmoteSets/World.antt =====
-- The data of the examples on emote sets: a user with a set of one emote, and a second emote.
use tv.Prelude.{ℕ, false, ◌==◌, none, some, [], ◌∷◌, if◌then◌else◌}
use tv.Prelude.Int.{pos}
use tv.Prelude.Text.{bytes}
use tv.Permissions.Crate.{crate}
use tv.Permissions.Record.{default}
use tv.Editors.{EditorPermission}
use tv.Api.Emotes.{Emote, EmoteId}
use tv.Api.Sessions.{FullUser, Session, AuthState}
use tv.Api.EmoteSets.{EmoteSet, EmoteSetKind, EmoteSetEmote, EmoteSetEmoteId}
use tv.Api.EmoteSets.Global.{Global}
use tv.Api.EmoteSets.Example.{Database, global}

-- May manage the own sets, up to 5 emotes each.
abbrev pub owner : FullUser ℕ
owner = record {
  id = 1;
  permissions = record default {
    emote_set = record { allow = 2; deny = 0 };
    emote_set_capacity = some (pos 5);
  };
}

abbrev pub session : Session ℕ
session = record { state = AuthState.authenticated 70 owner; ip = 0 }

abbrev pub emote_of : EmoteId → Emote
emote_of i = record {
  id = i;
  owner_id = 2;
  default_name = bytes "wave";
  tags = [];
  flags = 9;
  merged = none;
  deleted = false;
  updated_at = 5;
  search_updated_at = none;
}

abbrev pub entry : EmoteSetEmote
entry = record {
  id = 20;
  alias = bytes "hi";
  added_at = 1;
  flags = 0;
  added_by_id = some 1;
  origin_set_id = none;
}

abbrev pub set : EmoteSet
set = record {
  id = 10;
  name = bytes "own";
  description = none;
  tags = [];
  emotes = entry ∷ [];
  capacity = some (pos 3);
  owner_id = some 1;
  origin_config = none;
  kind = EmoteSetKind.normal;
  emotes_changed_since_reindex = false;
  updated_at = 3;
  search_updated_at = some 4;
}

abbrev pub world : Global ℕ
world =
    global (λ u. if u == 1 then some owner else none)
      (λ ids. (20, emote_of 20) ∷ (21, emote_of 21) ∷ [])

abbrev pub database : Database
database = record {
  sets = λ k. if k == 10 then some set else none;
  emotes =
      λ k. if k == 20 then some (emote_of 20) else if k == 21 then some (emote_of 21) else none;
  pending = 0;
}

abbrev pub perm : EditorPermission
perm = EditorPermission.emote_set 2

abbrev pub second : EmoteSetEmoteId
second = record { emote_id = 21; alias = none }

abbrev pub first : EmoteSetEmoteId
first = record { emote_id = 20; alias = some (bytes "hi") }
