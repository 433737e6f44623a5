-- ===== src/Api/EmoteSets/Remove/Tests.antt =====
-- The theorem on `remove_emote`, where the only emote leaves a set.
use tv.Prelude.{ℕ, refl, true, none, some, List, [], ◌∷◌, nat_eq, if◌then◌else◌, ◌==◌}
use tv.Prelude.Bits.{bit_not}
use tv.Permissions.Crate.{crate}
use tv.Permissions.AllowDeny as Pair
use tv.Permissions.AllowDeny.{permission}
use tv.Permissions.Record.{default}
use tv.Permissions.Checks as Checks
use tv.Api.EmoteSets.{EmoteSet, InternalEvent}
use tv.Api.EmoteSets.Global.{Step}
use tv.Api.EmoteSets.Example.{Database}
use tv.Api.EmoteSets.Authority.{check_perms}
use tv.Api.EmoteSets.Remove.{remove_emote, remove_closure}
use tv.Api.EmoteSets.Remove.Pull.{Removed, removals, remove_emote-Removed}
use tv.Api.EmoteSets.World.{owner, session, set, world, database, first, entry, emote_of}

abbrev after : EmoteSet
after = record set {
  emotes = [];
  emotes_changed_since_reindex = true;
  updated_at = 99;
  search_updated_at = none;
}

abbrev later : Database
later = record database { sets = λ k. if 10 == k then some after else database.sets k }

abbrev step : Step world EmoteSet
step = remove_closure world set session first

abbrev events : List (InternalEvent ℕ)
events = removals world owner session after (some (emote_of 20)) none ((0, entry) ∷ [])

remove_emote-Removed_example : Removed world set session first [] events database later after
unfolding remove_emote check_perms Checks.has Checks.has_emote_set Checks.is_admin default
    Pair.default permission bit_not
remove_emote-Removed_example =
    remove_emote-Removed world set session first step [] events database later after refl refl
