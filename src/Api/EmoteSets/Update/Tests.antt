-- ===== src/Api/EmoteSets/Update/Tests.antt =====
-- The theorem on `update_emote_alias`, where the only emote gets another alias.
use tv.Prelude.{ℕ, refl, some, List, [], ◌∷◌, nat_eq, if◌then◌else◌, ◌==◌}
use tv.Prelude.Bits.{bit_not}
use tv.Prelude.Text.{bytes}
use tv.Permissions.Crate.{crate}
use tv.Permissions.AllowDeny as Pair
use tv.Permissions.AllowDeny.{permission}
use tv.Permissions.Record.{default}
use tv.Permissions.Checks as Checks
use tv.Api.EmoteSets.{EmoteSet, EmoteSetEmote, InternalEvent, InternalEventEmoteSetData}
use tv.Api.Emotes.{Emote}
use tv.Api.EmoteSets.Global.{Step}
use tv.Api.EmoteSets.Example.{Database}
use tv.Api.EmoteSets.Authority.{check_perms}
use tv.Api.EmoteSets.Edit.{event}
use tv.Api.EmoteSets.Update.{update_emote_alias, alias_closure}
use tv.Api.EmoteSets.Update.Alias.{Renamed, changed_entry, update_emote_alias-Renamed}
use tv.Api.EmoteSets.World.{owner, session, set, world, database, first, entry, emote_of}

abbrev after : EmoteSet
after = changed_entry world first (λ e. record e { alias = bytes "hello" }) set

abbrev changed : EmoteSetEmote
changed = record entry { alias = bytes "hello" }

abbrev later : Database
later = record database { sets = λ k. if 10 == k then some after else database.sets k }

abbrev step : Step world (EmoteSetEmote × Emote)
step = alias_closure world set session first (bytes "hello")

abbrev events : List (InternalEvent ℕ)
events =
    event world owner session after
      (InternalEventEmoteSetData.rename_emote (emote_of 20) changed (bytes "hi"))
    ∷ []

update_emote_alias-Renamed_example :
    Renamed world set session first (bytes "hello") [] events database later changed (emote_of 20)
unfolding update_emote_alias check_perms Checks.has Checks.has_emote_set Checks.is_admin default
    Pair.default permission bit_not
update_emote_alias-Renamed_example =
    update_emote_alias-Renamed world set session first (bytes "hello") step [] events database later
      changed (emote_of 20) refl refl
