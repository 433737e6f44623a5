-- ===== src/Api/EmoteSets/Add/Tests.antt =====
-- The theorems on `add_emote`, where a second emote comes into a set.
use tv.Prelude.{◌≡◌, refl, none, some, [], ◌∷◌, nat_eq, if◌then◌else◌, ◌==◌, Distinct}
use tv.Prelude.Bits.{bit_not}
use tv.Prelude.Text.{str_eq}
use tv.Permissions.Crate.{crate}
use tv.Permissions.AllowDeny as Pair
use tv.Permissions.AllowDeny.{permission}
use tv.Permissions.Record.{default}
use tv.Permissions.Checks as Checks
use tv.Api.Emotes.{load_many_merged, get_merged}
use tv.Api.EmoteSets.{EmoteSet, EmoteSetEmote, InternalEventEmoteSetData}
use tv.Api.EmoteSets.Global.{Step}
use tv.Api.EmoteSets.Example.{Database}
use tv.Api.EmoteSets.Authority.{check_perms}
use tv.Api.EmoteSets.Edit.{event}
use tv.Api.EmoteSets.Add.{add_emote, add_closure, new_entry, written_set}
use tv.Api.EmoteSets.Add.Sound.{Added, add_emote-Added}
use tv.Api.EmoteSets.Add.Aliases.{aliases, add_emote-Distinct}
use tv.Api.EmoteSets.World.{owner, session, set, world, database, second, emote_of}

abbrev new : EmoteSetEmote
new = new_entry world owner (emote_of 21) second none none

abbrev after : EmoteSet
after = written_set world none new set

abbrev later : Database
later = record database { sets = λ k. if 10 == k then some after else database.sets k }

abbrev step : Step world EmoteSet
step = add_closure world set session second none none

add_emote-Added_example : Added world set session second none none database later after
unfolding add_emote check_perms Checks.has Checks.has_emote_set Checks.is_admin default Pair.default
    permission bit_not load_many_merged get_merged
add_emote-Added_example =
    add_emote-Added world set session second none none step []
      (event world owner session after (InternalEventEmoteSetData.add_emote (emote_of 21) none new)
        ∷ [])
      database later after refl refl

add_emote-Distinct_example :
    (world.emote_sets.document later 10 ≡ some after) × Distinct (aliases after.emotes)
unfolding add_emote check_perms Checks.has Checks.has_emote_set Checks.is_admin default Pair.default
    permission bit_not load_many_merged get_merged
add_emote-Distinct_example =
    add_emote-Distinct world set session second none none step []
      (event world owner session after (InternalEventEmoteSetData.add_emote (emote_of 21) none new)
        ∷ [])
      database later set after refl refl refl (refl, tt)
