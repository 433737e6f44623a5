-- ===== src/Api/EmoteSets/Edit/Tests.antt =====
-- The theorems on changes of a set, at a set of one emote.
use tv.Prelude.{
  ℕ, ◌≡◌, refl, true, List, arith, none, some, [], ◌∷◌, ◌++◌, nat_eq, if◌then◌else◌, ◌==◌,
}
use tv.Prelude.Bits.{bit_not}
use tv.Prelude.Int.{pos}
use tv.Prelude.Results.{ok}
use tv.Permissions.Crate.{crate}
use tv.Permissions.AllowDeny as Pair
use tv.Permissions.AllowDeny.{permission}
use tv.Permissions.Record.{default}
use tv.Permissions.Checks as Checks
use tv.Api.Sessions.{FullUser, user}
use tv.Api.EmoteSets.Example.{Database}
use tv.Api.EmoteSets.{EmoteSet, EmoteSetKind, EmoteSetId, InternalEvent, InternalEventEmoteSetData}
use tv.Api.EmoteSets.Global.{Step}
use tv.Api.EmoteSets.Authority.{check_perms}
use tv.Api.EmoteSets.Edit.{capacity, delete, change_set, delete_set, event, touched}
use tv.Api.EmoteSets.Edit.Bounds.{CapacityChanged, capacity-within}
use tv.Api.EmoteSets.Edit.Removal.{delete-removes, deletion}
use tv.Api.EmoteSets.World.{owner, session, set, world, database}

abbrev wider : EmoteSet
wider = touched world (record set { capacity = some (pos 4) })

abbrev step : Step world EmoteSet
step =
    change_set world owner session set (λ d. record d { capacity = some (pos 4) })
      (InternalEventEmoteSetData.change_capacity (some (pos 3)) (some (pos 4)))

abbrev later : Database
later = record database { sets = λ k. if 10 == k then some wider else database.sets k }

abbrev events : List (InternalEvent ℕ)
events =
    event world owner session wider
      (InternalEventEmoteSetData.change_capacity (some (pos 3)) (some (pos 4)))
    ∷ []

capacity-within_example : CapacityChanged world set session (pos 4) [] events database later wider
unfolding capacity check_perms Checks.has Checks.has_emote_set Checks.is_admin default Pair.default
    permission bit_not
capacity-within_example =
    capacity-within world set session (pos 4) step [] events database later wider refl refl
      (omega arith)

abbrev emptied : Database
emptied = record database { sets = λ k. if 10 == k then none else database.sets k }

delete-removes_example :
    (u : FullUser ℕ) × (user session ≡ ok u)
    × (set.kind ≡ EmoteSetKind.normal)
    × (true ≡ true)
    × (deletion world owner session (some set) ≡ [] ++ deletion world u session (some set))
    × ((j : EmoteSetId)
        → world.emote_sets.document emptied j
          ≡ (if 10 == j then none else world.emote_sets.document database j))
unfolding delete check_perms Checks.has Checks.has_emote_set Checks.is_admin default Pair.default
    permission bit_not
delete-removes_example =
    delete-removes world set session (delete_set world owner session set) []
      (deletion world owner session (some set)) database emptied true refl refl
