-- ===== src/Api/EmoteSets/Edit/Removal.antt =====
-- The deletion of a set (apps/api/src/http/v4/gql/mutations/emote_set/operation.rs).
use tv.Prelude.{
  ◌≡◌, refl, sym, ap, ◌∙◌, Bool, true, false, Option, none, some, List, [], ◌∷◌, ◌++◌,
  if◌then◌else◌, nat_eq, ◌==◌,
}
use mathlib.Core.List.{append-nil}
use tv.Prelude.Results.{ok}
use tv.Permissions.Bitmask.{BitmaskEnum}
use tv.Api.Transactions.Steps.{find_one_and_delete}
use tv.Api.Transactions.Inversion.{>>=-ok, result_injective, find_one_and_delete-ok}
use tv.Api.Emotes.{is_some}
use tv.Api.Sessions.{FullUser, Session, user}
use tv.Api.EmoteSets.{EmoteSet, EmoteSetId, EmoteSetKind, InternalEvent, InternalEventEmoteSetData}
use tv.Api.EmoteSets.Global.{
  Global, Step, transact, then_plan-transact, answer-transact, transact_injective,
}
use tv.Api.EmoteSets.Authority.{check_perms}
use tv.Api.EmoteSets.Edit.{delete, delete_set, register_deletion, event, is_not_normal}

is_not_normal_lem : (k : EmoteSetKind) → is_not_normal k ≡ false → k ≡ EmoteSetKind.normal
is_not_normal_lem EmoteSetKind.normal h = refl
is_not_normal_lem EmoteSetKind.personal h = absurd cc
is_not_normal_lem EmoteSetKind.global h = absurd cc
is_not_normal_lem EmoteSetKind.special h = absurd cc

module _ {Json : Type 0} (g : Global Json) where
  -- The event of a deletion, if there was a set.
  abbrev pub deletion : FullUser Json → Session Json → Option EmoteSet → List (InternalEvent Json)
  deletion u session none = []
  deletion u session (some was) = event g u session was InternalEventEmoteSetData.delete ∷ []

  register_deletion-ok :
      (u : FullUser Json) (session : Session Json) (found : Option EmoteSet)
      (events events' : List (InternalEvent Json)) (db db' : g.Db) (r : Bool)
      → register_deletion g u session found events db ≡ ok (r, events', db')
      → (r ≡ is_some found) × (events' ≡ events ++ deletion u session found) × (db' ≡ db)
  register_deletion-ok u session none events events' db db' r run =
      let (a, b, c) = result_injective false r events events' db db' run in
      (sym a, sym b ∙ sym (append-nil events), sym c)
  register_deletion-ok u session (some was) events events' db db' r run =
      let (a, b, c) = result_injective true r _ events' db db' run in (sym a, sym b, sym c)

  delete_set-ok :
      (u : FullUser Json) (session : Session Json) (s : EmoteSet)
      (events events' : List (InternalEvent Json)) (db db' : g.Db) (r : Bool)
      → delete_set g u session s events db ≡ ok (r, events', db')
      → (r ≡ is_some (g.emote_sets.document db s.id))
        × (events' ≡ events ++ deletion u session (g.emote_sets.document db s.id))
        × ((j : EmoteSetId)
            → g.emote_sets.document db' j
              ≡ (if s.id == j then none else g.emote_sets.document db j))
  delete_set-ok u session s events events' db db' r run =
      let (found, e1, d1, r1, r2) =
        >>=-ok (find_one_and_delete g.emote_sets s.id) _ events db (r, events', db') run in
      let (was, same, after) = find_one_and_delete-ok g.emote_sets s.id events e1 db d1 found r1 in
      let (answered, registered, kept) =
        register_deletion-ok u session found e1 events' d1 db' r r2 in
      (answered ∙ ap is_some was, registered ∙ rw (same, was) refl, λ j. rw (kept) (after j))

  module _ ⦃lib : BitmaskEnum⦄ where
    -- A deletion that goes through is of a normal set: that set is gone, the others are as before,
    -- the answer says whether it was there, and an event is registered only then.
    pub delete-removes :
        (s : EmoteSet) (session : Session Json) (step : Step g Bool)
        (events events' : List (InternalEvent Json)) (db db' : g.Db) (r : Bool)
        → delete g s session ≡ transact step
        → step events db ≡ ok (r, events', db')
        → (u : FullUser Json) × (user session ≡ ok u)
          × (s.kind ≡ EmoteSetKind.normal)
          × (r ≡ is_some (g.emote_sets.document db s.id))
          × (events' ≡ events ++ deletion u session (g.emote_sets.document db s.id))
          × ((j : EmoteSetId)
              → g.emote_sets.document db' j
                ≡ (if s.id == j then none else g.emote_sets.document db j))
    unfolding delete
    delete-removes s session step events events' db db' r plan run =
        let (target, allowed, p1) = then_plan-transact g (check_perms g s session _) _ step plan in
        let (normal, p2) = answer-transact g (is_not_normal s.kind) _ _ step p1 in
        let (u, who, p3) = then_plan-transact g (user session) _ step p2 in
        let same = transact_injective g _ step p3 in
        let (answered, registered, after) =
          delete_set-ok u session s events events' db db' r (ap (λ m. m events db) same ∙ run) in
        (u, who, is_not_normal_lem s.kind normal, answered, registered, after)
