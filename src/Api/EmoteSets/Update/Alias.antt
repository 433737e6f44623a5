-- ===== src/Api/EmoteSets/Update/Alias.antt =====
-- What `update_emote_alias` changes, answers and reports
-- (apps/api/src/http/v4/gql/mutations/emote_set/operation.rs).
use tv.Prelude.{
  ◌≡◌, ◌⊎◌, refl, sym, ap, ◌∙◌, true, false, ◌||◌, ◌==◌, none, some, List, [], ◌∷◌, ◌++◌, any,
  length, nat_eq,
}
use tv.Api.EmoteSets.Positions.{change_at-length}
use tv.Prelude.Text.{Str, str_eq}
use tv.Prelude.Results.{ok}
use tv.Permissions.Bitmask.{BitmaskEnum}
use tv.Api.Transactions.Steps.{◌>>=◌}
use tv.Api.Transactions.Inversion.{
  result_injective, pure-then, required-then, lift-then, refuse_if-then, find_one-then,
  find_one_and_update-then, >>=-ok,
}
use tv.Api.Emotes.{Emote, EmoteId, is_some}
use tv.Api.Sessions.{FullUser, Session, user}
use tv.Api.EmoteSets.{
  EmoteSet, EmoteSetEmote, EmoteSetEmoteId, InternalEvent, InternalEventEmoteSetData,
}
use tv.Api.EmoteSets.Global.{
  Global, Step, transact, then_plan-transact, transact_injective, is_named, names_entries,
}
use tv.Api.EmoteSets.Authority.{check_perms}
use tv.Api.EmoteSets.Edit.{event, touched}
use tv.Api.EmoteSets.Update.{
  find, change_at, find_live_emote, update_entry, alias_closure, update_emote_alias,
}
use tv.Api.EmoteSets.Add.Parts.{or_split}
use tv.Api.EmoteSets.Update.Entries.{
  FirstNamed, FirstOf, IsFresh, fresh, find-FirstNamed, find-FirstOf,
}

module _ {Json : Type 0} (g : Global Json) where
  -- The document that is written.
  abbrev pub changed_entry : EmoteSetEmoteId → (EmoteSetEmote → EmoteSetEmote) → EmoteSet → EmoteSet
  changed_entry id change d = touched g (record d {
    emotes = change_at d.emotes (g.positional id d.emotes) change;
    emotes_changed_since_reindex = true;
  })

  find_live_emote-then :
      {B : Type 0} (id : EmoteId) (f : Emote → Step g B) (events : List (InternalEvent Json))
      (db : g.Db) (r : B × List (InternalEvent Json) × g.Db)
      → (find_live_emote g id >>= f) events db ≡ ok r
      → (emote : Emote) × (g.emotes.document db id ≡ some emote)
        × (emote.deleted ≡ false)
        × (is_some emote.merged ≡ false)
        × (f emote events db ≡ ok r)
  find_live_emote-then id f events db r run =
      let (emote, mid, at, ran, rest) = >>=-ok (find_live_emote g id) f events db r run in
      let k1 = find_one-then g.emotes id _ events db (emote, mid, at) ran in
      let (it, is, k2) =
        required-then (g.emotes.document db id) _ _ events db (emote, mid, at) k1 in
      let (alive, k3) =
        refuse_if-then (it.deleted || is_some it.merged) _ _ events db (emote, mid, at) k2 in
      let both = or_split it.deleted (is_some it.merged) alive in
      (it, is, both.0, both.1, pure-then it emote f events mid db at r k3 rest)

  update_entry-then :
      {B : Type 0} (s : EmoteSet) (id : EmoteSetEmoteId) (change : EmoteSetEmote → EmoteSetEmote)
      (f : EmoteSet × EmoteSetEmote → Step g B) (events : List (InternalEvent Json)) (db : g.Db)
      (r : B × List (InternalEvent Json) × g.Db)
      → (update_entry g s id change >>= f) events db ≡ ok r
      → (before : EmoteSet) × (entry : EmoteSetEmote) × (at : g.Db) × (g.emote_sets.document db s.id
          ≡ some before)
        × (names_entries id before ≡ true)
        × (g.emote_sets.document at s.id ≡ some (changed_entry id change before))
        × (find (λ (e : EmoteSetEmote). e.id == id.emote_id) (changed_entry id change before).emotes
            ≡ some entry)
        × (f (changed_entry id change before, entry) events at ≡ ok r)
  update_entry-then s id change f events db r run =
      let (pair, mid, to, ran, rest) = >>=-ok (update_entry g s id change) f events db r run in
      let (before, at, was, met, stands, k1) =
        find_one_and_update-then g.emote_sets s.id (names_entries id) (changed_entry id change) _ _
          events db (pair, mid, to) ran in
      let (entry, is, k2) =
        required-then
          (find (λ (e : EmoteSetEmote). e.id == id.emote_id)
            (changed_entry id change before).emotes)
          _ _ events at (pair, mid, to) k1 in
      (
        before,
        entry,
        at,
        was,
        met,
        stands,
        is,
        pure-then (changed_entry id change before, entry) pair f events mid at to r k2 rest,
      )

  -- The entry that MongoDB takes, which meets a condition of the filter, has the alias.
  abbrev pub Changed : EmoteSetEmoteId → Str → List EmoteSetEmote → List EmoteSetEmote → Type 0
  Changed id alias old new =
      (xs : List EmoteSetEmote) × (e : EmoteSetEmote) × (ys : List EmoteSetEmote) × (old
        ≡ xs ++ e ∷ ys)
      × ((e.id ≡ id.emote_id) ⊎ (id.alias ≡ some e.alias))
      × (new ≡ xs ++ record e { alias = alias } ∷ ys)

  changed_entry-Changed :
      (id : EmoteSetEmoteId) (alias : Str) (s : EmoteSet)
      → names_entries id s ≡ true
      → Changed id alias s.emotes (changed_entry id (λ e. record e { alias = alias }) s).emotes
  changed_entry-Changed id alias s met =
      let (xs, e, ys, split, at, meets) = g.positional_lem id s met in
      let rename : EmoteSetEmote → EmoteSetEmote = λ x. record x { alias = alias } in
      (
        xs,
        e,
        ys,
        split,
        meets,
        ap (λ i. change_at s.emotes i rename) at
            ∙ ap (λ l. change_at l (length xs) rename) split
            ∙ change_at-length xs e ys rename,
      )

  -- A change of an alias, of the entry that MongoDB takes for the one that `id` names.
  pub record Renamed (s : EmoteSet) (session : Session Json) (id : EmoteSetEmoteId) (alias : Str)
      (events events' : List (InternalEvent Json)) (db db' : g.Db) (entry : EmoteSetEmote)
      (emote : Emote) : Type 0 where
    pub caller : FullUser Json
    pub is_caller : user session ≡ ok caller
    pub old : EmoteSetEmote
    pub is_old : FirstNamed id s.emotes old
    pub is_emote : g.emotes.document db id.emote_id ≡ some emote
    pub alive : emote.deleted ≡ false
    pub unmerged : is_some emote.merged ≡ false
    pub free : IsFresh alias s.emotes
    pub before : EmoteSet
    pub is_before : g.emote_sets.document db s.id ≡ some before
    pub after : EmoteSet
    pub changed : Changed id alias before.emotes after.emotes
    pub unchanged : after ≡ record before {
      emotes = after.emotes;
      emotes_changed_since_reindex = true;
      updated_at = g.now;
      search_updated_at = none;
    }
    pub stored : g.emote_sets.document db' s.id ≡ some after
    pub first : FirstOf id.emote_id after.emotes entry
    pub registered :
        events'
        ≡ events
          ++ event g caller session after
              (InternalEventEmoteSetData.rename_emote emote entry old.alias)
            ∷ []

  alias_closure-Renamed :
      (s : EmoteSet) (session : Session Json) (id : EmoteSetEmoteId) (alias : Str)
      (events events' : List (InternalEvent Json)) (db db' : g.Db) (entry : EmoteSetEmote)
      (emote : Emote)
      → alias_closure g s session id alias events db ≡ ok ((entry, emote), events', db')
      → Renamed s session id alias events events' db db' entry emote
  alias_closure-Renamed s session id alias events events' db db' entry emote run =
      let (u, who, k1) = lift-then (user session) _ events db ((entry, emote), events', db') run in
      let (old, is_old, k2) =
        required-then (find (is_named id) s.emotes) _ _ events db ((entry, emote), events', db')
          k1 in
      let (it, is, alive, unmerged, k3) =
        find_live_emote-then id.emote_id _ events db ((entry, emote), events', db') k2 in
      let (free, k4) =
        refuse_if-then (any (λ (e : EmoteSetEmote). str_eq.beq e.alias alias) s.emotes) _ _ events
          db ((entry, emote), events', db') k3 in
      let (before, found, at, was, met, stands, first, k5) =
        update_entry-then s id (λ e. record e { alias = alias }) _ events db
          ((entry, emote), events', db') k4 in
      let after = changed_entry id (λ e. record e { alias = alias }) before in
      let (same, se, sd) = result_injective (found, it) (entry, emote) _ events' at db' k5 in
      let its : it ≡ emote = ap (λ t. t.1) same in
      let founds : found ≡ entry = ap (λ t. t.0) same in
      let report : Emote → EmoteSetEmote → List (InternalEvent Json) = λ x y.
        events
        ++ event g u session after (InternalEventEmoteSetData.rename_emote x y old.alias) ∷ [] in
      record {
        caller = u;
        is_caller = who;
        old = old;
        is_old = find-FirstNamed id s.emotes old is_old;
        is_emote = is ∙ ap some its;
        alive = ap (λ e. e.deleted) (sym its) ∙ alive;
        unmerged = ap (λ e. is_some e.merged) (sym its) ∙ unmerged;
        free = fresh alias s.emotes free;
        before = before;
        is_before = was;
        after = after;
        changed = changed_entry-Changed id alias before met;
        unchanged = refl;
        stored = sym (ap (λ d. g.emote_sets.document d s.id) sd) ∙ stands;
        first = find-FirstOf id.emote_id after.emotes entry (first ∙ ap some founds);
        registered = sym se ∙ ap (λ x. report x found) its ∙ ap (report emote) founds;
      }

  module _ ⦃lib : BitmaskEnum⦄ where
    -- If `update_emote_alias` goes through, the new alias was free in the set that the caller saw
    -- and the emote is stored, neither deleted nor merged; in the stored set one entry, of the emote
    -- or of the alias that the caller named, has the new alias, and all else is as it was; the answer
    -- and the one event name the first entry of the emote, and the event the alias of the first
    -- entry that the caller named.
    pub update_emote_alias-Renamed :
        (s : EmoteSet) (session : Session Json) (id : EmoteSetEmoteId) (alias : Str)
        (step : Step g (EmoteSetEmote × Emote)) (events events' : List (InternalEvent Json))
        (db db' : g.Db) (entry : EmoteSetEmote) (emote : Emote)
        → update_emote_alias g s session id alias ≡ transact step
        → step events db ≡ ok ((entry, emote), events', db')
        → Renamed s session id alias events events' db db' entry emote
    unfolding update_emote_alias
    update_emote_alias-Renamed s session id alias step events events' db db' entry emote plan run =
        let (target, allowed, p) = then_plan-transact g (check_perms g s session _) _ step plan in
        let same = transact_injective g _ step p in
        alias_closure-Renamed s session id alias events events' db db' entry emote
          (ap (λ m. m events db) same ∙ run)
