-- ===== src/Api/EmoteSets/Remove/Pull.antt =====
-- What `remove_emote` takes out of a set and reports
-- (apps/api/src/http/v4/gql/mutations/emote_set/operation.rs).
use tv.Prelude.{
  ◌≡◌, refl, sym, ap, ◌∙◌, suc, ℕ, true, false, Option, none, some, List, [], ◌∷◌, ◌++◌, keep,
  is_nil, map, Bool-cases, inl, inr, nat_eq,
}
use tv.Api.EmoteSets.Positions.{Named, is_named-Named, Named-is_named}
use mathlib.Core.Path.{subst}
use mathlib.Core.List.{append-nil, append_assoc}
use tv.Prelude.Results.{ok}
use tv.Permissions.Bitmask.{BitmaskEnum}
use tv.Api.Transactions.Steps.{◌>>=◌, ◌>>◌}
use tv.Api.Transactions.Inversion.{
  result_injective, required-then, lift-then, refuse_if-then, find_one-then,
  find_one_and_update-then,
}
use tv.Api.Emotes.{Emote}
use tv.Api.Sessions.{FullUser, Session, user}
use tv.Api.EmoteSets.{
  EmoteSet, EmoteSetEmote, EmoteSetEmoteId, InternalEvent, InternalEventEmoteSetData,
}
use tv.Api.EmoteSets.Global.{
  Global, Step, transact, then_plan-transact, transact_injective, is_named, names_entries,
}
use tv.Api.EmoteSets.Authority.{check_perms}
use tv.Api.EmoteSets.Edit.{event, touched}
use tv.Api.EmoteSets.Remove.{
  enumerate_named, pull, register_removed, load_owner, remove_closure, remove_emote,
}

-- A list of entries without those that `id` names.
pub data Pulled (id : EmoteSetEmoteId) : List EmoteSetEmote → List EmoteSetEmote → Type 0 where
  end : Pulled id [] []
  out :
      (e : EmoteSetEmote) (es rest : List EmoteSetEmote)
      → Named id e
      → Pulled id es rest
      → Pulled id (e ∷ es) rest
  kept :
      (e : EmoteSetEmote) (es rest : List EmoteSetEmote)
      → ¬ Named id e
      → Pulled id es rest
      → Pulled id (e ∷ es) (e ∷ rest)

-- The entries of a list that `id` names, with their indices from a number on.
pub data Listed (id : EmoteSetEmoteId)
    : ℕ → List EmoteSetEmote → List (ℕ × EmoteSetEmote) → Type 0 where
  none_left : (i : ℕ) → Listed id i [] []
  here :
      (i : ℕ) (e : EmoteSetEmote) (es : List EmoteSetEmote) (named : List (ℕ × EmoteSetEmote))
      → Named id e
      → Listed id (suc i) es named
      → Listed id i (e ∷ es) ((i, e) ∷ named)
  skip :
      (i : ℕ) (e : EmoteSetEmote) (es : List EmoteSetEmote) (named : List (ℕ × EmoteSetEmote))
      → ¬ Named id e
      → Listed id (suc i) es named
      → Listed id i (e ∷ es) named

unnamed : (id : EmoteSetEmoteId) (e : EmoteSetEmote) → is_named id e ≡ false → ¬ Named id e
unnamed id e h n = let clash : true ≡ false = sym (Named-is_named id e n) ∙ h in cc

pull-Pulled : (id : EmoteSetEmoteId) (es : List EmoteSetEmote) → Pulled id es (pull id es)
pull-Pulled id [] = end
pull-Pulled id (e ∷ es) = elim (Bool-cases (is_named id e)) [
  | inl named ↦
      rw (named, pull, keep) (out e es (pull id es) (is_named-Named id e named) (pull-Pulled id es))
  | inr other ↦
      rw (other, pull, keep) (kept e es (pull id es) (unnamed id e other) (pull-Pulled id es))
]

enumerate_named-Listed :
    (id : EmoteSetEmoteId) (i : ℕ) (es : List EmoteSetEmote)
    → Listed id i es (enumerate_named id i es)
enumerate_named-Listed id i [] = none_left i
enumerate_named-Listed id i (e ∷ es) =
    let rest : Listed id (suc i) es (enumerate_named id (suc i) es) =
      enumerate_named-Listed id (suc i) es in
    elim (Bool-cases (is_named id e)) [
      | inl named ↦
          rw (named, enumerate_named)
            (here i e es (enumerate_named id (suc i) es) (is_named-Named id e named) rest)
      | inr other ↦
          rw (other, enumerate_named)
            (skip i e es (enumerate_named id (suc i) es) (unnamed id e other) rest)
    ]

-- The events of the entries, in their order.
module _ {Json : Type 0} (g : Global Json) where
  abbrev pub removals :
      FullUser Json
      → Session Json
      → EmoteSet
      → Option Emote
      → Option (FullUser Json)
      → List (ℕ × EmoteSetEmote)
      → List (InternalEvent Json)
  removals u session after emote owner named =
      map
        (λ (t : ℕ × EmoteSetEmote).
          event g u session after (InternalEventEmoteSetData.remove_emote emote owner t.1 t.0))
        named

  register_removed-ok :
      (u : FullUser Json) (session : Session Json) (after : EmoteSet) (emote : Option Emote)
      (owner : Option (FullUser Json)) (named : List (ℕ × EmoteSetEmote))
      (events : List (InternalEvent Json)) (db : g.Db)
      → register_removed g u session after emote owner named events db
        ≡ ok (tt, events ++ removals u session after emote owner named, db)
  register_removed-ok u session after emote owner [] events db = rw (append-nil events) refl
  register_removed-ok u session after emote owner ((i, e) ∷ named) events db =
      let e1 = event g u session after (InternalEventEmoteSetData.remove_emote emote owner e i) in
      register_removed-ok u session after emote owner named (events ++ e1 ∷ []) db
      ∙ rw (append_assoc events (e1 ∷ []) (removals u session after emote owner named)) refl

  register_removed-then :
      {B : Type 0} (u : FullUser Json) (session : Session Json) (after : EmoteSet)
      (emote : Option Emote) (owner : Option (FullUser Json)) (named : List (ℕ × EmoteSetEmote))
      (k : Step g B) (events : List (InternalEvent Json)) (db : g.Db)
      (r : B × List (InternalEvent Json) × g.Db)
      → (register_removed g u session after emote owner named >> k) events db ≡ ok r
      → k (events ++ removals u session after emote owner named) db ≡ ok r
  register_removed-then u session after emote owner named k events db r run =
      rw (register_removed-ok u session after emote owner named events db, ◌>>◌, ◌>>=◌) at run

  load_owner-then :
      {B : Type 0} (emote : Option Emote) (f : Option (FullUser Json) → Step g B)
      (events : List (InternalEvent Json)) (db : g.Db) (r : B × List (InternalEvent Json) × g.Db)
      → (load_owner g emote >>= f) events db ≡ ok r
      → (owner : Option (FullUser Json)) × (f owner events db ≡ ok r)
  load_owner-then none f events db r run = (none, run)
  load_owner-then (some e) f events db r run =
      let (owner, is, rest) = required-then (g.load_fast e.owner_id) _ f events db r run in
      (owner, rest)

  -- The document that is written.
  abbrev without : EmoteSetEmoteId → EmoteSet → EmoteSet
  without id d =
      touched g (record d { emotes = pull id d.emotes; emotes_changed_since_reindex = true })

  -- A removal, of the entries that `id` names.
  pub record Removed (s : EmoteSet) (session : Session Json) (id : EmoteSetEmoteId)
      (events events' : List (InternalEvent Json)) (db db' : g.Db) (after : EmoteSet) : Type 0 where
    pub caller : FullUser Json
    pub is_caller : user session ≡ ok caller
    pub before : EmoteSet
    pub is_before : g.emote_sets.document db s.id ≡ some before
    pub pulled : Pulled id before.emotes after.emotes
    pub unchanged : after ≡ record before {
      emotes = after.emotes;
      emotes_changed_since_reindex = true;
      updated_at = g.now;
      search_updated_at = none;
    }
    pub stored : g.emote_sets.document db' s.id ≡ some after
    pub owner : Option (FullUser Json)
    pub named : List (ℕ × EmoteSetEmote)
    pub listed : Listed id 0 s.emotes named
    pub some_named : is_nil named ≡ false
    pub registered :
        events'
        ≡ events ++ removals caller session after (g.emotes.document db id.emote_id) owner named

  remove_closure-Removed :
      (s : EmoteSet) (session : Session Json) (id : EmoteSetEmoteId)
      (events events' : List (InternalEvent Json)) (db db' : g.Db) (after : EmoteSet)
      → remove_closure g s session id events db ≡ ok (after, events', db')
      → Removed s session id events events' db db' after
  remove_closure-Removed s session id events events' db db' after run =
      let (u, who, k1) = lift-then (user session) _ events db (after, events', db') run in
      let named = enumerate_named id 0 s.emotes in
      let (found, k2) = refuse_if-then (is_nil named) _ _ events db (after, events', db') k1 in
      let emote = g.emotes.document db id.emote_id in
      let k3 = find_one-then g.emotes id.emote_id _ events db (after, events', db') k2 in
      let (before, at, was, met, stands, k4) =
        find_one_and_update-then g.emote_sets s.id (names_entries id) (without id) _ _ events db
          (after, events', db') k3 in
      let (owner, k5) = load_owner-then emote _ events at (after, events', db') k4 in
      let k6 =
        register_removed-then u session (without id before) emote owner named _ events at
          (after, events', db') k5 in
      let (same, se, sd) = result_injective (without id before) after _ events' at db' k6 in
      record {
        caller = u;
        is_caller = who;
        before = before;
        is_before = was;
        pulled = subst (λ x. Pulled id before.emotes x.emotes) same (pull-Pulled id before.emotes);
        unchanged =
            subst
              (λ x. x ≡ record before {
                emotes = x.emotes;
                emotes_changed_since_reindex = true;
                updated_at = g.now;
                search_updated_at = none;
              })
              same refl;
        stored = sym (ap (λ d. g.emote_sets.document d s.id) sd) ∙ stands ∙ ap some same;
        owner = owner;
        named = named;
        listed = enumerate_named-Listed id 0 s.emotes;
        some_named = found;
        registered = sym se ∙ ap (λ x. events ++ removals u session x emote owner named) same;
      }

  module _ ⦃lib : BitmaskEnum⦄ where
    -- If `remove_emote` goes through, the stored set is what it was less every entry of the emote
    -- and, if one is given, of the alias, and no other entry is gone; an event is registered for
    -- each such entry of the set that the caller saw, of which there is one at least, with its
    -- index there.
    pub remove_emote-Removed :
        (s : EmoteSet) (session : Session Json) (id : EmoteSetEmoteId) (step : Step g EmoteSet)
        (events events' : List (InternalEvent Json)) (db db' : g.Db) (after : EmoteSet)
        → remove_emote g s session id ≡ transact step
        → step events db ≡ ok (after, events', db')
        → Removed s session id events events' db db' after
    unfolding remove_emote
    remove_emote-Removed s session id step events events' db db' after plan run =
        let (target, allowed, p) = then_plan-transact g (check_perms g s session _) _ step plan in
        let same = transact_injective g _ step p in
        remove_closure-Removed s session id events events' db db' after
          (ap (λ m. m events db) same ∙ run)
