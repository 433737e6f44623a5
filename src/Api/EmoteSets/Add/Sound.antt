-- ===== src/Api/EmoteSets/Add/Sound.antt =====
-- What holds when `add_emote` goes through
-- (apps/api/src/http/v4/gql/mutations/emote_set/operation.rs).
use tv.Prelude.{
  ◌≡◌, refl, sym, ap, ◌∙◌, ◌+◌, ℕ, Bool, true, false, ◌&&◌, Option, none, some, get_or, List, map,
  nat_eq, if◌then◌else◌,
}
use tv.Prelude.HashMap.{HashMap}
use mathlib.Core.Path.{subst}
use tv.Prelude.Text.{Str, str_eq}
use tv.Prelude.Results.{ok}
use tv.Permissions.Bitmask.{BitmaskEnum}
use tv.Api.Transactions.Inversion.{result_injective, required-then, lift-then, find_one-then}
use tv.Api.Emotes.{Emote, EmoteId, EmoteFlags}
use tv.Api.Sessions.{FullUser, Session, user}
use tv.Api.EmoteSets.{
  EmoteSet, EmoteSetEmote, EmoteSetEmoteId, is_personal, InternalEvent, with_flag,
  EmoteSetEmoteFlag,
}
use tv.Api.EmoteSets.Global.{Global, Step, transact, then_plan-transact, transact_injective}
use tv.Api.EmoteSets.Authority.{check_perms}
use tv.Api.EmoteSets.Add.{
  position, written_set, has_flag, new_entry, add_closure, add_emote, store_entry,
}
use tv.Api.EmoteSets.Add.Parts.{
  IsAddable, IsFree, HasCapacity, find_emote-then, find_conflict-then, check_personal-then,
  within_capacity-then, write_emote-then,
}
use tv.Api.EmoteSets.Add.Placed.{Placed, write_entry-Placed}

flags_sum :
    (zero_width override_conflicts : Bool)
    → with_flag
        (with_flag 0 zero_width EmoteSetEmoteFlag.zero_width)
        override_conflicts
        EmoteSetEmoteFlag.override_conflicts
      ≡ (if zero_width then 1 else 0) + (if override_conflicts then 2 else 0)
flags_sum true true = refl
flags_sum true false = refl
flags_sum false true = refl
flags_sum false false = refl

pub some_injective {ℓ} : {A : Type ℓ} (a b : A) → some a ≡ some b → a ≡ b
some_injective a b h = cc

module _ {Json : Type 0} ⦃lib : BitmaskEnum⦄ (g : Global Json) where
  abbrev pub index : Str → EmoteSet → Option ℕ
  index alias s = position (λ (e : EmoteSetEmote). str_eq.beq e.alias alias) s.emotes

  -- An entry of `user` and `emote` was added to a set as it stood at the time.
  pub record Stored (s : EmoteSet) (session : Session Json) (id : EmoteSetEmoteId)
      (zero_width override_conflicts : Option Bool) (db db' : g.Db) (after : EmoteSet)
      : Type 0 where
    pub caller : FullUser Json
    pub is_caller : user session ≡ ok caller
    pub before : EmoteSet
    pub is_before : g.emote_sets.document db s.id ≡ some before
    pub emote : Emote
    pub addable : IsAddable g before id.emote_id db emote
    pub allowed : (is_personal before.kind && has_flag g emote EmoteFlags.denied_personal) ≡ false
    pub free : IsFree g (get_or id.alias emote.default_name) before
    pub written :
        after
        ≡ written_set g
            (index (get_or id.alias emote.default_name) before)
            (new_entry g caller emote id zero_width override_conflicts)
            before
    pub stored : g.emote_sets.document db' s.id ≡ some after
    pub capacity : HasCapacity g after.emotes after.capacity

  -- The same, in terms of the entries.
  pub record Added (s : EmoteSet) (session : Session Json) (id : EmoteSetEmoteId)
      (zero_width override_conflicts : Option Bool) (db db' : g.Db) (after : EmoteSet)
      : Type 0 where
    pub caller : FullUser Json
    pub is_caller : user session ≡ ok caller
    pub before : EmoteSet
    pub is_before : g.emote_sets.document db s.id ≡ some before
    pub emote : Emote
    pub addable : IsAddable g before id.emote_id db emote
    pub allowed : (is_personal before.kind && has_flag g emote EmoteFlags.denied_personal) ≡ false
    pub loaded : HashMap EmoteId Emote
    pub is_loaded : g.load_many (map (λ (e : EmoteSetEmote). e.id) before.emotes) ≡ some loaded
    pub entry : EmoteSetEmote
    pub is_entry : entry ≡ record {
      id = id.emote_id;
      alias = get_or id.alias emote.default_name;
      added_at = g.now;
      flags =
          (if get_or zero_width (has_flag g emote EmoteFlags.default_zero_width) then 1 else 0)
          + (if get_or override_conflicts false then 2 else 0);
      added_by_id = some caller.id;
      origin_set_id = none;
    }
    pub placed : Placed loaded entry before.emotes after.emotes
    pub unchanged : after ≡ record before {
      emotes = after.emotes;
      emotes_changed_since_reindex = true;
      updated_at = g.now;
      search_updated_at = none;
    }
    pub stored : g.emote_sets.document db' s.id ≡ some after
    pub capacity : HasCapacity g after.emotes after.capacity

  Added-Stored :
      (s : EmoteSet) (session : Session Json) (id : EmoteSetEmoteId)
      (zero_width override_conflicts : Option Bool) (db db' : g.Db) (after : EmoteSet)
      → Stored s session id zero_width override_conflicts db db' after
      → Added s session id zero_width override_conflicts db db' after
  Added-Stored s session id zero_width override_conflicts db db' after a =
      let entry = new_entry g a.caller a.emote id zero_width override_conflicts in
      let idx = index entry.alias a.before in
      let set = written_set g idx entry a.before in
      let same : set.emotes ≡ after.emotes = ap (λ d. d.emotes) (sym a.written) in
      record {
        caller = a.caller;
        is_caller = a.is_caller;
        before = a.before;
        is_before = a.is_before;
        emote = a.emote;
        addable = a.addable;
        allowed = a.allowed;
        loaded = a.free.0;
        is_loaded = a.free.1;
        entry = entry;
        is_entry =
            ap (λ f. record entry { flags = f })
              (flags_sum (get_or zero_width (has_flag g a.emote EmoteFlags.default_zero_width))
                (get_or override_conflicts false));
        placed =
            subst (Placed a.free.0 entry a.before.emotes) same
              (write_entry-Placed a.free.0 entry a.before.emotes a.free.2);
        unchanged =
            a.written
            ∙ ap
                (λ es. record a.before {
                  emotes = es;
                  emotes_changed_since_reindex = true;
                  updated_at = g.now;
                  search_updated_at = none;
                })
                same;
        stored = a.stored;
        capacity = a.capacity;
      }

  store_entry-ok :
      (s : EmoteSet) (u : FullUser Json) (session : Session Json) (emote : Emote) (idx : Option ℕ)
      (entry : EmoteSetEmote) (events events' : List (InternalEvent Json)) (db db' : g.Db)
      (after : EmoteSet)
      → store_entry g u session s emote idx entry events db ≡ ok (after, events', db')
      → (before : EmoteSet) × (g.emote_sets.document db s.id ≡ some before)
        × (after ≡ written_set g idx entry before)
        × (g.emote_sets.document db' s.id ≡ some after)
        × HasCapacity g after.emotes after.capacity
  store_entry-ok s u session emote idx entry events events' db db' after run =
      let (before, at, was, stands, k1) =
        write_emote-then g s idx entry _ events db (after, events', db') run in
      let set = written_set g idx entry before in
      let (fits, k2) =
        within_capacity-then g set.emotes set.capacity _ events at (after, events', db') k1 in
      let (owner, loaded, k3) =
        required-then (g.load_fast emote.owner_id) _ _ events at (after, events', db') k2 in
      let (same, se, sd) = result_injective set after _ events' at db' k3 in
      (
        before,
        was,
        sym same,
        sym (ap (λ d. g.emote_sets.document d s.id) sd) ∙ stands ∙ ap some same,
        subst (λ x. HasCapacity g x.emotes x.capacity) same fits,
      )

  add_closure-Stored :
      (s : EmoteSet) (session : Session Json) (id : EmoteSetEmoteId)
      (zero_width override_conflicts : Option Bool) (events events' : List (InternalEvent Json))
      (db db' : g.Db) (after : EmoteSet)
      → add_closure g s session id zero_width override_conflicts events db
        ≡ ok (after, events', db')
      → Stored s session id zero_width override_conflicts db db' after
  add_closure-Stored s session id zero_width override_conflicts events events' db db' after run =
      let k1 = find_one-then g.emote_sets s.id _ events db (after, events', db') run in
      let (before, was, k2) = required-then (g.emote_sets.document db s.id) _ _ events db _ k1 in
      let (u, who, k3) = lift-then (user session) _ events db _ k2 in
      let (emote, addable, k4) = find_emote-then g id.emote_id before _ events db _ k3 in
      let (free, k5) =
        find_conflict-then g (get_or id.alias emote.default_name) before _ events db _ k4 in
      let (mid, at, allowed, same, k6) =
        check_personal-then g u session before emote _ events db _ k5 in
      let entry = new_entry g u emote id zero_width override_conflicts in
      let idx = index (get_or id.alias emote.default_name) before in
      let (now, is_now, is, stands, fits) =
        store_entry-ok before u session emote idx entry mid events' at db' after k6 in
      let key : before.id ≡ s.id = g.document_id db s.id before was in
      let unchanged : some now ≡ some before =
        sym is_now ∙ ap (g.emote_sets.document at) key ∙ same s.id ∙ was in
      record {
        caller = u;
        is_caller = who;
        before = before;
        is_before = was;
        emote = emote;
        addable = addable;
        allowed = allowed;
        free = free;
        written = is ∙ ap (written_set g idx entry) (some_injective now before unchanged);
        stored = sym (ap (g.emote_sets.document db') key) ∙ stands;
        capacity = fits;
      }

  pub add_emote-Stored :
      (s : EmoteSet) (session : Session Json) (id : EmoteSetEmoteId)
      (zero_width override_conflicts : Option Bool) (step : Step g EmoteSet)
      (events events' : List (InternalEvent Json)) (db db' : g.Db) (after : EmoteSet)
      → add_emote g s session id zero_width override_conflicts ≡ transact step
      → step events db ≡ ok (after, events', db')
      → Stored s session id zero_width override_conflicts db db' after
  unfolding add_emote
  add_emote-Stored s session id zero_width override_conflicts step events events' db db' after plan
        run =
      let (target, allowed, p) = then_plan-transact g (check_perms g s session _) _ step plan in
      let same = transact_injective g _ step p in
      add_closure-Stored s session id zero_width override_conflicts events events' db db' after
        (ap (λ m. m events db) same ∙ run)

  -- If `add_emote` goes through, the emote was stored, neither deleted nor merged, private only if
  -- the set's owner owns it, not denied for a personal set; the entry is of the emote and the alias,
  -- by the caller, with the flags that were asked for; it stands in the stored set at the end, if
  -- its alias was free there, or else in the place of the first entry with the alias, whose emote
  -- was unknown or deleted, and all else in the set is as it was; and the entries of live emotes,
  -- merges followed, are no more than the capacity, counted as an `i32`.
  pub add_emote-Added :
      (s : EmoteSet) (session : Session Json) (id : EmoteSetEmoteId)
      (zero_width override_conflicts : Option Bool) (step : Step g EmoteSet)
      (events events' : List (InternalEvent Json)) (db db' : g.Db) (after : EmoteSet)
      → add_emote g s session id zero_width override_conflicts ≡ transact step
      → step events db ≡ ok (after, events', db')
      → Added s session id zero_width override_conflicts db db' after
  add_emote-Added s session id zero_width override_conflicts step events events' db db' after plan
        run =
      Added-Stored s session id zero_width override_conflicts db db' after (
        add_emote-Stored s session id zero_width override_conflicts step events events' db db' after
          plan run)
