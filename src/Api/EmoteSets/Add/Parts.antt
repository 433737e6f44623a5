-- ===== src/Api/EmoteSets/Add/Parts.antt =====
-- The parts of `add_emote` (apps/api/src/http/v4/gql/mutations/emote_set/operation.rs), when each
-- gives a result.
use tv.Prelude.{
  ◌≡◌, refl, sym, ◌∙◌, inl, inr, arith, ℕ, Bool, true, false, not, ◌&&◌, ◌||◌, ◌==◌, Option, none,
  some, List, map, keep, length, Bool-cases, nat_eq,
}
use tv.Prelude.HashMap.{HashMap}
use tv.Prelude.Int.{ℤ, ltb_ℤ}
use tv.Prelude.Text.{Str, str_eq}
use tv.Prelude.Results.{ok}
use tv.Permissions.Bitmask.{BitmaskEnum}
use tv.Api.Transactions.Steps.{◌>>=◌, ◌>>◌, driver}
use tv.Api.Transactions.Inversion.{
  >>=-ok, result_injective, required-then, refuse_if-then, driver-ok, find_one-then, refuse_if-ok,
  throw-fails, find_one_and_update-then,
}
use tv.Api.Emotes.{Emote, EmoteId, EmoteFlags, is_some, load_many_merged, get_merged, MergedResult}
use tv.Api.Sessions.{FullUser, Session}
use tv.Api.EmoteSets.{
  EmoteSet, EmoteSetId, EmoteSetEmote, is_personal, EmoteModerationRequest, InternalEvent,
}
use tv.Api.EmoteSets.Global.{Global, Step}
use tv.Api.EmoteSets.Edit.{as_i32}
use tv.Api.EmoteSets.Add.{
  position, is_conflict, is_owned_by, has_flag, find_emote, find_conflict, new_request,
  register_request, request_personal_use, check_personal, write_emote, within_capacity, written_set,
}

pub or_split : (a b : Bool) → (a || b) ≡ false → (a ≡ false) × (b ≡ false)
or_split a b h = ground arith

module _ {Json : Type 0} ⦃lib : BitmaskEnum⦄ (g : Global Json) where
  -- An emote that may be added to a set.
  abbrev pub IsAddable : EmoteSet → EmoteId → g.Db → Emote → Type 0
  IsAddable s id db emote =
      (g.emotes.document db id ≡ some emote)
      × (emote.deleted ≡ false)
      × (is_some emote.merged ≡ false)
      × ((has_flag g emote EmoteFlags.private && not (is_owned_by s.owner_id emote.owner_id))
          ≡ false)

  pub find_emote-then :
      {B : Type 0} (id : EmoteId) (s : EmoteSet) (f : Emote → Step g B)
      (events : List (InternalEvent Json)) (db : g.Db) (r : B × List (InternalEvent Json) × g.Db)
      → (find_emote g id s >>= f) events db ≡ ok r
      → (emote : Emote) × IsAddable s id db emote × (f emote events db ≡ ok r)
  find_emote-then id s f events db r run =
      let (emote, mid, at, ran, rest) = >>=-ok (find_emote g id s) f events db r run in
      let k1 = find_one-then g.emotes id _ events db (emote, mid, at) ran in
      let (it, is, k2) = required-then (g.emotes.document db id) _ _ events db _ k1 in
      let (alive, k3) = refuse_if-then (it.deleted || is_some it.merged) _ _ events db _ k2 in
      let both = or_split it.deleted (is_some it.merged) alive in
      let (open_, k4) =
        refuse_if-then
          (has_flag g it EmoteFlags.private && not (is_owned_by s.owner_id it.owner_id)) _ _ events
          db _ k3 in
      let (same, se, sd) = result_injective it emote events mid db at k4 in
      (it, (is, both.0, both.1, open_), rw (sym same, sym se, sym sd) at rest)

  -- The entry of the alias, if there is one, is of an emote that is unknown or deleted.
  abbrev pub IsFree : Str → EmoteSet → Type 0
  IsFree alias s =
      (emotes : HashMap EmoteId Emote) × (g.load_many (map (λ (e : EmoteSetEmote). e.id) s.emotes)
        ≡ some emotes)
      × (is_conflict emotes s.emotes
            (position (λ (e : EmoteSetEmote). str_eq.beq e.alias alias) s.emotes)
          ≡ false)

  pub find_conflict-then :
      {B : Type 0} (alias : Str) (s : EmoteSet) (f : Option ℕ → Step g B)
      (events : List (InternalEvent Json)) (db : g.Db) (r : B × List (InternalEvent Json) × g.Db)
      → (find_conflict g alias s >>= f) events db ≡ ok r
      → IsFree alias s
        × (f (position (λ (e : EmoteSetEmote). str_eq.beq e.alias alias) s.emotes) events db ≡ ok r)
  find_conflict-then alias s f events db r run =
      let (idx, mid, at, ran, rest) = >>=-ok (find_conflict g alias s) f events db r run in
      let (emotes, is, k1) = required-then (g.load_many _) _ _ events db (idx, mid, at) ran in
      let (free, k2) = refuse_if-then (is_conflict emotes s.emotes _) _ _ events db _ k1 in
      let (same, se, sd) = result_injective _ idx events mid db at k2 in
      ((emotes, is, free), rw (sym same, sym se, sym sd) at rest)

  -- The entries of live emotes are no more than the capacity.
  abbrev pub HasCapacity : List EmoteSetEmote → Option ℤ → Type 0
  HasCapacity entries none = Unit
  HasCapacity entries (some c) =
      (emotes : MergedResult) × (load_many_merged g.load_many
          (map (λ (e : EmoteSetEmote). e.id) entries)
        ≡ some emotes)
      × (ltb_ℤ c (
            as_i32
              (length (keep (λ (e : EmoteSetEmote). is_some (get_merged emotes e.id)) entries)))
          ≡ false)

  pub within_capacity-then :
      {B : Type 0} (entries : List EmoteSetEmote) (c : Option ℤ) (k : Step g B)
      (events : List (InternalEvent Json)) (db : g.Db) (r : B × List (InternalEvent Json) × g.Db)
      → (within_capacity g entries c >> k) events db ≡ ok r
      → HasCapacity entries c × (k events db ≡ ok r)
  within_capacity-then entries none k events db r run = (tt, run)
  within_capacity-then entries (some c) k events db r run =
      let (u, mid, at, ran, rest) =
        >>=-ok (within_capacity g entries (some c)) (λ _. k) events db r run in
      let (emotes, is, k1) =
        required-then (load_many_merged g.load_many _) _ _ events db (u, mid, at) ran in
      let (fits, se, sd) =
        refuse_if-ok
          (ltb_ℤ c (
            as_i32
              (length (keep (λ (e : EmoteSetEmote). is_some (get_merged emotes e.id)) entries))))
          _ events mid db at u k1 in
      ((emotes, is, fits), rw (se, sd) at rest)

  -- The stored sets are the same.
  abbrev pub SameSets : g.Db → g.Db → Type 0
  SameSets db at = (k : EmoteSetId) → g.emote_sets.document at k ≡ g.emote_sets.document db k

  register_request-same :
      (u : FullUser Json) (session : Session Json) (request : EmoteModerationRequest)
      (events events' : List (InternalEvent Json)) (db db' : g.Db) (v : Unit {0})
      → register_request g u session request events db ≡ ok (v, events', db')
      → db' ≡ db
  register_request-same u session request events events' db db' v run =
      elim (Bool-cases (request.id == g.request_id)) [
        | inl new ↦ sym (result_injective tt v _ events' db db' (rw (new) at run)).2
        | inr old ↦ sym (result_injective tt v _ events' db db' (rw (old) at run)).2
      ]

  request-same :
      (u : FullUser Json) (session : Session Json) (emote : Emote)
      (events events' : List (InternalEvent Json)) (db db' : g.Db) (v : Unit {0})
      → request_personal_use g u session emote events db ≡ ok (v, events', db')
      → SameSets db db'
  request-same u session emote events events' db db' v run k =
      let (found, e1, d1, r1, k1) =
        >>=-ok (driver (λ x. g.find_or_insert x (new_request g u emote))) _ events db
          (v, events', db') run in
      let (inserted, s1) =
        driver-ok (λ x. g.find_or_insert x (new_request g u emote)) events e1 db d1 found r1 in
      let (request, is, k2) = required-then found _ _ e1 d1 _ k1 in
      let (_, e2, d2, r2, k3) = >>=-ok (register_request g u session request) _ e1 d1 _ k2 in
      let s2 = register_request-same u session request e1 e2 d1 d2 tt r2 in
      let (n, e3, d3, r3, k4) = >>=-ok (driver (λ x. g.count_pending x u.id)) _ e2 d2 _ k3 in
      let (counted, s3) = driver-ok (λ x. g.count_pending x u.id) e2 e3 d2 d3 n r3 in
      let (few, se, sd) = refuse_if-ok _ _ e3 events' d3 db' v k4 in
      rw (sd) (
        g.count_pending_other d2 u.id n d3 counted k
        ∙ rw (s2) (g.find_or_insert_other db (new_request g u emote) found d1 inserted k))

  pub check_personal-then :
      {B : Type 0} (u : FullUser Json) (session : Session Json) (s : EmoteSet) (emote : Emote)
      (k : Step g B) (events : List (InternalEvent Json)) (db : g.Db)
      (r : B × List (InternalEvent Json) × g.Db)
      → (check_personal g u session s emote >> k) events db ≡ ok r
      → (mid : List (InternalEvent Json)) × (at : g.Db) × ((is_personal s.kind
            && has_flag g emote EmoteFlags.denied_personal)
          ≡ false)
        × SameSets db at
        × (k mid at ≡ ok r)
  check_personal-then u session s emote k events db r run = elim (Bool-cases (is_personal s.kind)) [
    | inr shared ↦ (events, db, rw (shared) refl, (λ j. refl), rw (shared) at run)
    | inl personal ↦ elim (Bool-cases (has_flag g emote EmoteFlags.denied_personal)) [
      | inl denied ↦
          absurd (throw-fails {A = Unit {0}} _ (λ _. k) events db r (rw (personal, denied) at run))
      | inr open_ ↦ elim (Bool-cases (has_flag g emote EmoteFlags.approved_personal)) [
        | inl approved ↦ (
          events,
          db,
          rw (personal, open_) refl,
          (λ j. refl),
          rw (personal, open_, approved) at run,
        )
        | inr undecided ↦
            let (v, mid, at, ran, rest) =
              >>=-ok (request_personal_use g u session emote) (λ _. k) events db r
                (rw (personal, open_, undecided) at run) in
            (
              mid,
              at,
              rw (personal, open_) refl,
              request-same u session emote events mid db at v ran,
              rest,
            )
      ]
    ]
  ]

  pub write_emote-then :
      {B : Type 0} (s : EmoteSet) (idx : Option ℕ) (entry : EmoteSetEmote) (f : EmoteSet → Step g B)
      (events : List (InternalEvent Json)) (db : g.Db) (r : B × List (InternalEvent Json) × g.Db)
      → (write_emote g s idx entry >>= f) events db ≡ ok r
      → (before : EmoteSet) × (at : g.Db) × (g.emote_sets.document db s.id ≡ some before)
        × (g.emote_sets.document at s.id ≡ some (written_set g idx entry before))
        × (f (written_set g idx entry before) events at ≡ ok r)
  write_emote-then s idx entry f events db r run =
      let (set, mid, to, ran, rest) = >>=-ok (write_emote g s idx entry) f events db r run in
      let (before, at, was, met, stands, k1) =
        find_one_and_update-then g.emote_sets s.id (λ d. true) (written_set g idx entry) _ _ events
          db (set, mid, to) ran in
      let (same, se, sd) =
        result_injective (written_set g idx entry before) set events mid at to k1 in
      (before, at, was, stands, rw (sym same, sym se, sym sd) at rest)
