-- ===== src/Api/EmoteSets/Global.antt =====
-- What the operations on an emote set use of `Global`: the collections, the loaders and the clock,
-- as an interface, with the laws of MongoDB that are relied on. An instant serves for a whole call.
use tv.Prelude.{
  ◌≡◌, ◌⊎◌, ◌∷◌, ◌++◌, length, refl, if◌then◌else◌, ℕ, Bool, true, false, ◌&&◌, ◌==◌, Option, none,
  some, List, any, nat_eq,
}
use tv.Prelude.HashMap.{HashMap}
use tv.Prelude.Text.{Str, bytes, str_eq}
use tv.Prelude.Results.{Result, ok, err}
use tv.Ids.{DatabaseId, UserId}
use tv.Editors.{UserEditorId}
use tv.Api.Documents.{Collection}
use tv.Api.Transactions.{Failures, TransactionError, custom}
use tv.Api.Transactions.Steps.{Tx}
use tv.Api.Errors.{ApiError, internal_server_error}
use tv.Api.Errors.Codes.{ApiErrorCode}
use tv.Api.Emotes.{Emote, EmoteId}
use tv.Api.Sessions.{FullUser, UserEditor}
use tv.Api.EmoteSets.{
  EmoteSet, EmoteSetId, EmoteSetEmote, EmoteSetEmoteId, EmoteModerationRequest, InternalEvent,
}

-- An entry that the arguments `emote_id` and `alias` name.
abbrev pub is_named : EmoteSetEmoteId → EmoteSetEmote → Bool
is_named id e =
    e.id == id.emote_id && (elim id.alias [ none ↦ true | some a ↦ str_eq.beq e.alias a ])

-- The filter `emotes.id` and, with an alias, `emotes.alias`: each is met by some entry.
abbrev pub names_entries : EmoteSetEmoteId → EmoteSet → Bool
names_entries id s = any (λ (e : EmoteSetEmote). e.id == id.emote_id) s.emotes && (elim id.alias [
  | none ↦ true
  | some a ↦ any (λ (e : EmoteSetEmote). str_eq.beq e.alias a) s.emotes
])

pub record Global (Json : Type 0) : Type 1 where
  pub failures : Failures
  pub Db : Type 0
  pub emote_sets : Collection Db EmoteSetId EmoteSet failures.MongoError
  pub emotes : Collection Db EmoteId Emote failures.MongoError
  -- the request that is there for the kind and the emote of another, which is inserted if none is
  pub find_or_insert :
      Db → EmoteModerationRequest → Result (Option EmoteModerationRequest × Db) failures.MongoError
  -- the number of requests for personal use by a user that are pending
  pub count_pending : Db → UserId → Result (ℕ × Db) failures.MongoError
  -- neither touches the other collections, and a document is stored under its `_id`
  pub find_or_insert_other :
      (db : Db) (r : EmoteModerationRequest) (o : Option EmoteModerationRequest) (db' : Db)
      → find_or_insert db r ≡ ok (o, db')
      → (k : EmoteSetId) → emote_sets.document db' k ≡ emote_sets.document db k
  pub count_pending_other :
      (db : Db) (u : UserId) (n : ℕ) (db' : Db)
      → count_pending db u ≡ ok (n, db')
      → (k : EmoteSetId) → emote_sets.document db' k ≡ emote_sets.document db k
  pub document_id :
      (db : Db) (k : EmoteSetId) (s : EmoteSet) → emote_sets.document db k ≡ some s → s.id ≡ k
  -- the entry that `emotes.$` stands for under `names_entries`
  pub positional : EmoteSetEmoteId → List EmoteSetEmote → ℕ
  -- with two conditions on the array, `$` may stand for an entry that meets either
  pub positional_lem :
      (id : EmoteSetEmoteId) (s : EmoteSet)
      → names_entries id s ≡ true
      → (xs : List EmoteSetEmote) × (e : EmoteSetEmote) × (ys : List EmoteSetEmote) × (s.emotes
          ≡ xs ++ e ∷ ys)
        × (positional id s.emotes ≡ length xs)
        × ((e.id ≡ id.emote_id) ⊎ (id.alias ≡ some e.alias))
  -- the loaders, with `none` for a failure
  pub user_loader : UserId → Option (Option (FullUser Json))
  pub load_fast : UserId → Option (Option (FullUser Json))
  pub user_editor_by_id_loader : UserEditorId → Option (Option UserEditor)
  pub load_many : List EmoteId → Option (HashMap EmoteId Emote)
  pub now : ℕ
  pub request_id : DatabaseId
  pub country_code : Option Str

module _ {Json : Type 0} (g : Global Json) where
  abbrev pub Step : Type 0 → Type 0
  Step A = Tx g.failures g.Db (InternalEvent Json) ApiError A

  -- A result of a transaction, with the errors of the server made one.
  abbrev pub into_api :
      {T : Type 0} → Result T (TransactionError g.failures ApiError) → Result T ApiError
  into_api (ok a) = ok a
  into_api (err (custom e)) = err e
  into_api (err _) =
      err (internal_server_error ApiErrorCode.transaction_error (bytes "transaction failed"))

  -- What an operation comes to: an answer at once, or a closure for `transaction_with_mutex`, on
  -- the mutex of the set.
  pub data Plan (T : Type 0) : Type 0 where
    answer : Result T ApiError → Plan T
    transact : Step T → Plan T

  abbrev pub then_plan : {A T : Type 0} → Result A ApiError → (A → Plan T) → Plan T
  then_plan (ok a) f = f a
  then_plan (err e) f = answer (err e)

  -- How a plan comes to a closure.
  pub then_plan-transact :
      {A T : Type 0} (r : Result A ApiError) (f : A → Plan T) (step : Step T)
      → then_plan r f ≡ transact step
      → (a : A) × (r ≡ ok a) × (f a ≡ transact step)
  then_plan-transact (ok a) f step h = (a, refl, h)
  then_plan-transact (err e) f step h = absurd cc

  pub answer-transact :
      {T : Type 0} (test : Bool) (r : Result T ApiError) (rest : Plan T) (step : Step T)
      → (if test then answer r else rest) ≡ transact step
      → (test ≡ false) × (rest ≡ transact step)
  answer-transact true r rest step h = absurd cc
  answer-transact false r rest step h = (refl, h)

  pub transact_injective : {T : Type 0} (a b : Step T) → transact a ≡ transact b → a ≡ b
  transact_injective a b h = cc
