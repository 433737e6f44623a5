-- ===== src/Api/EmoteSets/Run.antt =====
-- A whole operation on an emote set: its plan, and for a closure `transaction` with the errors that
-- the operation makes of the transaction's, under the mutex of the set
-- (apps/api/src/http/v4/gql/mutations/emote_set/operation.rs).
mod Tests
use tv.Prelude.{
  ◌≡◌, refl, sym, ap, ◌∙◌, ◌≢◌, inl, inr, arith, Bool, Option, none, some, List, [], ◌∷◌,
  Option-cases,
}
use tv.Prelude.Text.{bytes}
use tv.Prelude.Results.{Result, ok, err}
use tv.Api.Transactions.{
  TransactionError, Attempt, Outcome, Locking, unavailable, held, cancelled, with_mutex, map_some,
  MutexError, transaction, mongo, session_locked, event_serialize, event_publish, custom,
  too_many_failures, redis, mutex,
}
use tv.Api.Transactions.Atomic.{Explained, AllDoubted, IsPublication, transaction-Explained}
use tv.Api.Transactions.Committing.{some_injective}
use tv.Api.Errors.{ApiError, internal_server_error}
use tv.Api.Errors.Codes.{ApiErrorCode}
use tv.Api.EmoteSets.{InternalEvent}
use tv.Api.EmoteSets.Global.{Global, Step, Plan, answer, transact, into_api}

abbrev pub failed : ApiError
failed = internal_server_error ApiErrorCode.transaction_error (bytes "transaction failed")

module _ {Json : Type 0} (g : Global Json)
    (stored_event : List (InternalEvent Json) → Option (g.Db → g.Db)) where
  -- The answer, the databases that commits left, and what is published.
  pub record Answer (T : Type 0) : Type 0 where
    pub result : Result T ApiError
    pub stored : List g.Db
    pub published : List (InternalEvent Json)

  abbrev pub answered :
      {T : Type 0} → Outcome g.failures g.Db (InternalEvent Json) T ApiError → Answer T
  answered o = record { result = into_api g o.result; stored = o.stored; published = o.published }

  unfoldable pub perform :
      {T : Type 0}
      → Locking g.failures g.Db (InternalEvent Json)
      → Option g.failures.MongoError
      → List (Attempt g.failures g.Db)
      → Plan g T
      → Option (Answer T)
  perform lock start attempts (answer r) = some (record { result = r; stored = []; published = [] })
  perform lock start attempts (transact step) =
      map_some answered
        (with_mutex g.failures lock (transaction g.failures stored_event step start attempts))

  -- What is stored is left by commits of unknown result of passes of the closure.
  abbrev pub Doubted : {T : Type 0} → List (Attempt g.failures g.Db) → Plan g T → List g.Db → Type 0
  Doubted attempts (answer r) stored = stored ≡ []
  Doubted attempts (transact step) stored = AllDoubted stored_event step attempts stored

  IsPublication-failed :
      {T : Type 0} (step : Step g T) (e : TransactionError g.failures ApiError) (x : ApiError)
      → IsPublication stored_event step e
      → into_api g {T = T} (err e) ≡ err x
      → x ≡ failed
  IsPublication-failed step (event_publish p) x is h = cc
  IsPublication-failed step (event_serialize p) x is h = cc
  IsPublication-failed step (mongo p) x is h = absurd is
  IsPublication-failed step session_locked x is h = absurd is
  IsPublication-failed step (custom p) x is h = absurd is
  IsPublication-failed step too_many_failures x is h = absurd is
  IsPublication-failed step (redis p) x is h = absurd is
  IsPublication-failed step (mutex p) x is h = absurd is

  mutex_failed :
      {T : Type 0} (step : Step g T) (e : MutexError g.failures.RedisError)
      (o : Outcome g.failures g.Db (InternalEvent Json) T ApiError) (x : ApiError) (dbs : List g.Db)
      (events : List (InternalEvent Json))
      → some (record { result = err (mutex e); stored = dbs; published = events }) ≡ some o
      → into_api g o.result ≡ err x
      → x ≡ failed
  mutex_failed step e o x dbs events h is =
      let same : record { result = err (mutex e); stored = dbs; published = events } ≡ o =
        some_injective _ _ h in
      let told : err failed ≡ err x = ap (λ y. into_api g y.result) same ∙ is in cc

  result-unpublished :
      {T : Type 0} (step : Step g T) (attempts : List (Attempt g.failures g.Db))
      (r : Result T (TransactionError g.failures ApiError)) (x : ApiError) (stored : List g.Db)
      (published : List (InternalEvent Json))
      → Explained stored_event step attempts r stored published
      → into_api g r ≡ err x
      → x ≢ failed
      → (published ≡ []) × AllDoubted stored_event step attempts stored
  result-unpublished step attempts (ok a) x stored published explained h ne =
      absurd (let clash : ok a ≡ err x = h in cc)
  result-unpublished step attempts (err e) x stored published (nothing, inl doubted) h ne =
      (nothing, doubted)
  result-unpublished step attempts (err e) x stored published (nothing, inr (o, es, p, ran)) h ne =
      absurd (ne (IsPublication-failed step e x p h))

  transact-unpublished :
      {T : Type 0} (lock : Locking g.failures g.Db (InternalEvent Json))
      (start : Option g.failures.MongoError) (attempts : List (Attempt g.failures g.Db))
      (step : Step g T) (o : Outcome g.failures g.Db (InternalEvent Json) T ApiError) (x : ApiError)
      → with_mutex g.failures lock (transaction g.failures stored_event step start attempts)
        ≡ some o
      → into_api g o.result ≡ err x
      → x ≢ failed
      → (o.published ≡ []) × AllDoubted stored_event step attempts o.stored
  transact-unpublished (unavailable e) start attempts step o x h is ne =
      absurd (ne (mutex_failed step e o x [] [] h is))
  transact-unpublished (cancelled e dbs events) start attempts step o x h is ne =
      absurd (ne (mutex_failed step e o x dbs events h is))
  transact-unpublished held start attempts step o x h is ne =
      result-unpublished step attempts o.result x o.stored o.published
        (transaction-Explained stored_event step start attempts o h) is ne

  -- An operation that answers an error, other than the one for a failed transaction, publishes no
  -- event, and stores nothing but what a commit of its closure may have left which MongoDB answered
  -- by an error with the label for an unknown result.
  pub perform-unpublished :
      {T : Type 0} (lock : Locking g.failures g.Db (InternalEvent Json))
      (start : Option g.failures.MongoError) (attempts : List (Attempt g.failures g.Db))
      (plan : Plan g T) (a : Answer T) (x : ApiError)
      → perform lock start attempts plan ≡ some a
      → a.result ≡ err x
      → x ≢ failed
      → (a.published ≡ []) × Doubted attempts plan a.stored
  unfolding perform
  perform-unpublished lock start attempts (answer r) a x h is ne =
      let same : a ≡ record { result = r; stored = []; published = [] } = cc in
      rw (same) (refl, refl)
  perform-unpublished lock start attempts (transact step) a x h is ne =
      elim (Option-cases
        (with_mutex g.failures lock (transaction g.failures stored_event step start attempts))) [
          | inl stuck ↦ absurd (let clash : none ≡ some a = rw (perform, stuck) at h in cc)
          | inr (o, done) ↦
              let found : some (answered o) ≡ some a = rw (perform, done) at h in
              let same : a ≡ answered o = cc in
              rw (same)
                (transact-unpublished lock start attempts step o x done (rw (same) at is) ne)
        ]
