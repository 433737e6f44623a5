-- ===== src/Api/Transactions/Steps.antt =====
-- The closures that `transaction` runs (apps/api/src/transactions/mod.rs): computations on the
-- session's events and on the database, which stop at an error. The session's methods are the
-- steps.
use tv.Prelude.{Bool, true, false, Option, none, some, List, [], ◌∷◌, ◌++◌, Eq}
use tv.Prelude.Results.{Result, ok, err}
use tv.Api.Documents.{Collection}
use tv.Api.Transactions.{Failures, TransactionError, mongo, custom}

abbrev pub Tx : (failures : Failures) (Db Event E A : Type 0) → Type 0
Tx failures Db Event E A =
    List Event → Db → Result (A × List Event × Db) (TransactionError failures E)

module _ {failures : Failures} {Db Event E : Type 0} where
  open failures use {MongoError}

  abbrev pub pure : {A : Type 0} → A → Tx failures Db Event E A
  pure a events db = ok (a, events, db)

  abbrev pub throw : {A : Type 0} → E → Tx failures Db Event E A
  throw e events db = err (custom e)

  infixl 5 ◌>>=◌ ◌>>◌
  abbrev pub ◌>>=◌ :
      {A B : Type 0}
      → Tx failures Db Event E A
      → (A → Tx failures Db Event E B)
      → Tx failures Db Event E B
  (m >>= f) events db = elim (m events db) [
    | ok (a, events', db') ↦ f a events' db'
    | err e ↦ err e
  ]

  abbrev pub ◌>>◌ :
      {B : Type 0}
      → Tx failures Db Event E (Unit {0})
      → Tx failures Db Event E B
      → Tx failures Db Event E B
  m >> k = m >>= λ _. k

  -- `return Err(TransactionError::Custom(e))` under a condition.
  abbrev pub refuse_if : Bool → E → Tx failures Db Event E (Unit {0})
  refuse_if true e = throw e
  refuse_if false e = pure tt

  -- `ok_or_else(|| TransactionError::Custom(e))?`
  abbrev pub required : {A : Type 0} → Option A → E → Tx failures Db Event E A
  required (some a) e = pure a
  required none e = throw e

  -- `map_err(TransactionError::Custom)?`
  abbrev pub lift : {A : Type 0} → Result A E → Tx failures Db Event E A
  lift (ok a) = pure a
  lift (err e) = throw e

  abbrev pub register_event : Event → Tx failures Db Event E (Unit {0})
  register_event e events db = ok (tt, events ++ e ∷ [], db)

  -- An operation of the driver on the session's database.
  abbrev pub driver : {A : Type 0} → (Db → Result (A × Db) MongoError) → Tx failures Db Event E A
  driver op events db = elim (op db) [ ok (a, db') ↦ ok (a, events, db') | err e ↦ err (mongo e) ]

  module _ {Key Doc : Type 0} ⦃keys : Eq Key⦄ (c : Collection Db Key Doc MongoError) where
    abbrev pub find_one : Key → Tx failures Db Event E (Option Doc)
    find_one k events db = elim (c.find_one db k) [
      | ok o ↦ ok (o, events, db)
      | err e ↦ err (mongo e)
    ]

    abbrev pub find_one_and_update :
        Key → (Doc → Bool) → (Doc → Doc) → Tx failures Db Event E (Option Doc)
    find_one_and_update k matches change = driver (λ db. c.find_one_and_update db k matches change)

    abbrev pub find_one_and_delete : Key → Tx failures Db Event E (Option Doc)
    find_one_and_delete k = driver (λ db. c.find_one_and_delete db k)
