-- ===== src/Api/Transactions.antt =====
-- `transaction` of apps/api/src/transactions/mod.rs: a closure is run on a session until it
-- commits, with its events published after the commit. What MongoDB and NATS answer is data: an
-- `Attempt` for each pass of the outer loop, which sees the database as it then is. `none` means
-- that the attempts given are used up. What the closure wrote is passed on to the commit as the
-- new `Db`, into which the stored events are inserted. A commit whose result is unknown may have
-- taken effect. The lock of the session is always free between the calls and is left out.
pub mod Committing
pub mod Atomic
pub mod Limit
pub mod Steps
pub mod Inversion
mod Tests
use tv.Prelude.{
  ℕ, zero, suc, ◌+◌, Bool, true, false, Option, none, some, List, [], ◌∷◌, ◌++◌, ltb, if◌then◌else◌,
}
use tv.Prelude.Results.{Result, ok, err}

abbrev pub map_some {ℓ} : {A B : Type ℓ} → (A → B) → Option A → Option B
map_some f none = none
map_some f (some a) = some (f a)

-- The insertion of the stored events, which is left out where no event is to be stored.
abbrev pub inserted : {Db : Type 0} → Option (Db → Db) → Db → Db
inserted none db = db
inserted (some insert) db = insert db

abbrev pub insertion : {Db E : Type 0} → Option (Db → Db) → Option E → Option E
insertion none e = none
insertion (some insert) e = e

pub data MutexError (RedisError : Type 0) : Type 0 where
  acquire : ℕ → MutexError RedisError
  lost : MutexError RedisError
  redis : RedisError → MutexError RedisError

-- The errors of the libraries. `contains_label` is asked for two labels only.
pub record Failures : Type 1 where
  pub MongoError : Type 0
  pub EncodeError : Type 0
  pub PublishError : Type 0
  pub RedisError : Type 0
  pub unknown_commit_result : MongoError → Bool
  pub transient : MongoError → Bool

module _ (failures : Failures) where
  open failures use {
    MongoError, EncodeError, PublishError, RedisError, unknown_commit_result, transient,
  }

  pub data TransactionError (E : Type 0) : Type 0 where
    mongo : MongoError → TransactionError E
    session_locked : TransactionError E
    event_serialize : EncodeError → TransactionError E
    event_publish : PublishError → TransactionError E
    custom : E → TransactionError E
    too_many_failures : TransactionError E
    redis : RedisError → TransactionError E
    mutex : MutexError RedisError → TransactionError E

  -- One pass of the commit loop: the failure of the insertion of stored events, if it is tried and
  -- fails, and that of the commit. `applied` says whether a commit took effect that is answered by
  -- an error with the label for an unknown result; other errors say that it did not.
  pub record Commit : Type 0 where
    pub insert_many : Option MongoError
    pub commit_transaction : Option MongoError
    pub applied : Bool

  pub record Attempt (Db : Type 0) : Type 0 where
    pub reset : Option MongoError
    pub db : Db
    pub commits : List Commit
    pub encode : Option EncodeError
    pub publish : Option PublishError
    pub abort_transaction : Option MongoError

  pub data Commitment : Type 0 where
    committed : Commitment
    retry_operation : Commitment
    failed : MongoError → Commitment

  abbrev pub add_applied : {Db : Type 0} → Bool → Db → Commitment × List Db → Commitment × List Db
  add_applied true db (c, dbs) = (c, db ∷ dbs)
  add_applied false db (c, dbs) = (c, dbs)

  -- The loop 'retry_commit, with the databases that its commits left in order. It inserts again on
  -- each pass.
  unfoldable pub retry_commit :
      {Db : Type 0} → Option (Db → Db) → Db → List Commit → Option (Commitment × List Db)
  retry_commit insert db [] = none
  retry_commit insert db (c ∷ commits) = elim (insertion insert c.insert_many) [
    | some e ↦ some (failed e, [])
    | none ↦ elim c.commit_transaction [
      | none ↦ some (committed, inserted insert db ∷ [])
      | some e ↦
          let again = retry_commit insert (inserted insert db) commits in
          if unknown_commit_result e
          then map_some (add_applied c.applied (inserted insert db)) again
          else if transient e
          then some (retry_operation, [])
          else some (failed e, [])
    ]
  ]

  -- What a call comes to: its result, the databases that its commits left, the last one last, and
  -- the events that are published.
  pub record Outcome (Db Event T E : Type 0) : Type 0 where
    pub result : Result T (TransactionError E)
    pub stored : List Db
    pub published : List Event

  module _ {Db Event T E : Type 0} (stored_event : List Event → Option (Db → Db))
      (f : List Event → Db → Result (T × List Event × Db) (TransactionError E)) where
    abbrev pub refusal : TransactionError E → Outcome Db Event T E
    refusal e = record { result = err e; stored = []; published = [] }

    -- An outcome after the commits of the passes before it.
    abbrev pub after : List Db → Outcome Db Event T E → Outcome Db Event T E
    after dbs o = record { result = o.result; stored = dbs ++ o.stored; published = o.published }

    abbrev pub is_transient : TransactionError E → Bool
    is_transient (mongo e) = transient e
    is_transient _ = false

    -- The publication, after the commit.
    abbrev pub publish_events :
        T → List Event → Option EncodeError → Option PublishError → Outcome Db Event T E
    publish_events output events (some e) p = refusal (event_serialize e)
    publish_events output events none (some e) = refusal (event_publish e)
    publish_events output events none none = record {
      result = ok output;
      stored = [];
      published = events;
    }

    -- The loop 'retry_operation, with the passes so far.
    unfoldable pub run : ℕ → List (Attempt Db) → Option (Outcome Db Event T E)
    run retry_count [] = if ltb 10 retry_count then some (refusal too_many_failures) else none
    run retry_count (a ∷ attempts) =
        let again = run (suc retry_count) attempts in
        if ltb 10 retry_count then some (refusal too_many_failures) else elim a.reset [
          | some e ↦ some (refusal (mongo e))
          | none ↦ elim (f [] a.db) [
            | ok (output, events, db) ↦ elim (retry_commit (stored_event events) db a.commits) [
              | none ↦ none
              | some (committed, dbs) ↦
                  some (after dbs (publish_events output events a.encode a.publish))
              | some (retry_operation, dbs) ↦ map_some (after dbs) again
              | some (failed e, dbs) ↦ some (after dbs (refusal (mongo e)))
            ]
            | err e ↦ if is_transient e then again else elim a.abort_transaction [
              | none ↦ some (refusal e)
              | some x ↦ some (refusal (mongo x))
            ]
          ]
        ]

    unfoldable pub transaction :
        Option MongoError → List (Attempt Db) → Option (Outcome Db Event T E)
    transaction (some e) attempts = some (refusal (mongo e))
    transaction none attempts = run 0 attempts

  -- What the mutex comes to. A refresh that fails cancels the transaction where it stands, and
  -- what that left is given.
  pub data Locking (Db Event : Type 0) : Type 0 where
    unavailable : MutexError RedisError → Locking Db Event
    held : Locking Db Event
    cancelled : MutexError RedisError → List Db → List Event → Locking Db Event

  abbrev pub with_mutex :
      {Db Event T E : Type 0}
      → Locking Db Event
      → Option (Outcome Db Event T E)
      → Option (Outcome Db Event T E)
  with_mutex (unavailable e) o =
      some (record { result = err (mutex e); stored = []; published = [] })
  with_mutex held o = o
  with_mutex (cancelled e dbs events) o =
      some (record { result = err (mutex e); stored = dbs; published = events })
