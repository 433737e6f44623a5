-- ===== src/Api/Transactions/Tests.antt =====
-- A transaction of a counter: its first commit is of unknown outcome, takes effect, and then meets a
-- transient error, so that the closure is run again. Stored events add ten.
use tv.Prelude.{ℕ, suc, ◌+◌, ◌==◌, ◌≡◌, refl, arith, true, Option, none, some, List, [], ◌∷◌, ◌++◌}
use tv.Prelude.Results.{Result, ok}
use tv.Api.Transactions.{
  Failures, TransactionError, Attempt, Commit, retry_operation, Outcome, retry_commit, run,
  transaction,
}
use tv.Api.Transactions.Atomic.{Explained, transaction-Explained}
use tv.Api.Transactions.Limit.{Decides, transaction-ends}

abbrev driver : Failures
driver = record {
  MongoError = ℕ;
  EncodeError = Unit;
  PublishError = Unit;
  RedisError = Unit;
  unknown_commit_result = λ e. e == 1;
  transient = λ e. e == 2;
}

abbrev increment : List ℕ → ℕ → Result (ℕ × List ℕ × ℕ) (TransactionError driver ℕ)
increment events db = ok (db, events ++ db ∷ [], suc db)

abbrev attempt : ℕ → List (Commit driver) → Attempt driver ℕ
attempt db commits = record {
  reset = none;
  db = db;
  commits = commits;
  encode = none;
  publish = none;
  abort_transaction = none;
}

abbrev commit : Option ℕ → Commit driver
commit e = record { insert_many = none; commit_transaction = e; applied = true }

abbrev attempts : List (Attempt driver ℕ)
attempts = attempt 7 (commit (some 1) ∷ commit (some 2) ∷ []) ∷ attempt 18 (commit none ∷ []) ∷ []

abbrev stores : List ℕ → Option (ℕ → ℕ)
stores [] = none
stores (e ∷ events) = some (λ db. db + 10)

abbrev outcome : Outcome driver ℕ ℕ ℕ ℕ
outcome = record { result = ok 18; stored = 18 ∷ 29 ∷ []; published = 18 ∷ [] }

transaction-Explained_example :
    Explained stores increment attempts outcome.result outcome.stored outcome.published
unfolding transaction run retry_commit
transaction-Explained_example = transaction-Explained stores increment none attempts outcome refl

abbrev hopeless : List (Attempt driver ℕ)
hopeless =
    let a = attempt 7 (commit (some 2) ∷ []) in a ∷ a ∷ a ∷ a ∷ a ∷ a ∷ a ∷ a ∷ a ∷ a ∷ a ∷ []

abbrev hopeless_decides :
    Decides {failures = driver} stores increment (attempt 7 (commit (some 2) ∷ []))
unfolding retry_commit
hopeless_decides none db = ((retry_operation, []), refl)
hopeless_decides (some insert) db = ((retry_operation, []), refl)

transaction-ends_example :
    (o : Outcome driver ℕ ℕ ℕ ℕ) × (transaction driver stores increment none hopeless ≡ some o)
transaction-ends_example =
    let d = hopeless_decides in
    transaction-ends stores increment none hopeless (omega arith)
      (d, (d, (d, (d, (d, (d, (d, (d, (d, (d, (d, tt)))))))))))
