-- ===== src/Api/Transactions/Limit.antt =====
-- The bound on the passes of `transaction` (apps/api/src/transactions/mod.rs).
use tv.Prelude.{
  ℕ, suc, ◌+◌, ◌≤◌, ◌≡◌, refl, inl, inr, arith, true, false, Option, none, some, List, [], ◌∷◌, All,
  length, ltb, Bool-cases, Option-cases,
}
use tv.Prelude.Results.{Result, ok, Result-cases}
use tv.Api.Transactions.{
  Failures, TransactionError, Attempt, Commitment, committed, retry_operation, failed, Outcome,
  retry_commit, run, transaction, is_transient, map_some, after,
}

module _ {failures : Failures} {Db Event T E : Type 0}
    (stored_event : List Event → Option (Db → Db))
    (f : List Event → Db → Result (T × List Event × Db) (TransactionError failures E)) where
  -- The commit loop of the attempt comes to an end, whatever is committed.
  abbrev pub Decides : Attempt failures Db → Type 0
  Decides a =
      (insert : Option (Db → Db)) (db : Db)
      → (c : Commitment failures × List Db) × (retry_commit failures insert db a.commits ≡ some c)

  no_result : (o : Outcome failures Db Event T E) → some o ≡ none → ⊥
  no_result o h = cc

  map_some-none : {A B : Type 0} (g : A → B) (o : Option A) → map_some g o ≡ none → o ≡ none
  map_some-none g none h = refl
  map_some-none g (some a) h = absurd cc

  commitment-goes_on :
      (n : ℕ) (a : Attempt failures Db) (attempts : List (Attempt failures Db)) (output : T)
      (events : List Event) (db : Db)
      → ltb 10 n ≡ false
      → a.reset ≡ none
      → f [] a.db ≡ ok (output, events, db)
      → (c : Commitment failures × List Db)
      → retry_commit failures (stored_event events) db a.commits ≡ some c
      → (run failures stored_event f (suc n) attempts ≡ none → ⊥)
      → run failures stored_event f n (a ∷ attempts) ≡ none
      → ⊥
  unfolding run
  commitment-goes_on n a attempts output events db more ready ran (committed, dbs) c later h =
      no_result _ (rw (run, more, ready, ran, c) at h)
  commitment-goes_on n a attempts output events db more ready ran (retry_operation, dbs) c later h =
      later
        (map_some-none (after failures stored_event f dbs) _ (rw (run, more, ready, ran, c) at h))
  commitment-goes_on n a attempts output events db more ready ran (failed e, dbs) c later h =
      no_result _ (rw (run, more, ready, ran, c) at h)

  run-goes_on :
      (n : ℕ) (attempts : List (Attempt failures Db))
      → 11 ≤ n + length attempts
      → All Decides attempts
      → run failures stored_event f n attempts ≡ none
      → ⊥
  unfolding run
  run-goes_on n [] enough decides h =
      let full : ltb 10 n ≡ true = ground arith in no_result _ (rw (run, full) at h)
  run-goes_on n (a ∷ attempts) enough decides h = elim (Bool-cases (ltb 10 n)) [
    | inl full ↦ no_result _ (rw (run, full) at h)
    | inr more ↦ elim (Option-cases a.reset) [
      | inr (e, no_session) ↦ no_result _ (rw (run, more, no_session) at h)
      | inl ready ↦
          let later = run-goes_on (suc n) attempts (omega arith) decides.1 in
          elim (Result-cases (f [] a.db)) [
            | inr (e, ran) ↦ elim (Bool-cases (is_transient failures stored_event f e)) [
              | inl retried ↦ later (rw (run, more, ready, ran, retried) at h)
              | inr fatal ↦ elim (Option-cases a.abort_transaction) [
                | inl aborted ↦ no_result _ (rw (run, more, ready, ran, fatal, aborted) at h)
                | inr (x, stuck) ↦ no_result _ (rw (run, more, ready, ran, fatal, stuck) at h)
              ]
            ]
            | inl ((output, events, db), ran) ↦
                let (c, decided) = decides.0 (stored_event events) db in
                commitment-goes_on n a attempts output events db more ready ran c decided later h
          ]
    ]
  ]

  -- A call comes to a result within eleven passes, whatever the closure and the database answer,
  -- if each commit loop comes to a decision.
  pub transaction-ends :
      (start : Option failures.MongoError) (attempts : List (Attempt failures Db))
      → 11 ≤ length attempts
      → All Decides attempts
      → (o : Outcome failures Db Event T E) × (transaction failures stored_event f start attempts
          ≡ some o)
  unfolding transaction
  transaction-ends (some e) attempts enough decides = (_, refl)
  transaction-ends none attempts enough decides =
      elim (Option-cases (run failures stored_event f 0 attempts)) [
        | inl stuck ↦ absurd (run-goes_on 0 attempts (omega arith) decides stuck)
        | inr found ↦ found
      ]
