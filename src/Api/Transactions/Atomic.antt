-- ===== src/Api/Transactions/Atomic.antt =====
-- What a call of `transaction` leaves behind (apps/api/src/transactions/mod.rs): how the result,
-- the databases that were committed and the published events belong together.
use tv.Prelude.{
  ℕ, suc, ◌≡◌, refl, sym, ap, ◌∙◌, ◌⊎◌, inl, inr, false, Option, none, some, List, [], ◌∷◌, ◌++◌,
  ltb, Bool-cases, Option-cases, All,
}
use mathlib.Core.Path.{subst}
use tv.Api.Transactions.Committing.{
  Exists, All-append, All-map, Doubtful, Final, retry_commit-Left, some_injective,
}
use mathlib.Core.List.{append-nil, append_assoc}
use tv.Prelude.Results.{Result, ok, err, Result-cases}
use tv.Api.Transactions.{
  Failures, TransactionError, Attempt, Commitment, committed, retry_operation, failed, Outcome,
  mongo, too_many_failures, event_serialize, event_publish, retry_commit, run, transaction, refusal,
  is_transient, publish_events, after, map_some,
}

module _ {failures : Failures} {Db Event T E : Type 0}
    (stored_event : List Event → Option (Db → Db))
    (f : List Event → Db → Result (T × List Event × Db) (TransactionError failures E)) where
  open failures use {PublishError, EncodeError}

  -- A pass of the closure, from no events, of which `last` was committed.
  abbrev pub Commits : T → List Event → Db → Attempt failures Db → Type 0
  Commits output events last a =
      (db : Db) × (f [] a.db ≡ ok (output, events, db))
      × Final (stored_event events) db a.commits last

  -- A pass of the closure of which a commit of unknown result may have left `d`.
  abbrev pub Doubted : Attempt failures Db → Db → Type 0
  Doubted a d =
      (output : T) × (events : List Event) × (db : Db) × (f [] a.db ≡ ok (output, events, db))
      × Doubtful (stored_event events) db a.commits d

  abbrev pub AllDoubted : List (Attempt failures Db) → List Db → Type 0
  AllDoubted attempts dbs = All (λ d. Exists (λ a. Doubted a d) attempts) dbs

  -- What is stored is that of a pass which was committed, after what was left by commits of
  -- unknown result.
  abbrev pub Stores : List (Attempt failures Db) → T → List Event → List Db → Type 0
  Stores attempts output events stored =
      (earlier : List Db) × (last : Db) × (stored ≡ earlier ++ last ∷ [])
      × AllDoubted attempts earlier
      × Exists (Commits output events last) attempts

  -- Only the publication, which comes after the commit, can fail with the changes stored.
  abbrev pub IsPublication : TransactionError failures E → Type 0
  IsPublication (event_publish e) = Unit
  IsPublication (event_serialize e) = Unit
  IsPublication _ = ⊥

  abbrev pub Explained :
      List (Attempt failures Db)
      → Result T (TransactionError failures E)
      → List Db
      → List Event
      → Type 0
  Explained attempts (ok output) stored published = Stores attempts output published stored
  Explained attempts (err e) stored published =
      (published ≡ [])
      × (AllDoubted attempts stored
          ⊎ ((output : T) × (events : List Event) × IsPublication e
              × Stores attempts output events stored))

  AllDoubted-later :
      (a : Attempt failures Db) (attempts : List (Attempt failures Db)) (dbs : List Db)
      → AllDoubted attempts dbs
      → AllDoubted (a ∷ attempts) dbs
  AllDoubted-later a attempts =
      All-map (λ d. Exists (λ x. Doubted x d) attempts)
        (λ d. Exists (λ x. Doubted x d) (a ∷ attempts)) (λ d h. inr h)

  AllDoubted-append :
      (attempts : List (Attempt failures Db)) (xs ys : List Db)
      → AllDoubted attempts xs
      → AllDoubted attempts ys
      → AllDoubted attempts (xs ++ ys)
  AllDoubted-append attempts = All-append (λ d. Exists (λ a. Doubted a d) attempts)

  Stores-later :
      (a : Attempt failures Db) (attempts : List (Attempt failures Db)) (dbs : List Db) (output : T)
      (events : List Event) (stored : List Db)
      → AllDoubted (a ∷ attempts) dbs
      → Stores attempts output events stored
      → Stores (a ∷ attempts) output events (dbs ++ stored)
  Stores-later a attempts dbs output events stored doubts (earlier, last, e, old, x) = (
    dbs ++ earlier,
    last,
    ap (λ l. dbs ++ l) e ∙ sym (append_assoc dbs earlier (last ∷ [])),
    AllDoubted-append (a ∷ attempts) dbs earlier doubts (AllDoubted-later a attempts earlier old),
    inr x,
  )

  Explained-later :
      (a : Attempt failures Db) (attempts : List (Attempt failures Db)) (dbs : List Db)
      (r : Result T (TransactionError failures E)) (stored : List Db) (published : List Event)
      → AllDoubted (a ∷ attempts) dbs
      → Explained attempts r stored published
      → Explained (a ∷ attempts) r (dbs ++ stored) published
  Explained-later a attempts dbs (ok output) stored published doubts h =
      Stores-later a attempts dbs output published stored doubts h
  Explained-later a attempts dbs (err e) stored published doubts (nothing, inl h) = (
    nothing,
    inl (AllDoubted-append (a ∷ attempts) dbs stored doubts (AllDoubted-later a attempts stored h)),
  )
  Explained-later a attempts dbs (err e) stored published doubts (nothing, inr (o, es, p, h)) =
      (nothing, inr (o, es, p, Stores-later a attempts dbs o es stored doubts h))

  -- The outcomes of one pass, after its commits.
  refusal-Explained :
      (attempts : List (Attempt failures Db)) (dbs : List Db) (e : TransactionError failures E)
      (o : Outcome failures Db Event T E)
      → AllDoubted attempts dbs
      → some (after failures stored_event f dbs (refusal failures stored_event f e)) ≡ some o
      → Explained attempts o.result o.stored o.published
  refusal-Explained attempts dbs e o doubts h =
      subst (λ x. Explained attempts x.result x.stored x.published) (some_injective _ _ h)
        (refl, inl (subst (AllDoubted attempts) (sym (append-nil dbs)) doubts))

  publish_cases :
      (attempts : List (Attempt failures Db)) (dbs : List Db) (output : T) (events : List Event)
      (e : Option EncodeError) (p : Option PublishError)
      → Stores attempts output events (dbs ++ [])
      → let o =
          after failures stored_event f dbs
            (publish_events failures stored_event f output events e p) in
        Explained attempts o.result o.stored o.published
  publish_cases attempts dbs output events (some e) p h = (refl, inr (output, events, tt, h))
  publish_cases attempts dbs output events none (some e) h = (refl, inr (output, events, tt, h))
  publish_cases attempts dbs output events none none h = h

  publish_events-Explained :
      (attempts : List (Attempt failures Db)) (dbs : List Db) (output : T) (events : List Event)
      (e : Option EncodeError) (p : Option PublishError)
      → Stores attempts output events dbs
      → let o =
          after failures stored_event f dbs
            (publish_events failures stored_event f output events e p) in
        Explained attempts o.result o.stored o.published
  publish_events-Explained attempts dbs output events e p h =
      publish_cases attempts dbs output events e p
        (subst (Stores attempts output events) (sym (append-nil dbs)) h)

  -- What the commits of a pass left.
  AllDoubted-Left :
      (a : Attempt failures Db) (attempts : List (Attempt failures Db)) (output : T)
      (events : List Event) (db : Db) (dbs : List Db)
      → f [] a.db ≡ ok (output, events, db)
      → All (Doubtful (stored_event events) db a.commits) dbs
      → AllDoubted (a ∷ attempts) dbs
  AllDoubted-Left a attempts output events db = λ dbs ran.
      All-map (Doubtful (stored_event events) db a.commits)
        (λ d. Exists (λ x. Doubted x d) (a ∷ attempts)) (λ d h. inl (output, events, db, ran, h))
        dbs

  commit-Explained :
      (n : ℕ) (a : Attempt failures Db) (attempts : List (Attempt failures Db)) (output : T)
      (events : List Event) (db : Db) (o : Outcome failures Db Event T E)
      → ltb 10 n ≡ false
      → a.reset ≡ none
      → f [] a.db ≡ ok (output, events, db)
      → (c : Option (Commitment failures × List Db))
      → retry_commit failures (stored_event events) db a.commits ≡ c
      → run failures stored_event f n (a ∷ attempts) ≡ some o
      → ((dbs : List Db) × AllDoubted (a ∷ attempts) dbs
          × (map_some
                (after failures stored_event f dbs)
                (run failures stored_event f (suc n) attempts)
              ≡ some o))
        ⊎ Explained (a ∷ attempts) o.result o.stored o.published
  unfolding run
  commit-Explained n a attempts output events db o more ready ran none c h =
      absurd (let clash : none ≡ some o = rw (run, more, ready, ran, c) at h in cc)
  commit-Explained n a attempts output events db o more ready ran (some (committed, dbs)) c h =
      let (earlier, last, e, doubts, final) =
        retry_commit-Left (stored_event events) a.commits db (committed, dbs) c in
      let same : some (
            after failures stored_event f dbs
              (publish_events failures stored_event f output events a.encode a.publish))
          ≡ some o =
        rw (run, more, ready, ran, c) at h in
      inr (
        subst (λ x. Explained (a ∷ attempts) x.result x.stored x.published)
          (some_injective _ _ same)
          (publish_events-Explained (a ∷ attempts) dbs output events a.encode a.publish (
            earlier,
            last,
            e,
            AllDoubted-Left a attempts output events db earlier ran doubts,
            inl (db, ran, final),
          )))
  commit-Explained n a attempts output events db o more ready ran (some (retry_operation, dbs)) c
        h =
      inl (
        dbs,
        AllDoubted-Left a attempts output events db dbs ran
            (retry_commit-Left (stored_event events) a.commits db (retry_operation, dbs) c),
        rw (run, more, ready, ran, c) at h,
      )
  commit-Explained n a attempts output events db o more ready ran (some (failed e, dbs)) c h = inr (
      refusal-Explained (a ∷ attempts) dbs (mongo e) o
        (AllDoubted-Left a attempts output events db dbs ran
          (retry_commit-Left (stored_event events) a.commits db (failed e, dbs) c))
        (rw (run, more, ready, ran, c) at h))

  run-Explained :
      (n : ℕ) (attempts : List (Attempt failures Db)) (o : Outcome failures Db Event T E)
      → run failures stored_event f n attempts ≡ some o
      → Explained attempts o.result o.stored o.published
  unfolding run
  run-Explained n [] o h = elim (Bool-cases (ltb 10 n)) [
    | inl full ↦ refusal-Explained [] [] (too_many_failures) o tt (rw (run, full) at h)
    | inr more ↦ absurd (let clash : none ≡ some o = rw (run, more) at h in cc)
  ]
  run-Explained n (a ∷ attempts) o h = elim (Bool-cases (ltb 10 n)) [
    | inl full ↦ refusal-Explained (a ∷ attempts) [] (too_many_failures) o tt (rw (run, full) at h)
    | inr more ↦ elim (Option-cases a.reset) [
      | inr (e, no_session) ↦
          refusal-Explained (a ∷ attempts) [] (mongo e) o tt (rw (run, more, no_session) at h)
      | inl ready ↦ elim (Result-cases (f [] a.db)) [
        | inr (e, ran) ↦ elim (Bool-cases (is_transient failures stored_event f e)) [
          | inl retried ↦
              Explained-later a attempts [] o.result o.stored o.published tt
                (run-Explained (suc n) attempts o (rw (run, more, ready, ran, retried) at h))
          | inr fatal ↦ elim (Option-cases a.abort_transaction) [
            | inl aborted ↦
                refusal-Explained (a ∷ attempts) [] e o tt
                  (rw (run, more, ready, ran, fatal, aborted) at h)
            | inr (x, stuck) ↦
                refusal-Explained (a ∷ attempts) [] (mongo x) o tt
                  (rw (run, more, ready, ran, fatal, stuck) at h)
          ]
        ]
        | inl ((output, events, db), ran) ↦
            elim (commit-Explained n a attempts output events db o more ready ran
              (retry_commit failures (stored_event events) db a.commits) refl h) [
                | inr done ↦ done
                | inl (dbs, doubts, again) ↦
                    elim (Option-cases (run failures stored_event f (suc n) attempts)) [
                      | inl stuck ↦ absurd (let clash : none ≡ some o = rw (stuck) at again in cc)
                      | inr (later, found) ↦
                          let same : some (after failures stored_event f dbs later) ≡ some o =
                            rw (found) at again in
                          subst (λ x. Explained (a ∷ attempts) x.result x.stored x.published)
                            (some_injective _ _ same)
                            (Explained-later a attempts dbs later.result later.stored
                              later.published doubts (run-Explained (suc n) attempts later found))
                    ]
              ]
      ]
    ]
  ]

  -- The output of a call is that of a pass which was committed; the events published are those
  -- that the pass registered, and what is stored last is what it wrote, with its stored events.
  -- On an error nothing is published, and nothing stored, unless it is the publication that failed
  -- and the rest is as without an error. What is stored beside that was written by a pass of which
  -- a commit was answered by an error with the label for an unknown result.
  pub transaction-Explained :
      (start : Option failures.MongoError) (attempts : List (Attempt failures Db))
      (o : Outcome failures Db Event T E)
      → transaction failures stored_event f start attempts ≡ some o
      → Explained attempts o.result o.stored o.published
  unfolding transaction
  transaction-Explained (some e) attempts o h = refusal-Explained attempts [] (mongo e) o tt h
  transaction-Explained none attempts o h = run-Explained 0 attempts o h
