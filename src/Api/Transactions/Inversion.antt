-- ===== src/Api/Transactions/Inversion.antt =====
-- What is known of a closure of `transaction` (apps/api/src/transactions/mod.rs) that gave a
-- result: of each of its parts, and of the documents that it read and wrote.
use tv.Prelude.{
  arith, ◌≡◌, refl, sym, ap, ◌∙◌, if◌then◌else◌, Bool, true, false, Option, none, some, List, Eq,
  inl, inr,
}
use tv.Prelude.Results.{Result, ok, err, Result-cases}
use tv.Api.Documents.{Collection, updated, replaced}
use tv.Api.Transactions.{Failures, TransactionError}
use tv.Api.Documents.{updated-some}
use tv.Api.Transactions.Steps.{
  Tx, throw, ◌>>=◌, refuse_if, required, lift, ◌>>◌, driver, find_one, find_one_and_update,
  find_one_and_delete,
}

ok_injective {ℓ κ} :
    {A : Type ℓ} {E : Type κ} (a b : A) (r : Result A E) → r ≡ ok a → r ≡ ok b → a ≡ b
ok_injective a b r p q = cc

module _ {failures : Failures} {Db Event E : Type 0} where
  open failures use {MongoError}

  -- A computation that gives a result went through each of its parts.
  pub >>=-ok :
      {A B : Type 0} (m : Tx failures Db Event E A) (f : A → Tx failures Db Event E B)
      (events : List Event) (db : Db) (r : B × List Event × Db)
      → (m >>= f) events db ≡ ok r
      → (a : A) × (mid : List Event) × (at : Db) × (m events db ≡ ok (a, mid, at))
        × (f a mid at ≡ ok r)
  >>=-ok m f events db r run = elim (Result-cases (m events db)) [
    | inl (t, done) ↦ (t.0, t.1, t.2, done, rw (done, ◌>>=◌) at run)
    | inr (e, done) ↦ absurd (ground arith)
  ]

  pub result_injective :
      {A : Type 0} (a b : A) (events events' : List Event) (db db' : Db)
      → ◌≡◌ {A = Result (A × List Event × Db) (TransactionError failures E)}
          (ok (a, events, db))
          (ok (b, events', db'))
      → (a ≡ b) × (events ≡ events') × (db ≡ db')
  result_injective {A = A} a b events events' db db' h =
      let same : ◌≡◌ {A = A × List Event × Db} (a, events, db) (b, events', db') =
        ok_injective _ _ _ refl h in
      (ap (λ t. t.0) same, ap (λ t. t.1) same, ap (λ t. t.2) same)

  -- What follows a result that is known.
  pub pure-then :
      {A B : Type 0} (a b : A) (f : A → Tx failures Db Event E B) (events events' : List Event)
      (db db' : Db) (r : B × List Event × Db)
      → ◌≡◌ {A = Result (A × List Event × Db) (TransactionError failures E)}
          (ok (a, events, db))
          (ok (b, events', db'))
      → f b events' db' ≡ ok r
      → f a events db ≡ ok r
  pure-then a b f events events' db db' r h rest =
      let (same, se, sd) = result_injective a b events events' db db' h in
      ap (λ x. f x events db) same ∙ ap (λ es. f b es db) se ∙ ap (f b events') sd ∙ rest

  -- The steps that leave the session as it is, at the head of a computation that gave a result.
  pub refuse_if-then :
      {B : Type 0} (test : Bool) (e : E) (rest : Tx failures Db Event E B) (events : List Event)
      (db : Db) (r : B × List Event × Db)
      → (refuse_if test e >> rest) events db ≡ ok r
      → (test ≡ false) × (rest events db ≡ ok r)
  refuse_if-then true e rest events db r run = absurd cc
  refuse_if-then false e rest events db r run = (refl, run)

  pub refuse_if-ok :
      (test : Bool) (e : E) (events events' : List Event) (db db' : Db) (u : Unit {0})
      → refuse_if {failures = failures} test e events db ≡ ok (u, events', db')
      → (test ≡ false) × (events' ≡ events) × (db' ≡ db)
  refuse_if-ok true e events events' db db' u run = absurd (ground arith)
  refuse_if-ok false e events events' db db' u run =
      let (a, b, c) = result_injective tt u events events' db db' run in (refl, sym b, sym c)

  pub throw-fails :
      {A B : Type 0} (e : E) (rest : A → Tx failures Db Event E B) (events : List Event) (db : Db)
      (r : B × List Event × Db)
      → (throw e >>= rest) events db ≡ ok r
      → ⊥
  throw-fails e rest events db r run = cc

  pub required-then :
      {A B : Type 0} (o : Option A) (e : E) (f : A → Tx failures Db Event E B) (events : List Event)
      (db : Db) (r : B × List Event × Db)
      → (required o e >>= f) events db ≡ ok r
      → (a : A) × (o ≡ some a) × (f a events db ≡ ok r)
  required-then (some a) e f events db r run = (a, refl, run)
  required-then none e f events db r run = absurd cc

  pub lift-then :
      {A B : Type 0} (o : Result A E) (f : A → Tx failures Db Event E B) (events : List Event)
      (db : Db) (r : B × List Event × Db)
      → (lift o >>= f) events db ≡ ok r
      → (a : A) × (o ≡ ok a) × (f a events db ≡ ok r)
  lift-then (ok a) f events db r run = (a, refl, run)
  lift-then (err e) f events db r run = absurd cc

  pub driver-ok :
      {A : Type 0} (op : Db → Result (A × Db) MongoError) (events events' : List Event)
      (db db' : Db) (a : A)
      → driver {failures = failures} {E = E} op events db ≡ ok (a, events', db')
      → (op db ≡ ok (a, db')) × (events' ≡ events)
  driver-ok {A = A} op events events' db db' a run = elim (Result-cases (op db)) [
    | inl (r, done) ↦
        let same : ◌≡◌ {A = A × List Event × Db} (r.0, events, r.1) (a, events', db') =
          ok_injective _ _ _ refl (rw (done, driver) at run) in
        (cc, sym (ap (λ t. t.1) same))
    | inr (e, broken) ↦ absurd (ground arith)
  ]

  module _ {Key Doc : Type 0} ⦃keys : Eq Key⦄ (c : Collection Db Key Doc MongoError) where
    pub find_one-then :
        {B : Type 0} (k : Key) (f : Option Doc → Tx failures Db Event E B) (events : List Event)
        (db : Db) (r : B × List Event × Db)
        → (find_one c k >>= f) events db ≡ ok r
        → f (c.document db k) events db ≡ ok r
    find_one-then k f events db r run = elim (Result-cases (c.find_one db k)) [
      | inl (found, done) ↦
          let rest : f found events db ≡ ok r = rw (done, ◌>>=◌, find_one) at run in
          rw (c.find_one_lem db k found done) at rest
      | inr (e, broken) ↦ absurd (ground arith)
    ]

    pub find_one_and_update-ok :
        (k : Key) (matches : Doc → Bool) (change : Doc → Doc) (events events' : List Event)
        (db db' : Db) (o : Option Doc)
        → find_one_and_update {failures = failures} {E = E} c k matches change events db
          ≡ ok (o, events', db')
        → (o ≡ updated matches change (c.document db k))
          × (events' ≡ events)
          × ((j : Key)
              → c.document db' j ≡ (
                  if keys.beq k j
                  then replaced matches change (c.document db k)
                  else c.document db j))
    find_one_and_update-ok k matches change events events' db db' o run =
        let (done, same) =
          driver-ok (λ x. c.find_one_and_update x k matches change) events events' db db' o run in
        (
          c.update_result db k matches change o db' done,
          same,
          c.update_document db k matches change o db' done,
        )

    pub find_one_and_delete-ok :
        (k : Key) (events events' : List Event) (db db' : Db) (o : Option Doc)
        → find_one_and_delete {failures = failures} {E = E} c k events db ≡ ok (o, events', db')
        → (o ≡ c.document db k)
          × (events' ≡ events)
          × ((j : Key) → c.document db' j ≡ (if keys.beq k j then none else c.document db j))
    find_one_and_delete-ok k events events' db db' o run =
        let (done, same) = driver-ok (λ x. c.find_one_and_delete x k) events events' db db' o run in
        (c.delete_result db k o db' done, same, c.delete_document db k o db' done)

  module _ {Key Doc : Type 0} ⦃keys : Eq Key⦄ (c : Collection Db Key Doc MongoError) where
    pub find_one_and_update-some :
        (k : Key) (matches : Doc → Bool) (change : Doc → Doc) (events events' : List Event)
        (db db' : Db) (after : Doc)
        → find_one_and_update {failures = failures} {E = E} c k matches change events db
          ≡ ok (some after, events', db')
        → (before : Doc) × (c.document db k ≡ some before)
          × (matches before ≡ true)
          × (after ≡ change before)
          × (c.document db' k ≡ some after)
          × (events' ≡ events)
    find_one_and_update-some k matches change events events' db db' after run =
        let (found, same, stored) =
          find_one_and_update-ok c k matches change events events' db db' (some after) run in
        let (before, was, met, changed, is) =
          updated-some matches change (c.document db k) after found in
        let here : keys.beq k k ≡ true = (keys.beq_iff k k).1 refl in
        let at_k : c.document db' k ≡ (
            if keys.beq k k then replaced matches change (c.document db k) else c.document db k) =
          stored k in
        let stored' : c.document db' k ≡ replaced matches change (c.document db k) =
          rw (here) at at_k in
        (before, was, met, changed, stored' ∙ is, same)

    -- A find-and-update whose answer is required.
    pub find_one_and_update-then :
        {B : Type 0} (k : Key) (matches : Doc → Bool) (change : Doc → Doc) (e : E)
        (f : Doc → Tx failures Db Event E B) (events : List Event) (db : Db)
        (r : B × List Event × Db)
        → (find_one_and_update c k matches change >>= λ found. required found e >>= f) events db
          ≡ ok r
        → (before : Doc) × (at : Db) × (c.document db k ≡ some before)
          × (matches before ≡ true)
          × (c.document at k ≡ some (change before))
          × (f (change before) events at ≡ ok r)
    find_one_and_update-then k matches change e f events db r run =
        let (found, mid, at, written, rest) =
          >>=-ok (find_one_and_update c k matches change) _ events db r run in
        let (after, is, rest') = required-then found e f mid at r rest in
        let (before, was, met, changed, stands, same) =
          find_one_and_update-some k matches change events mid db at after (rw (is) at written) in
        (before, at, was, met, rw (sym changed) stands, rw (sym same, sym changed) rest')
