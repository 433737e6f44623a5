-- ===== src/Api/Transactions/Committing.antt =====
-- What the commit loop of `transaction` leaves behind (apps/api/src/transactions/mod.rs).
use tv.Prelude.{
  ℕ, zero, suc, ◌≡◌, refl, ap, ◌⊎◌, inl, inr, Bool, true, false, Option, none, some, List, [], ◌∷◌,
  ◌++◌, Bool-cases, Option-cases, All,
}
use mathlib.Core.Path.{subst}
use tv.Api.Transactions.{
  Failures, Commit, Commitment, committed, retry_operation, failed, retry_commit, inserted,
  insertion, add_applied,
}

pub some_injective : {A : Type 0} (a b : A) → some a ≡ some b → a ≡ b
some_injective a b h = cc

abbrev pub Exists {ℓ} : {A : Type ℓ} → (A → Type 0) → List A → Type 0
Exists P [] = ⊥
Exists P (a ∷ rest) = P a ⊎ Exists P rest

module _ {A : Type 0} (P : A → Type 0) where
  pub All-append : (xs ys : List A) → All P xs → All P ys → All P (xs ++ ys)
  All-append [] ys h k = k
  All-append (x ∷ xs) ys h k = (h.0, All-append xs ys h.1 k)

  pub All-map : (Q : A → Type 0) → ((x : A) → P x → Q x) → (xs : List A) → All P xs → All Q xs
  All-map Q g [] h = tt
  All-map Q g (x ∷ xs) h = (g x h.0, All-map Q g xs h.1)

abbrev pub iterate : {A : Type 0} → (A → A) → ℕ → A → A
iterate g zero x = x
iterate g (suc n) x = iterate g n (g x)

-- A database into which the stored events were inserted, once at least.
abbrev pub Written : {Db : Type 0} → Option (Db → Db) → Db → Db → Type 0
Written none db last = last ≡ db
Written (some insert) db last = (n : ℕ) × (last ≡ iterate insert n (insert db))

Written-inserted :
    {Db : Type 0} (insert : Option (Db → Db)) (db : Db) → Written insert db (inserted insert db)
Written-inserted none db = refl
Written-inserted (some insert) db = (0, refl)

Written-again :
    {Db : Type 0} (insert : Option (Db → Db)) (db last : Db)
    → Written insert (inserted insert db) last
    → Written insert db last
Written-again none db last h = h
Written-again (some insert) db last (n, h) = (suc n, h)

module _ {failures : Failures} where
  open failures use {MongoError, unknown_commit_result, transient}

  -- A commit that went through, and one with the label for an unknown result.
  abbrev pub IsDone : Commit failures → Type 0
  IsDone c = c.commit_transaction ≡ none

  abbrev pub IsUnknown : Commit failures → Type 0
  IsUnknown c =
      (e : MongoError) × (c.commit_transaction ≡ some e) × (unknown_commit_result e ≡ true)

  -- A database that a commit of unknown result may have left.
  abbrev pub Doubtful : {Db : Type 0} → Option (Db → Db) → Db → List (Commit failures) → Db → Type 0
  Doubtful insert db commits d = Written insert db d × Exists IsUnknown commits

  abbrev pub Final : {Db : Type 0} → Option (Db → Db) → Db → List (Commit failures) → Db → Type 0
  Final insert db commits d = Written insert db d × Exists IsDone commits

  abbrev pub Left :
      {Db : Type 0}
      → Option (Db → Db)
      → Db
      → List (Commit failures)
      → Commitment failures
      → List Db
      → Type 0
  Left {Db} insert db commits committed dbs =
      (earlier : List Db) × (last : Db) × (dbs ≡ earlier ++ last ∷ [])
      × All (Doubtful insert db commits) earlier
      × Final insert db commits last
  Left insert db commits _ dbs = All (Doubtful insert db commits) dbs

  Doubtful-later :
      {Db : Type 0} (insert : Option (Db → Db)) (db : Db) (c : Commit failures)
      (commits : List (Commit failures)) (d : Db)
      → Doubtful insert (inserted insert db) commits d
      → Doubtful insert db (c ∷ commits) d
  Doubtful-later insert db c commits d h = (Written-again insert db d h.0, inr h.1)

  pub later :
      {Db : Type 0} (insert : Option (Db → Db)) (db : Db) (c : Commit failures)
      (commits : List (Commit failures)) (dbs : List Db)
      → All (Doubtful insert (inserted insert db) commits) dbs
      → All (Doubtful insert db (c ∷ commits)) dbs
  later insert db c commits =
      All-map (Doubtful insert (inserted insert db) commits) (Doubtful insert db (c ∷ commits))
        (Doubtful-later insert db c commits)

  -- The next commit after one of unknown result.
  Left-later :
      {Db : Type 0} (insert : Option (Db → Db)) (db : Db) (c : Commit failures)
      (commits : List (Commit failures)) (applied : Bool) (r : Commitment failures) (dbs : List Db)
      → IsUnknown c
      → Left insert (inserted insert db) commits r dbs
      → let r' = add_applied failures applied (inserted insert db) (r, dbs) in
        Left insert db (c ∷ commits) r'.0 r'.1
  Left-later insert db c commits true committed dbs unknown (earlier, last, e, doubts, final) = (
    inserted insert db ∷ earlier,
    last,
    ap (λ x. inserted insert db ∷ x) e,
    ((Written-inserted insert db, inl unknown), later insert db c commits earlier doubts),
    (Written-again insert db last final.0, inr final.1),
  )
  Left-later insert db c commits false committed dbs unknown (earlier, last, e, doubts, final) = (
    earlier,
    last,
    e,
    later insert db c commits earlier doubts,
    (Written-again insert db last final.0, inr final.1),
  )
  Left-later insert db c commits true retry_operation dbs unknown h =
      ((Written-inserted insert db, inl unknown), later insert db c commits dbs h)
  Left-later insert db c commits false retry_operation dbs unknown h =
      later insert db c commits dbs h
  Left-later insert db c commits true (failed e) dbs unknown h =
      ((Written-inserted insert db, inl unknown), later insert db c commits dbs h)
  Left-later insert db c commits false (failed e) dbs unknown h = later insert db c commits dbs h

  pub retry_commit-Left :
      {Db : Type 0} (insert : Option (Db → Db)) (commits : List (Commit failures)) (db : Db)
      (r : Commitment failures × List Db)
      → retry_commit failures insert db commits ≡ some r
      → Left insert db commits r.0 r.1
  unfolding retry_commit
  retry_commit-Left insert [] db r h = absurd cc
  retry_commit-Left {Db} insert (c ∷ commits) db r h =
      elim (Option-cases (insertion insert c.insert_many)) [
        | inr (e, refused) ↦
            let same : some (failed e, []) ≡ some r = rw (refused, retry_commit) at h in
            subst (λ x. Left insert db (c ∷ commits) x.0 x.1) (some_injective _ _ same) tt
        | inl in_place ↦ elim (Option-cases c.commit_transaction) [
          | inl done ↦
              let same : some (committed, inserted insert db ∷ []) ≡ some r =
                rw (in_place, done, retry_commit) at h in
              subst (λ x. Left insert db (c ∷ commits) x.0 x.1) (some_injective _ _ same)
                ([], inserted insert db, refl, tt, (Written-inserted insert db, inl done))
          | inr (e, answered) ↦ elim (Bool-cases (unknown_commit_result e)) [
            | inl unknown ↦
                elim (Option-cases (retry_commit failures insert (inserted insert db) commits)) [
                  | inl stuck ↦ absurd (
                      let clash : none ≡ some r =
                        rw (in_place, answered, unknown, stuck, retry_commit) at h in
                      cc)
                  | inr (again, found) ↦
                      let same : some (add_applied failures c.applied (inserted insert db) again)
                          ≡ some r =
                        rw (in_place, answered, unknown, found, retry_commit) at h in
                      subst (λ x. Left insert db (c ∷ commits) x.0 x.1) (some_injective _ _ same)
                        (Left-later insert db c commits c.applied again.0 again.1
                          (e, answered, unknown)
                          (retry_commit-Left insert commits (inserted insert db) again found))
                ]
            | inr known ↦ elim (Bool-cases (transient e)) [
              | inl brief ↦
                  let same : some (retry_operation, []) ≡ some r =
                    rw (in_place, answered, known, brief, retry_commit) at h in
                  subst (λ x. Left insert db (c ∷ commits) x.0 x.1) (some_injective _ _ same) tt
              | inr fatal ↦
                  let same : some (failed e, []) ≡ some r =
                    rw (in_place, answered, known, fatal, retry_commit) at h in
                  subst (λ x. Left insert db (c ∷ commits) x.0 x.1) (some_injective _ _ same) tt
            ]
          ]
        ]
      ]
