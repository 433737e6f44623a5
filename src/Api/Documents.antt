-- ===== src/Api/Documents.antt =====
-- A collection of MongoDB documents as the methods of `TransactionSession` use it
-- (apps/api/src/transactions/mod.rs). MongoDB is not in the repository: its operations are an
-- interface with the laws that it documents for a filter on `_id` and one more condition, with
-- `ReturnDocument::After`. An update is given by what it makes of a document.
use tv.Prelude.{◌≡◌, refl, Bool-cases, inl, inr, true, Bool, Option, none, some, Eq, if◌then◌else◌}
use tv.Prelude.Results.{Result, ok}

module _ {Doc : Type 0} where
  -- What a find-and-update gives back, and what it leaves in the document's place.
  abbrev pub updated : (Doc → Bool) → (Doc → Doc) → Option Doc → Option Doc
  updated matches change none = none
  updated matches change (some d) = if matches d then some (change d) else none

  abbrev pub replaced : (Doc → Bool) → (Doc → Doc) → Option Doc → Option Doc
  replaced matches change none = none
  replaced matches change (some d) = some (if matches d then change d else d)

  -- An update that found its document: what it wrote is what it gives back, and is stored.
  pub updated-some :
      (matches : Doc → Bool) (change : Doc → Doc) (o : Option Doc) (after : Doc)
      → some after ≡ updated matches change o
      → (before : Doc) × (o ≡ some before)
        × (matches before ≡ true)
        × (after ≡ change before)
        × (replaced matches change o ≡ some after)
  updated-some matches change none after h = absurd cc
  updated-some matches change (some d) after h = elim (Bool-cases (matches d)) [
    | inl met ↦
        let same : some after ≡ some (change d) = rw (met) at h in (d, refl, met, cc, rw (met) cc)
    | inr unmet ↦ absurd (let clash : some after ≡ none = rw (unmet) at h in cc)
  ]

pub record Collection (Db Key Doc MongoError : Type 0) ⦃keys : Eq Key⦄ : Type 0 where
  pub document : Db → Key → Option Doc
  pub find_one : Db → Key → Result (Option Doc) MongoError
  pub find_one_and_update :
      Db → Key → (Doc → Bool) → (Doc → Doc) → Result (Option Doc × Db) MongoError
  pub find_one_and_delete : Db → Key → Result (Option Doc × Db) MongoError
  pub find_one_lem : (db : Db) (k : Key) (o : Option Doc) → find_one db k ≡ ok o → o ≡ document db k
  pub update_result :
      (db : Db) (k : Key) (matches : Doc → Bool) (change : Doc → Doc) (o : Option Doc) (db' : Db)
      → find_one_and_update db k matches change ≡ ok (o, db')
      → o ≡ updated matches change (document db k)
  pub update_document :
      (db : Db) (k : Key) (matches : Doc → Bool) (change : Doc → Doc) (o : Option Doc) (db' : Db)
      → find_one_and_update db k matches change ≡ ok (o, db')
      → (j : Key)
      → document db' j
        ≡ (if keys.beq k j then replaced matches change (document db k) else document db j)
  pub delete_result :
      (db : Db) (k : Key) (o : Option Doc) (db' : Db)
      → find_one_and_delete db k ≡ ok (o, db')
      → o ≡ document db k
  pub delete_document :
      (db : Db) (k : Key) (o : Option Doc) (db' : Db)
      → find_one_and_delete db k ≡ ok (o, db')
      → (j : Key) → document db' j ≡ (if keys.beq k j then none else document db j)
