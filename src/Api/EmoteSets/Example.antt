-- ===== src/Api/EmoteSets/Example.antt =====
-- A concrete `Global` for the examples on emote sets: two stores of documents under their `_id`,
-- which an update may not change, and one user who loads the others.
use tv.Prelude.{
  ◌≡◌, ◌⊎◌, ◌∷◌, ◌++◌, length, any, sym, and_split, refl, ap, ◌∙◌, ◌+◌, arith, ℕ, Bool, true, false,
  ◌==◌, ==_iff, Option, none, some, List, nat_eq, if◌then◌else◌, Bool-cases, inl, inr,
}
use mathlib.Core.Path.{subst}
use tv.Prelude.HashMap.{HashMap}
use tv.Prelude.Results.{Result, ok, err}
use tv.Api.Documents.{Collection, updated, replaced}
use tv.Api.Transactions.{Failures}
use tv.Api.Emotes.{Emote, EmoteId}
use tv.Api.Sessions.{FullUser}
use tv.Api.EmoteSets.{EmoteSet, EmoteSetEmote, EmoteSetEmoteId}
use tv.Api.EmoteSets.Global.{Global, names_entries}
use tv.Api.EmoteSets.Add.{position}
use tv.Api.EmoteSets.Positions.{first_cases}

abbrev pub Table : Type 0 → Type 0
Table Doc = ℕ → Option Doc

abbrev pub guarded {ℓ} : {A : Type ℓ} → Bool → A → Result A ℕ
guarded true a = ok a
guarded false a = err 66

pub guarded-ok {ℓ} : {A : Type ℓ} (b : Bool) (a c : A) → guarded b a ≡ ok c → (b ≡ true) × (c ≡ a)
guarded-ok true a c h = (refl, cc)
guarded-ok false a c h = absurd cc

module _ {Doc : Type 0} (id : Doc → ℕ) where
  abbrev pub at_key : ℕ → Option Doc → Option Doc
  at_key k none = none
  at_key k (some d) = if id d == k then some d else none

  abbrev pub is_kept : ℕ → Option Doc → Bool
  is_kept k none = true
  is_kept k (some d) = id d == k

  pub at_key-replaced :
      (k : ℕ) (matches : Doc → Bool) (change : Doc → Doc) (o : Option Doc)
      → is_kept k (updated matches change (at_key k o)) ≡ true
      → at_key k (replaced matches change (at_key k o)) ≡ replaced matches change (at_key k o)
  at_key-replaced k matches change none kept = refl
  at_key-replaced k matches change (some d) kept = ground arith

  abbrev pub write : Table Doc → ℕ → Option Doc → Table Doc
  write t k o j = if k == j then o else t j

  pub at_key-id : (k : ℕ) (o : Option Doc) (d : Doc) → at_key k o ≡ some d → id d ≡ k
  at_key-id k none d h = absurd cc
  at_key-id k (some c) d h = elim (Bool-cases (id c == k)) [
    | inl same ↦
        let found : some c ≡ some d = rw (same) at h in
        let equal : d ≡ c = cc in ap id equal ∙ (==_iff (id c) k).0 same
    | inr other ↦ absurd (let clash : none ≡ some d = rw (other) at h in cc)
  ]

  pub at_key-write :
      (t : Table Doc) (k j : ℕ) (o : Option Doc)
      → at_key k o ≡ o
      → at_key j (write t k o j) ≡ (if k == j then o else at_key j (t j))
  at_key-write t k j o kept = elim (Bool-cases (k == j)) [
    | inl same ↦
        let equal : k ≡ j = (==_iff k j).0 same in
        rw (same) (subst (λ i. at_key i o ≡ o) equal kept)
    | inr other ↦ rw (other) refl
  ]

  -- The tables stand in the database `Db`.
  module _ {Db : Type 0} (get : Db → Table Doc) (put : Db → Table Doc → Db)
      (get-put : (db : Db) (t : Table Doc) → get (put db t) ≡ t) where
    abbrev pub document : Db → ℕ → Option Doc
    document db k = at_key k (get db k)

    abbrev pub update : Db → ℕ → (Doc → Bool) → (Doc → Doc) → Result (Option Doc × Db) ℕ
    update db k matches change = guarded (is_kept k (updated matches change (document db k))) (
      updated matches change (document db k),
      put db (write (get db) k (replaced matches change (document db k))),
    )

    pub update-ok :
        (db : Db) (k : ℕ) (matches : Doc → Bool) (change : Doc → Doc) (o : Option Doc) (db' : Db)
        → update db k matches change ≡ ok (o, db')
        → (is_kept k (updated matches change (document db k)) ≡ true)
          × (o ≡ updated matches change (document db k))
          × (db' ≡ put db (write (get db) k (replaced matches change (document db k))))
    update-ok db k matches change o db' h =
        let (kept, same) =
          guarded-ok (is_kept k (updated matches change (document db k))) _ (o, db') h in
        (kept, ap (λ t. t.0) same, ap (λ t. t.1) same)

    pub update_table :
        (db : Db) (k : ℕ) (matches : Doc → Bool) (change : Doc → Doc) (o : Option Doc) (db' : Db)
        → update db k matches change ≡ ok (o, db')
        → (j : ℕ)
        → document db' j
          ≡ (if k == j then replaced matches change (document db k) else document db j)
    update_table db k matches change o db' h j =
        let (kept, found, same) = update-ok db k matches change o db' h in
        let stands =
          at_key-write (get db) k j (replaced matches change (document db k))
            (at_key-replaced k matches change (get db k) kept) in
        rw (same, get-put db (write (get db) k (replaced matches change (document db k)))) stands

    pub delete_table :
        (db : Db) (k : ℕ) (o : Option Doc) (db' : Db)
        → guarded {A = Option Doc × Db} true (document db k, put db (write (get db) k none))
          ≡ ok (o, db')
        → (j : ℕ) → document db' j ≡ (if k == j then none else document db j)
    delete_table db k o db' h j =
        let (_, same) = guarded-ok true _ (o, db') h in
        rw (ap (λ t. t.1) same, get-put db (write (get db) k none))
          (at_key-write (get db) k j none refl)

    abbrev pub table : Collection Db ℕ Doc ℕ
    table = record {
      document = document;
      find_one = λ db k. guarded true (document db k);
      find_one_and_update = update;
      find_one_and_delete = λ db k. guarded true (document db k, put db (write (get db) k none));
      find_one_lem = λ db k o h. (guarded-ok true (document db k) o h).1;
      update_result = λ db k matches change o db' h. (update-ok db k matches change o db' h).1;
      update_document = update_table;
      delete_result = λ db k o db' h. ap (λ t. t.0) (guarded-ok true _ (o, db') h).1;
      delete_document = delete_table;
    }

pub record Database : Type 0 where
  pub sets : Table EmoteSet
  pub emotes : Table Emote
  pub pending : ℕ

abbrev pub failures : Failures
failures = record {
  MongoError = ℕ;
  EncodeError = Unit;
  PublishError = Unit;
  RedisError = Unit;
  unknown_commit_result = λ e. e == 1;
  transient = λ e. e == 2;
}

abbrev first_index : Option ℕ → ℕ
first_index none = 0
first_index (some i) = i

-- MongoDB takes the first entry of the emote.
abbrev pub first_of : EmoteSetEmoteId → List EmoteSetEmote → ℕ
first_of id entries = first_index (position (λ (e : EmoteSetEmote). e.id == id.emote_id) entries)

pub first_of-names :
    (id : EmoteSetEmoteId) (s : EmoteSet)
    → names_entries id s ≡ true
    → (xs : List EmoteSetEmote) × (e : EmoteSetEmote) × (ys : List EmoteSetEmote) × (s.emotes
        ≡ xs ++ e ∷ ys)
      × (first_of id s.emotes ≡ length xs)
      × ((e.id ≡ id.emote_id) ⊎ (id.alias ≡ some e.alias))
first_of-names id s h = elim (first_cases (λ (e : EmoteSetEmote). e.id == id.emote_id) s.emotes) [
  | inl (nowhere, absent) ↦
      let there = and_split (any (λ (e : EmoteSetEmote). e.id == id.emote_id) s.emotes) _ h in
      absurd (let clash : true ≡ false = sym there.0 ∙ absent in cc)
  | inr (xs, e, ys, (split, absent, holds), at, found) ↦
      (xs, e, ys, split, ap first_index at, inl ((==_iff e.id id.emote_id).0 holds))
]

-- Users 1 and 2 may do as their permissions say; the loader knows of no merges.
abbrev pub global : (ℕ → Option (FullUser ℕ)) → (List EmoteId → HashMap EmoteId Emote) → Global ℕ
global users found = record {
  failures = failures;
  Db = Database;
  emote_sets =
      table (λ (s : EmoteSet). s.id) (λ (d : Database). d.sets) (λ d t. record d { sets = t })
        (λ d t. refl);
  emotes =
      table (λ (e : Emote). e.id) (λ (d : Database). d.emotes) (λ d t. record d { emotes = t })
        (λ d t. refl);
  find_or_insert = λ db r. guarded true (some r, record db { pending = db.pending + 1 });
  count_pending = λ db u. guarded true (db.pending, db);
  find_or_insert_other = λ db r o db' h k.
      let (_, same) = guarded-ok true _ (o, db') h in rw (ap (λ t. t.1) same) refl;
  count_pending_other = λ db u n db' h k.
      let (_, same) = guarded-ok true _ (n, db') h in rw (ap (λ t. t.1) same) refl;
  document_id = λ db k s h. at_key-id (λ (s : EmoteSet). s.id) k (db.sets k) s h;
  positional = first_of;
  positional_lem = first_of-names;
  user_loader = λ u. some (users u);
  load_fast = λ u. some (users u);
  user_editor_by_id_loader = λ id. some none;
  load_many = λ ids. some (found ids);
  now = 99;
  request_id = 7;
  country_code = none;
}
