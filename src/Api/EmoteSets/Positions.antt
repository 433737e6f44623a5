-- ===== src/Api/EmoteSets/Positions.antt =====
-- Where an entry stands in a list: what `position`, `nth`, `set_at`, `find` and `change_at` of the
-- operations on emote sets (apps/api/src/http/v4/gql/mutations/emote_set/operation.rs) come to.
use tv.Prelude.{
  ◌≡◌, refl, sym, ap, ◌∙◌, ◌⊎◌, ◌↔◌, inl, inr, Bool, true, false, ◌&&◌, ◌==◌, ==_iff, and_split,
  Option, none, some, List, [], ◌∷◌, ◌++◌, any, length, nat_eq, arith, Bool-cases,
}
use tv.Prelude.Text.{Str, str_eq}
use tv.Api.EmoteSets.{EmoteSetEmote, EmoteSetEmoteId}
use tv.Api.EmoteSets.Global.{is_named}
use tv.Api.EmoteSets.Add.{position, nth, set_at}
use tv.Api.EmoteSets.Update.{find, change_at}

module _ {A : Type 0} where
  -- The first element with a test stands after others without it.
  abbrev pub IsFirst : (A → Bool) → List A → List A → A → List A → Type 0
  IsFirst p xs before x after = (xs ≡ before ++ x ∷ after) × (any p before ≡ false) × (p x ≡ true)

  abbrev HasFirst : (A → Bool) → List A → Type 0
  HasFirst p xs =
      (before : List A) × (x : A) × (after : List A) × IsFirst p xs before x after
      × (position p xs ≡ some (length before))
      × (find p xs ≡ some x)

  pub first_cases :
      (p : A → Bool) (xs : List A) → ((position p xs ≡ none) × (any p xs ≡ false)) ⊎ HasFirst p xs
  first_cases p [] = inl (refl, refl)
  first_cases p (x ∷ xs) = elim (Bool-cases (p x)) [
    | inl here ↦ inr ([], x, xs, (refl, refl, here), rw (here, position) refl, rw (here, find) refl)
    | inr away ↦ elim (first_cases p xs) [
      | inl (nowhere, absent) ↦ inl (rw (away, nowhere, position) refl, rw (away, any) absent)
      | inr (before, y, after, (e, absent, holds), at, found) ↦ inr (
        x ∷ before,
        y,
        after,
        (ap (λ l. x ∷ l) e, rw (away, any) absent, holds),
        rw (away, at, position) refl,
        rw (away, find) found,
      )
    ]
  ]

  pub nth-length :
      (before : List A) (x : A) (after : List A)
      → nth (before ++ x ∷ after) (length before) ≡ some x
  nth-length [] x after = refl
  nth-length (y ∷ before) x after = nth-length before x after

  pub set_at-length :
      (before : List A) (x : A) (after : List A) (y : A)
      → set_at (before ++ x ∷ after) (length before) y ≡ before ++ y ∷ after
  set_at-length [] x after y = refl
  set_at-length (z ∷ before) x after y = ap (λ l. z ∷ l) (set_at-length before x after y)

  pub change_at-length :
      (before : List A) (x : A) (after : List A) (f : A → A)
      → change_at (before ++ x ∷ after) (length before) f ≡ before ++ f x ∷ after
  change_at-length [] x after f = refl
  change_at-length (z ∷ before) x after f = ap (λ l. z ∷ l) (change_at-length before x after f)

  find_nowhere : (p : A → Bool) (xs : List A) (x : A) → any p xs ≡ false → find p xs ≡ some x → ⊥
  find_nowhere p [] x absent h = cc
  find_nowhere p (y ∷ xs) x absent h = elim (Bool-cases (p y)) [
    | inl here ↦ (let clash : true ≡ false = rw (here, any) at absent in cc)
    | inr away ↦ find_nowhere p xs x (rw (away, any) at absent) (rw (away, find) at h)
  ]

  some_same : (a b : A) → some a ≡ some b → a ≡ b
  some_same a b h = cc

  pub find-IsFirst :
      (p : A → Bool) (xs : List A) (x : A)
      → find p xs ≡ some x
      → (before : List A) × (after : List A) × IsFirst p xs before x after
  find-IsFirst p xs x h = elim (first_cases p xs) [
    | inl (nowhere, absent) ↦ absurd (find_nowhere p xs x absent h)
    | inr (before, y, after, first, at, found) ↦
        let same : y ≡ x = some_same y x (sym found ∙ h) in (before, after, rw same at first)
  ]

-- The entries that the arguments `emote_id` and `alias` name.
abbrev pub HasAlias : Option Str → EmoteSetEmote → Type 0
HasAlias none e = Unit
HasAlias (some alias) e = e.alias ≡ alias

abbrev pub Named : EmoteSetEmoteId → EmoteSetEmote → Type 0
Named id e = (e.id ≡ id.emote_id) × HasAlias id.alias e

alias_test_iff :
    (o : Option Str) (e : EmoteSetEmote)
    → ((elim o [ none ↦ true | some a ↦ str_eq.beq e.alias a ]) ≡ true) ↔ HasAlias o e
alias_test_iff none e = ((λ h. tt), (λ h. refl))
alias_test_iff (some a) e = str_eq.beq_iff e.alias a

pub is_named-Named : (id : EmoteSetEmoteId) (e : EmoteSetEmote) → is_named id e ≡ true → Named id e
is_named-Named id e h =
    let (same, test) = and_split (e.id == id.emote_id) _ h in
    ((==_iff e.id id.emote_id).0 same, (alias_test_iff id.alias e).0 test)

and_both : (a b : Bool) → a ≡ true → b ≡ true → (a && b) ≡ true
and_both a b h k = ground arith

pub Named-is_named : (id : EmoteSetEmoteId) (e : EmoteSetEmote) → Named id e → is_named id e ≡ true
Named-is_named id e (same, alias) =
    and_both _ _ ((==_iff e.id id.emote_id).1 same) ((alias_test_iff id.alias e).1 alias)
