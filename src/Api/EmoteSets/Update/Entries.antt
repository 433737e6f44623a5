-- ===== src/Api/EmoteSets/Update/Entries.antt =====
-- The entries that `update_emote_alias` looks up
-- (apps/api/src/http/v4/gql/mutations/emote_set/operation.rs): `find` and `any` in terms of the list.
use tv.Prelude.{
  ◌≡◌, sym, ◌∙◌, true, false, ◌==◌, ==_iff, some, List, [], ◌∷◌, ◌++◌, any, nat_eq, All,
}
use tv.Api.EmoteSets.Positions.{Named, is_named-Named, Named-is_named, find-IsFirst}
use tv.Prelude.Text.{Str, str_eq}
use tv.Api.Emotes.{EmoteId}
use tv.Api.EmoteSets.{EmoteSetEmote, EmoteSetEmoteId}
use tv.Api.EmoteSets.Global.{is_named}
use tv.Api.EmoteSets.Update.{find}
use tv.Api.EmoteSets.Add.Parts.{or_split}

-- The first entry that the caller named, and the first one of the emote.
abbrev pub FirstNamed : EmoteSetEmoteId → List EmoteSetEmote → EmoteSetEmote → Type 0
FirstNamed id entries e =
    (xs : List EmoteSetEmote) × (ys : List EmoteSetEmote) × (entries ≡ xs ++ e ∷ ys)
    × All (λ x. ¬ Named id x) xs
    × Named id e

abbrev pub FirstOf : EmoteId → List EmoteSetEmote → EmoteSetEmote → Type 0
FirstOf id entries e =
    (xs : List EmoteSetEmote) × (ys : List EmoteSetEmote) × (entries ≡ xs ++ e ∷ ys)
    × All (λ x. ¬ (x.id ≡ id)) xs
    × (e.id ≡ id)

none-Named :
    (id : EmoteSetEmoteId) (xs : List EmoteSetEmote)
    → any (is_named id) xs ≡ false
    → All (λ x. ¬ Named id x) xs
none-Named id [] h = tt
none-Named id (x ∷ xs) h =
    let (first, rest) = or_split (is_named id x) (any (is_named id) xs) h in
    (
      (λ n. let clash : true ≡ false = sym (Named-is_named id x n) ∙ first in cc),
      none-Named id xs rest,
    )

none_of :
    (id : EmoteId) (xs : List EmoteSetEmote)
    → any (λ (e : EmoteSetEmote). e.id == id) xs ≡ false
    → All (λ x. ¬ (x.id ≡ id)) xs
none_of id [] h = tt
none_of id (x ∷ xs) h =
    let (first, rest) = or_split (x.id == id) (any (λ (e : EmoteSetEmote). e.id == id) xs) h in
    ((λ n. let clash : true ≡ false = sym ((==_iff x.id id).1 n) ∙ first in cc), none_of id xs rest)

-- No entry has the alias.
abbrev pub IsFresh : Str → List EmoteSetEmote → Type 0
IsFresh alias entries = All (λ e. ¬ (e.alias ≡ alias)) entries

pub fresh :
    (alias : Str) (xs : List EmoteSetEmote)
    → any (λ (e : EmoteSetEmote). str_eq.beq e.alias alias) xs ≡ false
    → IsFresh alias xs
fresh alias [] h = tt
fresh alias (x ∷ xs) h =
    let (first, rest) =
      or_split (str_eq.beq x.alias alias) (any (λ (e : EmoteSetEmote). str_eq.beq e.alias alias) xs)
        h in
    (
      (λ n. let clash : true ≡ false = sym ((str_eq.beq_iff x.alias alias).1 n) ∙ first in cc),
      fresh alias xs rest,
    )

pub find-FirstNamed :
    (id : EmoteSetEmoteId) (entries : List EmoteSetEmote) (e : EmoteSetEmote)
    → find (is_named id) entries ≡ some e
    → FirstNamed id entries e
find-FirstNamed id entries e h =
    let (xs, ys, (split, absent, holds)) = find-IsFirst (is_named id) entries e h in
    (xs, ys, split, none-Named id xs absent, is_named-Named id e holds)

pub find-FirstOf :
    (id : EmoteId) (entries : List EmoteSetEmote) (e : EmoteSetEmote)
    → find (λ (x : EmoteSetEmote). x.id == id) entries ≡ some e
    → FirstOf id entries e
find-FirstOf id entries e h =
    let (xs, ys, (split, absent, holds)) =
      find-IsFirst (λ (x : EmoteSetEmote). x.id == id) entries e h in
    (xs, ys, split, none_of id xs absent, (==_iff e.id id).0 holds)
