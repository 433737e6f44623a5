-- ===== src/Api/EmoteSets/Add/Placed.antt =====
-- Where `add_emote` puts an entry
-- (apps/api/src/http/v4/gql/mutations/emote_set/operation.rs).
use tv.Prelude.{
  ◌≡◌, refl, sym, ap, ◌∙◌, ◌⊎◌, inl, inr, arith, ℕ, Bool, true, false, not, none, some, List, [],
  ◌∷◌, ◌++◌, any, length, nat_eq, Option-cases,
}
use tv.Prelude.HashMap.{HashMap, get}
use tv.Api.EmoteSets.Positions.{IsFirst, first_cases, nth-length, set_at-length}
use tv.Prelude.Text.{Str, str_eq}
use tv.Api.Emotes.{Emote, EmoteId}
use tv.Api.EmoteSets.{EmoteSetEmote}
use tv.Api.EmoteSets.Add.{position, nth, set_at, is_conflict, write_entry}

-- The entry of the alias goes only if its emote is unknown or deleted.
abbrev pub IsGone : HashMap EmoteId Emote → EmoteId → Type 0
IsGone loaded id =
    (get loaded id ≡ none) ⊎ ((x : Emote) × (get loaded id ≡ some x) × (x.deleted ≡ true))

abbrev pub has_alias : Str → EmoteSetEmote → Bool
has_alias alias e = str_eq.beq e.alias alias

-- An entry at the end of a list in which its alias is free, or in the place of the first one with
-- the alias.
abbrev pub Placed :
    HashMap EmoteId Emote → EmoteSetEmote → List EmoteSetEmote → List EmoteSetEmote → Type 0
Placed loaded entry old new =
    (any (has_alias entry.alias) old ≡ false) × (new ≡ old ++ entry ∷ [])
    ⊎ ((xs : List EmoteSetEmote) × (e : EmoteSetEmote) × (ys : List EmoteSetEmote) × IsFirst
          (has_alias entry.alias) old xs e ys
        × IsGone loaded e.id
        × (new ≡ xs ++ entry ∷ ys))

IsGone-cases :
    (loaded : HashMap EmoteId Emote) (e : EmoteSetEmote) (old : List EmoteSetEmote) (i : ℕ)
    → nth old i ≡ some e
    → is_conflict loaded old (some i) ≡ false
    → IsGone loaded e.id
IsGone-cases loaded e old i at free = elim (Option-cases (get loaded e.id)) [
  | inl unknown ↦ inl unknown
  | inr (x, found) ↦
      let alive : not x.deleted ≡ false = rw (at, found, is_conflict) at free in
      inr (x, found, ground arith)
]

pub write_entry-Placed :
    (loaded : HashMap EmoteId Emote) (entry : EmoteSetEmote) (old : List EmoteSetEmote)
    → is_conflict loaded old (position (has_alias entry.alias) old) ≡ false
    → Placed loaded entry old (write_entry (position (has_alias entry.alias) old) entry old)
write_entry-Placed loaded entry old free = elim (first_cases (has_alias entry.alias) old) [
  | inl (nowhere, absent) ↦ inl (absent, rw (nowhere, write_entry) refl)
  | inr (xs, e, ys, first, at, found) ↦
      let here : nth old (length xs) ≡ some e =
        ap (λ l. nth l (length xs)) first.0 ∙ nth-length xs e ys in
      let over : set_at old (length xs) entry ≡ xs ++ entry ∷ ys =
        ap (λ l. set_at l (length xs) entry) first.0 ∙ set_at-length xs e ys entry in
      inr (
        xs,
        e,
        ys,
        first,
        IsGone-cases loaded e old (length xs) here (ap (is_conflict loaded old) (sym at) ∙ free),
        ap (λ i. write_entry i entry old) at ∙ over,
      )
]
