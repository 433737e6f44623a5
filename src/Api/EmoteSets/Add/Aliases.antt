-- ===== src/Api/EmoteSets/Add/Aliases.antt =====
-- The aliases of a set under `add_emote`
-- (apps/api/src/http/v4/gql/mutations/emote_set/operation.rs).
use tv.Prelude.{
  ◌≡◌, refl, sym, ap, ◌∙◌, arith, ℕ, zero, suc, Bool, false, Option, none, some, List, [], ◌∷◌,
  ◌++◌, map, contains, contains-append, Distinct, Bool-cases, Option-cases, inl, inr, nat_eq,
}
use mathlib.Core.Path.{subst}
use tv.Prelude.Text.{Str, str_eq}
use tv.Prelude.Results.{ok}
use tv.Permissions.Bitmask.{BitmaskEnum}
use tv.Api.Sessions.{Session}
use tv.Api.EmoteSets.{EmoteSet, EmoteSetEmote, EmoteSetEmoteId, InternalEvent}
use tv.Api.EmoteSets.Global.{Global, Step, transact}
use tv.Api.EmoteSets.Add.{position, set_at, write_entry, new_entry, add_emote}
use tv.Api.EmoteSets.Add.Sound.{add_emote-Stored, some_injective, index}
use tv.Api.EmoteSets.Add.Parts.{or_split}

abbrev pub aliases : List EmoteSetEmote → List Str
aliases es = map (λ (e : EmoteSetEmote). e.alias) es

abbrev has_alias : Str → EmoteSetEmote → Bool
has_alias alias e = str_eq.beq e.alias alias

-- Where there is no entry of the alias, it is not among the aliases.
position-none :
    (alias : Str) (es : List EmoteSetEmote)
    → position (has_alias alias) es ≡ none
    → contains (aliases es) alias ≡ false
position-none alias [] h = refl
position-none alias (e ∷ es) h = elim (Bool-cases (str_eq.beq e.alias alias)) [
  | inl here ↦ absurd (let clash : some 0 ≡ none = rw (here) at h in cc)
  | inr away ↦ elim (Option-cases (position (has_alias alias) es)) [
    | inl rest ↦ rw (away) (position-none alias es rest)
    | inr (i, rest) ↦ absurd (let clash : some (suc i) ≡ none = rw (away, rest) at h in cc)
  ]
]

-- The entry that is overwritten has the alias.
aliases-set_at :
    (entry : EmoteSetEmote) (es : List EmoteSetEmote) (i : ℕ)
    → position (has_alias entry.alias) es ≡ some i
    → aliases (set_at es i entry) ≡ aliases es
aliases-set_at entry [] i h = absurd cc
aliases-set_at entry (e ∷ es) zero h = elim (Bool-cases (str_eq.beq e.alias entry.alias)) [
  | inl here ↦ rw ((str_eq.beq_iff e.alias entry.alias).0 here) refl
  | inr away ↦ elim (Option-cases (position (has_alias entry.alias) es)) [
    | inl rest ↦ absurd (let clash : none ≡ some 0 = rw (away, rest) at h in cc)
    | inr (j, rest) ↦ absurd (
        let clash : some (suc j) ≡ some 0 = rw (away, rest) at h in
        omega (arith, some_injective (suc j) 0 clash))
  ]
]
aliases-set_at entry (e ∷ es) (suc i) h = elim (Bool-cases (str_eq.beq e.alias entry.alias)) [
  | inl here ↦ absurd (
      let clash : some 0 ≡ some (suc i) = rw (here) at h in
      omega (arith, some_injective 0 (suc i) clash))
  | inr away ↦ elim (Option-cases (position (has_alias entry.alias) es)) [
    | inl rest ↦ absurd (let clash : none ≡ some (suc i) = rw (away, rest) at h in cc)
    | inr (j, rest) ↦
        let same : some (suc j) ≡ some (suc i) = rw (away, rest) at h in
        ap (λ xs. e.alias ∷ xs)
          (aliases-set_at entry es i
            (rest ∙ ap some (omega (arith, some_injective (suc j) (suc i) same))))
  ]
]

Distinct-push :
    (xs : List Str) (a : Str) → Distinct xs → contains xs a ≡ false → Distinct (xs ++ a ∷ [])
Distinct-push [] a d h = (refl, tt)
Distinct-push (x ∷ xs) a d h =
    let both = or_split (str_eq.beq x a) (contains xs a) h in
    (
      ground (
        arith,
        d.0,
        both.0,
        str_eq.beq_iff x a,
        str_eq.beq_iff a x,
        contains-append xs (a ∷ []) x,
      ),
      Distinct-push xs a d.1 both.1,
    )

aliases-append :
    (es : List EmoteSetEmote) (e : EmoteSetEmote)
    → aliases (es ++ e ∷ []) ≡ aliases es ++ e.alias ∷ []
aliases-append [] e = refl
aliases-append (x ∷ es) e = ap (λ xs. x.alias ∷ xs) (aliases-append es e)

write_entry-Distinct :
    (entry : EmoteSetEmote) (es : List EmoteSetEmote) (idx : Option ℕ)
    → position (has_alias entry.alias) es ≡ idx
    → Distinct (aliases es)
    → Distinct (aliases (write_entry idx entry es))
write_entry-Distinct entry es none h d =
    rw (aliases-append es entry)
      (Distinct-push (aliases es) entry.alias d (position-none entry.alias es h))
write_entry-Distinct entry es (some i) h d = rw (aliases-set_at entry es i h) d

module _ {Json : Type 0} ⦃lib : BitmaskEnum⦄ (g : Global Json) where
  -- If the aliases of the stored set are all different before `add_emote`, they are after it.
  pub add_emote-Distinct :
      (s : EmoteSet) (session : Session Json) (id : EmoteSetEmoteId)
      (zero_width override_conflicts : Option Bool) (step : Step g EmoteSet)
      (events events' : List (InternalEvent Json)) (db db' : g.Db) (before after : EmoteSet)
      → add_emote g s session id zero_width override_conflicts ≡ transact step
      → step events db ≡ ok (after, events', db')
      → g.emote_sets.document db s.id ≡ some before
      → Distinct (aliases before.emotes)
      → (g.emote_sets.document db' s.id ≡ some after) × Distinct (aliases after.emotes)
  add_emote-Distinct s session id zw oc step events events' db db' before after plan run is d =
      let r = add_emote-Stored g s session id zw oc step events events' db db' after plan run in
      let entry = new_entry g r.caller r.emote id zw oc in
      let same : before ≡ r.before = some_injective before r.before (sym is ∙ r.is_before) in
      (
        r.stored,
        subst (λ x. Distinct (aliases x.emotes)) (sym r.written)
            (write_entry-Distinct entry r.before.emotes (index g entry.alias r.before) refl
              (subst (λ x. Distinct (aliases x.emotes)) same d)),
      )
