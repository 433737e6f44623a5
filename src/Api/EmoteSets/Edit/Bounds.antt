-- ===== src/Api/EmoteSets/Edit/Bounds.antt =====
-- The changes of a set's fields and its deletion
-- (apps/api/src/http/v4/gql/mutations/emote_set/operation.rs): what goes through, and what is then
-- stored.
use tv.Prelude.{
  ℕ, ◌≡◌, ◌≢◌, ◌⊎◌, inl, inr, ◌<◌, ◌^◌, ◌%◌, refl, sym, ap, ◌∙◌, arith, true, false, Option, none,
  some, get_or, List, [], ◌∷◌, ◌++◌, length, nat_eq, ltb, ==_iff, Bool-cases, Option-cases,
}
use mathlib.Core.Path.{subst}
use tv.Prelude.Int.{ℤ, pos, negsuc, ltb_ℤ, ◌≤ℤ◌}
use tv.Prelude.Results.{ok}
use tv.Permissions.Bitmask.{BitmaskEnum}
use tv.Editors.{EditorEmoteSetPermission}
use tv.Api.Transactions.Inversion.{result_injective, find_one_and_update-then}
use tv.Api.Sessions.{FullUser, Session, user, user_session_id}
use tv.Api.EmoteSets.{
  EmoteSet, EmoteSetKind, InternalEvent, InternalEventData, InternalEventEmoteSetData,
}
use tv.Api.EmoteSets.Global.{
  Global, Step, transact, then_plan-transact, answer-transact, transact_injective,
}
use tv.Api.EmoteSets.Authority.{check_perms, editor_may}
use tv.Api.EmoteSets.Edit.{
  capacity, change_set, touched, event, max_capacity, max_zero, as_i32, is_capacity,
}

not_ltb : (a b : ℤ) → ltb_ℤ a b ≡ false → b ≤ℤ a
not_ltb a b h = ground arith

as_i32-small : (n : ℕ) → n < 2 ^ 31 → as_i32 n ≡ pos n
as_i32-small n h =
    let w : n % 2 ^ 32 ≡ n = omega arith in
    let small : ltb n (2 ^ 31) ≡ true = ground arith in rw (w, small, as_i32) refl

capacity_itself : (c : ℤ) → is_capacity (some c) c ≡ false → ⊥
capacity_itself (pos n) h = ground (arith, ==_iff n n)
capacity_itself (negsuc n) h = ground (arith, ==_iff n n)

module _ {Json : Type 0} (g : Global Json) where
  -- The closure of a change, when it gives a result.
  change_set-ok :
      (u : FullUser Json) (session : Session Json) (s : EmoteSet) (change : EmoteSet → EmoteSet)
      (data_ : InternalEventEmoteSetData Json) (events events' : List (InternalEvent Json))
      (db db' : g.Db) (after : EmoteSet)
      → change_set g u session s change data_ events db ≡ ok (after, events', db')
      → (before : EmoteSet) × (g.emote_sets.document db s.id ≡ some before)
        × (after ≡ touched g (change before))
        × (g.emote_sets.document db' s.id ≡ some after)
        × (events' ≡ events ++ event g u session after data_ ∷ [])
  change_set-ok u session s change data_ events events' db db' after run =
      let (before, at, was, met, stands, rest) =
        find_one_and_update-then g.emote_sets s.id (λ d. true) (λ d. touched g (change d)) _ _
          events db (after, events', db') run in
      let (same, events_same, db_same) =
        result_injective (touched g (change before)) after _ events' at db' rest in
      (before, was, sym same, rw (sym db_same, sym same) stands, sym events_same ∙ rw (same) refl)

  module _ ⦃lib : BitmaskEnum⦄ where
    -- What the permissions of a user give to a set of its kind.
    abbrev pub Given : EmoteSet → FullUser Json → ℤ → Type 0
    Given s target m =
        (s.kind ≡ EmoteSetKind.personal) × (target.permissions.personal_emote_set_capacity ≡ some m)
        ⊎ (s.kind ≢ EmoteSetKind.personal) × (target.permissions.emote_set_capacity ≡ some m)

    kind_cases :
        (s : EmoteSet) (target : FullUser Json) (m : ℤ) (k : EmoteSetKind)
        → s.kind ≡ k
        → max_capacity g s target ≡ some m
        → Given s target m
    kind_cases s target m EmoteSetKind.personal is h = inl (is, rw (is) at h)
    kind_cases s target m EmoteSetKind.normal is h = inr ((λ p. cc), rw (is) at h)
    kind_cases s target m EmoteSetKind.global is h = inr ((λ p. cc), rw (is) at h)
    kind_cases s target m EmoteSetKind.special is h = inr ((λ p. cc), rw (is) at h)

    bounded :
        (s : EmoteSet) (target : FullUser Json) (c : ℤ)
        → c ≤ℤ max_zero (get_or (max_capacity g s target) (pos 0))
        → (c ≤ℤ pos 0) ⊎ ((m : ℤ) × Given s target m × (c ≤ℤ m))
    bounded s target c h = elim (Option-cases (max_capacity g s target)) [
      | inl without ↦ inl (rw (without) at h)
      | inr (m, found) ↦ elim (Bool-cases (ltb_ℤ m (pos 0))) [
        | inl negative ↦ inl (rw (found, negative, max_zero) at h)
        | inr positive ↦
            inr (m, kind_cases s target m s.kind refl found, rw (found, positive, max_zero) at h)
      ]
    ]

    other_capacity : (o : Option ℤ) (c : ℤ) → is_capacity o c ≡ false → o ≢ some c
    other_capacity o c h same =
        let known : is_capacity (some c) c ≡ false = ap (λ x. is_capacity x c) (sym same) ∙ h in
        capacity_itself c known

    -- A capacity that was changed to `c`.
    abbrev pub CapacityChanged :
        EmoteSet
        → Session Json
        → ℤ
        → List (InternalEvent Json)
        → List (InternalEvent Json)
        → g.Db
        → g.Db
        → EmoteSet
        → Type 0
    CapacityChanged s session c events events' db db' after =
        (u : FullUser Json) × (target : FullUser Json) × (before : EmoteSet) × (user session ≡ ok u)
        × (check_perms g s session (editor_may EditorEmoteSetPermission.manage) ≡ ok target)
        × (pos (length s.emotes) ≤ℤ c)
        × ((c ≤ℤ pos 0) ⊎ ((m : ℤ) × Given s target m × (c ≤ℤ m)))
        × (s.capacity ≢ some c)
        × (g.emote_sets.document db s.id ≡ some before)
        × (after
            ≡ record before { capacity = some c; updated_at = g.now; search_updated_at = none })
        × (g.emote_sets.document db' s.id ≡ some after)
        × (events'
            ≡ events
              ++ record {
                actor = some u;
                session_id = user_session_id session;
                data_ =
                    InternalEventData.emote_set after
                      (InternalEventEmoteSetData.change_capacity s.capacity (some c));
                timestamp = g.now;
              }
                ∷ [])

    -- A change of the capacity that goes through, of a set with less than 2 ^ 31 entries, is by a
    -- caller whom `check_perms` lets through and to another capacity than before. The new one is at
    -- least the number of entries that the caller saw. It is at most 0, or what the permissions of
    -- the target give: for a personal set those for personal sets, else those for all others. The
    -- stored set is as it was but for it, and the one event tells of the change.
    pub capacity-within :
        (s : EmoteSet) (session : Session Json) (c : ℤ) (step : Step g EmoteSet)
        (events events' : List (InternalEvent Json)) (db db' : g.Db) (after : EmoteSet)
        → capacity g s session c ≡ transact step
        → step events db ≡ ok (after, events', db')
        → length s.emotes < 2 ^ 31
        → CapacityChanged s session c events events' db db' after
    unfolding capacity
    capacity-within s session c step events events' db db' after plan run small =
        let (u, who, p1) = then_plan-transact g (user session) _ step plan in
        let (target, allowed, p2) = then_plan-transact g (check_perms g s session _) _ step p1 in
        let (fits, p3) = answer-transact g (ltb_ℤ c (as_i32 (length s.emotes))) _ _ step p2 in
        let (within, p4) =
          answer-transact g (ltb_ℤ (max_zero (get_or (max_capacity g s target) (pos 0))) c) _ _ step
            p3 in
        let (other, p5) = answer-transact g (is_capacity s.capacity c) _ _ step p4 in
        let same = transact_injective g _ step p5 in
        let done = ap (λ m. m events db) same ∙ run in
        let (before, was, changed, stored, registered) =
          change_set-ok u session s (λ d. record d { capacity = some c })
            (InternalEventEmoteSetData.change_capacity s.capacity (some c)) events events' db db'
            after done in
        (
          u,
          target,
          before,
          who,
          allowed,
          subst (λ n. n ≤ℤ c) (as_i32-small (length s.emotes) small)
              (not_ltb c (as_i32 (length s.emotes)) fits),
          bounded s target c
              (not_ltb (max_zero (get_or (max_capacity g s target) (pos 0))) c within),
          other_capacity s.capacity c other,
          was,
          changed,
          stored,
          registered,
        )
