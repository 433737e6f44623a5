-- ===== src/Api/EmoteSets/Authority/Verdict.antt =====
-- Who may change an emote set, said apart from the order of the checks of `check_perms`
-- (apps/api/src/http/v4/gql/mutations/emote_set/operation.rs).
use tv.Prelude.{
  ◌≡◌, ◌≢◌, refl, ◌⊎◌, inl, inr, ◌↔◌, arith, Bool, true, false, ◌||◌, ◌==◌, not, Option, none, some,
  if◌then◌else◌, Bool-cases, and_split, ==_iff,
}
use mathlib.Core.Path.{subst}
use tv.Prelude.Text.{Str}
use tv.Prelude.Results.{Result, ok, err, ◌>>=◌, ◌>>◌, ok_or}
use tv.Ids.{UserId}
use tv.Permissions.Bitmask.{BitmaskEnum, EmoteSetPermission, UserPermission, user_bits}
use tv.Permissions.Record.{Permission}
use tv.Editors.{EditorPermission, EditorUserPermission, editor_user_bits, UserEditorId}
use tv.Editors as Editors
use tv.Api.Errors.{ApiError}
use tv.Api.Sessions.{FullUser, Session, user, user_has, UserEditor, UserEditorState}
use tv.Api.EmoteSets.{EmoteSet, EmoteSetKind, is_personal}
use tv.Api.EmoteSets.Global.{Global}
use tv.Api.EmoteSets.Authority.{
  check_perms, check_kind, check_owner, check_rights, check_editor, load_target, ensure, loaded,
  role_may, is_accepted, asked_perm, forbidden_msg, lacking,
}

-- A step of a computation that gave a result.
>>=-ok {ℓ} :
    {A B : Type ℓ} {E : Type 0} (r : Result A E) (f : A → Result B E) (b : B)
    → (r >>= f) ≡ ok b
    → (a : A) × (r ≡ ok a) × (f a ≡ ok b)
>>=-ok (ok a) f b h = (a, refl, h)
>>=-ok (err e) f b h = absurd cc

ok_injective {ℓ} : {A : Type ℓ} (a b : A) (r : Result A ApiError) → r ≡ ok a → r ≡ ok b → a ≡ b
ok_injective a b r p q = cc

then-ok {ℓ} :
    {A : Type ℓ} (r : Result (Unit {0}) ApiError) (k : Result A ApiError) (a : A)
    → (r >> k) ≡ ok a
    → k ≡ ok a
then-ok (ok u) k a h = h
then-ok (err e) k a h = absurd cc

ensure-then {ℓ} :
    {A : Type ℓ} (b : Bool) (e : ApiError) (k : Result A ApiError) (a : A)
    → (ensure b e >> k) ≡ ok a
    → (b ≡ true) × (k ≡ ok a)
ensure-then true e k a h = (refl, h)
ensure-then false e k a h = absurd cc

-- The end of `check_rights`, with its tests and the answer on the editor as variables.
rights_same {ℓ} :
    {A : Type ℓ} (own manage any : Bool) (editor : Result (Unit {0}) ApiError) (e : ApiError)
    (a b : A)
    → (ensure (manage || any) e >> (if own || any then ok a else (editor >> ok a))) ≡ ok b
    → a ≡ b
rights_same own manage any editor e a b h =
    let (managed, rest) = ensure-then (manage || any) e _ b h in
    elim (Bool-cases (own || any)) [
      | inl free ↦ ok_injective a b (ok a) refl (rw (free) at rest)
      | inr bound ↦ ok_injective a b (ok a) refl (then-ok editor (ok a) b (rw (bound) at rest))
    ]

rights_iff {ℓ} :
    {A : Type ℓ} (own manage any : Bool) (editor : Result (Unit {0}) ApiError) (e : ApiError)
    (a : A)
    → ((ensure (manage || any) e >> (if own || any then ok a else (editor >> ok a))) ≡ ok a)
      ↔ ((any ≡ true) ⊎ (manage ≡ true) × ((own ≡ true) ⊎ (editor ≡ ok tt)))
rights_iff true true true editor e a = ((λ h. inl refl), (λ h. refl))
rights_iff true false true editor e a = ((λ h. inl refl), (λ h. refl))
rights_iff false true true editor e a = ((λ h. inl refl), (λ h. refl))
rights_iff false false true editor e a = ((λ h. inl refl), (λ h. refl))
rights_iff own false false editor e a = ((λ h. absurd cc), (λ h. absurd (ground (arith, h))))
rights_iff true true false editor e a = ((λ h. inr (refl, inl refl)), (λ h. refl))
rights_iff false true false (ok u) e a = ((λ h. inr (refl, inr refl)), (λ h. refl))
rights_iff false true false (err x) e a = ((λ h. absurd cc), (λ h. absurd (ground (arith, h))))

module _ {Json : Type 0} ⦃lib : BitmaskEnum⦄ (g : Global Json) where
  -- The owner, who is the caller or whom the loader finds.
  abbrev pub IsTarget : FullUser Json → UserId → FullUser Json → Type 0
  IsTarget u owner_id target =
      (owner_id ≡ u.id) × (target ≡ u)
      ⊎ (owner_id ≢ u.id) × (g.user_loader owner_id ≡ some (some target))

  abbrev pub IsEditor : FullUser Json → UserId → EditorPermission → Type 0
  IsEditor u owner_id perm =
      (editor : UserEditor) × (g.user_editor_by_id_loader
          (record { user_id = owner_id; editor_id = u.id })
        ≡ some (some editor))
      × (editor.state ≡ UserEditorState.accepted)
      × (Editors.has editor.permissions perm ≡ true)

  -- The editor's permission that counts for a set of the kind.
  abbrev pub wanted : EmoteSetKind → EditorPermission → EditorPermission
  wanted EmoteSetKind.personal perm =
      EditorPermission.user (editor_user_bits EditorUserPermission.manage_personal_emote_set)
  wanted _ perm = perm

  abbrev pub Rights : EmoteSet → FullUser Json → EditorPermission → UserId → FullUser Json → Type 0
  Rights s u perm owner_id target =
      (s.kind ≡ EmoteSetKind.personal
        → user_has target (Permission.user (user_bits UserPermission.use_personal_emote_set))
          ≡ true)
      × ((user_has u (role_may EmoteSetPermission.manage_any) ≡ true)
          ⊎ (user_has target (role_may EmoteSetPermission.manage) ≡ true)
            × ((target.id ≡ u.id) ⊎ IsEditor u owner_id (wanted s.kind perm)))

  abbrev pub OwnSet : EmoteSet → FullUser Json → EditorPermission → FullUser Json → Type 0
  OwnSet s u perm target =
      (owner_id : UserId) × (s.owner_id ≡ some owner_id)
      × IsTarget u owner_id target
      × Rights s u perm owner_id target

  abbrev pub MayChangeKind :
      EmoteSet → FullUser Json → EditorPermission → FullUser Json → EmoteSetKind → Type 0
  MayChangeKind s u perm target EmoteSetKind.global =
      (user_has u (role_may EmoteSetPermission.manage_global) ≡ true) × (u ≡ target)
  MayChangeKind s u perm target EmoteSetKind.special =
      (user_has u (role_may EmoteSetPermission.manage_special) ≡ true) × (u ≡ target)
  MayChangeKind s u perm target _ = OwnSet s u perm target

  abbrev pub MayChange : EmoteSet → FullUser Json → EditorPermission → FullUser Json → Type 0
  MayChange s u perm target = MayChangeKind s u perm target s.kind

  loaded_iff {ℓ} :
      {A : Type ℓ} (o : Option (Option A)) (msg : Str) (e : ApiError) (a : A)
      → (loaded o msg e ≡ ok a) ↔ (o ≡ some (some a))
  loaded_iff none msg e a = ((λ h. absurd cc), (λ h. absurd cc))
  loaded_iff (some none) msg e a = ((λ h. absurd cc), (λ h. absurd cc))
  loaded_iff (some (some b)) msg e a = ((λ h. cc), (λ h. cc))

  ensure_iff : (b : Bool) (e : ApiError) (u : Unit {0}) → (ensure b e ≡ ok u) ↔ (b ≡ true)
  ensure_iff true e u = ((λ h. refl), (λ h. refl))
  ensure_iff false e u = ((λ h. absurd cc), (λ h. absurd cc))

  load_target_iff :
      (u : FullUser Json) (owner_id : UserId) (target : FullUser Json)
      → (load_target g u owner_id ≡ ok target) ↔ IsTarget u owner_id target
  load_target_iff u owner_id target = elim (Bool-cases (owner_id == u.id)) [
    | inl own ↦ (
      (λ h. let same : ok u ≡ ok target = rw (own) at h in inl (ground arith, cc)),
      (λ t. ground arith),
    )
    | inr other ↦ (
      (λ h. inr (ground arith, (loaded_iff _ _ _ target).0 (rw (other) at h))),
      (λ t. elim t [
        | inl own ↦ absurd (ground (arith, own))
        | inr found ↦ rw (other) ((loaded_iff _ _ _ target).1 found.1)
      ]),
    )
  ]

  accepted_iff :
      (state : UserEditorState) → (is_accepted state ≡ true) ↔ (state ≡ UserEditorState.accepted)
  accepted_iff UserEditorState.pending = ((λ h. absurd cc), (λ h. absurd cc))
  accepted_iff UserEditorState.accepted = ((λ h. refl), (λ h. refl))
  accepted_iff UserEditorState.rejected = ((λ h. absurd cc), (λ h. absurd cc))

  check_editor_iff :
      (u : FullUser Json) (owner_id : UserId) (perm : EditorPermission) (msg : Str)
      → (check_editor g u owner_id perm msg ≡ ok tt) ↔ IsEditor u owner_id perm
  check_editor_iff u owner_id perm msg = (
    (λ h.
        let (editor, found, allowed) = >>=-ok _ _ tt h in
        let both = and_split _ _ ((ensure_iff _ _ tt).0 allowed) in
        (editor, (loaded_iff _ _ _ editor).0 found, (accepted_iff editor.state).0 both.0, both.1)),
    (λ (editor, found, accepted, allowed). rw (found, accepted, allowed) refl),
  )

  asked_perm-wanted :
      (k : EmoteSetKind) (perm : EditorPermission) → asked_perm k perm ≡ wanted k perm
  asked_perm-wanted EmoteSetKind.normal perm = refl
  asked_perm-wanted EmoteSetKind.personal perm = refl
  asked_perm-wanted EmoteSetKind.global perm = refl
  asked_perm-wanted EmoteSetKind.special perm = refl

  personal_iff :
      (k : EmoteSetKind) (b : Bool)
      → ((not (is_personal k) || b) ≡ true) ↔ (k ≡ EmoteSetKind.personal → b ≡ true)
  personal_iff EmoteSetKind.normal b = ((λ h same. absurd cc), (λ h. refl))
  personal_iff EmoteSetKind.personal b = ((λ h same. h), (λ h. h refl))
  personal_iff EmoteSetKind.global b = ((λ h same. absurd cc), (λ h. refl))
  personal_iff EmoteSetKind.special b = ((λ h same. absurd cc), (λ h. refl))

  ok_or_iff {ℓ} :
      {A : Type ℓ} (o : Option A) (e : ApiError) (a : A) → (ok_or o e ≡ ok a) ↔ (o ≡ some a)
  ok_or_iff none e a = ((λ h. absurd cc), (λ h. absurd cc))
  ok_or_iff (some b) e a = ((λ h. cc), (λ h. cc))

  check_rights_same :
      (s : EmoteSet) (u : FullUser Json) (perm : EditorPermission) (owner_id : UserId)
      (found target : FullUser Json)
      → check_rights g s u perm owner_id found ≡ ok target
      → found ≡ target
  check_rights_same s u perm owner_id found target h =
      let (uses, h1) = ensure-then _ _ _ target h in
      rights_same (found.id == u.id) (user_has found (role_may EmoteSetPermission.manage))
        (user_has u (role_may EmoteSetPermission.manage_any))
        (check_editor g u owner_id (asked_perm s.kind perm) (forbidden_msg s.kind))
        (lacking (forbidden_msg s.kind)) found target h1

  check_rights_iff :
      (s : EmoteSet) (u : FullUser Json) (perm : EditorPermission) (owner_id : UserId)
      (target : FullUser Json)
      → (check_rights g s u perm owner_id target ≡ ok target) ↔ Rights s u perm owner_id target
  check_rights_iff s u perm owner_id target =
      let message = forbidden_msg s.kind in
      let own = ==_iff target.id u.id in
      let editor = check_editor_iff u owner_id (asked_perm s.kind perm) message in
      let editor' =
        subst
          (λ p.
            (check_editor g u owner_id (asked_perm s.kind perm) message ≡ ok tt)
            ↔ IsEditor u owner_id p)
          (asked_perm-wanted s.kind perm) editor in
      let ends =
        rights_iff (target.id == u.id) (user_has target (role_may EmoteSetPermission.manage))
          (user_has u (role_may EmoteSetPermission.manage_any))
          (check_editor g u owner_id (asked_perm s.kind perm) message) (lacking message) target in
      let personal =
        personal_iff s.kind
          (user_has target (Permission.user (user_bits UserPermission.use_personal_emote_set))) in
      (
        (λ h.
            let (uses, h1) = ensure-then _ _ _ target h in
            (
              personal.0 uses,
              elim (ends.0 h1) [
                | inl everyone ↦ inl everyone
                | inr (managed, inl same) ↦ inr (managed, inl (own.0 same))
                | inr (managed, inr edits) ↦ inr (managed, inr (editor'.0 edits))
              ],
            )),
        (λ (uses, rights). rw (personal.1 uses) (
            ends.1 (elim rights [
              | inl everyone ↦ inl everyone
              | inr (managed, inl same) ↦ inr (managed, inl (own.1 same))
              | inr (managed, inr edits) ↦ inr (managed, inr (editor'.1 edits))
            ]))),
      )

  check_owner_iff :
      (s : EmoteSet) (u : FullUser Json) (perm : EditorPermission) (target : FullUser Json)
      → (check_owner g s u perm ≡ ok target) ↔ OwnSet s u perm target
  check_owner_iff s u perm target = (
    (λ h.
        let (owner_id, owned, h1) = >>=-ok (ok_or s.owner_id _) _ target h in
        let (found, is_found, h2) = >>=-ok (load_target g u owner_id) _ target h1 in
        let same = check_rights_same s u perm owner_id found target h2 in
        (
          owner_id,
          (ok_or_iff s.owner_id _ owner_id).0 owned,
          (load_target_iff u owner_id target).0 (rw (same) at is_found),
          (check_rights_iff s u perm owner_id target).0 (rw (same) at h2),
        )),
    (λ (owner_id, owned, is_target, rights).
        rw (owned, (load_target_iff u owner_id target).1 is_target)
          ((check_rights_iff s u perm owner_id target).1 rights)),
  )

  manager_iff :
      (b : Bool) (e : ApiError) (u target : FullUser Json)
      → ((ensure b e >> ok u) ≡ ok target) ↔ ((b ≡ true) × (u ≡ target))
  manager_iff b e u target = (
    (λ h.
        let (may, same) = ensure-then b e (ok u) target h in
        (may, ok_injective u target _ refl same)),
    (λ (may, same). rw (may, same) refl),
  )

  check_kind_iff :
      (s : EmoteSet) (u : FullUser Json) (perm : EditorPermission) (target : FullUser Json)
      (kind : EmoteSetKind)
      → (check_kind g s u perm kind ≡ ok target) ↔ MayChangeKind s u perm target kind
  check_kind_iff s u perm target EmoteSetKind.normal = check_owner_iff s u perm target
  check_kind_iff s u perm target EmoteSetKind.personal = check_owner_iff s u perm target
  check_kind_iff s u perm target EmoteSetKind.global = manager_iff _ _ u target
  check_kind_iff s u perm target EmoteSetKind.special = manager_iff _ _ u target

  -- `check_perms` lets a caller through, with the target, exactly if the session has a user and
  -- that user may change the set.
  pub check_perms_iff :
      (s : EmoteSet) (session : Session Json) (perm : EditorPermission) (target : FullUser Json)
      → (check_perms g s session perm ≡ ok target)
        ↔ ((u : FullUser Json) × (user session ≡ ok u) × MayChange s u perm target)
  unfolding check_perms
  check_perms_iff s session perm target = (
    (λ h.
        let (u, who, h1) = >>=-ok (user session) _ target h in
        (u, who, (check_kind_iff s u perm target s.kind).0 h1)),
    (λ (u, who, may). rw (who) ((check_kind_iff s u perm target s.kind).1 may)),
  )
