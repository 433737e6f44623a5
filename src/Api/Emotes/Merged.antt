-- ===== src/Api/Emotes/Merged.antt =====
-- What the loader gives for merged emotes (apps/api/src/dataloader/emote.rs).
use tv.Prelude.{
  ◌≡◌, ℕ, zero, suc, false, Option, none, some, List, [], ◌∷◌, is_nil, Bool-cases, Option-cases,
  inl, inr, nat_eq,
}
use tv.Prelude.HashMap.{HashMap, get, insert, extend}
use tv.Api.Emotes.{
  Emote, EmoteId, MergedResult, get_within, get_merged, Sorted, sort_merged, load_targets,
  load_many_merged,
}

-- An emote that is neither deleted nor merged into another.
abbrev pub IsActive : Emote → Type 0
IsActive e = (e.deleted ≡ false) × (e.merged ≡ none)

-- Every entry of the map is active.
abbrev pub AllActive : HashMap EmoteId Emote → Type 0
AllActive [] = Unit
AllActive ((k, e) ∷ m) = IsActive e × AllActive m

AllActive-insert :
    (m : HashMap EmoteId Emote) (k : EmoteId) (e : Emote)
    → AllActive m
    → IsActive e
    → AllActive (insert m k e)
AllActive-insert [] k e all active = (active, tt)
AllActive-insert ((j, d) ∷ m) k e all active = elim (Bool-cases (nat_eq.beq j k)) [
  | inl same ↦ rw (same, AllActive) (active, all.1)
  | inr other ↦ rw (other, AllActive) (all.0, AllActive-insert m k e all.1 active)
]

AllActive-extend :
    (m more : HashMap EmoteId Emote) → AllActive m → AllActive more → AllActive (extend m more)
AllActive-extend m [] all all' = all
AllActive-extend m ((k, e) ∷ more) all all' =
    AllActive-extend (insert m k e) more (AllActive-insert m k e all all'.0) all'.1

get-IsActive :
    (m : HashMap EmoteId Emote) (k : EmoteId) (e : Emote)
    → AllActive m
    → get m k ≡ some e
    → IsActive e
get-IsActive [] k e all h = absurd cc
get-IsActive ((j, d) ∷ m) k e all h = elim (Bool-cases (nat_eq.beq j k)) [
  | inl same ↦
      let found : some d ≡ some e = rw (same, get) at h in
      let equal : e ≡ d = cc in rw (equal) all.0
  | inr other ↦ get-IsActive m k e all.1 (rw (other, get) at h)
]

sort_merged-AllActive :
    (s : Sorted) (loaded : HashMap EmoteId Emote)
    → AllActive s.kept
    → AllActive (sort_merged s loaded).kept
sort_merged-AllActive s [] all = all
sort_merged-AllActive s ((k, e) ∷ loaded) all = elim (Bool-cases e.deleted) [
  | inl gone ↦ rw (gone) (sort_merged-AllActive s loaded all)
  | inr live ↦ elim (Option-cases e.merged) [
    | inl own ↦
        rw (live, own)
          (sort_merged-AllActive (record s { kept = insert s.kept k e }) loaded
            (AllActive-insert s.kept k e all (live, own)))
    | inr (m, merged) ↦ rw (live, merged) (sort_merged-AllActive _ loaded all)
  ]
]

AllActive-of_some :
    (emotes : HashMap EmoteId Emote) (merged_ids : HashMap EmoteId EmoteId) (m : MergedResult)
    → AllActive emotes
    → some (record { emotes = emotes; merged_ids = merged_ids }) ≡ some m
    → AllActive m.emotes
AllActive-of_some emotes merged_ids m all h =
    let same : m ≡ record { emotes = emotes; merged_ids = merged_ids } = cc in rw (same) all

-- From an emote to another by the recorded merges.
pub data Leads (m : MergedResult) : EmoteId → EmoteId → Type 0 where
  here : (id : EmoteId) → Leads m id id
  merged :
      (id next target : EmoteId)
      → get m.merged_ids id ≡ some next
      → Leads m next target
      → Leads m id target

get_within-Leads :
    (n : ℕ) (m : MergedResult) (id : EmoteId) (e : Emote)
    → get_within n m id ≡ some e
    → (target : EmoteId) × Leads m id target
      × (get m.merged_ids target ≡ none)
      × (get m.emotes target ≡ some e)
get_within-Leads zero m id e h = absurd cc
get_within-Leads (suc n) m id e h = elim (Option-cases (get m.merged_ids id)) [
  | inl last ↦ (id, here id, last, rw (last, get_within) at h)
  | inr (next, is) ↦
      let (target, leads, last, found) = get_within-Leads n m next e (rw (is, get_within) at h) in
      (target, merged id next target is leads, last, found)
]

module _ (load_many : List EmoteId → Option (HashMap EmoteId Emote)) where
  load_targets-AllActive :
      (n : ℕ) (emotes : HashMap EmoteId Emote) (merged_ids : HashMap EmoteId EmoteId)
      (ids : List EmoteId) (m : MergedResult)
      → AllActive emotes
      → load_targets load_many n emotes merged_ids ids ≡ some m
      → AllActive m.emotes
  load_targets-AllActive n emotes merged_ids [] m all h =
      AllActive-of_some emotes merged_ids m all h
  load_targets-AllActive zero emotes merged_ids (i ∷ ids) m all h =
      AllActive-of_some emotes merged_ids m all h
  load_targets-AllActive (suc n) emotes merged_ids (i ∷ ids) m all h =
      elim (Option-cases (load_many (i ∷ ids))) [
        | inl failed ↦ absurd (let clash : none ≡ some m = rw (failed, load_targets) at h in cc)
        | inr (more, loaded) ↦
            let s = sort_merged (record { kept = []; merged_ids = merged_ids; ids = [] }) more in
            load_targets-AllActive n (extend emotes s.kept) s.merged_ids s.ids m
              (AllActive-extend emotes s.kept all (sort_merged-AllActive _ more tt))
              (rw (loaded, load_targets) at h)
      ]

  load_many_merged-AllActive :
      (ids : List EmoteId) (m : MergedResult)
      → load_many_merged load_many ids ≡ some m
      → AllActive m.emotes
  unfolding load_many_merged
  load_many_merged-AllActive ids m h = elim (Option-cases (load_many ids)) [
    | inl failed ↦ absurd (let clash : none ≡ some m = rw (load_many_merged, failed) at h in cc)
    | inr (emotes, loaded) ↦
        let s = sort_merged (record { kept = []; merged_ids = []; ids = [] }) emotes in
        let all =
          sort_merged-AllActive (record { kept = []; merged_ids = []; ids = [] }) emotes tt in
        elim (Bool-cases (is_nil s.merged_ids)) [
          | inl unmerged ↦
              AllActive-of_some s.kept s.merged_ids m all
                (rw (load_many_merged, loaded, unmerged) at h)
          | inr some_merged ↦
              load_targets-AllActive 10 s.kept s.merged_ids _ m all
                (rw (load_many_merged, loaded, some_merged) at h)
        ]
  ]

  -- An emote that the loader gives for an id is neither deleted nor merged, and the recorded
  -- merges lead from the id to it and end there.
  pub get_merged-IsActive :
      (ids : List EmoteId) (m : MergedResult) (id : EmoteId) (e : Emote)
      → load_many_merged load_many ids ≡ some m
      → get_merged m id ≡ some e
      → IsActive e
        × ((target : EmoteId) × Leads m id target
            × (get m.merged_ids target ≡ none)
            × (get m.emotes target ≡ some e))
  unfolding get_merged
  get_merged-IsActive ids m id e loaded found =
      let (target, leads, last, is) = get_within-Leads 10 m id e found in
      (
        get-IsActive m.emotes target e (load_many_merged-AllActive ids m loaded) is,
        (target, leads, last, is),
      )
