-- ===== src/Api/Emotes.antt =====
-- Emotes (shared/src/database/types/emote.rs), less the images, scores and attribution, which the
-- operations on emote sets only pass on; and the loader's treatment of merged emotes,
-- `MergedResult` and `EmoteByIdLoaderExt` (apps/api/src/dataloader/emote.rs). The loader's
-- `load_many` is a parameter: what it finds for a list of ids, `none` for a failure.
pub mod Merged
mod Tests
use tv.Prelude.{
  ℕ, zero, suc, Bool, true, false, not, ◌&&◌, ◌||◌, Option, none, some, List, [], ◌∷◌, ◌++◌, map,
  is_nil, nat_eq, if◌then◌else◌,
}
use tv.Prelude.HashMap.{HashMap, get, insert, extend}
use tv.Prelude.Text.{Str}
use tv.Ids.{DatabaseId, UserId}
use tv.Permissions.Bitmask.{Mask}

abbrev pub EmoteId : Type 0
EmoteId = DatabaseId

pub data EmoteFlags : Type 0 where
  public_listed private nsfw default_zero_width approved_personal denied_personal animated :
      EmoteFlags

abbrev pub emote_flag_bits : EmoteFlags → Mask
emote_flag_bits EmoteFlags.public_listed = 1
emote_flag_bits EmoteFlags.private = 2
emote_flag_bits EmoteFlags.nsfw = 4
emote_flag_bits EmoteFlags.default_zero_width = 8
emote_flag_bits EmoteFlags.approved_personal = 16
emote_flag_bits EmoteFlags.denied_personal = 32
emote_flag_bits EmoteFlags.animated = 64

pub record EmoteMerged : Type 0 where
  pub target_id : EmoteId
  pub at : ℕ

pub record Emote : Type 0 where
  pub id : EmoteId
  pub owner_id : UserId
  pub default_name : Str
  pub tags : List Str
  pub flags : Mask
  pub merged : Option EmoteMerged
  pub deleted : Bool
  pub updated_at : ℕ
  pub search_updated_at : Option ℕ

abbrev pub is_some {ℓ} : {A : Type ℓ} → Option A → Bool
is_some (some a) = true
is_some none = false

pub record MergedResult : Type 0 where
  pub emotes : HashMap EmoteId Emote
  pub merged_ids : HashMap EmoteId EmoteId

-- The loop of `MergedResult::get`, with the passes that are left.
abbrev pub get_within : ℕ → MergedResult → EmoteId → Option Emote
get_within zero s id = none
get_within (suc n) s id = elim (get s.merged_ids id) [
  | some target_id ↦ get_within n s target_id
  | none ↦ get s.emotes id
]

unfoldable pub get_merged : MergedResult → EmoteId → Option Emote
get_merged s id = get_within 10 s id

-- One pass of `load_many_merged` over loaded emotes: those that are kept, the merged ids, and the
-- ids that are still to be loaded. The first pass (`first`) collects no ids.
pub record Sorted : Type 0 where
  pub kept : HashMap EmoteId Emote
  pub merged_ids : HashMap EmoteId EmoteId
  pub ids : List EmoteId

abbrev pub sort_merged : Sorted → HashMap EmoteId Emote → Sorted
sort_merged s [] = s
sort_merged s ((k, e) ∷ rest) = if e.deleted then sort_merged s rest else elim e.merged [
  | some merged ↦
      let merged_ids = insert s.merged_ids e.id merged.target_id in
      sort_merged
        (record {
          kept = s.kept;
          merged_ids = merged_ids;
          ids = elim (get merged_ids merged.target_id) [
            | none ↦ s.ids ++ merged.target_id ∷ []
            | some _ ↦ s.ids
          ];
        })
        rest
  | none ↦ sort_merged (record s { kept = insert s.kept k e }) rest
]

module _ (load_many : List EmoteId → Option (HashMap EmoteId Emote)) where
  -- The `while` loop, with the passes that are left.
  abbrev pub load_targets :
      ℕ → HashMap EmoteId Emote → HashMap EmoteId EmoteId → List EmoteId → Option MergedResult
  load_targets n emotes merged_ids [] = some (record { emotes = emotes; merged_ids = merged_ids })
  load_targets zero emotes merged_ids (i ∷ ids) =
      some (record { emotes = emotes; merged_ids = merged_ids })
  load_targets (suc n) emotes merged_ids (i ∷ ids) = elim (load_many (i ∷ ids)) [
    | none ↦ none
    | some more ↦
        let s = sort_merged (record { kept = []; merged_ids = merged_ids; ids = [] }) more in
        load_targets n (extend emotes s.kept) s.merged_ids s.ids
  ]

  unfoldable pub load_many_merged : List EmoteId → Option MergedResult
  load_many_merged ids = elim (load_many ids) [
    | none ↦ none
    | some emotes ↦
        let s = sort_merged (record { kept = []; merged_ids = []; ids = [] }) emotes in
        if is_nil s.merged_ids
        then some (record { emotes = s.kept; merged_ids = s.merged_ids })
        else load_targets 10 s.kept s.merged_ids
            (map (λ (kv : EmoteId × EmoteId). kv.1) s.merged_ids)
  ]

  unfoldable pub load_exclude_deleted : EmoteId → Option (Option Emote)
  load_exclude_deleted id = elim (load_many (id ∷ [])) [
    | none ↦ none
    | some found ↦ elim (get found id) [
      | none ↦ some none
      | some result ↦
          if result.deleted || is_some result.merged then some none else some (some result)
    ]
  ]

  abbrev pub active_only : HashMap EmoteId Emote → HashMap EmoteId Emote
  active_only [] = []
  active_only ((k, e) ∷ rest) =
      let kept = active_only rest in
      if not e.deleted && not (is_some e.merged) then (k, e) ∷ kept else kept

  unfoldable pub load_many_exclude_deleted : List EmoteId → Option (HashMap EmoteId Emote)
  load_many_exclude_deleted ids = elim (load_many ids) [
    | none ↦ none
    | some found ↦ some (active_only found)
  ]
