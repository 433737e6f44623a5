-- ===== src/Api/Emotes/Tests.antt =====
-- The theorem on merged emotes, at a chain of two merges.
use tv.Prelude.{◌≡◌, refl, false, ◌==◌, Option, none, some, List, [], ◌∷◌, nat_eq, if◌then◌else◌}
use tv.Prelude.HashMap.{HashMap, get}
use tv.Api.Emotes.{Emote, EmoteId, MergedResult, load_many_merged, get_merged}
use tv.Api.Emotes.Merged.{IsActive, Leads, get_merged-IsActive}

abbrev emote_to : EmoteId → Option EmoteId → Emote
emote_to i target = record {
  id = i;
  owner_id = 2;
  default_name = [];
  tags = [];
  flags = 0;
  merged = elim target [ some t ↦ some (record { target_id = t; at = 1 }) | none ↦ none ];
  deleted = false;
  updated_at = 5;
  search_updated_at = none;
}

abbrev load : List EmoteId → Option (HashMap EmoteId Emote)
load [] = some []
load (i ∷ ids) =
    some ((i, emote_to i (if i == 5 then some 6 else if i == 6 then some 7 else none)) ∷ [])

abbrev result : MergedResult
result = record { emotes = (7, emote_to 7 none) ∷ []; merged_ids = (5, 6) ∷ (6, 7) ∷ [] }

get_merged-IsActive_example :
    IsActive (emote_to 7 none)
    × ((target : EmoteId) × Leads result 5 target
        × (get result.merged_ids target ≡ none)
        × (get result.emotes target ≡ some (emote_to 7 none)))
unfolding load_many_merged get_merged
get_merged-IsActive_example = get_merged-IsActive load (5 ∷ []) result 5 (emote_to 7 none) refl refl
