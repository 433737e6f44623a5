-- ===== src/Editors/EditorIds.antt =====
-- The text of an editor's id, and reading it back (shared/src/database/types/user/editor.rs).
use tv.Prelude.{◌^◌, ◌<◌, ◌≡◌, refl, arith, [], ◌∷◌}
use tv.Prelude.Text.{split, split-append, split_whole}
use tv.Prelude.Results.{ok}
use tv.Ids.{IdCrates, to_string}
use tv.Ids.Text.{from_str-to_string, to_string-Lacks}
use tv.Editors.{UserEditorId, user_editor_id_to_string, user_editor_id_from_str}

module _ (crates : IdCrates) where
  split_ids :
      (s : UserEditorId)
      → split b':' (user_editor_id_to_string crates s)
        ≡ to_string crates s.user_id ∷ to_string crates s.editor_id ∷ []
  unfolding user_editor_id_to_string
  split_ids s =
      rw
        (
          split-append b':' (to_string crates s.user_id) (to_string crates s.editor_id)
              (to_string-Lacks crates b':' s.user_id (λ h. omega arith)),
          split_whole b':' (to_string crates s.editor_id)
              (to_string-Lacks crates b':' s.editor_id (λ h. omega arith)),
        )
        refl

  -- The text of an editor's id is read back as that id, if both of its ids have 128 bits.
  pub user_editor_id_from_str-to_string :
      (s : UserEditorId)
      → s.user_id < 2 ^ 128
      → s.editor_id < 2 ^ 128
      → user_editor_id_from_str crates (user_editor_id_to_string crates s) ≡ ok s
  unfolding user_editor_id_from_str
  user_editor_id_from_str-to_string s u e =
      rw
        (
          split_ids s,
          user_editor_id_from_str,
          from_str-to_string crates s.user_id u,
          from_str-to_string crates s.editor_id e,
        )
        refl
