-- ===== src/Cdn/Roundtrip.antt =====
-- The parser of cache keys at the text of a key (shared/src/cdn/key.rs).
use tv.Prelude.{◌^◌, ◌<◌, ◌≡◌, arith, [], ◌∷◌, ◌++◌}
use tv.Prelude.Text.{Str, split, split-append, split_whole}
use tv.Prelude.Results.{ok}
use tv.Ids.{DatabaseId, IdCrates, to_string}
use tv.Ids.Text.{from_str-to_string, to_string-Lacks}
use tv.Cdn.File.{ImageFile, file_to_string, file_from_str-to_string, file_to_string-Lacks}
use tv.Cdn.Key.{CacheKey, key_from_str, key_to_string}

-- Every id of the key is a number of 128 bits.
abbrev pub HasWords : CacheKey → Type 0
HasWords (CacheKey.badge id file) = id < 2 ^ 128
HasWords (CacheKey.emote id file) = id < 2 ^ 128
HasWords (CacheKey.user_profile_picture id avatar_id file) = (id < 2 ^ 128) × (avatar_id < 2 ^ 128)
HasWords (CacheKey.paint id layer_id file) = (id < 2 ^ 128) × (layer_id < 2 ^ 128)

module _ (crates : IdCrates) where
  split_id :
      (u : DatabaseId) (rest : Str)
      → split b'/' (to_string crates u ++ b'/' ∷ rest) ≡ to_string crates u ∷ split b'/' rest
  split_id u rest =
      split-append b'/' (to_string crates u) rest (to_string-Lacks crates b'/' u (λ h. omega arith))

  split_file : (f : ImageFile) → split b'/' (file_to_string f) ≡ file_to_string f ∷ []
  split_file f = split_whole b'/' (file_to_string f) (file_to_string-Lacks f)

  -- The text of a cache key is read back as that key, if its ids are numbers of 128 bits.
  pub key_from_str-to_string :
      (k : CacheKey) → HasWords k → key_from_str crates (key_to_string crates k) ≡ ok k
  unfolding key_from_str key_to_string
  key_from_str-to_string (CacheKey.badge id file) w =
      simp (split_id, split_file, from_str-to_string crates id w, file_from_str-to_string)
  key_from_str-to_string (CacheKey.emote id file) w =
      simp (split_id, split_file, from_str-to_string crates id w, file_from_str-to_string)
  key_from_str-to_string (CacheKey.user_profile_picture id avatar_id file) w = simp (
    split_id,
    split_file,
    from_str-to_string crates id w.0,
    from_str-to_string crates avatar_id w.1,
    file_from_str-to_string,
  )
  key_from_str-to_string (CacheKey.paint id layer_id file) w = simp (
    split_id,
    split_file,
    from_str-to_string crates id w.0,
    from_str-to_string crates layer_id w.1,
    file_from_str-to_string,
  )
