-- ===== src/Cdn/Key.antt =====
-- `CacheKey` of shared/src/cdn/key.rs, its text and its parser. The parser takes the pieces
-- between slashes one after another and leaves what follows the file unread.
use tv.Prelude.{List, [], ◌∷◌, ◌++◌, if◌then◌else◌}
use tv.Prelude.Text.{Str, bytes, beq, split}
use tv.Prelude.Results.{Result, ok, err, ◌>>=◌, map_err}
use tv.Ids.{DatabaseId, IdCrates, from_str, to_string}
use tv.Cdn.File.{
  KeyError, invalid_cache_key, ImageFile, ImageFileExtension, file_from_str, file_to_string,
}

pub data CacheKey : Type 0 where
  badge : DatabaseId → ImageFile → CacheKey
  emote : DatabaseId → ImageFile → CacheKey
  user_profile_picture : DatabaseId → DatabaseId → ImageFile → CacheKey
  paint : DatabaseId → DatabaseId → ImageFile → CacheKey

unfoldable pub extension : CacheKey → ImageFileExtension
extension (CacheKey.badge id file) = file.extension
extension (CacheKey.emote id file) = file.extension
extension (CacheKey.paint id layer_id file) = file.extension
extension (CacheKey.user_profile_picture id avatar_id file) = file.extension

-- `splits.next().ok_or("invalid cache key")?`, with the pieces that are left.
abbrev next : List Str → Result (Str × List Str) KeyError
next [] = err invalid_cache_key
next (s ∷ splits) = ok (s, splits)

module _ (crates : IdCrates) where
  -- `.parse().map_err(|_| "invalid cache key")?`
  abbrev parse_id : Str → Result DatabaseId KeyError
  parse_id s = map_err (λ _. invalid_cache_key) (from_str crates s)

  -- The keys with one id, `badge/…` and `emote/…`.
  abbrev parse_one : (DatabaseId → ImageFile → CacheKey) → List Str → Result CacheKey KeyError
  parse_one key splits = do
    (s, splits) ← next splits
    id ← parse_id s
    (t, splits) ← next splits
    file ← file_from_str t
    ok (key id file)

  -- The second id and the file of a key with two ids.
  abbrev parse_inner :
      (DatabaseId → DatabaseId → ImageFile → CacheKey)
      → DatabaseId
      → List Str
      → Result CacheKey KeyError
  parse_inner key id splits = do
    (t, splits) ← next splits
    inner ← parse_id t
    (u, splits) ← next splits
    file ← file_from_str u
    ok (key id inner file)

  -- The keys with two ids and a word between them.
  abbrev parse_two :
      Str → (DatabaseId → DatabaseId → ImageFile → CacheKey) → List Str → Result CacheKey KeyError
  parse_two word key splits = do
    (s, splits) ← next splits
    id ← parse_id s
    (w, splits) ← next splits
    if beq w word then parse_inner key id splits else err invalid_cache_key

  abbrev parse_kind : Str → List Str → Result CacheKey KeyError
  parse_kind prefix splits =
      if beq prefix (bytes "badge")
      then parse_one CacheKey.badge splits
      else if beq prefix (bytes "emote")
      then parse_one CacheKey.emote splits
      else if beq prefix (bytes "user")
      then parse_two (bytes "profile-picture") CacheKey.user_profile_picture splits
      else if beq prefix (bytes "paint")
      then parse_two (bytes "layer") CacheKey.paint splits
      else err invalid_cache_key

  unfoldable pub key_from_str : Str → Result CacheKey KeyError
  key_from_str s = do (prefix, splits) ← next (split b'/' s); parse_kind prefix splits

  -- `a/b`
  infixr 66 ◌/+◌
  abbrev ◌/+◌ : Str → Str → Str
  a /+ b = a ++ b'/' ∷ b

  unfoldable pub key_to_string : CacheKey → Str
  key_to_string (CacheKey.badge id file) =
      bytes "badge" /+ to_string crates id /+ file_to_string file
  key_to_string (CacheKey.emote id file) =
      bytes "emote" /+ to_string crates id /+ file_to_string file
  key_to_string (CacheKey.paint id layer_id file) =
      bytes "paint"
      /+ to_string crates id
      /+ bytes "layer"
      /+ to_string crates layer_id
      /+ file_to_string file
  key_to_string (CacheKey.user_profile_picture id avatar_id file) =
      bytes "user"
      /+ to_string crates id
      /+ bytes "profile-picture"
      /+ to_string crates avatar_id
      /+ file_to_string file
