-- ===== src/Cdn/Tests.antt =====
-- The cache key theorem at a concrete key.
use tv.Prelude.{◌≡◌, true, arith}
use tv.Prelude.Results.{ok}
use tv.Ids.Example.{stand_in}
use tv.Cdn.File.{
  ImageFile, ImageFileName, ImageFileExtension, file_to_string, file_from_str,
  file_from_str-to_string,
}
use tv.Cdn.Key.{CacheKey, key_from_str, key_to_string}
use tv.Cdn.Roundtrip.{key_from_str-to_string}

abbrev still : ImageFile
still = record { name = ImageFileName.two; extension = ImageFileExtension.png; is_static = true }

file_from_str-to_string_example : file_from_str (file_to_string still) ≡ ok still
file_from_str-to_string_example = file_from_str-to_string still

key_from_str-to_string_example :
    key_from_str stand_in (key_to_string stand_in (CacheKey.paint 77 12345 still))
    ≡ ok (CacheKey.paint 77 12345 still)
key_from_str-to_string_example =
    key_from_str-to_string stand_in (CacheKey.paint 77 12345 still) (omega arith)
