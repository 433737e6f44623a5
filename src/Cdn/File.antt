-- ===== src/Cdn/File.antt =====
-- `ImageFile` of shared/src/cdn/key.rs: `1x.webp`, `2x_static.png`, and their parser.
use tv.Prelude.{
  ℕ, Bool-cases, inl, inr, arith, ◌≡◌, refl, Bool, true, false, none, some, [], ◌∷◌, ◌++◌,
  if◌then◌else◌,
}
use tv.Prelude.Text.{Str, bytes, beq, split_once, strip_suffix, Lacks}
use tv.Prelude.Results.{Result, ok, err, ◌>>=◌}

-- The `&'static str` errors of the parsers.
pub data KeyError : Type 0 where
  invalid_cache_key invalid_image_file_name invalid_file_extension : KeyError

pub data ImageFileName : Type 0 where
  one two three four : ImageFileName

pub data ImageFileExtension : Type 0 where
  avif gif png webp : ImageFileExtension

pub record ImageFile : Type 0 where
  pub name : ImageFileName
  pub extension : ImageFileExtension
  pub is_static : Bool

unfoldable pub name_to_string : ImageFileName → Str
name_to_string ImageFileName.one = bytes "1x"
name_to_string ImageFileName.two = bytes "2x"
name_to_string ImageFileName.three = bytes "3x"
name_to_string ImageFileName.four = bytes "4x"

unfoldable pub name_from_str : Str → Result ImageFileName KeyError
name_from_str s =
    if beq s (bytes "1x")
    then ok ImageFileName.one
    else if beq s (bytes "2x")
    then ok ImageFileName.two
    else if beq s (bytes "3x")
    then ok ImageFileName.three
    else if beq s (bytes "4x")
    then ok ImageFileName.four
    else err invalid_image_file_name

unfoldable pub extension_to_string : ImageFileExtension → Str
extension_to_string ImageFileExtension.avif = bytes "avif"
extension_to_string ImageFileExtension.gif = bytes "gif"
extension_to_string ImageFileExtension.png = bytes "png"
extension_to_string ImageFileExtension.webp = bytes "webp"

unfoldable pub extension_from_str : Str → Result ImageFileExtension KeyError
extension_from_str s =
    if beq s (bytes "avif")
    then ok ImageFileExtension.avif
    else if beq s (bytes "gif")
    then ok ImageFileExtension.gif
    else if beq s (bytes "png")
    then ok ImageFileExtension.png
    else if beq s (bytes "webp")
    then ok ImageFileExtension.webp
    else err invalid_file_extension

-- The name before the dot, with the suffix `_static` taken off if it is there.
abbrev stem : Str → Str × Bool
stem name = elim (strip_suffix name (bytes "_static")) [ some n ↦ (n, true) | none ↦ (name, false) ]

unfoldable pub file_from_str : Str → Result ImageFile KeyError
file_from_str s = elim (split_once b'.' s) [
  | some (name, ext) ↦ do
    extension ← extension_from_str ext
    let (rest, is_static) = stem name
    n ← name_from_str rest
    ok (record { name = n; extension = extension; is_static = is_static })
  | none ↦ do
    n ← name_from_str s
    ok (record { name = n; extension = ImageFileExtension.webp; is_static = false })
]

unfoldable pub file_to_string : ImageFile → Str
file_to_string f =
    if f.is_static
    then name_to_string f.name ++ (bytes "_static." ++ extension_to_string f.extension)
    else name_to_string f.name ++ (bytes "." ++ extension_to_string f.extension)

extension_from_str-to_string :
    (e : ImageFileExtension) → extension_from_str (extension_to_string e) ≡ ok e
unfolding extension_from_str extension_to_string
extension_from_str-to_string ImageFileExtension.avif = refl
extension_from_str-to_string _ = refl

-- The three fields of a file in a row, so that a proof can try every name.
abbrev file : ImageFileName → Bool → ImageFileExtension → ImageFile
file n s e = record { name = n; extension = e; is_static = s }

file_roundtrip :
    (n : ImageFileName) (s : Bool) (e : ImageFileExtension)
    → file_from_str (file_to_string (file n s e)) ≡ ok (file n s e)
unfolding file_from_str file_to_string name_from_str name_to_string
file_roundtrip ImageFileName.one true e = rw extension_from_str-to_string
file_roundtrip ImageFileName.one false e = rw extension_from_str-to_string
file_roundtrip ImageFileName.two true e = rw extension_from_str-to_string
file_roundtrip ImageFileName.two false e = rw extension_from_str-to_string
file_roundtrip ImageFileName.three true e = rw extension_from_str-to_string
file_roundtrip ImageFileName.three false e = rw extension_from_str-to_string
file_roundtrip ImageFileName.four true e = rw extension_from_str-to_string
file_roundtrip ImageFileName.four false e = rw extension_from_str-to_string

-- The text of every image file is read back as that file.
pub file_from_str-to_string : (f : ImageFile) → file_from_str (file_to_string f) ≡ ok f
file_from_str-to_string f = file_roundtrip f.name f.is_static f.extension

Lacks-append : (c : ℕ) (s t : Str) → Lacks c s → Lacks c t → Lacks c (s ++ t)
Lacks-append c [] t h k = k
Lacks-append c (a ∷ s) t h k = (h.0, Lacks-append c s t h.1 k)

name_slash : (n : ImageFileName) → Lacks b'/' (name_to_string n)
unfolding name_to_string
name_slash ImageFileName.one = omega arith
name_slash ImageFileName.two = omega arith
name_slash ImageFileName.three = omega arith
name_slash ImageFileName.four = omega arith

extension_slash : (e : ImageFileExtension) → Lacks b'/' (extension_to_string e)
unfolding extension_to_string
extension_slash ImageFileExtension.avif = omega arith
extension_slash ImageFileExtension.gif = omega arith
extension_slash ImageFileExtension.png = omega arith
extension_slash ImageFileExtension.webp = omega arith

pub file_to_string-Lacks : (f : ImageFile) → Lacks b'/' (file_to_string f)
unfolding file_to_string
file_to_string-Lacks f = elim (Bool-cases f.is_static) [
  | inl e ↦ rw e (
      Lacks-append b'/' _ _ (name_slash f.name)
        (Lacks-append b'/' (bytes "_static.") _ (omega arith) (extension_slash f.extension)))
  | inr e ↦ rw e (
      Lacks-append b'/' _ _ (name_slash f.name)
        (Lacks-append b'/' (bytes ".") _ (omega arith) (extension_slash f.extension)))
]
