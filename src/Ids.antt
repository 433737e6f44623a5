-- ===== src/Ids.antt =====
-- Database ids (shared/src/database/id.rs). `Id<S>` wraps the 128 bits of a ULID, and its
-- parameter only marks what is named, so an id is a number here, a
-- `DatabaseId`. The crates ulid, uuid and bson, which are not in the repository, are an interface
-- with the laws that they document.
pub mod ObjectIds
pub mod Text
pub mod Example
mod Tests
use tv.Prelude.{
  ℕ, zero, suc, ◌++◌, take, drop, ◌+◌, ◌-◌, ◌*◌, ◌/◌, ◌%◌, ◌^◌, ◌<◌, ◌≤◌, ◌≡◌, ◌⊎◌, Bool, true,
  ◌&&◌, ◌||◌, ◌==◌, leb, Option, none, some, List, [], ◌∷◌, All, length, if◌then◌else◌,
}
use tv.Prelude.Text.{Str}
use tv.Prelude.Results.{Result, ok, err, ◌>>=◌, map_err}

abbrev pub DatabaseId : Type 0
DatabaseId = ℕ

abbrev pub UserId : Type 0
UserId = DatabaseId

abbrev pub RoleId : Type 0
RoleId = DatabaseId

-- Digits and upper-case letters, which hold Crockford's base 32.
abbrev pub IsBase32 : ℕ → Type 0
IsBase32 c = (b'0' ≤ c) × (c ≤ b'9') ⊎ (b'A' ≤ c) × (c ≤ b'Z')

pub record IdCrates : Type 1 where
  pub DecodeError : Type 0
  pub UuidError : Type 0
  pub OidError : Type 0
  pub ObjectId : Type 0
  -- ulid::Ulid
  pub from_parts : ℕ → ℕ → DatabaseId
  pub timestamp_ms : DatabaseId → ℕ
  pub random : DatabaseId → ℕ
  pub ulid_from_str : Str → Result DatabaseId DecodeError
  pub ulid_to_string : DatabaseId → Str
  -- uuid::Uuid, read as the id of its sixteen bytes, and bson::oid::ObjectId
  pub uuid_from_str : Str → Result DatabaseId UuidError
  pub oid_from_str : Str → Result ObjectId OidError
  pub oid_from_bytes : List ℕ → ObjectId
  pub oid_bytes : ObjectId → List ℕ
  -- a ULID is 48 bits of time over 80 bits of randomness
  pub from_parts_lem : (u : DatabaseId) → u < 2 ^ 128 → from_parts (timestamp_ms u) (random u) ≡ u
  -- its text is 26 characters of base 32, and is read back
  pub length-ulid_to_string : (u : DatabaseId) → length (ulid_to_string u) ≡ 26
  pub ulid_to_string-base32 : (u : DatabaseId) → All IsBase32 (ulid_to_string u)
  pub ulid_from_str-to_string :
      (u : DatabaseId) → u < 2 ^ 128 → ulid_from_str (ulid_to_string u) ≡ ok u
  -- an ObjectId made of twelve bytes has those bytes
  pub oid_bytes-from_bytes :
      (b : List ℕ) → length b ≡ 12 → All (λ x. x < 256) b → oid_bytes (oid_from_bytes b) ≡ b

-- `to_be_bytes` of a number of n bytes, and `from_be_bytes`.
abbrev pub to_be_bytes : ℕ → ℕ → List ℕ
to_be_bytes zero x = []
to_be_bytes (suc n) x = (x / 256 ^ n % 256) ∷ to_be_bytes n x

abbrev pub from_be_bytes : ℕ → List ℕ → ℕ
from_be_bytes acc [] = acc
from_be_bytes acc (b ∷ bs) = from_be_bytes (acc * 256 + b) bs

module _ (crates : IdCrates) where
  open crates use {
    DecodeError, UuidError, OidError, ObjectId, from_parts, timestamp_ms, random, ulid_from_str,
    ulid_to_string, uuid_from_str, oid_from_str, oid_from_bytes, oid_bytes,
  }

  unfoldable pub is_object_id_compatible : DatabaseId → Bool
  is_object_id_compatible u =
      timestamp_ms u % 1000 == 0
      && leb (random u) 0xffffffffffffffff
      && leb (timestamp_ms u / 1000) 0xffffffff

  unfoldable pub as_object_id : DatabaseId → Option ObjectId
  unfolding is_object_id_compatible
  as_object_id u =
      if is_object_id_compatible u
      then some (
          oid_from_bytes
            (to_be_bytes 4 (timestamp_ms u / 1000 % 2 ^ 32) ++ to_be_bytes 8 (random u % 2 ^ 64)))
      else none

  -- Bytes 0 to 3 are the seconds, bytes 4 to 11 the randomness.
  unfoldable pub from_object_id : ObjectId → DatabaseId
  from_object_id o =
      from_parts (from_be_bytes 0 (take 4 (oid_bytes o)) * 1000)
        (from_be_bytes 0 (drop 4 (oid_bytes o)))

  pub data IdFromStrError : Type 0 where
    ulid : DecodeError → IdFromStrError
    uuid : UuidError → IdFromStrError
    object_id : OidError → IdFromStrError
    invalid_length : ℕ → IdFromStrError

  unfoldable pub from_str : Str → Result DatabaseId IdFromStrError
  from_str s =
      if length s == 26
      then map_err ulid (ulid_from_str s)
      else if length s == 32 || length s == 36
      then map_err uuid (uuid_from_str s)
      else if length s == 24
      then (map_err object_id (oid_from_str s) >>= λ o. ok (from_object_id o))
      else err (invalid_length (length s))

  -- `Display`
  unfoldable pub to_string : DatabaseId → Str
  to_string u = ulid_to_string u
