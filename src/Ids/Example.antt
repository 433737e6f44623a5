-- ===== src/Ids/Example.antt =====
-- A stand-in for the crates ulid, uuid and bson, that their laws hold of: 26 digits of base 32,
-- the lowest first, and ObjectIds that are their bytes. It serves the tests.
use native.Mathlib.Nat.{pow-suc}
use tv.Prelude.{
  ℕ, zero, suc, ◌+◌, ◌-◌, ◌*◌, ◌/◌, ◌%◌, ◌^◌, ◌<◌, ◌≡◌, refl, ap, ltb, arith, List, [], ◌∷◌, All,
  length, if◌then◌else◌,
}
use tv.Prelude.Text.{Str}
use tv.Prelude.Results.{ok, err}
use tv.Ids.{IsBase32, IdCrates}

digit : ℕ → ℕ
digit d = if ltb d 10 then b'0' + d else b'A' + (d - 10)

value : ℕ → ℕ
value c = if ltb c b'A' then c - b'0' else c - b'A' + 10

digit-IsBase32 : (d : ℕ) → d < 32 → IsBase32 (digit d)
unfolding digit
digit-IsBase32 d h = ground arith

value-digit : (d : ℕ) → d < 32 → value (digit d) ≡ d
unfolding value digit
value-digit d h = ground arith

pub encode : ℕ → ℕ → Str
encode zero u = []
encode (suc n) u = digit (u % 32) ∷ encode n (u / 32)

pub decode : Str → ℕ
decode [] = 0
decode (c ∷ s) = value c + 32 * decode s

pub decode-encode : (n u : ℕ) → u < 32 ^ n → decode (encode n u) ≡ u
unfolding decode encode
decode-encode zero u h = omega arith
decode-encode (suc n) u h = omega (
  arith,
  pow-suc 32 n,
  value-digit (u % 32) (omega arith),
  decode-encode n (u / 32) (omega (arith, pow-suc 32 n)),
)

pub length-encode : (n u : ℕ) → length (encode n u) ≡ n
unfolding encode
length-encode zero u = refl
length-encode (suc n) u = ap suc (length-encode n (u / 32))

pub encode-IsBase32 : (n u : ℕ) → All IsBase32 (encode n u)
unfolding encode
encode-IsBase32 zero u = tt
encode-IsBase32 (suc n) u = (digit-IsBase32 (u % 32) (omega arith), encode-IsBase32 n (u / 32))

abbrev pub stand_in : IdCrates
stand_in = record {
  DecodeError = Unit {0};
  UuidError = Unit {0};
  OidError = Unit {0};
  ObjectId = List ℕ;
  from_parts = λ t r. t * 2 ^ 80 + r;
  timestamp_ms = λ u. u / 2 ^ 80;
  random = λ u. u % 2 ^ 80;
  ulid_from_str = λ s. ok (decode s);
  ulid_to_string = encode 26;
  uuid_from_str = λ s. err tt;
  oid_from_str = λ s. err tt;
  oid_from_bytes = λ b. b;
  oid_bytes = λ b. b;
  from_parts_lem = λ u h. omega arith;
  length-ulid_to_string = length-encode 26;
  ulid_to_string-base32 = encode-IsBase32 26;
  ulid_from_str-to_string = λ u h. ap ok (decode-encode 26 u (omega arith));
  oid_bytes-from_bytes = λ b l s. refl;
}
