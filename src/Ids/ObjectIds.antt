-- ===== src/Ids/ObjectIds.antt =====
-- The conversions between ids and MongoDB's ObjectId (shared/src/database/id.rs).
use tv.Prelude.{ℕ, ◌*◌, ◌/◌, ◌%◌, ◌^◌, ◌<◌, ◌≡◌, refl, ap, ◌∙◌, arith, some, List, ◌++◌, take, drop}
use tv.Ids.{DatabaseId, IdCrates, to_be_bytes, from_be_bytes, as_object_id, from_object_id}

from_to_be_4 : (x : ℕ) → x < 2 ^ 32 → from_be_bytes 0 (to_be_bytes 4 x) ≡ x
from_to_be_4 x h = omega arith

from_to_be_8 : (x : ℕ) → x < 2 ^ 64 → from_be_bytes 0 (to_be_bytes 8 x) ≡ x
from_to_be_8 x h = omega arith

module _ (crates : IdCrates) where
  open crates use {
    ObjectId, from_parts, timestamp_ms, random, oid_from_bytes, oid_bytes, from_parts_lem,
    oid_bytes-from_bytes,
  }

  abbrev object_bytes : DatabaseId → List ℕ
  object_bytes u =
      to_be_bytes 4 (timestamp_ms u / 1000 % 2 ^ 32) ++ to_be_bytes 8 (random u % 2 ^ 64)

  as_object_id_inv :
      (u : DatabaseId) (o : ObjectId)
      → as_object_id crates u ≡ some o
      → (timestamp_ms u % 1000 ≡ 0)
        × (random u < 2 ^ 64)
        × (timestamp_ms u / 1000 < 2 ^ 32)
        × (oid_from_bytes (object_bytes u) ≡ o)
  unfolding as_object_id
  as_object_id_inv u o e = ground arith

  -- An id of 128 bits that has an ObjectId is got back from it.
  pub from_object_id-as_object_id :
      (u : DatabaseId) (o : ObjectId)
      → u < 2 ^ 128
      → as_object_id crates u ≡ some o
      → from_object_id crates o ≡ u
  unfolding from_object_id
  from_object_id-as_object_id u o h e =
      let (whole, low, high, b) = as_object_id_inv u o e in
      let back : oid_bytes o ≡ object_bytes u =
        rw (← b) (oid_bytes-from_bytes (object_bytes u) refl (omega arith)) in
      let time : from_be_bytes 0 (take 4 (object_bytes u)) * 1000 ≡ timestamp_ms u =
        omega (arith, from_to_be_4 (timestamp_ms u / 1000 % 2 ^ 32) (omega arith)) in
      let rand : from_be_bytes 0 (drop 4 (object_bytes u)) ≡ random u =
        omega (arith, from_to_be_8 (random u % 2 ^ 64) (omega arith)) in
      rw (back, from_object_id)
        (ap (λ t. from_parts t (from_be_bytes 0 (drop 4 (object_bytes u)))) time
          ∙ ap (λ r. from_parts (timestamp_ms u) r) rand
          ∙ from_parts_lem u h)
