-- ===== src/Ids/Tests.antt =====
-- The id theorems at the stand-in for the crates.
use tv.Prelude.{ℕ, ◌+◌, ◌*◌, ◌^◌, ◌≡◌, refl, arith, [], ◌∷◌}
use tv.Ids.{as_object_id, from_object_id}
use tv.Ids.ObjectIds.{from_object_id-as_object_id}
use tv.Ids.Example.{stand_in}

-- 1 700 000 000 seconds, and the randomness 258.
abbrev sample : ℕ
sample = 1_700_000_000_000 * 2 ^ 80 + 258

from_object_id-as_object_id_example :
    from_object_id stand_in (0x65 ∷ 0x53 ∷ 0xf1 ∷ 0x00 ∷ 0 ∷ 0 ∷ 0 ∷ 0 ∷ 0 ∷ 0 ∷ 1 ∷ 2 ∷ [])
    ≡ sample
unfolding as_object_id
from_object_id-as_object_id_example =
    from_object_id-as_object_id stand_in sample
      (0x65 ∷ 0x53 ∷ 0xf1 ∷ 0x00 ∷ 0 ∷ 0 ∷ 0 ∷ 0 ∷ 0 ∷ 0 ∷ 1 ∷ 2 ∷ []) (omega arith) refl
