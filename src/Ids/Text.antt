-- ===== src/Ids/Text.antt =====
-- The text of an id, and reading it back (shared/src/database/id.rs).
use tv.Prelude.{ℕ, ◌^◌, ◌<◌, ◌≡◌, [], ◌∷◌, All}
use tv.Prelude.Text.{Str, Lacks}
use tv.Prelude.Results.{ok}
use tv.Ids.{DatabaseId, IdCrates, IsBase32, from_str, to_string}

-- `c` is neither a digit nor an upper-case letter.
abbrev pub IsSeparator : ℕ → Type 0
IsSeparator c = ¬ IsBase32 c

base32-Lacks : (c : ℕ) (s : Str) → IsSeparator c → All IsBase32 s → Lacks c s
base32-Lacks c [] n h = tt
base32-Lacks c (a ∷ s) n h = ((λ e. n (rw (← e) h.0)), base32-Lacks c s n h.1)

module _ (crates : IdCrates) where
  open crates use {length-ulid_to_string, ulid_to_string-base32, ulid_from_str-to_string}

  -- The text of an id of 128 bits is read back as that id.
  pub from_str-to_string :
      (u : DatabaseId) → u < 2 ^ 128 → from_str crates (to_string crates u) ≡ ok u
  unfolding from_str to_string
  from_str-to_string u h = rw (length-ulid_to_string u, ulid_from_str-to_string u h)

  pub to_string-Lacks : (c : ℕ) (u : DatabaseId) → IsSeparator c → Lacks c (to_string crates u)
  unfolding to_string
  to_string-Lacks c u n = base32-Lacks c _ n (ulid_to_string-base32 u)
