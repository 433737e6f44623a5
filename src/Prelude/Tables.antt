-- ===== src/Prelude/Tables.antt =====
-- A Boolean test that holds at every row of its truth table holds at all arguments, so that a
-- law of a few Booleans is checked by computing the table.
use tv.Prelude.{◌≡◌, arith, Bool, true, false, ◌&&◌}

abbrev pub every : (Bool → Bool) → Bool
every f = f true && f false

pub every-at : (f : Bool → Bool) → every f ≡ true → (b : Bool) → f b ≡ true
every-at f h true = ground arith
every-at f h false = ground arith

abbrev pub every_two : (Bool → Bool → Bool) → Bool
every_two f = every (λ a. every (f a))

pub every_two-at : (f : Bool → Bool → Bool) → every_two f ≡ true → (a b : Bool) → f a b ≡ true
every_two-at f h a b = every-at (f a) (every-at (λ x. every (f x)) h a) b

abbrev pub every_four : (Bool → Bool → Bool → Bool → Bool) → Bool
every_four f = every_two (λ a b. every_two (f a b))

pub every_four-at :
    (f : Bool → Bool → Bool → Bool → Bool)
    → every_four f ≡ true
    → (a b c d : Bool) → f a b c d ≡ true
every_four-at f h a b c d = every_two-at (f a b) (every_two-at (λ x y. every_two (f x y)) h a b) c d

abbrev pub every_six : (Bool → Bool → Bool → Bool → Bool → Bool → Bool) → Bool
every_six f = every_two (λ a b. every_four (f a b))

pub every_six-at :
    (f : Bool → Bool → Bool → Bool → Bool → Bool → Bool)
    → every_six f ≡ true
    → (a b c d e g : Bool) → f a b c d e g ≡ true
every_six-at f h a b c d e g =
    every_four-at (f a b) (every_two-at (λ x y. every_four (f x y)) h a b) c d e g
