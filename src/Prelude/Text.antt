-- ===== src/Prelude/Text.antt =====
-- Rust's `&str` as the list of its UTF-8 bytes. The literals of the program are ASCII, so that
-- the code points of a literal are its bytes.
use Prim.Native.Char.{code}
use Prim.Native.String.{String}
use Prim.Native.Nat.{ℕ}
use tv.Prelude.{
  ◌≡◌, ◌≢◌, ◌++◌, Option, none, some, All, if◌then◌else◌, refl, ◌↔◌, Bool, true, false, ◌&&◌, ◌==◌,
  List, [], ◌∷◌, arith, Eq,
}

abbrev pub Str : Type 0
Str = List ℕ

abbrev pub bytes : String → Str
bytes String.[] = []
bytes (String.◌∷◌ c s) = code c ∷ bytes s

abbrev pub beq : Str → Str → Bool
beq [] [] = true
beq (a ∷ s) (b ∷ t) = a == b && beq s t
beq _ _ = false

pub beq_iff : (s t : Str) → (beq s t ≡ true) ↔ (s ≡ t)
beq_iff [] [] = ((λ _. refl), (λ _. refl))
beq_iff [] (b ∷ t) = ((λ h. cc), (λ h. cc))
beq_iff (a ∷ s) [] = ((λ h. cc), (λ h. cc))
beq_iff (a ∷ s) (b ∷ t) =
    ((λ h. ground (arith, (beq_iff s t).0)), (λ h. ground (arith, (beq_iff s t).1)))

instance abbrev pub str_eq : Eq Str
str_eq = record { beq = beq; beq_iff = beq_iff }

abbrev push : ℕ → List Str → List Str
push a [] = (a ∷ []) ∷ []
push a (piece ∷ pieces) = (a ∷ piece) ∷ pieces

-- `str::split(c)`, collected: always at least one piece.
abbrev pub split : ℕ → Str → List Str
split c [] = [] ∷ []
split c (a ∷ s) = elim (a == c) [ true ↦ [] ∷ split c s | false ↦ push a (split c s) ]

-- `str::split_once(c)`: the parts before and after the first `c`.
abbrev pub split_once : ℕ → Str → Option (Str × Str)
split_once c [] = none
split_once c (a ∷ s) = elim (a == c) [
  | true ↦ some ([], s)
  | false ↦ elim (split_once c s) [ some (before, after) ↦ some (a ∷ before, after) | none ↦ none ]
]

-- `str::strip_suffix`
abbrev pub strip_suffix : Str → Str → Option Str
strip_suffix [] suffix = if beq [] suffix then some [] else none
strip_suffix (a ∷ s) suffix =
    if beq (a ∷ s) suffix
    then some []
    else elim (strip_suffix s suffix) [ some rest ↦ some (a ∷ rest) | none ↦ none ]

abbrev pub Lacks : ℕ → Str → Type 0
Lacks c s = All (λ a. a ≢ c) s

-- A text without the separator is one piece, also before the rest of the text.
pub split-append : (c : ℕ) (s rest : Str) → Lacks c s → split c (s ++ c ∷ rest) ≡ s ∷ split c rest
split-append c [] rest h = ground arith
split-append c (a ∷ s) rest h = ground (arith, split-append c s rest h.1)

pub split_whole : (c : ℕ) (s : Str) → Lacks c s → split c s ≡ s ∷ []
split_whole c [] h = refl
split_whole c (a ∷ s) h = ground (arith, split_whole c s h.1)

pub split_once-append :
    (c : ℕ) (s rest : Str) → Lacks c s → split_once c (s ++ c ∷ rest) ≡ some (s, rest)
split_once-append c [] rest h = ground arith
split_once-append c (a ∷ s) rest h = ground (arith, split_once-append c s rest h.1)
