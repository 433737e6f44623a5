-- ===== src/Entitlements/Fetch/Tests.antt =====
-- The loaders over four edges between digits: the edge 12 leads from 1 to 2.
use tv.Prelude.{
  ℕ, ◌/◌, ◌%◌, ◌≡◌, refl, arith, Bool, true, false, ◌&&◌, ◌==◌, ==_iff, Option, none, some, List,
  [], ◌∷◌, nat_eq, contains, get_or, keep, if◌then◌else◌, Option-cases, inl, inr,
}
use tv.Prelude.HashMap.{HashMap, get, insert, IsUnique, get-insert, IsUnique-insert}
use tv.Prelude.Results.{Result, ok, err}
use tv.Graph.{Direction}
use tv.Entitlements.Fetch.{Collection, Grouping, Batching, fetch_edges}
use tv.Entitlements.Fetch.Answer.{fetch_edges-contains}

abbrev from : ℕ → ℕ
from e = e / 10

abbrev to : ℕ → ℕ
to e = e % 10

abbrev stored : List ℕ
stored = 12 ∷ 21 ∷ 23 ∷ 41 ∷ []

contains-keep :
    (p : ℕ → Bool) (es : List ℕ) (e : ℕ) → contains (keep p es) e ≡ (contains es e && p e)
contains-keep p [] e = refl
contains-keep p (x ∷ es) e = ground (arith, ==_iff x e, contains-keep p es e)

abbrev find : (ℕ → ℕ) → List ℕ → Option (List ℕ)
find end asked = some (keep (λ e. contains asked (end e)) stored)

find_lem :
    (end : ℕ → ℕ) (asked es : List ℕ)
    → find end asked ≡ some es
    → (e : ℕ) → contains es e ≡ (contains stored e && contains asked (end e))
find_lem end asked es h e =
    let same : keep (λ e. contains asked (end e)) stored ≡ es = cc in
    rw (same) at (contains-keep (λ e. contains asked (end e)) stored e)

abbrev edges : Collection ℕ ℕ from to
edges = record {
  stored = stored;
  find_to = find to;
  find_from = find from;
  find_to_lem = find_lem to;
  find_from_lem = find_lem from;
}

abbrev group : (ℕ → ℕ) → List ℕ → HashMap ℕ (List ℕ)
group f [] = []
group f (e ∷ es) = insert (group f es) (f e) (e ∷ get_or (get (group f es) (f e)) [])

group_lem :
    (f : ℕ → ℕ) (es : List ℕ) (k e : ℕ)
    → contains (get_or (get (group f es) k) []) e ≡ (contains es e && (f e == k))
group_lem f [] k e = refl
group_lem f (x ∷ es) k e = ground (
  arith,
  get-insert (group f es) (f x) k (x ∷ get_or (get (group f es) (f x)) []),
  group_lem f es k e,
  ==_iff x e,
  ==_iff (f x) k,
)

abbrev groups : Grouping ℕ ℕ
groups = record { into_group_map_by = group; into_group_map_by_lem = group_lem }

abbrev Groups : Type 0
Groups = HashMap ℕ (List ℕ)

-- The entries of `r` for the wanted keys.
abbrev pick : Groups → List ℕ → Groups
pick r [] = []
pick r (k ∷ ks) = elim (get r k) [ some v ↦ insert (pick r ks) k v | none ↦ pick r ks ]

get-pick :
    (r : Groups) (ks : List ℕ) (j : ℕ)
    → get (pick r ks) j ≡ (if contains ks j then get r j else none)
get-pick r [] j = refl
get-pick r (k ∷ ks) j = elim (Option-cases (get r k)) [
  | inl p ↦ rw (p, pick) (ground (arith, get-pick r ks j, ==_iff k j))
  | inr (v, p) ↦
      rw (p, pick) (ground (arith, get-pick r ks j, get-insert (pick r ks) k j v, ==_iff k j))
]

pick-IsUnique : (r : Groups) (ks : List ℕ) → IsUnique (pick r ks)
pick-IsUnique r [] = tt
pick-IsUnique r (k ∷ ks) = elim (Option-cases (get r k)) [
  | inl p ↦ rw (p, pick) (pick-IsUnique r ks)
  | inr (v, p) ↦ rw (p, pick) (IsUnique-insert (pick r ks) k v (pick-IsUnique r ks))
]

-- One batch for every request.
abbrev load_many : (List ℕ → Option Groups) → List ℕ → Result Groups (Unit {0})
load_many load asked = elim (load asked) [ none ↦ err tt | some r ↦ ok (pick r asked) ]

loaded :
    (load : List ℕ → Option Groups) (asked : List ℕ) (m : Groups)
    → load_many load asked ≡ ok m
    → (r : Groups) × (load asked ≡ some r) × (pick r asked ≡ m)
loaded load asked m h = elim (Option-cases (load asked)) [
  | inl p ↦ absurd (let clash : err tt ≡ ok m = rw (p, load_many) at h in cc)
  | inr (r, p) ↦ let same : ok (pick r asked) ≡ ok m = rw (p, load_many) at h in (r, p, cc)
]

module _ (load : List ℕ → Option Groups) (asked : List ℕ) (m : Groups)
    (h : load_many load asked ≡ ok m) where
  load_many-IsUnique : IsUnique m
  load_many-IsUnique =
      let (r, p, same) = loaded load asked m h in rw (← same) (pick-IsUnique r asked)

  load_many_other : (k : ℕ) → contains asked k ≡ false → get m k ≡ none
  load_many_other k other =
      let (r, p, same) = loaded load asked m h in rw (← same) (ground (arith, get-pick r asked k))

  load_many_asked :
      (k : ℕ)
      → contains asked k ≡ true
      → (batch : List ℕ) × (r : Groups) × (contains batch k ≡ true)
        × (load batch ≡ some r)
        × (get m k ≡ get r k)
  load_many_asked k wanted =
      let (r, p, same) = loaded load asked m h in
      (asked, r, wanted, p, rw (← same) (ground (arith, get-pick r asked k)))

abbrev single : Batching ℕ ℕ
single = record {
  load_many = load_many;
  load_many-IsUnique = load_many-IsUnique;
  load_many_other = load_many_other;
  load_many_asked = load_many_asked;
}

fetch_edges-contains_example : contains {A = ℕ} (21 ∷ 23 ∷ []) 23 ≡ true
unfolding fetch_edges
fetch_edges-contains_example =
    fetch_edges-contains from to edges groups single Direction.outbound (2 ∷ []) (21 ∷ 23 ∷ []) refl
      23
