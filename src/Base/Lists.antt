-- ===== src/Base/Lists.antt =====
-- Lists measured by native numbers, and predicates over their members.
use Prim.Native.Nat.{ℕ, zero, suc, ◌≤◌}
use mathlib.Core.Path.{◌≡◌, refl}
use mathlib.Core.Logic.{◌⊎◌, inl, inr}
use mathlib.Core.Option.{Option, none, some}
use mathlib.Core.Bool.{Bool}
use mathlib.Core.List.{List, [], ◌∷◌, ◌++◌}
use native.Mathlib.Omega.{arith}
use spanner_paxos.Base.Tests.{if◌then◌else◌, leb, ltb}

module _ {ℓ} {A : Type ℓ} where
  abbrev pub length : List A → ℕ
  length [] = 0
  length (x ∷ xs) = suc (length xs)

  abbrev pub get_elem? : List A → ℕ → Option A
  get_elem? [] i = none
  get_elem? (x ∷ xs) zero = some x
  get_elem? (x ∷ xs) (suc i) = get_elem? xs i

  abbrev pub take : ℕ → List A → List A
  take zero xs = []
  take (suc n) [] = []
  take (suc n) (x ∷ xs) = x ∷ take n xs

  abbrev pub last? : List A → Option A
  last? [] = none
  last? (x ∷ []) = some x
  last? (x ∷ y ∷ xs) = last? (y ∷ xs)

  -- How many members pass a test.
  abbrev pub count_if : (A → Bool) → List A → ℕ
  count_if p [] = 0
  count_if p (x ∷ xs) = if p x then suc (count_if p xs) else count_if p xs

  pub count_if-le-length : (p : A → Bool) (xs : List A) → count_if p xs ≤ length xs
  count_if-le-length p [] = omega arith
  count_if-le-length p (x ∷ xs) = ground (arith, count_if-le-length p xs)

module _ {ℓ κ} {A : Type ℓ} where
  abbrev pub All : (A → Type κ) → List A → Type κ
  All Holds [] = Unit
  All Holds (a ∷ rest) = Holds a × All Holds rest

  pub All-split :
      (Holds : A → Type κ) (front back : List A)
      → All Holds (front ++ back)
      → All Holds front × All Holds back
  All-split Holds [] back h = (tt, h)
  All-split Holds (a ∷ front) back h =
      let (ahead, behind) = All-split Holds front back h.1 in ((h.0, ahead), behind)

  pub All-append :
      (Holds : A → Type κ) (front back : List A)
      → All Holds front
      → All Holds back
      → All Holds (front ++ back)
  All-append Holds [] back ahead behind = behind
  All-append Holds (a ∷ front) back ahead behind =
      (ahead.0, All-append Holds front back ahead.1 behind)

-- `Iterator::max` and `Iterator::min`.
unfoldable pub max? : List ℕ → Option ℕ
max? [] = none
max? (x ∷ xs) = elim (max? xs) [ none ↦ some x | some y ↦ some (if leb x y then y else x) ]

unfoldable pub min? : List ℕ → Option ℕ
min? [] = none
min? (x ∷ xs) = elim (min? xs) [ none ↦ some x | some y ↦ some (if leb x y then x else y) ]

-- `sort_unstable_by(|a, b| b.cmp(a))`: highest first. (Equal numbers cannot be told apart.)
unfoldable pub insert_desc : ℕ → List ℕ → List ℕ
insert_desc x [] = x ∷ []
insert_desc x (y ∷ ys) = if ltb x y then y ∷ insert_desc x ys else x ∷ y ∷ ys

unfoldable pub sort_desc : List ℕ → List ℕ
unfolding insert_desc
sort_desc [] = []
sort_desc (x ∷ xs) = insert_desc x (sort_desc xs)

pub data Member {ℓ} {A : Type ℓ} (a : A) : List A → Type ℓ where
  here : {xs : List A} → Member a (a ∷ xs)
  there : {x : A} {xs : List A} → Member a xs → Member a (x ∷ xs)

pub Member-All {ℓ κ} :
    {A : Type ℓ} (P : A → Type κ) (a : A) (xs : List A) → All P xs → Member a xs → P a
Member-All P a [] h m = elim m [ ]
Member-All P a (x ∷ xs) h here = h.0
Member-All P a (x ∷ xs) h (there m) = Member-All P a xs h.1 m

pub Member-cons {ℓ} :
    {A : Type ℓ} {a x : A} {xs : List A} → Member a (x ∷ xs) → (a ≡ x) ⊎ Member a xs
Member-cons here = inl refl
Member-cons (there m) = inr m
