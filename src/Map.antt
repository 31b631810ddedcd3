-- ===== src/Map.antt =====
-- The `BTreeMap` and `HashMap` of the standard library, as association lists in key order.
-- (The order of a `HashMap` is unspecified in Rust; the statements about one do not use it.)
use spanner_paxos.Base.{
  ℕ, suc, ◌≤◌, ◌<◌, List, [], ◌∷◌, Option, none, some, Bool, true, false, ltb, leb, ◌==◌,
  if◌then◌else◌,
}
pub mod Laws
pub mod Keys

abbrev pub Map {ℓ} : Type ℓ → Type ℓ
Map V = List (ℕ × V)

module _ {ℓ} {V : Type ℓ} where
  unfoldable pub lookup : ℕ → Map V → Option V
  lookup key [] = none
  lookup key ((k, value) ∷ rest) = if k == key then some value else lookup key rest

  unfoldable pub insert : ℕ → V → Map V → Map V
  insert k v [] = (k, v) ∷ []
  insert k v ((j, w) ∷ m) =
      if ltb k j then (k, v) ∷ (j, w) ∷ m else if j == k then (k, v) ∷ m else (j, w) ∷ insert k v m

  -- What `split_off(k)` leaves behind, and what it returns.
  unfoldable pub below : ℕ → Map V → Map V
  below k [] = []
  below k ((j, v) ∷ m) = if ltb j k then (j, v) ∷ below k m else below k m

  unfoldable pub from : ℕ → Map V → Map V
  from k [] = []
  from k ((j, v) ∷ m) = if ltb j k then from k m else (j, v) ∷ from k m

  abbrev pub keys : Map V → List ℕ
  keys [] = []
  keys ((k, v) ∷ m) = k ∷ keys m

  abbrev pub values : Map V → List V
  values [] = []
  values ((k, v) ∷ m) = v ∷ values m

  -- `values_mut` with one update for all.
  abbrev pub map_values {κ} : {W : Type κ} → (V → W) → Map V → Map W
  map_values f [] = []
  map_values f ((k, v) ∷ m) = (k, f v) ∷ map_values f m

  -- Keys rise strictly, from `n` on.
  abbrev pub Rises : ℕ → Map V → Type 0
  Rises n [] = Unit {0}
  Rises n ((k, v) ∷ m) = (n ≤ k) × Rises (suc k) m

  abbrev pub IsMap : Map V → Type 0
  IsMap m = Rises 0 m
