-- ===== src/Map/Laws.antt =====
-- The laws of the maps.
use spanner_paxos.Base.{
  ℕ, suc, ◌≤◌, ◌<◌, ◌≡◌, refl, [], ◌∷◌, none, some, ltb, ◌==◌, if◌then◌else◌, arith,
}
use spanner_paxos.Map.{Map, lookup, insert, below, from, Rises}

module _ {ℓ} {V : Type ℓ} where
  pub lookup-insert :
      (key other : ℕ) (value : V) (m : Map V)
      → lookup other (insert key value m) ≡ (if key == other then some value else lookup other m)
  unfolding insert lookup
  lookup-insert key other value [] = refl
  lookup-insert key other value ((i, w) ∷ rest) = ground (arith, lookup-insert key other value rest)

  pub lookup-below :
      (k j : ℕ) (m : Map V) → lookup j (below k m) ≡ (if ltb j k then lookup j m else none)
  unfolding lookup below
  lookup-below k j [] = ground arith
  lookup-below k j ((i, w) ∷ m) = ground (arith, lookup-below k j m)

  pub lookup-from :
      (k j : ℕ) (m : Map V) → lookup j (from k m) ≡ (if ltb j k then none else lookup j m)
  unfolding lookup from
  lookup-from k j [] = ground arith
  lookup-from k j ((i, w) ∷ m) = ground (arith, lookup-from k j m)

  pub Rises-mono : {n k : ℕ} (m : Map V) → k ≤ n → Rises n m → Rises k m
  Rises-mono [] h r = tt
  Rises-mono ((j, v) ∷ m) h r = (omega arith, r.1)

  pub insert-Rises : (n k : ℕ) (v : V) (m : Map V) → n ≤ k → Rises n m → Rises n (insert k v m)
  unfolding insert
  insert-Rises n k v [] h r = (h, tt)
  insert-Rises n k v ((j, w) ∷ m) h r =
      ground (arith, insert-Rises (suc j) k v m, Rises-mono {n = suc j} {k = suc k} m)

  pub below-Rises : (n k : ℕ) (m : Map V) → Rises n m → Rises n (below k m)
  unfolding below
  below-Rises n k [] r = tt
  below-Rises n k ((j, w) ∷ m) r =
      ground (arith, below-Rises (suc j) k m, Rises-mono {n = suc j} {k = n} (below k m))

  pub from-Rises : (n k : ℕ) (m : Map V) → Rises n m → Rises n (from k m)
  unfolding from
  from-Rises n k [] r = tt
  from-Rises n k ((j, w) ∷ m) r =
      ground (arith, from-Rises (suc j) k m, Rises-mono {n = suc j} {k = n} (from k m))

  pub lookup_below_bound : (n k : ℕ) (m : Map V) → Rises n m → k < n → lookup k m ≡ none
  unfolding lookup
  lookup_below_bound n k [] r h = refl
  lookup_below_bound n k ((j, w) ∷ m) r h = ground (arith, lookup_below_bound (suc j) k m r.1)
