-- ===== src/Map/Keys.antt =====
-- The keys of a map, and what leaves them as they are.
use spanner_paxos.Base.{
  Bool-cases, [], ap, arith, false, inl, inr, length, none, refl, some, suc, sym, ℕ, ◌==◌, ◌∙◌, ◌∷◌,
  ◌≡◌,
}
use spanner_paxos.Map.{Map, Rises, insert, keys, lookup, map_values}
use spanner_paxos.Map.Laws.{lookup_below_bound}

pub length-keys {ℓ} : {V : Type ℓ} (m : Map V) → length (keys m) ≡ length m
length-keys [] = refl
length-keys ((k, v) ∷ m) = ap suc (length-keys m)

module _ {ℓ κ} {V : Type ℓ} {W : Type κ} where
  pub keys-map_values : (f : V → W) (m : Map V) → keys (map_values f m) ≡ keys m
  keys-map_values f [] = refl
  keys-map_values f ((k, v) ∷ m) = ap (λ ks. k ∷ ks) (keys-map_values f m)

  pub map_values-Rises : (f : V → W) (n : ℕ) (m : Map V) → Rises n m → Rises n (map_values f m)
  map_values-Rises f n [] r = tt
  map_values-Rises f n ((k, v) ∷ m) r = (r.0, map_values-Rises f (suc k) m r.1)

  -- Two maps with the same keys have the same keys after an insertion at one key.
  pub keys-insert_same :
      (k : ℕ) (v : V) (w : W) (m : Map V) (m' : Map W)
      → keys m ≡ keys m'
      → keys (insert k v m) ≡ keys (insert k w m')
  unfolding insert
  keys-insert_same k v w [] [] e = refl
  keys-insert_same k v w [] ((j, y) ∷ m') e = cc
  keys-insert_same k v w ((i, x) ∷ m) [] e = cc
  keys-insert_same k v w ((i, x) ∷ m) ((j, y) ∷ m') e =
      let same : i ≡ j = cc in
      let rest : keys m ≡ keys m' = cc in
      ground (arith, same, rest, keys-insert_same k v w m m' rest)

  -- They are found at the same keys.
  pub lookup-keys :
      (k : ℕ) (v : V) (m : Map V) (m' : Map W)
      → keys m ≡ keys m'
      → lookup k m ≡ some v
      → (w : W) × (lookup k m' ≡ some w)
  unfolding lookup
  lookup-keys k v [] m' e found = cc
  lookup-keys k v ((i, x) ∷ m) [] e found = cc
  lookup-keys k v ((i, x) ∷ m) ((j, y) ∷ m') e found =
      let same : i ≡ j = cc in
      let rest : keys m ≡ keys m' = cc in
      elim (Bool-cases (i == k)) [
        | inl found_here ↦ (y, rw (rw same at found_here) refl)
        | inr later ↦
            let (w, at) = lookup-keys k v m m' rest (rw later at found) in
            let missed : (j == k) ≡ false = rw same at later in (w, rw missed at)
      ]

pub keys-insert_present {ℓ} :
    {V : Type ℓ} (n k : ℕ) (v old : V) (m : Map V)
    → Rises n m
    → lookup k m ≡ some old
    → keys (insert k v m) ≡ keys m
unfolding insert lookup
keys-insert_present n k v old [] r h = cc
keys-insert_present n k v old ((j, w) ∷ m) r h =
    ground (arith, keys-insert_present (suc j) k v old m r.1, lookup_below_bound (suc j) k m r.1)

pub length-insert_present {ℓ} :
    {V : Type ℓ} (n k : ℕ) (v old : V) (m : Map V)
    → Rises n m
    → lookup k m ≡ some old
    → length (insert k v m) ≡ length m
length-insert_present n k v old m r h =
    sym (length-keys (insert k v m))
    ∙ ap length (keys-insert_present n k v old m r h)
    ∙ length-keys m

pub length-insert_absent {ℓ} :
    {V : Type ℓ} (k : ℕ) (v : V) (m : Map V)
    → lookup k m ≡ none
    → length (insert k v m) ≡ suc (length m)
unfolding insert lookup
length-insert_absent k v [] h = refl
length-insert_absent k v ((j, w) ∷ m) h = ground (arith, length-insert_absent k v m)
