-- ===== src/Leader/Contacts.antt =====
-- spx_core/src/roles/leader.rs: what holds of all the times of contact, in their map or sorted.
use spanner_paxos.Base.{
  All, Bool-cases, List, [], get_elem?, inl, inr, insert_desc, ltb, some, sort_desc, subst, suc,
  zero, ℕ, ◌==◌, ◌∷◌, ◌≡◌,
}
use spanner_paxos.Map.{Map, insert, lookup, values}

module _ (P : ℕ → Type 0) where
  insert_desc-All : (x : ℕ) (xs : List ℕ) → P x → All P xs → All P (insert_desc x xs)
  unfolding insert_desc
  insert_desc-All x [] p h = (p, tt)
  insert_desc-All x (y ∷ ys) p h = elim (Bool-cases (ltb x y)) [
    | inl less ↦ rw less (h.0, insert_desc-All x ys p h.1)
    | inr more ↦ rw more (p, h)
  ]

  pub sort_desc-All : (xs : List ℕ) → All P xs → All P (sort_desc xs)
  unfolding sort_desc
  sort_desc-All [] h = tt
  sort_desc-All (x ∷ xs) h = insert_desc-All x (sort_desc xs) h.0 (sort_desc-All xs h.1)

  pub get_elem?-All : (xs : List ℕ) (i x : ℕ) → get_elem? xs i ≡ some x → All P xs → P x
  get_elem?-All [] i x e h = cc
  get_elem?-All (y ∷ ys) zero x e h = let same : y ≡ x = cc in subst P same h.0
  get_elem?-All (y ∷ ys) (suc i) x e h = get_elem?-All ys i x e h.1

  pub insert-All : (k v : ℕ) (m : Map ℕ) → P v → All P (values m) → All P (values (insert k v m))
  unfolding insert
  insert-All k v [] p h = (p, tt)
  insert-All k v ((j, w) ∷ m) p h = elim (Bool-cases (ltb k j)) [
    | inl before_it ↦ rw before_it (p, h)
    | inr not_before ↦ elim (Bool-cases (j == k)) [
      | inl there_now ↦ rw (not_before, there_now) (p, h.1)
      | inr behind ↦ rw (not_before, behind) (h.0, insert-All k v m p h.1)
    ]
  ]

  pub lookup-All : (k v : ℕ) (m : Map ℕ) → lookup k m ≡ some v → All P (values m) → P v
  unfolding lookup
  lookup-All k v [] e h = cc
  lookup-All k v ((j, w) ∷ m) e h = elim (Bool-cases (j == k)) [
    | inl found ↦ let q = rw found at e in let same : w ≡ v = cc in subst P same h.0
    | inr later ↦ lookup-All k v m (rw later at e) h.1
  ]
