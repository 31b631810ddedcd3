-- ===== src/Follower/Boards.antt =====
-- spx_core/src/roles/candidate.rs and leader.rs: maps that have an entry for each peer.
use spanner_paxos.Base.{
  All, List, [], ap, arith, length, none, refl, some, suc, sym, ℕ, ◌∙◌, ◌∷◌, ◌≡◌, ◌≢◌,
}
use spanner_paxos.Follower.{for_peers}
use spanner_paxos.Map.{IsMap, Map, insert, keys, lookup, map_values}
use spanner_paxos.Map.Keys.{
  keys-insert_present, keys-insert_same, keys-map_values, length-insert_absent, length-keys,
  lookup-keys, map_values-Rises,
}
use spanner_paxos.Map.Laws.{insert-Rises, lookup-insert}
use spanner_paxos.Messages.{Uuid}

-- The keys that a map for the peers has.
abbrev pub seats : List Uuid → Map (Unit {0})
seats peers = for_peers tt peers

-- The map has exactly the keys that `for_peers` gives it.
pub record IsBoard {ℓ} {V : Type ℓ} (peers : List Uuid) (m : Map V) : Type ℓ where
  pub rises : IsMap m
  pub same : keys m ≡ keys (seats peers)

-- No peer is listed twice.
abbrev pub IsDistinct : List Uuid → Type 0
IsDistinct [] = Unit {0}
IsDistinct (id ∷ ids) = All (λ other. id ≢ other) ids × IsDistinct ids

module _ {ℓ} {V : Type ℓ} where
  for_peers-IsMap : (v : V) (peers : List Uuid) → IsMap (for_peers v peers)
  unfolding for_peers
  for_peers-IsMap v [] = tt
  for_peers-IsMap v (id ∷ ids) = insert-Rises 0 id v _ (omega arith) (for_peers-IsMap v ids)

  keys-for_peers : (v : V) (peers : List Uuid) → keys (for_peers v peers) ≡ keys (seats peers)
  unfolding for_peers
  keys-for_peers v [] = refl
  keys-for_peers v (id ∷ ids) = keys-insert_same id v tt _ _ (keys-for_peers v ids)

  pub for_peers-IsBoard : (v : V) (peers : List Uuid) → IsBoard peers (for_peers v peers)
  for_peers-IsBoard v peers = record {
    rises = for_peers-IsMap v peers;
    same = keys-for_peers v peers;
  }

  -- An insertion at a key that the map has.
  pub insert-IsBoard :
      (peers : List Uuid) (k : ℕ) (v old : V) (m : Map V)
      → lookup k m ≡ some old
      → IsBoard peers m
      → IsBoard peers (insert k v m)
  insert-IsBoard peers k v old m found h = record {
    rises = insert-Rises 0 k v m (omega arith) h.rises;
    same = keys-insert_present 0 k v old m h.rises found ∙ h.same;
  }

pub map_values-IsBoard {ℓ κ} :
    {V : Type ℓ} {W : Type κ} (f : V → W) (peers : List Uuid) (m : Map V)
    → IsBoard peers m
    → IsBoard peers (map_values f m)
map_values-IsBoard f peers m h = record {
  rises = map_values-Rises f 0 m h.rises;
  same = keys-map_values f m ∙ h.same;
}

-- Two boards for the same peers have entries at the same keys.
pub IsBoard-lookup {ℓ κ} :
    {V : Type ℓ} {W : Type κ} (peers : List Uuid) (k : ℕ) (v : V) (m : Map V) (m' : Map W)
    → IsBoard peers m
    → IsBoard peers m'
    → lookup k m ≡ some v
    → (w : W) × (lookup k m' ≡ some w)
IsBoard-lookup peers k v m m' h h' found = lookup-keys k v m m' (h.same ∙ sym h'.same) found

lookup-for_peers :
    (id : Uuid) (peers : List Uuid)
    → All (λ other. id ≢ other) peers
    → lookup id (seats peers) ≡ none
unfolding for_peers lookup
lookup-for_peers id [] h = refl
lookup-for_peers id (p ∷ ps) h =
    let rest = lookup-for_peers id ps h.1 in
    let other : ¬ (p ≡ id) = λ e. h.0 (sym e) in
    ground (arith, lookup-insert p id tt (seats ps), rest, other)

length-for_peers : (peers : List Uuid) → IsDistinct peers → length (seats peers) ≡ length peers
unfolding for_peers
length-for_peers [] h = refl
length-for_peers (id ∷ ids) h =
    length-insert_absent id tt (seats ids) (lookup-for_peers id ids h.0)
    ∙ ap suc (length-for_peers ids h.1)

-- A board has as many entries as there are peers, if no peer is listed twice.
pub length-IsBoard {ℓ} :
    {V : Type ℓ} (peers : List Uuid) (m : Map V)
    → IsDistinct peers
    → IsBoard peers m
    → length m ≡ length peers
length-IsBoard peers m distinct h =
    sym (length-keys m)
    ∙ ap length h.same
    ∙ length-keys (seats peers)
    ∙ length-for_peers peers distinct
