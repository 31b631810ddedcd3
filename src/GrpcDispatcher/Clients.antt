-- ===== src/GrpcDispatcher/Clients.antt =====
-- spx_app/src/grpc/paxos_dispatcher.rs: the clients that a dispatcher keeps.
use spanner_paxos.Base.{
  Bool-cases, Option, ap, arith, inl, inr, none, refl, some, ◌==◌, ◌∙◌, ◌≡◌, ◌⊎◌,
}
use spanner_paxos.GrpcDispatcher.{MemberConfig, PaxosClient}
use spanner_paxos.Map.{Map, insert, lookup}
use spanner_paxos.Map.Laws.{lookup-insert}
use spanner_paxos.Messages.{Uuid}
use spanner_paxos.TrueTime.{before}

-- What the map holds for a member.
abbrev pub Entry : Type 0
Entry = Option (MemberConfig × Option PaxosClient)

abbrev pub IsThere : Entry → Type 0
IsThere none = ⊥
IsThere (some found) = Unit {0}

abbrev pub IsKey : Map (MemberConfig × Option PaxosClient) → Uuid → Type 0
IsKey clients id = IsThere (lookup id clients)

-- The client is in the entry.
abbrev pub Stored : Entry → PaxosClient → Type 0
Stored none client = ⊥
Stored (some (config, none)) client = ⊥
Stored (some (config, some cached)) client = cached ≡ client

module _ (connect : MemberConfig → Option PaxosClient) where
  -- The client for an entry: the one that is there, or else the one that its configuration makes.
  abbrev pub Chosen : Entry → PaxosClient → Type 0
  Chosen none client = ⊥
  Chosen (some (config, some cached)) client = cached ≡ client
  Chosen (some (config, none)) client = connect config ≡ some client

  -- There is no client in the entry, and its configuration makes none.
  abbrev pub Fails : Entry → Type 0
  Fails none = ⊥
  Fails (some (config, some cached)) = ⊥
  Fails (some (config, none)) = connect config ≡ none

  -- An entry later: a client that is there stays, and one that is not may have been made.
  abbrev pub Follows : Entry → Entry → Type 0
  Follows none e = e ≡ none
  Follows (some (config, some cached)) e = e ≡ some (config, some cached)
  Follows (some (config, none)) e =
      (e ≡ some (config, none))
      ⊎ ((client : PaxosClient) × (connect config ≡ some client) × (e ≡ some (config, some client)))

  -- A dispatcher with these clients, and the same one later.
  abbrev pub KeepsClients :
      Map (MemberConfig × Option PaxosClient) → Map (MemberConfig × Option PaxosClient) → Type 0
  KeepsClients before later = (j : Uuid) → Follows (lookup j before) (lookup j later)

  -- A task has the client that is chosen for its member, which is in the map from then on.
  abbrev pub HasClient :
      Map (MemberConfig × Option PaxosClient)
      → Map (MemberConfig × Option PaxosClient)
      → Uuid × PaxosClient
      → Type 0
  HasClient before later (id, client) =
      Chosen (lookup id before) client × Stored (lookup id later) client

  pub Follows-refl : (a : Entry) → Follows a a
  Follows-refl none = refl
  Follows-refl (some (config, some cached)) = refl
  Follows-refl (some (config, none)) = inl refl

  pub Follows-trans : (a b c : Entry) → Follows a b → Follows b c → Follows a c
  Follows-trans none b c f g = let h = rw f at g in h
  Follows-trans (some (config, some cached)) b c f g = let h = rw f at g in h
  Follows-trans (some (config, none)) b c (inl f) g = let h = rw f at g in h
  Follows-trans (some (config, none)) b c (inr (client, made, f)) g =
      let h = rw f at g in inr (client, made, h)

  pub Chosen-back :
      (a b : Entry) (client : PaxosClient) → Follows a b → Chosen b client → Chosen a client
  Chosen-back none b client f h = let k = rw f at h in k
  Chosen-back (some (config, some cached)) b client f h = let k = rw f at h in k
  Chosen-back (some (config, none)) b client (inl f) h = let k = rw f at h in k
  Chosen-back (some (config, none)) b client (inr (cached, made, f)) h =
      let k = rw f at h in made ∙ ap some k

  pub Fails-back : (a b : Entry) → Follows a b → Fails b → Fails a
  Fails-back none b f h = let k = rw f at h in k
  Fails-back (some (config, some cached)) b f h = let k = rw f at h in k
  Fails-back (some (config, none)) b (inl f) h = let k = rw f at h in k
  Fails-back (some (config, none)) b (inr (cached, made, f)) h = let k = rw f at h in absurd k

  pub IsThere-Follows : (a b : Entry) → Follows a b → IsThere a → IsThere b
  IsThere-Follows none b f h = absurd h
  IsThere-Follows (some (config, some cached)) b f h = rw f tt
  IsThere-Follows (some (config, none)) b (inl f) h = rw f tt
  IsThere-Follows (some (config, none)) b (inr (cached, made, f)) h = rw f tt

  pub Stored-Follows :
      (a b : Entry) (client : PaxosClient) → Follows a b → Stored a client → Stored b client
  Stored-Follows none b client f h = absurd h
  Stored-Follows (some (config, some cached)) b client f h = rw f h
  Stored-Follows (some (config, none)) b client f h = absurd h

  pub insert-KeepsClients :
      (clients : Map (MemberConfig × Option PaxosClient)) (id : Uuid) (config : MemberConfig)
      (client : PaxosClient)
      → lookup id clients ≡ some (config, none)
      → connect config ≡ some client
      → KeepsClients clients (insert id (config, some client) clients)
  insert-KeepsClients clients id config client e made j = elim (Bool-cases (id == j)) [
    | inl same ↦
        let at_j : lookup j clients ≡ some (config, none) =
          let it : id ≡ j = ground arith in rw it at e in
        let cached = lookup-insert id j (config, some client) clients in
        let found = rw same at cached in rw at_j (inr (client, made, found))
    | inr other ↦
        let cached = lookup-insert id j (config, some client) clients in
        let found = rw other at cached in rw found (Follows-refl (lookup j clients))
  ]
