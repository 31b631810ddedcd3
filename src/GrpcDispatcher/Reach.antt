-- ===== src/GrpcDispatcher/Reach.antt =====
-- spx_app/src/grpc/paxos_dispatcher.rs: which members a request goes to.
use spanner_paxos.Base.{
  All, Bool-cases, List, Option, Option-cases, Result, [], ap, arith, dispatch_failed, err, inl,
  inr, none, ok, refl, some, ◌++◌, ◌==◌, ◌∷◌, ◌≡◌, ◌⊎◌,
}
use spanner_paxos.GrpcDispatcher.{
  GrpcPaxosDispatcher, MemberConfig, PaxosClient, Spawned, dispatch_request, dispatch_to,
  get_paxos_client, then_spawn,
}
use spanner_paxos.GrpcDispatcher.Clients.{
  Chosen, Chosen-back, Entry, Fails, Fails-back, Follows-refl, Follows-trans, HasClient, IsKey,
  IsThere, IsThere-Follows, KeepsClients, Stored, Stored-Follows, insert-KeepsClients,
}
use spanner_paxos.Map.{Map, insert, keys, lookup}
use spanner_paxos.Map.Laws.{lookup-insert}
use spanner_paxos.Messages.{Uuid}

abbrev pub members : List (Uuid × PaxosClient) → List Uuid
members [] = []
members ((id, client) ∷ tasks) = id ∷ members tasks

All-mono {ℓ κ μ} :
    {A : Type ℓ} {P : A → Type κ} {Q : A → Type μ}
    → ((a : A) → P a → Q a)
    → (xs : List A) → All P xs
    → All Q xs
All-mono each [] h = tt
All-mono each (x ∷ xs) h = (each x h.0, All-mono each xs h.1)

lookup-head :
    (id : Uuid) (found : MemberConfig × Option PaxosClient)
    (clients : Map (MemberConfig × Option PaxosClient))
    → IsKey ((id, found) ∷ clients) id
unfolding lookup
lookup-head id found clients =
    let e : lookup id ((id, found) ∷ clients) ≡ some found = ground arith in rw e tt

lookup-tail :
    (id : Uuid) (found : MemberConfig × Option PaxosClient)
    (clients : Map (MemberConfig × Option PaxosClient)) (j : Uuid)
    → IsKey clients j
    → IsKey ((id, found) ∷ clients) j
unfolding lookup
lookup-tail id found clients j h = elim (Bool-cases (id == j)) [
  | inl same ↦ rw same tt
  | inr other ↦ rw other h
]

keys-IsKey :
    (clients : Map (MemberConfig × Option PaxosClient)) → All (IsKey clients) (keys clients)
keys-IsKey [] = tt
keys-IsKey ((id, found) ∷ clients) = (
  lookup-head id found clients,
  All-mono (lookup-tail id found clients) (keys clients) (keys-IsKey clients),
)

module _ (connect : MemberConfig → Option PaxosClient) where
  -- A task for every member; or an error at the first one that has no client and for which none can be
  -- made, after a task for each member before it. The clients that were there stay.
  abbrev pub Reached :
      Map (MemberConfig × Option PaxosClient) → List Uuid → Spawned connect → Type 0
  Reached clients ids (result, tasks, d) =
      KeepsClients connect clients d.paxos_clients
      × All (HasClient connect clients d.paxos_clients) tasks
      × (((result ≡ ok tt) × (members tasks ≡ ids))
          ⊎ ((front : List Uuid) × (id : Uuid) × (rest : List Uuid) × (ids ≡ front ++ id ∷ rest)
              × (members tasks ≡ front)
              × Fails connect (lookup id clients)
              × (result ≡ err dispatch_failed)))

  -- What a client that is looked for comes to.
  abbrev Got : Uuid → GrpcPaxosDispatcher → Result PaxosClient × GrpcPaxosDispatcher → Type 0
  Got id d (result, d') =
      ((client : PaxosClient) × (result ≡ ok client)
        × KeepsClients connect d.paxos_clients d'.paxos_clients
        × HasClient connect d.paxos_clients d'.paxos_clients (id, client))
      ⊎ ((result ≡ err dispatch_failed) × (d' ≡ d) × Fails connect (lookup id d.paxos_clients))

  KeepsClients-refl :
      (clients : Map (MemberConfig × Option PaxosClient)) → KeepsClients connect clients clients
  KeepsClients-refl clients j = Follows-refl connect (lookup j clients)

  -- The three cases of an entry.
  entry_cases :
      (e : Entry)
      → IsThere e
      → (config : MemberConfig) × (((client : PaxosClient) × (e ≡ some (config, some client)))
          ⊎ ((e ≡ some (config, none))
              × ((connect config ≡ none)
                  ⊎ ((client : PaxosClient) × (connect config ≡ some client)))))
  entry_cases none h = absurd h
  entry_cases (some (config, some client)) h = (config, inl (client, refl))
  entry_cases (some (config, none)) h = (config, inr (refl, Option-cases (connect config)))

  get_paxos_client-Got :
      (id : Uuid) (d : GrpcPaxosDispatcher)
      → IsKey d.paxos_clients id
      → Got id d (get_paxos_client connect id d)
  unfolding get_paxos_client
  get_paxos_client-Got id d is_key =
      let (config, cases) = entry_cases (lookup id d.paxos_clients) is_key in
      elim cases [
        | inl (client, e) ↦
            let chosen : Chosen connect (lookup id d.paxos_clients) client = rw e refl in
            let stored : Stored (lookup id d.paxos_clients) client = rw e refl in
            let fetched : get_paxos_client connect id d ≡ (ok client, d) =
              rw (get_paxos_client, e) refl in
            rw fetched (inl (client, refl, KeepsClients-refl d.paxos_clients, (chosen, stored)))
        | inr (e, reach) ↦ elim reach [
          | inl fails ↦
              let fetched : get_paxos_client connect id d ≡ (err dispatch_failed, d) =
                rw (get_paxos_client, e, fails) refl in
              let no_client : Fails connect (lookup id d.paxos_clients) = rw e fails in
              rw fetched (inr (refl, refl, no_client))
          | inr (client, made) ↦
              let keeps = insert-KeepsClients connect d.paxos_clients id config client e made in
              let is_in = lookup-insert id id (config, some client) d.paxos_clients in
              let stored : lookup id (insert id (config, some client) d.paxos_clients)
                  ≡ some (config, some client) =
                ground (arith, is_in) in
              let chosen : Chosen connect (lookup id d.paxos_clients) client = rw e made in
              let fetched : get_paxos_client connect id d ≡ (
                ok client,
                record { paxos_clients = insert id (config, some client) d.paxos_clients },
              ) =
                rw (get_paxos_client, e, made) refl in
              rw fetched (inl (client, refl, keeps, (chosen, rw stored refl)))
        ]
      ]

  HasClient-lift :
      (a b c : Map (MemberConfig × Option PaxosClient)) (tasks : List (Uuid × PaxosClient))
      → KeepsClients connect a b
      → All (HasClient connect b c) tasks
      → All (HasClient connect a c) tasks
  HasClient-lift a b c tasks keeps h =
      All-mono
        (λ task has. (
          Chosen-back connect (lookup task.0 a) (lookup task.0 b) task.1 (keeps task.0) has.0,
          has.1,
        ))
        tasks h

  spawn-Reached :
      (id : Uuid) (ids : List Uuid) (client : PaxosClient) (d d' : GrpcPaxosDispatcher)
      (later : Spawned connect)
      → KeepsClients connect d.paxos_clients d'.paxos_clients
      → HasClient connect d.paxos_clients d'.paxos_clients (id, client)
      → Reached d'.paxos_clients ids later
      → Reached d.paxos_clients (id ∷ ids) (then_spawn connect id (ok client) d' later)
  unfolding then_spawn
  spawn-Reached id ids client d d' (result, tasks, end) keeps has (goes_on, clients, ends) = (
    (λ j.
        Follows-trans connect (lookup j d.paxos_clients) (lookup j d'.paxos_clients)
          (lookup j end.paxos_clients) (keeps j) (goes_on j)),
    (
      (
        has.0,
        Stored-Follows connect (lookup id d'.paxos_clients) (lookup id end.paxos_clients) client
            (goes_on id) has.1,
      ),
      HasClient-lift d.paxos_clients d'.paxos_clients end.paxos_clients tasks keeps clients,
    ),
    elim ends [
      | inl (finished, all) ↦ inl (finished, ap (◌∷◌ id) all)
      | inr (front, j, rest, split, ahead, fails, error) ↦ inr (
        id ∷ front,
        j,
        rest,
        ap (◌∷◌ id) split,
        ap (◌∷◌ id) ahead,
        Fails-back connect (lookup j d.paxos_clients) (lookup j d'.paxos_clients) (keeps j) fails,
        error,
      )
    ],
  )

  dispatch_to-Reached :
      (ids : List Uuid) (d : GrpcPaxosDispatcher)
      → All (IsKey d.paxos_clients) ids
      → Reached d.paxos_clients ids (dispatch_to connect ids d)
  unfolding dispatch_to
  dispatch_to-Reached [] d found = (KeepsClients-refl d.paxos_clients, tt, inl (refl, refl))
  dispatch_to-Reached (id ∷ ids) d (first, others) =
      let d' = (get_paxos_client connect id d).1 in
      elim (get_paxos_client-Got id d first) [
        | inl (client, made, keeps, has) ↦ rw made (
            spawn-Reached id ids client d d' (dispatch_to connect ids d') keeps has (
              dispatch_to-Reached ids d' (
                All-mono
                  (λ j.
                    IsThere-Follows connect (lookup j d.paxos_clients) (lookup j d'.paxos_clients)
                      (keeps j))
                  ids others)))
        | inr (error, same, fails) ↦
            rw (error, then_spawn, same)
              (KeepsClients-refl d.paxos_clients, tt, inr ([], id, ids, refl, refl, fails, refl))
      ]

  -- A request goes, as one task each, to every member that is configured, in the order of the map, and
  -- the dispatch returns `Ok`; or there is a first member that has no client and whose configuration
  -- makes none: then the members before it have their tasks, no other member gets the request, and the
  -- dispatch returns the error. A task has the client that its member had, or else the one that its
  -- configuration makes, and that client is in the map from then on; no client that was there is
  -- replaced or lost. The dispatch never panics.
  pub dispatch_request-Reached :
      (d : GrpcPaxosDispatcher)
      → Reached d.paxos_clients (keys d.paxos_clients) (dispatch_request connect d)
  unfolding dispatch_request
  dispatch_request-Reached d =
      dispatch_to-Reached (keys d.paxos_clients) d (keys-IsKey d.paxos_clients)
