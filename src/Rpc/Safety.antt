-- ===== src/Rpc/Safety.antt =====
-- What each request of a client keeps of the world, the checks of explorer/public_checks.py on
-- blocks and traces keep.
use usdb_explorer.Prelude.{
  ◌≡◌, refl, String, List, [], ◌∷◌, Option, none, some, ℕ, zero, suc, leb, length, All,
}
use usdb_explorer.Python.Value.{Value, str, null, equal}
use usdb_explorer.Rpc.Calls.{Io, for_each}
use usdb_explorer.Rpc.Read.{Client}
use usdb_explorer.Rpc.Chain.{
  Block, block, check_height, NetworkIdentity, identity_check, same_checkpoint, same_genesis_head,
  at_genesis,
}
use usdb_explorer.Rpc.Trace.{
  pending_trace_sample, sample_block, trace_sample, is_call_trace, is_traced_block,
}
use usdb_explorer.Rpc.Preflight.{
  Settings, Routes, clients, identify, pin, read_state, historical_sample, find_transaction, older,
  first_of, named_clients, pinning, historical_height,
}
use usdb_explorer.Rpc.Guard.{
  Keeps, bind-Keeps, next-Keeps, pure-Keeps, lift-Keeps, check-Keeps, attempt-Keeps, if-Keeps,
  for_each-Keeps, IsGuarded,
}

module _ {W : Type 0} (Inv : W → Type 0) where
  pub check_height-Keeps : (tag : Value) (n : ℕ) → Keeps Inv (check_height tag n)
  unfolding check_height
  check_height-Keeps tag n =
      if-Keeps Inv (equal tag (str "latest")) (pure-Keeps Inv _)
        (bind-Keeps Inv (lift-Keeps Inv _) (λ height. check-Keeps Inv _ _))

  pub block-Keeps : (rpc : Client W) (tag : Value) → IsGuarded Inv rpc → Keeps Inv (block rpc tag)
  unfolding block
  block-Keeps rpc tag h = bind-Keeps Inv (h _ _) (λ reply.
      bind-Keeps Inv (lift-Keeps Inv _)
        (λ b. next-Keeps Inv (check_height-Keeps _ _) (pure-Keeps Inv _)))

  pub identity_check-Keeps :
      (rpc : Client W) (identity : NetworkIdentity)
      → IsGuarded Inv rpc
      → Keeps Inv (identity_check rpc identity)
  unfolding identity_check
  identity_check-Keeps rpc identity h =
      search (bind-Keeps Inv, next-Keeps Inv, lift-Keeps Inv, check-Keeps Inv, h) depth 24

  pub same_checkpoint-Keeps :
      (b : Block) (rpc : Client W) → IsGuarded Inv rpc → Keeps Inv (same_checkpoint b rpc)
  unfolding same_checkpoint
  same_checkpoint-Keeps b rpc h = bind-Keeps Inv (block-Keeps rpc _ h) (λ _. check-Keeps Inv _ _)

  pub same_genesis_head-Keeps :
      (cs : List (Client W)) (b : Block)
      → All (IsGuarded Inv) cs
      → Keeps Inv (same_genesis_head cs b)
  unfolding same_genesis_head
  same_genesis_head-Keeps cs b h =
      for_each-Keeps Inv (IsGuarded Inv) (at_genesis b) cs h
        (λ c guarded. bind-Keeps Inv (block-Keeps c _ guarded) (λ _. check-Keeps Inv _ _))

  pub pending_trace_sample-Keeps :
      (trace : Client W) (head : Block)
      → IsGuarded Inv trace
      → Keeps Inv (pending_trace_sample trace head)
  unfolding pending_trace_sample
  pending_trace_sample-Keeps trace head h = bind-Keeps Inv (attempt-Keeps Inv (h _ _)) (λ absent.
      next-Keeps Inv (lift-Keeps Inv _)
        (bind-Keeps Inv (attempt-Keeps Inv (h _ _)) (λ traces. lift-Keeps Inv _)))

  pub sample_block-Keeps :
      (read : Client W) (head : Block) (transaction : String)
      → IsGuarded Inv read
      → Keeps Inv (sample_block read head transaction)
  unfolding sample_block
  sample_block-Keeps read head transaction h =
      search
        (
          bind-Keeps Inv,
          next-Keeps Inv,
          lift-Keeps Inv,
          check-Keeps Inv,
          pure-Keeps Inv,
          block-Keeps,
          h,
        )
        depth 24

  pub trace_sample-Keeps :
      (trace : Client W) (sample : Block) (transaction : String)
      → IsGuarded Inv trace
      → Keeps Inv (trace_sample trace sample transaction)
  unfolding trace_sample
  trace_sample-Keeps trace sample transaction h =
      next-Keeps Inv (same_checkpoint-Keeps sample trace h) (
        bind-Keeps Inv (h _ _) (λ result.
          next-Keeps Inv (if-Keeps Inv (is_call_trace result) (pure-Keeps Inv _) (lift-Keeps Inv _))
            (bind-Keeps Inv (h _ _) (λ traces.
              if-Keeps Inv (is_traced_block (length sample.transactions) traces) (pure-Keeps Inv _)
                (lift-Keeps Inv _)))))

  -- Routes whose clients keep it.
  pub record AreGuarded (routes : Routes W) : Type 0 where
    pub read : IsGuarded Inv routes.read
    pub trace : IsGuarded Inv routes.trace
    pub broadcast : IsGuarded Inv routes.broadcast
    pub reference : (client : Client W) → routes.reference ≡ some client → IsGuarded Inv client

  all_reference :
      (o : Option (Client W))
      → ((client : Client W) → o ≡ some client → IsGuarded Inv client)
      → All (IsGuarded Inv) (elim o [ none ↦ [] | some client ↦ client ∷ [] ])
  all_reference none h = tt
  all_reference (some client) h = (h client refl, tt)

  pub all_clients : (routes : Routes W) → AreGuarded routes → All (IsGuarded Inv) (clients routes)
  all_clients routes h =
      (h.read, (h.trace, (h.broadcast, all_reference routes.reference h.reference)))

  abbrev pub IsNamed : String × Client W → Type 0
  IsNamed route = IsGuarded Inv route.1

  every_reference_route :
      (o : Option (Client W))
      → ((client : Client W) → o ≡ some client → IsGuarded Inv client)
      → All IsNamed (elim o [ none ↦ [] | some client ↦ ("reference_url", client) ∷ [] ])
  every_reference_route none h = tt
  every_reference_route (some client) h = (h client refl, tt)

  pub every_route : (routes : Routes W) → AreGuarded routes → All IsNamed (named_clients routes)
  every_route routes h =
      (h.read, (h.trace, (h.broadcast, every_reference_route routes.reference h.reference)))

  pub identify-Keeps :
      (identity : NetworkIdentity) (route : String × Client W)
      → IsNamed route
      → Keeps Inv (identify identity route)
  unfolding identify
  identify-Keeps identity route h =
      bind-Keeps Inv (attempt-Keeps Inv (identity_check-Keeps route.1 identity h))
        (λ answer. lift-Keeps Inv _)

  pinning_guarded :
      (read : Client W) (o : Option (Client W))
      → IsGuarded Inv read
      → ((client : Client W) → o ≡ some client → IsGuarded Inv client)
      → IsGuarded Inv (elim o [ none ↦ read | some client ↦ client ])
  pinning_guarded read none r h = r
  pinning_guarded read (some client) r h = h client refl

  pub checkpoints-Keep :
      (head : Block) (routes : Routes W)
      → AreGuarded routes
      → Keeps Inv (for_each (same_checkpoint head) (clients routes))
  checkpoints-Keep head routes h =
      for_each-Keeps Inv (IsGuarded Inv) (same_checkpoint head) (clients routes)
        (all_clients routes h) (λ c guarded. same_checkpoint-Keeps head c guarded)

  pub pin-Keeps : (routes : Routes W) → AreGuarded routes → Keeps Inv (pin routes)
  unfolding pin
  pin-Keeps routes h =
      bind-Keeps Inv
        (block-Keeps (pinning routes) _
          (pinning_guarded routes.read routes.reference h.read h.reference))
        (λ head. next-Keeps Inv (checkpoints-Keep head routes h) (pure-Keeps Inv _))

  read_state-Keeps :
      (read : Client W) (address : String) (height : ℕ)
      → IsGuarded Inv read
      → Keeps Inv (read_state read address height)
  unfolding read_state
  read_state-Keeps read address height h =
      search (bind-Keeps Inv, next-Keeps Inv, lift-Keeps Inv, pure-Keeps Inv, h) depth 24

  pub historical_sample-Keeps :
      (settings : Settings) (read : Client W) (head : Block)
      → IsGuarded Inv read
      → Keeps Inv (historical_sample settings read head)
  unfolding historical_sample
  historical_sample-Keeps settings read head h =
      next-Keeps Inv
        (if-Keeps Inv (leb (historical_height settings head) head.number) (pure-Keeps Inv _)
          (lift-Keeps Inv _))
        (bind-Keeps Inv (block-Keeps read _ h) (λ historical.
          bind-Keeps Inv (lift-Keeps Inv _)
            (λ address. next-Keeps Inv (read_state-Keeps read address _ h) (pure-Keeps Inv _))))

  found-Keeps :
      (below : ℕ → Io W Value) (number : ℕ) (transactions : List Value)
      → ((n : ℕ) → Keeps Inv (below n))
      → Keeps Inv (older below number (first_of transactions))
  unfolding older
  found-Keeps below number (v ∷ rest) h = pure-Keeps Inv v
  found-Keeps below zero [] h = pure-Keeps Inv null
  found-Keeps below (suc n) [] h = h n

  pub find_transaction-Keeps :
      (window number : ℕ) (read : Client W)
      → IsGuarded Inv read
      → Keeps Inv (find_transaction window number read)
  unfolding find_transaction
  find_transaction-Keeps zero number read h = pure-Keeps Inv null
  find_transaction-Keeps (suc window) number read h =
      bind-Keeps Inv (block-Keeps read _ h) (λ sample.
        found-Keeps (λ n. find_transaction window n read) number sample.transactions
          (λ n. find_transaction-Keeps window n read h))
