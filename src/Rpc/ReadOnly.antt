-- ===== src/Rpc/ReadOnly.antt =====
-- The acceptance of explorer/public_checks.py sends nothing but read-only methods.
use usdb_explorer.Prelude.{some-injective, ◌≡◌, refl, subst, String, Option, none, some, ◌==◌}
use usdb_explorer.Python.Value.{Value, str, null}
use usdb_explorer.Rpc.Calls.{Io}
use usdb_explorer.Rpc.Read.{Client, read_rpc}
use usdb_explorer.Rpc.Chain.{Block, NetworkIdentity}
use usdb_explorer.Rpc.Preflight.{
  Settings, Routes, clients, connect, identify, choose_transaction, named_clients, reference_of,
  without_sample, with_sample, conclude, preflight,
}
use usdb_explorer.Rpc.Guard.{
  Keeps, bind-Keeps, next-Keeps, pure-Keeps, lift-Keeps, if-Keeps, for_each-Keeps, IsGuarded,
  IsReadOnly, read_rpc-IsGuarded, named_rpc-IsGuarded,
}
use usdb_explorer.Rpc.Safety.{
  AreGuarded, IsNamed, all_clients, every_route, identify-Keeps, checkpoints-Keep, pin-Keeps,
  historical_sample-Keeps, find_transaction-Keeps, same_checkpoint-Keeps, same_genesis_head-Keeps,
  pending_trace_sample-Keeps, sample_block-Keeps, trace_sample-Keeps,
}

module _ {W : Type 0} (Inv : W → Type 0) where
  choose_transaction-Keeps :
      (o : Option String) (settings : Settings) (read : Client W) (head : Block)
      → settings.transaction ≡ o
      → IsGuarded Inv read
      → Keeps Inv (choose_transaction settings read head)
  unfolding choose_transaction
  choose_transaction-Keeps none settings read head is h =
      rw is (find_transaction-Keeps Inv 32 head.number read h)
  choose_transaction-Keeps (some transaction) settings read head is h =
      rw is (pure-Keeps Inv (str transaction))

  without_sample-Keeps :
      (routes : Routes W) (head historical : Block)
      → AreGuarded Inv routes
      → Keeps Inv (without_sample routes head historical)
  unfolding without_sample
  without_sample-Keeps routes head historical h =
      next-Keeps Inv (pending_trace_sample-Keeps Inv routes.trace head h.trace) (
        next-Keeps Inv (checkpoints-Keep Inv head routes h) (
          next-Keeps Inv (same_checkpoint-Keeps Inv historical routes.read h.read) (
            if-Keeps Inv (head.number == 0)
              (same_genesis_head-Keeps Inv (clients routes) head (all_clients Inv routes h))
              (pure-Keeps Inv _))))

  with_sample-Keeps :
      (routes : Routes W) (head historical : Block) (v : Value)
      → AreGuarded Inv routes
      → Keeps Inv (with_sample routes head historical v)
  unfolding with_sample
  with_sample-Keeps routes head historical v h = bind-Keeps Inv (lift-Keeps Inv _) (λ transaction.
      bind-Keeps Inv (sample_block-Keeps Inv routes.read head transaction h.read) (λ sample.
        next-Keeps Inv (trace_sample-Keeps Inv routes.trace sample transaction h.trace) (
          next-Keeps Inv (checkpoints-Keep Inv head routes h) (
            next-Keeps Inv (same_checkpoint-Keeps Inv historical routes.read h.read) (
              next-Keeps Inv (same_checkpoint-Keeps Inv sample routes.read h.read)
                (same_checkpoint-Keeps Inv sample routes.trace h.trace))))))

  conclude-Keeps :
      (settings : Settings) (routes : Routes W) (head historical : Block) (v : Value)
      → AreGuarded Inv routes
      → Keeps Inv (conclude settings routes head historical v)
  unfolding conclude
  conclude-Keeps settings routes head historical null h =
      next-Keeps Inv (without_sample-Keeps routes head historical h) (pure-Keeps Inv _)
  conclude-Keeps settings routes head historical v h =
      next-Keeps Inv (with_sample-Keeps routes head historical v h) (pure-Keeps Inv _)

  guarded_reference :
      (fetch : String → Value → Io W Value)
      → ((url : String) → IsReadOnly Inv (fetch url))
      → (o : Option String) (client : Client W)
      → reference_of (λ url. read_rpc (fetch url)) o ≡ some client
      → IsGuarded Inv client
  guarded_reference fetch h none client is = cc
  guarded_reference fetch h (some url) client is = subst (IsGuarded Inv) (some-injective is) (
      named_rpc-IsGuarded Inv (read_rpc (fetch url)) "reference_url"
        (read_rpc-IsGuarded Inv (fetch url) (h url)))

  connected :
      (fetch : String → Value → Io W Value) (settings : Settings)
      → ((url : String) → IsReadOnly Inv (fetch url))
      → AreGuarded Inv (connect (λ url. read_rpc (fetch url)) settings)
  connected fetch settings h =
      let client = λ (url name : String).
        named_rpc-IsGuarded Inv (read_rpc (fetch url)) name
          (read_rpc-IsGuarded Inv (fetch url) (h url)) in
      record {
        read = client settings.read_url "read_url";
        trace = client settings.trace_url "trace_url";
        broadcast = client settings.broadcast_url "broadcast_url";
        reference = guarded_reference fetch h settings.reference_url;
      }

  -- What each request for a read-only method keeps of the world, the whole check keeps, whether it
  -- succeeds or raises: it sends no other request.
  pub preflight-Keeps :
      (fetch : String → Value → Io W Value) (settings : Settings) (identity : NetworkIdentity)
      → ((url : String) → IsReadOnly Inv (fetch url))
      → Keeps Inv (preflight (λ url. read_rpc (fetch url)) settings identity)
  unfolding preflight
  preflight-Keeps fetch settings identity h =
      let routes = connect (λ url. read_rpc (fetch url)) settings in
      let guarded = connected fetch settings h in
      next-Keeps Inv
        (for_each-Keeps Inv (IsNamed Inv) (identify identity) (named_clients routes)
          (every_route Inv routes guarded) (identify-Keeps Inv identity))
        (bind-Keeps Inv (pin-Keeps Inv routes guarded) (λ head.
          bind-Keeps Inv (historical_sample-Keeps Inv settings routes.read head guarded.read)
            (λ historical.
              bind-Keeps Inv
                (choose_transaction-Keeps settings.transaction settings routes.read head refl
                  guarded.read)
                (λ transaction.
                  conclude-Keeps settings routes head historical transaction guarded))))
