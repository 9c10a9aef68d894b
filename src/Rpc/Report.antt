-- ===== src/Rpc/Report.antt =====
-- What a report of `preflight` in explorer/public_checks.py says.
use usdb_explorer.Prelude.{◌≡◌, refl, subst, String, true, Option, none, some, In, arith}
use usdb_explorer.Python.Value.{Value, str, null}
use usdb_explorer.Python.Exn.{ok}
use usdb_explorer.Python.Regex.{full_match}
use usdb_explorer.Rpc.Calls.{
  done, pure, lift, for_each, for_each_done, bind_done, next_done, pure_done, lift_done,
}
use usdb_explorer.Rpc.Read.{Client}
use usdb_explorer.Rpc.Chain.{Block, block, hash_re, NetworkIdentity, same_checkpoint}
use usdb_explorer.Rpc.Trace.{pending_trace_sample, sample_block, trace_sample}
use usdb_explorer.Rpc.Preflight.{
  Settings, Routes, Report, passed, ready_no_transaction_sample, report_of, clients, connect,
  identify, named_clients, pin, pinning, historical_sample, choose_transaction, without_sample,
  with_sample, as_hash, conclude, preflight,
}

as_hash_sound :
    (v : Value) {s : String} → as_hash v ≡ ok s → (v ≡ str s) × (full_match hash_re s ≡ true)
as_hash_sound (str t) h = (ground arith, ground arith)
as_hash_sound _ h = cc

not_null : {W : Type 0} {t : String} {u w : W} → done (str t) u ≡ done null w → ⊥
not_null h = cc

module _ {W : Type 0} where
  -- At some time during the check, the route served the block of the checkpoint.
  abbrev pub Confirms : Block → Client W → Type 0
  Confirms head client = (u v : W) × (same_checkpoint head client u ≡ done tt v)

  without_sample-Confirms :
      (routes : Routes W) (head historical : Block) (u : W) {w : W}
      → without_sample routes head historical u ≡ done tt w
      → (client : Client W) → In client (clients routes)
      → Confirms head client
  unfolding without_sample
  without_sample-Confirms routes head historical u h client i =
      let (_, v, _, h1) = next_done (pending_trace_sample routes.trace head) _ u h in
      let (_, z, h2, _) = next_done (for_each (same_checkpoint head) (clients routes)) _ v h1 in
      for_each_done (same_checkpoint head) (clients routes) v client h2 i

  with_sample-Confirms :
      (routes : Routes W) (head historical : Block) (t : Value) (u : W) {w : W}
      → with_sample routes head historical t u ≡ done tt w
      → (client : Client W) → In client (clients routes)
      → Confirms head client
  unfolding with_sample
  with_sample-Confirms routes head historical t u h client i =
      let (transaction, v1, _, h1) = bind_done (lift (as_hash t)) _ u h in
      let (sample, v2, _, h2) = bind_done (sample_block routes.read head transaction) _ v1 h1 in
      let (_, v3, _, h3) = next_done (trace_sample routes.trace sample transaction) _ v2 h2 in
      let (_, z, h4, _) = next_done (for_each (same_checkpoint head) (clients routes)) _ v3 h3 in
      for_each_done (same_checkpoint head) (clients routes) v3 client h4 i

  with_sample-hash :
      (routes : Routes W) (head historical : Block) (t : Value) (u : W) {w : W}
      → with_sample routes head historical t u ≡ done tt w
      → (s : String) × (t ≡ str s) × (full_match hash_re s ≡ true)
  unfolding with_sample
  with_sample-hash routes head historical t u h =
      let (transaction, v1, h0, h1) = bind_done (lift (as_hash t)) _ u h in
      let (is, form) = as_hash_sound t (lift_done (as_hash t) u h0) in (transaction, is, form)

  -- What a report says of the routes at the head, which is the latest block of the reference, or of the
  -- reading route without one: the report has its number and its hash. It passed with the hash of a mined transaction,
  -- or it is ready without one, if none was configured; and each route served the checkpoint.
  pub record IsReport (settings : Settings) (routes : Routes W) (r : Report) : Type 0 where
    pub head : Block
    pub pinned : (u v : W) × (block (pinning routes) (str "latest") u ≡ done head v)
    pub checkpoint : r.checkpoint ≡ (head.number, head.hash)
    pub sample :
        r.status ≡ passed → (s : String) × (r.transaction ≡ str s) × (full_match hash_re s ≡ true)
    pub no_sample :
        r.status ≡ ready_no_transaction_sample
        → (r.transaction ≡ null) × (settings.transaction ≡ none)
    pub confirmed : (client : Client W) → In client (clients routes) → Confirms head client

  ready :
      (settings : Settings) (routes : Routes W) (head historical : Block)
      → ((u v : W) × (block (pinning routes) (str "latest") u ≡ done head v))
      → settings.transaction ≡ none
      → ((client : Client W) → In client (clients routes) → Confirms head client)
      → IsReport settings routes
          (report_of ready_no_transaction_sample settings head historical null)
  unfolding report_of
  ready settings routes head historical pinned is confirmed = record {
    head = head;
    pinned = pinned;
    checkpoint = refl;
    sample = λ h. cc;
    no_sample = λ _. (refl, is);
    confirmed = confirmed;
  }

  passing :
      (settings : Settings) (routes : Routes W) (head historical : Block) (t : Value)
      → ((u v : W) × (block (pinning routes) (str "latest") u ≡ done head v))
      → ((s : String) × (t ≡ str s) × (full_match hash_re s ≡ true))
      → ((client : Client W) → In client (clients routes) → Confirms head client)
      → IsReport settings routes (report_of passed settings head historical t)
  unfolding report_of
  passing settings routes head historical t pinned form confirmed = record {
    head = head;
    pinned = pinned;
    checkpoint = refl;
    sample = λ _. form;
    no_sample = λ h. cc;
    confirmed = confirmed;
  }

  unset :
      (o : Option String) (settings : Settings) (read : Client W) (head : Block) (u : W) {w : W}
      → settings.transaction ≡ o
      → choose_transaction settings read head u ≡ done null w
      → settings.transaction ≡ none
  unfolding choose_transaction pure
  unset none settings read head u is h = is
  unset (some t) settings read head u is h = absurd (not_null (rw (is, choose_transaction) at h))

  concluded :
      (settings : Settings) (routes : Routes W) (head historical : Block) (t : Value) (u : W)
      {r : Report} {w : W}
      → ((u v : W) × (block (pinning routes) (str "latest") u ≡ done head v))
      → (t ≡ null → settings.transaction ≡ none)
      → conclude settings routes head historical t u ≡ done r w
      → IsReport settings routes r
  unfolding conclude
  concluded settings routes head historical null u pinned h0 h =
      let (_, v, h1, h2) = next_done (without_sample routes head historical) _ u h in
      subst (IsReport settings routes) (pure_done _ v h2) (
        ready settings routes head historical pinned (h0 refl)
          (without_sample-Confirms routes head historical u h1))
  concluded settings routes head historical t u pinned h0 h =
      let (_, v, h1, h2) = next_done (with_sample routes head historical t) _ u h in
      subst (IsReport settings routes) (pure_done _ v h2) (
        passing settings routes head historical t pinned
          (with_sample-hash routes head historical t u h1)
          (with_sample-Confirms routes head historical t u h1))

  pin-block :
      (routes : Routes W) (u : W) {head : Block} {w : W}
      → pin routes u ≡ done head w
      → (v z : W) × (block (pinning routes) (str "latest") v ≡ done head z)
  unfolding pin
  pin-block routes u h =
      let (found, v, served, h1) = bind_done (block (pinning routes) (str "latest")) _ u h in
      let (_, z, _, h2) = next_done (for_each (same_checkpoint found) (clients routes)) _ v h1 in
      (
        u,
        v,
        subst (λ b. block (pinning routes) (str "latest") u ≡ done b v) (pure_done found z h2)
            served,
      )

  -- A check that succeeds reports the number and the hash of the latest block, which each route
  -- served during the check, and with it the hash of a transaction, or none, if none was
  -- configured.
  pub preflight-IsReport :
      (factory : String → Client W) (settings : Settings) (identity : NetworkIdentity) (u : W)
      {r : Report} {w : W}
      → preflight factory settings identity u ≡ done r w
      → IsReport settings (connect factory settings) r
  unfolding preflight
  preflight-IsReport factory settings identity u h =
      let routes = connect factory settings in
      let (_, v1, _, h1) = next_done (for_each (identify identity) (named_clients routes)) _ u h in
      let (head, v2, at_head, h2) = bind_done (pin routes) _ v1 h1 in
      let (historical, v3, _, h3) =
        bind_done (historical_sample settings routes.read head) _ v2 h2 in
      let (t, v4, chosen, h4) = bind_done (choose_transaction settings routes.read head) _ v3 h3 in
      concluded settings routes head historical t v4 (pin-block routes v1 at_head)
        (λ is.
          unset settings.transaction settings routes.read head v3 refl
            (subst (λ x. choose_transaction settings routes.read head v3 ≡ done x v4) is chosen))
        h4
