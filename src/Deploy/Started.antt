-- ===== src/Deploy/Started.antt =====
-- The command `up` of explorer/usdb_public.py starts the services only behind all its checks.
use usdb_explorer.Prelude.{
  ℕ, String, ◌≡◌, refl, Bool, true, false, inl, inr, ◌⊎◌, List, [], ◌∷◌, In, contains,
}
use usdb_explorer.Python.Value.{Value}
use usdb_explorer.Rpc.Calls.{
  Io, Outcome, done, failed, then_run, ◌>>=◌, ◌>>◌, bind_done, next_done, check_done, for_each_done,
}
use usdb_explorer.Rpc.Failure.{read_methods}
use usdb_explorer.Rpc.Read.{payload, read_rpc}
use usdb_explorer.Rpc.Preflight.{Report, preflight}
use usdb_explorer.Rpc.Guard.{
  world, Keeps, bind-Keeps, next-Keeps, pure-Keeps, lift-Keeps, check-Keeps, attempt-Keeps,
  for_each-Keeps, IsReadOnly, read_rpc-IsGuarded,
}
use usdb_explorer.Rpc.Safety.{identity_check-Keeps, same_checkpoint-Keeps}
use usdb_explorer.Rpc.ReadOnly.{preflight-Keeps}
use usdb_explorer.Deploy.Up.{
  Docker, Prepared, Order, order, is_recent, relay_routes, require_version, require_host,
  require_database_identity, require_local_docker, if_local, relay_reply, relay_fetch, check_route,
  check_local_relay, images, start, up,
}

abbrev pub starts : Order → Bool
starts Order.up_all = true
starts _ = false

module _ {W : Type 0} (docker : Docker W) where
  -- At some time, the computation returned that.
  abbrev pub Once : {A : Type 0} → Io W A → A → Type 0
  Once {A} m a = (u v : W) × (m u ≡ done a v)

  -- What `up` has found before it starts the services: a recent engine, enough memory, a database of
  -- this deployment or none, the acceptance of the upstream; and with a local node, a local engine
  -- and the checkpoint of the acceptance on each route of the relay.
  pub record IsReady (p : Prepared) : Type 0 where
    pub version : String
    pub answered : Once docker.api_version version
    pub recent : is_recent version ≡ true
    pub reserved : ℕ
    pub memory : Once (require_host docker p) reserved
    pub database : Once (require_database_identity docker p) tt
    pub engine : p.is_local ≡ true → Once (require_local_docker docker) tt
    pub report : Report
    pub accepted :
        Once (preflight (λ url. read_rpc (docker.fetch url)) p.settings p.identity) report
    pub relayed :
        p.is_local ≡ true
        → (route : String × String) → In route relay_routes
        → Once (check_route docker p.identity report.checkpoint route) tt

  module _ (Inv : W → Type 0) where
    -- Nothing but the order that starts the services changes what is observed.
    pub record IsQuiet : Type 0 where
      pub api_version : Keeps Inv docker.api_version
      pub host_memory : Keeps Inv docker.host_memory
      pub containers : Keeps Inv docker.containers
      pub engine : Keeps Inv docker.engine
      pub volume_labels : (name : String) → Keeps Inv (docker.volume_labels name)
      pub orders : (o : Order) → starts o ≡ false → Keeps Inv (order docker o)
      pub fetch : (url : String) → IsReadOnly Inv (docker.fetch url)
      pub relay :
          (url method : String) (params : List Value)
          → contains read_methods method ≡ true
          → Keeps Inv (docker.relay url (payload method params))

    guard_run :
        {A B : Type 0} {Q : Type 0} (o : Outcome W A) (f : A → Io W B)
        → Inv (world o)
        → ((a : A) (v : W) → o ≡ done a v → Inv v → Inv (world (f a v)) ⊎ Q)
        → Inv (world (then_run o f)) ⊎ Q
    guard_run (done a v) f kept k = k a v refl kept
    guard_run (failed e v) f kept k = inl kept

    guard_bind :
        {A B : Type 0} {Q : Type 0} (m : Io W A) (f : A → Io W B) (w : W)
        → Keeps Inv m
        → Inv w
        → ((a : A) (v : W) → m w ≡ done a v → Inv v → Inv (world (f a v)) ⊎ Q)
        → Inv (world ((m >>= f) w)) ⊎ Q
    unfolding ◌>>=◌
    guard_bind m f w kept i k = guard_run (m w) f (kept.keeps w i) k

    guard_next :
        {A B : Type 0} {Q : Type 0} (m : Io W A) (n : Io W B) (w : W)
        → Keeps Inv m
        → Inv w
        → ((a : A) (v : W) → m w ≡ done a v → Inv v → Inv (world (n v)) ⊎ Q)
        → Inv (world ((m >> n) w)) ⊎ Q
    unfolding ◌>>◌
    guard_next m n w kept i k = guard_run (m w) (λ _. n) (kept.keeps w i) k

    if_local-Keeps :
        (b : Bool) {m : Io W (Unit {0})} → Keeps Inv m → Keeps Inv (if_local docker b m)
    if_local-Keeps true h = h
    if_local-Keeps false h = pure-Keeps Inv tt

    relay_fetch-IsReadOnly : IsQuiet → (url : String) → IsReadOnly Inv (relay_fetch docker url)
    unfolding relay_fetch relay_reply
    relay_fetch-IsReadOnly quiet url method params known =
        bind-Keeps Inv
          (attempt-Keeps Inv (
            bind-Keeps Inv (quiet.relay url method params known)
              (λ printed. next-Keeps Inv (check-Keeps Inv _ _) (lift-Keeps Inv _))))
          (λ r. lift-Keeps Inv _)

    check_route-Keeps :
        IsQuiet
        → (p : Prepared) (report : Report) (route : String × String)
        → Keeps Inv (check_route docker p.identity report.checkpoint route)
    unfolding check_route
    check_route-Keeps quiet p report (key, url) =
        let guarded =
          read_rpc-IsGuarded Inv (relay_fetch docker url) (relay_fetch-IsReadOnly quiet url) in
        bind-Keeps Inv
          (attempt-Keeps Inv (
            next-Keeps Inv (identity_check-Keeps Inv _ p.identity guarded)
              (same_checkpoint-Keeps Inv _ _ guarded)))
          (λ r. lift-Keeps Inv _)

    check_local_relay-Keeps :
        IsQuiet → (p : Prepared) (report : Report) → Keeps Inv (check_local_relay docker p report)
    unfolding check_local_relay
    check_local_relay-Keeps quiet p report =
        for_each-Keeps Inv (λ route. Unit {0}) (check_route docker p.identity report.checkpoint)
          relay_routes (tt, (tt, (tt, tt))) (λ route u. check_route-Keeps quiet p report route)

    images-Keeps : IsQuiet → (names : List String) → Keeps Inv (images docker names)
    images-Keeps quiet [] = quiet.orders Order.pull refl
    images-Keeps quiet (name ∷ names) = quiet.orders (Order.build (name ∷ names)) refl

    if_local_done :
        (b : Bool) (m : Io W (Unit {0})) (u : W) {a : Unit {0}} {v : W}
        → if_local docker b m u ≡ done a v
        → b ≡ true
        → m u ≡ done tt v
    if_local_done true m u h e = h
    if_local_done false m u h e = cc

    relayed_routes :
        (p : Prepared) (report : Report) (u : W) {a : Unit {0}} {v : W}
        → if_local docker p.is_local
            (order docker Order.up_relay >> check_local_relay docker p report)
            u
          ≡ done a v
        → p.is_local ≡ true
        → (route : String × String) → In route relay_routes
        → Once (check_route docker p.identity report.checkpoint route) tt
    unfolding check_local_relay
    relayed_routes p report u h local route i =
        let both = if_local_done p.is_local _ u h local in
        let (_, v, _, checked) =
          next_done (order docker Order.up_relay) (check_local_relay docker p report) u both in
        for_each_done (check_route docker p.identity report.checkpoint) relay_routes v route checked
          i

    start-IsGuarded :
        {Q : Type 0} (quiet : IsQuiet) (p : Prepared) (report : Report) (w : W)
        → Inv w
        → ((p.is_local ≡ true
              → (route : String × String) → In route relay_routes
              → Once (check_route docker p.identity report.checkpoint route) tt)
            → Q)
        → Inv (world (start docker p report w)) ⊎ Q
    unfolding start
    start-IsGuarded quiet p report w i ready =
        guard_next _ _ w (quiet.orders Order.check_config refl) i (λ _ w1 _ i1.
          guard_next _ _ w1 (images-Keeps quiet p.builds) i1 (λ _ w2 _ i2.
            guard_next _ _ w2 (if_local-Keeps p.is_bundled (quiet.orders Order.check_proxy refl)) i2
              (λ _ w3 _ i3.
                guard_next _ _ w3
                  (if_local-Keeps p.is_local (
                    next-Keeps Inv (quiet.orders Order.up_relay refl)
                      (check_local_relay-Keeps quiet p report)))
                  i3 (λ _ w4 h _. inr (ready (relayed_routes p report w3 h))))))

    require_version_done :
        (u : W) {a : Unit {0}} {v : W}
        → require_version docker u ≡ done a v
        → (version : String) × Once docker.api_version version × (is_recent version ≡ true)
    unfolding require_version
    require_version_done u h =
        let (version, v, answered, h1) = bind_done docker.api_version _ u h in
        (version, (u, v, answered), check_done (is_recent version) _ v h1)

    require_host-Keeps : IsQuiet → (p : Prepared) → Keeps Inv (require_host docker p)
    unfolding require_host
    require_host-Keeps quiet p = bind-Keeps Inv quiet.host_memory (λ host.
        next-Keeps Inv (lift-Keeps Inv _)
          (bind-Keeps Inv quiet.containers (λ containers. lift-Keeps Inv _)))

    require_database_identity-Keeps :
        IsQuiet → (p : Prepared) → Keeps Inv (require_database_identity docker p)
    unfolding require_database_identity
    require_database_identity-Keeps quiet p =
        bind-Keeps Inv (quiet.volume_labels _) (λ labels. check-Keeps Inv _ _)

    require_version-Keeps : IsQuiet → Keeps Inv (require_version docker)
    unfolding require_version
    require_version-Keeps quiet = bind-Keeps Inv quiet.api_version (λ version. check-Keeps Inv _ _)

    require_local_docker-Keeps : IsQuiet → Keeps Inv (require_local_docker docker)
    unfolding require_local_docker
    require_local_docker-Keeps quiet = bind-Keeps Inv quiet.engine (λ engine. check-Keeps Inv _ _)

    -- Whatever only the order that starts the services can change is unchanged behind `up`, whether
    -- it returns or raises, or `up` has found the deployment ready before it gave that order.
    pub up-IsGuarded :
        (quiet : IsQuiet) (p : Prepared) (w : W) → Inv w → Inv (world (up docker p w)) ⊎ IsReady p
    unfolding up
    up-IsGuarded quiet p w i = guard_next _ _ w (lift-Keeps Inv p.qualified) i (λ _ w1 _ i1.
        guard_next _ _ w1 (require_version-Keeps quiet) i1 (λ _ w2 recent i2.
          guard_next _ _ w2 (require_host-Keeps quiet p) i2 (λ reserved w3 enough i3.
            guard_next _ _ w3 (require_database_identity-Keeps quiet p) i3 (λ _ w4 own i4.
              guard_next _ _ w4 (if_local-Keeps p.is_local (require_local_docker-Keeps quiet)) i4
                (λ _ w5 local i5.
                  guard_bind _ _ w5
                    (preflight-Keeps Inv docker.fetch p.settings p.identity quiet.fetch) i5
                    (λ report w6 accepted i6. start-IsGuarded quiet p report w6 i6 (λ relayed.
                      let (version, answered, new) = require_version_done w1 recent in
                      record {
                        version = version;
                        answered = answered;
                        recent = new;
                        reserved = reserved;
                        memory = (w2, w3, enough);
                        database = (w3, w4, own);
                        engine = λ e. (w4, w5, if_local_done p.is_local _ w4 local e);
                        report = report;
                        accepted = (w5, w6, accepted);
                        relayed = relayed;
                      })))))))
