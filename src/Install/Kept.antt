-- ===== src/Install/Kept.antt =====
-- What `install` of explorer/install_release.py leaves alone, whether it returns or raises.
use usdb_explorer.Prelude.{
  String, ◌≡◌, refl, inl, inr, ◌=s◌, List, [], ◌∷◌, ◌++◌, Option, none, some, Bool-cases,
}
use usdb_explorer.Python.Value.{Value}
use usdb_explorer.Python.Exn.{Result, ok, raise}
use usdb_explorer.Rpc.Calls.{Outcome, done, failed, then_run, ◌>>=◌, pure, lift}
use usdb_explorer.Rpc.Guard.{
  world, Keeps, bind-Keeps, next-Keeps, pure-Keeps, lift-Keeps, check-Keeps,
}
use usdb_explorer.Install.Archive.{extract_release}
use usdb_explorer.Install.Verify.{Directory, find_node, content_of, verify_release}
use usdb_explorer.Install.Links.{Disk}
use usdb_explorer.Install.Activate.{Plan, activate}
use usdb_explorer.Install.Run.{
  Request, Machine, check_request, check_commands, check_places, plan_for, find_release,
  place_release, store_release, write_config, with_links, prepare_release, install, directory_of,
}

module _ (loads : String → Result Value) (sha256 : String → String) where
  module _ (Inv : Machine → Type 0) where
    -- What a new release and a new configuration keep.
    pub record IsStable : Type 0 where
      pub releases :
          (m : Machine) (id : String) (d : Directory)
          → Inv m
          → Inv (record m { releases = m.releases ++ ((id, d) ∷ []) })
      pub config :
          (m : Machine) (text : String)
          → m.config ≡ none
          → Inv m
          → Inv (record m { config = some text })

    pub check_request-Keeps : (r : Request) → Keeps Inv (check_request r)
    unfolding check_request
    check_request-Keeps r = next-Keeps Inv (check-Keeps Inv _ _) (
        next-Keeps Inv (check-Keeps Inv _ _) (
          next-Keeps Inv (check-Keeps Inv _ _)
            (next-Keeps Inv (check-Keeps Inv _ _) (check-Keeps Inv _ _))))

    check_places-Keeps : (r : Request) (plan : Plan) → Keeps Inv (check_places r plan)
    unfolding check_places check_commands
    check_places-Keeps r plan =
        next-Keeps Inv
          (record {
            keeps = λ m i. (next-Keeps Inv (check-Keeps Inv _ _) (check-Keeps Inv _ _)).keeps m i;
          })
          (record {
            keeps = λ m i.
                (next-Keeps Inv (check-Keeps Inv _ _) (
                    next-Keeps Inv (check-Keeps Inv _ _)
                      (next-Keeps Inv (check-Keeps Inv _ _) (check-Keeps Inv _ _)))).keeps
                  m i;
          })

    module _ (stable : IsStable) where
      place_release-Keeps :
          (r : Request) (incoming : Directory) (manifest : String) (m : Machine)
          → Inv m
          → (found : Option Directory)
          → Inv (world (place_release loads sha256 r incoming manifest found m))
      unfolding place_release lift ◌>>=◌ pure
      place_release-Keeps r incoming manifest m i none = stable.releases m r.release_id incoming i
      place_release-Keeps r incoming manifest m i (some existing) =
          (bind-Keeps Inv
              (lift-Keeps Inv (verify_release loads sha256 existing r.release_id (some manifest)))
              (λ bytes. pure-Keeps Inv existing)).keeps
            m i

      store_release-Keeps : (r : Request) → Keeps Inv (store_release loads sha256 r)
      unfolding store_release
      store_release-Keeps r =
          bind-Keeps Inv (lift-Keeps Inv (extract_release r.release_id r.members)) (λ extracted.
            bind-Keeps Inv
              (lift-Keeps Inv
                (verify_release loads sha256 (directory_of extracted.tree) r.release_id none))
              (λ manifest. record {
                keeps = λ m i.
                    place_release-Keeps r (directory_of extracted.tree) manifest m i
                      (find_release r.release_id m.releases);
              }))

      write_config-Keeps :
          (d : Directory) (m : Machine) (settings : Option String)
          → m.config ≡ settings
          → Inv m
          → Inv (world (write_config loads sha256 d settings m))
      unfolding write_config lift
      write_config-Keeps d m (some settings) e i = i
      write_config-Keeps d m none e i =
          copied (content_of (find_node "config.example.json" d.entries))
        where
          copied :
              (r : Result String)
              → Inv (
                  world (
                    then_run
                      (lift r (record m { config = some "" }))
                      (λ content v. done tt (record v { config = some content }))))
          copied (ok content) = stable.config m content e i
          copied (raise x) = stable.config m "" e i

      pub prepare_release-Keeps :
          (r : Request) (plan : Plan) → Keeps Inv (prepare_release loads sha256 r plan)
      unfolding prepare_release
      prepare_release-Keeps r plan = next-Keeps Inv (check_request-Keeps r) (
          next-Keeps Inv (check_places-Keeps r plan) (
            bind-Keeps Inv (store_release-Keeps r)
              (λ d. record { keeps = λ m i. write_config-Keeps d m m.config refl i })))

      with_links-Keeps :
          ((m : Machine) (d : Disk) → Inv m → Inv (record m { links = d }))
          → (m : Machine) (o : Outcome Disk (Unit {0})) → Inv m
          → Inv (world (with_links loads sha256 m o))
      unfolding with_links
      with_links-Keeps relinked m (done a d) i = relinked m d i
      with_links-Keeps relinked m (failed e d) i = relinked m d i

      pub install-Keeps :
          ((m : Machine) (d : Disk) → Inv m → Inv (record m { links = d }))
          → (r : Request) → Keeps Inv (install loads sha256 r)
      unfolding install
      install-Keeps relinked r = record {
        keeps = λ m i.
            (next-Keeps Inv (prepare_release-Keeps r (plan_for r m)) (record {
              keeps = λ v j. with_links-Keeps relinked v (activate (plan_for r m) v.links) j;
            })).keeps
              m i;
      }

find_release-append :
    (id : String) (releases more : List (String × Directory)) {d : Directory}
    → find_release id releases ≡ some d
    → find_release id (releases ++ more) ≡ some d
unfolding find_release
find_release-append id [] more h = cc
find_release-append id ((other, d) ∷ releases) more h = elim (Bool-cases (other =s id)) [
  | inl e ↦ rw e (rw e at h)
  | inr e ↦ rw e (find_release-append id releases more (rw e at h))
]

lost : {A : Type 0} {x : A} {P : Type 0} (o : Option A) → o ≡ none → o ≡ some x → P
lost none e f = cc
lost (some y) e f = cc

module _ (loads : String → Result Value) (sha256 : String → String) where
  -- A release that is installed stays as it is, whatever is installed behind it and however that
  -- ends.
  pub install-KeepsRelease :
      (r : Request) (id : String) (d : Directory)
      → Keeps (λ m. find_release id m.releases ≡ some d) (install loads sha256 r)
  install-KeepsRelease r id d =
      install-Keeps loads sha256 (λ m. find_release id m.releases ≡ some d)
        (record {
          releases = λ m other e h. find_release-append id m.releases _ h;
          config = λ m text none_yet h. h;
        })
        (λ m l h. h) r

  -- The settings of the operator survive an installation byte for byte, however it ends.
  pub install-KeepsConfig :
      (r : Request) (settings : String)
      → Keeps (λ m. m.config ≡ some settings) (install loads sha256 r)
  install-KeepsConfig r settings =
      install-Keeps loads sha256 (λ m. m.config ≡ some settings)
        (record {
          releases = λ m other e h. h;
          config = λ m text none_yet h. lost m.config none_yet h;
        })
        (λ m l h. h) r
