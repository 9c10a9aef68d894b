-- ===== src/Install/Switched.antt =====
-- What `install` of explorer/install_release.py does to the commands: all that comes before their
-- switch leaves them alone, and the switch is atomic.
use usdb_explorer.Prelude.{
  String, ◌≡◌, refl, sym, ap, subst, inl, ◌⊎◌, Bool, true, if◌then◌else◌, not, ◌&&◌, [], Option,
  none, some, arith, eq_iff,
}
use usdb_explorer.Python.Value.{Value}
use usdb_explorer.Python.Exn.{Result}
use usdb_explorer.Rpc.Calls.{Outcome, done, failed, then_run, ◌>>◌, check, next_done, check_done}
use usdb_explorer.Rpc.Guard.{world, Keeps}
use usdb_explorer.Install.Links.{Disk, Place}
use usdb_explorer.Install.Activate.{Plan, activate}
use usdb_explorer.Install.Atomic.{Visible, visible, IsAtomic, started, wanted, activate-IsAtomic}
use usdb_explorer.Install.Run.{
  Request, Machine, check_request, check_commands, check_places, plan_for, is_ours, is_there,
  with_links, prepare_release, install,
}
use usdb_explorer.Install.Kept.{prepare_release-Keeps, check_request-Keeps}

-- How an installation may end: it returns with the commands of the new release, or it raises with
-- those or the ones from before.
abbrev pub IsSwitched : Visible → Visible → Outcome Machine (Unit {0}) → Type 0
IsSwitched before behind (done a m) = visible m.links ≡ behind
IsSwitched before behind (failed e m) = (visible m.links ≡ before) ⊎ (visible m.links ≡ behind)

right_true : (a b : Bool) → (a && b) ≡ true → b ≡ true
right_true a b h = ground arith

rebuilt :
    (d : Disk) (found : Option String)
    → d.launcher ≡ found
    → d.temporaries ≡ []
    → d.tokens ≡ 0
    → d ≡ record {
      current = d.current;
      launcher = found;
      explorer = d.explorer;
      temporaries = [];
      tokens = 0;
      fault = d.fault;
    }
rebuilt d found p q s = λ i. record {
  current = d.current;
  launcher = p i;
  explorer = d.explorer;
  temporaries = q i;
  tokens = s i;
  fault = d.fault;
}

module _ (loads : String → Result Value) (sha256 : String → String) where
  prepare_release-KeepsLinks :
      (r : Request) (plan : Plan) (l : Disk)
      → Keeps (λ m. m.links ≡ l) (prepare_release loads sha256 r plan)
  prepare_release-KeepsLinks r plan l =
      prepare_release-Keeps loads sha256 (λ m. m.links ≡ l)
        (record { releases = λ m id d h. h; config = λ m text none_yet h. h }) r plan

  with_links-IsSwitched :
      (m : Machine) (before behind : Visible) (o : Outcome Disk (Unit {0}))
      → IsAtomic before behind o
      → IsSwitched before behind (with_links loads sha256 m o)
  unfolding with_links
  with_links-IsSwitched m before behind (done a d) h = h
  with_links-IsSwitched m before behind (failed e d) h = h

  -- A preparation that returned has found no foreign command in the place of the first one.
  prepare_release-is_ours :
      (r : Request) (plan : Plan) (m : Machine) {u : Unit {0}} {v : Machine}
      → prepare_release loads sha256 r plan m ≡ done u v
      → is_ours m.links.launcher plan.launcher ≡ true
  unfolding prepare_release check_places check_commands
  prepare_release-is_ours r plan m h =
      let (_, m1, checked, h1) = next_done (check_request r) _ m h in
      let kept = (check_request-Keeps loads sha256 (λ x. x.links ≡ m.links) r).keeps m refl in
      let same = subst (λ o. (world {W = Machine} o).links ≡ m.links) checked kept in
      let (_, m2, placed, _) = next_done (check_places r plan) _ m1 h1 in
      let (_, m3, commands, _) = next_done (check_commands r plan) _ m1 placed in
      let (_, m4, _, launcher) = next_done (check _ _) (check _ _) m1 commands in
      let fine =
        check_done (not (m1.occupied Place.launcher) && is_ours m1.links.launcher plan.launcher) _
          m4 launcher in
      subst (λ l. is_ours l.launcher plan.launcher ≡ true) same (right_true _ _ fine)

  launcher_of :
      (found : Option String) (expected : String)
      → is_ours found expected ≡ true
      → found ≡ (if is_there found then some expected else none)
  launcher_of none expected h = refl
  launcher_of (some target) expected h = ap some ((eq_iff target expected).0 h)

  -- The links of an installation: if no temporary link is left from before, then at most one failed
  -- call leaves all the commands of the new release or all those from before.
  pub install-IsSwitched :
      (r : Request) (m : Machine)
      → m.links.temporaries ≡ []
      → m.links.tokens ≡ 0
      → IsSwitched
          (visible m.links)
          (wanted (plan_for r m) m.links.explorer)
          (install loads sha256 r m)
  unfolding install ◌>>◌ plan_for
  install-IsSwitched r m clean fresh = ended (prepare_release loads sha256 r (plan_for r m) m) refl
    where
      kept :
          (o : Outcome Machine (Unit {0}))
          → prepare_release loads sha256 r (plan_for r m) m ≡ o
          → (world o).links ≡ m.links
      kept o h =
          subst (λ x. (world {W = Machine} x).links ≡ m.links) h
            ((prepare_release-KeepsLinks r (plan_for r m) m.links).keeps m refl)

      from_start :
          (plan : Plan)
          → m.links ≡ started plan m.links.current m.links.explorer m.links.fault
          → IsAtomic (visible m.links) (wanted plan m.links.explorer) (activate plan m.links)
      from_start plan start =
          subst (λ l. IsAtomic (visible l) (wanted plan m.links.explorer) (activate plan l))
            (sym start) (activate-IsAtomic plan m.links.current m.links.explorer m.links.fault)

      ended :
          (o : Outcome Machine (Unit {0}))
          → prepare_release loads sha256 r (plan_for r m) m ≡ o
          → IsSwitched
              (visible m.links)
              (wanted (plan_for r m) m.links.explorer)
              (then_run o (λ u v. with_links loads sha256 v (activate (plan_for r m) v.links)))
      ended (failed e v) h = inl (ap visible (kept (failed e v) h))
      ended (done u v) h =
          let plan = plan_for r m in
          let ours =
            launcher_of m.links.launcher plan.launcher (prepare_release-is_ours r plan m h) in
          let start = rebuilt m.links _ ours clean fresh in
          with_links-IsSwitched v (visible m.links) (wanted plan m.links.explorer) _ (
            subst (λ l. IsAtomic (visible m.links) (wanted plan m.links.explorer) (activate plan l))
              (sym (kept (done u v) h)) (from_start plan start))
