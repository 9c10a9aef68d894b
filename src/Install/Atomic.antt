-- ===== src/Install/Atomic.antt =====
-- The switch of explorer/install_release.py is atomic: where at most one system call fails, the
-- commands are those of the new release or those from before.
use usdb_explorer.Prelude.{
  ℕ, zero, suc, ◌≡◌, refl, inl, inr, ◌⊎◌, String, Bool, true, false, if◌then◌else◌, [], Option,
  none, some,
}
use usdb_explorer.Rpc.Calls.{Outcome, done, failed, ◌>>=◌, ◌>>◌, pure}
use usdb_explorer.Install.Links.{
  Disk, call, after_call, find_temporary, drop_temporary, at, put, temporary_link, move, replace,
  remove, unlink_found, unlink, unlink_any, rescue, finally,
}
use usdb_explorer.Install.Activate.{
  Plan, explorer_link, replace_any, remove_any, restore, remove_new, roll_back, switch_commands,
  switch, clean_up, with_explorer, with_launcher, activate,
}

abbrev pub Visible : Type 0
Visible = Option String × Option String × Option String

-- What the three places link to.
abbrev pub visible : Disk → Visible
visible d = (d.current, d.launcher, d.explorer)

-- A run that returns has switched all the links. One that raises has switched all or none.
abbrev pub IsAtomic : Visible → Visible → Outcome Disk (Unit {0}) → Type 0
IsAtomic before behind (done a d) = visible d ≡ behind
IsAtomic before behind (failed e d) = (visible d ≡ before) ⊎ (visible d ≡ behind)

-- The links before the switch: the first command is there or not, as the plan says.
abbrev pub started : Plan → Option String → Option String → Option ℕ → Disk
started plan previous explorer fault = record {
  current = previous;
  launcher = if plan.had_launcher then some plan.launcher else none;
  explorer = explorer;
  temporaries = [];
  tokens = 0;
  fault = fault;
}

abbrev pub wanted : Plan → Option String → Visible
wanted plan explorer = (
  some plan.target,
  some plan.launcher,
  if plan.add_explorer then some plan.explorer else explorer,
)

abbrev plan_of : String → String → String → Bool → Bool → Plan
plan_of target launcher explorer add had = record {
  target = target;
  launcher = launcher;
  explorer = explorer;
  add_explorer = add;
  had_launcher = had;
}

module _ (t l e : String) (before : Option String) where
  -- The first command fails to switch: the release is put back.
  both_commands_back_4 :
      (had : Bool) (previous : Option String)
      → let plan = plan_of t l e true had in
        IsAtomic
          (visible (started plan previous before (some 4)))
          (wanted plan before)
          (activate plan (started plan previous before (some 4)))
  unfolding call after_call find_temporary drop_temporary at put temporary_link move replace remove
      unlink_found unlink unlink_any rescue finally explorer_link replace_any remove_any restore
      remove_new roll_back switch_commands switch clean_up with_explorer with_launcher activate
      ◌>>=◌ ◌>>◌ pure
  both_commands_back_4 true none = inl refl
  both_commands_back_4 true (some target) = inl refl
  both_commands_back_4 false none = inl refl
  both_commands_back_4 false (some target) = inl refl

  -- The second command fails to switch: the first one and the release are put back.
  both_commands_back_5 :
      (had : Bool) (previous : Option String)
      → let plan = plan_of t l e true had in
        IsAtomic
          (visible (started plan previous before (some 5)))
          (wanted plan before)
          (activate plan (started plan previous before (some 5)))
  unfolding call after_call find_temporary drop_temporary at put temporary_link move replace remove
      unlink_found unlink unlink_any rescue finally explorer_link replace_any remove_any restore
      remove_new roll_back switch_commands switch clean_up with_explorer with_launcher activate
      ◌>>=◌ ◌>>◌ pure
  both_commands_back_5 true none = inl refl
  both_commands_back_5 true (some target) = inl refl
  both_commands_back_5 false none = inl refl
  both_commands_back_5 false (some target) = inl refl

  -- A release with both commands: three links are made, three are switched, and three are removed.
  both_commands :
      (had : Bool) (previous : Option String) (n : ℕ)
      → let plan = plan_of t l e true had in
        IsAtomic
          (visible (started plan previous before (some n)))
          (wanted plan before)
          (activate plan (started plan previous before (some n)))
  unfolding call after_call find_temporary drop_temporary at put temporary_link move replace remove
      unlink_found unlink unlink_any rescue finally explorer_link replace_any remove_any restore
      remove_new roll_back switch_commands switch clean_up with_explorer with_launcher activate
      ◌>>=◌ ◌>>◌ pure
  both_commands had previous zero = inl refl
  both_commands had previous (suc zero) = inl refl
  both_commands had previous (suc (suc zero)) = inl refl
  both_commands had previous (suc (suc (suc zero))) = inl refl
  both_commands had previous (suc (suc (suc (suc zero)))) = both_commands_back_4 had previous
  both_commands had previous (suc (suc (suc (suc (suc zero))))) = both_commands_back_5 had previous
  both_commands had previous (suc (suc (suc (suc (suc (suc zero)))))) = inr refl
  both_commands had previous (suc (suc (suc (suc (suc (suc (suc zero))))))) = inr refl
  both_commands had previous (suc (suc (suc (suc (suc (suc (suc (suc zero)))))))) = inr refl
  both_commands had previous (suc (suc (suc (suc (suc (suc (suc (suc (suc n))))))))) = refl

  -- The only command fails to switch.
  one_command_back :
      (had : Bool) (previous : Option String)
      → let plan = plan_of t l e false had in
        IsAtomic
          (visible (started plan previous before (some 3)))
          (wanted plan before)
          (activate plan (started plan previous before (some 3)))
  unfolding call after_call find_temporary drop_temporary at put temporary_link move replace remove
      unlink_found unlink unlink_any rescue finally explorer_link replace_any remove_any restore
      remove_new roll_back switch_commands switch clean_up with_explorer with_launcher activate
      ◌>>=◌ ◌>>◌ pure
  one_command_back true none = inl refl
  one_command_back true (some target) = inl refl
  one_command_back false none = inl refl
  one_command_back false (some target) = inl refl

  -- A release with the first command only: two of each.
  one_command :
      (had : Bool) (previous : Option String) (n : ℕ)
      → let plan = plan_of t l e false had in
        IsAtomic
          (visible (started plan previous before (some n)))
          (wanted plan before)
          (activate plan (started plan previous before (some n)))
  unfolding call after_call find_temporary drop_temporary at put temporary_link move replace remove
      unlink_found unlink unlink_any rescue finally explorer_link replace_any remove_any restore
      remove_new roll_back switch_commands switch clean_up with_explorer with_launcher activate
      ◌>>=◌ ◌>>◌ pure
  one_command had previous zero = inl refl
  one_command had previous (suc zero) = inl refl
  one_command had previous (suc (suc zero)) = inl refl
  one_command had previous (suc (suc (suc zero))) = one_command_back had previous
  one_command had previous (suc (suc (suc (suc zero)))) = inr refl
  one_command had previous (suc (suc (suc (suc (suc zero))))) = inr refl
  one_command had previous (suc (suc (suc (suc (suc (suc n)))))) = refl

  any_plan :
      (add had : Bool) (previous : Option String) (fault : Option ℕ)
      → let plan = plan_of t l e add had in
        IsAtomic
          (visible (started plan previous before fault))
          (wanted plan before)
          (activate plan (started plan previous before fault))
  unfolding call after_call find_temporary drop_temporary at put temporary_link move replace remove
      unlink_found unlink unlink_any rescue finally explorer_link replace_any remove_any restore
      remove_new roll_back switch_commands switch clean_up with_explorer with_launcher activate
      ◌>>=◌ ◌>>◌ pure
  any_plan true had previous none = refl
  any_plan false had previous none = refl
  any_plan true had previous (some n) = both_commands had previous n
  any_plan false had previous (some n) = one_command had previous n

  -- Where no call fails, the run returns and leaves no temporary link.
  undisturbed :
      (add had : Bool) (previous : Option String)
      → let plan = plan_of t l e add had in
        (d : Disk) × (activate plan (started plan previous before none) ≡ done tt d)
        × (visible d ≡ wanted plan before)
        × (d.temporaries ≡ [])
  unfolding call after_call find_temporary drop_temporary at put temporary_link move replace remove
      unlink_found unlink unlink_any rescue finally explorer_link replace_any remove_any restore
      remove_new roll_back switch_commands switch clean_up with_explorer with_launcher activate
      ◌>>=◌ ◌>>◌ pure
  undisturbed true had previous = (_, refl, refl, refl)
  undisturbed false had previous = (_, refl, refl, refl)

-- Whichever one call fails, the links are all those of the new release or all those from before:
-- if the run returns they are new, and if it raises they are either.
pub activate-IsAtomic :
    (plan : Plan) (previous explorer : Option String) (fault : Option ℕ)
    → IsAtomic
        (visible (started plan previous explorer fault))
        (wanted plan explorer)
        (activate plan (started plan previous explorer fault))
activate-IsAtomic plan previous explorer fault =
    any_plan plan.target plan.launcher plan.explorer explorer plan.add_explorer plan.had_launcher
      previous fault

-- If no call fails, the run returns with the new links, and no temporary link is left.
pub activate_completes :
    (plan : Plan) (previous explorer : Option String)
    → (d : Disk) × (activate plan (started plan previous explorer none) ≡ done tt d)
      × (visible d ≡ wanted plan explorer)
      × (d.temporaries ≡ [])
activate_completes plan previous explorer =
    undisturbed plan.target plan.launcher plan.explorer explorer plan.add_explorer plan.had_launcher
      previous
