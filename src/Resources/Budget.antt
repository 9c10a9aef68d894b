-- ===== src/Resources/Budget.antt =====
-- What `require_resources` of explorer/usdb_public.py leaves of the memory of the host.
use usdb_explorer.Prelude.{
  ◌≡◌, sym, subst, ◌∙◌, inl, inr, ℕ, ◌+◌, ◌*◌, ◌≤◌, ◌<◌, String, true, false, if◌then◌else◌, ◌||◌,
  ◌==◌, ltb, List, [], ◌∷◌, In, arith, Bool-cases,
}
use usdb_explorer.Python.Exn.{ok, bind_ok, refuse_ok}
use usdb_explorer.Python.Exn.Loops.{ok-injective}
use usdb_explorer.Resources.{
  gib, Document, Container, Reservation, sum_limits, is_own, own_service, scan, reserve_of,
  system_reserve, require_resources,
}

-- The caps of the containers of other projects.
unfoldable pub foreign_memory : Document → List Container → ℕ
foreign_memory document [] = 0
foreign_memory document (c ∷ cs) =
    let rest = foreign_memory document cs in if is_own document c then rest else c.memory + rest

scan-foreign_memory :
    (document : Document) (cs : List Container) (other : ℕ) (seen : List String) {total : ℕ}
    → scan document cs other seen ≡ ok total
    → total ≡ other + foreign_memory document cs
unfolding scan foreign_memory
scan-foreign_memory document [] other seen h = omega (arith, ok-injective h)
scan-foreign_memory document (c ∷ cs) other seen {total} h = elim (Bool-cases (is_own document c)) [
  | inl own ↦
      let (service, _, h1) = bind_ok (own_service document seen c) _ (rw (own, scan) at h) in
      rw own (scan-foreign_memory document cs other (service ∷ seen) h1)
  | inr foreign ↦
      let (_, h1) = refuse_ok (c.memory == 0) _ _ (rw (foreign, scan) at h) in
      rw foreign (omega (arith, scan-foreign_memory document cs (other + c.memory) seen h1))
]

differ : true ≡ false → ⊥
differ h = cc

-- Every container of another project has a cap.
scan-capped :
    (document : Document) (cs : List Container) (other : ℕ) (seen : List String) {total : ℕ}
    → scan document cs other seen ≡ ok total
    → (c : Container) → In c cs
    → is_own document c ≡ false
    → 0 < c.memory
unfolding scan
scan-capped document [] other seen h c i f = elim i [ ]
scan-capped document (d ∷ cs) other seen h c i f = elim (Bool-cases (is_own document d)) [
  | inl own ↦
      let (service, _, h1) = bind_ok (own_service document seen d) _ (rw (own, scan) at h) in
      elim i [
        | inl e ↦ absurd (differ (sym own ∙ subst (λ x. is_own document x ≡ false) e f))
        | inr j ↦ scan-capped document cs other (service ∷ seen) h1 c j f
      ]
  | inr foreign ↦
      let (some_cap, h1) = refuse_ok (d.memory == 0) _ _ (rw (foreign, scan) at h) in
      elim i [
        | inl e ↦ subst (λ x. 0 < x.memory) (sym e) (ground arith)
        | inr j ↦ scan-capped document cs (other + d.memory) seen h1 c j f
      ]
]

-- The memory of the host: the limits of the services fit their budget, the caps of the others fit
-- their reservation, and both fit beside the part of the system.
pub record FitsHost (budget_gib host other : ℕ) (document : Document) (containers : List Container)
    : Type 0 where
  pub limits : ℕ
  pub of_limits : sum_limits document.services ≡ ok limits
  pub budgeted : limits ≤ budget_gib * gib
  pub reserved : foreign_memory document containers ≤ other
  pub fits : budget_gib * gib + other + system_reserve host ≤ host
  pub together : limits + foreign_memory document containers + system_reserve host ≤ host
  pub capped : (c : Container) → In c containers → is_own document c ≡ false → 0 < c.memory

-- An accepted deployment fits the host beside the other containers, all of which have a cap.
pub require_resources-FitsHost :
    (budget_gib : ℕ) (reservation : Reservation) (document : Document) (host : ℕ)
    (containers : List Container) {other : ℕ}
    → require_resources budget_gib reservation document host containers ≡ ok other
    → FitsHost budget_gib host other document containers
unfolding require_resources
require_resources-FitsHost budget_gib reservation document host containers h =
    let (limits, at_limits, h1) = bind_ok (sum_limits document.services) _ h in
    let (others, at_others, h2) = bind_ok (scan document containers 0 []) _ h1 in
    let reserve = reserve_of reservation others in
    let (room, h3) =
      refuse_ok
        (ltb (budget_gib * gib) limits
          || ltb host (budget_gib * gib + reserve + system_reserve host))
        _ _ h2 in
    let (enough, h4) = refuse_ok (ltb reserve others) _ _ h3 in
    let total = scan-foreign_memory document containers 0 [] at_others in
    subst (λ o. FitsHost budget_gib host o document containers) (ok-injective h4)
      (record {
        limits = limits;
        of_limits = at_limits;
        budgeted = ground arith;
        reserved = ground (arith, total);
        fits = ground arith;
        together = ground (arith, total);
        capped = scan-capped document containers 0 [] at_others;
      })
