-- ===== src/Workflow/WellFormed.antt =====
-- compile of runtime/workflow/compilation-service.ts: what its
-- errors say of a definition.
use distributed_task_platfor.Prelude.{
  ℕ, ◌≡◌, ◌↔◌, inl, inr, refl, sym, ap, ◌∙◌, String, Bool, true, false, ◌||◌, Option, none, some,
  List, [], ◌∷◌, ◌++◌, map, elem, All, ◌==◌, ==_iff, Bool-cases, arith,
}
use distributed_task_platfor.Workflow.Definition.{
  Task, Definition, entries, default_targets, neighbors, declared, Diagnostic, cycle_detected,
}
use distributed_task_platfor.Workflow.Graph.{put, adjacent}
use distributed_task_platfor.Workflow.CycleVerdict.{Cycle}
use distributed_task_platfor.Workflow.Compile.{
  has_errors, default_errors, conditional_errors, route_errors, duplicate_errors,
  unreachable_warnings, condition_warnings,
}

-- No two tasks have the same id.
abbrev pub Distinct : List Task → Type 0
Distinct [] = Unit
Distinct (t ∷ ts) = (declared t.id ts ≡ false) × Distinct ts

-- Every route of these tasks leads to a task of `ts`.
abbrev pub RoutesDeclared : List Task → List Task → Type 0
RoutesDeclared ts us = All (λ t. (x : ℕ) → elem x (neighbors t) ≡ true → declared x ts ≡ true) us

-- A definition without errors.
pub record IsWellFormed (d : Definition) : Type 0 where
  pub entry_declared : declared d.entry_task_id d.tasks ≡ true
  pub routes_declared : RoutesDeclared d.tasks d.tasks
  pub distinct : Distinct d.tasks
  pub acyclic : ¬ Cycle (adjacent d.tasks)

pub has_errors-append :
    (xs ys : List Diagnostic) → has_errors (xs ++ ys) ≡ (has_errors xs || has_errors ys)
has_errors-append [] ys = refl
has_errors-append (x ∷ xs) ys = ground (arith, has_errors-append xs ys)

elem-append : (x : ℕ) (ys zs : List ℕ) → elem x (ys ++ zs) ≡ (elem x ys || elem x zs)
elem-append x [] zs = refl
elem-append x (y ∷ ys) zs = ground (arith, elem-append x ys zs)

declared_same : (ts : List Task) (a x : ℕ) → (a == x) ≡ true → declared a ts ≡ declared x ts
declared_same ts a x e = ap (λ i. declared i ts) ((==_iff a x).0 e)

default_errors-none :
    (ts : List Task) (id : ℕ) (r : Option ℕ)
    → (has_errors (default_errors ts id r) ≡ false)
      ↔ ((x : ℕ) → elem x (default_targets r) ≡ true → declared x ts ≡ true)
default_errors-none ts id none = (λ h x p. absurd (cc p), λ h. refl)
default_errors-none ts id (some target) =
    ((λ h x p. ground (arith, h, p, declared_same ts target x)), λ h. ground (arith, h target))

conditional_errors-none :
    (ts : List Task) (id : ℕ) (es : List (String × ℕ))
    → (has_errors (conditional_errors ts id es) ≡ false)
      ↔ ((x : ℕ) → elem x (map (λ e. e.1) es) ≡ true → declared x ts ≡ true)
conditional_errors-none ts id [] = (λ h x p. absurd (cc p), λ h. refl)
conditional_errors-none ts id ((outcome, target) ∷ es) =
    let rest = conditional_errors-none ts id es in
    (
      (λ h x p. ground (
        arith,
        h,
        p,
        declared_same ts target x,
        λ (q : has_errors (conditional_errors ts id es) ≡ false). rest.0 q x,
      )),
      λ h. ground (arith, h target, rest.1 (λ x p. h x (ground (arith, p)))),
    )

pub route_errors-none :
    (ts us : List Task) → (has_errors (route_errors ts us) ≡ false) ↔ RoutesDeclared ts us
unfolding route_errors neighbors
route_errors-none ts [] = (λ h. tt, λ h. refl)
route_errors-none ts (t ∷ us) = (
  (λ h. (
    (λ x p. ground (
      arith,
      h,
      p,
      default_part,
      other_parts,
      targets x,
      default_target x,
      conditional_target x,
    )),
    (route_errors-none ts us).0 (ground (arith, h, default_part, other_parts)),
  )),
  λ (h, hs). ground (
    arith,
    default_part,
    other_parts,
    (route_errors-none ts us).1 hs,
    of_default.1 (λ x p. h x (ground (arith, p, targets x))),
    of_conditional.1 (λ x p. h x (ground (arith, p, targets x))),
  ),
)
  where
    of_default :
        (has_errors (default_errors ts t.id t.default_route) ≡ false)
        ↔ ((x : ℕ) → elem x (default_targets t.default_route) ≡ true → declared x ts ≡ true)
    of_default = default_errors-none ts t.id t.default_route

    of_conditional :
        (has_errors (conditional_errors ts t.id (entries t.conditional)) ≡ false)
        ↔ ((x : ℕ) → elem x (map (λ e. e.1) (entries t.conditional)) ≡ true → declared x ts ≡ true)
    of_conditional = conditional_errors-none ts t.id (entries t.conditional)

    default_target :
        (x : ℕ)
        → has_errors (default_errors ts t.id t.default_route) ≡ false
        → elem x (default_targets t.default_route) ≡ true
        → declared x ts ≡ true
    default_target x q = of_default.0 q x

    conditional_target :
        (x : ℕ)
        → has_errors (conditional_errors ts t.id (entries t.conditional)) ≡ false
        → elem x (map (λ e. e.1) (entries t.conditional)) ≡ true
        → declared x ts ≡ true
    conditional_target x q = of_conditional.0 q x

    targets :
        (x : ℕ)
        → elem x (neighbors t) ≡ (
            elem x (default_targets t.default_route)
            || elem x (map (λ e. e.1) (entries t.conditional)))
    targets x =
        elem-append x (default_targets t.default_route) (map (λ e. e.1) (entries t.conditional))

    default_part :
        has_errors (
          default_errors ts t.id t.default_route
          ++ (conditional_errors ts t.id (entries t.conditional) ++ route_errors ts us))
        ≡ (has_errors (default_errors ts t.id t.default_route)
            || has_errors
                (conditional_errors ts t.id (entries t.conditional) ++ route_errors ts us))
    default_part = has_errors-append (default_errors ts t.id t.default_route) _

    other_parts :
        has_errors (conditional_errors ts t.id (entries t.conditional) ++ route_errors ts us) ≡ (
          has_errors (conditional_errors ts t.id (entries t.conditional))
          || has_errors (route_errors ts us))
    other_parts = has_errors-append (conditional_errors ts t.id (entries t.conditional)) _

pub duplicate_errors-none :
    (seen : ℕ → Bool) (us : List Task)
    → (has_errors (duplicate_errors seen us) ≡ false)
      ↔ (Distinct us × ((x : ℕ) → seen x ≡ true → declared x us ≡ false))
unfolding duplicate_errors
duplicate_errors-none seen [] = (λ h. (tt, λ x p. refl), λ h. refl)
duplicate_errors-none seen (t ∷ us) =
    let rest = duplicate_errors-none (put t.id true seen) us in
    (
      (λ h.
          let (ds, g) = rest.0 (ground (arith, h)) in
          ((g t.id (ground arith), ds), λ x p. ground (arith, h, p, g x, seen_same x))),
      λ ((d, ds), g). ground (
        arith,
        g t.id,
        rest.1 (
          ds,
          λ x. elim (Bool-cases (x == t.id)) [
            | inl e ↦ λ p. sym (declared_same us t.id x (ground (arith, e))) ∙ d
            | inr e ↦ λ p. ground (arith, e, g x, p)
          ],
        ),
      ),
    )
  where
    seen_same : (x : ℕ) → (t.id == x) ≡ true → seen t.id ≡ seen x
    seen_same x e = ap seen ((==_iff t.id x).0 e)

pub cycle_errors-none :
    (found : List (ℕ × ℕ))
    → (has_errors (map (λ e. cycle_detected e.0 e.1) found) ≡ false) ↔ (found ≡ [])
cycle_errors-none [] = (λ h. refl, λ h. refl)
cycle_errors-none (x ∷ xs) = (λ h. absurd (cc h), λ h. absurd (cc h))

pub unreachable-none :
    (r : ℕ → Bool) (us : List Task) → has_errors (unreachable_warnings r us) ≡ false
unfolding unreachable_warnings
unreachable-none r [] = refl
unreachable-none r (t ∷ us) = ground (arith, unreachable-none r us)

pub condition-none : (us : List Task) → has_errors (condition_warnings us) ≡ false
unfolding condition_warnings
condition-none [] = refl
condition-none (t ∷ us) = ground (arith, condition-none us)
