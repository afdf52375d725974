-- ===== src/Workflow/Compiled.antt =====
-- compile of runtime/workflow/compilation-service.ts: when it succeeds, and what it builds.
use distributed_task_platfor.Prelude.{
  ℕ, ◌≡◌, ◌↔◌, ◌⊎◌, inl, inr, refl, sym, ap, ◌∙◌, subst, String, Bool, true, false, ◌||◌, Option,
  none, some, is_some, List, [], ◌∷◌, ◌++◌, map, length, elem, All, ◌==◌, ==_refl, Bool-cases,
  or_default, arith,
}
use distributed_task_platfor.Workflow.Definition.{
  Task, Definition, neighbors, declared, Diagnostic, empty_workflow, invalid_entry_task,
  cycle_detected,
}
use distributed_task_platfor.Workflow.Graph.{put, adjacent, Marks}
use distributed_task_platfor.Workflow.CycleVerdict.{Cycle}
use distributed_task_platfor.Workflow.Reachable.{find_reachable_correct}
use distributed_task_platfor.Workflow.Acyclic.{detect_cycles_decides}
use distributed_task_platfor.Workflow.Compile.{
  has_errors, route_errors, duplicate_errors, unreachable_warnings, condition_warnings,
  CompiledTask, compile_task, compile_tasks, CompiledWorkflow, CompileResult, translate, failure,
  conclude, all_diagnostics, compile,
}
use distributed_task_platfor.Workflow.Translation.{IsTranslation, compile_task-IsTranslation}
use distributed_task_platfor.Workflow.WellFormed.{
  Distinct, RoutesDeclared, IsWellFormed, has_errors-append, route_errors-none,
  duplicate_errors-none, cycle_errors-none, unreachable-none, condition-none,
}

module _ (hash : Definition → String) where
  all_diagnostics-none :
      (d : Definition) (cycles : Marks) (reachable : ℕ → Bool)
      → (has_errors (all_diagnostics hash d cycles reachable) ≡ false)
        ↔ (RoutesDeclared d.tasks d.tasks × Distinct d.tasks × (cycles.found ≡ []))
  unfolding all_diagnostics
  all_diagnostics-none d cycles reachable = (
    (λ h. (
      (route_errors-none d.tasks d.tasks).0 (ground (arith, h, first)),
      ((duplicate_errors-none (λ _. false) d.tasks).0 (ground (arith, h, first, second))).0,
      (cycle_errors-none cycles.found).0 (ground (arith, h, first, second, third)),
    )),
    λ (r, u, c). ground (
      arith,
      first,
      second,
      third,
      fourth,
      unreachable-none reachable d.tasks,
      condition-none d.tasks,
      (route_errors-none d.tasks d.tasks).1 r,
      (duplicate_errors-none (λ _. false) d.tasks).1 (u, λ x p. absurd (cc p)),
      (cycle_errors-none cycles.found).1 c,
    ),
  )
    where
      cycle_errors : List Diagnostic
      cycle_errors = map (λ e. cycle_detected e.0 e.1) cycles.found

      warnings : List Diagnostic
      warnings = unreachable_warnings reachable d.tasks ++ condition_warnings d.tasks

      first :
          has_errors (
            route_errors d.tasks d.tasks
            ++ (duplicate_errors (λ _. false) d.tasks ++ (cycle_errors ++ warnings)))
          ≡ (has_errors (route_errors d.tasks d.tasks)
              || has_errors (duplicate_errors (λ _. false) d.tasks ++ (cycle_errors ++ warnings)))
      first = has_errors-append (route_errors d.tasks d.tasks) _

      second : has_errors (duplicate_errors (λ _. false) d.tasks ++ (cycle_errors ++ warnings)) ≡ (
          has_errors (duplicate_errors (λ _. false) d.tasks)
          || has_errors (cycle_errors ++ warnings))
      second = has_errors-append (duplicate_errors (λ _. false) d.tasks) _

      third :
          has_errors (cycle_errors ++ warnings) ≡ (has_errors cycle_errors || has_errors warnings)
      third = has_errors-append cycle_errors warnings

      fourth : has_errors warnings ≡ (
          has_errors (unreachable_warnings reachable d.tasks)
          || has_errors (condition_warnings d.tasks))
      fourth = has_errors-append (unreachable_warnings reachable d.tasks) _

  conclude-success :
      (d : Definition) (ds : List Diagnostic)
      → ((conclude hash d ds).success ≡ true) ↔ (has_errors ds ≡ false)
  unfolding conclude
  conclude-success d ds = elim (Bool-cases (has_errors ds)) [
    | inl e ↦ rw e (λ p. absurd (cc p), λ p. absurd (cc p))
    | inr e ↦ rw e (λ p. refl, λ p. refl)
  ]

  conclude-workflow :
      (d : Definition) (ds : List Diagnostic)
      → (conclude hash d ds).success ≡ true
      → (conclude hash d ds).workflow ≡ some (translate d)
  unfolding conclude
  conclude-workflow d ds = elim (Bool-cases (has_errors ds)) [
    | inl e ↦ rw e (λ p. absurd (cc p))
    | inr e ↦ rw e (λ p. refl)
  ]

empty-declared : (ts : List Task) (x : ℕ) → (length ts == 0) ≡ true → declared x ts ≡ false
empty-declared [] x e = refl
empty-declared (t ∷ ts) x e = ground (arith, e)

compile_tasks-declared :
    (ts : List Task) (m : ℕ → Option CompiledTask) (x : ℕ)
    → declared x ts ≡ false
    → compile_tasks ts m x ≡ m x
unfolding compile_tasks
compile_tasks-declared [] m x e = refl
compile_tasks-declared (t ∷ ts) m x e =
    compile_tasks-declared ts (put t.id (some (compile_task t)) m) x (ground (arith, e))
    ∙ ground (arith, e)

compile_tasks-Distinct :
    (ts : List Task) (m : ℕ → Option CompiledTask)
    → Distinct ts
    → All (λ t. compile_tasks ts m t.id ≡ some (compile_task t)) ts
unfolding compile_tasks
compile_tasks-Distinct [] m d = tt
compile_tasks-Distinct (t ∷ ts) m (fresh, d) = (
  compile_tasks-declared ts (put t.id (some (compile_task t)) m) t.id fresh
      ∙ rw (==_refl t.id) refl,
  compile_tasks-Distinct ts (put t.id (some (compile_task t)) m) d,
)

compile_tasks-some :
    (ts : List Task) (m : ℕ → Option CompiledTask) (x : ℕ)
    → (declared x ts ≡ true) ⊎ (is_some (m x) ≡ true)
    → is_some (compile_tasks ts m x) ≡ true
unfolding compile_tasks
compile_tasks-some [] m x e = ground (arith, e)
compile_tasks-some (t ∷ ts) m x e = compile_tasks-some ts _ x (elim (Bool-cases (x == t.id)) [
  | inl same ↦ inr (rw same refl)
  | inr other ↦ rw other (ground (arith, e, other))
])

-- The result of `compile` where the entry task exists.
searched :
    (hash : Definition → String) (d : Definition)
    → declared d.entry_task_id d.tasks ≡ true
    → (cycles : Marks) × (reachable : ℕ → Bool) × (compile hash d
        ≡ some (conclude hash d (all_diagnostics hash d cycles reachable)))
      × ((cycles.found ≡ []) ↔ ¬ Cycle (adjacent d.tasks))
unfolding compile
searched hash d here =
    let (cycles, cycles_end, decides) = detect_cycles_decides d.tasks in
    let (reachable, reach_end, correct) = find_reachable_correct d.entry_task_id d.tasks in
    (cycles, reachable, rw not_empty (rw here (rw cycles_end (rw reach_end refl))), decides)
  where
    not_empty : (length d.tasks == 0) ≡ false
    not_empty = ground (arith, empty-declared d.tasks d.entry_task_id, here)

-- compile always returns, and it succeeds if and only if the entry task exists, every route leads
-- to a task, no two tasks share an id, and the routes form no cycle.
pub compile_decides :
    (hash : Definition → String) (d : Definition)
    → (r : CompileResult) × (compile hash d ≡ some r) × ((r.success ≡ true) ↔ IsWellFormed d)
unfolding compile
compile_decides hash d = elim (Bool-cases (declared d.entry_task_id d.tasks)) [
  | inl here ↦
      let (cycles, reachable, e, decides) = searched hash d here in
      let ds = all_diagnostics hash d cycles reachable in
      let (no_errors, errors) = all_diagnostics-none hash d cycles reachable in
      (
        conclude hash d ds,
        e,
        (
          (λ p.
              let (routes, unique, none_found) = no_errors ((conclude-success hash d ds).0 p) in
              record {
                entry_declared = here;
                routes_declared = routes;
                distinct = unique;
                acyclic = decides.0 none_found;
              }),
          λ w.
              (conclude-success hash d ds).1
                (errors (w.routes_declared, w.distinct, decides.1 w.acyclic)),
        ),
      )
  | inr gone ↦ elim (Bool-cases (length d.tasks == 0)) [
    | inl e ↦ (
      failure hash d (empty_workflow ∷ []),
      rw e refl,
      ((λ p. absurd (cc p)), λ w. absurd (cc (w.entry_declared, gone))),
    )
    | inr e ↦ (
      failure hash d (invalid_entry_task d.entry_task_id ∷ []),
      rw e (rw gone refl),
      ((λ p. absurd (cc p)), λ w. absurd (cc (w.entry_declared, gone))),
    )
  ]
]

compiled_targets :
    (ts us : List Task)
    → RoutesDeclared ts us
    → All
        (λ t.
          (x : ℕ) → elem x (neighbors t) ≡ true → is_some (compile_tasks ts (λ _. none) x) ≡ true)
        us
compiled_targets ts [] h = tt
compiled_targets ts (t ∷ us) (h, hs) =
    ((λ x p. compile_tasks-some ts (λ _. none) x (inl (h x p))), compiled_targets ts us hs)

-- Under each task's id the workflow of a well-formed definition has a translation of it.
translated :
    (m : ℕ → Option CompiledTask) (ts : List Task)
    → All (λ t. m t.id ≡ some (compile_task t)) ts
    → All (λ t. (c : CompiledTask) × (m t.id ≡ some c) × IsTranslation t c) ts
translated m [] h = tt
translated m (t ∷ ts) (e, h) =
    ((compile_task t, e, compile_task-IsTranslation t), translated m ts h)

-- The workflow of a well-formed definition has the definition's id and version and starts at the
-- entry task, which is compiled; for every task of the definition it has, under its id, a compiled
-- task with the same id, plugin and default route, with a routing table that leads each outcome
-- where the task's conditional routes lead it and nowhere else, and with the task's config and name
-- as metadata; and every route of a task leads to a compiled task.
pub compile_translates :
    (hash : Definition → String) (d : Definition) (r : CompileResult)
    → compile hash d ≡ some r
    → IsWellFormed d
    → (w : CompiledWorkflow) × (r.workflow ≡ some w)
      × (w.id ≡ d.id)
      × (w.version ≡ d.version)
      × (w.start_task ≡ d.entry_task_id)
      × (is_some (w.tasks w.start_task) ≡ true)
      × All (λ t. (c : CompiledTask) × (w.tasks t.id ≡ some c) × IsTranslation t c) d.tasks
      × All (λ t. (x : ℕ) → elem x (neighbors t) ≡ true → is_some (w.tasks x) ≡ true) d.tasks
compile_translates hash d r e w = (
  translate d,
  subst (λ c. c.workflow ≡ some (translate d)) same
      (conclude-workflow hash d ds (
        (conclude-success hash d ds).1 (
          (all_diagnostics-none hash d cycles reachable).1
            (w.routes_declared, w.distinct, decides.1 w.acyclic)))),
  refl,
  refl,
  refl,
  compile_tasks-some d.tasks (λ _. none) d.entry_task_id (inl w.entry_declared),
  translated (compile_tasks d.tasks (λ _. none)) d.tasks
      (compile_tasks-Distinct d.tasks (λ _. none) w.distinct),
  compiled_targets d.tasks d.tasks w.routes_declared,
)
  where
    cycles : Marks
    cycles = (searched hash d w.entry_declared).0

    reachable : ℕ → Bool
    reachable = (searched hash d w.entry_declared).1

    ds : List Diagnostic
    ds = all_diagnostics hash d cycles reachable

    decides : (cycles.found ≡ []) ↔ ¬ Cycle (adjacent d.tasks)
    decides = (searched hash d w.entry_declared).3

    same : conclude hash d ds ≡ r
    same = ap (λ o. or_default o r) (sym (searched hash d w.entry_declared).2 ∙ e)
