-- ===== src/Workflow/Compile.antt =====
-- compile of runtime/workflow/compilation-service.ts. `hash` is computeHash: SHA-256 of a JSON
-- text, both of them library calls.
use distributed_task_platfor.Prelude.{
  ℕ, String, Bool, true, false, not, ◌&&◌, ◌||◌, Option, none, some, List, [], ◌∷◌, ◌++◌, map,
  length, ltb, ◌==◌, str_eq, if◌then◌else◌,
}
use distributed_task_platfor.Workflow.Definition.{
  Value, string, Task, Definition, entries, declared, Diagnostic, empty_workflow,
  invalid_entry_task, invalid_default_route, invalid_conditional_route, duplicate_task_id,
  cycle_detected, unreachable_task, incomplete_condition,
}
use distributed_task_platfor.Workflow.Graph.{put, Marks, find_reachable, detect_cycles}

-- severity === 'error'
abbrev pub is_error : Diagnostic → Bool
is_error (unreachable_task id) = false
is_error (incomplete_condition id) = false
is_error _ = true

-- diagnostics.some(d => d.severity === 'error')
abbrev pub has_errors : List Diagnostic → Bool
has_errors [] = false
has_errors (d ∷ ds) = is_error d || has_errors ds

-- 1.3, one default route
abbrev pub default_errors : List Task → ℕ → Option ℕ → List Diagnostic
default_errors ts id none = []
default_errors ts id (some target) =
    if declared target ts then [] else invalid_default_route id target ∷ []

-- 1.3, the conditional routes
abbrev pub conditional_errors : List Task → ℕ → List (String × ℕ) → List Diagnostic
conditional_errors ts id [] = []
conditional_errors ts id ((outcome, target) ∷ es) =
    (if declared target ts then [] else invalid_conditional_route id outcome target ∷ [])
    ++ conditional_errors ts id es

-- 1.3, the loop over the tasks `us` of `ts`
unfoldable pub route_errors : List Task → List Task → List Diagnostic
route_errors ts [] = []
route_errors ts (t ∷ us) =
    default_errors ts t.id t.default_route
    ++ (conditional_errors ts t.id (entries t.conditional) ++ route_errors ts us)

-- 1.4, with the ids seen so far
unfoldable pub duplicate_errors : (ℕ → Bool) → List Task → List Diagnostic
duplicate_errors seen [] = []
duplicate_errors seen (t ∷ us) =
    (if seen t.id then duplicate_task_id t.id ∷ [] else [])
    ++ duplicate_errors (put t.id true seen) us

-- 2.2
unfoldable pub unreachable_warnings : (ℕ → Bool) → List Task → List Diagnostic
unreachable_warnings reachable [] = []
unreachable_warnings reachable (t ∷ us) =
    (if reachable t.id then [] else unreachable_task t.id ∷ []) ++ unreachable_warnings reachable us

-- !task.routes.conditional || Object.keys(task.routes.conditional).length < 2
abbrev pub too_few_routes : Option (List (String × ℕ)) → Bool
too_few_routes none = true
too_few_routes (some es) = ltb (length es) 2

-- 2.3
unfoldable pub condition_warnings : List Task → List Diagnostic
condition_warnings [] = []
condition_warnings (t ∷ us) =
    (if str_eq t.plugin_id "core/condition" && too_few_routes t.conditional
      then incomplete_condition t.id ∷ []
      else [])
    ++ condition_warnings us

-- CompiledTask
pub record CompiledTask : Type 0 where
  pub id : ℕ
  pub plugin_id : String
  pub metadata : List (String × Value)
  pub default_route : Option ℕ
  pub routing_table : Option (List (String × ℕ))

-- Writing a key of an object or a Map: in place, or at the end.
abbrev pub set_entry {ℓ} : {A : Type ℓ} → String → A → List (String × A) → List (String × A)
set_entry k a [] = (k, a) ∷ []
set_entry k a ((k', b) ∷ es) = if str_eq k' k then (k, a) ∷ es else (k', b) ∷ set_entry k a es

-- The loop that fills `routingTable`.
abbrev pub route_entries : List (String × ℕ) → List (String × ℕ) → List (String × ℕ)
route_entries table [] = table
route_entries table ((outcome, target) ∷ es) = route_entries (set_entry outcome target table) es

-- A table is kept if it has entries.
abbrev pub kept_table : List (String × ℕ) → Option (List (String × ℕ))
kept_table [] = none
kept_table (e ∷ es) = some (e ∷ es)

-- Phase 4, for one task
unfoldable pub compile_task : Task → CompiledTask
compile_task t = record {
  id = t.id;
  plugin_id = t.plugin_id;
  metadata = set_entry "name" (string t.name) t.config;
  default_route = t.default_route;
  routing_table = kept_table (route_entries [] (entries t.conditional));
}

-- Phase 4, the loop that fills `compiledTasks`.
unfoldable pub compile_tasks : List Task → (ℕ → Option CompiledTask) → ℕ → Option CompiledTask
compile_tasks [] m = m
compile_tasks (t ∷ ts) m = compile_tasks ts (put t.id (some (compile_task t)) m)

-- CompiledWorkflow
pub record CompiledWorkflow : Type 0 where
  pub id : ℕ
  pub version : ℕ
  pub start_task : ℕ
  pub tasks : ℕ → Option CompiledTask

-- CompileResult
pub record CompileResult : Type 0 where
  pub success : Bool
  pub workflow : Option CompiledWorkflow
  pub definition_hash : String
  pub diagnostics : List Diagnostic

abbrev pub translate : Definition → CompiledWorkflow
translate d = record {
  id = d.id;
  version = d.version;
  start_task = d.entry_task_id;
  tasks = compile_tasks d.tasks (λ _. none);
}

module _ (hash : Definition → String) where
  abbrev pub failure : Definition → List Diagnostic → CompileResult
  failure d ds = record {
    success = false;
    workflow = none;
    definition_hash = hash d;
    diagnostics = ds;
  }

  -- Phases 3 and 4
  unfoldable pub conclude : Definition → List Diagnostic → CompileResult
  conclude d ds = if has_errors ds then failure d ds else record {
    success = true;
    workflow = some (translate d);
    definition_hash = hash d;
    diagnostics = ds;
  }

  -- The diagnostics of phases 1.3 to 2.3, in their order.
  unfoldable pub all_diagnostics : Definition → Marks → (ℕ → Bool) → List Diagnostic
  all_diagnostics d cycles reachable =
      route_errors d.tasks d.tasks
      ++ (duplicate_errors (λ _. false) d.tasks
          ++ (map (λ e. cycle_detected e.0 e.1) cycles.found
              ++ (unreachable_warnings reachable d.tasks ++ condition_warnings d.tasks)))

  abbrev pub with_searches : Definition → Option Marks → Option (ℕ → Bool) → Option CompileResult
  with_searches d (some cycles) (some reachable) =
      some (conclude d (all_diagnostics d cycles reachable))
  with_searches d _ _ = none

  -- compile; `none` says that a search ran out of rounds.
  unfoldable pub compile : Definition → Option CompileResult
  compile d =
      if length d.tasks == 0
      then some (failure d (empty_workflow ∷ []))
      else if not (declared d.entry_task_id d.tasks)
      then some (failure d (invalid_entry_task d.entry_task_id ∷ []))
      else with_searches d (detect_cycles d.tasks) (find_reachable d.entry_task_id d.tasks)
