-- ===== src/Examples/Workflow.antt =====
-- A workflow of a condition with two branches that meet again.
use distributed_task_platfor.Prelude.{
  ℕ, ◌≡◌, ◌↔◌, refl, sym, ap, ◌∙◌, String, Bool, true, Option, none, some, is_some, List, [], ◌∷◌,
  elem, All, arith,
}
use distributed_task_platfor.Workflow.Definition.{Task, Definition, neighbors, string}
use distributed_task_platfor.Workflow.Graph.{
  adjacent, Marks, find_reachable, detect_cycles, dfs, dfs_all, scan,
}
use distributed_task_platfor.Workflow.Reachable.{Reach, find_reachable_correct}
use distributed_task_platfor.Workflow.CycleVerdict.{Cycle}
use distributed_task_platfor.Workflow.Acyclic.{detect_cycles_decides}
use distributed_task_platfor.Workflow.Compile.{
  CompileResult, CompiledWorkflow, compile, CompiledTask,
}
use distributed_task_platfor.Workflow.WellFormed.{IsWellFormed}
use distributed_task_platfor.Workflow.Translation.{IsTranslation}
use distributed_task_platfor.Workflow.Compiled.{compile_decides, compile_translates}

abbrev plain : ℕ → Option ℕ → Task
plain id next = record {
  id = id;
  name = "task";
  plugin_id = "core/ai";
  config = [];
  default_route = next;
  conditional = none;
}

abbrev diamond : List Task
diamond =
    record {
      id = 1;
      name = "check";
      plugin_id = "core/condition";
      config = ("expression", string "x > 1") ∷ [];
      default_route = none;
      conditional = some (("true", 2) ∷ ("false", 3) ∷ []);
    }
    ∷ plain 2 (some 4)
    ∷ plain 3 (some 4)
    ∷ plain 4 none
    ∷ []

abbrev workflow : Definition
workflow = record { id = 1; version = 1; entry_task_id = 1; tasks = diamond }

abbrev no_hash : Definition → String
no_hash d = "digest"

find_reachable_correct_example :
    (r : ℕ → Bool) × (find_reachable 1 diamond ≡ some r)
    × ((x : ℕ)
        → ((r x ≡ true) → Reach (adjacent diamond) 1 x)
          × (Reach (adjacent diamond) 1 x → r x ≡ true))
find_reachable_correct_example = find_reachable_correct 1 diamond

detect_cycles_decides_example :
    (s : Marks) × (detect_cycles diamond ≡ some s) × ((s.found ≡ []) ↔ ¬ Cycle (adjacent diamond))
detect_cycles_decides_example = detect_cycles_decides diamond

found_of : Option Marks → List (ℕ × ℕ)
found_of none = []
found_of (some s) = s.found

diamond-found : found_of (detect_cycles diamond) ≡ []
unfolding found_of detect_cycles dfs_all dfs scan adjacent neighbors
diamond-found = refl

diamond-acyclic : ¬ Cycle (adjacent diamond)
unfolding found_of
diamond-acyclic =
    let (s, e, decides) = detect_cycles_decides diamond in
    decides.0 (sym (ap found_of e) ∙ diamond-found)

workflow-IsWellFormed : IsWellFormed workflow
unfolding neighbors
workflow-IsWellFormed = record {
  entry_declared = refl;
  routes_declared = (
    (λ x p. ground (arith, p)),
    ((λ x p. ground (arith, p)), ((λ x p. ground (arith, p)), ((λ x p. ground (arith, p)), tt))),
  );
  distinct = (refl, (refl, (refl, (refl, tt))));
  acyclic = diamond-acyclic;
}

compile_decides_example :
    (r : CompileResult) × (compile no_hash workflow ≡ some r)
    × ((r.success ≡ true) ↔ IsWellFormed workflow)
compile_decides_example = compile_decides no_hash workflow

workflow-result : CompileResult
workflow-result = (compile_decides no_hash workflow).0

compile_translates_example :
    (w : CompiledWorkflow) × (workflow-result.workflow ≡ some w)
    × (w.id ≡ workflow.id)
    × (w.version ≡ workflow.version)
    × (w.start_task ≡ 1)
    × (is_some (w.tasks w.start_task) ≡ true)
    × All (λ t. (c : CompiledTask) × (w.tasks t.id ≡ some c) × IsTranslation t c) diamond
    × All (λ t. (x : ℕ) → elem x (neighbors t) ≡ true → is_some (w.tasks x) ≡ true) diamond
unfolding workflow-result
compile_translates_example =
    compile_translates no_hash workflow workflow-result (compile_decides no_hash workflow).1
      workflow-IsWellFormed
