-- ===== src/Workflow/Definition.antt =====
-- The definitions that runtime/workflow/compilation-service.ts compiles, with the fields that it
-- reads (the package that declares them is not part of the repository), and its diagnostics. Task
-- ids are compared only for equality and are numbers here; an empty default route is absent. An
-- absent object of conditional routes is `none`.
use distributed_task_platfor.Prelude.{
  ℕ, String, Bool, false, ◌||◌, ◌==◌, Option, none, some, List, [], ◌∷◌, ◌++◌, map,
}

-- A configuration value: a string, or the JSON text of any other value.
pub data Value : Type 0 where
  string json : String → Value

-- TaskDefinition, with Object.entries(routes.conditional), in the object's order.
pub record Task : Type 0 where
  pub id : ℕ
  pub name : String
  pub plugin_id : String
  pub config : List (String × Value)
  pub default_route : Option ℕ
  pub conditional : Option (List (String × ℕ))

pub record Definition : Type 0 where
  pub id : ℕ
  pub version : ℕ
  pub entry_task_id : ℕ
  pub tasks : List Task

abbrev pub entries : Option (List (String × ℕ)) → List (String × ℕ)
entries none = []
entries (some es) = es

abbrev pub default_targets : Option ℕ → List ℕ
default_targets none = []
default_targets (some id) = id ∷ []

-- The array `neighbors` of both searches.
unfoldable pub neighbors : Task → List ℕ
neighbors t = default_targets t.default_route ++ map (λ e. e.1) (entries t.conditional)

-- taskMap.has(id), for the map of all tasks.
abbrev pub declared : ℕ → List Task → Bool
declared id [] = false
declared id (t ∷ ts) = t.id == id || declared id ts

-- The diagnostics, with the values that their messages and locations are made of.
pub data Diagnostic : Type 0 where
  empty_workflow : Diagnostic
  invalid_entry_task : ℕ → Diagnostic
  invalid_default_route : (task target : ℕ) → Diagnostic
  invalid_conditional_route : (task : ℕ) (outcome : String) (target : ℕ) → Diagnostic
  duplicate_task_id : ℕ → Diagnostic
  cycle_detected : (task neighbor : ℕ) → Diagnostic
  unreachable_task : ℕ → Diagnostic
  incomplete_condition : ℕ → Diagnostic
