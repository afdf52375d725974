-- ===== src/Workflow/Translation.antt =====
-- compile of runtime/workflow/compilation-service.ts: what a compiled task keeps of its task.
use distributed_task_platfor.Prelude.{
  ℕ, ◌≡◌, refl, sym, ap, ◌∙◌, inl, inr, String, false, Option, none, some, List, [], ◌∷◌, str_eq,
  str_eq_iff, Bool-cases, if◌then◌else◌,
}
use distributed_task_platfor.Workflow.Definition.{string, Task, entries}
use distributed_task_platfor.Workflow.Compile.{
  CompiledTask, set_entry, route_entries, kept_table, compile_task,
}
use distributed_task_platfor.Plugins.Registry.{Entries, lookup}
use distributed_task_platfor.Plugins.Registry.Refinement.{lookup-set_entry}
use distributed_task_platfor.Plugins.Registry as Registry

module _ {A : Type 0} where
  -- The value of a key after the entries of a list were written one after another.
  abbrev pub written : Option A → String → List (String × A) → Option A
  written before k [] = before
  written before k ((k', a) ∷ es) = written (if str_eq k' k then some a else before) k es

  set_entry_same :
      (k : String) (a : A) (es : Entries A) → set_entry k a es ≡ Registry.set_entry k a es
  set_entry_same k a [] = refl
  set_entry_same k a ((k', b) ∷ es) = elim (Bool-cases (str_eq k' k)) [
    | inl same ↦ rw same (ap (λ x. (x, a) ∷ es) (sym ((str_eq_iff k' k).0 same)))
    | inr other ↦ rw other (ap (λ xs. (k', b) ∷ xs) (set_entry_same k a es))
  ]

  lookup_written :
      (key k : String) (a : A) (es : Entries A)
      → lookup k (set_entry key a es) ≡ (if str_eq key k then some a else lookup k es)
  lookup_written key k a es = ap (lookup k) (set_entry_same key a es) ∙ lookup-set_entry key k a es

-- What the compiler promises of one task: its id, plugin and default route; a routing table in which
-- an outcome leads where the last conditional route of that outcome leads, if there is one; and its
-- config as metadata, with the task's name as "name".
pub record IsTranslation (t : Task) (c : CompiledTask) : Type 0 where
  pub same_id : c.id ≡ t.id
  pub same_plugin : c.plugin_id ≡ t.plugin_id
  pub same_default : c.default_route ≡ t.default_route
  pub routes :
      (outcome : String)
      → lookup outcome (entries c.routing_table) ≡ written none outcome (entries t.conditional)
  pub named : lookup "name" c.metadata ≡ some (string t.name)
  pub configured : (k : String) → str_eq "name" k ≡ false → lookup k c.metadata ≡ lookup k t.config

entries-kept_table : (table : List (String × ℕ)) → entries (kept_table table) ≡ table
entries-kept_table [] = refl
entries-kept_table (e ∷ es) = refl

lookup-route_entries :
    (k : String) (es table : List (String × ℕ))
    → lookup k (route_entries table es) ≡ written (lookup k table) k es
lookup-route_entries k [] table = refl
lookup-route_entries k ((outcome, target) ∷ es) table =
    lookup-route_entries k es (set_entry outcome target table)
    ∙ ap (λ before. written before k es) (lookup_written outcome k target table)

pub compile_task-IsTranslation : (t : Task) → IsTranslation t (compile_task t)
unfolding compile_task
compile_task-IsTranslation t = record {
  same_id = refl;
  same_plugin = refl;
  same_default = refl;
  routes = λ k.
      ap (lookup k) (entries-kept_table (route_entries [] (entries t.conditional)))
      ∙ lookup-route_entries k (entries t.conditional) [];
  named = lookup_written "name" "name" (string t.name) t.config;
  configured = λ k other. lookup_written "name" k (string t.name) t.config ∙ rw other refl;
}
