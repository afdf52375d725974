-- ===== src/Examples/Registry.antt =====
-- Handlers "a@1" and "b@1", implemented by numbers, and plugins that bring them.
use distributed_task_platfor.Prelude.{ℕ, ◌≡◌, refl, inl, inr, String, none, some, List, [], ◌∷◌}
use distributed_task_platfor.Effects.{resolved}
use distributed_task_platfor.Plugins.Registry.{HandlerDefinition, empty_registry, register}
use distributed_task_platfor.Plugins.Registry.Refinement.{
  Table, Represents, register_all, table_register_all, register_all_refines,
}
use distributed_task_platfor.Plugins.Manager.{PluginDefinition, PluginManager, initialize_plugin}
use distributed_task_platfor.Plugins.Manager.Loading.{IsRejected, attempt_all, failed_load_is_final}
use distributed_task_platfor.Plugins.Manager.Fresh.{Loaded, initialize_plugin_loads}

abbrev handler_a : HandlerDefinition
handler_a = record { id = "a"; version = "1"; category = "core"; retry = none }

abbrev handler_b : HandlerDefinition
handler_b = record { id = "b"; version = "1"; category = "core"; retry = none }

abbrev attempts : List (HandlerDefinition × ℕ)
attempts = (handler_a, 1) ∷ (handler_b, 2) ∷ (handler_a, 3) ∷ []

abbrev no_table : Table ℕ
no_table k = none

register_all_refines_example :
    ((register_all ℕ attempts (empty_registry ℕ)).0 ≡ (table_register_all ℕ attempts no_table).0)
    × Represents ℕ
        (register_all ℕ attempts (empty_registry ℕ)).1
        (table_register_all ℕ attempts no_table).1
register_all_refines_example =
    register_all_refines ℕ attempts (empty_registry ℕ) no_table
      (record { finds = λ k. refl; resolves = λ k. refl })

abbrev plugin_with : String → List (HandlerDefinition × ℕ) → PluginDefinition ℕ String
plugin_with id handlers = record {
  node = record { id = 1; depends_on = []; conflicts = [] };
  id = id;
  version = "1";
  handlers = handlers;
  schemas = (some "s", "{}") ∷ [];
  auth_providers = [];
  template_filters = [];
  expression_operators = [];
  initialize = none;
  ready = none;
  shutdown = none;
  dispose = none;
}

abbrev no_manager : PluginManager ℕ String
no_manager = record {
  plugins = [];
  handlers = empty_registry ℕ;
  registries = record {
    schemas = [];
    auth_providers = [];
    template_filters = [];
    expression_operators = [];
  };
}

abbrev two_handlers : PluginDefinition ℕ String
two_handlers = plugin_with "p" ((handler_a, 1) ∷ (handler_b, 2) ∷ [])

initialize_plugin_loads_example :
    let (r, m) = initialize_plugin ℕ String two_handlers no_manager in
    (r ≡ resolved tt)
    × Loaded ℕ String two_handlers no_manager m
    × (initialize_plugin ℕ String two_handlers m ≡ (resolved tt, m))
initialize_plugin_loads_example =
    initialize_plugin_loads ℕ String two_handlers no_manager refl refl
      (refl, (refl, tt), (refl, tt, tt))

-- A plugin that brings one handler twice.
abbrev clashing : PluginDefinition ℕ String
clashing = plugin_with "q" ((handler_a, 1) ∷ (handler_a, 2) ∷ [])

clashing_fails : IsRejected (initialize_plugin ℕ String clashing no_manager).0
unfolding initialize_plugin register
clashing_fails = tt

failed_load_is_final_example :
    IsRejected
      (initialize_plugin ℕ String clashing (
        attempt_all ℕ String
          (two_handlers ∷ clashing ∷ [])
          (initialize_plugin ℕ String clashing no_manager).1)).0
failed_load_is_final_example =
    failed_load_is_final ℕ String clashing no_manager (two_handlers ∷ clashing ∷ []) refl refl
      clashing_fails (inl refl, (inr refl, tt))
