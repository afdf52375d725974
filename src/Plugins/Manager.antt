-- ===== src/Plugins/Manager.antt =====
-- runtime/plugins/plugin-manager.ts: loading plugins into the registries, and their end. Hooks are
-- functions on what they can reach, which settle.
pub mod Loading
pub mod Fresh
use distributed_task_platfor.Prelude.{
  ℕ, String, Bool, true, false, Option, none, some, is_some, List, [], ◌∷◌, ◌++◌, map, str_eq, ◌==◌,
  if◌then◌else◌,
}
use distributed_task_platfor.Jobs.{Error, message}
use distributed_task_platfor.Effects.{Settled, resolved, rejected}
use distributed_task_platfor.Plugins.Dag.{Plugin}
use distributed_task_platfor.Plugins.Registry.{
  Entries, has_key, set_entry, values, register_first, identifier, HandlerDefinition,
  HandlerRegistry, Registration, stored, refused, register,
}

module _ (Implementation Value : Type 0) where
  -- The registries that a plugin's `initialize` gets.
  pub record Registries : Type 0 where
    pub schemas : Entries Value
    pub auth_providers : Entries Value
    pub template_filters : Entries Value
    pub expression_operators : Entries Value

  -- PluginDefinition; an absent list is empty. A schema, provider, filter or operator is its id or
  -- name, if it has one, and its value. `node` is what the PluginDAG reads.
  pub record PluginDefinition : Type 0 where
    pub node : Plugin
    pub id : String
    pub version : String
    pub handlers : List (HandlerDefinition × Implementation)
    pub schemas : List (Option String × Value)
    pub auth_providers : List (Option String × Value)
    pub template_filters : List (Option String × Value)
    pub expression_operators : List (Option String × Value)
    pub initialize : Option (Registries → Settled (Unit {0}) × Registries)
    pub ready : Option (Settled (Unit {0}))
    pub shutdown : Option (Settled (Unit {0}))
    pub dispose : Option (Settled (Unit {0}))

  pub record PluginManager : Type 0 where
    pub plugins : Entries PluginDefinition
    pub handlers : HandlerRegistry Implementation
    pub registries : Registries

  -- How a call ends: it returns, or throws; the state that it leaves either way.
  abbrev pub Ended : Type 0
  Ended = Settled (Unit {0}) × PluginManager

  -- `if (x.id) registry.register(x.id, x)`, for each element.
  abbrev pub register_named : List (Option String × Value) → Entries Value → Entries Value
  register_named [] es = es
  register_named ((none, v) ∷ xs) es = register_named xs es
  register_named ((some k, v) ∷ xs) es =
      register_named xs (if str_eq k "" then es else register_first k v es)

  abbrev pub register_others : PluginDefinition → Registries → Registries
  register_others p r = record {
    schemas = register_named p.schemas r.schemas;
    auth_providers = register_named p.auth_providers r.auth_providers;
    template_filters = register_named p.template_filters r.template_filters;
    expression_operators = register_named p.expression_operators r.expression_operators;
  }

  -- The loop over the handlers: it stops at the first that is refused.
  abbrev pub after_register :
      Registration Implementation
      → HandlerRegistry Implementation
      → (HandlerRegistry Implementation → Settled (Unit {0}) × HandlerRegistry Implementation)
      → Settled (Unit {0}) × HandlerRegistry Implementation
  after_register (stored r') r next = next r'
  after_register (refused m) r next = (rejected (message m), r)

  unfoldable pub register_handlers :
      List (HandlerDefinition × Implementation)
      → HandlerRegistry Implementation
      → Settled (Unit {0}) × HandlerRegistry Implementation
  register_handlers [] r = (resolved tt, r)
  register_handlers ((d, i) ∷ hs) r =
      after_register (register Implementation d i r) r (λ r'. register_handlers hs r')

  abbrev pub plugin_identifier : PluginDefinition → String
  plugin_identifier p = identifier p.id p.version

  abbrev pub with_handlers :
      PluginDefinition → PluginManager → Settled (Unit {0}) × HandlerRegistry Implementation → Ended
  with_handlers p m (rejected e, hs) = (rejected e, record m { handlers = hs })
  with_handlers p m (resolved _, hs) = (
    resolved tt,
    record {
      plugins = set_entry (plugin_identifier p) p m.plugins;
      handlers = hs;
      registries = register_others p m.registries;
    },
  )

  -- What is left of initializePlugin after the hook.
  abbrev pub after_hook : PluginDefinition → PluginManager → Settled (Unit {0}) × Registries → Ended
  after_hook p m (rejected e, r) = (rejected e, record m { registries = r })
  after_hook p m (resolved _, r) =
      with_handlers p (record m { registries = r }) (register_handlers p.handlers m.handlers)

  abbrev pub run_hook :
      Option (Registries → Settled (Unit {0}) × Registries)
      → Registries
      → Settled (Unit {0}) × Registries
  run_hook none r = (resolved tt, r)
  run_hook (some f) r = f r

  -- initializePlugin
  unfoldable pub initialize_plugin : PluginDefinition → PluginManager → Ended
  unfolding register_handlers
  initialize_plugin p m =
      if has_key (plugin_identifier p) m.plugins
      then (resolved tt, m)
      else after_hook p m (run_hook p.initialize m.registries)

  -- The loop of loadAll, which ends at the first plugin that throws.
  abbrev pub and_then : Ended → (PluginManager → Ended) → Ended
  and_then (resolved _, m) next = next m
  and_then (rejected e, m) next = (rejected e, m)

  unfoldable pub load_ordered : List PluginDefinition → PluginManager → Ended
  unfolding initialize_plugin
  load_ordered [] m = (resolved tt, m)
  load_ordered (p ∷ ps) m = and_then (initialize_plugin p m) (λ m'. load_ordered ps m')

  -- A loop that awaits one hook of each plugin, and ends at the first that rejects.
  abbrev pub first_rejection :
      (PluginDefinition → Option (Settled (Unit {0}))) → List PluginDefinition → Settled (Unit {0})
  first_rejection hook [] = resolved tt
  first_rejection hook (p ∷ ps) = elim (hook p) [
    | some (rejected e) ↦ rejected e
    | some (resolved _) ↦ first_rejection hook ps
    | none ↦ first_rejection hook ps
  ]

  unfoldable pub ready_all : PluginManager → Ended
  ready_all m = (first_rejection (λ p. p.ready) (values m.plugins), m)

  unfoldable pub shutdown_all : PluginManager → Ended
  shutdown_all m = (first_rejection (λ p. p.shutdown) (values m.plugins), m)

  -- disposeAll: the map is cleared only if no hook rejects.
  abbrev pub after_dispose : Settled (Unit {0}) → PluginManager → Ended
  after_dispose (rejected e) m = (rejected e, m)
  after_dispose (resolved _) m = (resolved tt, record m { plugins = [] })

  unfoldable pub dispose_all : PluginManager → Ended
  dispose_all m = after_dispose (first_rejection (λ p. p.dispose) (values m.plugins)) m
