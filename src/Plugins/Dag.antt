-- ===== src/Plugins/Dag.antt =====
-- PluginDAG of runtime/plugins/dag.ts. Plugin ids are numbers, compared only for equality; of a
-- plugin only the fields that the class reads are kept. The Map of plugins is its keys in order of
-- insertion, and a function; a missing key of `adjacencyList` reads as no dependencies.
use distributed_task_platfor.Prelude.{
  ℕ, zero, suc, ◌+◌, Bool, true, false, Option, none, some, is_some, List, [], ◌∷◌, ◌++◌, length,
  ◌==◌, if◌then◌else◌,
}

-- PluginDefinition; an absent list is empty.
pub record Plugin : Type 0 where
  pub id : ℕ
  pub depends_on : List ℕ
  pub conflicts : List ℕ

abbrev pub put {ℓ} : {A : Type ℓ} → ℕ → A → (ℕ → A) → ℕ → A
put k a m x = if x == k then a else m x

pub record PluginDag : Type 0 where
  pub keys : List ℕ
  pub plugins : ℕ → Option Plugin
  pub adjacency : ℕ → List ℕ

abbrev pub no_plugins : PluginDag
no_plugins = record { keys = []; plugins = λ _. none; adjacency = λ _. [] }

-- this.plugins.has(id)
abbrev pub has : PluginDag → ℕ → Bool
has g id = is_some (g.plugins id)

-- addNode: a second plugin of the same id takes the place of the first and adds its dependencies.
abbrev pub add_node : Plugin → PluginDag → PluginDag
add_node p g = record {
  keys = if has g p.id then g.keys else g.keys ++ p.id ∷ [];
  plugins = put p.id (some p) g.plugins;
  adjacency = put p.id (g.adjacency p.id ++ p.depends_on) g.adjacency;
}

abbrev pub add_nodes : List Plugin → PluginDag → PluginDag
add_nodes [] g = g
add_nodes (p ∷ ps) g = add_nodes ps (add_node p g)

-- The ExecutionErrors of resolveOrder, and the TypeError of reading a plugin that is not there.
pub data DagError : Type 0 where
  circular_dependency : ℕ → DagError
  missing_dependency : (dep required_by : ℕ) → DagError
  conflicting_plugins : (id conflict : ℕ) → DagError
  no_plugin : ℕ → DagError

pub record Progress : Type 0 where
  pub visited : ℕ → Bool
  pub in_progress : ℕ → Bool
  pub order : List Plugin

-- A visit's end; `out_of_depth` says that the depth of calls has run out.
pub data Visit : Type 0 where
  visiting : Progress → Visit
  failed : DagError → Visit
  out_of_depth : Visit

abbrev pub then_visit : Visit → (Progress → Visit) → Visit
then_visit (visiting s) next = next s
then_visit (failed e) next = failed e
then_visit out_of_depth next = out_of_depth

abbrev pub enter : ℕ → Progress → Progress
enter id s = record s { in_progress = put id true s.in_progress }

abbrev pub leave : ℕ → Plugin → Progress → Progress
leave id p s = record {
  visited = put id true s.visited;
  in_progress = put id false s.in_progress;
  order = s.order ++ p ∷ [];
}

module _ (g : PluginDag) where
  -- The loop over the dependencies, with the recursive call as `visit_of`.
  unfoldable pub visit_deps : (ℕ → Progress → Visit) → ℕ → List ℕ → Progress → Visit
  visit_deps visit_of id [] s = visiting s
  visit_deps visit_of id (dep ∷ deps) s =
      if has g dep
      then then_visit (visit_of dep s) (visit_deps visit_of id deps)
      else failed (missing_dependency dep id)

  -- The loop over the conflicts, and what follows it.
  unfoldable pub check_conflicts : ℕ → Plugin → List ℕ → Progress → Visit
  check_conflicts id p [] s = visiting (leave id p s)
  check_conflicts id p (c ∷ cs) s =
      if has g c then failed (conflicting_plugins id c) else check_conflicts id p cs s

  -- this.plugins.get(nodeId)! and what follows it.
  abbrev pub with_plugin : ℕ → Option Plugin → Progress → Visit
  with_plugin id none s = failed (no_plugin id)
  with_plugin id (some p) s = check_conflicts id p p.conflicts s

  -- visit, to a depth of calls
  unfoldable pub visit : ℕ → ℕ → Progress → Visit
  visit zero id s = out_of_depth
  visit (suc depth) id s =
      if s.in_progress id
      then failed (circular_dependency id)
      else if s.visited id
      then visiting s
      else then_visit (visit_deps (visit depth) id (g.adjacency id) (enter id s))
          (with_plugin id (g.plugins id))

  unfoldable pub visit_all : ℕ → List ℕ → Progress → Visit
  visit_all depth [] s = visiting s
  visit_all depth (id ∷ ids) s =
      if s.visited id
      then visit_all depth ids s
      else then_visit (visit depth id s) (visit_all depth ids)

  -- resolveOrder
  unfoldable pub resolve_order : Visit
  resolve_order =
      visit_all (1 + length g.keys) g.keys
        (record { visited = λ _. false; in_progress = λ _. false; order = [] })
