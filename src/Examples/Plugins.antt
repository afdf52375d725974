-- ===== src/Examples/Plugins.antt =====
-- Three plugins, the first of which needs the two others.
use distributed_task_platfor.Prelude.{ℕ, ◌≡◌, refl, List, [], ◌∷◌}
use distributed_task_platfor.Plugins.Dag.{
  Plugin, no_plugins, add_nodes, Visit, visiting, failed, out_of_depth, visit_deps, check_conflicts,
  visit, visit_all, resolve_order,
}
use distributed_task_platfor.Plugins.Order.{ids}
use distributed_task_platfor.Plugins.Resolved.{IsResolved, resolve_order_correct}

abbrev three : List Plugin
three =
    record { id = 1; depends_on = 2 ∷ 3 ∷ []; conflicts = [] }
    ∷ record { id = 2; depends_on = 3 ∷ []; conflicts = 9 ∷ [] }
    ∷ record { id = 3; depends_on = []; conflicts = [] }
    ∷ []

order_of : Visit → List ℕ
order_of (visiting s) = ids s.order
order_of (failed e) = []
order_of out_of_depth = []

three-order : order_of (resolve_order (add_nodes three no_plugins)) ≡ 3 ∷ 2 ∷ 1 ∷ []
unfolding order_of resolve_order visit_all visit visit_deps check_conflicts
three-order = refl

resolve_order_correct_example :
    IsResolved (add_nodes three no_plugins) (resolve_order (add_nodes three no_plugins))
resolve_order_correct_example = resolve_order_correct three
