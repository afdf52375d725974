-- ===== src/Examples/Validator.antt =====
-- A condition with one route, and a node without edges.
use distributed_task_platfor.Prelude.{ℕ, ◌≡◌, ◌↔◌, refl, String, none, some, [], ◌∷◌}
use distributed_task_platfor.Builder.Canvas.{CanvasNode, BuilderState}
use distributed_task_platfor.Builder.Validator.{validate}
use distributed_task_platfor.Builder.Validator.Wiring.{Wired, validate_decides}

abbrev placed : ℕ → String → CanvasNode
placed id plugin = record {
  id = id;
  plugin_id = plugin;
  position = record { x = 0; y = 0 };
  name = none;
  config = "{}";
}

abbrev one_route : BuilderState
one_route = record {
  nodes = placed 1 "core/condition" ∷ placed 2 "core/http" ∷ placed 3 "core/http" ∷ [];
  edges = record { id = 1; source = 1; target = 2 } ∷ [];
  selected_node_id = some 1;
  validation_errors = [];
}

validate_test :
    validate one_route
    ≡ (1, "Condition must have true and false routes.")
      ∷ (3, "Node is disconnected from the workflow.")
      ∷ []
unfolding validate
validate_test = refl

validate_decides_example : (validate one_route ≡ []) ↔ Wired one_route
validate_decides_example = validate_decides one_route
