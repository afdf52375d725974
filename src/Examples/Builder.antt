-- ===== src/Examples/Builder.antt =====
-- One node of two is deleted on the canvas.
use distributed_task_platfor.Prelude.{ℕ, ◌≡◌, refl, inl, inr, none, some, [], ◌∷◌}
use distributed_task_platfor.Builder.Canvas.{CanvasNode}
use distributed_task_platfor.Builder.Commands.{
  Command, delete_node, Store, dispatch_command, undo_last, redo_last,
}
use distributed_task_platfor.Builder.Undo.{undo_redo_dispatch}

abbrev box : ℕ → CanvasNode
box id = record {
  id = id;
  plugin_id = "core/http";
  position = record { x = 10; y = 20 };
  name = some "fetch";
  config = "{}";
}

abbrev canvas : Store
canvas = record {
  state = record {
    nodes = box 1 ∷ box 2 ∷ [];
    edges = [];
    selected_node_id = some 1;
    validation_errors = [];
  };
  undo_stack = [];
  redo_stack = [];
}

abbrev delete_2 : Command
delete_2 = delete_node 2 none none []

undo_redo_dispatch_example :
    ((undo_last (dispatch_command delete_2 canvas)).state ≡ canvas.state)
    × ((redo_last (undo_last (dispatch_command delete_2 canvas))).state
        ≡ (dispatch_command delete_2 canvas).state)
undo_redo_dispatch_example =
    undo_redo_dispatch delete_2 canvas (inr (refl, inl (refl, refl)), refl, refl)
