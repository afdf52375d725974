-- ===== src/Examples/Clipboard.antt =====
-- Two joined nodes on the canvas, copied, duplicated and deleted.
use distributed_task_platfor.Prelude.{ℕ, ◌+◌, ◌≡◌, refl, none, some, [], ◌∷◌}
use mathlib.Core.List.{Perm}
use distributed_task_platfor.Builder.Canvas.{CanvasNode, BuilderState}
use distributed_task_platfor.Builder.Clipboard.{
  Clipboard, copy_selection, paste, duplicate, undo_copies, delete_selection, undo_delete_selection,
}
use distributed_task_platfor.Builder.Copies.{undo-copies}
use distributed_task_platfor.Builder.Deletion.{undo-delete_selection}

abbrev card : ℕ → CanvasNode
card id = record {
  id = id;
  plugin_id = "core/http";
  position = record { x = 10; y = 20 };
  name = some "fetch";
  config = "{}";
}

abbrev joined : BuilderState
joined = record {
  nodes = card 1 ∷ card 2 ∷ [];
  edges = record { id = 1; source = 1; target = 2 } ∷ [];
  selected_node_id = some 1;
  validation_errors = [];
}

abbrev copied : Clipboard
copied = copy_selection (1 ∷ 2 ∷ []) joined

abbrev id_of : ℕ → ℕ
id_of i = 100 + i

-- The copied edge joins the copied nodes.
paste_test :
    (paste id_of id_of copied [] joined).1.edges
    ≡ record { id = 1; source = 1; target = 2 }
      ∷ record { id = 100; source = 100; target = 101 }
      ∷ []
unfolding paste
paste_test = refl

undo-copies_example :
    (undo_copies (paste id_of id_of copied [] joined).0 (paste id_of id_of copied [] joined).1
      ≡ joined)
    × (undo_copies
          (duplicate id_of id_of (2 ∷ []) [] joined).0
          (duplicate id_of id_of (2 ∷ []) [] joined).1
        ≡ joined)
unfolding paste duplicate
undo-copies_example =
    undo-copies id_of id_of copied (2 ∷ []) [] joined ((refl, (refl, tt)), (refl, tt))
      ((refl, (refl, tt)), (refl, tt))

-- A deleted first node comes back as the last one, and is not selected any more.
undo_delete_selection_test :
    undo_delete_selection (delete_selection (1 ∷ []) joined).0 (delete_selection (1 ∷ []) joined).1
    ≡ record joined { nodes = card 2 ∷ card 1 ∷ []; selected_node_id = none }
unfolding delete_selection undo_delete_selection
undo_delete_selection_test = refl

undo-delete_selection_example :
    Perm
      (undo_delete_selection
        (delete_selection (1 ∷ []) joined).0
        (delete_selection (1 ∷ []) joined).1).nodes
      joined.nodes
    × Perm
        (undo_delete_selection
          (delete_selection (1 ∷ []) joined).0
          (delete_selection (1 ∷ []) joined).1).edges
        joined.edges
undo-delete_selection_example = undo-delete_selection (1 ∷ []) joined
