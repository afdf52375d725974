-- ===== src/Builder/Validator.antt =====
-- validation/builder-validator.ts of apps/dashboard/src/builder: BuilderValidator.validate.
pub mod Wiring
use distributed_task_platfor.Prelude.{
  ℕ, String, Bool, false, not, ◌&&◌, ◌||◌, List, [], ◌∷◌, ◌++◌, length, ltb, ◌==◌, str_eq,
  if◌then◌else◌,
}
use distributed_task_platfor.Builder.Canvas.{CanvasNode, CanvasEdge, BuilderState, filter}
use distributed_task_platfor.Builder.Commands.{touches}

abbrev pub leaves : ℕ → CanvasEdge → Bool
leaves id e = e.source == id

-- A loop that pushes one message for each node that fails a test.
abbrev pub messages : (CanvasNode → Bool) → String → List CanvasNode → List (ℕ × String)
messages bad m [] = []
messages bad m (n ∷ ns) = let rest = messages bad m ns in if bad n then (n.id, m) ∷ rest else rest

abbrev pub lacks_routes : List CanvasEdge → CanvasNode → Bool
lacks_routes edges n =
    str_eq n.plugin_id "core/condition" && ltb (length (filter (leaves n.id) edges)) 2

-- state.edges.some(e => e.source === node.id || e.target === node.id)
abbrev pub has_connections : List CanvasEdge → CanvasNode → Bool
has_connections [] n = false
has_connections (e ∷ es) n = touches n.id e || has_connections es n

abbrev pub isolated : List CanvasEdge → List CanvasNode → List (ℕ × String)
isolated edges nodes =
    if ltb 1 (length nodes)
    then messages (λ n. not (has_connections edges n)) "Node is disconnected from the workflow."
        nodes
    else []

unfoldable pub validate : BuilderState → List (ℕ × String)
validate s =
    messages (lacks_routes s.edges) "Condition must have true and false routes." s.nodes
    ++ isolated s.edges s.nodes
