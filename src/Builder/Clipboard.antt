-- ===== src/Builder/Clipboard.antt =====
-- commands/clipboard-commands.ts of apps/dashboard/src/builder. A command's fields that `execute`
-- writes are an argument of `execute` and part of its result; the clipboard of the module is an
-- argument too. `new_node i` stands for the id `node-${now}-${i}` at the time of one run, and
-- `new_edge i` for `edge-${now}-${i}`.
use distributed_task_platfor.Prelude.{
  ℕ, suc, ◌+◌, String, Bool, not, ◌&&◌, ◌||◌, Option, none, some, List, [], ◌∷◌, ◌++◌, elem, ◌==◌,
  str_eq, if◌then◌else◌,
}
use Prim.Native.String.{◌++◌ as ◌+++◌}
use distributed_task_platfor.Builder.Canvas.{Position, CanvasNode, CanvasEdge, BuilderState, filter}

pub record Clipboard : Type 0 where
  pub nodes : List CanvasNode
  pub edges : List CanvasEdge

-- selectedSet.has(n.id)
abbrev pub selected : List ℕ → CanvasNode → Bool
selected ids n = elem n.id ids

abbrev pub joins_two : List ℕ → CanvasEdge → Bool
joins_two ids e = elem e.source ids && elem e.target ids

abbrev pub touches_one : List ℕ → CanvasEdge → Bool
touches_one ids e = elem e.source ids || elem e.target ids

abbrev pub touches_none : List ℕ → CanvasEdge → Bool
touches_none ids e = not (elem e.source ids) && not (elem e.target ids)

-- CopySelectionCommand.execute: what it writes to the clipboard.
abbrev pub copy_selection : List ℕ → BuilderState → Clipboard
copy_selection ids s = record {
  nodes = filter (selected ids) s.nodes;
  edges = filter (joins_two ids) s.edges;
}

abbrev pub shifted : Position → Position
shifted p = record { x = p.x + 40; y = p.y + 40 }

-- idMapping.get(id): the last entry set for an id counts.
abbrev pub or_entry : Option ℕ → Bool → ℕ → Option ℕ
or_entry (some v) same w = some v
or_entry none same w = if same then some w else none

abbrev pub get_mapped : ℕ → List (ℕ × ℕ) → Option ℕ
get_mapped id [] = none
get_mapped id ((k, v) ∷ m) = or_entry (get_mapped id m) (k == id) v

-- An edge between mapped ends, which is kept and joined to the new nodes.
abbrev pub joined_to : Option ℕ → Option ℕ → CanvasEdge → List CanvasEdge → List CanvasEdge
joined_to none b e es = es
joined_to (some a) none e es = es
joined_to (some a) (some b) e es = record e { source = a; target = b } ∷ es

abbrev pub reconnected : List (ℕ × ℕ) → List CanvasEdge → List CanvasEdge
reconnected m [] = []
reconnected m (e ∷ es) =
    joined_to (get_mapped e.source m) (get_mapped e.target m) e (reconnected m es)

abbrev pub same_name : Option String → Option String
same_name n = n

-- n.data.name ? `${n.data.name} (copy)` : undefined
abbrev pub copy_name : Option String → Option String
copy_name none = none
copy_name (some n) = if str_eq n "" then none else some (n +++ " (copy)")

module _ (new_node : ℕ → ℕ) where
  -- The ids that the nodes from number i on get.
  abbrev pub new_ids : ℕ → List CanvasNode → List ℕ
  new_ids i [] = []
  new_ids i (n ∷ ns) = new_node i ∷ new_ids (suc i) ns

  abbrev pub id_mapping : ℕ → List CanvasNode → List (ℕ × ℕ)
  id_mapping i [] = []
  id_mapping i (n ∷ ns) = (n.id, new_node i) ∷ id_mapping (suc i) ns

  abbrev pub copied_nodes : (Option String → Option String) → ℕ → List CanvasNode → List CanvasNode
  copied_nodes rename i [] = []
  copied_nodes rename i (n ∷ ns) =
      record n { id = new_node i; position = shifted n.position; name = rename n.name }
      ∷ copied_nodes rename (suc i) ns

module _ (new_edge : ℕ → ℕ) where
  abbrev pub numbered : ℕ → List CanvasEdge → List CanvasEdge
  numbered i [] = []
  numbered i (e ∷ es) = record e { id = new_edge i } ∷ numbered (suc i) es

module _ (new_node new_edge : ℕ → ℕ) where
  -- What PasteCommand and DuplicateCommand add for nodes and edges, with the command's list of ids.
  abbrev pub with_copies :
      (Option String → Option String)
      → List CanvasNode
      → List CanvasEdge
      → List ℕ
      → BuilderState
      → List ℕ × BuilderState
  with_copies rename [] edges ids s = (ids, s)
  with_copies rename (n ∷ ns) edges ids s = (
    ids ++ new_ids new_node 0 (n ∷ ns),
    record s {
      nodes = s.nodes ++ copied_nodes new_node rename 0 (n ∷ ns);
      edges = s.edges ++ numbered new_edge 0 (reconnected (id_mapping new_node 0 (n ∷ ns)) edges);
    },
  )

  -- PasteCommand.execute
  unfoldable pub paste : Clipboard → List ℕ → BuilderState → List ℕ × BuilderState
  paste c ids s = with_copies same_name c.nodes c.edges ids s

  -- DuplicateCommand.execute
  unfoldable pub duplicate : List ℕ → List ℕ → BuilderState → List ℕ × BuilderState
  duplicate chosen ids s =
      with_copies copy_name (filter (selected chosen) s.nodes) (filter (joins_two chosen) s.edges)
        ids s

-- PasteCommand.undo and DuplicateCommand.undo
unfoldable pub undo_copies : List ℕ → BuilderState → BuilderState
undo_copies ids s = record s {
  nodes = filter (λ n. not (selected ids n)) s.nodes;
  edges = filter (touches_none ids) s.edges;
}

-- selectedSet.has(state.selectedNodeId || '') ? null : state.selectedNodeId
abbrev pub still_selected : List ℕ → Option ℕ → Option ℕ
still_selected ids none = none
still_selected ids (some id) = if elem id ids then none else some id

-- DeleteSelectionCommand.execute
unfoldable pub delete_selection : List ℕ → BuilderState → Clipboard × BuilderState
delete_selection ids s = (
  record { nodes = filter (selected ids) s.nodes; edges = filter (touches_one ids) s.edges },
  record s {
    nodes = filter (λ n. not (selected ids n)) s.nodes;
    edges = filter (touches_none ids) s.edges;
    selected_node_id = still_selected ids s.selected_node_id;
  },
)

-- DeleteSelectionCommand.undo
unfoldable pub undo_delete_selection : Clipboard → BuilderState → BuilderState
undo_delete_selection c s = record s { nodes = s.nodes ++ c.nodes; edges = s.edges ++ c.edges }
