-- ===== src/Builder/Commands.antt =====
-- commands/node-commands.ts, commands/edge-commands.ts, history/history-manager.ts and the store of
-- state/builder-store.ts of apps/dashboard/src/builder. A command is an object with fields that
-- `execute` writes, so `execute` also gives the command back. Stacks have their top first.
use distributed_task_platfor.Prelude.{
  ℕ, Bool, not, ◌||◌, Option, none, some, List, [], ◌∷◌, ◌++◌, map, length, ltb, ◌==◌, opt_eq,
  if◌then◌else◌,
}
use distributed_task_platfor.Builder.Canvas.{
  Position, CanvasNode, CanvasEdge, BuilderState, filter, find_index, at_index, splice_in,
}

pub data Command : Type 0 where
  add_node : CanvasNode → Command
  delete_node :
      (node_id : ℕ) (node_index : Option ℕ) (deleted_node : Option CanvasNode)
      (deleted_edges : List CanvasEdge)
      → Command
  move_node : (node_id : ℕ) (new_position old_position : Position) → Command
  connect_edge : CanvasEdge → Command
  disconnect_edge :
      (edge_id : ℕ) (edge_index : Option ℕ) (deleted_edge : Option CanvasEdge) → Command

-- e.source === id || e.target === id
abbrev pub touches : ℕ → CanvasEdge → Bool
touches id e = e.source == id || e.target == id

abbrev pub move_to : ℕ → Position → CanvasNode → CanvasNode
move_to id p n = if n.id == id then record n { position = p } else n

abbrev pub moved : ℕ → Position → BuilderState → BuilderState
moved id p s = record s { nodes = map (move_to id p) s.nodes }

-- DeleteNodeCommand.execute, by the index that it found
abbrev pub delete_at :
    ℕ → Option CanvasNode → List CanvasEdge → Option ℕ → BuilderState → Command × BuilderState
delete_at id was edges none s = (delete_node id none was edges, s)
delete_at id was edges (some i) s = (
  delete_node id (some i) (at_index i s.nodes) (filter (touches id) s.edges),
  record s {
    nodes = filter (λ n. not (n.id == id)) s.nodes;
    edges = filter (λ e. not (touches id e)) s.edges;
    selected_node_id = if opt_eq s.selected_node_id (some id) then none else s.selected_node_id;
  },
)

-- DisconnectEdgeCommand.execute, by the index that it found
abbrev pub disconnect_at : ℕ → Option CanvasEdge → Option ℕ → BuilderState → Command × BuilderState
disconnect_at id edge none s = (disconnect_edge id none edge, s)
disconnect_at id edge (some i) s = (
  disconnect_edge id (some i) (at_index i s.edges),
  record s { edges = filter (λ e. not (e.id == id)) s.edges },
)

-- command.execute(state)
abbrev pub execute : Command → BuilderState → Command × BuilderState
execute (add_node n) s = (add_node n, record s { nodes = s.nodes ++ n ∷ [] })
execute (delete_node id index was edges) s =
    delete_at id was edges (find_index (λ n. n.id == id) s.nodes) s
execute (move_node id new old) s = (move_node id new old, moved id new s)
execute (connect_edge e) s = (connect_edge e, record s { edges = s.edges ++ e ∷ [] })
execute (disconnect_edge id index edge) s =
    disconnect_at id edge (find_index (λ e. e.id == id) s.edges) s

-- command.undo(state)
abbrev pub undo : Command → BuilderState → BuilderState
undo (add_node n) s = record s { nodes = filter (λ m. not (m.id == n.id)) s.nodes }
undo (delete_node id index none edges) s = s
undo (delete_node id index (some n) edges) s = record s {
  nodes = splice_in index n s.nodes;
  edges = s.edges ++ edges;
}
undo (move_node id new old) s = moved id old s
undo (connect_edge e) s = record s { edges = filter (λ f. not (f.id == e.id)) s.edges }
undo (disconnect_edge id index none) s = s
undo (disconnect_edge id index (some e)) s = record s { edges = splice_in index e s.edges }

-- The store: the state and the two stacks of its HistoryManager.
pub record Store : Type 0 where
  pub state : BuilderState
  pub undo_stack : List Command
  pub redo_stack : List Command

abbrev pub max_history : ℕ
max_history = 50

-- undoStack.shift(): the bottom of the stack goes.
abbrev pub drop_oldest : List Command → List Command
drop_oldest [] = []
drop_oldest (c ∷ []) = []
drop_oldest (c ∷ d ∷ cs) = c ∷ drop_oldest (d ∷ cs)

-- HistoryManager.push
abbrev pub push : Command → List Command → List Command
push c cs = if ltb max_history (length (c ∷ cs)) then drop_oldest (c ∷ cs) else c ∷ cs

-- dispatch
unfoldable pub dispatch_command : Command → Store → Store
dispatch_command c st = record {
  state = (execute c st.state).1;
  undo_stack = push (execute c st.state).0 st.undo_stack;
  redo_stack = [];
}

abbrev pub undo_from : List Command → Store → Store
undo_from [] st = st
undo_from (c ∷ cs) st = record {
  state = undo c st.state;
  undo_stack = cs;
  redo_stack = c ∷ st.redo_stack;
}

-- undo of the store, with popUndo
unfoldable pub undo_last : Store → Store
undo_last st = undo_from st.undo_stack st

abbrev pub redo_from : List Command → Store → Store
redo_from [] st = st
redo_from (c ∷ cs) st = record {
  state = (execute c st.state).1;
  undo_stack = (execute c st.state).0 ∷ st.undo_stack;
  redo_stack = cs;
}

-- redo of the store, with popRedo
unfoldable pub redo_last : Store → Store
redo_last st = redo_from st.redo_stack st
