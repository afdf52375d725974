-- ===== src/Builder/Undo.antt =====
-- undo and redo of the builder's store, behind one dispatch.
use distributed_task_platfor.Prelude.{
  ℕ, suc, ◌≡◌, ◌⊎◌, inl, inr, refl, sym, ap, ◌∙◌, Bool, true, false, not, Option, none, some, List,
  [], ◌∷◌, ◌++◌, map, length, All, ltb, ◌==◌, ==_refl, opt_eq, Bool-cases, Option-cases,
}
use distributed_task_platfor.Builder.Canvas.{
  Position, CanvasNode, CanvasEdge, BuilderState, filter, next_index, find_index, at_index,
  insert_at,
}
use distributed_task_platfor.Builder.Commands.{
  Command, add_node, delete_node, move_node, connect_edge, disconnect_edge, touches, move_to,
  execute, undo, Store, max_history, drop_oldest, push, dispatch_command, undo_last, redo_last,
}

module _ {A : Type 0} (p : A → Bool) where
  -- Exactly one element passes the test.
  abbrev pub Once : List A → Type 0
  Once [] = ⊥
  Once (x ∷ xs) = ((p x ≡ true) × (find_index p xs ≡ none)) ⊎ ((p x ≡ false) × Once xs)

  next_index-none : (o : Option ℕ) → next_index o ≡ none → o ≡ none
  next_index-none none e = refl
  next_index-none (some i) e = absurd (cc e)

  filter-none : (xs : List A) → find_index p xs ≡ none → filter (λ x. not (p x)) xs ≡ xs
  filter-none [] = λ e. refl
  filter-none (x ∷ xs) = elim (Bool-cases (p x)) [
    | inl yes_ ↦ rw yes_ (λ e. absurd (cc e))
    | inr other ↦
        rw other (λ e. ap (λ ys. x ∷ ys) (filter-none xs (next_index-none (find_index p xs) e)))
  ]

  filter-last :
      (xs : List A) (y : A)
      → find_index p xs ≡ none
      → p y ≡ true
      → filter (λ x. not (p x)) (xs ++ y ∷ []) ≡ xs
  filter-last [] y = λ e h. rw h refl
  filter-last (x ∷ xs) y = elim (Bool-cases (p x)) [
    | inl yes_ ↦ rw yes_ (λ e h. absurd (cc e))
    | inr other ↦
        rw other
          (λ e h. ap (λ ys. x ∷ ys) (filter-last xs y (next_index-none (find_index p xs) e) h))
  ]

  filter-kept : (xs : List A) → filter p xs ≡ [] → filter (λ x. not (p x)) xs ≡ xs
  filter-kept [] = λ e. refl
  filter-kept (x ∷ xs) = elim (Bool-cases (p x)) [
    | inl yes_ ↦ rw yes_ (λ e. absurd (cc e))
    | inr other ↦ rw other (λ e. ap (λ ys. x ∷ ys) (filter-kept xs e))
  ]

  -- The element that a search finds, put back where it was.
  record Restored (xs : List A) : Type 0 where
    index : ℕ
    element : A
    is_index : find_index p xs ≡ some index
    is_element : at_index index xs ≡ some element
    back : insert_at index element (filter (λ x. not (p x)) xs) ≡ xs

  Once-Restored : (xs : List A) → Once xs → Restored xs
  Once-Restored [] h = absurd h
  Once-Restored (x ∷ xs) (inl (e, rest)) = record {
    index = 0;
    element = x;
    is_index = rw e refl;
    is_element = refl;
    back = rw e (ap (λ ys. x ∷ ys) (filter-none xs rest));
  }
  Once-Restored (x ∷ xs) (inr (e, h)) =
      let r = Once-Restored xs h in
      record {
        index = suc r.index;
        element = r.element;
        is_index = rw e (ap next_index r.is_index);
        is_element = r.is_element;
        back = rw e (ap (λ ys. x ∷ ys) r.back);
      }

-- The states in which undoing the command gives back what was there.
abbrev pub Fits : Command → BuilderState → Type 0
Fits (add_node n) s = find_index (λ m. m.id == n.id) s.nodes ≡ none
Fits (delete_node id index was edges) s =
    Once (λ n. n.id == id) s.nodes
    × (filter (touches id) s.edges ≡ [])
    × (opt_eq s.selected_node_id (some id) ≡ false)
Fits (move_node id new old) s = All (λ n. (n.id == id) ≡ true → n.position ≡ old) s.nodes
Fits (connect_edge e) s = find_index (λ f. f.id == e.id) s.edges ≡ none
Fits (disconnect_edge id index edge) s = Once (λ e. e.id == id) s.edges

moved_node :
    (id : ℕ) (new old : Position) (n : CanvasNode)
    → ((n.id == id) ≡ true → n.position ≡ old)
    → move_to id old (move_to id new n) ≡ n
moved_node id new old n h = elim (Bool-cases (n.id == id)) [
  | inl same ↦ rw same (rw same (ap (λ q. record n { position = q }) (sym (h same))))
  | inr other ↦ rw other (rw other refl)
]

moved_back :
    (id : ℕ) (new old : Position) (ns : List CanvasNode)
    → All (λ n. (n.id == id) ≡ true → n.position ≡ old) ns
    → map (move_to id old) (map (move_to id new) ns) ≡ ns
moved_back id new old [] h = refl
moved_back id new old (n ∷ ns) (h, hs) =
    ap (λ n'. n' ∷ map (move_to id old) (map (move_to id new) ns)) (moved_node id new old n h)
    ∙ ap (λ ns'. n ∷ ns') (moved_back id new old ns hs)

append_none : (es : List CanvasEdge) → es ++ [] ≡ es
append_none [] = refl
append_none (e ∷ es) = ap (λ xs. e ∷ xs) (append_none es)

undo-execute :
    (c : Command) (s : BuilderState) → Fits c s → undo (execute c s).0 (execute c s).1 ≡ s
undo-execute (add_node n) s h =
    ap (λ ns. record s { nodes = ns }) (filter-last (λ m. m.id == n.id) s.nodes n h (==_refl n.id))
undo-execute (delete_node id index was edges) s (h, alone, unselected) =
    let r = Once-Restored (λ n. n.id == id) s.nodes h in
    rw r.is_index (
      rw (r.is_element, unselected, alone)
        (ap (λ ns. record s { nodes = ns; edges = filter (λ e. not (touches id e)) s.edges ++ [] })
            r.back
          ∙ ap (λ es. record s { edges = es })
              (append_none (filter (λ e. not (touches id e)) s.edges)
                ∙ filter-kept (touches id) s.edges alone)))
undo-execute (move_node id new old) s h =
    ap (λ ns. record s { nodes = ns }) (moved_back id new old s.nodes h)
undo-execute (connect_edge e) s h =
    ap (λ es. record s { edges = es }) (filter-last (λ f. f.id == e.id) s.edges e h (==_refl e.id))
undo-execute (disconnect_edge id index edge) s h =
    let r = Once-Restored (λ e. e.id == id) s.edges h in
    rw r.is_index (rw r.is_element (ap (λ es. record s { edges = es }) r.back))

-- What a command does does not depend on what it kept from an earlier run.
execute-again : (c : Command) (s : BuilderState) → (execute (execute c s).0 s).1 ≡ (execute c s).1
execute-again (add_node n) s = refl
execute-again (delete_node id index was edges) s =
    elim (Option-cases (find_index (λ n. n.id == id) s.nodes)) [
      | inl e ↦ rw e (rw e refl)
      | inr (i, e) ↦ rw e (rw e refl)
    ]
execute-again (move_node id new old) s = refl
execute-again (connect_edge e) s = refl
execute-again (disconnect_edge id index edge) s =
    elim (Option-cases (find_index (λ e. e.id == id) s.edges)) [
      | inl e ↦ rw e (rw e refl)
      | inr (i, e) ↦ rw e (rw e refl)
    ]

-- The newest command stays on top, also where the oldest one is dropped.
push-top : (c : Command) (cs : List Command) → (rest : List Command) × (push c cs ≡ c ∷ rest)
push-top c [] = ([], refl)
push-top c (d ∷ ds) = elim (Bool-cases (ltb max_history (length (c ∷ d ∷ ds)))) [
  | inl e ↦ (drop_oldest (d ∷ ds), rw e refl)
  | inr e ↦ (d ∷ ds, rw e refl)
]

-- Undoing right after a command was dispatched gives back the state from before it, and redoing
-- then gives the state after it. The state fits the command: an added node or edge has a new id; a
-- deleted node is there once, is not selected and has no edges; a disconnected edge is there once;
-- and a moved node stands where the command says it stood.
pub undo_redo_dispatch :
    (c : Command) (st : Store)
    → Fits c st.state
    → ((undo_last (dispatch_command c st)).state ≡ st.state)
      × ((redo_last (undo_last (dispatch_command c st))).state ≡ (dispatch_command c st).state)
unfolding dispatch_command undo_last redo_last
undo_redo_dispatch c st h =
    let (rest, top) = push-top (execute c st.state).0 st.undo_stack in
    let same = undo-execute c st.state h in
    (
      rw top same,
      rw top (ap (λ s. (execute (execute c st.state).0 s).1) same ∙ execute-again c st.state),
    )
