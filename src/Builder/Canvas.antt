-- ===== src/Builder/Canvas.antt =====
-- state/builder-state.ts of apps/dashboard/src/builder, and the array methods that its commands use
-- on elements with an id. Ids are numbers, compared only for equality; of an edge the ends are
-- kept, and of a node's data its name and the JSON text of the rest. Coordinates are natural numbers.
use distributed_task_platfor.Prelude.{
  ℕ, zero, suc, String, Bool, Option, none, some, List, [], ◌∷◌, if◌then◌else◌,
}

pub record Position : Type 0 where
  pub x : ℕ
  pub y : ℕ

pub record CanvasNode : Type 0 where
  pub id : ℕ
  pub plugin_id : String
  pub position : Position
  pub name : Option String
  pub config : String

pub record CanvasEdge : Type 0 where
  pub id : ℕ
  pub source : ℕ
  pub target : ℕ

pub record BuilderState : Type 0 where
  pub nodes : List CanvasNode
  pub edges : List CanvasEdge
  pub selected_node_id : Option ℕ
  pub validation_errors : List (ℕ × String)

-- One further, unless it is -1.
abbrev pub next_index : Option ℕ → Option ℕ
next_index none = none
next_index (some i) = some (suc i)

module _ {A : Type 0} where
  -- xs.filter(p)
  abbrev pub filter : (A → Bool) → List A → List A
  filter p [] = []
  filter p (x ∷ xs) = if p x then x ∷ filter p xs else filter p xs

  -- xs.findIndex(p), with none for -1
  abbrev pub find_index : (A → Bool) → List A → Option ℕ
  find_index p [] = none
  find_index p (x ∷ xs) = if p x then some 0 else next_index (find_index p xs)

  -- xs[i]
  abbrev pub at_index : ℕ → List A → Option A
  at_index i [] = none
  at_index zero (x ∷ xs) = some x
  at_index (suc i) (x ∷ xs) = at_index i xs

  -- xs.splice(i, 0, y) with 0 ≤ i
  abbrev pub insert_at : ℕ → A → List A → List A
  insert_at zero y xs = y ∷ xs
  insert_at (suc i) y [] = y ∷ []
  insert_at (suc i) y (x ∷ xs) = x ∷ insert_at i y xs

  -- xs.splice(-1, 0, y): before the last element
  abbrev pub insert_before_last : A → List A → List A
  insert_before_last y [] = y ∷ []
  insert_before_last y (x ∷ []) = y ∷ x ∷ []
  insert_before_last y (x ∷ x' ∷ xs) = x ∷ insert_before_last y (x' ∷ xs)

  abbrev pub splice_in : Option ℕ → A → List A → List A
  splice_in none y xs = insert_before_last y xs
  splice_in (some i) y xs = insert_at i y xs
