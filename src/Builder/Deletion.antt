-- ===== src/Builder/Deletion.antt =====
-- DeleteSelectionCommand and its undo: nothing is lost, but order is.
use distributed_task_platfor.Prelude.{
  ℕ, ◌≡◌, refl, inl, inr, Bool, not, List, [], ◌∷◌, ◌++◌, Bool-cases, elem,
}
use mathlib.Core.List.Perm
use mathlib.Core.List.{Perm, perm_middle}
use distributed_task_platfor.Builder.Canvas.{CanvasEdge, BuilderState, filter}
use distributed_task_platfor.Builder.Clipboard.{
  selected, touches_one, touches_none, delete_selection, undo_delete_selection,
}

-- What two opposite tests keep is together all there was.
parted :
    {A : Type 0} (kept gone : A → Bool) (xs : List A)
    → ((x : A) → kept x ≡ not (gone x))
    → Perm (filter kept xs ++ filter gone xs) xs
parted kept gone [] opposite = Perm.nil
parted kept gone (x ∷ xs) opposite =
    let rest = parted kept gone xs opposite in
    elim (Bool-cases (gone x)) [
      | inl e ↦
          rw (opposite x, e)
            (Perm.trans (perm_middle (filter kept xs) (filter gone xs)) (Perm.cons x rest))
      | inr e ↦ rw (opposite x, e) (Perm.cons x rest)
    ]

touches_none-touches_one :
    (ids : List ℕ) (e : CanvasEdge) → touches_none ids e ≡ not (touches_one ids e)
touches_none-touches_one ids e = elim (Bool-cases (elem e.source ids)) [
  | inl h ↦ rw h refl
  | inr h ↦ rw h refl
]

-- Undoing the deletion of a selection gives back every node and every edge that was there, each as
-- often as before and none besides, though in another order.
pub undo-delete_selection :
    (ids : List ℕ) (s : BuilderState)
    → Perm
        (undo_delete_selection (delete_selection ids s).0 (delete_selection ids s).1).nodes
        s.nodes
      × Perm
          (undo_delete_selection (delete_selection ids s).0 (delete_selection ids s).1).edges
          s.edges
unfolding delete_selection undo_delete_selection
undo-delete_selection ids s = (
  parted (λ n. not (selected ids n)) (selected ids) s.nodes (λ n. refl),
  parted (touches_none ids) (touches_one ids) s.edges (touches_none-touches_one ids),
)
