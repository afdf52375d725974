-- ===== src/Builder/Copies.antt =====
-- PasteCommand and DuplicateCommand with their undo.
use distributed_task_platfor.Prelude.{
  ℕ, suc, ◌≡◌, ◌⊎◌, refl, ap, inl, inr, String, Bool, true, false, not, Option, none, some, List,
  [], ◌∷◌, ◌++◌, All, elem, ◌==◌, ==_refl, Bool-cases,
}
use distributed_task_platfor.Builder.Canvas.{CanvasNode, CanvasEdge, BuilderState, filter}
use distributed_task_platfor.Builder.Clipboard.{
  Clipboard, selected, joins_two, touches_none, get_mapped, or_entry, joined_to, reconnected,
  new_ids, id_mapping, copied_nodes, numbered, with_copies, same_name, copy_name, paste, duplicate,
  undo_copies,
}

module _ {A : Type 0} (p : A → Bool) where
  filter-append-All :
      (xs ys : List A)
      → All (λ x. p x ≡ true) xs
      → All (λ y. p y ≡ false) ys
      → filter p (xs ++ ys) ≡ xs
  filter-append-All [] [] = λ h g. refl
  filter-append-All [] (y ∷ ys) = λ h g. rw g.0 (filter-append-All [] ys tt g.1)
  filter-append-All (x ∷ xs) ys = λ h g. rw h.0 (ap (λ zs. x ∷ zs) (filter-append-All xs ys h.1 g))

  filter-All : (xs : List A) → All (λ x. p x ≡ true) xs → filter p xs ≡ xs
  filter-All [] = λ h. refl
  filter-All (x ∷ xs) = λ h. rw h.0 (ap (λ zs. x ∷ zs) (filter-All xs h.1))

-- No node has one of the ids, and no edge touches one.
abbrev pub Unused : List ℕ → BuilderState → Type 0
Unused ids s =
    All (λ n. not (selected ids n) ≡ true) s.nodes × All (λ e. touches_none ids e ≡ true) s.edges

elem-append : (x : ℕ) (xs ys : List ℕ) → elem x ys ≡ true → elem x (xs ++ ys) ≡ true
elem-append x [] ys = λ h. h
elem-append x (z ∷ xs) ys =
    λ h. elim (Bool-cases (z == x)) [ inl e ↦ rw e refl | inr e ↦ rw e (elem-append x xs ys h) ]

elem-cons : (x y : ℕ) (ys : List ℕ) → elem x ys ≡ true → elem x (y ∷ ys) ≡ true
elem-cons x y ys h = elem-append x (y ∷ []) ys h

-- Every value of a mapping is one of the ids.
abbrev Leads : List (ℕ × ℕ) → List ℕ → Type 0
Leads m ids = (k v : ℕ) → get_mapped k m ≡ some v → elem v ids ≡ true

or_entry-cases :
    (o : Option ℕ) (same : Bool) (w v : ℕ) → or_entry o same w ≡ some v → (o ≡ some v) ⊎ (w ≡ v)
or_entry-cases (some u) same w v e = inl e
or_entry-cases none true w v e = inr (cc e)
or_entry-cases none false w v e = absurd (cc e)

joined_to-touched :
    (ids : List ℕ) (a b : Option ℕ) (e : CanvasEdge) (es : List CanvasEdge)
    → ((v : ℕ) → a ≡ some v → elem v ids ≡ true)
    → All (λ f. touches_none ids f ≡ false) es
    → All (λ f. touches_none ids f ≡ false) (joined_to a b e es)
joined_to-touched ids none b e es h rest = rest
joined_to-touched ids (some a) none e es h rest = rest
joined_to-touched ids (some a) (some b) e es h rest = (rw (h a refl) refl, rest)

reconnected-touched :
    (m : List (ℕ × ℕ)) (ids : List ℕ) (es : List CanvasEdge)
    → Leads m ids
    → All (λ f. touches_none ids f ≡ false) (reconnected m es)
reconnected-touched m ids [] h = tt
reconnected-touched m ids (e ∷ es) h =
    joined_to-touched ids (get_mapped e.source m) (get_mapped e.target m) e (reconnected m es)
      (h e.source) (reconnected-touched m ids es h)

module _ (new_node : ℕ → ℕ) where
  id_mapping-Leads :
      (i : ℕ) (ns : List CanvasNode) → Leads (id_mapping new_node i ns) (new_ids new_node i ns)
  id_mapping-Leads i [] k v e = absurd (cc e)
  id_mapping-Leads i (n ∷ ns) k v e =
      elim (or_entry-cases (get_mapped k (id_mapping new_node (suc i) ns)) (n.id == k) (new_node i)
        v e) [
          | inl later ↦
              elem-cons v (new_node i) (new_ids new_node (suc i) ns)
                (id_mapping-Leads (suc i) ns k v later)
          | inr here ↦ rw (here, ==_refl v) refl
        ]

  copied_nodes-taken :
      (rename : Option String → Option String) (ids : List ℕ) (i : ℕ) (ns : List CanvasNode)
      → ((x : ℕ) → elem x (new_ids new_node i ns) ≡ true → elem x ids ≡ true)
      → All (λ n. not (selected ids n) ≡ false) (copied_nodes new_node rename i ns)
  copied_nodes-taken rename ids i [] kept = tt
  copied_nodes-taken rename ids i (n ∷ ns) kept = (
    rw (kept (new_node i) (rw (==_refl (new_node i)) refl)) refl,
    copied_nodes-taken rename ids (suc i) ns
        (λ x h. kept x (elem-cons x (new_node i) (new_ids new_node (suc i) ns) h)),
  )

module _ (new_edge : ℕ → ℕ) where
  numbered-touched :
      (ids : List ℕ) (i : ℕ) (es : List CanvasEdge)
      → All (λ f. touches_none ids f ≡ false) es
      → All (λ f. touches_none ids f ≡ false) (numbered new_edge i es)
  numbered-touched ids i [] h = tt
  numbered-touched ids i (e ∷ es) h = (h.0, numbered-touched ids (suc i) es h.1)

module _ (new_node new_edge : ℕ → ℕ) where
  undo-with_copies :
      (rename : Option String → Option String) (ns : List CanvasNode) (es : List CanvasEdge)
      (ids : List ℕ) (s : BuilderState)
      → let (kept, after) = with_copies new_node new_edge rename ns es ids s in
        Unused kept s → undo_copies kept after ≡ s
  unfolding undo_copies
  undo-with_copies rename [] es ids s (nodes, edges) =
      rw
        (
          filter-All (λ n. not (selected ids n)) s.nodes nodes,
          filter-All (touches_none ids) s.edges edges,
        )
        refl
  undo-with_copies rename (n ∷ ns) es ids s (nodes, edges) =
      let added = new_ids new_node 0 (n ∷ ns) in
      let m = id_mapping new_node 0 (n ∷ ns) in
      rw
        (
          filter-append-All (λ k. not (selected (ids ++ added) k)) s.nodes
              (copied_nodes new_node rename 0 (n ∷ ns)) nodes
              (copied_nodes-taken new_node rename (ids ++ added) 0 (n ∷ ns)
                (λ x h. elem-append x ids added h)),
          filter-append-All (touches_none (ids ++ added)) s.edges
              (numbered new_edge 0 (reconnected m es)) edges
              (numbered-touched new_edge (ids ++ added) 0 (reconnected m es) (
                reconnected-touched m (ids ++ added) es
                  (λ k v h. elem-append v ids added (id_mapping-Leads new_node 0 (n ∷ ns) k v h)))),
        )
        refl

-- Undoing a paste gives back the state from before it, and so does undoing a duplication: also when
-- the command ran before and still keeps the ids of that run. No node has one of the ids that the
-- command keeps after its run, and no edge touches one.
pub undo-copies :
    (new_node new_edge : ℕ → ℕ) (c : Clipboard) (chosen ids : List ℕ) (s : BuilderState)
    → Unused (paste new_node new_edge c ids s).0 s
    → Unused (duplicate new_node new_edge chosen ids s).0 s
    → (undo_copies (paste new_node new_edge c ids s).0 (paste new_node new_edge c ids s).1 ≡ s)
      × (undo_copies
            (duplicate new_node new_edge chosen ids s).0
            (duplicate new_node new_edge chosen ids s).1
          ≡ s)
unfolding paste duplicate
undo-copies new_node new_edge c chosen ids s h g = (
  undo-with_copies new_node new_edge same_name c.nodes c.edges ids s h,
  undo-with_copies new_node new_edge copy_name (filter (selected chosen) s.nodes)
      (filter (joins_two chosen) s.edges) ids s g,
)
