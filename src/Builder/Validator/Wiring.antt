-- ===== src/Builder/Validator/Wiring.antt =====
-- What a canvas without validation errors looks like.
use distributed_task_platfor.Prelude.{
  ℕ, ◌≤◌, ◌<◌, ◌≡◌, ◌↔◌, ◌⊎◌, inl, inr, refl, String, Bool, false, not, List, [], ◌∷◌, length, All,
  ltb, ◌==◌, ==_iff, str_eq, str_eq_iff, Bool-cases, arith,
}
use mathlib.Core.List.{append-eq-nil_iff}
use distributed_task_platfor.Builder.Canvas.{CanvasNode, CanvasEdge, BuilderState, filter}
use distributed_task_platfor.Builder.Validator.{
  leaves, messages, lacks_routes, has_connections, isolated, validate,
}

-- Some edge of the list starts or ends at the node.
abbrev pub Attached : ℕ → List CanvasEdge → Type 0
Attached id [] = ⊥
Attached id (e ∷ es) = (e.source ≡ id) ⊎ (e.target ≡ id) ⊎ Attached id es

-- Two edges leave each condition, and where there are two nodes or more, each has an edge.
pub record Wired (s : BuilderState) : Type 0 where
  pub conditions :
      All (λ n. n.plugin_id ≡ "core/condition" → 2 ≤ length (filter (leaves n.id) s.edges)) s.nodes
  pub connections : 1 < length s.nodes → All (λ n. Attached n.id s.edges) s.nodes

messages-All :
    (P : CanvasNode → Type 0) (bad : CanvasNode → Bool) (m : String)
    → ((n : CanvasNode) → (bad n ≡ false) ↔ P n)
    → (ns : List CanvasNode) → (messages bad m ns ≡ []) ↔ All P ns
messages-All P bad m each [] = (λ e. tt, λ h. refl)
messages-All P bad m each (n ∷ ns) =
    let rest = messages-All P bad m each ns in
    elim (Bool-cases (bad n)) [
      | inl e ↦ rw e (λ h. absurd (cc h), λ h. absurd (cc (e, (each n).1 h.0)))
      | inr e ↦ rw e (λ h. ((each n).0 e, rest.0 h), λ h. rest.1 h.1)
    ]

ltb_iff : (a b : ℕ) → (ltb a b ≡ false) ↔ (b ≤ a)
ltb_iff a b = ground arith

lacks_routes_iff :
    (edges : List CanvasEdge) (n : CanvasNode)
    → (lacks_routes edges n ≡ false)
      ↔ (n.plugin_id ≡ "core/condition" → 2 ≤ length (filter (leaves n.id) edges))
lacks_routes_iff edges n =
    let leaving = length (filter (leaves n.id) edges) in
    elim (Bool-cases (str_eq n.plugin_id "core/condition")) [
      | inl e ↦ rw e (
        λ h c. (ltb_iff leaving 2).0 h,
        λ h. (ltb_iff leaving 2).1 (h ((str_eq_iff n.plugin_id "core/condition").0 e)),
      )
      | inr e ↦
          rw e (λ h c. absurd (cc (e, (str_eq_iff n.plugin_id "core/condition").1 c)), λ h. refl)
    ]

has_connections_iff :
    (edges : List CanvasEdge) (n : CanvasNode)
    → (not (has_connections edges n) ≡ false) ↔ Attached n.id edges
has_connections_iff [] n = (λ h. absurd (cc h), λ h. absurd h)
has_connections_iff (e ∷ es) n =
    let rest = has_connections_iff es n in
    elim (Bool-cases (e.source == n.id)) [
      | inl a ↦ rw a (λ h. inl ((==_iff e.source n.id).0 a), λ h. refl)
      | inr a ↦ elim (Bool-cases (e.target == n.id)) [
        | inl b ↦ rw (a, b) (λ h. inr (inl ((==_iff e.target n.id).0 b)), λ h. refl)
        | inr b ↦
            rw (a, b)
              (
                λ h. inr (inr (rest.0 h)),
                λ h. elim h [
                  | inl c ↦ absurd (cc (a, (==_iff e.source n.id).1 c))
                  | inr g ↦ elim g [
                    | inl c ↦ absurd (cc (b, (==_iff e.target n.id).1 c))
                    | inr k ↦ rest.1 k
                  ]
                ],
              )
      ]
    ]

isolated_iff :
    (edges : List CanvasEdge) (nodes : List CanvasNode)
    → (isolated edges nodes ≡ []) ↔ (1 < length nodes → All (λ n. Attached n.id edges) nodes)
isolated_iff edges nodes =
    let each =
      messages-All (λ n. Attached n.id edges) (λ n. not (has_connections edges n))
        "Node is disconnected from the workflow." (has_connections_iff edges) nodes in
    elim (Bool-cases (ltb 1 (length nodes))) [
      | inl e ↦ rw e (λ h several. each.0 h, λ h. each.1 (h (ground arith)))
      | inr e ↦ rw e (λ h several. absurd (ground arith), λ h. refl)
    ]

-- A canvas has no validation errors if and only if two edges or more leave each condition, and each
-- node of a canvas with two nodes or more is an end of an edge.
pub validate_decides : (s : BuilderState) → (validate s ≡ []) ↔ Wired s
unfolding validate
validate_decides s =
    let routes =
      messages-All (λ n. n.plugin_id ≡ "core/condition" → 2 ≤ length (filter (leaves n.id) s.edges))
        (lacks_routes s.edges) "Condition must have true and false routes."
        (lacks_routes_iff s.edges) s.nodes in
    let ends = isolated_iff s.edges s.nodes in
    (
      λ h.
          let (first, second) = append-eq-nil_iff.0 h in
          record { conditions = routes.0 first; connections = ends.0 second },
      λ w. append-eq-nil_iff.1 (routes.1 w.conditions, ends.1 w.connections),
    )
