-- ===== src/Plugins/Resolved.antt =====
-- resolveOrder of runtime/plugins/dag.ts, for the plugins that addNode has put in.
use distributed_task_platfor.Prelude.{
  ℕ, ◌+◌, ◌≤◌, ◌<◌, ◌≡◌, inl, inr, refl, sym, ap, ◌∙◌, subst, true, false, ◌||◌, some, List, [],
  ◌∷◌, ◌++◌, length, elem, All, ◌==◌, ==_iff, Bool-cases, or_default, arith,
}
use distributed_task_platfor.Plugins.Dag.{
  Plugin, PluginDag, no_plugins, has, add_node, add_nodes, Progress, Visit, visiting, failed,
  out_of_depth, visit, visit_all, resolve_order,
}
use distributed_task_platfor.Plugins.Order.{
  ids, fresh, fresh-busy, DepsFirst, IsApart, IsSound, IsOrdered, Went, Ending, Ending-bind,
  Ending-from,
}
use distributed_task_platfor.Plugins.Visits.{visit_ends}

-- The keys are those of the plugins, and each plugin is kept under its id.
record IsDag (g : PluginDag) : Type 0 where
  known : (x : ℕ) → has g x ≡ true → elem x g.keys ≡ true
  held : (x : ℕ) → elem x g.keys ≡ true → has g x ≡ true
  named : (x : ℕ) (p : Plugin) → g.plugins x ≡ some p → p.id ≡ x

elem-last : (x : ℕ) (ks : List ℕ) (k : ℕ) → elem x (ks ++ k ∷ []) ≡ (elem x ks || k == x)
elem-last x [] k = ground arith
elem-last x (y ∷ ks) k = ground (arith, elem-last x ks k)

add_node-keys :
    (p : Plugin) (g : PluginDag) (x : ℕ)
    → IsDag g
    → elem x (add_node p g).keys ≡ (elem x g.keys || p.id == x)
add_node-keys p g x d = elim (Bool-cases (has g p.id)) [
  | inl old ↦ rw old (elim (Bool-cases (p.id == x)) [
    | inl same ↦
        let present : elem x g.keys ≡ true =
          subst (λ i. elem i g.keys ≡ true) ((==_iff p.id x).0 same) (d.known p.id old) in
        rw present refl
    | inr other ↦ rw other (ground arith)
  ])
  | inr new ↦ rw new (elem-last x g.keys p.id)
]

add_node-has : (p : Plugin) (g : PluginDag) (x : ℕ) → has (add_node p g) x ≡ (has g x || p.id == x)
add_node-has p g x = elim (Bool-cases (x == p.id)) [
  | inl same ↦ rw same (ground (arith, same))
  | inr other ↦ rw other (ground (arith, other))
]

add_node-IsDag : (p : Plugin) (g : PluginDag) → IsDag g → IsDag (add_node p g)
add_node-IsDag p g d = record {
  known = λ x h. ground (arith, h, add_node-keys p g x d, add_node-has p g x, d.known x);
  held = λ x h. ground (arith, h, add_node-keys p g x d, add_node-has p g x, d.held x);
  named = λ x q. elim (Bool-cases (x == p.id)) [
    | inl same ↦ rw same (λ e. sym (ap (λ o. (or_default o q).id) e) ∙ sym ((==_iff x p.id).0 same))
    | inr other ↦ rw other (d.named x q)
  ];
}

add_nodes-IsDag : (ps : List Plugin) (g : PluginDag) → IsDag g → IsDag (add_nodes ps g)
add_nodes-IsDag [] g d = d
add_nodes-IsDag (p ∷ ps) g d = add_nodes-IsDag ps (add_node p g) (add_node-IsDag p g d)

loaded-IsDag : (ps : List Plugin) → IsDag (add_nodes ps no_plugins)
loaded-IsDag ps = add_nodes-IsDag ps no_plugins (record {
  known = λ x h. absurd (cc h);
  held = λ x h. absurd (cc h);
  named = λ x p e. absurd (cc e);
})

module _ (g : PluginDag) (d : IsDag g) (depth : ℕ) where
  visit_all_ends :
      (us : List ℕ) (s : Progress)
      → ((x : ℕ) → elem x us ≡ true → elem x g.keys ≡ true)
      → IsOrdered g s
      → ((x : ℕ) → s.in_progress x ≡ false)
      → fresh s g.keys < depth
      → Ending g s (λ s'. (x : ℕ) → elem x us ≡ true → s'.visited x ≡ true) (visit_all g depth us s)
  unfolding visit_all
  visit_all_ends [] s sub o idle h = (
    record { ordered = o; still_busy = λ x p. p; was_entered = λ x p. p; still_visited = λ x p. p },
    λ x p. absurd (cc p),
  )
  visit_all_ends (u ∷ us) s sub o idle h = elim (Bool-cases (s.visited u)) [
    | inl v ↦ rw v (
        Ending-from g s s _ _ (visit_all g depth us s) stay
          (visit_all_ends us s (λ x p. sub x (ground (arith, p))) o idle h)
          λ s2 w2 q x p. either_done s s2 v w2 x (q x) p)
    | inr v ↦ rw v (
        Ending-bind g s s _ _ (visit g depth u s) (visit_all g depth us)
          (visit_ends g d.known d.named depth u s (d.held u (sub u (ground arith))) o
            (λ x p. absurd (cc (idle x, p))) h)
          λ s1 w done.
            Ending-from g s s1 _ _ (visit_all g depth us s1) w
              (visit_all_ends us s1 (λ x p. sub x (ground (arith, p))) w.ordered
                (λ x. ground (arith, idle x, w.was_entered x))
                (omega (arith, h, fresh-busy s s1 w.still_busy g.keys)))
              λ s2 w2 q x p. either_done s1 s2 done w2 x (q x) p)
  ]
    where
      stay : Went g s s
      stay = record {
        ordered = o;
        still_busy = λ x p. p;
        was_entered = λ x p. p;
        still_visited = λ x p. p;
      }

      either_done :
          (s1 s2 : Progress)
          → s1.visited u ≡ true
          → Went g s1 s2
          → (x : ℕ) → (elem x us ≡ true → s2.visited x ≡ true)
          → elem x (u ∷ us) ≡ true
          → s2.visited x ≡ true
      either_done s1 s2 done w2 x q p = elim (Bool-cases (u == x)) [
        | inl same ↦
            subst (λ i. s2.visited i ≡ true) ((==_iff u x).0 same) (w2.still_visited u done)
        | inr other ↦ q (ground (arith, p, other))
      ]

-- What resolveOrder may end in: an order of all plugins, each after its dependencies, as it was
-- put in, and with no loaded plugin among its conflicts; or an error that is true.
abbrev pub IsResolved : PluginDag → Visit → Type 0
IsResolved g (visiting s) =
    DepsFirst g [] s.order
    × ((x : ℕ) → has g x ≡ true → elem x (ids s.order) ≡ true)
    × All (λ p. g.plugins p.id ≡ some p) s.order
    × All (IsApart g) s.order
IsResolved g (failed e) = IsSound g e
IsResolved g out_of_depth = ⊥

fresh-idle : (s : Progress) → (ks : List ℕ) → fresh s ks ≤ length ks
fresh-idle s [] = omega arith
fresh-idle s (k ∷ ks) = ground (arith, fresh-idle s ks)

IsResolved-Ending :
    (g : PluginDag) (s : Progress) (v : Visit)
    → IsDag g
    → Ending g s (λ s'. (x : ℕ) → elem x g.keys ≡ true → s'.visited x ≡ true) v
    → IsResolved g v
IsResolved-Ending g s (visiting s') d (w, all) = (
  w.ordered.deps_first,
  (λ x p. w.ordered.listed x (all x (d.known x p))),
  w.ordered.loaded,
  w.ordered.apart,
)
IsResolved-Ending g s (failed e) d h = h
IsResolved-Ending g s out_of_depth d h = h

-- For the plugins that addNode has put in, resolving the order always ends: in an order that has
-- every plugin, as it was put in, behind all of its dependencies, and in which no plugin has a
-- loaded plugin among its conflicts; or in an error that is true, which is a plugin that depends on
-- itself through a chain of dependencies, a dependency that is not loaded, or a conflict with a
-- loaded plugin.
pub resolve_order_correct :
    (ps : List Plugin)
    → IsResolved (add_nodes ps no_plugins) (resolve_order (add_nodes ps no_plugins))
unfolding resolve_order
resolve_order_correct ps =
    let g = add_nodes ps no_plugins in
    IsResolved-Ending g start (visit_all g (1 + length g.keys) g.keys start) (loaded-IsDag ps) (
      visit_all_ends g (loaded-IsDag ps) (1 + length g.keys) g.keys start (λ x p. p)
        (record { listed = λ x p. absurd (cc p); deps_first = tt; apart = tt; loaded = tt })
        (λ x. refl) (omega (arith, fresh-idle start g.keys)))
  where
    start : Progress
    start = record { visited = λ _. false; in_progress = λ _. false; order = [] }
