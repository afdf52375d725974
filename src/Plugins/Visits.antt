-- ===== src/Plugins/Visits.antt =====
-- resolveOrder of runtime/plugins/dag.ts: a visit ends, in an order or in a true error.
use distributed_task_platfor.Prelude.{
  ℕ, zero, suc, ◌<◌, ◌≡◌, ◌⊎◌, inl, inr, refl, sym, ap, ◌∙◌, subst, true, false, some, is_some,
  List, [], ◌∷◌, elem, ◌==◌, ==_iff, ==_refl, Bool-cases, Option-cases, arith,
}
use distributed_task_platfor.Plugins.Dag.{
  Plugin, PluginDag, has, Progress, Visit, enter, leave, visit_deps, check_conflicts, with_plugin,
  visit,
}
use distributed_task_platfor.Workflow.Reachable.{Reach, here, step}
use distributed_task_platfor.Plugins.Order.{
  fresh, fresh-busy, fresh-enter, enter-busy, All-snoc, elem-snoc, IsApart, DepsFirst-snoc,
  IsOrdered, Went, Ending, Ending-bind, Ending-from, Leads,
}

module _ (g : PluginDag) (known : (x : ℕ) → has g x ≡ true → elem x g.keys ≡ true)
    (named : (x : ℕ) (p : Plugin) → g.plugins x ≡ some p → p.id ≡ x) where
  -- A call of visit at a depth that suffices for the fresh keys.
  abbrev Visits : ℕ → (ℕ → Progress → Visit) → Type 0
  Visits depth visit_of =
      (id : ℕ) (s : Progress)
      → has g id ≡ true
      → IsOrdered g s
      → Leads g s id
      → fresh s g.keys < depth
      → Ending g s (λ s'. s'.visited id ≡ true) (visit_of id s)

  visit_deps_ends :
      (depth : ℕ) (visit_of : ℕ → Progress → Visit) (id : ℕ) (deps : List ℕ) (s : Progress)
      → Visits depth visit_of
      → IsOrdered g s
      → ((d : ℕ) → elem d deps ≡ true → elem d (g.adjacency id) ≡ true)
      → ((x : ℕ) → s.in_progress x ≡ true → Reach g.adjacency x id)
      → fresh s g.keys < depth
      → Ending g s
          (λ s'. (d : ℕ) → elem d deps ≡ true → s'.visited d ≡ true)
          (visit_deps g visit_of id deps s)
  unfolding visit_deps
  visit_deps_ends depth visit_of id [] s calls o sub leads h = (
    record { ordered = o; still_busy = λ x p. p; was_entered = λ x p. p; still_visited = λ x p. p },
    λ d p. absurd (cc p),
  )
  visit_deps_ends depth visit_of id (dep ∷ deps) s calls o sub leads h =
      elim (Bool-cases (has g dep)) [
        | inr gone ↦ rw gone (sub dep (ground arith), gone)
        | inl there ↦ rw there (
            Ending-bind g s s (λ s'. s'.visited dep ≡ true) _ (visit_of dep s)
              (visit_deps g visit_of id deps)
              (calls dep s there o (λ x p. (id, leads x p, sub dep (ground arith))) h)
              λ s1 w done.
                Ending-from g s s1 _ _ (visit_deps g visit_of id deps s1) w
                  (visit_deps_ends depth visit_of id deps s1 calls w.ordered
                    (λ d p. sub d (ground (arith, p))) (λ x p. leads x (w.was_entered x p))
                    (omega (arith, h, fresh-busy s s1 w.still_busy g.keys)))
                  λ s2 w2 q d p. either_done s1 s2 done w2 d (q d) p)
      ]
    where
      either_done :
          (s1 s2 : Progress)
          → s1.visited dep ≡ true
          → Went g s1 s2
          → (d : ℕ) → (elem d deps ≡ true → s2.visited d ≡ true)
          → elem d (dep ∷ deps) ≡ true
          → s2.visited d ≡ true
      either_done s1 s2 done w2 d q p = elim (Bool-cases (dep == d)) [
        | inl same ↦
            subst (λ i. s2.visited i ≡ true) ((==_iff dep d).0 same) (w2.still_visited dep done)
        | inr other ↦ q (ground (arith, p, other))
      ]

  -- The plugin is put at the end of the order, behind its dependencies.
  leave-IsOrdered :
      (id : ℕ) (p : Plugin) (s : Progress)
      → g.plugins id ≡ some p
      → IsOrdered g s
      → ((d : ℕ) → elem d (g.adjacency id) ≡ true → s.visited d ≡ true)
      → IsApart g p
      → IsOrdered g (leave id p s)
  leave-IsOrdered id p s get o deps free = record {
    listed = λ x v. ground (arith, v, elem-snoc x s.order p, o.listed x, same_id x);
    deps_first = DepsFirst-snoc g [] s.order p o.deps_first (λ d e.
        o.listed d (deps d (subst (λ i. elem d (g.adjacency i) ≡ true) (named id p get) e)));
    apart = All-snoc (IsApart g) s.order p o.apart free;
    loaded =
        All-snoc (λ q. g.plugins q.id ≡ some q) s.order p o.loaded
          (ap g.plugins (named id p get) ∙ get);
  }
    where
      same_id : (x : ℕ) → (x == id) ≡ true → (p.id == x) ≡ true
      same_id x e = (==_iff p.id x).1 (named id p get ∙ sym ((==_iff x id).0 e))

  leave-Went :
      (id : ℕ) (p : Plugin) (s s1 : Progress)
      → IsOrdered g (leave id p s1)
      → Went g (enter id s) s1
      → Went g s (leave id p s1)
  leave-Went id p s s1 o w = record {
    ordered = o;
    still_busy = λ x b. ground (arith, w.still_busy x (enter-busy s id x b));
    was_entered = λ x b. ground (arith, b, w.was_entered x);
    still_visited = λ x b. ground (arith, w.still_visited x b);
  }

  check_conflicts_ends :
      (id : ℕ) (p : Plugin) (cs : List ℕ) (s s1 : Progress)
      → g.plugins id ≡ some p
      → Went g (enter id s) s1
      → ((d : ℕ) → elem d (g.adjacency id) ≡ true → s1.visited d ≡ true)
      → ((c : ℕ) → elem c cs ≡ true → elem c p.conflicts ≡ true)
      → ((c : ℕ) → elem c p.conflicts ≡ true → (elem c cs ≡ true) ⊎ (has g c ≡ false))
      → Ending g s (λ s'. s'.visited id ≡ true) (check_conflicts g id p cs s1)
  unfolding check_conflicts
  check_conflicts_ends id p [] s s1 get w deps sub checked = (
    leave-Went id p s s1
        (leave-IsOrdered id p s1 get w.ordered deps (λ c e. ground (arith, checked c e))) w,
    rw (==_refl id) refl,
  )
  check_conflicts_ends id p (c ∷ cs) s s1 get w deps sub checked = elim (Bool-cases (has g c)) [
    | inl there ↦ rw there (p, get, sub c (ground arith), there)
    | inr gone ↦ rw gone (
        check_conflicts_ends id p cs s s1 get w deps (λ d e. sub d (ground (arith, e)))
          (λ d e. still_checked gone d (checked d e)))
  ]
    where
      still_checked :
          has g c ≡ false
          → (d : ℕ) → (elem d (c ∷ cs) ≡ true) ⊎ (has g d ≡ false)
          → (elem d cs ≡ true) ⊎ (has g d ≡ false)
      still_checked gone d (inr unloaded) = inr unloaded
      still_checked gone d (inl e) = elim (Bool-cases (c == d)) [
        | inl same ↦ inr (subst (λ i. has g i ≡ false) ((==_iff c d).0 same) gone)
        | inr other ↦ inl (ground (arith, e, other))
      ]

  pub visit_ends : (depth : ℕ) → Visits depth (visit g depth)
  unfolding visit
  visit_ends zero id s there o leads h = absurd (omega (arith, h))
  visit_ends (suc depth) id s there o leads h = elim (Bool-cases (s.in_progress id)) [
    | inl e ↦ rw e (leads id e)
    | inr e ↦ rw e (elim (Bool-cases (s.visited id)) [
      | inl v ↦ rw v (
        record {
          ordered = o;
          still_busy = λ x p. p;
          was_entered = λ x p. p;
          still_visited = λ x p. p;
        },
        v,
      )
      | inr v ↦ rw v (
          Ending-bind g (enter id s) s _ _
            (visit_deps g (visit g depth) id (g.adjacency id) (enter id s))
            (with_plugin g id (g.plugins id))
            (visit_deps_ends depth (visit g depth) id (g.adjacency id) (enter id s)
              (visit_ends depth) (entered) (λ d p. p) (entered_leads)
              (omega (arith, h, fresh-enter s id g.keys (rw e v) (known id there))))
            λ s1 w deps. elim (Option-cases (g.plugins id)) [
              | inl none_ ↦ absurd (cc (there, ap is_some none_))
              | inr (p, get) ↦
                  rw get (
                    check_conflicts_ends id p p.conflicts s s1 get w deps (λ c q. q) (λ c q. inl q))
            ])
    ])
  ]
    where
      entered : IsOrdered g (enter id s)
      entered = record {
        listed = o.listed;
        deps_first = o.deps_first;
        apart = o.apart;
        loaded = o.loaded;
      }

      entered_leads : (x : ℕ) → (enter id s).in_progress x ≡ true → Reach g.adjacency x id
      entered_leads x p = elim (Bool-cases (x == id)) [
        | inl same ↦ subst (λ i. Reach g.adjacency i id) (sym ((==_iff x id).0 same)) here
        | inr other ↦
            let (u, r, q) = leads x (ground (arith, p, other)) in step {u = u} {v = id} r q
      ]
