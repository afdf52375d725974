-- ===== src/Plugins/Order.antt =====
-- resolveOrder of runtime/plugins/dag.ts: what a visit keeps and what its errors
-- say.
use distributed_task_platfor.Prelude.{
  ℕ, ◌+◌, ◌≤◌, ◌<◌, ◌≡◌, inl, inr, sym, subst, Bool, true, false, ◌||◌, some, List, [], ◌∷◌, ◌++◌,
  map, elem, All, ◌==◌, ==_iff, if◌then◌else◌, Bool-cases, arith,
}
use distributed_task_platfor.Plugins.Dag.{
  Plugin, PluginDag, has, DagError, circular_dependency, missing_dependency, conflicting_plugins,
  no_plugin, Progress, Visit, visiting, failed, out_of_depth, then_visit, enter,
}
use distributed_task_platfor.Workflow.Reachable.{Reach}

abbrev pub ids : List Plugin → List ℕ
ids ps = map (λ p. p.id) ps

abbrev pub busy : Progress → ℕ → Bool
busy s x = s.in_progress x || s.visited x

-- The keys that no visit has come to.
abbrev pub fresh : Progress → List ℕ → ℕ
fresh s [] = 0
fresh s (k ∷ ks) = (if busy s k then 0 else 1) + fresh s ks

pub fresh-busy :
    (s s' : Progress)
    → ((x : ℕ) → busy s x ≡ true → busy s' x ≡ true)
    → (ks : List ℕ) → fresh s' ks ≤ fresh s ks
fresh-busy s s' h [] = omega arith
fresh-busy s s' h (k ∷ ks) = ground (arith, fresh-busy s s' h ks, h k)

pub enter-busy : (s : Progress) (id x : ℕ) → busy s x ≡ true → busy (enter id s) x ≡ true
enter-busy s id x p = ground (arith, p)

pub fresh-enter :
    (s : Progress) (id : ℕ) (ks : List ℕ)
    → busy s id ≡ false
    → elem id ks ≡ true
    → fresh (enter id s) ks < fresh s ks
fresh-enter s id [] e d = ground arith
fresh-enter s id (k ∷ ks) e d = elim (Bool-cases (k == id)) [
  | inl h ↦
      let idle : busy s k ≡ false = subst (λ i. busy s i ≡ false) (sym ((==_iff k id).0 h)) e in
      rw (h, idle) (omega (arith, fresh-busy s (enter id s) (enter-busy s id) ks))
  | inr h ↦ rw h (omega (arith, fresh-enter s id ks e (ground (arith, d, h))))
]

pub All-snoc :
    {A : Type 0} (P : A → Type 0) (xs : List A) (x : A) → All P xs → P x → All P (xs ++ x ∷ [])
All-snoc P [] x h p = (p, tt)
All-snoc P (y ∷ ys) x (h, hs) p = (h, All-snoc P ys x hs p)

pub elem-snoc :
    (x : ℕ) (ps : List Plugin) (p : Plugin)
    → elem x (ids (ps ++ p ∷ [])) ≡ (elem x (ids ps) || p.id == x)
elem-snoc x [] p = ground arith
elem-snoc x (q ∷ ps) p = ground (arith, elem-snoc x ps p)

module _ (g : PluginDag) where
  -- Each plugin comes after its dependencies; `seen` has those that come before the list.
  abbrev pub DepsFirst : List ℕ → List Plugin → Type 0
  DepsFirst seen [] = Unit
  DepsFirst seen (p ∷ ps) =
      ((d : ℕ) → elem d (g.adjacency p.id) ≡ true → elem d seen ≡ true) × DepsFirst (p.id ∷ seen) ps

  -- No plugin conflicts with one that is loaded.
  abbrev pub IsApart : Plugin → Type 0
  IsApart p = (c : ℕ) → elem c p.conflicts ≡ true → has g c ≡ false

  -- What an error says of the plugins.
  abbrev pub IsSound : DagError → Type 0
  IsSound (circular_dependency id) =
      (u : ℕ) × Reach g.adjacency id u × (elem id (g.adjacency u) ≡ true)
  IsSound (missing_dependency dep id) = (elem dep (g.adjacency id) ≡ true) × (has g dep ≡ false)
  IsSound (conflicting_plugins id c) =
      (p : Plugin) × (g.plugins id ≡ some p) × (elem c p.conflicts ≡ true) × (has g c ≡ true)
  IsSound (no_plugin id) = ⊥

  pub DepsFirst-snoc :
      (seen : List ℕ) (ps : List Plugin) (p : Plugin)
      → DepsFirst seen ps
      → ((d : ℕ) → elem d (g.adjacency p.id) ≡ true → (elem d seen || elem d (ids ps)) ≡ true)
      → DepsFirst seen (ps ++ p ∷ [])
  DepsFirst-snoc seen [] p h k = ((λ d e. ground (arith, k d e)), tt)
  DepsFirst-snoc seen (q ∷ ps) p (h, hs) k =
      (h, DepsFirst-snoc (q.id ∷ seen) ps p hs (λ d e. ground (arith, k d e)))

  pub record IsOrdered (s : Progress) : Type 0 where
    pub listed : (x : ℕ) → s.visited x ≡ true → elem x (ids s.order) ≡ true
    pub deps_first : DepsFirst [] s.order
    pub apart : All IsApart s.order
    pub loaded : All (λ p. g.plugins p.id ≡ some p) s.order

  pub record Went (s s' : Progress) : Type 0 where
    pub ordered : IsOrdered s'
    pub still_busy : (x : ℕ) → busy s x ≡ true → busy s' x ≡ true
    pub was_entered : (x : ℕ) → s'.in_progress x ≡ true → s.in_progress x ≡ true
    pub still_visited : (x : ℕ) → s.visited x ≡ true → s'.visited x ≡ true

  -- A visit that ends in a state with `Done`, or in a true error.
  abbrev pub Ending : Progress → (Progress → Type 0) → Visit → Type 0
  Ending s Done (visiting s') = Went s s' × Done s'
  Ending s Done (failed e) = IsSound e
  Ending s Done out_of_depth = ⊥

  pub Went-trans : (s s1 s2 : Progress) → Went s s1 → Went s1 s2 → Went s s2
  Went-trans s s1 s2 a b = record {
    ordered = b.ordered;
    still_busy = λ x p. b.still_busy x (a.still_busy x p);
    was_entered = λ x p. a.was_entered x (b.was_entered x p);
    still_visited = λ x p. b.still_visited x (a.still_visited x p);
  }

  pub Ending-bind :
      (s s0 : Progress) (P Q : Progress → Type 0) (v : Visit) (next : Progress → Visit)
      → Ending s P v
      → ((s1 : Progress) → Went s s1 → P s1 → Ending s0 Q (next s1))
      → Ending s0 Q (then_visit v next)
  Ending-bind s s0 P Q (visiting s1) next (w, p) go = go s1 w p
  Ending-bind s s0 P Q (failed e) next h go = h
  Ending-bind s s0 P Q out_of_depth next h go = absurd h

  pub Ending-from :
      (s s1 : Progress) (P Q : Progress → Type 0) (v : Visit)
      → Went s s1
      → Ending s1 P v
      → ((s2 : Progress) → Went s1 s2 → P s2 → Q s2)
      → Ending s Q v
  Ending-from s s1 P Q (visiting s2) w (w', p) f = (Went-trans s s1 s2 w w', f s2 w' p)
  Ending-from s s1 P Q (failed e) w h f = h
  Ending-from s s1 P Q out_of_depth w h f = h

  -- The tasks in progress lead to `id`.
  abbrev pub Leads : Progress → ℕ → Type 0
  Leads s id =
      (x : ℕ)
      → s.in_progress x ≡ true
      → (u : ℕ) × Reach g.adjacency x u × (elem id (g.adjacency u) ≡ true)
