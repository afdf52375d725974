-- ===== src/Workflow/Acyclic.antt =====
-- detectCycles of runtime/workflow/compilation-service.ts: its verdict on a whole definition.
use distributed_task_platfor.Prelude.{
  ℕ, ◌+◌, ◌≤◌, ◌≡◌, ◌↔◌, ◌⊎◌, inl, inr, refl, ap, ◌∙◌, subst, Bool, true, false, Option, some, List,
  [], ◌∷◌, length, elem, ◌==◌, ==_iff, if◌then◌else◌, Bool-cases, arith,
}
use distributed_task_platfor.Workflow.Definition.{Task, declared}
use distributed_task_platfor.Workflow.Graph.{
  put, adjacent, Color, absent, white, gray, Marks, then_go_on, dfs, dfs_all, whiten, unvisited,
  detect_cycles,
}
use distributed_task_platfor.Workflow.Reachable.{adjacent-declared}
use distributed_task_platfor.Workflow.CycleSearch.{
  Color-cases, is_white, whites, Fewer, whites-Fewer, Ran, WhiteDeclared, dfs_runs,
}
use distributed_task_platfor.Workflow.CycleVerdict.{
  Safe, safe, Cycle, Good, dfs_clean, Safe-not-Cycle,
}

module _ (adj : ℕ → List ℕ) where
  -- What is known once the roots `us` are done.
  abbrev Known : List Task → Marks → Type 0
  Known us s =
      (Cycle adj × ¬ (s.found ≡ []))
      ⊎ (Good adj s
          × ((x : ℕ) → ¬ (s.color x ≡ gray))
          × (s.found ≡ [])
          × ((x : ℕ) → declared x us ≡ true → is_white (s.color x) ≡ false))

  not_white :
      (s s' : Marks) (x : ℕ)
      → Fewer s s'
      → is_white (s.color x) ≡ false
      → is_white (s'.color x) ≡ false
  not_white s s' x f e = ground (arith, f x)

  Known-cons :
      (t : Task) (us : List Task) (s : Marks)
      → is_white (s.color t.id) ≡ false
      → Known us s
      → Known (t ∷ us) s
  Known-cons t us s e (inl c) = inl c
  Known-cons t us s e (inr (g, ng, f, d)) = inr (
    g,
    ng,
    f,
    λ x. elim (Bool-cases (t.id == x)) [
      | inl same ↦ λ p. subst (λ i. is_white (s.color i) ≡ false) ((==_iff t.id x).0 same) e
      | inr other ↦ λ p. d x (ground (arith, p))
    ],
  )

  -- From one root on.
  Known-dfs :
      (depth : ℕ) (t : Task) (s : Marks) (r : Ran s (dfs adj depth t.id s))
      → s.color t.id ≡ white
      → Known [] s
      → Known [] r.result.1
        × ((Cycle adj × ¬ (r.result.1.found ≡ [])) ⊎ (is_white (r.result.1.color t.id) ≡ false))
  Known-dfs depth t s r w (inl (c, nf)) =
      (inl (c, λ e. nf (r.found_grows e)), inl (c, λ e. nf (r.found_grows e)))
  Known-dfs depth t s r w (inr (g, ng, f, d)) =
      elim (dfs_clean adj depth t.id s r.result g w (λ x p. absurd (ng x p)) r.returns) [
        | inl (b, c, found) ↦ (inl (c, found), inl (c, found))
        | inr (b, c) ↦ (
          inr (c.good, (λ x p. ng x (c.grays_from x p)), c.same_found ∙ f, λ x p. absurd (cc p)),
          inr (ap is_white c.now_black),
        )
      ]

  module _ (ts : List Task) (depth : ℕ) where
    record Swept (us : List Task) (s : Marks) : Type 0 where
      result : Marks
      returns : dfs_all adj depth us s ≡ some result
      fewer : Fewer s result
      found_grows : result.found ≡ [] → s.found ≡ []
      known : Known us result

    then_returns :
        (o : Option (Bool × Marks)) (r : Bool × Marks) (next : Marks → Option Marks)
        → o ≡ some r
        → then_go_on o next ≡ next r.1
    then_returns o r next e = rw e refl

    sweep :
        (us : List Task) (s : Marks)
        → WhiteDeclared adj ts s
        → whites s.color ts ≤ depth
        → Known [] s
        → Swept us s
    unfolding dfs_all
    sweep [] s d h k = record {
      result = s;
      returns = refl;
      fewer = λ x p. p;
      found_grows = λ e. e;
      known = k;
    }
    sweep (t ∷ us) s d h k = elim (Color-cases (s.color t.id)) [
      | inl e ↦ skip (rw (e, dfs_all) refl) (ap is_white e) (sweep us s d h k)
      | inr (inl e) ↦
          let r = dfs_runs adj ts depth t.id s d (ap is_white e) h in
          let (k1, out) = Known-dfs depth t s r e k in
          after e r out (
            sweep us r.result.1 (λ x p. d x (r.fewer x p))
              (omega (arith, h, whites-Fewer s r.result.1 r.fewer ts)) k1)
      | inr (inr (inl e)) ↦ skip (rw (e, dfs_all) refl) (ap is_white e) (sweep us s d h k)
      | inr (inr (inr e)) ↦ skip (rw (e, dfs_all) refl) (ap is_white e) (sweep us s d h k)
    ]
      where
        skip :
            dfs_all adj depth (t ∷ us) s ≡ dfs_all adj depth us s
            → is_white (s.color t.id) ≡ false
            → Swept us s
            → Swept (t ∷ us) s
        skip same e w = record {
          result = w.result;
          returns = same ∙ w.returns;
          fewer = w.fewer;
          found_grows = w.found_grows;
          known = Known-cons t us w.result (not_white s w.result t.id w.fewer e) w.known;
        }

        after :
            s.color t.id ≡ white
            → (r : Ran s (dfs adj depth t.id s))
            → (Cycle adj × ¬ (r.result.1.found ≡ [])) ⊎ (is_white (r.result.1.color t.id) ≡ false)
            → Swept us r.result.1
            → Swept (t ∷ us) s
        after e r out w = record {
          result = w.result;
          returns =
              rw (e, dfs_all) refl
              ∙ then_returns (dfs adj depth t.id s) r.result (dfs_all adj depth us) r.returns
              ∙ w.returns;
          fewer = λ x p. r.fewer x (w.fewer x p);
          found_grows = λ q. r.found_grows (w.found_grows q);
          known = elim out [
            | inl (c, nf) ↦ inl (c, λ q. nf (w.found_grows q))
            | inr nw ↦
                Known-cons t us w.result (not_white r.result.1 w.result t.id w.fewer nw) w.known
          ];
        }

whiten-declared :
    (ts : List Task) (m : ℕ → Color) (x : ℕ)
    → whiten ts m x ≡ (if declared x ts then white else m x)
whiten-declared [] m x = refl
whiten-declared (t ∷ ts) m x = whiten-declared ts (put t.id white m) x ∙ ground arith

whites-length : (color : ℕ → Color) (ts : List Task) → whites color ts ≤ length ts
whites-length color [] = omega arith
whites-length color (t ∷ ts) = ground (arith, whites-length color ts)

unvisited-declared :
    (ts : List Task) (x : ℕ)
    → ((declared x ts ≡ true) × ((unvisited ts).color x ≡ white))
      ⊎ ((declared x ts ≡ false) × ((unvisited ts).color x ≡ absent))
unvisited-declared ts x = elim (Bool-cases (declared x ts)) [
  | inl d ↦ inl (d, whiten-declared ts (λ _. absent) x ∙ rw d refl)
  | inr d ↦ inr (d, whiten-declared ts (λ _. absent) x ∙ rw d refl)
]

unvisited-Good : (ts : List Task) → Good (adjacent ts) (unvisited ts)
unvisited-Good ts = record {
  black_safe = λ x p. elim (unvisited-declared ts x) [
    | inl (d, w) ↦ absurd (cc (p, w))
    | inr (d, a) ↦ absurd (cc (p, a))
  ];
  absent_alone = λ x p. elim (unvisited-declared ts x) [
    | inl (d, w) ↦ absurd (cc (p, w))
    | inr (d, a) ↦ elim (adjacent-declared ts x) [ inl d' ↦ absurd (cc (d, d')) | inr e ↦ e ]
  ];
}

unvisited-not_gray : (ts : List Task) (x : ℕ) → ¬ ((unvisited ts).color x ≡ gray)
unvisited-not_gray ts x p = elim (unvisited-declared ts x) [
  | inl (d, w) ↦ cc (p, w)
  | inr (d, a) ↦ cc (p, a)
]

unvisited-WhiteDeclared : (ts : List Task) → WhiteDeclared (adjacent ts) ts (unvisited ts)
unvisited-WhiteDeclared ts x p = elim (unvisited-declared ts x) [
  | inl (d, w) ↦ d
  | inr (d, a) ↦ absurd (cc (p, ap is_white a))
]

-- Where nothing was found, every task is safe.
all-Safe :
    (ts : List Task) (s : Marks)
    → Good (adjacent ts) s
    → ((x : ℕ) → ¬ (s.color x ≡ gray))
    → Fewer (unvisited ts) s
    → ((x : ℕ) → declared x ts ≡ true → is_white (s.color x) ≡ false)
    → (x : ℕ) → Safe (adjacent ts) x
all-Safe ts s g ng f d x = elim (Color-cases (s.color x)) [
  | inl a ↦ safe λ y p. absurd (cc (p, ap (elem y) (g.absent_alone x a)))
  | inr (inl w) ↦
      absurd (cc (d x (unvisited-WhiteDeclared ts x (f x (ap is_white w))), ap is_white w))
  | inr (inr (inl e)) ↦ absurd (ng x e)
  | inr (inr (inr b)) ↦ g.black_safe x b
]

-- The search for cycles always returns, and it reports nothing if and only if no route leads back
-- to a task that a chain of routes comes from.
pub detect_cycles_decides :
    (ts : List Task)
    → (s : Marks) × (detect_cycles ts ≡ some s) × ((s.found ≡ []) ↔ ¬ Cycle (adjacent ts))
unfolding detect_cycles
detect_cycles_decides ts = (
  w.result,
  w.returns,
  elim w.known [
    | inl (c, nf) ↦ ((λ e. absurd (nf e)), λ none_. absurd (none_ c))
    | inr (g, ng, f, d) ↦ (
      (λ e c.
          Safe-not-Cycle (adjacent ts) c.to (all-Safe ts w.result g ng w.fewer d c.to) c.from c.back
            c.route),
      λ none_. f,
    )
  ],
)
  where
    w : Swept (adjacent ts) ts (1 + length ts) ts (unvisited ts)
    w =
        sweep (adjacent ts) ts (1 + length ts) ts (unvisited ts) (unvisited-WhiteDeclared ts)
          (omega (arith, whites-length (unvisited ts).color ts))
          (inr (unvisited-Good ts, unvisited-not_gray ts, refl, λ x p. absurd (cc p)))
