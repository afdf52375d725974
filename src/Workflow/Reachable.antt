-- ===== src/Workflow/Reachable.antt =====
-- findReachable of runtime/workflow/compilation-service.ts: its rounds and the set it returns.
use distributed_task_platfor.Prelude.{
  ℕ, zero, suc, ◌+◌, ◌≤◌, ◌≡◌, ◌↔◌, ◌⊎◌, inl, inr, refl, sym, ap, Bool, true, false, Option, none,
  some, or_default, List, [], ◌∷◌, length, elem, ◌==◌, ==_iff, subst, if◌then◌else◌, Bool-cases,
  arith,
}
use distributed_task_platfor.Workflow.Definition.{Task, neighbors, declared}
use distributed_task_platfor.Workflow.Graph.{
  put, fill, adjacent, push_unvisited, edges, explore, search_from, find_reachable,
}

-- The tasks that a chain of routes leads to.
pub data Reach (adj : ℕ → List ℕ) (entry : ℕ) : ℕ → Type 0 where
  here : Reach adj entry entry
  step : {u v : ℕ} → Reach adj entry u → elem v (adj u) ≡ true → Reach adj entry v

fill-declared :
    (ts : List Task) (m : ℕ → Option (List ℕ)) (id : ℕ)
    → declared id ts ≡ false
    → fill ts m id ≡ m id
fill-declared [] m id e = refl
fill-declared (t ∷ ts) m id e =
    ground (arith, fill-declared ts (put t.id (some (neighbors t)) m) id)

-- An id that no task declares has no routes.
pub adjacent-declared : (ts : List Task) (id : ℕ) → (declared id ts ≡ true) ⊎ (adjacent ts id ≡ [])
unfolding adjacent
adjacent-declared ts id = elim (Bool-cases (declared id ts)) [
  | inl e ↦ inl e
  | inr e ↦ inr (ap (λ o. or_default o []) (fill-declared ts (λ _. none) id e))
]

elem-push_unvisited :
    (visited : ℕ → Bool) (ns stack : List ℕ) (x : ℕ)
    → (elem x (push_unvisited visited ns stack) ≡ true)
      ↔ ((elem x stack ≡ true) ⊎ ((elem x ns ≡ true) × (visited x ≡ false)))
elem-push_unvisited visited [] stack x = ground arith
elem-push_unvisited visited (n ∷ ns) stack x = elim (Bool-cases (visited n)) [
  | inl e ↦ rw e (ground (arith, elem-push_unvisited visited ns stack x, seen_not_new e))
  | inr e ↦ rw e (ground (arith, elem-push_unvisited visited ns (n ∷ stack) x, new e))
]
  where
    seen_not_new : visited n ≡ true → (n == x) ≡ true → visited x ≡ true
    seen_not_new e h = subst (λ i. visited i ≡ true) ((==_iff n x).0 h) e

    new : visited n ≡ false → (n == x) ≡ true → visited x ≡ false
    new e h = subst (λ i. visited i ≡ false) ((==_iff n x).0 h) e

length-push_unvisited :
    (visited : ℕ → Bool) (ns stack : List ℕ)
    → length (push_unvisited visited ns stack) ≤ length ns + length stack
length-push_unvisited visited [] stack = omega arith
length-push_unvisited visited (n ∷ ns) stack = elim (Bool-cases (visited n)) [
  | inl e ↦ rw e (omega (arith, length-push_unvisited visited ns stack))
  | inr e ↦ rw e (omega (arith, length-push_unvisited visited ns (n ∷ stack)))
]

module _ (adj : ℕ → List ℕ) where
  -- The edges that leave the tasks not visited yet.
  potential : (ℕ → Bool) → List Task → ℕ
  potential visited [] = 0
  potential visited (t ∷ ts) =
      (if visited t.id then 0 else length (adj t.id)) + potential visited ts

  potential-le :
      (visited : ℕ → Bool) (c : ℕ) (ts : List Task)
      → potential (put c true visited) ts ≤ potential visited ts
  unfolding potential
  potential-le visited c [] = omega arith
  potential-le visited c (t ∷ ts) = ground (arith, potential-le visited c ts)

  potential-put :
      (visited : ℕ → Bool) (c : ℕ) (ts : List Task)
      → visited c ≡ false
      → declared c ts ≡ true
      → length (adj c) + potential (put c true visited) ts ≤ potential visited ts
  unfolding potential
  potential-put visited c [] e d = ground arith
  potential-put visited c (t ∷ ts) e d = elim (Bool-cases (t.id == c)) [
    | inl h ↦
        let counted : (if visited t.id then 0 else length (adj t.id)) ≡ length (adj c) =
          subst (λ i. (if visited i then 0 else length (adj i)) ≡ length (adj c))
            (sym ((==_iff t.id c).0 h)) (rw e refl) in
        rw h (omega (arith, counted, potential-le visited c ts))
    | inr h ↦ rw h (omega (arith, potential-put visited c ts e (ground arith)))
  ]

  -- From an empty set nothing is counted off.
  potential-edges : (ts : List Task) → potential (λ _. false) ts ≡ edges adj ts
  unfolding potential
  potential-edges [] = refl
  potential-edges (t ∷ ts) = omega (arith, potential-edges ts)

  module _ (ts : List Task) (known : (id : ℕ) → (declared id ts ≡ true) ⊎ (adj id ≡ [])) where
    -- One round uses up at least one stack entry or edge.
    explore_shrinks :
        (visited : ℕ → Bool) (c : ℕ) (stack : List ℕ)
        → length (explore adj visited c stack).1 + potential (explore adj visited c stack).0 ts
          ≤ length stack + potential visited ts
    explore_shrinks visited c stack = elim (Bool-cases (visited c)) [
      | inl e ↦ rw e (omega arith)
      | inr e ↦ rw e (elim (known c) [
        | inl d ↦ omega (
          arith,
          length-push_unvisited (put c true visited) (adj c) stack,
          potential-put visited c ts e d,
        )
        | inr d ↦ rw d (omega (arith, potential-le visited c ts))
      ])
    ]

    search_from_ends :
        (rounds : ℕ) (visited : ℕ → Bool) (stack : List ℕ)
        → length stack + potential visited ts ≤ rounds
        → (r : ℕ → Bool) × (search_from adj rounds visited stack ≡ some r)
    unfolding search_from
    search_from_ends rounds visited [] h = (visited, refl)
    search_from_ends zero visited (c ∷ stack) h = absurd (omega arith)
    search_from_ends (suc rounds) visited (c ∷ stack) h =
        search_from_ends rounds _ _ (omega (arith, explore_shrinks visited c stack))

  module _ (entry : ℕ) where
    record Explored (visited : ℕ → Bool) (stack : List ℕ) : Type 0 where
      source : (visited entry ≡ true) ⊎ (elem entry stack ≡ true)
      seen : (x : ℕ) → visited x ≡ true → Reach adj entry x
      waiting : (x : ℕ) → elem x stack ≡ true → Reach adj entry x
      closed :
          (x y : ℕ)
          → visited x ≡ true
          → elem y (adj x) ≡ true
          → (visited y ≡ true) ⊎ (elem y stack ≡ true)

    explore-Explored :
        (visited : ℕ → Bool) (c : ℕ) (stack : List ℕ)
        → Explored visited (c ∷ stack)
        → Explored (explore adj visited c stack).0 (explore adj visited c stack).1
    explore-Explored visited c stack h = elim (Bool-cases (visited c)) [
      | inl e ↦ rw e (record {
        source = ground (arith, h.source, seen_same e entry);
        seen = h.seen;
        waiting = λ x p. h.waiting x (ground (arith, p));
        closed = λ x y p q. ground (arith, h.closed x y p q, seen_same e y);
      })
      | inr e ↦ rw e (record {
        source = ground (arith, h.source, pushed entry);
        seen = λ x p. ground (arith, p, h.seen x, reach_same x);
        waiting = λ x p. ground (arith, p, pushed x, h.waiting x, step {u = c} {v = x} reach_c);
        closed = λ x y p q. ground (arith, p, q, pushed y, h.closed x y, routes_same x y);
      })
    ]
      where
        seen_same : visited c ≡ true → (x : ℕ) → (c == x) ≡ true → visited x ≡ true
        seen_same e x same = subst (λ i. visited i ≡ true) ((==_iff c x).0 same) e

        reach_c : Reach adj entry c
        reach_c = h.waiting c (ground arith)

        reach_same : (x : ℕ) → (x == c) ≡ true → Reach adj entry x
        reach_same x same = subst (Reach adj entry) (sym ((==_iff x c).0 same)) reach_c

        routes_same : (x y : ℕ) → (x == c) ≡ true → elem y (adj x) ≡ true → elem y (adj c) ≡ true
        routes_same x y same q = subst (λ i. elem y (adj i) ≡ true) ((==_iff x c).0 same) q

        pushed :
            (x : ℕ)
            → (elem x (push_unvisited (put c true visited) (adj c) stack) ≡ true)
              ↔ ((elem x stack ≡ true) ⊎ ((elem x (adj c) ≡ true) × (put c true visited x ≡ false)))
        pushed x = elem-push_unvisited (put c true visited) (adj c) stack x

    search_from-Explored :
        (rounds : ℕ) (visited : ℕ → Bool) (stack : List ℕ) (r : ℕ → Bool)
        → search_from adj rounds visited stack ≡ some r
        → Explored visited stack
        → Explored r []
    unfolding search_from
    search_from-Explored rounds visited [] r e h =
        subst (λ v. Explored v []) (ap (λ o. or_default o visited) e) h
    search_from-Explored zero visited (c ∷ stack) r e h = absurd (cc e)
    search_from-Explored (suc rounds) visited (c ∷ stack) r e h =
        search_from-Explored rounds _ _ r e (explore-Explored visited c stack h)

    Explored-Reach : (r : ℕ → Bool) → Explored r [] → (x : ℕ) → Reach adj entry x → r x ≡ true
    Explored-Reach r h x here = ground (arith, h.source)
    Explored-Reach r h x (step {u} {v} p q) =
        ground (arith, h.closed u v (Explored-Reach r h u p) q)

-- The loop of findReachable always ends within its rounds, and a task is in the set that it
-- returns if and only if a chain of routes leads to it from the entry task.
pub find_reachable_correct :
    (entry : ℕ) (ts : List Task)
    → (r : ℕ → Bool) × (find_reachable entry ts ≡ some r)
      × ((x : ℕ)
          → ((r x ≡ true) → Reach (adjacent ts) entry x)
            × (Reach (adjacent ts) entry x → r x ≡ true))
unfolding find_reachable
find_reachable_correct entry ts =
    let (r, e) =
      search_from_ends (adjacent ts) ts (adjacent-declared ts) (1 + edges (adjacent ts) ts)
        (λ _. false) (entry ∷ []) (omega (arith, potential-edges (adjacent ts) ts)) in
    let h = search_from-Explored (adjacent ts) entry _ _ (entry ∷ []) r e (record {
      source = inr (ground arith);
      seen = λ x p. ground (arith, p);
      waiting = λ x p. subst (Reach (adjacent ts) entry) (ground (arith, p)) here;
      closed = λ x y p q. ground (arith, p);
    }) in
    (r, e, λ x. (h.seen x, Explored-Reach (adjacent ts) entry r h x))
