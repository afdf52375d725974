-- ===== src/Workflow/CycleVerdict.antt =====
-- detectCycles of runtime/workflow/compilation-service.ts: what one call of dfs finds out.
use distributed_task_platfor.Prelude.{
  ℕ, zero, suc, ◌≡◌, ◌⊎◌, inl, inr, refl, sym, ap, ◌∙◌, subst, Bool, true, false, Option, none,
  some, or_default, List, [], ◌∷◌, elem, ◌==◌, ==_iff, ==_refl, Bool-cases, arith,
}
use distributed_task_platfor.Workflow.Graph.{
  put, absent, white, gray, black, Marks, paint, report, unless_found, scan, dfs,
}
use distributed_task_platfor.Workflow.Reachable.{Reach, here, step}
use distributed_task_platfor.Workflow.CycleSearch.{Color-cases, is_white, nonempty}

-- No endless chain of routes leaves this task.
pub data Safe (adj : ℕ → List ℕ) : ℕ → Type 0 where
  safe : {x : ℕ} → ((y : ℕ) → elem y (adj x) ≡ true → Safe adj y) → Safe adj x

-- A route that leads back to where it comes from.
pub record Cycle (adj : ℕ → List ℕ) : Type 0 where
  pub from : ℕ
  pub to : ℕ
  pub route : elem to (adj from) ≡ true
  pub back : Reach adj to from

module _ (adj : ℕ → List ℕ) where
  -- The first step of a chain.
  first_step :
      (x u v : ℕ)
      → Reach adj x u
      → elem v (adj u) ≡ true
      → (z : ℕ) × (elem z (adj x) ≡ true) × Reach adj z v
  first_step x u v here e = (v, e, here)
  first_step x u v (step {u = w} p q) e =
      let (z, out, rest) = first_step x w u p q in (z, out, step {u = u} {v = v} rest e)

  pub Safe-not-Cycle : (x : ℕ) → Safe adj x → (y : ℕ) → Reach adj x y → elem x (adj y) ≡ true → ⊥
  Safe-not-Cycle x (safe next) y p e =
      let (z, out, rest) = first_step x y x p e in Safe-not-Cycle z (next z out) x rest out

  pub record Good (s : Marks) : Type 0 where
    pub black_safe : (x : ℕ) → s.color x ≡ black → Safe adj x
    pub absent_alone : (x : ℕ) → s.color x ≡ absent → adj x ≡ []

  -- The gray tasks are those on the way to the current one.
  abbrev pub Grays : ℕ → Marks → Type 0
  Grays id s = (x : ℕ) → s.color x ≡ gray → Reach adj x id

  pub record Clean (id : ℕ) (s s' : Marks) : Type 0 where
    pub good : Good s'
    pub now_black : s'.color id ≡ black
    pub same_found : s'.found ≡ s.found
    pub grays_from : (x : ℕ) → s'.color x ≡ gray → s.color x ≡ gray
    pub grays_kept : (x : ℕ) → s.color x ≡ gray → (x ≡ id) ⊎ (s'.color x ≡ gray)

  -- What a call of dfs found out.
  abbrev pub Verdict : ℕ → Marks → Bool × Marks → Type 0
  Verdict id s r =
      ((r.0 ≡ true) × Cycle adj × ¬ (r.1.found ≡ [])) ⊎ ((r.0 ≡ false) × Clean id s r.1)

  abbrev pub CallsClean : (ℕ → Marks → Option (Bool × Marks)) → Type 0
  CallsClean dfs_of =
      (n : ℕ) (s : Marks) (r : Bool × Marks)
      → Good s
      → s.color n ≡ white
      → Grays n s
      → dfs_of n s ≡ some r
      → Verdict n s r

  some_inj : {A : Type 0} (a b : A) → some a ≡ some b → a ≡ b
  some_inj a b e = ap (λ o. or_default o a) e

  after_call :
      (n id : ℕ) (s : Marks) (r : Bool × Marks) (next : Marks → Option (Bool × Marks))
      (o : Option (Bool × Marks))
      → ((r' : Bool × Marks) → o ≡ some r' → Verdict n s r')
      → ((s1 : Marks) → Clean n s s1 → next s1 ≡ some r → Verdict id s r)
      → unless_found o next ≡ some r
      → Verdict id s r
  after_call n id s r next none v go e = absurd (cc e)
  after_call n id s r next (some (true, s1)) v go e = elim (v (true, s1) refl) [
    | inl (b, c, f) ↦ subst (Verdict id s) (some_inj (true, s1) r e) (inl (refl, c, f))
    | inr (b, c) ↦ absurd (cc b)
  ]
  after_call n id s r next (some (false, s1)) v go e = elim (v (false, s1) refl) [
    | inl (b, c, f) ↦ absurd (cc b)
    | inr (b, c) ↦ go s1 c e
  ]

  -- A clean call in between changes no verdict.
  Verdict-after :
      (n id : ℕ) (s s1 : Marks) (r : Bool × Marks)
      → s.color n ≡ white
      → Clean n s s1
      → Verdict id s1 r
      → Verdict id s r
  Verdict-after n id s s1 r w c (inl h) = inl h
  Verdict-after n id s s1 r w c (inr (b, d)) = inr (
    b,
    record {
      good = d.good;
      now_black = d.now_black;
      same_found = d.same_found ∙ c.same_found;
      grays_from = λ x p. c.grays_from x (d.grays_from x p);
      grays_kept = λ x p. elim (c.grays_kept x p) [
        | inl same ↦ absurd (cc (p, w, ap s.color same))
        | inr g ↦ d.grays_kept x g
      ];
    },
  )

  finish-Clean :
      (id : ℕ) (s : Marks)
      → Good s
      → s.color id ≡ gray
      → ((y : ℕ) → elem y (adj id) ≡ true → Safe adj y)
      → Clean id s (paint id black s)
  finish-Clean id s g e done = record {
    good = record {
      black_safe = λ x. elim (Bool-cases (x == id)) [
        | inl same ↦ rw same (λ p. subst (Safe adj) (sym ((==_iff x id).0 same)) (safe done))
        | inr other ↦ rw other (g.black_safe x)
      ];
      absent_alone = λ x. elim (Bool-cases (x == id)) [
        | inl same ↦ rw same (λ p. absurd (cc p))
        | inr other ↦ rw other (g.absent_alone x)
      ];
    };
    now_black = rw (==_refl id) refl;
    same_found = refl;
    grays_from = λ x. elim (Bool-cases (x == id)) [
      | inl same ↦ rw same (λ p. absurd (cc p))
      | inr other ↦ rw other (λ p. p)
    ];
    grays_kept = λ x p. elim (Bool-cases (x == id)) [
      | inl same ↦ inl ((==_iff x id).0 same)
      | inr other ↦ inr (rw other p)
    ];
  }

  nothing_left : (y : ℕ) → (elem y [] ≡ true) ⊎ Safe adj y → Safe adj y
  nothing_left y (inl q) = absurd (cc q)
  nothing_left y (inr ok) = ok

  scan_clean :
      (dfs_of : ℕ → Marks → Option (Bool × Marks)) (id : ℕ) (ns : List ℕ) (s : Marks)
      (r : Bool × Marks)
      → CallsClean dfs_of
      → Good s
      → s.color id ≡ gray
      → Grays id s
      → ((y : ℕ) → elem y ns ≡ true → elem y (adj id) ≡ true)
      → ((y : ℕ) → elem y (adj id) ≡ true → (elem y ns ≡ true) ⊎ Safe adj y)
      → scan dfs_of id ns s ≡ some r
      → Verdict id s r
  unfolding scan
  scan_clean dfs_of id [] s r calls g e grays sub done h =
      subst (Verdict id s) (some_inj (false, paint id black s) r h)
        (inr (refl, finish-Clean id s g e λ y p. nothing_left y (done y p)))
  scan_clean dfs_of id (n ∷ ns) s r calls g e grays sub done h =
      let onward = λ (ok : Safe adj n) (q : scan dfs_of id ns s ≡ some r).
        scan_clean dfs_of id ns s r calls g e grays (λ y p. sub y (ground (arith, p)))
          (rest_done ok) q in
      elim (Color-cases (s.color n)) [
        | inl is_absent ↦
            onward (safe λ y p. absurd (no_routes is_absent y p)) (sym (scan_absent is_absent) ∙ h)
        | inr (inl is_white) ↦
            after_call n id s r (scan dfs_of id ns) (dfs_of n s)
              (λ r' q. calls n s r' g is_white (λ x p. step {u = id} {v = n} (grays x p) route) q)
              (λ s1 c q. Verdict-after n id s s1 r is_white c (
                scan_clean dfs_of id ns s1 r calls c.good (still_gray s1 is_white c)
                  (λ x p. grays x (c.grays_from x p)) (λ y p. sub y (ground (arith, p)))
                  (rest_done (c.good.black_safe n c.now_black)) q))
              (sym (scan_white is_white) ∙ h)
        | inr (inr (inl is_gray)) ↦
            subst (Verdict id s) (some_inj (true, report id n s) r (sym (scan_gray is_gray) ∙ h)) (
              inl (
                refl,
                record { from = id; to = n; route = route; back = grays n is_gray },
                nonempty s.found _,
              ))
        | inr (inr (inr is_black)) ↦
            onward (g.black_safe n is_black) (sym (scan_black is_black) ∙ h)
      ]
    where
      route : elem n (adj id) ≡ true
      route = sub n (ground arith)

      no_routes : s.color n ≡ absent → (y : ℕ) → elem y (adj n) ≡ true → ⊥
      no_routes is_absent y p = cc (p, ap (elem y) (g.absent_alone n is_absent))

      scan_absent : s.color n ≡ absent → scan dfs_of id (n ∷ ns) s ≡ scan dfs_of id ns s
      scan_absent e' = rw (e', scan) refl

      scan_white :
          s.color n ≡ white
          → scan dfs_of id (n ∷ ns) s ≡ unless_found (dfs_of n s) (scan dfs_of id ns)
      scan_white e' = rw (e', scan) refl

      scan_gray : s.color n ≡ gray → scan dfs_of id (n ∷ ns) s ≡ some (true, report id n s)
      scan_gray e' = rw (e', scan) refl

      scan_black : s.color n ≡ black → scan dfs_of id (n ∷ ns) s ≡ scan dfs_of id ns s
      scan_black e' = rw (e', scan) refl

      rest_done : Safe adj n → (y : ℕ) → elem y (adj id) ≡ true → (elem y ns ≡ true) ⊎ Safe adj y
      rest_done ok y p = elim (done y p) [
        | inr ok_y ↦ inr ok_y
        | inl q ↦ elim (Bool-cases (n == y)) [
          | inl same ↦ inr (subst (Safe adj) ((==_iff n y).0 same) ok)
          | inr other ↦ inl (ground (arith, q))
        ]
      ]

      still_gray : (s1 : Marks) → s.color n ≡ white → Clean n s s1 → s1.color id ≡ gray
      still_gray s1 w c = elim (c.grays_kept id e) [
        | inl same ↦ absurd (cc (e, w, ap s.color same))
        | inr q ↦ q
      ]

  -- A call of dfs ends in a cycle, or it paints its task black and no endless chain leaves it.
  pub dfs_clean : (depth : ℕ) → CallsClean (dfs adj depth)
  unfolding dfs
  dfs_clean zero n s r g w grays h = absurd (cc h)
  dfs_clean (suc depth) n s r g w grays h = repaint (
      scan_clean (dfs adj depth) n (adj n) (paint n gray s) r (dfs_clean depth)
        (record {
          black_safe = λ x. elim (Bool-cases (x == n)) [
            | inl same ↦ rw same (λ p. absurd (cc p))
            | inr other ↦ rw other (g.black_safe x)
          ];
          absent_alone = λ x. elim (Bool-cases (x == n)) [
            | inl same ↦ rw same (λ p. absurd (cc p))
            | inr other ↦ rw other (g.absent_alone x)
          ];
        })
        (rw (==_refl n) refl)
        (λ x. elim (Bool-cases (x == n)) [
          | inl same ↦ λ p. subst (λ i. Reach adj i n) (sym ((==_iff x n).0 same)) here
          | inr other ↦ rw other (grays x)
        ])
        (λ y p. p) (λ y p. inl p) h)
    where
      repaint : Verdict n (paint n gray s) r → Verdict n s r
      repaint (inl c) = inl c
      repaint (inr (b, c)) = inr (
        b,
        record {
          good = c.good;
          now_black = c.now_black;
          same_found = c.same_found;
          grays_from = λ x p. elim (Bool-cases (x == n)) [
            | inl same ↦ absurd (cc (p, c.now_black, ap r.1.color ((==_iff x n).0 same)))
            | inr other ↦ unpainted x other (c.grays_from x p)
          ];
          grays_kept = λ x p. elim (Bool-cases (x == n)) [
            | inl same ↦ inl ((==_iff x n).0 same)
            | inr other ↦ c.grays_kept x (rw other p)
          ];
        },
      )
        where
          unpainted : (x : ℕ) → (x == n) ≡ false → put n gray s.color x ≡ gray → s.color x ≡ gray
          unpainted x other = rw other (λ p. p)
