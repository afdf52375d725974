-- ===== src/Workflow/CycleSearch.antt =====
-- detectCycles of runtime/workflow/compilation-service.ts: the depth of its calls, by the tasks
-- that are still white.
use distributed_task_platfor.Prelude.{
  ℕ, zero, suc, ◌+◌, ◌≤◌, ◌<◌, ◌≡◌, ◌⊎◌, inl, inr, refl, sym, subst, Bool, true, false, Option,
  some, List, [], ◌∷◌, ◌++◌, ◌==◌, ==_iff, if◌then◌else◌, Bool-cases, arith,
}
use distributed_task_platfor.Workflow.Definition.{Task, declared}
use distributed_task_platfor.Workflow.Graph.{
  Color, absent, white, gray, black, Marks, paint, report, unless_found, scan, dfs,
}

pub Color-cases : (c : Color) → (c ≡ absent) ⊎ ((c ≡ white) ⊎ ((c ≡ gray) ⊎ (c ≡ black)))
Color-cases absent = inl refl
Color-cases white = inr (inl refl)
Color-cases gray = inr (inr (inl refl))
Color-cases black = inr (inr (inr refl))

abbrev pub is_white : Color → Bool
is_white white = true
is_white _ = false

abbrev pub whites : (ℕ → Color) → List Task → ℕ
whites color [] = 0
whites color (t ∷ ts) = (if is_white (color t.id) then 1 else 0) + whites color ts

-- Nothing turns white.
abbrev pub Fewer : Marks → Marks → Type 0
Fewer s s' = (x : ℕ) → is_white (s'.color x) ≡ true → is_white (s.color x) ≡ true

pub whites-Fewer :
    (s s' : Marks) → Fewer s s' → (ts : List Task) → whites s'.color ts ≤ whites s.color ts
whites-Fewer s s' h [] = omega arith
whites-Fewer s s' h (t ∷ ts) = ground (arith, whites-Fewer s s' h ts, h t.id)

pub paint-Fewer : (s : Marks) (n : ℕ) (c : Color) → is_white c ≡ false → Fewer s (paint n c s)
paint-Fewer s n c e x = elim (Bool-cases (x == n)) [
  | inl same ↦ rw same (λ p. absurd (cc (e, p)))
  | inr other ↦ rw other (λ p. p)
]

pub whites-paint :
    (s : Marks) (n : ℕ) (ts : List Task)
    → is_white (s.color n) ≡ true
    → declared n ts ≡ true
    → whites (paint n gray s).color ts < whites s.color ts
whites-paint s n [] e d = ground arith
whites-paint s n (t ∷ ts) e d = elim (Bool-cases (t.id == n)) [
  | inl h ↦
      let counted : is_white (s.color t.id) ≡ true =
        subst (λ i. is_white (s.color i) ≡ true) (sym ((==_iff t.id n).0 h)) e in
      rw h
        (rw counted (omega (arith, whites-Fewer s (paint n gray s) (paint-Fewer s n gray refl) ts)))
  | inr h ↦ rw h (omega (arith, whites-paint s n ts e (ground arith)))
]

-- The search went from `s` to its result.
pub record Ran (s : Marks) (o : Option (Bool × Marks)) : Type 0 where
  pub result : Bool × Marks
  pub returns : o ≡ some result
  pub fewer : Fewer s result.1
  pub found_grows : result.1.found ≡ [] → s.found ≡ []

pub nonempty : (xs : List (ℕ × ℕ)) (x : ℕ × ℕ) → ¬ (xs ++ x ∷ [] ≡ [])
nonempty [] x e = cc e
nonempty (y ∷ ys) x e = cc e

-- What follows a call that ran.
Ran-unless_found :
    (s : Marks) (o : Option (Bool × Marks)) (next : Marks → Option (Bool × Marks))
    → Ran s o
    → ((s' : Marks) → Fewer s s' → Ran s' (next s'))
    → Ran s (unless_found o next)
Ran-unless_found s o next r go = rw r.returns (after r.result r.fewer r.found_grows)
  where
    after :
        (result : Bool × Marks)
        → Fewer s result.1
        → (result.1.found ≡ [] → s.found ≡ [])
        → Ran s (unless_found (some result) next)
    after (true, s') f g = record {
      result = (true, s');
      returns = refl;
      fewer = f;
      found_grows = g;
    }
    after (false, s') f g = record {
      result = (go s' f).result;
      returns = (go s' f).returns;
      fewer = λ x p. f x ((go s' f).fewer x p);
      found_grows = λ e. g ((go s' f).found_grows e);
    }

module _ (adj : ℕ → List ℕ) (ts : List Task) where
  abbrev pub WhiteDeclared : Marks → Type 0
  WhiteDeclared s = (x : ℕ) → is_white (s.color x) ≡ true → declared x ts ≡ true

  -- A call of dfs at a depth that suffices for the white tasks.
  abbrev CallsRun : ℕ → (ℕ → Marks → Option (Bool × Marks)) → Type 0
  CallsRun depth dfs_of =
      (n : ℕ) (s : Marks)
      → WhiteDeclared s
      → is_white (s.color n) ≡ true
      → whites s.color ts ≤ depth
      → Ran s (dfs_of n s)

  scan_runs :
      (depth : ℕ) (dfs_of : ℕ → Marks → Option (Bool × Marks)) (id : ℕ) (ns : List ℕ) (s : Marks)
      → CallsRun depth dfs_of
      → WhiteDeclared s
      → whites s.color ts ≤ depth
      → Ran s (scan dfs_of id ns s)
  unfolding scan
  scan_runs depth dfs_of id [] s calls d h = record {
    result = (false, paint id black s);
    returns = refl;
    fewer = paint-Fewer s id black refl;
    found_grows = λ e. e;
  }
  scan_runs depth dfs_of id (n ∷ ns) s calls d h = elim (Color-cases (s.color n)) [
    | inl e ↦ rw (e, scan) (scan_runs depth dfs_of id ns s calls d h)
    | inr (inl e) ↦
        rw (e, scan)
          (Ran-unless_found s (dfs_of n s) (scan dfs_of id ns) (calls n s d (rw e refl) h) λ s' f.
            scan_runs depth dfs_of id ns s' calls (λ x p. d x (f x p))
              (omega (arith, h, whites-Fewer s s' f ts)))
    | inr (inr (inl e)) ↦
        rw (e, scan)
          (record {
            result = (true, report id n s);
            returns = refl;
            fewer = λ x p. p;
            found_grows = λ bad. absurd (nonempty s.found _ bad);
          })
    | inr (inr (inr e)) ↦ rw (e, scan) (scan_runs depth dfs_of id ns s calls d h)
  ]

  pub dfs_runs : (depth : ℕ) → CallsRun depth (dfs adj depth)
  unfolding dfs
  dfs_runs zero n s d e h = absurd (omega (arith, h, whites-paint s n ts e (d n e)))
  dfs_runs (suc depth) n s d e h =
      let f = paint-Fewer s n gray refl in
      let r =
        scan_runs depth (dfs adj depth) n (adj n) (paint n gray s) (dfs_runs depth)
          (λ x p. d x (f x p)) (omega (arith, h, whites-paint s n ts e (d n e))) in
      record {
        result = r.result;
        returns = r.returns;
        fewer = λ x p. f x (r.fewer x p);
        found_grows = r.found_grows;
      }
