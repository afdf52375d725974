-- ===== src/Workflow/Graph.antt =====
-- findReachable and detectCycles of runtime/workflow/compilation-service.ts. A Map or a Set that is
-- only asked for a key is a function of the key. The stack has its top first.
use distributed_task_platfor.Prelude.{
  ℕ, zero, suc, ◌+◌, Bool, true, false, Option, none, some, or_default, List, [], ◌∷◌, ◌++◌, length,
  ◌==◌, if◌then◌else◌,
}
use distributed_task_platfor.Workflow.Definition.{Task, neighbors}

abbrev pub put {ℓ} : {A : Type ℓ} → ℕ → A → (ℕ → A) → ℕ → A
put k a m x = if x == k then a else m x

-- The loop that fills `adj`: a later task of the same id wins.
abbrev pub fill : List Task → (ℕ → Option (List ℕ)) → ℕ → Option (List ℕ)
fill [] m = m
fill (t ∷ ts) m = fill ts (put t.id (some (neighbors t)) m)

-- adj.get(id) || []
unfoldable pub adjacent : List Task → ℕ → List ℕ
adjacent ts id = or_default (fill ts (λ _. none) id) []

abbrev pub push_unvisited : (ℕ → Bool) → List ℕ → List ℕ → List ℕ
push_unvisited visited [] stack = stack
push_unvisited visited (n ∷ ns) stack =
    push_unvisited visited ns (if visited n then stack else n ∷ stack)

-- The edges that leave the tasks: with one more, the rounds that the loop can need.
abbrev pub edges : (ℕ → List ℕ) → List Task → ℕ
edges adj [] = 0
edges adj (t ∷ ts) = length (adj t.id) + edges adj ts

module _ (adj : ℕ → List ℕ) where
  -- The body of the `while` loop, for a popped `current`.
  abbrev pub explore : (ℕ → Bool) → ℕ → List ℕ → (ℕ → Bool) × List ℕ
  explore visited current stack =
      if visited current
      then (visited, stack)
      else (put current true visited, push_unvisited (put current true visited) (adj current) stack)

  -- The `while` loop, for a number of rounds; `none` says that the rounds have run out.
  unfoldable pub search_from : ℕ → (ℕ → Bool) → List ℕ → Option (ℕ → Bool)
  search_from rounds visited [] = some visited
  search_from zero visited (current ∷ stack) = none
  search_from (suc rounds) visited (current ∷ stack) =
      search_from rounds (explore visited current stack).0 (explore visited current stack).1

-- findReachable
unfoldable pub find_reachable : ℕ → List Task → Option (ℕ → Bool)
find_reachable entry ts =
    search_from (adjacent ts) (1 + edges (adjacent ts) ts) (λ _. false) (entry ∷ [])

-- What color.get answers; `absent` is undefined.
pub data Color : Type 0 where
  absent white gray black : Color

-- The colours, and the diagnostics so far: the task and the neighbour that each one names.
pub record Marks : Type 0 where
  pub color : ℕ → Color
  pub found : List (ℕ × ℕ)

abbrev pub paint : ℕ → Color → Marks → Marks
paint id c s = record s { color = put id c s.color }

abbrev pub report : ℕ → ℕ → Marks → Marks
report id neighbor s = record s { found = s.found ++ (id, neighbor) ∷ [] }

-- A call that may have run out of depth, and what follows it.
abbrev pub unless_found :
    Option (Bool × Marks) → (Marks → Option (Bool × Marks)) → Option (Bool × Marks)
unless_found none next = none
unless_found (some (true, s)) next = some (true, s)
unless_found (some (false, s)) next = next s

abbrev pub then_go_on : Option (Bool × Marks) → (Marks → Option Marks) → Option Marks
then_go_on none next = none
then_go_on (some (b, s)) next = next s

-- The `for` loop of dfs over the neighbours that are left, with the recursive call as `dfs_of`.
unfoldable pub scan :
    (ℕ → Marks → Option (Bool × Marks)) → ℕ → List ℕ → Marks → Option (Bool × Marks)
scan dfs_of id [] s = some (false, paint id black s)
scan dfs_of id (n ∷ ns) s = elim (s.color n) [
  | gray ↦ some (true, report id n s)
  | white ↦ unless_found (dfs_of n s) (scan dfs_of id ns)
  | _ ↦ scan dfs_of id ns s
]

module _ (adj : ℕ → List ℕ) where
  -- dfs, to a depth of calls; `none` says that the depth has run out.
  unfoldable pub dfs : ℕ → ℕ → Marks → Option (Bool × Marks)
  dfs zero id s = none
  dfs (suc depth) id s = scan (dfs depth) id (adj id) (paint id gray s)

  -- The last loop of detectCycles.
  unfoldable pub dfs_all : ℕ → List Task → Marks → Option Marks
  dfs_all depth [] s = some s
  dfs_all depth (t ∷ ts) s = elim (s.color t.id) [
    | white ↦ then_go_on (dfs depth t.id s) (dfs_all depth ts)
    | _ ↦ dfs_all depth ts s
  ]

abbrev pub whiten : List Task → (ℕ → Color) → ℕ → Color
whiten [] m = m
whiten (t ∷ ts) m = whiten ts (put t.id white m)

abbrev pub unvisited : List Task → Marks
unvisited ts = record { color = whiten ts (λ _. absent); found = [] }

-- detectCycles
unfoldable pub detect_cycles : List Task → Option Marks
detect_cycles ts = dfs_all (adjacent ts) (1 + length ts) ts (unvisited ts)
