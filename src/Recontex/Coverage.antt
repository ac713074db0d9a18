-- ===== src/Recontex/Coverage.antt =====
-- recontex.cxx, `OptimalCoverage`: the edges that the paths need not take, and the paths.
use restruc.Base.{
  ℕ, zero, suc, Bool, true, false, ◌&&◌, ◌||◌, Option, none, some, List, [], ◌∷◌, ◌++◌,
  if◌then◌else◌, ltb, ◌==◌,
}
use restruc.Base.Run.{Run, done, fault, out_of_fuel, ◌>>=◌}
use restruc.Base.Assoc
use restruc.Flo.{Flo}
use restruc.Reflo.Fill.{from_back}
use restruc.Recontex.Nodes.{
  BranchType, conditional, unconditional, next, Branch, Node, Nodes, Graph, Edges, build_nodes,
  normalize_nodes, lower_bound, is_visited, top_sort, order_of, find_loops,
}
use restruc.Recontex.Paths.{AnalyzePath, AnalyzePaths}

unfoldable pub same_edge : ℕ × ℕ → ℕ × ℕ → Bool
same_edge e f = e.0 == f.0 && e.1 == f.1

unfoldable pub has_edge : ℕ × ℕ → Edges → Bool
has_edge e [] = false
has_edge e (f ∷ fs) = same_edge f e || has_edge e fs

unfoldable pub erase_edge : ℕ × ℕ → Edges → Edges
erase_edge e [] = []
erase_edge e (f ∷ fs) = if same_edge f e then erase_edge e fs else f ∷ erase_edge e fs

-- The first test of the search in `is_reachable`. `nodes_order_[end]` of an address without a place is
-- 0; `find_loops` has thrown before that.
unfoldable pub is_late : List ℕ → ℕ → ℕ → Bool
is_late order end v = elim (order_of order v) [
  | done n ↦ elim (order_of order end) [
    | done m ↦ ltb m n
    | fault ↦ ltb 0 n
    | out_of_fuel ↦ ltb 0 n
  ]
  | fault ↦ true
  | out_of_fuel ↦ true
]

-- A search in the graph without `blocked` and without the edges of loops. The answer says whether `end`
-- was reached, and what has been visited.
module _ (order : List ℕ) (nodes : Nodes) (loops : Edges) (blocked : ℕ × ℕ) (end : ℕ) where
  enter_node : (Node → List ℕ → Run (Bool × List ℕ)) → ℕ → List ℕ → Run (Bool × List ℕ)
  enter_node inside v visited =
      if is_late order end v then done (false, visited) else elim (Assoc.find v nodes) [
        | none ↦ done (false, v ∷ visited)
        | some node ↦ inside node (v ∷ visited)
      ]

  -- The loop over the branches of a node.
  unfoldable pub reach_each : ℕ → ℕ → List Branch → List ℕ → Run (Bool × List ℕ)
  unfolding enter_node
  reach_each fuel source [] visited = done (false, visited)
  reach_each zero source (b ∷ bs) visited = out_of_fuel
  reach_each (suc fuel) source (b ∷ bs) visited =
      let edge : ℕ × ℕ = (source, b.branch) in
      let rest = reach_each fuel source bs in
      let deeper =
        enter_node (λ node seen. reach_each fuel node.source node.branches seen) b.branch visited in
      if same_edge edge blocked || has_edge edge loops
      then rest visited
      else if b.branch == end
      then done (true, visited)
      else if is_visited b.branch visited
      then rest visited
      else (deeper >>= λ (found, seen). if found then done (true, seen) else rest seen)

  unfoldable pub is_reachable : ℕ → ℕ → Run Bool
  unfolding enter_node
  is_reachable fuel start =
      enter_node (λ node seen. reach_each fuel node.source node.branches seen) start []
      >>= λ (found, seen). done found

module _ (fuel : ℕ) (order : List ℕ) (all : Nodes) (loops : Edges) where
  useless_of : ℕ → List Branch → Edges → Run Edges
  useless_of source [] useless = done useless
  useless_of source (b ∷ bs) useless =
      is_reachable order all loops (source, b.branch) b.branch fuel source >>= λ around.
      useless_of source bs (if around then (source, b.branch) ∷ useless else useless)

  -- The loop of `find_useless_edges`.
  unfoldable pub find_useless_edges : Nodes → Edges → Run Edges
  unfolding useless_of
  find_useless_edges [] useless = done useless
  find_useless_edges ((k, node) ∷ nodes) useless =
      useless_of node.source node.branches useless >>= λ useless'. find_useless_edges nodes useless'

-- `visited_loops` and `paths_`.
pub record Building : Type 0 where
  pub visited_loops : Edges
  pub paths : AnalyzePaths

-- `is_jump`.
unfoldable pub is_jump : BranchType → Bool
is_jump conditional = true
is_jump unconditional = true
is_jump next = false

-- The path, from its back, before the edge of the first branch, which comes last. Where the others
-- have added decisions, the last of them is now not taken.
unfoldable pub first_path : Bool → Branch → AnalyzePath → AnalyzePath
first_path false b path = record { jump = b.source; take = is_jump b.type } ∷ path
first_path true b [] = []
first_path true b (d ∷ ds) =
    let kept = record d { take = false } ∷ ds in
    elim b.type [
      | conditional ↦ kept
      | unconditional ↦ record { jump = b.source; take = true } ∷ kept
      | next ↦ kept
    ]

module _ (g : Graph) (loops useless : Edges) where
  -- `dfs(v)`, and the visit of an edge, with what goes on at the branches of a node.
  visit_node :
      (Node → AnalyzePath → Building → Run Building) → ℕ → AnalyzePath → Building → Run Building
  visit_node inside v path s =
      let complete : Building = record s { paths = s.paths ++ from_back path [] ∷ [] } in
      if is_visited v g.ends
      then done complete
      else elim (Assoc.find v g.nodes) [ none ↦ done complete | some node ↦ inside node path s ]

  visit_edge :
      (Node → AnalyzePath → Building → Run Building) → ℕ × ℕ → AnalyzePath → Building → Run Building
  unfolding visit_node
  visit_edge inside edge path s =
      let go : Building → Run Building =
        λ s'. if has_edge edge useless then done s' else visit_node inside edge.1 path s' in
      if has_edge edge loops
      then if has_edge edge s.visited_loops
        then done s
        else (go (record s { visited_loops = edge ∷ s.visited_loops }) >>= λ s'.
            done (record s' { visited_loops = erase_edge edge s'.visited_loops }))
      else go s

  -- The loop over the branches: all but the first, then the first.
  unfoldable pub visit_branches :
      ℕ → ℕ → List Branch → Branch → Bool → AnalyzePath → Building → Run Building
  unfolding visit_edge
  visit_branches zero source bs first added path s = out_of_fuel
  visit_branches (suc fuel) source bs first added path s =
      let inside : Node → AnalyzePath → Building → Run Building = λ node path' s'.
        elim node.branches [
          | [] ↦ fault
          | b ∷ others ↦ visit_branches fuel node.source others b false path' s'
        ] in
      elim bs [
        | [] ↦ visit_edge inside (source, first.branch) (first_path added first path) s
        | b ∷ others ↦
            let longer : AnalyzePath = record { jump = b.source; take = is_jump b.type } ∷ path in
            visit_edge inside (source, b.branch) longer s >>= λ s'.
            visit_branches fuel source others first true longer s'
      ]

  unfoldable pub build_paths : ℕ → Flo → Run AnalyzePaths
  unfolding visit_node
  build_paths fuel f =
      let inside : Node → AnalyzePath → Building → Run Building = λ node path s.
        elim node.branches [
          | [] ↦ fault
          | b ∷ others ↦ visit_branches fuel node.source others b false path s
        ] in
      elim g.nodes [
        | [] ↦ done ([] ∷ [])
        | n ∷ ns ↦ elim (lower_bound f.entry_point g.nodes) [
          | none ↦ fault
          | some node ↦
              visit_node inside node.source [] (record { visited_loops = []; paths = [] }) >>= λ s.
              done s.paths
        ]
      ]

-- `analyze`: the loops and the paths, or `none` where it returns false. `validate_nodes` only asserts.
unfoldable pub analyze : ℕ → Flo → Run (Option (Edges × AnalyzePaths))
analyze fuel f = elim (build_nodes f) [
  | none ↦ done none
  | some built ↦
      let g : Graph = record built { nodes = normalize_nodes built.nodes } in
      top_sort fuel f g.nodes >>= λ order. find_loops order g.nodes [] >>= λ loops.
      find_useless_edges fuel order g.nodes loops g.nodes [] >>= λ useless.
      build_paths g loops useless fuel f >>= λ paths. done (some (loops, paths))
]
