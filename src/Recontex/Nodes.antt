-- ===== src/Recontex/Nodes.antt =====
-- recontex.hxx and recontex.cxx, `OptimalCoverage`: the graph of the jumps of a function, the order of
-- its nodes, and the edges that lead back.
use restruc.Base.{
  ℕ, zero, suc, ◌+◌, ◌%◌, Bool, true, false, ◌||◌, Option, none, some, List, [], ◌∷◌, ◌++◌,
  if◌then◌else◌, leb, ◌==◌,
}
use restruc.Base.Run.{Run, done, fault, out_of_fuel, ◌>>=◌}
use restruc.Base.Assoc
use restruc.Hash.{word}
use restruc.Zydis.{Instruction, Mnemonic, ret}
use restruc.Flo.{
  Flo, Disassembly, is_any_jump, is_conditional_jump, is_jmp, is_inside, get_jump_destination,
}

pub data BranchType : Type 0 where
  conditional : BranchType
  unconditional : BranchType
  next : BranchType

pub record Branch : Type 0 where
  pub source : ℕ
  pub branch : ℕ
  pub type : BranchType

pub record Node : Type 0 where
  pub source : ℕ
  pub branches : List Branch

abbrev pub Nodes : Type 0
Nodes = List (ℕ × Node)

-- `ends_` and `nodes_`.
pub record Graph : Type 0 where
  pub ends : List ℕ
  pub nodes : Nodes

-- The jumps that the inner loop of `build_nodes` has collected: `src`, the branches, `next` (0 is the
-- null pointer) and the address of the last one.
pub record Collected : Type 0 where
  pub src : ℕ
  pub branches : List Branch
  pub next_address : ℕ
  pub last : ℕ

-- Whether the iterator stands in the outer or in the inner loop.
pub data Scan : Type 0 where
  scanning : Scan
  collecting : Collected → Scan

unfoldable pub is_ret : Mnemonic → Bool
is_ret ret = true
is_ret _ = false

-- `nodes_.emplace`, of a map: a node that is there stays.
unfoldable pub emplace_node : ℕ → List Branch → Nodes → Nodes
emplace_node src bs nodes =
    if Assoc.contains src nodes
    then nodes
    else Assoc.emplace src (record { source = src; branches = bs }) nodes

unfoldable pub add_node : ℕ → List Branch → Graph → Graph
add_node src [] g = g
add_node src (b ∷ bs) g = record g { nodes = emplace_node src (b ∷ bs) g.nodes }

unfoldable pub add_end : ℕ → Graph → Graph
add_end address g = record { ends = address ∷ g.ends; nodes = emplace_node address [] g.nodes }

unfoldable pub with_next : Collected → List Branch
with_next c =
    if c.next_address == 0
    then c.branches
    else record { source = c.last; branch = c.next_address; type = next } ∷ c.branches

-- One round of the inner loop and, where it ends, what follows it: the outer loop then goes on behind
-- the instruction. `none` where `build_nodes` returns false.
unfoldable pub collect : Flo → ℕ → Instruction → Collected → Graph → Option (Scan × Graph)
unfolding with_next
collect f address ins c g =
    let dst = get_jump_destination address ins in
    if is_conditional_jump ins.mnemonic
    then if dst == 0
      then none
      else if is_inside f dst
      then some (
        collecting (record {
          src = c.src;
          branches =
              c.branches ++ record { source = address; branch = dst; type = conditional } ∷ [];
          next_address = (address + ins.length) % word;
          last = address;
        }),
        g,
      )
      else some (scanning, add_node c.src (with_next c) g)
    else if is_jmp ins.mnemonic
    then if dst == 0
      then none
      else if is_inside f dst
      then some (
        scanning,
        add_node c.src
            (record { source = address; branch = dst; type = unconditional } ∷ c.branches) g,
      )
      else some (scanning, add_node c.src c.branches g)
    else some (scanning, add_node c.src (with_next c) g)

-- One round of the outer loop.
unfoldable pub scan : Flo → ℕ → Instruction → Graph → Option (Scan × Graph)
unfolding is_ret
scan f address ins g =
    let dst = get_jump_destination address ins in
    let start : Collected = record { src = address; branches = []; next_address = 0; last = 0 } in
    if is_any_jump ins.mnemonic
    then if dst == 0
      then none
      else if is_inside f dst
      then collect f address ins start g
      else some (scanning, add_end address g)
    else if is_ret ins.mnemonic
    then some (scanning, add_end address g)
    else some (scanning, g)

unfoldable pub scan_step : Flo → Scan → ℕ → Instruction → Graph → Option (Scan × Graph)
scan_step f scanning address ins g = scan f address ins g
scan_step f (collecting c) address ins g = collect f address ins c g

-- Behind the last instruction.
unfoldable pub finish : Scan → Graph → Graph
finish scanning g = g
finish (collecting c) g = add_node c.src c.branches g

unfoldable pub build_from : Flo → Scan → Disassembly → Graph → Option Graph
unfolding finish
build_from f s [] g = some (finish s g)
build_from f s ((address, ins) ∷ rest) g = elim (scan_step f s address ins g) [
  | none ↦ none
  | some (s', g') ↦ build_from f s' rest g'
]

unfoldable pub build_nodes : Flo → Option Graph
build_nodes f = build_from f scanning f.disassembly (record { ends = []; nodes = [] })

-- `nodes_.lower_bound`.
unfoldable pub lower_bound : ℕ → Nodes → Option Node
lower_bound address [] = none
lower_bound address ((k, node) ∷ nodes) =
    if leb address k then some node else lower_bound address nodes

unfoldable pub normalize_branch : Nodes → Branch → Branch
normalize_branch nodes b = elim (lower_bound b.branch nodes) [
  | none ↦ b
  | some node ↦ if b.branch == 0 then b else record b { branch = node.source }
]

unfoldable pub normalize_branches : Nodes → List Branch → List Branch
normalize_branches nodes [] = []
normalize_branches nodes (b ∷ bs) = normalize_branch nodes b ∷ normalize_branches nodes bs

unfoldable pub normalize_each : Nodes → Nodes → Nodes
normalize_each all [] = []
normalize_each all ((k, node) ∷ nodes) =
    (k, record node { branches = normalize_branches all node.branches }) ∷ normalize_each all nodes

-- `normalize_nodes`; the key of a node is its `source`.
unfoldable pub normalize_nodes : Nodes → Nodes
unfolding normalize_each
normalize_nodes nodes = normalize_each nodes nodes

unfoldable pub is_visited : ℕ → List ℕ → Bool
is_visited v [] = false
is_visited v (u ∷ us) = u == v || is_visited v us

-- `visited`, and `top_sort` from its back.
pub record Sorting : Type 0 where
  pub visited : List ℕ
  pub sorted : List ℕ

-- `dfs` of `top_sort`, on each of a list of addresses.
unfoldable pub sort_each : ℕ → Nodes → List Branch → Sorting → Run Sorting
sort_each fuel nodes [] s = done s
sort_each zero nodes (b ∷ bs) s = out_of_fuel
sort_each (suc fuel) nodes (b ∷ bs) s =
    let found = lower_bound b.branch nodes in
    let v : ℕ = elim found [ none ↦ b.branch | some node ↦ node.source ] in
    let further : List Branch = elim found [ none ↦ [] | some node ↦ node.branches ] in
    let marked : Sorting = record { visited = v ∷ s.visited; sorted = s.sorted } in
    let deeper = sort_each fuel nodes further marked in
    if is_visited v s.visited
    then sort_each fuel nodes bs s
    else (deeper >>= λ d.
        sort_each fuel nodes bs (record { visited = d.visited; sorted = v ∷ d.sorted }))

unfoldable pub top_sort : ℕ → Flo → Nodes → Run (List ℕ)
top_sort fuel f [] = done []
top_sort fuel f (n ∷ nodes) =
    let entry : Branch = record { source = f.entry_point; branch = f.entry_point; type = next } in
    sort_each fuel (n ∷ nodes) (entry ∷ []) (record { visited = []; sorted = [] }) >>= λ s.
    done s.sorted

-- `nodes_order_.at`: the place in the order; of an address without one, an exception.
unfoldable pub order_of : List ℕ → ℕ → Run ℕ
order_of [] v = fault
order_of (u ∷ us) v = if u == v then done 0 else (order_of us v >>= λ n. done (suc n))

abbrev pub Edges : Type 0
Edges = List (ℕ × ℕ)

unfoldable pub loops_of : List ℕ → ℕ → List Branch → Edges → Run Edges
loops_of order source [] loops = done loops
loops_of order source (b ∷ bs) loops = order_of order b.branch >>= λ to.
    order_of order source >>= λ from.
    loops_of order source bs (if leb to from then (source, b.branch) ∷ loops else loops)

-- The loop of `find_loops`.
unfoldable pub find_loops : List ℕ → Nodes → Edges → Run Edges
find_loops order [] loops = done loops
find_loops order ((k, node) ∷ nodes) loops =
    loops_of order node.source node.branches loops >>= λ loops'. find_loops order nodes loops'
