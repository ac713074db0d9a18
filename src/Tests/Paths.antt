-- ===== src/Tests/Paths.antt =====
-- The theorems on the graph of the jumps of a function, applied.
use restruc.Base.{◌+◌, ◌%◌, ◌≡◌, refl, some, [], ◌∷◌, false, true}
use restruc.Base.Assoc
use restruc.Hash.{word}
use restruc.Flo.{
  Flo, is_any_jump, is_conditional_jump, is_jmp, is_inside, get_jump_destination, first_destination,
  operand_destination,
}
use restruc.Recontex.Nodes.{
  Graph, conditional, next, scanning, build_from, build_nodes, add_node, add_end, emplace_node,
  scan_step, scan, collect, with_next, finish, is_ret, normalize_nodes, lower_bound, is_visited,
}
use restruc.Base.Run.{done}
use restruc.Reflo.Fill.{from_back}
use restruc.Recontex.Coverage.{build_paths, visit_branches, first_path, is_jump, has_edge}
use restruc.Recontex.Nodes.{Nodes, find_loops, loops_of, order_of}
use restruc.Recontex.Forward.{AreForward, find_loops-AreForward}
use restruc.Recontex.Graph.{AreNodes, AreResolved, normalize_nodes-AreResolved, build_from-skips}
use restruc.Tests.Flow.{started, branch, return_instruction}

-- `jz +14` at 4096, a RET behind it, and a RET at its destination.
abbrev forked : Flo
forked = record started {
  disassembly = (4096, branch) ∷ (4098, return_instruction) ∷ (4112, return_instruction) ∷ [];
}

abbrev forked_graph : Graph
forked_graph = record {
  ends = 4112 ∷ [];
  nodes =
      (
        4096,
        record {
          source = 4096;
          branches =
              record { source = 4096; branch = 4098; type = next }
              ∷ record { source = 4096; branch = 4112; type = conditional }
              ∷ [];
        },
      )
      ∷ (4112, record { source = 4112; branches = [] })
      ∷ [];
}

forked-graph : build_nodes forked ≡ some forked_graph
unfolding build_nodes build_from scan_step scan collect with_next finish is_ret add_node add_end
    emplace_node is_any_jump is_conditional_jump is_jmp is_inside get_jump_destination
    first_destination operand_destination Assoc.contains Assoc.emplace
forked-graph = refl

normalize_nodes-AreResolved_example :
    AreNodes forked_graph.nodes
    × AreResolved forked_graph.nodes (normalize_nodes forked_graph.nodes)
normalize_nodes-AreResolved_example = normalize_nodes-AreResolved forked forked_graph forked-graph

abbrev no_graph : Graph
no_graph = record { ends = []; nodes = [] }

branch-conditional : is_conditional_jump branch.mnemonic ≡ true
unfolding is_conditional_jump
branch-conditional = refl

branch-destination : get_jump_destination 4096 branch ≡ 4112
unfolding get_jump_destination first_destination operand_destination
branch-destination = refl

forked-inside : is_inside forked 4112 ≡ true
unfolding is_inside Assoc.contains
forked-inside = refl

return-no_jump : is_any_jump return_instruction.mnemonic ≡ false
unfolding is_any_jump is_conditional_jump is_jmp
return-no_jump = refl

build_from-skips_example :
    build_from forked scanning forked.disassembly no_graph
    ≡ build_from forked scanning ((4112, return_instruction) ∷ []) (
        add_node 4096
          (record { source = 4096; branch = (4096 + 2) % word; type = next }
            ∷ record { source = 4096; branch = 4112; type = conditional }
            ∷ [])
          no_graph)
build_from-skips_example =
    build_from-skips forked 4096 4098 4112 branch return_instruction
      ((4112, return_instruction) ∷ []) no_graph branch-conditional branch-destination refl
      forked-inside refl return-no_jump

-- Two conditional jumps in a row: each path takes the first one.
abbrev two_jumps : Graph
two_jumps = record {
  ends = 4104 ∷ 4112 ∷ 4120 ∷ [];
  nodes =
      (
        4096,
        record {
          source = 4096;
          branches =
              record { source = 4098; branch = 4104; type = next }
              ∷ record { source = 4096; branch = 4112; type = conditional }
              ∷ record { source = 4098; branch = 4120; type = conditional }
              ∷ [];
        },
      )
      ∷ (4104, record { source = 4104; branches = [] })
      ∷ (4112, record { source = 4112; branches = [] })
      ∷ (4120, record { source = 4120; branches = [] })
      ∷ [];
}

two_jumps-paths :
    build_paths two_jumps [] [] 9 forked
    ≡ done (
        (record { jump = 4096; take = true } ∷ [])
        ∷ (record { jump = 4096; take = true } ∷ record { jump = 4098; take = true } ∷ [])
        ∷ (record { jump = 4096; take = true } ∷ record { jump = 4098; take = false } ∷ [])
        ∷ [])
unfolding build_paths visit_branches first_path is_jump lower_bound is_visited has_edge from_back
    Assoc.find
two_jumps-paths = refl

-- A loop at 4096 and a branch out of it.
abbrev looping : Nodes
looping =
    (
      4096,
      record {
        source = 4096;
        branches =
            record { source = 4096; branch = 4112; type = next }
            ∷ record { source = 4096; branch = 4096; type = conditional }
            ∷ [];
      },
    )
    ∷ (4112, record { source = 4112; branches = [] })
    ∷ []

looping-loops : find_loops (4096 ∷ 4112 ∷ []) looping [] ≡ done ((4096, 4096) ∷ [])
unfolding find_loops loops_of order_of
looping-loops = refl

find_loops-AreForward_example : AreForward (4096 ∷ 4112 ∷ []) ((4096, 4096) ∷ []) looping
find_loops-AreForward_example =
    find_loops-AreForward (4096 ∷ 4112 ∷ []) looping ((4096, 4096) ∷ []) looping-loops
