-- ===== src/Lib.antt =====
-- restruc recovers data structures from a 64-bit Windows program: it finds the functions of an image
-- by disassembly, runs their instructions over symbolic values, and reads fields off the addresses
-- that they use. This library models these parts and the ones they stand on.
--
--   - src/utils/hash.hxx is Hash: `combine`, `reverse` and `mix` on a seed of 64 bits. `std::hash` of
--     the element type is a parameter; what the proofs ask of it is that its results are words.
--   - src/virtual/value.hxx and value.cxx are Value: a value is a number or a symbol with an offset,
--     `Value::operator==` is `same_value`. The counter `next_id_` is passed along and returned.
--   - src/virtual/registers.hxx and registers.cxx are Registers: the tables of names (`register_map`,
--     `promote`), and the tree over [0, REGISTERS_COUNT) that `get` and `set` walk. A `Holder` is a
--     node of Trie.Tree; a `void` pointer that is cast to the wrong type is the result `fault`.
--   - src/virtual/memory.hxx and memory.cxx are Memory, and Memory/Convert for `operator Value`: the
--     same kind of tree over [0, 2^64 - 1), of which only written paths exist. Addresses wrap around.
--   - src/context.hxx and context.cxx are Context: registers, memory and the hash of the writes.
--   - src/flo.hxx and flo.cxx are Flo (data and tests), Flo/Jumps (the tables of jumps and
--     `promote_unknown_jumps`), Flo/Analyze (`analyze` and what it calls), Flo/Cycles (`add_cycle`
--     and `get_cycles`) and Flo/Destinations (`get_jump_destinations`). A destination of 0 is the
--     null pointer. The names of `AnalysisStatus` that share the value `Stop` are kept apart, and
--     `stops` says which value the code sees.
--   - src/struc.hxx and struc.cxx are Struc: the fields of a structure by offset, the operations that
--     add one, and its size. The sizes of the other structures that fields refer to are the argument
--     `size_of`. A `std::multimap` is the ordered list of Base/Assoc everywhere. Struc/Merge is `merge`
--     and `try_merge_struc_field_at_offset`: structures are numbers in a store, because a structure can
--     point to itself. Its iterators are Struc/Iterator: they stay valid when entries are inserted, and
--     one whose entry was erased gives `fault`. Struc/Print is `print`.
--   - src/pe.hxx and pe.cxx are Pe: the table of sections in the order of their addresses in memory and
--     in the file, and the conversions between the two. `std::sort` and `std::upper_bound` are
--     Base/Lookup. What the constructor reads of the file's headers is the record `Headers`.
--   - src/recontex.hxx and recontex.cxx are Recontex: Recontex/Operands (`get_operand`,
--     `get_memory_address`), Recontex/Callbacks (the arithmetic of instructions),
--     Recontex/Instruction (`emulate_instruction`), Recontex/Emulate (`emulate` and one function per
--     special instruction) and Recontex/Stack (the made-up stack of a function and the tests of
--     operands). The results of `std::hash` and the content of Zydis's unused operands are parameters.
--   - src/contexts.hxx is Contexts: a set of contexts, which `std::set` orders by their hashes.
--     Recontex/Paths has the walk of such sets along given paths (`analyze_flo`, `propagate_contexts`,
--     `split_analyze_paths`, src/recontex.cxx), and Recontex/Nodes and Recontex/Coverage are
--     `OptimalCoverage`: the graph of the jumps of a function, its order, its loops, and its paths.
--     Recontex/Analysis is `run_analysis`, which puts them together for each function.
--   - src/reflo.hxx and reflo.cxx are Reflo: Reflo/Fill (`fill_flo`, `post_fill_flo`, `trim_flo`) and
--     Reflo/Search (the set of functions, `run_flo_analysis`, and the loops of `find_and_analyze_flos`
--     and `analyze`). The decoder is a parameter. What a thread does is one step, which is complete
--     when the next begins; to wait for something that never comes is the result `out_of_fuel`.
--   - src/restruc.hxx and restruc.cxx are Restruc: Restruc/Fields (`add_struc_field` and
--     `get_field_count`: the field that one memory operand shows), Restruc/Groups and
--     Restruc/Domains (`analyze_flo` and the rest of the first pass: values that serve as bases are
--     grouped, and each group becomes a structure), Restruc/Links and Restruc/Callers (the second pass:
--     structures are linked and merged with those of the callers) and Restruc/Analysis (`analyze` and
--     `dump`). The element type of an operand and the numbers of registers are parameters. A `shared_ptr<Struc>` is a number in the store of Struc/Merge.
--   - Text holds what the code writes to a stream: a text is a list of the codes of its characters.
--     src/dumper.cxx is Dumper, with the decoder library's formatter as a parameter, and Dumper/History
--     is `debug` of recontex.cxx with the histories that it dumps.
--   - Zydis holds the shape of what the decoder returns: registers, mnemonics, operands. Names that
--     the code never mentions are one constructor with a number.
--
-- A `shared_ptr` to a node that is never changed after it is published is the tree itself, so a child
-- of a context or a register file starts as its parent's tree. Locks are left out, as if each operation
-- held one from beginning to end. Assertions are not part of an operation's result.
--
-- Loops run on the structure they walk or on fuel. `initialize_holder` gets the number of registers,
-- the walks down memory 64, which is the depth of a tree over 64-bit addresses, and
-- `promote_unknown_jumps` the number of unknown jumps and one, since each round takes one away. The
-- theorems on these operations state that a result is reached, so the fuel is enough. The loop of
-- `fill_flo` gets one round for each address up to the end, and Reflo/Termination shows that this is
-- enough. `post_fill_flo`, `get_possible_flo_ends`, the search for functions, `analyze_flo` and the
-- searches of `OptimalCoverage` run on the fuel they are given: the first two need not end
-- (Reflo/Endless). A merge takes one unit for each call and each field; it may not end either
-- (Struc/Merge/Endless), and the second pass of Restruc, which calls it, runs on the fuel it is given.
-- The groups of `print` need one round for each field at most, and `print` gives them as many.
-- For the histories one unit for each instruction is enough (Dumper/Ends/Debug).
--
-- The standard leaves the order of a `std::unordered_map` open; here its entries stand in the order in
-- which they came. `size_of` is one function throughout, since no code adds a field whose type is a
-- structure.
--
-- Not modelled: the debug prints and `validate_nodes`, which only asserts, the threads of `run_analysis`
-- and of reflo.cxx and their interleavings (a thread is one step), and the input and output of bytes.cxx
-- and main.cxx.
pub mod Base
pub mod Hash
pub mod Value
pub mod Zydis
pub mod Trie
pub mod Registers
pub mod Memory
pub mod Context
pub mod Pe
pub mod Flo
pub mod Recontex
pub mod Struc
pub mod Contexts
pub mod Dumper
pub mod Reflo
pub mod Restruc
pub mod Tests
pub mod Text
