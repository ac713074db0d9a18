-- ===== src/Recontex/Paths.antt =====
-- recontex.cxx, the walk along the paths of a function: which jumps are taken, and the contexts that
-- reach each instruction. A path that is walked is what is left of its decisions, so an iterator at
-- the end is the empty list.
use restruc.Base.{
  ℕ, zero, suc, ◌+◌, ◌%◌, Bool, true, false, not, ◌&&◌, ◌||◌, Option, none, some, List, [], ◌∷◌,
  if◌then◌else◌, ltb, ◌==◌,
}
use restruc.Base.Run.{Run, done, fault, out_of_fuel, ◌>>=◌}
use restruc.Hash.{word}
use restruc.Zydis
use restruc.Zydis.{Instruction, Mnemonic, ret, immediate_operand}
use restruc.Context.{Context, make_child}
use restruc.Contexts
use restruc.Contexts.{Contexts}
use restruc.Flo.{Flo, is_any_jump, get_instruction}
use restruc.Reflo.Fill.{from_back}
use restruc.Recontex.{Externals}
use restruc.Recontex.Emulate.{emulate}

pub record Decision : Type 0 where
  pub jump : ℕ
  pub take : Bool

abbrev pub AnalyzePath : Type 0
AnalyzePath = List Decision

abbrev pub AnalyzePaths : Type 0
AnalyzePaths = List AnalyzePath

-- The contexts of a function by address, each address's in the order of their hashes.
abbrev pub FloContexts : Type 0
FloContexts = List (ℕ × Context)

-- `!path.current->take`, of a path that is not at its end.
unfoldable pub skips : AnalyzePath → Bool
skips [] = false
skips (d ∷ ds) = not d.take

unfoldable pub taken : AnalyzePaths → AnalyzePaths
taken [] = []
taken (p ∷ ps) = if skips p then taken ps else p ∷ taken ps

unfoldable pub skipped : AnalyzePaths → AnalyzePaths
skipped [] = []
skipped (p ∷ ps) = if skips p then p ∷ skipped ps else skipped ps

unfoldable pub behind : AnalyzePaths → AnalyzePaths → AnalyzePaths
behind [] ps = ps
behind (k ∷ ks) [] = []
behind (k ∷ ks) (p ∷ ps) = behind ks ps

-- `split_analyze_paths`: the paths that are kept and those that are returned. `std::remove_if` moves
-- the kept ones to the front and leaves behind them what stood there, as its implementations do for
-- values that a move does not change; the standard leaves those values open.
unfoldable pub split_analyze_paths : AnalyzePaths → AnalyzePaths × AnalyzePaths
unfolding behind
split_analyze_paths paths = (taken paths, behind (taken paths) paths)

unfoldable pub advance_path : AnalyzePath → AnalyzePath
advance_path [] = []
advance_path (d ∷ ds) = ds

unfoldable pub advance_analyze_paths : AnalyzePaths → AnalyzePaths
unfolding advance_path
advance_analyze_paths [] = []
advance_analyze_paths (p ∷ ps) = advance_path p ∷ advance_analyze_paths ps

same_next : AnalyzePath → AnalyzePath → Bool
same_next [] [] = true
same_next [] (d ∷ ds) = false
same_next (d ∷ ds) [] = false
same_next (d ∷ ds) (e ∷ es) = e.jump == d.jump

all_same : AnalyzePath → AnalyzePaths → Bool
unfolding same_next
all_same front [] = true
all_same front (p ∷ ps) = same_next front p && all_same front ps

-- `same_analyze_path`; its assertion is part of the answer here.
unfoldable pub same_analyze_path : AnalyzePaths → Bool
unfolding all_same
same_analyze_path [] = true
same_analyze_path (p ∷ ps) = all_same p (p ∷ ps)

-- `emplace_context`, behind the contexts at the address whose hashes are not greater.
unfoldable pub emplace_context : ℕ → Context → FloContexts → FloContexts
emplace_context address c [] = (address, c) ∷ []
emplace_context address c ((a, d) ∷ m) =
    let rest = emplace_context address c m in
    if ltb address a || (address == a && ltb c.hash d.hash)
    then (address, c) ∷ (a, d) ∷ m
    else (a, d) ∷ rest

children_into : Contexts → Contexts → Contexts
children_into [] children = children
children_into (c ∷ cs) children = children_into cs (Contexts.insert (make_child c) children).0

unfoldable pub make_child_contexts : Contexts → Contexts
unfolding children_into
make_child_contexts parents = children_into parents []

abbrev pub contexts_count : Contexts → ℕ
contexts_count [] = 0
contexts_count (c ∷ cs) = suc (contexts_count cs)

-- The two things that a walk changes: the contexts of the function, and `next_id_`.
pub record Walk : Type 0 where
  pub flo_contexts : FloContexts
  pub next_id : ℕ

is_ret : Mnemonic → Bool
is_ret ret = true
is_ret _ = false

-- `next_node->current == next_node->end` ends the walk; without a path there is no `next_node`.
first_decision : AnalyzePaths → Walk → Run Walk → Run Walk
first_decision [] w on = fault
first_decision ([] ∷ ps) w on = done w
first_decision ((d ∷ ds) ∷ ps) w on = on

-- `op.imm.value.s`; the code asserts that the operand is an immediate.
jump_offset : List Zydis.Operand → Run ℕ
jump_offset [] = fault
jump_offset (op ∷ ops) = elim op.kind [ immediate_operand imm ↦ done imm.value | _ ↦ fault ]

module _ (x : Externals) where
  -- The loop of `propagate_contexts`, with one round for each context of the set: the last one is
  -- stored, and the instruction is emulated on its child.
  unfoldable pub propagate_each :
      ℕ → ℕ → Instruction → Contexts → Contexts → Walk → Run (Contexts × Walk)
  propagate_each rounds address i [] new_contexts w = done (new_contexts, w)
  propagate_each zero address i (c ∷ cs) new_contexts w = out_of_fuel
  propagate_each (suc rounds) address i (c ∷ cs) new_contexts w =
      Contexts.pop (c ∷ cs) >>= λ (context, rest).
      emulate x address i (make_child context) w.next_id >>= λ (new_context, next_id').
      propagate_each rounds address i rest (Contexts.insert new_context new_contexts).0 (record {
        flo_contexts = emplace_context address context w.flo_contexts;
        next_id = next_id';
      })

  -- `propagate_contexts`: the instruction, if the address is one of the function's, and the contexts
  -- behind it.
  unfoldable pub propagate_contexts :
      Flo → ℕ → Contexts → Walk → Run (Option Instruction × Contexts × Walk)
  propagate_contexts f address contexts w = elim (get_instruction f address) [
    | none ↦ done (none, [], w)
    | some i ↦ propagate_each (contexts_count contexts) address i contexts [] w >>= λ (new, w').
        done (some i, new, w')
  ]

  -- The loop of `analyze_flo`, whose recursive call for the paths that skip the jump is a walk of its
  -- own.
  unfoldable pub walk_paths : ℕ → Flo → ℕ → AnalyzePaths → Contexts → ℕ → Walk → Run Walk
  unfolding is_ret jump_offset first_decision
  walk_paths zero f end paths contexts address w = out_of_fuel
  walk_paths (suc fuel) f end paths contexts address w =
      if not (not (address == 0) && ltb address end)
      then done w
      else (propagate_contexts f address contexts w >>= λ (instr, new_contexts, w₁). elim instr [
        | none ↦ done w₁
        | some i ↦ elim new_contexts [
          | [] ↦ done w₁
          | c ∷ cs ↦
              let next = (address + i.length) % word in
              let on = walk_paths fuel f end paths (c ∷ cs) next w₁ in
              let (kept, skip_jump) = split_analyze_paths paths in
              let jumped : Walk → Run Walk = λ w₂. elim kept [
                | [] ↦ done w₂
                | p ∷ ps ↦ jump_offset i.operands >>= λ offset.
                    walk_paths fuel f end (advance_analyze_paths (p ∷ ps)) (c ∷ cs)
                      ((next + offset) % word) w₂
              ] in
              let both : Run Walk = elim skip_jump [
                | [] ↦ jumped w₁
                | p ∷ ps ↦
                    walk_paths fuel f end (advance_analyze_paths (p ∷ ps))
                      (make_child_contexts (c ∷ cs)) next w₁
                    >>= jumped
              ] in
              if is_any_jump i.mnemonic
              then first_decision paths w₁ both
              else if is_ret i.mnemonic
              then done w₁
              else on
        ]
      ])

  -- `analyze_flo`, up to the end of the last instruction.
  unfoldable pub analyze_flo : ℕ → Flo → AnalyzePaths → Contexts → ℕ → Walk → Run Walk
  analyze_flo fuel f paths contexts address w = elim (from_back f.disassembly []) [
    | [] ↦ fault
    | (last, i) ∷ rest ↦ walk_paths fuel f ((last + i.length) % word) paths contexts address w
  ]
