-- ===== src/Flo/Jumps.antt =====
-- The three tables of jumps of a function, and how unknown jumps are promoted.
use restruc.Base.{ℕ, zero, suc, Bool, true, false, not, none, some, [], ◌∷◌, if◌then◌else◌}
use restruc.Base.Assoc
use restruc.Zydis.{Instruction}
use restruc.Flo.{Flo, Jump, JumpType, Call, Jumps, unknown, inner, outer}

unfoldable pub add_jump : JumpType → Instruction → ℕ → ℕ → Flo → Flo
add_jump inner ins dst src f =
    let jump : Jump = record { type = inner; ins = ins; dst = dst; src = src } in
    record f { inner_jumps = Assoc.emplace dst jump f.inner_jumps }
add_jump outer ins dst src f =
    let jump : Jump = record { type = outer; ins = ins; dst = dst; src = src } in
    record f { outer_jumps = Assoc.emplace dst jump f.outer_jumps }
add_jump unknown ins dst src f =
    let jump : Jump = record { type = unknown; ins = ins; dst = dst; src = src } in
    record f { unknown_jumps = Assoc.emplace dst jump f.unknown_jumps }

unfoldable pub add_call : Instruction → ℕ → ℕ → ℕ → Flo → Flo
add_call ins dst src return_address f =
    let c : Call = record { ins = ins; dst = dst; src = src; return_address = return_address } in
    record f { calls = Assoc.emplace dst c f.calls }

-- The loop of `promote_unknown_jumps(dst, new_type)`: extract until none is left. A round takes one
-- jump out of the unknown ones, so their number, and one for the last look, is enough fuel.
unfoldable pub promote_loop : ℕ → ℕ → JumpType → Bool → Flo → Flo × Bool
promote_loop zero dst new_type promoted f = (f, promoted)
promote_loop (suc fuel) dst new_type promoted f = elim (Assoc.extract dst f.unknown_jumps) [
  | none ↦ (f, promoted)
  | some (jump, rest) ↦
      -- The new jump is added to a table that `extract` has already changed.
      promote_loop fuel dst new_type true
        (add_jump new_type jump.ins dst jump.src (record f { unknown_jumps = rest }))
]

unfoldable pub promote_to : ℕ → JumpType → Flo → Flo × Bool
promote_to dst new_type f = promote_loop (suc (Assoc.size f.unknown_jumps)) dst new_type false f

-- `promote_unknown_jumps(type, predicate)`, for the types that the code calls it with: the loop over
-- the entries, of which those that pass are moved to the other table.
unfoldable pub promote_each : JumpType → (ℕ → Bool) → Jumps → Flo → Flo
promote_each type predicate [] f = f
promote_each type predicate ((key, jump) ∷ rest) f =
    if predicate jump.dst
    then promote_each type predicate rest (add_jump type jump.ins jump.dst jump.src f)
    else (let f' = promote_each type predicate rest f in
        record f' { unknown_jumps = (key, jump) ∷ f'.unknown_jumps })

unfoldable pub promote_where : JumpType → (ℕ → Bool) → Flo → Flo
unfolding promote_each
promote_where type predicate f =
    promote_each type predicate f.unknown_jumps (record f { unknown_jumps = [] })

-- The first destination of an inner jump that was not disassembled, or 0.
unfoldable pub first_missing : Jumps → Flo → ℕ
first_missing [] f = 0
first_missing ((dst, jump) ∷ rest) f =
    if not (Assoc.contains dst f.disassembly) then dst else first_missing rest f

unfoldable pub get_unanalized_inner_jump_dst : Flo → ℕ
unfolding first_missing
get_unanalized_inner_jump_dst f = first_missing f.inner_jumps f
