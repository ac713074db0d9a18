-- ===== src/Registers/Initial.antt =====
-- `initialize_holder` builds a complete tree.
use restruc.Base.{
  ℕ, zero, suc, ◌+◌, ◌-◌, ◌≤◌, ◌<◌, ◌≡◌, inl, inr, arith, if◌then◌else◌, ltb, Bool-cases, ltb→lt,
  ltb_false→le,
}
use restruc.Base.Run.{Run, done}
use restruc.Hash.{word}
use restruc.Trie.{Tree, node, leaf, middle_of, decrement}
use restruc.Value.{Value, make_symbolic_value}
use restruc.Registers.{initialize_holder, new_registers, registers_count}
use restruc.Registers.Complete.{IsComplete}

Built : Run (Tree Value × ℕ) → ℕ → ℕ → Type 0
Built m begin end = (t : Tree Value) × (n : ℕ) × (m ≡ done (t, n)) × IsComplete begin end t

fresh_leaf : ℕ → Run (Tree Value × ℕ)
fresh_leaf n = let (v, n') = make_symbolic_value n 0 8 0 0 in done (leaf v, n')

Built-child :
    (begin end n : ℕ) (m : Run (Tree Value × ℕ))
    → begin < end
    → end < word
    → (begin + 2 ≤ end → Built m begin end)
    → Built (if ltb begin (decrement end) then m else fresh_leaf n) begin end
unfolding Built fresh_leaf make_symbolic_value
Built-child begin end n m h w rec = elim (Bool-cases (ltb begin (decrement end))) [
  | inl e ↦ let b = rec (let e' = ltb→lt _ _ e in omega arith) in (b.0, b.1, rw e b.2, b.3)
  | inr e ↦
      let e' = ltb_false→le _ _ e in
      (leaf (make_symbolic_value n 0 8 0 0).0, (make_symbolic_value n 0 8 0 0).1, rw e, omega arith)
]

initialize_holder-Built :
    (fuel n begin end : ℕ)
    → end - begin ≤ fuel
    → begin + 2 ≤ end
    → end < word
    → Built (initialize_holder fuel n begin end) begin end
unfolding Built initialize_holder fresh_leaf
initialize_holder-Built zero n begin end enough h w = absurd (omega arith)
initialize_holder-Built (suc fuel) n begin end enough h w =
    let m = middle_of begin end in
    let l =
      Built-child begin m n (initialize_holder fuel n begin m) (omega arith) (omega arith)
        (λ h'. initialize_holder-Built fuel n begin m (omega arith) h' (omega arith)) in
    let r =
      Built-child m end l.1 (initialize_holder fuel l.1 m end) (omega arith) w
        (λ h'. initialize_holder-Built fuel l.1 m end (omega arith) h' w) in
    (node l.0 r.0, r.1, rw (l.2, r.2), (h, l.3, r.3))

-- The constructor returns a complete tree over the 60 registers, whatever `next_id_` was.
pub new_registers-IsComplete :
    (n : ℕ)
    → (t : Tree Value) × (n' : ℕ) × (new_registers n ≡ done (t, n'))
      × IsComplete 0 registers_count t
unfolding new_registers Built
new_registers-IsComplete n =
    initialize_holder-Built registers_count n 0 registers_count (omega arith) (omega arith)
      (omega arith)
