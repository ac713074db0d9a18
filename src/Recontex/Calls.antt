-- ===== src/Recontex/Calls.antt =====
-- CALL: the volatile registers are forgotten, nothing else changes.
use restruc.Base.{ℕ, ◌≡◌, refl, ◌∙◌, Bool, true, false, some, List, [], ◌∷◌, if◌then◌else◌, ◌||◌}
use restruc.Base.Run.{done}
use restruc.Value.{Value, new_symbol, make_symbolic_value, is_symbolic}
use restruc.Registers.{is_narrow}
use restruc.Zydis.{Register}
use restruc.Context.{AreHashers, Context, get_register}
use restruc.Context.Laws.{IsContext}
use restruc.Context.Total.{touches, set_register-Kept}
use restruc.Recontex.{Externals}
use restruc.Recontex.Callbacks.{volatile_registers}
use restruc.Recontex.Emulate.{reset_registers, emulate_instruction_call}

unfoldable pub any_touches : List Register → Register → Bool
any_touches [] q = false
any_touches (r ∷ rs) q = touches r q || any_touches rs q

-- A symbol that the instruction at the address made.
abbrev pub Forgotten : Context → ℕ → Register → Type 0
Forgotten c address q =
    (v : Value) × (get_register c q ≡ done (some v)) × (is_symbolic v ≡ true) × (v.source ≡ address)

abbrev pub Reset : Context → Context → ℕ → List Register → Register → Type 0
Reset c c' address rs q =
    if any_touches rs q then Forgotten c' address q else get_register c' q ≡ get_register c q

-- A write, which either touches `q` or does not, and what the later writes do.
then_later :
    (c w d : Context) (address : ℕ) (q : Register) (here later : Bool)
    → (here ≡ false → get_register w q ≡ get_register c q)
    → (here ≡ true → Forgotten w address q)
    → (if later then Forgotten d address q else get_register d q ≡ get_register w q)
    → if here || later then Forgotten d address q else get_register d q ≡ get_register c q
then_later c w d address q true true kept made after = after
then_later c w d address q true false kept made after =
    let (v, reads, unknown, maker) = made refl in (v, after ∙ reads, unknown, maker)
then_later c w d address q false true kept made after = after
then_later c w d address q false false kept made after = after ∙ kept refl

module _ (x : Externals) (good : AreHashers x.hashers) where
  reset_registers-Reset :
      (c : Context) (address : ℕ) (rs : List Register) (next_id : ℕ) (q : Register)
      → IsContext c
      → (c' : Context) × (next_id' : ℕ) × (reset_registers x c address rs next_id
          ≡ done (c', next_id'))
        × IsContext c'
        × (c'.memory ≡ c.memory)
        × Reset c c' address rs q
  unfolding reset_registers any_touches make_symbolic_value new_symbol is_symbolic is_narrow
  reset_registers-Reset c address [] next_id q k = (c, next_id, refl, k, refl, refl)
  reset_registers-Reset c address (r ∷ rs) next_id q k =
      let fresh = make_symbolic_value next_id address 8 0 0 in
      let w = set_register-Kept x.hashers good c r fresh.0 k in
      let ih = reset_registers-Reset w.0 address rs fresh.1 q w.2 in
      (
        ih.0,
        ih.1,
        rw (w.1, ih.2),
        ih.3,
        ih.4 ∙ w.3,
        then_later c w.0 ih.0 address q (touches r q) (any_touches rs q) (λ s. w.4 q s)
            (λ s. (fresh.0, w.5 q s refl, refl, refl)) ih.5,
      )

  -- After a call every part of a volatile register reads a symbol that the call made; every other
  -- register and memory are as before. In a well-formed context a call never fails.
  pub emulate_instruction_call-Reset :
      (c : Context) (address next_id : ℕ) (q : Register)
      → IsContext c
      → (c' : Context) × (next_id' : ℕ) × (emulate_instruction_call x c address next_id
          ≡ done (c', next_id'))
        × IsContext c'
        × (c'.memory ≡ c.memory)
        × Reset c c' address volatile_registers q
  unfolding emulate_instruction_call
  emulate_instruction_call-Reset c address next_id q k =
      reset_registers-Reset c address volatile_registers next_id q k
