-- ===== src/Reflo/Termination.antt =====
-- The loop that fills a function ends: each round that goes on has added an instruction below the end.
use restruc.Base.{
  ℕ, zero, suc, ◌+◌, ◌-◌, ◌≤◌, ◌<◌, ◌≡◌, refl, sym, ap, ◌∙◌, inl, inr, arith, Bool, true, false,
  not, ◌&&◌, Option, if◌then◌else◌, ltb, ◌==◌, Bool-cases, Option-cases,
}
use restruc.Base.Run.{Run, done, fault, out_of_fuel}
use restruc.Base.Assoc
use restruc.Base.Assoc.{contains-emplace}
use restruc.Zydis.{Instruction}
use restruc.Flo.{Flo, Disassembly, stops, should_be_unreachable}
use restruc.Flo.Analyze.{analyze, result}
use restruc.Flo.Invariant.{IsSettled}
use restruc.Flo.Settled.{analyze-IsSettled}
use restruc.Flo.Status.{analyze-disassembly}
use restruc.Reflo.Fill.{Filled, filled, decoder_error, fill_loop}

-- How many addresses below `end` carry no instruction.
unfoldable pub missing : ℕ → Disassembly → ℕ
missing zero d = 0
missing (suc n) d = (if Assoc.contains n d then 0 else 1) + missing n d

missing-le : (n : ℕ) (d : Disassembly) → missing n d ≤ n
unfolding missing
missing-le zero d = omega arith
missing-le (suc n) d = ground (arith, missing-le n d)

-- An instruction at or above `n` does not count.
missing-above :
    (n address : ℕ) (ins : Instruction) (d : Disassembly)
    → n ≤ address
    → missing n (Assoc.emplace address ins d) ≡ missing n d
unfolding missing
missing-above zero address ins d h = refl
missing-above (suc n) address ins d h =
    rw (contains-emplace address n ins d)
      (ground (arith, missing-above n address ins d (omega arith)))

missing-emplace :
    (n address : ℕ) (ins : Instruction) (d : Disassembly)
    → address < n
    → Assoc.contains address d ≡ false
    → suc (missing n (Assoc.emplace address ins d)) ≡ missing n d
unfolding missing
missing-emplace zero address ins d h new = absurd (omega arith)
missing-emplace (suc n) address ins d h new = elim (Bool-cases (address == n)) [
  | inl e ↦
      let same : address ≡ n = ground arith in
      let known = ap (λ k. Assoc.contains k d) same in
      let above = missing-above n address ins d (omega arith) in
      let absent : Assoc.contains n d ≡ false = sym known ∙ new in
      rw (contains-emplace address n ins d, e, above, absent) (omega arith)
  | inr e ↦
      let below : address < n = ground arith in
      rw (contains-emplace address n ins d, e)
        (ground (arith, missing-emplace n address ins d below new))
]

-- The loop may end, also by the decoder's error, with a function without unknown jumps to its
-- instructions; it may neither fail otherwise nor run out of fuel.
unfoldable pub EndsWell : Run Filled → Type 0
EndsWell (done (decoder_error f)) = IsSettled f
EndsWell (done (filled f)) = IsSettled f
EndsWell fault = ⊥
EndsWell out_of_fuel = ⊥

EndsWell-if :
    (b : Bool) (m k : Run Filled)
    → (b ≡ true → EndsWell m)
    → (b ≡ false → EndsWell k)
    → EndsWell (if b then m else k)
EndsWell-if true m k h g = h refl
EndsWell-if false m k h g = g refl

-- An analysis that does not stop has added its instruction.
next-emplace :
    (address : ℕ) (ins : Instruction) (f : Flo)
    → stops (analyze address ins f).1.status ≡ false
    → (Assoc.contains address f.disassembly ≡ false)
      × ((analyze address ins f).0.disassembly ≡ Assoc.emplace address ins f.disassembly)
unfolding analyze result stops
next-emplace address ins f h = elim (Bool-cases (should_be_unreachable ins)) [
  | inl e ↦ let h' : true ≡ false = rw e at h in cc
  | inr e ↦ elim (Bool-cases (Assoc.contains address f.disassembly)) [
    | inl c ↦ let h' : true ≡ false = rw (e, c) at h in cc
    | inr c ↦ (c, analyze-disassembly address ins f ∙ rw (e, c))
  ]
]

module _ (decode : ℕ → ℕ → Option Instruction) where
  fill_loop-measured :
      (fuel end address : ℕ) (f : Flo)
      → missing end f.disassembly < fuel
      → IsSettled f
      → EndsWell (fill_loop decode fuel end address f)
  unfolding fill_loop EndsWell
  fill_loop-measured zero end address f h s = absurd (omega arith)
  fill_loop-measured (suc fuel) end address f h s =
      EndsWell-if (not (address == 0) && ltb address end) _ _
        (λ inside. elim (Option-cases (decode address (end - address))) [
          | inl e ↦ rw e s
          | inr (ins, e) ↦
              let a = analyze address ins f in
              let settled = analyze-IsSettled address ins f s in
              rw e (
                EndsWell-if (stops a.1.status) (done (filled a.0)) _ (λ stop. settled)
                  (λ go.
                    let new = next-emplace address ins f go in
                    let fewer =
                      missing-emplace end address ins f.disassembly (ground arith) new.0 in
                    let counted = ap (missing end) new.1 in
                    fill_loop-measured fuel end a.1.next_address a.0 (omega arith) settled))
        ])
        (λ outside. s)

  -- With one round for each address up to the end the loop ends, wherever it starts and whatever the
  -- decoder returns, its error included, and leaves a function whose unknown jumps lead to none of its
  -- instructions, if they did not before.
  pub fill_loop-EndsWell :
      (end address : ℕ) (f : Flo)
      → IsSettled f
      → EndsWell (fill_loop decode (suc end) end address f)
  fill_loop-EndsWell end address f s =
      fill_loop-measured (suc end) end address f (omega (arith, missing-le end f.disassembly)) s
