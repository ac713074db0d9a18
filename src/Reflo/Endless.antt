-- ===== src/Reflo/Endless.antt =====
-- Places at which the discovery of functions need not end.
use restruc.Base.{ℕ, zero, suc, ◌-◌, ◌≡◌, refl, true, false, Option, some, ◌==◌, ==_refl, ltb}
use restruc.Base.Run.{done, out_of_fuel}
use restruc.Zydis.{Instruction}
use restruc.Pe.{Pe, RuntimeFunction, get_runtime_function}
use restruc.Flo.{Flo, should_be_unreachable, stops}
use restruc.Flo.Jumps.{get_unanalized_inner_jump_dst}
use restruc.Flo.Analyze.{analyze, result}
use restruc.Reflo.Fill.{fill_loop, post_fill_flo, end_of}
use restruc.Reflo.Search.{ends_from}

module _ (decode : ℕ → ℕ → Option Instruction) where
  -- An inner jump to an INT3: the instruction is decoded and not added, so the next round of
  -- `post_fill_flo` finds the same destination again. No number of rounds is enough.
  pub post_fill_flo-endless :
      (fuel : ℕ) (pe : Pe) (f : Flo) (address end : ℕ) (ins : Instruction)
      → get_unanalized_inner_jump_dst f ≡ address
      → (address == 0) ≡ false
      → end_of pe f address ≡ done end
      → ltb address end ≡ true
      → decode address (end - address) ≡ some ins
      → should_be_unreachable ins ≡ true
      → post_fill_flo decode fuel pe f ≡ out_of_fuel
  unfolding post_fill_flo fill_loop analyze result stops
  post_fill_flo-endless zero pe f address end ins d some_address e below decoded trap = refl
  post_fill_flo-endless (suc fuel) pe f address end ins d some_address e below decoded trap =
      let again =
        post_fill_flo-endless fuel pe f address end ins d some_address e below decoded trap in
      rw (d, some_address) (rw e (rw below (rw decoded (rw trap again))))

-- A runtime function that ends where it begins is its own successor: the loop that follows the ends
-- never stops.
pub ends_from-endless :
    (fuel : ℕ) (pe : Pe) (f : RuntimeFunction) (va : ℕ)
    → get_runtime_function pe va ≡ some f
    → f.begin_address ≡ va
    → f.end_address ≡ va
    → (va == 0) ≡ false
    → ends_from fuel pe va (some f) ≡ out_of_fuel
unfolding ends_from
ends_from-endless zero pe f va found b e positive = refl
ends_from-endless (suc fuel) pe f va found b e positive =
    let again = ends_from-endless fuel pe f va found b e positive in
    let at_begin : (f.begin_address == va) ≡ true = rw b (==_refl va) in
    let goes_on : (f.end_address == 0) ≡ false = rw e positive in
    rw (at_begin, goes_on) (rw e (rw found (rw again)))
