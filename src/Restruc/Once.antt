-- ===== src/Restruc/Once.antt =====
-- Of the registers that a structure comes in, only the first is followed to the callers: after it every
-- reference is visited.
use restruc.Base.{
  ℕ, zero, suc, ◌≤◌, ◌≡◌, refl, inl, inr, arith, true, List, [], ◌∷◌, ◌==◌, ==_refl, Bool-cases,
}
use restruc.Base.Run.{Run, done, fault, out_of_fuel, ◌>>=◌}
use restruc.Base.Assoc
use restruc.Base.Holds.{
  Holds, done-Holds, fault-Holds, out_of_fuel-Holds, if-Holds, option-Holds, any-Holds, bind-Holds,
  map-Holds, done-held,
}
use restruc.Zydis.{Register}
use restruc.Context.{Context, get_register}
use restruc.Flo.{Flo}
use restruc.Reflo.Search.{Reflo, get_flo_by_address}
use restruc.Restruc.{Surroundings, AllContexts, get_contexts, contexts_at}
use restruc.Restruc.Groups.{StrucDomain}
use restruc.Restruc.Links.{link_at}
use restruc.Restruc.Callers.{Search, was_visited, register_contexts, via_register, link_registers}

-- What was visited stays visited.
abbrev pub Grown : List ℕ → Search → Type 0
Grown visited r = (q : ℕ) → was_visited q visited ≡ true → was_visited q r.visited ≡ true

unfoldable pub AllVisited : List ℕ → List ℕ → Type 0
AllVisited [] visited = Unit
AllVisited (ref ∷ refs) visited = (was_visited ref visited ≡ true) × AllVisited refs visited

unfoldable pub refs_count : List ℕ → ℕ
refs_count [] = 0
refs_count (ref ∷ refs) = suc (refs_count refs)

-- What is known where the search over references returns.
abbrev pub Searched : ℕ → List ℕ → List ℕ → Search → Type 0
Searched fuel refs visited r =
    Grown visited r × AllVisited refs r.visited × (refs_count refs ≤ fuel)

visited-own : (ref : ℕ) (visited : List ℕ) → was_visited ref (ref ∷ visited) ≡ true
unfolding was_visited
visited-own ref visited = rw (==_refl ref) refl

visited-cons :
    (ref q : ℕ) (visited : List ℕ)
    → was_visited q visited ≡ true
    → was_visited q (ref ∷ visited) ≡ true
unfolding was_visited
visited-cons ref q visited h = ground arith

suc_le : (m n : ℕ) → m ≤ n → suc m ≤ suc n
suc_le m n h = omega arith

module _ (s : Surroundings) (size_of : ℕ → ℕ) (reflo : Reflo) (contexts : AllContexts) where
  register_contexts-Grown :
      (fuel : ℕ) (sd : StrucDomain) (reg : Register) (ref_flo : Flo) (deeper : Search → Run Search)
      (cs : List Context) (visited : List ℕ) (r : Search)
      → ((r' : Search) → Grown visited r' → Holds (Grown visited) (deeper r'))
      → Grown visited r
      → Holds
          (Grown visited)
          (register_contexts s size_of reflo contexts fuel sd reg ref_flo deeper cs r)
  unfolding register_contexts
  register_contexts-Grown fuel sd reg ref_flo deeper [] visited r d h =
      done-Holds (Grown visited) r h
  register_contexts-Grown fuel sd reg ref_flo deeper (c ∷ cs) visited r d h =
      let on = λ (r' : Search) (h' : Grown visited r').
        register_contexts-Grown fuel sd reg ref_flo deeper cs visited r' d h' in
      any-Holds (Grown visited) (get_register c reg) _ (λ found.
        option-Holds (Grown visited) found _ _ (on r h) (λ v.
          if-Holds (Grown visited) (v.source == 0) _ _
            (bind-Holds (Grown visited) (Grown visited) (deeper r) _ (d r h) on)
            (any-Holds (Grown visited)
              (link_at s size_of reflo contexts fuel sd ref_flo v.source r.state) _
              (λ st. on (record r { state = st }) h))))

  via_register-Searched :
      (fuel : ℕ) (sd : StrucDomain) (reg : Register) (refs visited : List ℕ) (r : Search)
      → Grown visited r
      → Holds
          (Searched fuel refs visited)
          (via_register s size_of reflo contexts fuel sd reg refs r)
  unfolding via_register refs_count AllVisited
  via_register-Searched zero sd reg [] visited r h =
      done-Holds (Searched 0 [] visited) r (h, tt, omega arith)
  via_register-Searched (suc fuel) sd reg [] visited r h =
      done-Holds (Searched (suc fuel) [] visited) r (h, tt, omega arith)
  via_register-Searched zero sd reg (ref ∷ refs) visited r h =
      out_of_fuel-Holds (Searched 0 (ref ∷ refs) visited)
  via_register-Searched (suc fuel) sd reg (ref ∷ refs) visited r h =
      let goal = Searched (suc fuel) (ref ∷ refs) visited in
      let onward : (r' : Search)
          → Grown visited r'
          → was_visited ref r'.visited ≡ true
          → Holds goal (via_register s size_of reflo contexts fuel sd reg refs r') =
        λ r' h' here.
          map-Holds (Searched fuel refs r'.visited) goal
            (via_register s size_of reflo contexts fuel sd reg refs r')
            (λ r'' k. (λ q e. k.0 q (h' q e), (k.0 ref here, k.1), suc_le _ _ k.2))
            (via_register-Searched fuel sd reg refs r'.visited r' (λ q e. e)) in
      let grown = Grown (ref ∷ r.visited) in
      let search : (ref_flo : Flo) (r' : Search)
          → grown r'
          → Holds grown (via_register s size_of reflo contexts fuel sd reg ref_flo.references r') =
        λ ref_flo r' h'.
          map-Holds (Searched fuel ref_flo.references (ref ∷ r.visited)) grown
            (via_register s size_of reflo contexts fuel sd reg ref_flo.references r') (λ r'' k. k.0)
            (via_register-Searched fuel sd reg ref_flo.references (ref ∷ r.visited) r' h') in
      let seen : Search = record r { visited = ref ∷ r.visited } in
      elim (Bool-cases (was_visited ref r.visited)) [
        | inl e ↦ rw e (onward r h e)
        | inr e ↦ rw e (
            option-Holds goal (get_flo_by_address reflo ref) _ _ (fault-Holds goal) (λ ref_flo.
              any-Holds goal (get_contexts contexts ref_flo) _ (λ fc.
                bind-Holds grown goal _ _
                  (if-Holds grown (Assoc.contains ref_flo.entry_point r.state.domains) _ _
                    (done-Holds grown seen (λ q k. k)) (search ref_flo seen (λ q k. k)))
                  (λ r' h'.
                    bind-Holds grown goal _ _
                      (register_contexts-Grown fuel sd reg ref_flo _ (contexts_at ref fc)
                        (ref ∷ r.visited) r' (search ref_flo) h')
                      (λ r'' h''.
                        onward r'' (λ q k. h'' q (visited-cons ref q r.visited (h q k)))
                          (h'' ref (visited-own ref r.visited)))))))
      ]

  -- All references are visited: nothing is searched.
  via_register-visited :
      (fuel : ℕ) (sd : StrucDomain) (reg : Register) (refs : List ℕ) (r : Search)
      → AllVisited refs r.visited
      → refs_count refs ≤ fuel
      → via_register s size_of reflo contexts fuel sd reg refs r ≡ done r
  unfolding via_register refs_count AllVisited
  via_register-visited zero sd reg [] r a h = refl
  via_register-visited (suc fuel) sd reg [] r a h = refl
  via_register-visited zero sd reg (ref ∷ refs) r a h = absurd (omega arith)
  via_register-visited (suc fuel) sd reg (ref ∷ refs) r a h =
      rw a.0 (via_register-visited fuel sd reg refs r a.1 (omega arith))

  link_registers-visited :
      (fuel : ℕ) (sd : StrucDomain) (refs : List ℕ) (regs : List (ℕ × Register)) (r : Search)
      → AllVisited refs r.visited
      → refs_count refs ≤ fuel
      → link_registers s size_of reflo contexts fuel sd refs regs r ≡ done r
  unfolding link_registers
  link_registers-visited fuel sd refs [] r a h = refl
  link_registers-visited fuel sd refs ((source, reg) ∷ regs) r a h =
      let skip = link_registers-visited fuel sd refs regs r a h in
      elim (Bool-cases (source == 0)) [
        | inl e ↦ rw e (rw (via_register-visited fuel sd reg refs r a h) skip)
        | inr e ↦ rw e skip
      ]

  -- `link_registers` does nothing after the first register whose value came from outside: the other
  -- registers are not looked up at any caller.
  pub link_registers-first :
      (fuel : ℕ) (sd : StrucDomain) (refs : List ℕ) (reg : Register) (regs : List (ℕ × Register))
      (r : Search)
      → link_registers s size_of reflo contexts fuel sd refs ((0, reg) ∷ regs) r
        ≡ via_register s size_of reflo contexts fuel sd reg refs r
  unfolding link_registers
  link_registers-first fuel sd refs reg regs r =
      after (via_register s size_of reflo contexts fuel sd reg refs r)
        (via_register-Searched fuel sd reg refs r.visited r (λ q e. e))
    where
      after :
          (o : Run Search)
          → Holds (Searched fuel refs r.visited) o
          → (o >>= λ r'. link_registers s size_of reflo contexts fuel sd refs regs r') ≡ o
      after (done r') k =
          let known = done-held (Searched fuel refs r.visited) r' k in
          link_registers-visited fuel sd refs regs r' known.1 known.2
      after fault k = refl
      after out_of_fuel k = refl
