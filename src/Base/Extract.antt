-- ===== src/Base/Extract.antt =====
-- What `extract` takes out of a multimap and what it leaves.
use Prim.Native.Nat.{ℕ, suc}
use mathlib.Core.Path.{◌≡◌, refl, ap}
use mathlib.Core.Logic.{◌≢◌, inl, inr}
use mathlib.Core.Bool.{true, false, ◌||◌}
use mathlib.Core.List.{List, [], ◌∷◌}
use mathlib.Core.Option.{Option, none, some}
use native.Mathlib.Omega.{arith}
use restruc.Base.Tests.{◌==◌, Bool-cases}
use restruc.Base.Assoc.{size, contains, extract}

module _ {V : Type 0} where
  -- Nothing has the key, or one entry that has it is gone and the other keys are as they were.
  unfoldable pub Extracted : ℕ → List (ℕ × V) → Option (V × List (ℕ × V)) → Type 0
  Extracted k m none = contains k m ≡ false
  Extracted k m (some (v, m')) =
      (size m ≡ suc (size m'))
      × (contains k m ≡ true)
      × ((q : ℕ) → q ≢ k → contains q m' ≡ contains q m)

  -- The case of an entry with another key, that stays in front.
  past :
      (k j : ℕ) (w : V) (m : List (ℕ × V)) (r : Option (V × List (ℕ × V)))
      → (j == k) ≡ false
      → Extracted k m r
      → Extracted k ((j, w) ∷ m) (elim r [ none ↦ none | some (v, m') ↦ some (v, (j, w) ∷ m') ])
  unfolding Extracted contains
  past k j w m none e h = ground arith
  past k j w m (some (v, m')) e (hs, hc, ho) =
      (ap suc hs, ground arith, λ q ne. ap (λ b. (j == q) || b) (ho q ne))

  pub extract-Extracted : (k : ℕ) (m : List (ℕ × V)) → Extracted k m (extract k m)
  unfolding Extracted contains extract
  extract-Extracted k [] = refl
  extract-Extracted k ((j, w) ∷ m) = elim (Bool-cases (j == k)) [
    | inl e ↦ rw e (refl, ground arith, λ q ne. let apart : j ≢ q = ground arith in ground arith)
    | inr e ↦ rw e (past k j w m (extract k m) e (extract-Extracted k m))
  ]
