-- ===== src/Base/Assoc.antt =====
-- `std::map` and `std::multimap` with addresses or offsets for keys: the entries in the order of
-- their keys, equal keys in the order in which they came.
use Prim.Native.Nat.{ℕ, suc, ◌≤◌, ◌<◌}
use mathlib.Core.Path.{◌≡◌, refl}
use mathlib.Core.Bool.{Bool, false, ◌||◌, ◌&&◌}
use mathlib.Core.List.{List, [], ◌∷◌}
use mathlib.Core.Option.{Option, none, some}
use native.Mathlib.Omega.{arith}
use restruc.Base.Tests.{if◌then◌else◌, ltb, ◌==◌}

module _ {ℓ} {V : Type ℓ} where
  abbrev pub size : List (ℕ × V) → ℕ
  size [] = 0
  size (e ∷ m) = suc (size m)

  unfoldable pub contains : ℕ → List (ℕ × V) → Bool
  contains k [] = false
  contains k ((j, v) ∷ m) = j == k || contains k m

  unfoldable pub find : ℕ → List (ℕ × V) → Option V
  find k [] = none
  find k ((j, v) ∷ m) = if j == k then some v else find k m

  -- `emplace` of a multimap: behind the entries with the same key.
  unfoldable pub emplace : ℕ → V → List (ℕ × V) → List (ℕ × V)
  emplace k v [] = (k, v) ∷ []
  emplace k v ((j, w) ∷ m) = if ltb k j then (k, v) ∷ (j, w) ∷ m else (j, w) ∷ emplace k v m

  -- `extract(key)`: the first entry with the key.
  unfoldable pub extract : ℕ → List (ℕ × V) → Option (V × List (ℕ × V))
  extract k [] = none
  extract k ((j, v) ∷ m) =
      let rest : Option (V × List (ℕ × V)) = elim (extract k m) [
        | none ↦ none
        | some (w, m') ↦ some (w, (j, v) ∷ m')
      ] in
      if j == k then some (v, m) else rest

  -- What is left when `[lower_bound(end), end())` is erased.
  unfoldable pub below : ℕ → List (ℕ × V) → List (ℕ × V)
  below end [] = []
  below end ((j, v) ∷ m) = if ltb j end then (j, v) ∷ below end m else []

  -- The keys do not fall along the list.
  abbrev pub IsOrdered : ℕ → List (ℕ × V) → Type 0
  IsOrdered low [] = Unit {0}
  IsOrdered low ((j, v) ∷ m) = (low ≤ j) × IsOrdered j m

module _ {ℓ} {V : Type ℓ} where
  pub contains-emplace :
      (k j : ℕ) (v : V) (m : List (ℕ × V)) → contains j (emplace k v m) ≡ (k == j || contains j m)
  unfolding contains emplace
  contains-emplace k j v [] = refl
  contains-emplace k j v ((i, w) ∷ m) = ground (arith, contains-emplace k j v m)

  pub size-emplace : (k : ℕ) (v : V) (m : List (ℕ × V)) → size (emplace k v m) ≡ suc (size m)
  unfolding emplace
  size-emplace k v [] = refl
  size-emplace k v ((i, w) ∷ m) = ground (arith, size-emplace k v m)

  pub emplace-IsOrdered :
      (k low : ℕ) (v : V) (m : List (ℕ × V))
      → low ≤ k
      → IsOrdered low m
      → IsOrdered low (emplace k v m)
  unfolding emplace
  emplace-IsOrdered k low v [] h o = (h, tt)
  emplace-IsOrdered k low v ((i, w) ∷ m) h o = ground (arith, emplace-IsOrdered k i v m)

  pub below-contains :
      (low end j : ℕ) (m : List (ℕ × V))
      → IsOrdered low m
      → contains j (below end m) ≡ (contains j m && ltb j end)
  unfolding contains below
  below-contains low end j [] o = refl
  below-contains low end j ((i, w) ∷ m) o =
      ground (arith, below-contains i end j m o.1, above end j i m)
    where
      above : (end j i : ℕ) (m : List (ℕ × V)) → IsOrdered i m → j < i → contains j m ≡ false
      above end j i [] o h = refl
      above end j i ((k, w) ∷ m) o h = ground (arith, above end j k m o.1)
