-- ===== src/Base/Ends.antt =====
-- What holds of a run that ends: it returns with the property, or fails, and does not run out of fuel.
use mathlib.Core.Path.{◌≡◌, refl}
use mathlib.Core.Bool.{Bool, true, false}
use mathlib.Core.Option.{Option, none, some}
use mathlib.Core.List.{List, [], ◌∷◌}
use restruc.Base.Tests.{if◌then◌else◌}
use restruc.Base.Run.{Run, done, fault, out_of_fuel, ◌>>=◌}

module _ {A : Type 0} (P : A → Type 0) where
  unfoldable pub Ends : Run A → Type 0
  Ends (done a) = P a
  Ends fault = Unit
  Ends out_of_fuel = ⊥

  pub done-Ends : (a : A) → P a → Ends (done a)
  unfolding Ends
  done-Ends a h = h

  pub fault-Ends : Ends fault
  unfolding Ends
  fault-Ends = tt

  pub if-Ends :
      (b : Bool) (o p : Run A)
      → (b ≡ true → Ends o)
      → (b ≡ false → Ends p)
      → Ends (if b then o else p)
  if-Ends true o p h k = h refl
  if-Ends false o p h k = k refl

  pub option-Ends :
      {B : Type 0} (o : Option B) (m : Run A) (k : B → Run A)
      → Ends m
      → ((b : B) → o ≡ some b → Ends (k b))
      → Ends (elim o [ none ↦ m | some b ↦ k b ])
  option-Ends none m k h g = h
  option-Ends (some b) m k h g = g b refl

pub bind-Ends :
    {A B : Type 0} (P : A → Type 0) (Q : B → Type 0) (o : Run A) (k : A → Run B)
    → Ends P o
    → ((a : A) → P a → Ends Q (k a))
    → Ends Q (o >>= k)
unfolding Ends
bind-Ends P Q (done a) k h g = g a h
bind-Ends P Q fault k h g = tt
bind-Ends P Q out_of_fuel k h g = absurd h

pub list-Ends :
    {A B : Type 0} (P : A → Type 0) (l : List B) (m : Run A) (k : B → List B → Run A)
    → Ends P m
    → ((b : B) (bs : List B) → Ends P (k b bs))
    → Ends P (elim l [ [] ↦ m | b ∷ bs ↦ k b bs ])
list-Ends P [] m k h g = h
list-Ends P (b ∷ bs) m k h g = g b bs

pub map-Ends :
    {A : Type 0} (P Q : A → Type 0) (o : Run A) → ((a : A) → P a → Q a) → Ends P o → Ends Q o
unfolding Ends
map-Ends P Q (done a) f h = f a h
map-Ends P Q fault f h = tt
map-Ends P Q out_of_fuel f h = h

-- Ending, whatever is returned.
abbrev pub Stops : {A : Type 0} → Run A → Type 0
Stops = Ends (λ a. Unit)
