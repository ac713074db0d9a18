-- ===== src/Base/Holds.antt =====
-- What holds of a result, if there is one.
use mathlib.Core.Bool.{Bool, true, false}
use mathlib.Core.Option.{Option, none, some}
use mathlib.Core.List.{List, [], ◌∷◌}
use restruc.Base.Tests.{if◌then◌else◌}
use restruc.Base.Run.{Run, done, fault, out_of_fuel, ◌>>=◌}

module _ {A : Type 0} (P : A → Type 0) where
  unfoldable pub Holds : Run A → Type 0
  Holds (done a) = P a
  Holds fault = Unit
  Holds out_of_fuel = Unit

  pub done-Holds : (a : A) → P a → Holds (done a)
  unfolding Holds
  done-Holds a h = h

  pub done-held : (a : A) → Holds (done a) → P a
  unfolding Holds
  done-held a h = h

  pub fault-Holds : Holds fault
  unfolding Holds
  fault-Holds = tt

  pub out_of_fuel-Holds : Holds out_of_fuel
  unfolding Holds
  out_of_fuel-Holds = tt

  pub if-Holds : (b : Bool) (o p : Run A) → Holds o → Holds p → Holds (if b then o else p)
  if-Holds true o p h k = h
  if-Holds false o p h k = k

  pub option-Holds :
      {B : Type 0} (o : Option B) (m : Run A) (k : B → Run A)
      → Holds m
      → ((b : B) → Holds (k b))
      → Holds (elim o [ none ↦ m | some b ↦ k b ])
  option-Holds none m k h g = h
  option-Holds (some b) m k h g = g b

  -- Nothing is asked of the first part.
  pub any-Holds :
      {B : Type 0} (o : Run B) (k : B → Run A) → ((b : B) → Holds (k b)) → Holds (o >>= k)
  unfolding Holds
  any-Holds (done b) k h = h b
  any-Holds fault k h = tt
  any-Holds out_of_fuel k h = tt

pub bind-Holds :
    {A B : Type 0} (P : A → Type 0) (Q : B → Type 0) (o : Run A) (k : A → Run B)
    → Holds P o
    → ((a : A) → P a → Holds Q (k a))
    → Holds Q (o >>= k)
unfolding Holds
bind-Holds P Q (done a) k h g = g a h
bind-Holds P Q fault k h g = tt
bind-Holds P Q out_of_fuel k h g = tt

pub list-Holds :
    {A B : Type 0} (P : A → Type 0) (l : List B) (m : Run A) (k : B → List B → Run A)
    → Holds P m
    → ((b : B) (bs : List B) → Holds P (k b bs))
    → Holds P (elim l [ [] ↦ m | b ∷ bs ↦ k b bs ])
list-Holds P [] m k h g = h
list-Holds P (b ∷ bs) m k h g = g b bs

pub map-Holds :
    {A : Type 0} (P Q : A → Type 0) (o : Run A) → ((a : A) → P a → Q a) → Holds P o → Holds Q o
unfolding Holds
map-Holds P Q (done a) f h = f a h
map-Holds P Q fault f h = tt
map-Holds P Q out_of_fuel f h = tt
