-- ===== src/Base/Run.antt =====
-- The outcome of a piece of code that follows pointers or loops: a result, a fault (a null or a
-- wrongly cast pointer is used, which is undefined in C++), or not enough fuel.
use mathlib.Core.Path.{◌≡◌}

pub data Run {ℓ} (A : Type ℓ) : Type ℓ where
  done : A → Run A
  fault : Run A
  out_of_fuel : Run A

infixl 5 ◌>>=◌
abbrev pub ◌>>=◌ {ℓ κ} : {A : Type ℓ} {B : Type κ} → Run A → (A → Run B) → Run B
done a >>= f = f a
fault >>= f = fault
out_of_fuel >>= f = out_of_fuel

-- A run that returns hands its result on.
pub >>=-done {ℓ κ} :
    {A : Type ℓ} {B : Type κ} {m : Run A} {a : A} (f : A → Run B) → m ≡ done a → (m >>= f) ≡ f a
>>=-done f e = rw e
