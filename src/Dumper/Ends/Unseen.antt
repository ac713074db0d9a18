-- ===== src/Dumper/Ends/Unseen.antt =====
-- The instructions that a history has not visited.
use restruc.Base.{
  ℕ, suc, ◌+◌, ◌≤◌, ◌<◌, ◌≡◌, refl, ap, ◌∙◌, inl, inr, arith, Bool, true, false, Option, none, some,
  List, [], ◌∷◌, ◌++◌, if◌then◌else◌, ltb, ◌==◌, Bool-cases,
}
use restruc.Base.Assoc
use restruc.Base.Lookup.{before_upper_bound}
use restruc.Zydis.{Instruction}
use restruc.Flo.{Flo, Disassembly}
use restruc.Flo.Destinations.{is_known}
use restruc.Reflo.Search.{Reflo, Flos, get_flo_by_address}

-- The addresses of all instructions.
unfoldable pub keys : Disassembly → List ℕ
keys [] = []
keys ((address, ins) ∷ d) = address ∷ keys d

unfoldable pub addresses : Flos → List ℕ
addresses [] = []
addresses ((k, f) ∷ flos) = keys f.disassembly ++ addresses flos

unfoldable pub addresses_count : List ℕ → ℕ
addresses_count [] = 0
addresses_count (a ∷ xs) = suc (addresses_count xs)

-- How many addresses are not visited.
unfoldable pub unseen : List ℕ → List ℕ → ℕ
unseen [] v = 0
unseen (a ∷ xs) v = (if is_known a v then 0 else 1) + unseen xs v

unfoldable pub Wider : List ℕ → List ℕ → Type 0
Wider v w = (q : ℕ) → is_known q v ≡ true → is_known q w ≡ true

pub unseen-le : (xs v : List ℕ) → unseen xs v ≤ addresses_count xs
unfolding unseen addresses_count
unseen-le [] v = omega arith
unseen-le (a ∷ xs) v = ground (arith, unseen-le xs v)

pub unseen-Wider : (xs v w : List ℕ) → Wider v w → unseen xs w ≤ unseen xs v
unfolding unseen Wider
unseen-Wider [] v w g = omega arith
unseen-Wider (a ∷ xs) v w g = ground (arith, g a, unseen-Wider xs v w g)

pub Wider-cons : (a : ℕ) (v : List ℕ) → Wider v (a ∷ v)
unfolding Wider is_known
Wider-cons a v q h = ground arith

pub Wider-trans : (u v w : List ℕ) → Wider u v → Wider v w → Wider u w
unfolding Wider
Wider-trans u v w g h q e = h q (g q e)

pub Wider-refl : (v : List ℕ) → Wider v v
unfolding Wider
Wider-refl v q e = e

pub unseen-cons :
    (a : ℕ) (xs v : List ℕ)
    → is_known a xs ≡ true
    → is_known a v ≡ false
    → unseen xs (a ∷ v) < unseen xs v
unfolding unseen is_known
unseen-cons a [] v h new = absurd (ground arith)
unseen-cons a (b ∷ xs) v h new = elim (Bool-cases (b == a)) [
  | inl e ↦
      let same : b ≡ a = ground arith in
      let absent : is_known b v ≡ false = ap (λ q. is_known q v) same ∙ new in
      let here : (a == b) ≡ true = ground arith in
      rw (absent, here) (let below = unseen-Wider xs v (a ∷ v) (Wider-cons a v) in omega arith)
  | inr e ↦
      let later : is_known a xs ≡ true = ground arith in
      let apart : (a == b) ≡ false = ground arith in
      rw apart (let ih = unseen-cons a xs v later new in omega arith)
]

known-append-left : (q : ℕ) (xs bs : List ℕ) → is_known q xs ≡ true → is_known q (xs ++ bs) ≡ true
unfolding is_known
known-append-left q [] bs h = absurd (ground arith)
known-append-left q (a ∷ xs) bs h = ground (arith, known-append-left q xs bs)

known-append-right : (q : ℕ) (xs bs : List ℕ) → is_known q bs ≡ true → is_known q (xs ++ bs) ≡ true
unfolding is_known
known-append-right q [] bs h = h
known-append-right q (a ∷ xs) bs h = ground (arith, known-append-right q xs bs h)

pub find-keys :
    (a : ℕ) (d : Disassembly) (ins : Instruction)
    → Assoc.find a d ≡ some ins
    → is_known a (keys d) ≡ true
unfolding Assoc.find keys is_known
find-keys a [] ins h = cc
find-keys a ((k, i) ∷ d) ins h = elim (Bool-cases (k == a)) [
  | inl e ↦ rw e refl
  | inr e ↦ rw e (find-keys a d ins (rw e at h))
]

-- What a function that was found holds is among all addresses.
Known : ℕ → Option (ℕ × Flo) → Flos → Type 0
Known q none flos = Unit
Known q (some (k, f)) flos =
    is_known q (keys f.disassembly) ≡ true → is_known q (addresses flos) ≡ true

Known-first :
    (q : ℕ) (e : ℕ × Flo) (flos : Flos) (o : Option (ℕ × Flo))
    → Known q o flos
    → Known q (elim o [ none ↦ some e | some b ↦ some b ]) (e ∷ flos)
unfolding Known addresses
Known-first q (k, f) flos none h = known-append-left q (keys f.disassembly) (addresses flos)
Known-first q (k, f) flos (some (j, g)) h =
    λ e. known-append-right q (keys f.disassembly) (addresses flos) (h e)

Known-if :
    (q : ℕ) (b : Bool) (o : Option (ℕ × Flo)) (flos : Flos)
    → Known q o flos
    → Known q (if b then none else o) flos
unfolding Known
Known-if q true o flos h = tt
Known-if q false o flos h = h

before_upper_bound-Known :
    (q x : ℕ) (flos : Flos) → Known q (before_upper_bound (λ e. e.0) x flos) flos
unfolding before_upper_bound Known
before_upper_bound-Known q x [] = tt
before_upper_bound-Known q x (e ∷ flos) = Known-if q (ltb x e.0) _ (e ∷ flos) (
    Known-first q e flos (before_upper_bound (λ e'. e'.0) x flos)
      (before_upper_bound-Known q x flos))

Known-found :
    (q : ℕ) (o : Option (ℕ × Flo)) (flos : Flos) (f : Flo)
    → Known q o flos
    → elim o [ none ↦ none | some (k, g) ↦ some g ] ≡ some f
    → is_known q (keys f.disassembly) ≡ true
    → is_known q (addresses flos) ≡ true
unfolding Known
Known-found q none flos f h e own = cc
Known-found q (some (k, g)) flos f h e own =
    let same : g ≡ f = ap (λ o. elim o [ none ↦ f | some g' ↦ g' ]) e in
    h (ap (λ g'. is_known q (keys (Flo.disassembly g'))) same ∙ own)

pub get_flo_by_address-Known :
    (reflo : Reflo) (q a : ℕ) (f : Flo)
    → get_flo_by_address reflo a ≡ some f
    → is_known q (keys f.disassembly) ≡ true
    → is_known q (addresses reflo.flos) ≡ true
unfolding get_flo_by_address
get_flo_by_address-Known reflo q a f e own =
    Known-found q (before_upper_bound (λ e'. e'.0) a reflo.flos) reflo.flos f
      (before_upper_bound-Known q a reflo.flos) e own
