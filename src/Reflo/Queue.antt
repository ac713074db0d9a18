-- ===== src/Reflo/Queue.antt =====
-- What one analysis leaves: the functions in the order of their addresses, and only known ones in the
-- queue.
use restruc.Base.{
  ℕ, ◌≤◌, ◌≡◌, refl, ◌∙◌, inl, inr, arith, Bool, true, false, Option, none, some, List, [], ◌∷◌,
  ◌++◌, if◌then◌else◌, ◌==◌, ==_refl, ltb, ltb→lt, Bool-cases,
}
use restruc.Base.Run.{Run, done, fault, out_of_fuel, ◌>>=◌}
use restruc.Base.Assoc
use restruc.Base.Assoc.{contains-emplace}
use restruc.Base.Lookup.{IsSorted, LastAtMost, before_upper_bound, before_upper_bound-LastAtMost}
use restruc.Zydis.{Instruction}
use restruc.Flo.{Flo, new_flo, add_reference}
use restruc.Reflo.Fill.{Filled, filled, decoder_error, fill_flo}
use restruc.Reflo.Search.{
  Reflo, Flos, at_key, add_flo, was_created, get_flo_by_address, run_flo_analysis, last_of,
  get_possible_flo_ends,
}

abbrev pub AllKnown : List ℕ → Flos → Type 0
AllKnown [] m = Unit
AllKnown (k ∷ ks) m = (Assoc.contains k m ≡ true) × AllKnown ks m

abbrev pub key : ℕ × Flo → ℕ
key e = e.0

pub record IsReflo (r : Reflo) : Type 0 where
  pub sorted : IsSorted key 0 r.flos
  pub queued : AllKnown r.unprocessed_flos r.flos

emplace-IsSorted :
    (k low : ℕ) (f : Flo) (m : Flos)
    → low ≤ k
    → IsSorted key low m
    → IsSorted key low (Assoc.emplace k f m)
unfolding Assoc.emplace
emplace-IsSorted k low f [] h s = (h, tt)
emplace-IsSorted k low f ((j, g) ∷ m) h s = elim (Bool-cases (ltb k j)) [
  | inl e ↦ let below = ltb→lt k j e in rw e (h, (omega arith, s.1))
  | inr e ↦ rw e (s.0, emplace-IsSorted k j f m (ground arith) s.1)
]

at_key-contains :
    (k q : ℕ) (change : Flo → Flo) (m : Flos)
    → Assoc.contains q (at_key k change m) ≡ Assoc.contains q m
unfolding at_key Assoc.contains
at_key-contains k q change [] = refl
at_key-contains k q change ((j, f) ∷ m) = elim (Bool-cases (j == k)) [
  | inl e ↦ rw e
  | inr e ↦ rw (e, at_key-contains k q change m)
]

at_key-IsSorted :
    (k low : ℕ) (change : Flo → Flo) (m : Flos)
    → IsSorted key low m
    → IsSorted key low (at_key k change m)
unfolding at_key
at_key-IsSorted k low change [] s = tt
at_key-IsSorted k low change ((j, f) ∷ m) s = elim (Bool-cases (j == k)) [
  | inl e ↦ rw e s
  | inr e ↦ rw e (s.0, at_key-IsSorted k j change m s.1)
]

-- Keys that a larger map knows.
AllKnown-larger :
    (ks : List ℕ) (m m' : Flos)
    → ((q : ℕ) → Assoc.contains q m ≡ true → Assoc.contains q m' ≡ true)
    → AllKnown ks m
    → AllKnown ks m'
AllKnown-larger [] m m' h a = tt
AllKnown-larger (k ∷ ks) m m' h a = (h k a.0, AllKnown-larger ks m m' h a.1)

AllKnown-append :
    (ks : List ℕ) (k : ℕ) (m : Flos)
    → AllKnown ks m
    → Assoc.contains k m ≡ true
    → AllKnown (ks ++ k ∷ []) m
AllKnown-append [] k m a h = (h, tt)
AllKnown-append (j ∷ ks) k m a h = (a.0, AllKnown-append ks k m a.1 h)

-- A result that is well formed, if there is one.
unfoldable pub KeepsReflo : Run Reflo → Type 0
KeepsReflo (done r) = IsReflo r
KeepsReflo fault = Unit
KeepsReflo out_of_fuel = Unit

reference-IsReflo :
    (k reference : ℕ) (r : Reflo)
    → IsReflo r
    → IsReflo (record r { flos = at_key k (add_reference reference) r.flos })
reference-IsReflo k reference r h = record {
  sorted = at_key-IsSorted k 0 (add_reference reference) r.flos h.sorted;
  queued =
      AllKnown-larger r.unprocessed_flos r.flos _
        (λ q c. at_key-contains k q (add_reference reference) r.flos ∙ c) h.queued;
}

create-IsReflo :
    (k : ℕ) (r : Reflo) → IsReflo r → IsReflo (record r { created_flos = k ∷ r.created_flos })
create-IsReflo k r h = record { sorted = h.sorted; queued = h.queued }

add_flo-IsReflo : (f : Flo) (r : Reflo) → IsReflo r → IsReflo (add_flo f r)
unfolding add_flo
add_flo-IsReflo f r h = elim (Bool-cases (Assoc.contains f.entry_point r.flos)) [
  | inl e ↦ rw e (record {
    sorted = h.sorted;
    queued = AllKnown-append r.unprocessed_flos f.entry_point r.flos h.queued e;
  })
  | inr e ↦
      let k = f.entry_point in
      let m' = Assoc.emplace k f r.flos in
      let larger = λ (q : ℕ) (c : Assoc.contains q r.flos ≡ true).
        let both = contains-emplace k q f r.flos in
        let c' : Assoc.contains q m' ≡ true = both ∙ ground arith in c' in
      let own : Assoc.contains k m' ≡ true = contains-emplace k k f r.flos ∙ rw (==_refl k) in
      rw e (record {
        sorted = emplace-IsSorted k 0 f r.flos (omega arith) h.sorted;
        queued =
            AllKnown-append r.unprocessed_flos k m'
              (AllKnown-larger r.unprocessed_flos r.flos m' larger h.queued) own;
      })
]

KeepsReflo-bind {ℓ} :
    {A : Type ℓ} (m : Run A) (f : A → Run Reflo)
    → ((a : A) → KeepsReflo (f a))
    → KeepsReflo (m >>= f)
unfolding KeepsReflo
KeepsReflo-bind (done a) f h = h a
KeepsReflo-bind fault f h = tt
KeepsReflo-bind out_of_fuel f h = tt

KeepsReflo-if :
    (b : Bool) (m k : Run Reflo) → KeepsReflo m → KeepsReflo k → KeepsReflo (if b then m else k)
KeepsReflo-if true m k h g = h
KeepsReflo-if false m k h g = g

done-KeepsReflo : (r : Reflo) → IsReflo r → KeepsReflo (done r)
unfolding KeepsReflo
done-KeepsReflo r h = h

waiting-KeepsReflo : KeepsReflo out_of_fuel
unfolding KeepsReflo
waiting-KeepsReflo = tt

module _ (decode : ℕ → ℕ → Option Instruction) (fuel : ℕ) where
  -- An analysis, of a new or a known entry point, that returns leaves the functions in the order of
  -- their addresses and in the queue only functions that are in the map, if it was so before.
  pub run_flo_analysis-KeepsReflo :
      (entry_point reference : ℕ) (r : Reflo)
      → IsReflo r
      → KeepsReflo (run_flo_analysis decode fuel entry_point reference r)
  unfolding run_flo_analysis
  run_flo_analysis-KeepsReflo entry_point reference r h =
      let created = record r { created_flos = entry_point ∷ r.created_flos } in
      let start = λ (ends : List ℕ). new_flo entry_point reference (last_of ends) in
      KeepsReflo-if (was_created entry_point r.created_flos) _ _
        (KeepsReflo-if (Assoc.contains entry_point r.flos) _ _
          (done-KeepsReflo _ (reference-IsReflo entry_point reference r h)) waiting-KeepsReflo)
        (KeepsReflo-bind (get_possible_flo_ends fuel r.pe entry_point) _ (λ (ends : List ℕ).
          KeepsReflo-bind (fill_flo decode fuel r.pe (start ends)) _
            (λ (o : Filled). finish created (create-IsReflo entry_point r h) o)))
    where
      finish :
          (c : Reflo)
          → IsReflo c
          → (o : Filled)
          → KeepsReflo (elim o [ decoder_error f ↦ done c | filled f ↦ done (add_flo f c) ])
      finish c k (decoder_error f) = done-KeepsReflo c k
      finish c k (filled f) = done-KeepsReflo (add_flo f c) (add_flo-IsReflo f c k)

-- The lookup by address answers with the function that starts last at or before the address, and
-- with nothing only if all functions start behind it.
pub get_flo_by_address-LastAtMost :
    (r : Reflo) (address : ℕ)
    → IsReflo r
    → (o : Option (ℕ × Flo)) × LastAtMost key address r.flos o
      × (get_flo_by_address r address ≡ elim o [ none ↦ none | some (k, f) ↦ some f ])
unfolding get_flo_by_address
get_flo_by_address-LastAtMost r address h = (
  before_upper_bound key address r.flos,
  before_upper_bound-LastAtMost key address 0 r.flos h.sorted,
  refl,
)
