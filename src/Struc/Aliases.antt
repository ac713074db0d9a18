-- ===== src/Struc/Aliases.antt =====
-- What `remove_aliases` erases.
use restruc.Base.{
  ℕ, ◌≤◌, ◌≡◌, ◌≢◌, refl, inl, inr, arith, Bool, true, false, ◌&&◌, List, [], ◌∷◌, if◌then◌else◌,
  max, ◌==◌, Bool-cases,
}
use restruc.Struc.{Field, has_aliases, remove_aliases}

module _ (offset : ℕ) (check : Field → ℕ → Bool) (size : ℕ) where
  gone :
      (m : List (ℕ × Field)) (count : ℕ)
      → has_aliases offset check size (remove_aliases offset check size m count).0 ≡ false
  unfolding has_aliases remove_aliases
  gone [] count = refl
  gone ((o, f) ∷ m) count =
      let ih = gone m (if o == offset then max count f.count else count) in
      elim (Bool-cases (o == offset && check f size)) [ inl e ↦ rw e ih | inr e ↦ rw (e, e) ih ]

  others :
      (q : ℕ) (check' : Field → ℕ → Bool) (size' : ℕ) (m : List (ℕ × Field)) (count : ℕ)
      → q ≢ offset
      → has_aliases q check' size' (remove_aliases offset check size m count).0
        ≡ has_aliases q check' size' m
  unfolding has_aliases remove_aliases
  others q check' size' [] count n = refl
  others q check' size' ((o, f) ∷ m) count n =
      let ih = others q check' size' m (if o == offset then max count f.count else count) n in
      elim (Bool-cases (o == offset && check f size)) [
        | inl e ↦ let apart : (o == q) ≡ false = other_key o q (first _ _ e) n in rw (e, apart) ih
        | inr e ↦ rw (e, ih) refl
      ]
    where
      first : (a b : Bool) → (a && b) ≡ true → a ≡ true
      first a b h = ground arith

      other_key : (o q : ℕ) → (o == offset) ≡ true → q ≢ offset → (o == q) ≡ false
      other_key o q e n = ground arith

  most : (m : List (ℕ × Field)) (count : ℕ) → count ≤ (remove_aliases offset check size m count).1
  unfolding remove_aliases
  most [] count = omega arith
  most ((o, f) ∷ m) count = elim (Bool-cases (o == offset)) [
    | inl e ↦ rw e (omega (arith, most m (max count f.count)))
    | inr e ↦ rw e (most m count)
  ]

  -- After the removal no field at the offset passes the check, the fields at any other offset are as
  -- they were, and the count that is returned is not below the one that it starts from.
  pub remove_aliases-has_aliases :
      (q : ℕ) (check' : Field → ℕ → Bool) (size' : ℕ) (m : List (ℕ × Field)) (count : ℕ)
      → q ≢ offset
      → (let (kept, largest) = remove_aliases offset check size m count in
          (has_aliases offset check size kept ≡ false)
          × (has_aliases q check' size' kept ≡ has_aliases q check' size' m)
          × (count ≤ largest))
  remove_aliases-has_aliases q check' size' m count n =
      (gone m count, others q check' size' m count n, most m count)
