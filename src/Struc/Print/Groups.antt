-- ===== src/Struc/Print/Groups.antt =====
-- What `print` puts into its groups.
use restruc.Base.{
  ℕ, zero, suc, max, ◌≤◌, ◌<◌, ◌≡◌, refl, ap, ◌∙◌, inl, inr, arith, List, [], ◌∷◌, ◌++◌,
  if◌then◌else◌, ltb, leb, leb→le, Bool-cases,
}
use restruc.Struc.{offset_end}
use restruc.Struc.Iterator.{Entry}
use restruc.Struc.Print.{Group, union_members, groups, entries}

module _ (size_of : ℕ → ℕ) where
  -- The fields of all groups, in the order in which they are printed.
  unfoldable pub printed : List Group → List Entry
  printed [] = []
  printed (g ∷ gs) = g.members ++ printed gs

  union_members-append :
      (prev next_offset : ℕ) (m : List Entry)
      → ((union_members size_of prev next_offset m).0
            ++ (union_members size_of prev next_offset m).1
          ≡ m)
        × (entries (union_members size_of prev next_offset m).1 ≤ entries m)
  unfolding union_members entries
  union_members-append prev next_offset [] = (refl, omega arith)
  union_members-append prev next_offset ((o, f) ∷ m) = elim (Bool-cases (leb prev o)) [
    | inl e ↦ rw e (refl, omega arith)
    | inr e ↦
        let ih =
          union_members-append (offset_end size_of o f)
            (if ltb next_offset prev then prev else next_offset) m in
        let shorter = ih.1 in rw e (ap (λ l. (o, f) ∷ l) ih.0, omega arith)
  ]

  groups-printed :
      (fuel : ℕ) (m : List Entry) → entries m ≤ fuel → printed (groups size_of fuel m) ≡ m
  unfolding groups printed entries
  groups-printed zero [] h = refl
  groups-printed zero (e ∷ m) h = absurd (omega arith)
  groups-printed (suc fuel) [] h = refl
  groups-printed (suc fuel) ((o, f) ∷ m) h =
      let here = offset_end size_of o f in
      let u = union_members-append here here m in
      let shorter = u.1 in
      let rest = (union_members size_of here here m).1 in
      let ih = groups-printed fuel rest (omega arith) in
      ap (λ l. (o, f) ∷ l) (ap (λ l. (union_members size_of here here m).0 ++ l) ih ∙ u.0)

  -- The end of the last field, and the offsets at which the fields that follow begin: each before the
  -- one in front of it ends, or behind.
  unfoldable pub last_end : ℕ → List Entry → ℕ
  last_end prev [] = prev
  last_end prev ((o, f) ∷ m) = last_end (offset_end size_of o f) m

  unfoldable pub Overlaps : ℕ → List Entry → Type 0
  Overlaps prev [] = Unit
  Overlaps prev ((o, f) ∷ m) = (o < prev) × Overlaps (offset_end size_of o f) m

  unfoldable pub BeginsAt : ℕ → List Entry → Type 0
  BeginsAt end [] = Unit
  BeginsAt end ((o, f) ∷ m) = end ≤ o

  -- The greatest of `next_offset` and the ends of all fields but the last.
  unfoldable pub reach : ℕ → ℕ → List Entry → ℕ
  reach prev next_offset [] = next_offset
  reach prev next_offset ((o, f) ∷ m) = reach (offset_end size_of o f) (max prev next_offset) m

  -- A group is a field with those that follow it as long as each overlaps the one in front of it.
  unfoldable pub IsUnion : Group → List Entry → Type 0
  IsUnion g [] = ⊥
  IsUnion g ((o, f) ∷ m) =
      (g.base_offset ≡ o)
      × Overlaps (offset_end size_of o f) m
      × (g.next_offset ≡ reach (offset_end size_of o f) (offset_end size_of o f) m)

  -- The next group begins where the last field of a group ends, or behind.
  unfoldable pub AreSeparated : List Group → Type 0
  AreSeparated [] = Unit
  AreSeparated (g ∷ gs) =
      IsUnion g g.members × BeginsAt (last_end 0 g.members) (printed gs) × AreSeparated gs

  larger :
      (prev next_offset : ℕ)
      → (if ltb next_offset prev then prev else next_offset) ≡ max prev next_offset
  larger prev next_offset = ground arith

  union_members-overlap :
      (prev next_offset : ℕ) (m : List Entry)
      → (let u = union_members size_of prev next_offset m in
          Overlaps prev u.0 × BeginsAt (last_end prev u.0) u.1 × (u.2 ≡ reach prev next_offset u.0))
  unfolding union_members Overlaps BeginsAt last_end reach
  union_members-overlap prev next_offset [] = (tt, tt, refl)
  union_members-overlap prev next_offset ((o, f) ∷ m) = elim (Bool-cases (leb prev o)) [
    | inl e ↦ rw e (tt, leb→le prev o e, refl)
    | inr e ↦
        let here = offset_end size_of o f in
        let further = if ltb next_offset prev then prev else next_offset in
        let ih = union_members-overlap here further m in
        let after : o < prev = ground arith in
        rw e (
          (after, ih.0),
          ih.1,
          ih.2
              ∙ ap (λ n. reach here n (union_members size_of here further m).0)
                  (larger prev next_offset),
        )
  ]

  -- With one round for each field the groups have every field once, in the order of the offsets. In a
  -- group each field begins before the one in front of it ends, and no group could be longer: the
  -- next one begins where the last field of the group ends, or behind. The offset up to which a group
  -- counts as printed is the greatest end of its fields without the last, or the end of its only one.
  pub groups-AreSeparated :
      (fuel : ℕ) (m : List Entry)
      → entries m ≤ fuel
      → (printed (groups size_of fuel m) ≡ m) × AreSeparated (groups size_of fuel m)
  unfolding groups entries AreSeparated IsUnion last_end
  groups-AreSeparated fuel m h = (groups-printed fuel m h, separated fuel m h)
    where
      separated : (n : ℕ) (l : List Entry) → entries l ≤ n → AreSeparated (groups size_of n l)
      separated zero [] h = tt
      separated zero (e ∷ l) h = absurd (omega arith)
      separated (suc n) [] h = tt
      separated (suc n) ((o, f) ∷ l) h =
          let here = offset_end size_of o f in
          let u = union_members-overlap here here l in
          let shorter = (union_members-append here here l).1 in
          let rest = (union_members size_of here here l).1 in
          let few : entries rest ≤ n = omega arith in
          ((refl, u.0, u.2), rw (groups-printed n rest few) u.1, separated n rest few)
