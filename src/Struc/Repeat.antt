-- ===== src/Struc/Repeat.antt =====
-- A field that is added again is recognized as a duplicate.
use restruc.Base.{
  ℕ, ◌+◌, ◌*◌, ◌%◌, ◌<◌, ◌≡◌, refl, inl, inr, arith, Bool, true, false, not, ◌||◌, Option, List, [],
  ◌∷◌, ltb, leb, ◌==◌, ==_refl, le→leb, Bool-cases,
}
use restruc.Base.Assoc
use restruc.Hash.{word}
use restruc.Struc.{
  Field, FieldType, uint, int, float, pointer, struc, Struc, backwards, field_size, offset_end,
  priority, duplicate_before, is_duplicate, add_field, is_typed_int_alias, is_float_alias,
  is_pointer_alias, type_is, rank,
}

-- The search backwards meets the newest field at its offset first.
backwards-emplace :
    (offset : ℕ) (field : Field) (m acc : List (ℕ × Field))
    → backwards offset (Assoc.emplace offset field m) acc ≡ (offset, field) ∷ backwards offset m acc
unfolding backwards Assoc.emplace
backwards-emplace offset field [] acc = rw (le→leb offset offset (omega arith)) refl
backwards-emplace offset field ((o, f) ∷ m) acc = elim (Bool-cases (ltb offset o)) [
  | inl e ↦
      let here : leb offset offset ≡ true = ground arith in
      let past : leb o offset ≡ false = ground arith in rw (e, here, past) refl
  | inr e ↦
      let past : leb o offset ≡ true = ground arith in
      rw (e, past) (backwards-emplace offset field m ((o, f) ∷ acc))
]

past_end : (offset z : ℕ) → 0 < z → offset + z < word → leb ((offset + z) % word) offset ≡ false
past_end offset z p h =
    let unwrapped : (offset + z) % word ≡ offset + z = omega arith in rw unwrapped (ground arith)

-- The width that a field of its type has to have: pointers have eight bytes.
unfoldable pub has_width : Field → Bool
has_width f = not (type_is f.type pointer) || f.own_size == 8

module _ (size_of : ℕ → ℕ) where
  priority-same :
      (t : FieldType) (n count : ℕ) (target : Option ℕ)
      → (let f : Field = record { type = t; own_size = n; count = count; target = target } in
          has_width f ≡ true → priority size_of f f t ≡ true)
  unfolding priority is_typed_int_alias is_float_alias is_pointer_alias field_size type_is rank
      has_width
  priority-same uint n count target w = ground arith
  priority-same int n count target w = ground arith
  priority-same float n count target w = ground arith
  priority-same pointer n count target w = ground arith
  priority-same struc n count target w = refl

  duplicate_before-same :
      (offset : ℕ) (f : Field) (m : List (ℕ × Field))
      → has_width f ≡ true
      → 0 < f.count * field_size size_of f
      → offset + f.count * field_size size_of f < word
      → duplicate_before size_of offset f ((offset, f) ∷ m) ≡ true
  unfolding duplicate_before offset_end
  duplicate_before-same offset f m w some_bytes h =
      let past : leb ((offset + f.count * field_size size_of f) % word) offset ≡ false =
        past_end offset _ some_bytes h in
      rw
        (
          past,
          ==_refl (field_size size_of f),
          ==_refl (offset % field_size size_of f),
          priority-same f.type f.own_size f.count f.target w,
        )
        refl

  -- Adding a field again changes nothing, if it takes up space, does not reach past the last address
  -- and, as a pointer, has eight bytes.
  pub add_field-add_field :
      (offset : ℕ) (f : Field) (s : Struc)
      → has_width f ≡ true
      → 0 < f.count * field_size size_of f
      → offset + f.count * field_size size_of f < word
      → add_field size_of offset f (add_field size_of offset f s) ≡ add_field size_of offset f s
  unfolding add_field is_duplicate
  add_field-add_field offset f s w some_bytes h =
      elim (Bool-cases (is_duplicate size_of offset f s)) [
        | inl e ↦ rw (e, e) refl
        | inr e ↦
            rw
              (
                e,
                backwards-emplace offset f s.fields [],
                duplicate_before-same offset f (backwards offset s.fields []) w some_bytes h,
              )
              refl
      ]
