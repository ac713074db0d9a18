-- ===== src/Struc/Cover.antt =====
-- Every operation keeps the offsets of all elements of all fields in `field_set_`, and the fields in
-- the order of their offsets.
use restruc.Base.{
  ℕ, zero, suc, ◌+◌, ◌*◌, ◌%◌, ◌≤◌, ◌<◌, ◌≡◌, ap, inl, inr, arith, Bool, true, false, not, ◌&&◌,
  ◌||◌, Option, List, [], ◌∷◌, if◌then◌else◌, ltb, max, ◌==◌, Bool-cases, ==→eq,
}
use restruc.Base.Assoc
use restruc.Base.Assoc.{IsOrdered, emplace-IsOrdered}
use restruc.Hash.{word}
use restruc.Struc.{
  Field, Struc, new_struc, member, cover, field_size, remove_aliases, is_duplicate, add_field,
  add_int_field, add_float_field, add_pointer_field, add_struc_field, merge_fields, has_aliases,
  is_typed_int_alias, is_float_alias, is_pointer_alias, has_field_at_offset, type_is, has_target,
  pointer, float,
}

cover-kept :
    (x offset size n : ℕ) (set : List ℕ)
    → member x set ≡ true
    → member x (cover offset size n set) ≡ true
unfolding cover member
cover-kept x offset size zero set h = h
cover-kept x offset size (suc n) set h = ground (arith, cover-kept x offset size n set h)

or_right : (a b : Bool) → b ≡ true → (a || b) ≡ true
or_right a b h = ground arith

cover-member :
    (offset size n i : ℕ) (set : List ℕ)
    → i < n
    → member ((offset + i * size) % word) (cover offset size n set) ≡ true
unfolding cover member
cover-member offset size zero i set h = absurd (omega arith)
cover-member offset size (suc n) i set h = elim (Bool-cases (n == i)) [
  | inl e ↦
      let same : (offset + n * size) % word ≡ (offset + i * size) % word =
        ap (λ z. (offset + z * size) % word) (==→eq n i e) in
      ground arith
  | inr e ↦
      let rest = cover-member offset size n i set (ground arith) in
      or_right ((offset + n * size) % word == (offset + i * size) % word) _ rest
]

module _ (size_of : ℕ → ℕ) where
  -- The offsets of a field's elements are in the set.
  abbrev pub IsIn : ℕ → Field → List ℕ → Type 0
  IsIn o f set = (i : ℕ) → i < f.count → member ((o + i * field_size size_of f) % word) set ≡ true

  abbrev pub AllIn : List (ℕ × Field) → List ℕ → Type 0
  AllIn [] set = Unit {0}
  AllIn ((o, f) ∷ m) set = IsIn o f set × AllIn m set

  AllIn-kept :
      (m : List (ℕ × Field)) (set set' : List ℕ)
      → ((x : ℕ) → member x set ≡ true → member x set' ≡ true)
      → AllIn m set
      → AllIn m set'
  AllIn-kept [] set set' k a = tt
  AllIn-kept ((o, f) ∷ m) set set' k a = (λ i h. k _ (a.0 i h), AllIn-kept m set set' k a.1)

  emplace-AllIn :
      (offset : ℕ) (field : Field) (m : List (ℕ × Field)) (set : List ℕ)
      → IsIn offset field set
      → AllIn m set
      → AllIn (Assoc.emplace offset field m) set
  unfolding Assoc.emplace
  emplace-AllIn offset field [] set h a = (h, tt)
  emplace-AllIn offset field ((o, f) ∷ m) set h a = elim (Bool-cases (ltb offset o)) [
    | inl e ↦ rw e (h, a)
    | inr e ↦ rw e (a.0, emplace-AllIn offset field m set h a.1)
  ]

  remove_aliases-AllIn :
      (offset : ℕ) (check : Field → ℕ → Bool) (size : ℕ) (m : List (ℕ × Field)) (count : ℕ)
      (set : List ℕ)
      → AllIn m set
      → AllIn (remove_aliases offset check size m count).0 set
  unfolding remove_aliases
  remove_aliases-AllIn offset check size [] count set a = tt
  remove_aliases-AllIn offset check size ((o, f) ∷ m) count set a =
      let ih =
        remove_aliases-AllIn offset check size m (if o == offset then max count f.count else count)
          set a.1 in
      elim (Bool-cases (o == offset && check f size)) [ inl e ↦ rw e ih | inr e ↦ rw e (a.0, ih) ]

  remove_aliases-IsOrdered :
      (offset : ℕ) (check : Field → ℕ → Bool) (size low low' : ℕ) (m : List (ℕ × Field)) (count : ℕ)
      → low' ≤ low
      → IsOrdered low m
      → IsOrdered low' (remove_aliases offset check size m count).0
  unfolding remove_aliases
  remove_aliases-IsOrdered offset check size low low' [] count h a = tt
  remove_aliases-IsOrdered offset check size low low' ((o, f) ∷ m) count h a =
      let c = if o == offset then max count f.count else count in
      elim (Bool-cases (o == offset && check f size)) [
        | inl e ↦ rw e (remove_aliases-IsOrdered offset check size o low' m c (omega arith) a.1)
        | inr e ↦
            rw e (omega arith, remove_aliases-IsOrdered offset check size o o m c (omega arith) a.1)
      ]

  -- A structure whose fields are in order and covered.
  pub record IsCovered (s : Struc) : Type 0 where
    pub ordered : IsOrdered 0 s.fields
    pub all_in : AllIn s.fields s.field_set

  pub add_field-IsCovered :
      (offset : ℕ) (field : Field) (s : Struc)
      → IsCovered s
      → IsCovered (add_field size_of offset field s)
  unfolding add_field
  add_field-IsCovered offset field s k = elim (Bool-cases (is_duplicate size_of offset field s)) [
    | inl e ↦ rw e k
    | inr e ↦ rw e (record {
      ordered = emplace-IsOrdered offset 0 field s.fields (omega arith) k.ordered;
      all_in =
          emplace-AllIn offset field s.fields _
            (λ i h. cover-member offset (field_size size_of field) field.count i s.field_set h)
            (AllIn-kept s.fields _ _
              (λ x h. cover-kept x offset (field_size size_of field) field.count s.field_set h)
              k.all_in);
    })
  ]

  pub add_int_field-IsCovered :
      (offset size : ℕ) (is_signed : Bool) (count : ℕ) (s : Struc)
      → IsCovered s
      → IsCovered (add_int_field size_of offset size is_signed count s)
  unfolding add_int_field
  add_int_field-IsCovered offset size is_signed count s k =
      elim (Bool-cases (has_aliases offset is_typed_int_alias size s.fields)) [
        | inl e ↦ rw e k
        | inr e ↦ rw e (add_field-IsCovered offset _ s k)
      ]

  removed-IsCovered :
      (offset : ℕ) (check : Field → ℕ → Bool) (size : ℕ) (s : Struc)
      → IsCovered s
      → IsCovered (record s { fields = (remove_aliases offset check size s.fields 1).0 })
  removed-IsCovered offset check size s k = record {
    ordered = remove_aliases-IsOrdered offset check size 0 0 s.fields 1 (omega arith) k.ordered;
    all_in = remove_aliases-AllIn offset check size s.fields 1 s.field_set k.all_in;
  }

  pub add_float_field-IsCovered :
      (offset size count : ℕ) (s : Struc)
      → IsCovered s
      → IsCovered (add_float_field size_of offset size count s)
  unfolding add_float_field
  add_float_field-IsCovered offset size count s k =
      add_field-IsCovered offset _ _ (removed-IsCovered offset is_float_alias size s k)

  pub add_pointer_field-IsCovered :
      (offset count : ℕ) (target : Option ℕ) (s : Struc)
      → IsCovered s
      → IsCovered (add_pointer_field size_of offset count target s)
  unfolding add_pointer_field
  add_pointer_field-IsCovered offset count target s k =
      add_field-IsCovered offset _ _ (removed-IsCovered offset is_pointer_alias 8 s k)

  IsCovered-if :
      (b : Bool) (s t : Struc) → IsCovered s → IsCovered t → IsCovered (if b then s else t)
  IsCovered-if true s t h k = h
  IsCovered-if false s t h k = k

  pub merge_fields-IsCovered :
      (offset : ℕ) (field : Field) (s : Struc)
      → IsCovered s
      → IsCovered (merge_fields size_of offset field s)
  unfolding merge_fields
  merge_fields-IsCovered offset field s k =
      let added = add_field-IsCovered offset field s k in
      IsCovered-if (not (has_field_at_offset offset s)) _ _ added (
        IsCovered-if (is_duplicate size_of offset field s) _ _ k (
          IsCovered-if (type_is field.type pointer && has_target field.target) _ _
            (add_pointer_field-IsCovered offset 1 field.target s k)
            (IsCovered-if (type_is field.type float) _ _
              (add_float_field-IsCovered offset (field_size size_of field) field.count s k) added)))

  pub new_struc-IsCovered : IsCovered new_struc
  unfolding new_struc
  new_struc-IsCovered = record { ordered = tt; all_in = tt }

  -- The structures that the operations build.
  pub data Reachable : Struc → Type 0 where
    start : Reachable new_struc
    int_added :
        {s : Struc} (offset size : ℕ) (is_signed : Bool) (count : ℕ)
        → Reachable s
        → Reachable (add_int_field size_of offset size is_signed count s)
    float_added :
        {s : Struc} (offset size count : ℕ)
        → Reachable s
        → Reachable (add_float_field size_of offset size count s)
    pointer_added :
        {s : Struc} (offset count : ℕ) (target : Option ℕ)
        → Reachable s
        → Reachable (add_pointer_field size_of offset count target s)
    struc_added :
        {s : Struc} (offset target count : ℕ)
        → Reachable s
        → Reachable (add_struc_field size_of offset target count s)
    merged :
        {s : Struc} (offset : ℕ) (field : Field)
        → Reachable s
        → Reachable (merge_fields size_of offset field s)

  -- In every structure that the operations build, the fields are in the order of their offsets, and
  -- the offsets of all elements of every field are in the set that `has_field_at_offset` asks. The
  -- sizes of other structures stay what they are.
  pub Reachable-IsCovered : (s : Struc) → Reachable s → IsCovered s
  unfolding new_struc add_struc_field
  Reachable-IsCovered s start = new_struc-IsCovered
  Reachable-IsCovered s (int_added {s = s'} offset size is_signed count r) =
      add_int_field-IsCovered offset size is_signed count s' (Reachable-IsCovered s' r)
  Reachable-IsCovered s (float_added {s = s'} offset size count r) =
      add_float_field-IsCovered offset size count s' (Reachable-IsCovered s' r)
  Reachable-IsCovered s (pointer_added {s = s'} offset count target r) =
      add_pointer_field-IsCovered offset count target s' (Reachable-IsCovered s' r)
  Reachable-IsCovered s (struc_added {s = s'} offset target count r) =
      add_field-IsCovered offset _ s' (Reachable-IsCovered s' r)
  Reachable-IsCovered s (merged {s = s'} offset field r) =
      merge_fields-IsCovered offset field s' (Reachable-IsCovered s' r)
