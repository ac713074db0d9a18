-- ===== src/Struc.antt =====
-- struc.hxx and struc.cxx: a recovered structure, its fields by offset and the offsets that they
-- cover. A field refers to another structure by a number. The sizes that those have at the time of a
-- call are the parameter `size_of`; the size of this one is `get_size`.
pub mod Cover
pub mod Repeat
pub mod Aliases
pub mod Iterator
pub mod Merge
pub mod Print
use restruc.Base.{
  ℕ, zero, suc, ◌+◌, ◌*◌, ◌%◌, ◌^◌, max, Bool, true, false, not, ◌&&◌, ◌||◌, Option, none, some,
  List, [], ◌∷◌, if◌then◌else◌, ltb, leb, ◌==◌,
}
use restruc.Base.Assoc
use restruc.Hash.{word}

pub data FieldType : Type 0 where
  uint int float pointer struc : FieldType

pub record Field : Type 0 where
  pub type : FieldType
  pub own_size : ℕ
  pub count : ℕ
  pub target : Option ℕ

pub record Struc : Type 0 where
  pub fields : List (ℕ × Field)
  pub field_set : List ℕ

unfoldable pub new_struc : Struc
new_struc = record { fields = []; field_set = [] }

-- The place of a type in the enumeration.
unfoldable pub rank : FieldType → ℕ
rank uint = 0
rank int = 1
rank float = 2
rank pointer = 3
rank struc = 4

unfoldable pub type_is : FieldType → FieldType → Bool
unfolding rank
type_is t u = rank t == rank u

unfoldable pub is_pointer_alias : Field → ℕ → Bool
unfolding type_is
is_pointer_alias f size =
    f.own_size == 8 && (type_is f.type int || type_is f.type uint || type_is f.type pointer)

unfoldable pub is_float_alias : Field → ℕ → Bool
unfolding type_is
is_float_alias f size =
    f.own_size == size && (type_is f.type int || type_is f.type uint || type_is f.type float)

unfoldable pub is_typed_int_alias : Field → ℕ → Bool
unfolding type_is
is_typed_int_alias f size =
    f.own_size == size
    && (type_is f.type int || type_is f.type uint || type_is f.type float || type_is f.type pointer)

unfoldable pub same_target : Option ℕ → Option ℕ → Bool
same_target none none = true
same_target (some a) (some b) = a == b
same_target _ _ = false

-- `Field::operator==`: of the counts it asks only that neither is 0.
unfoldable pub same_field : Field → Field → Bool
unfolding type_is same_target
same_field f g =
    type_is f.type g.type
    && f.own_size == g.own_size
    && not (f.count == 0)
    && not (g.count == 0)
    && same_target f.target g.target

-- `std::set` of offsets.
unfoldable pub member : ℕ → List ℕ → Bool
member x [] = false
member x (y ∷ ys) = y == x || member x ys

unfoldable pub has_field_at_offset : ℕ → Struc → Bool
has_field_at_offset offset s = member offset s.field_set

-- Whether one of the entries at `offset` passes the check.
unfoldable pub has_aliases : ℕ → (Field → ℕ → Bool) → ℕ → List (ℕ × Field) → Bool
has_aliases offset check size [] = false
has_aliases offset check size ((o, f) ∷ m) =
    (o == offset && check f size) || has_aliases offset check size m

-- The entries at `offset` that pass the check are erased; the largest count there is returned.
unfoldable pub remove_aliases :
    ℕ → (Field → ℕ → Bool) → ℕ → List (ℕ × Field) → ℕ → List (ℕ × Field) × ℕ
remove_aliases offset check size [] count = ([], count)
remove_aliases offset check size ((o, f) ∷ m) count =
    let (m', most) =
      remove_aliases offset check size m (if o == offset then max count f.count else count) in
    ((if o == offset && check f size then m' else (o, f) ∷ m'), most)

-- The entries up to the upper bound of `offset`, the last one first.
unfoldable pub backwards : ℕ → List (ℕ × Field) → List (ℕ × Field) → List (ℕ × Field)
backwards offset [] done = done
backwards offset ((o, f) ∷ m) done =
    if leb o offset then backwards offset m ((o, f) ∷ done) else done

-- `field_set_.insert(offset + i * size)`, for the last `count` numbers i below `total`.
unfoldable pub cover : ℕ → ℕ → ℕ → List ℕ → List ℕ
cover offset size zero set = set
cover offset size (suc i) set = (offset + i * size) % word ∷ cover offset size i set

unfoldable pub has_target : Option ℕ → Bool
has_target none = false
has_target (some i) = true

module _ (size_of : ℕ → ℕ) where
  -- A field of structure type has always a structure.
  unfoldable pub target_size : Option ℕ → ℕ
  target_size none = 0
  target_size (some i) = size_of i

  -- `Field::size`.
  unfoldable pub field_size : Field → ℕ
  unfolding type_is target_size
  field_size f = if type_is f.type struc then target_size f.target else f.own_size

  unfoldable pub offset_end : ℕ → Field → ℕ
  offset_end offset f = (offset + f.count * field_size f) % word

  -- The switch on the type of the field that is there.
  unfoldable pub priority : Field → Field → FieldType → Bool
  priority current field uint =
      is_typed_int_alias field (field_size current) && leb (rank field.type) (rank current.type)
  priority current field int =
      is_typed_int_alias field (field_size current) && leb (rank field.type) (rank current.type)
  priority current field float =
      is_float_alias field (field_size current) && leb (rank field.type) (rank current.type)
  priority current field pointer =
      is_pointer_alias field (field_size current) && leb (rank field.type) (rank current.type)
  priority current field struc = type_is field.type current.type

  -- The loop of `is_duplicate`. Fields of size 0 end it, so that no remainder by 0 is taken.
  unfoldable pub duplicate_before : ℕ → Field → List (ℕ × Field) → Bool
  unfolding priority
  duplicate_before offset field [] = false
  duplicate_before offset field ((o, current) ∷ m) =
      let rest = duplicate_before offset field m in
      if leb (offset_end o current) offset
      then false
      else if not (field_size current == field_size field)
      then rest
      else if not (o % field_size field == offset % field_size field)
      then rest
      else if priority current field current.type
      then true
      else rest

  unfoldable pub is_duplicate : ℕ → Field → Struc → Bool
  is_duplicate offset field s = duplicate_before offset field (backwards offset s.fields [])

  unfoldable pub add_field : ℕ → Field → Struc → Struc
  add_field offset field s = if is_duplicate offset field s then s else record {
    fields = Assoc.emplace offset field s.fields;
    field_set = cover offset (field_size field) field.count s.field_set;
  }

  unfoldable pub add_int_field : ℕ → ℕ → Bool → ℕ → Struc → Struc
  add_int_field offset size is_signed count s =
      if has_aliases offset is_typed_int_alias size s.fields
      then s
      else add_field offset
          (record {
            type = if is_signed then int else uint;
            own_size = size;
            count = count;
            target = none;
          })
          s

  unfoldable pub add_float_field : ℕ → ℕ → ℕ → Struc → Struc
  add_float_field offset size count s =
      let (kept, most) = remove_aliases offset is_float_alias size s.fields 1 in
      add_field offset
        (record { type = float; own_size = size; count = max most count; target = none })
        (record s { fields = kept })

  unfoldable pub add_pointer_field : ℕ → ℕ → Option ℕ → Struc → Struc
  add_pointer_field offset count target s =
      let (kept, most) = remove_aliases offset is_pointer_alias 8 s.fields 1 in
      add_field offset
        (record { type = pointer; own_size = 8; count = max most count; target = target })
        (record s { fields = kept })

  unfoldable pub add_struc_field : ℕ → ℕ → ℕ → Struc → Struc
  add_struc_field offset target count s =
      add_field offset (record { type = struc; own_size = 0; count = count; target = some target })
        s

  unfoldable pub merge_fields : ℕ → Field → Struc → Struc
  unfolding has_target
  merge_fields offset field s =
      if not (has_field_at_offset offset s)
      then add_field offset field s
      else if is_duplicate offset field s
      then s
      else if type_is field.type pointer && has_target field.target
      then add_pointer_field offset 1 field.target s
      else if type_is field.type float
      then add_float_field offset (field_size field) field.count s
      else add_field offset field s

  -- The largest of the fields at the last offset, and that offset.
  unfoldable pub last_end : List (ℕ × Field) → ℕ → ℕ → ℕ
  last_end [] offset largest = (offset + largest) % word
  last_end ((o, f) ∷ m) offset largest =
      last_end m o (if o == offset then max largest (field_size f) else field_size f)

  unfoldable pub get_size : Struc → ℕ
  get_size s = last_end s.fields 0 0
