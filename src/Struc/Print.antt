-- ===== src/Struc/Print.antt =====
-- struc.cxx, `type_to_string` and `print`: a structure as text. Fields that overlap the one before them
-- stand together in a union. Each structure is printed with its name; `name_of` gives the names of the
-- structures that fields refer to.
pub mod Groups
use restruc.Base.{
  ℕ, zero, suc, ◌+◌, ◌-◌, ◌*◌, ◌%◌, Bool, true, false, not, ◌&&◌, ◌||◌, Option, none, some, List,
  [], ◌∷◌, ◌++◌, if◌then◌else◌, ltb, leb, ◌==◌,
}
use restruc.Base.Run.{Run, done, fault, ◌>>=◌}
use restruc.Hash.{word}
use restruc.Text.{Text, codes, to_hex, to_dec, padded}
use restruc.Struc.{Field, FieldType, uint, int, float, pointer, struc, Struc, offset_end}
use restruc.Struc.Iterator.{Entry}

-- A name by the size of an element.
by_size : ℕ → List (ℕ × Text) → Text
by_size size [] = []
by_size size ((n, name) ∷ names) = if n == size then name else by_size size names

unfoldable pub type_to_string : (ℕ → Text) → Field → Run Text
unfolding by_size
type_to_string name_of f = elim f.type [
  | uint ↦ done (
      by_size f.own_size (
        (1, codes "uint8_t")
        ∷ (2, codes "uint16_t")
        ∷ (4, codes "uint32_t")
        ∷ (8, codes "uint64_t")
        ∷ []))
  | int ↦ done (
      by_size f.own_size (
        (1, codes "int8_t")
        ∷ (2, codes "int16_t")
        ∷ (4, codes "int32_t")
        ∷ (8, codes "int64_t")
        ∷ []))
  | float ↦ done (
      by_size f.own_size (
        (2, codes "f16_t")
        ∷ (4, codes "float")
        ∷ (8, codes "double")
        ∷ (10, codes "long double")
        ∷ []))
  | pointer ↦ done (elim f.target [ none ↦ codes "void*" | some i ↦ name_of i ++ codes "*" ])
  | struc ↦ elim f.target [ none ↦ fault | some i ↦ done (name_of i) ]
]

-- The first field of what is printed next, and the fields that stand in a union with it.
pub record Group : Type 0 where
  pub base_offset : ℕ
  pub members : List Entry
  pub next_offset : ℕ

-- The element count behind a name.
count_text : Field → Text
count_text f = if ltb 1 f.count then codes "[" ++ to_dec f.count ++ codes "]" else []

number_text : Bool → ℕ → Text
number_text is_union j = if is_union then codes "_" ++ to_dec j else []

unfoldable pub entries : List Entry → ℕ
entries [] = 0
entries (e ∷ es) = suc (entries es)

module _ (size_of : ℕ → ℕ) where
  -- The loop that moves `it_end`: the fields that begin before the one in front of them ends, and those
  -- behind. `prev` is the end of that one.
  unfoldable pub union_members : ℕ → ℕ → List Entry → List Entry × List Entry × ℕ
  union_members prev next_offset [] = ([], [], next_offset)
  union_members prev next_offset ((o, f) ∷ m) =
      let here = offset_end size_of o f in
      let further = union_members here (if ltb next_offset prev then prev else next_offset) m in
      if leb prev o
      then ([], (o, f) ∷ m, next_offset)
      else ((o, f) ∷ further.0, further.1, further.2)

  -- The groups that the outer loop prints.
  unfoldable pub groups : ℕ → List Entry → List Group
  groups zero m = []
  groups (suc fuel) [] = []
  groups (suc fuel) ((o, f) ∷ m) =
      let here = offset_end size_of o f in
      let (members, rest, next_offset) = union_members here here m in
      record { base_offset = o; members = (o, f) ∷ members; next_offset = next_offset }
      ∷ groups fuel rest

module _ (name_of : ℕ → Text) where
  -- One field, the `j`-th of its group.
  unfoldable pub field_text : ℕ → Bool → Text → ℕ → Entry → Run Text
  unfolding count_text number_text
  field_text base_offset is_union indent j (offset, f) = type_to_string name_of f >>= λ type. done (
      (if offset == base_offset
        then indent
          ++ type
          ++ codes " field_"
          ++ padded (to_hex offset)
          ++ number_text is_union j
          ++ count_text f
        else indent
          ++ codes "struct { char _padding[0x"
          ++ padded (to_hex (offset - base_offset))
          ++ codes "]; "
          ++ type
          ++ codes " value"
          ++ count_text f
          ++ codes "; } field_"
          ++ padded (to_hex offset)
          ++ number_text is_union j)
      ++ codes ";\n")

  fields_text : ℕ → Bool → Text → ℕ → List Entry → Run Text
  fields_text base_offset is_union indent j [] = done []
  fields_text base_offset is_union indent j (e ∷ es) =
      field_text base_offset is_union indent j e >>= λ first.
      fields_text base_offset is_union indent (suc j) es >>= λ rest. done (first ++ rest)

  unfoldable pub is_union : List Entry → Bool
  is_union (e ∷ d ∷ es) = true
  is_union _ = false

  unfoldable pub padding_text : ℕ → ℕ → Text
  padding_text next_offset base_offset =
      if ltb next_offset base_offset
      then codes "    char _padding_"
        ++ padded (to_hex next_offset)
        ++ codes "[0x"
        ++ padded (to_hex (base_offset - next_offset))
        ++ codes "];\n"
      else []

  group_text : ℕ → Group → Run Text
  unfolding fields_text
  group_text next_offset g =
      let union = is_union g.members in
      fields_text g.base_offset union (if union then codes "        " else codes "    ") 1 g.members
      >>= λ fields. done (
          padding_text next_offset g.base_offset
          ++ (if union then codes "    union {\n" ++ fields ++ codes "    };\n" else fields))

  groups_text : ℕ → List Group → Run Text
  unfolding group_text
  groups_text next_offset [] = done []
  groups_text next_offset (g ∷ gs) = group_text next_offset g >>= λ first.
      groups_text g.next_offset gs >>= λ rest. done (first ++ rest)

  -- `print`; every round prints at least one field, so their number is enough fuel.
  unfoldable pub print : (ℕ → ℕ) → Text → Struc → Run Text
  unfolding groups_text
  print size_of name s = groups_text 0 (groups size_of (entries s.fields) s.fields) >>= λ body.
      done (codes "struct " ++ name ++ codes " {\n" ++ body ++ codes "};\n")
