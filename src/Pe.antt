-- ===== src/Pe.antt =====
-- pe.hxx and pe.cxx: the sections of an image, which lie elsewhere in the file than in memory. The
-- headers are read through pointers into the file; their fields are the arguments here. A raw address
-- is a pointer into the file, whose `data()` is `bytes`; a virtual one is a DWORD.
pub mod Addresses
use restruc.Base.{
  ℕ, zero, suc, ◌+◌, ◌-◌, ◌*◌, ◌/◌, ◌%◌, ◌^◌, Bool, true, false, not, Option, none, some, List, [],
  ◌∷◌, if◌then◌else◌, ◌==◌,
}
use restruc.Base.Run.{Run, done, fault, ◌>>=◌}
use restruc.Base.Assoc.{find}
use restruc.Base.Lookup.{sort_by, before_upper_bound}
use restruc.Hash.{word}

-- `IMAGE_SECTION_HEADER`, as far as the code reads it.
pub record Section : Type 0 where
  pub virtual_address : ℕ
  pub pointer_to_raw_data : ℕ
  pub size_of_raw_data : ℕ

-- `RUNTIME_FUNCTION`.
pub record RuntimeFunction : Type 0 where
  pub begin_address : ℕ
  pub end_address : ℕ

-- What the constructor reads of the file's headers: the machine, the table of sections, the
-- directory of exceptions and the entry point.
pub record Headers : Type 0 where
  pub is_amd64 : Bool
  pub sections : List Section
  pub exception_address : ℕ
  pub exception_size : ℕ
  pub entry_point : ℕ

pub record Pe : Type 0 where
  pub bytes : ℕ
  pub headers : Headers
  pub sections_by_va : List Section
  pub sections_by_raw_data : List Section
  pub runtime_function_map : List (ℕ × RuntimeFunction)

-- `get_section_by_raw_address`; the code throws where no section starts at or before the address.
unfoldable pub get_section_by_raw_address : Pe → ℕ → Run Section
get_section_by_raw_address pe pointer =
    elim (before_upper_bound Section.pointer_to_raw_data
      ((pointer + (word - pe.bytes)) % word % 2 ^ 32) pe.sections_by_raw_data) [
        | none ↦ fault
        | some section ↦ done section
      ]

unfoldable pub virtual_to_raw_address : Pe → ℕ → Option ℕ
virtual_to_raw_address pe va =
    elim (before_upper_bound Section.virtual_address va pe.sections_by_va) [
      | none ↦ none
      | some section ↦
          some (
            (pe.bytes + section.pointer_to_raw_data + va + (word - section.virtual_address)) % word)
    ]

unfoldable pub raw_to_virtual_address : Pe → ℕ → Run ℕ
raw_to_virtual_address pe pointer =
    let raw_address = (pointer + (word - pe.bytes)) % word % 2 ^ 32 in
    get_section_by_raw_address pe pointer >>= λ section.
    done ((raw_address + (2 ^ 32 - section.pointer_to_raw_data) + section.virtual_address) % 2 ^ 32)

unfoldable pub get_entry_point : Pe → Option ℕ
get_entry_point pe = virtual_to_raw_address pe pe.headers.entry_point

unfoldable pub get_begin : Pe → ℕ → Run ℕ
get_begin pe pointer = get_section_by_raw_address pe pointer >>= λ section.
    done (pe.bytes + section.pointer_to_raw_data)

unfoldable pub get_end : Pe → ℕ → Run ℕ
get_end pe pointer = get_section_by_raw_address pe pointer >>= λ section.
    done (pe.bytes + section.pointer_to_raw_data + section.size_of_raw_data)

-- The bytes of the file, read as an array of `RUNTIME_FUNCTION`, which has 12 bytes.
module _ (read_runtime_function : ℕ → RuntimeFunction) where
  read_array : ℕ → ℕ → List RuntimeFunction
  read_array address zero = []
  read_array address (suc count) = read_runtime_function address ∷ read_array (address + 12) count

  -- `runtime_functions`.
  unfoldable pub runtime_functions : Pe → List RuntimeFunction
  unfolding read_array
  runtime_functions pe =
      if pe.headers.exception_size == 0
      then []
      else elim (virtual_to_raw_address pe pe.headers.exception_address) [
        | none ↦ []
        | some begin ↦ read_array begin (pe.headers.exception_size / 12)
      ]

  -- The last loop of the constructor: `emplace` keeps the first function at an address. The map is
  -- unordered and is only searched, so new entries go in front.
  unfoldable pub map_functions :
      List RuntimeFunction → List (ℕ × RuntimeFunction) → List (ℕ × RuntimeFunction)
  map_functions [] m = m
  map_functions (f ∷ fs) m =
      map_functions fs
        (elim (find f.begin_address m) [ none ↦ (f.begin_address, f) ∷ m | some g ↦ m ])

  -- The constructor, which throws for other machines.
  unfoldable pub new_pe : ℕ → Headers → Run Pe
  unfolding map_functions
  new_pe bytes headers =
      let pe : Pe = record {
        bytes = bytes;
        headers = headers;
        sections_by_va = sort_by Section.virtual_address headers.sections;
        sections_by_raw_data = sort_by Section.pointer_to_raw_data headers.sections;
        runtime_function_map = [];
      } in
      if not headers.is_amd64
      then fault
      else done (record pe { runtime_function_map = map_functions (runtime_functions pe) [] })

unfoldable pub get_runtime_function : Pe → ℕ → Option RuntimeFunction
get_runtime_function pe va = find va pe.runtime_function_map
