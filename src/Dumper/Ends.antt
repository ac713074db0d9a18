-- ===== src/Dumper/Ends.antt =====
-- The steps of a history end: reading registers and memory, whatever the trees look like, the lookups
-- and the text of an instruction.
pub mod Unseen
pub mod History
pub mod Debug
use restruc.Base.{
  ℕ, zero, suc, ◌+◌, ◌-◌, ◌%◌, ◌^◌, ◌≡◌, refl, Bool, true, false, not, ◌&&◌, Option, none, some,
  List, [], ◌∷◌, if◌then◌else◌, ltb, leb, ◌==◌,
}
use restruc.Base.Assoc
use restruc.Base.Lookup.{before_upper_bound}
use restruc.Pe.{Pe, Section, raw_to_virtual_address, get_section_by_raw_address}
use restruc.Flo.{Flo}
use restruc.Restruc.{AllContexts, get_contexts}
use restruc.Dumper.{Formatter, dump_instruction}
use restruc.Base.Run.{Run, done, fault, out_of_fuel, ◌>>=◌}
use restruc.Base.Ends.{Ends, Stops, done-Ends, fault-Ends, if-Ends, option-Ends, bind-Ends}
use restruc.Hash.{word}
use restruc.Trie.{Tree, null, node, leaf, middle_of, decrement, read_leaf}
use restruc.Zydis.{Instruction, Register, no_register, rip, MemoryOperand}
use restruc.Value.{Value}
use restruc.Registers.{registers_count, register_map, promote, find_value, get}
use restruc.Memory.{Memory, read_byte, get_value, descend, get_each, is_null}
use restruc.Memory
use restruc.Context.{Context, get_register, get_memory}
use restruc.Recontex.{Externals, same_register}
use restruc.Recontex.Operands.{AddressSum, get_memory_address}

pub done-Stops : {A : Type 0} (a : A) → Stops (done a)
unfolding Ends
done-Stops a = tt

if-Stops : {A : Type 0} (b : Bool) (o p : Run A) → Stops o → Stops p → Stops (if b then o else p)
if-Stops true o p h k = h
if-Stops false o p h k = k

bind-Stops :
    {A B : Type 0} (o : Run A) (k : A → Run B) → Stops o → ((a : A) → Stops (k a)) → Stops (o >>= k)
bind-Stops o k h g = bind-Ends (λ a. Unit) (λ b. Unit) o k h (λ a _. g a)

read_leaf-Stops : (t : Tree Value) → Stops (read_leaf t)
unfolding Ends
read_leaf-Stops null = tt
read_leaf-Stops (leaf a) = tt
read_leaf-Stops (node l r) = tt

find_value-Stops : (t : Tree Value) (begin end reg : ℕ) → Stops (find_value t begin end reg)
unfolding find_value
find_value-Stops null begin end reg = fault-Ends (λ _. Unit)
find_value-Stops (leaf a) begin end reg = fault-Ends (λ _. Unit)
find_value-Stops (node l r) begin end reg =
    let middle = middle_of begin end in
    if-Stops (ltb reg middle) _ _
      (if-Stops (ltb begin (decrement middle)) _ _ (find_value-Stops l begin middle reg)
        (read_leaf-Stops l))
      (if-Stops (ltb middle (decrement end)) _ _ (find_value-Stops r middle end reg)
        (read_leaf-Stops r))

pub get_register-Stops : (c : Context) (r : Register) → Stops (get_register c r)
unfolding get_register get
get_register-Stops c r =
    option-Ends (λ o. Unit) (register_map (promote r)) (done none)
      (λ reg. find_value c.registers 0 registers_count reg >>= λ v. done (some v)) (done-Stops none)
      (λ reg _.
        bind-Stops _ _ (find_value-Stops c.registers 0 registers_count reg)
          (λ v. done-Stops (some v)))

read_byte-Stops : (t : Tree Value) → Stops (read_byte t)
unfolding Ends read_byte
read_byte-Stops null = tt
read_byte-Stops (leaf a) = tt
read_byte-Stops (node l r) = tt

get_value-Stops : (t : Tree Value) (begin end address : ℕ) → Stops (get_value t begin end address)
unfolding get_value
get_value-Stops null begin end address = done-Stops none
get_value-Stops (leaf a) begin end address = fault-Ends (λ _. Unit)
get_value-Stops (node l r) begin end address =
    let middle = middle_of begin end in
    if-Stops (ltb address middle) _ _
      (if-Stops (ltb begin (decrement middle)) _ _ (get_value-Stops l begin middle address)
        (read_byte-Stops l))
      (if-Stops (ltb middle (decrement end)) _ _ (get_value-Stops r middle end address)
        (read_byte-Stops r))

descend-Stops : (t : Tree Value) (begin end a b : ℕ) → Stops (descend t begin end a b)
unfolding descend
descend-Stops null begin end a b = done-Stops _
descend-Stops (leaf v) begin end a b = fault-Ends (λ _. Unit)
descend-Stops (node l r) begin end a b =
    let middle = middle_of begin end in
    if-Stops _ _ _ (descend-Stops l begin middle a b)
      (if-Stops _ _ _ (descend-Stops r middle end a b) (done-Stops _))

get_each-Stops :
    (source : ℕ) (t : Tree Value) (begin end count i next_id : ℕ)
    → Stops (get_each source t begin end i count next_id)
unfolding get_each
get_each-Stops source t begin end zero i next_id = done-Stops _
get_each-Stops source t begin end (suc count) i next_id =
    bind-Stops _ _ (get_value-Stops t begin end i)
      (λ byte. bind-Stops _ _ (get_each-Stops source t begin end count _ _) (λ _. done-Stops _))

module _ (x : Externals) where
  pub get_memory-Stops :
      (c : Context) (address size next_id : ℕ) → Stops (get_memory x.hashers c address size next_id)
  unfolding get_memory Memory.get
  get_memory-Stops c address size next_id =
      bind-Stops _ _ (descend-Stops (Memory.holder c.memory) _ _ _ _) (λ _.
        bind-Stops _ _ (if-Stops _ _ _ (done-Stops _) (get_each-Stops _ _ _ _ size _ _))
          (λ _. done-Stops _))

  pub get_memory_address-Stops :
      (c : Context) (element_size : ℕ) (m : MemoryOperand) (next_id : ℕ)
      → Stops (get_memory_address x c element_size m next_id)
  unfolding get_memory_address
  get_memory_address-Stops c element_size m next_id =
      let start : AddressSum = record { symbolic_part = false; value = 0; symbol = 0 } in
      bind-Stops {A = AddressSum} _ _
        (if-Stops (not (same_register m.base no_register) && not (same_register m.base rip)) _
          (done start) (bind-Stops _ _ (get_register-Stops c m.base) (λ _. done-Stops _))
          (done-Stops start))
        (λ based.
          bind-Stops {A = AddressSum} _ _
            (if-Stops (not (same_register m.index no_register)) _ (done based)
              (bind-Stops _ _ (get_register-Stops c m.index) (λ _. done-Stops _))
              (done-Stops based))
            (λ _. done-Stops _))

pub get_contexts-Stops : (contexts : AllContexts) (f : Flo) → Stops (get_contexts contexts f)
unfolding get_contexts
get_contexts-Stops contexts f =
    option-Ends (λ _. Unit) (Assoc.find f.entry_point contexts) fault (λ fc. done fc) (fault-Ends _)
      (λ fc e. done-Stops fc)

get_section_by_raw_address-Stops : (pe : Pe) (a : ℕ) → Stops (get_section_by_raw_address pe a)
unfolding get_section_by_raw_address
get_section_by_raw_address-Stops pe a =
    option-Ends (λ _. Unit)
      (before_upper_bound Section.pointer_to_raw_data ((a + (word - pe.bytes)) % word % 2 ^ 32)
        pe.sections_by_raw_data)
      fault (λ section. done section) (fault-Ends _) (λ section e. done-Stops section)

pub raw_to_virtual_address-Stops : (pe : Pe) (a : ℕ) → Stops (raw_to_virtual_address pe a)
unfolding raw_to_virtual_address
raw_to_virtual_address-Stops pe a =
    bind-Ends (λ _. Unit) (λ _. Unit) (get_section_by_raw_address pe a) _
      (get_section_by_raw_address-Stops pe a) (λ section _. done-Stops _)

pub dump_instruction-Stops :
    (format : Formatter) (va : ℕ) (ins : Instruction) → Stops (dump_instruction format va ins)
unfolding dump_instruction
dump_instruction-Stops format va ins =
    option-Ends (λ _. Unit) (format ins va) fault _ (fault-Ends _) (λ buffer e. done-Stops _)
