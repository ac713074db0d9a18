-- ===== src/Restruc/Domains.antt =====
-- restruc.cxx, the rest of the first pass: `create_flo_strucs`, `intra_link_flo_strucs`, `add_flo_domain`
-- and `analyze_flo`. Each function is one step. The order of a `std::unordered_map` is left open by the
-- standard; here its entries stand in the order in which they came.
use restruc.Base.{
  ℕ, zero, suc, Bool, true, false, Option, none, some, List, [], ◌∷◌, ◌++◌, if◌then◌else◌, ◌==◌,
}
use restruc.Base.Assoc
use restruc.Base.Run.{Run, done, fault, ◌>>=◌}
use restruc.Zydis
use restruc.Zydis.{
  Instruction, Mnemonic, mov, Register, no_register, rip, qword64, rsp, OperandType, MemoryOperand,
  register_operand, memory_operand, immediate_operand, other_operand,
}
use restruc.Value.{Value, ValueContainer, concrete, symbolic, same_value}
use restruc.Text.{Text, codes, same_text, text_less, to_hex}
use restruc.Pe.{Pe, raw_to_virtual_address}
use restruc.Context.{Context, get_register}
use restruc.Flo.{Flo, Disassembly, get_instruction}
use restruc.Recontex.{operand_at}
use restruc.Recontex.Paths.{FloContexts}
use restruc.Struc.{Struc, new_struc, add_pointer_field}
use restruc.Struc.Merge.{Store, write}
use restruc.Restruc.{Surroundings, AllContexts, get_contexts, contexts_at}
use restruc.Restruc.Fields.{add_struc_field, field_offset}
use restruc.Restruc.Groups.{StrucDomain, ValueGroups, State, group_disassembly}

-- The part of the name that tells values apart which come from outside the function.
unfoldable pub value_name : ValueContainer → Text
value_name (concrete n) = to_hex n
value_name (symbolic s) =
    to_hex s.id ++ (if s.offset == 0 then [] else codes "_" ++ to_hex s.offset)

unfoldable pub generate_struc_name : Pe → Flo → Value → Run Text
generate_struc_name pe f v =
    if v.source == 0
    then (raw_to_virtual_address pe f.entry_point >>= λ va.
        done (codes "rs_" ++ to_hex va ++ codes "_" ++ value_name v.container))
    else (raw_to_virtual_address pe v.source >>= λ va. done (codes "rs_" ++ to_hex va))

unfoldable pub names_count : List Text → ℕ
names_count [] = 0
names_count (t ∷ ts) = suc (names_count ts)

-- `strucs.emplace`, of a map with the values' equality.
unfoldable pub find_domain : Value → ValueGroups → Option StrucDomain
find_domain v [] = none
find_domain v ((w, sd) ∷ m) = if same_value w v then some sd else find_domain v m

unfoldable pub emplace_domain : Value → StrucDomain → ValueGroups → ValueGroups
emplace_domain v sd m = elim (find_domain v m) [ none ↦ m ++ (v, sd) ∷ [] | some other ↦ m ]

-- `strucs_.emplace(name, struc)`, in the order of names: a name that is there keeps its structure.
unfoldable pub emplace_name : Text → ℕ → List (Text × ℕ) → List (Text × ℕ)
emplace_name name i [] = (name, i) ∷ []
emplace_name name i ((t, j) ∷ m) =
    let rest = emplace_name name i m in
    if same_text t name
    then (t, j) ∷ m
    else if text_less name t
    then (name, i) ∷ (t, j) ∷ m
    else (t, j) ∷ rest

unfoldable pub name_at : List Text → ℕ → Text
name_at [] i = []
name_at (t ∷ ts) zero = t
name_at (t ∷ ts) (suc i) = name_at ts i

is_mov : Mnemonic → Bool
is_mov mov = true
is_mov _ = false

-- The second operand of a MOV, where it is in memory.
unfoldable pub moved_from : Zydis.Operand → Instruction → Option MemoryOperand
unfolding is_mov
moved_from unused ins =
    if is_mov ins.mnemonic
    then elim (Zydis.Operand.kind (operand_at unused ins.operands 1)) [
      | memory_operand m ↦ some m
      | register_operand r ↦ none
      | immediate_operand i ↦ none
      | other_operand ↦ none
    ]
    else none

module _ (s : Surroundings) (size_of : ℕ → ℕ) (pe : Pe) (contexts : AllContexts) where
  unfoldable pub add_fields : Flo → Disassembly → Struc → ℕ → Run (Struc × ℕ)
  add_fields f [] struc next_id = done (struc, next_id)
  add_fields f ((address, ins) ∷ d) struc next_id =
      add_struc_field s size_of contexts f address ins struc next_id >>= λ (struc', next_id').
      add_fields f d struc' next_id'

  -- The structures of the groups, each under the next number.
  unfoldable pub create_flo_strucs :
      Flo → ValueGroups → ValueGroups → State → Run (ValueGroups × State)
  create_flo_strucs f [] domain st = done (domain, st)
  create_flo_strucs f ((v, sd) ∷ groups) domain st = generate_struc_name pe f v >>= λ name.
      add_fields f sd.relevant_instructions new_struc st.next_id >>= λ (struc, next_id').
      let i = names_count st.names in
      create_flo_strucs f groups
        (emplace_domain v (record sd { struc = i; base_flo = f.entry_point }) domain)
        (record st {
          store = write i struc st.store;
          names = st.names ++ name ∷ [];
          next_id = next_id';
        })

  -- A structure whose base was loaded through another structure of the function is its target.
  unfoldable pub link_parents :
      ValueGroups → StrucDomain → MemoryOperand → List Context → Store → Run Store
  link_parents domain sd m [] store = done store
  link_parents domain sd m (c ∷ cs) store = get_register c m.base >>= λ found. elim found [
    | none ↦ link_parents domain sd m cs store
    | some v ↦ elim (find_domain v domain) [
      | none ↦ link_parents domain sd m cs store
      | some parent ↦ elim (field_offset s m) [
        | none ↦ link_parents domain sd m cs store
        | some offset ↦ link_parents domain sd m cs (
            write parent.struc
              (add_pointer_field size_of offset 1 (some sd.struc) (store parent.struc)) store)
      ]
    ]
  ]

  unfoldable pub link_domains : Flo → FloContexts → ValueGroups → ValueGroups → Store → Run Store
  link_domains f flo_contexts domain [] store = done store
  link_domains f flo_contexts domain ((v, sd) ∷ rest) store =
      if v.source == 0
      then link_domains f flo_contexts domain rest store
      else elim (get_instruction f v.source) [
        | none ↦ fault
        | some ins ↦ elim (moved_from s.externals.unused ins) [
          | none ↦ link_domains f flo_contexts domain rest store
          | some m ↦
              link_parents domain sd m (contexts_at v.source flo_contexts) store >>= λ store'.
              link_domains f flo_contexts domain rest store'
        ]
      ]

  unfoldable pub intra_link_flo_strucs : Flo → FloContexts → ValueGroups → Store → Run Store
  intra_link_flo_strucs f flo_contexts [] store = done store
  intra_link_flo_strucs f flo_contexts (e ∷ []) store = done store
  intra_link_flo_strucs f flo_contexts (e ∷ d ∷ rest) store =
      link_domains f flo_contexts (e ∷ d ∷ rest) (e ∷ d ∷ rest) store

  unfoldable pub add_names : ValueGroups → List Text → List (Text × ℕ) → List (Text × ℕ)
  add_names [] names strucs = strucs
  add_names ((v, sd) ∷ domain) names strucs =
      add_names domain names (emplace_name (name_at names sd.struc) sd.struc strucs)

  unfoldable pub add_flo_domain : Flo → ValueGroups → State → State
  add_flo_domain f domain st = record st {
    strucs = add_names domain st.names st.strucs;
    domains =
        if Assoc.contains f.entry_point st.domains
        then st.domains
        else Assoc.emplace f.entry_point domain st.domains;
  }

  unfoldable pub analyze_flo : Flo → State → Run State
  analyze_flo f st = get_contexts contexts f >>= λ flo_contexts.
      group_disassembly flo_contexts f.disassembly [] >>= λ groups. elim groups [
        | [] ↦ done st
        | g ∷ gs ↦ create_flo_strucs f (g ∷ gs) [] st >>= λ (domain, st').
            intra_link_flo_strucs f flo_contexts domain st'.store >>= λ store.
            done (add_flo_domain f domain (record st' { store = store }))
      ]
