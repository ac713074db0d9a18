-- ===== src/Restruc/Links.antt =====
-- restruc.cxx, the links of the second pass: a structure becomes the target of a field of a caller's
-- structure, and what that field pointed to is merged into it.
use restruc.Base.{ℕ, zero, suc, ◌^◌, Option, none, some, List, [], ◌∷◌, if◌then◌else◌, ltb, ◌==◌}
use restruc.Base.Assoc
use restruc.Base.Run.{Run, done, fault, out_of_fuel, ◌>>=◌}
use restruc.Zydis.{no_register, MemoryOperand}
use restruc.Value.{Value}
use restruc.Text.{Text, same_text}
use restruc.Context.{Context, get_register}
use restruc.Flo.{Flo, get_instruction}
use restruc.Reflo.Search.{Reflo}
use restruc.Recontex.{same_register}
use restruc.Struc.{add_pointer_field}
use restruc.Struc.Iterator.{Iterator, locate, upper_bound, previous, before_entry, moved}
use restruc.Struc.Merge.{Merging, merge, perform, is_passed, fits, write}
use restruc.Restruc.{Surroundings, AllContexts, get_contexts, contexts_at}
use restruc.Restruc.Groups.{StrucDomain, ValueGroups, State}
use restruc.Restruc.Domains.{find_domain, name_at, moved_from}

-- `strucs_.erase(src.name())`, for each structure that was merged.
unfoldable pub erase_name : Text → List (Text × ℕ) → List (Text × ℕ)
erase_name name [] = []
erase_name name ((t, i) ∷ m) = if same_text t name then m else (t, i) ∷ erase_name name m

unfoldable pub erase_merged : List Text → List (ℕ × ℕ) → List (Text × ℕ) → List (Text × ℕ)
erase_merged names [] strucs = strucs
erase_merged names ((dst, src) ∷ merged) strucs =
    erase_name (name_at names src) (erase_merged names merged strucs)

module _ (s : Surroundings) (size_of : ℕ → ℕ) (reflo : Reflo) (contexts : AllContexts) where
  open s.externals.hashers use {hash_uint, hash_int}

  -- The loop of `Restruc::try_merge_struc_field_at_offset`, over the fields of the parent.
  unfoldable pub merge_targets : ℕ → ℕ → ℕ → ℕ → Iterator → Merging → Run Merging
  merge_targets zero dst src offset it m = out_of_fuel
  merge_targets (suc fuel) dst src offset it m =
      before_entry (locate it (m.store src).fields) (done m) (λ e.
        if is_passed size_of offset e then done m else elim (fits size_of offset e) [
          | none ↦
              moved (previous (locate it (m.store src).fields))
                (λ it'. merge_targets fuel dst src offset it' m)
          | some t ↦ perform size_of fuel (merge dst t) m >>= λ (_, m').
              moved (previous (locate it (m'.store src).fields))
                (λ it'. merge_targets fuel dst src offset it' m')
        ])

  unfoldable pub try_merge_struc_field_at_offset : ℕ → ℕ → ℕ → ℕ → Merging → Run Merging
  try_merge_struc_field_at_offset fuel dst src offset m =
      if dst == src
      then done m
      else merge_targets fuel dst src offset (upper_bound offset (m.store src).fields) m

  -- The structure becomes the target of a field of the parent; what the parent pointed to there is
  -- merged into it.
  unfoldable pub link_struc : ℕ → ℕ → ℕ → ℕ → State → Run State
  link_struc fuel i parent offset st =
      try_merge_struc_field_at_offset fuel i parent offset
        (record { store = st.store; merged = [] })
      >>= λ m. done (record st {
        store = write parent (add_pointer_field size_of offset 1 (some i) (m.store parent)) m.store;
        strucs = erase_merged st.names m.merged st.strucs;
      })

  -- The displacement as an `intptr_t`, whether or not there is one.
  unfoldable pub link_context :
      ℕ → ℕ → ValueGroups → MemoryOperand → Option Value → State → Run State
  link_context fuel i domain m none st = done st
  link_context fuel i domain m (some v) st = elim (find_domain v domain) [
    | none ↦ done st
    | some parent ↦
        if ltb m.displacement (2 ^ 63)
        then link_struc fuel i parent.struc m.displacement st
        else done st
  ]

  unfoldable pub link_each : ℕ → ℕ → ValueGroups → MemoryOperand → List Context → State → Run State
  link_each fuel i domain m [] st = done st
  link_each fuel i domain m (c ∷ cs) st = get_register c m.base >>= λ found.
      link_context fuel i domain m found st >>= λ st'. link_each fuel i domain m cs st'

  -- `inter_link_flo_strucs(flo, sd, ref_flo, link)`. Without a domain, or an instruction at the link, a
  -- null pointer is used.
  unfoldable pub link_at : ℕ → StrucDomain → Flo → ℕ → State → Run State
  link_at fuel sd ref_flo link st = elim (Assoc.find ref_flo.entry_point st.domains) [
    | none ↦ fault
    | some domain ↦ get_contexts contexts ref_flo >>= λ flo_contexts.
        elim (get_instruction ref_flo link) [
          | none ↦ fault
          | some ins ↦ elim (moved_from s.externals.unused ins) [
            | none ↦ done st
            | some m ↦
                if same_register m.base no_register
                then done st
                else link_each fuel sd.struc domain m (contexts_at link flo_contexts) st
          ]
        ]
  ]
