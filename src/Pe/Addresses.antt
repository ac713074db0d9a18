-- ===== src/Pe/Addresses.antt =====
-- The two conversions of addresses are inverse to each other inside a section.
use restruc.Base.{
  ℕ, ◌+◌, ◌-◌, ◌%◌, ◌^◌, ◌≤◌, ◌<◌, ◌≡◌, sym, ap, ◌⊎◌, inl, inr, arith, Option, none, some, List,
  Bool-cases,
}
use restruc.Base.Run.{Run, done}
use restruc.Base.Lookup.{
  Among, sort_by, before_upper_bound, LastAtMost, lookup-LastAtMost, LastAtMost-unique,
}
use restruc.Hash.{word}
use restruc.Pe.{
  Section, RuntimeFunction, Headers, Pe, new_pe, virtual_to_raw_address, raw_to_virtual_address,
  get_section_by_raw_address, get_begin, get_end,
}

-- The number `a` is no start inside the `n` numbers from `b` on.
abbrev Outside : ℕ → ℕ → ℕ → Type 0
Outside a b n = (a < b) ⊎ (b + n ≤ a)

-- A section of the table that fits 32 bits and in which no other section starts, neither in memory
-- nor in the file. Other sections may overlap, and may have no bytes in the file.
pub record IsClear (table : List Section) (s : Section) : Type 0 where
  pub known : Among s table
  pub memory_bound : s.virtual_address + s.size_of_raw_data ≤ 2 ^ 32
  pub file_bound : s.pointer_to_raw_data + s.size_of_raw_data ≤ 2 ^ 32
  pub apart :
      (t : Section)
      → Among t table
      → (t ≡ s)
        ⊎ (Outside t.virtual_address s.virtual_address s.size_of_raw_data
            × Outside t.pointer_to_raw_data s.pointer_to_raw_data s.size_of_raw_data)

-- What the constructor keeps of the headers.
abbrev pub IsLoaded : Pe → Headers → ℕ → Type 0
IsLoaded pe headers bytes =
    (pe.bytes ≡ bytes)
    × (pe.sections_by_va ≡ sort_by Section.virtual_address headers.sections)
    × (pe.sections_by_raw_data ≡ sort_by Section.pointer_to_raw_data headers.sections)

done-injective {ℓ} : {A : Type ℓ} (a b : A) → done a ≡ done b → a ≡ b
done-injective a b e = cc

new_pe-IsLoaded :
    (read_function : ℕ → RuntimeFunction) (bytes : ℕ) (headers : Headers) (pe : Pe)
    → new_pe read_function bytes headers ≡ done pe
    → IsLoaded pe headers bytes
unfolding new_pe
new_pe-IsLoaded read_function bytes headers pe e = elim (Bool-cases headers.is_amd64) [
  | inl b ↦
      let same = done-injective _ pe (rw b at e) in
      (
        sym (ap Pe.bytes same),
        sym (ap Pe.sections_by_va same),
        sym (ap Pe.sections_by_raw_data same),
      )
  | inr b ↦ let threw : Run.fault ≡ done pe = rw b at e in cc
]

in_memory :
    (table : List Section) (s : Section) (va : ℕ)
    → IsClear table s
    → s.virtual_address ≤ va
    → va < s.virtual_address + s.size_of_raw_data
    → before_upper_bound Section.virtual_address va (sort_by Section.virtual_address table) ≡ some s
in_memory table s va k lo hi =
    LastAtMost-unique Section.virtual_address va table s _
      (lookup-LastAtMost Section.virtual_address va table) k.known lo
      (λ t m from upto. elim (k.apart t m) [
        | inl same ↦ same
        | inr (inl before, _) ↦ absurd (omega arith)
        | inr (inr behind, _) ↦ absurd (omega arith)
      ])

in_file :
    (table : List Section) (s : Section) (raw : ℕ)
    → IsClear table s
    → s.pointer_to_raw_data ≤ raw
    → raw < s.pointer_to_raw_data + s.size_of_raw_data
    → before_upper_bound Section.pointer_to_raw_data raw (sort_by Section.pointer_to_raw_data table)
      ≡ some s
in_file table s raw k lo hi =
    LastAtMost-unique Section.pointer_to_raw_data raw table s _
      (lookup-LastAtMost Section.pointer_to_raw_data raw table) k.known lo
      (λ t m from upto. elim (k.apart t m) [
        | inl same ↦ same
        | inr (_, inl before) ↦ absurd (omega arith)
        | inr (_, inr behind) ↦ absurd (omega arith)
      ])

-- A virtual address in a section, counted by the section's bytes in the file, is converted to a
-- pointer between the section's begin and end and from there back to itself, whatever the order of
-- the table, if no other section starts inside it.
pub raw_to_virtual-virtual_to_raw :
    (read_function : ℕ → RuntimeFunction) (bytes : ℕ) (headers : Headers) (pe : Pe) (s : Section)
    (va : ℕ)
    → new_pe read_function bytes headers ≡ done pe
    → bytes + 2 ^ 32 < word
    → IsClear headers.sections s
    → s.virtual_address ≤ va
    → va < s.virtual_address + s.size_of_raw_data
    → (p : ℕ) × (begin : ℕ) × (end : ℕ) × (virtual_to_raw_address pe va ≡ some p)
      × (raw_to_virtual_address pe p ≡ done va)
      × (get_begin pe p ≡ done begin)
      × (get_end pe p ≡ done end)
      × (begin ≤ p)
      × (p < end)
unfolding virtual_to_raw_address raw_to_virtual_address get_begin get_end get_section_by_raw_address
raw_to_virtual-virtual_to_raw read_function bytes headers pe s va made room k lo hi =
    let l = new_pe-IsLoaded read_function bytes headers pe made in
    let l₀ = l.0 in
    let raw = s.pointer_to_raw_data + (va - s.virtual_address) in
    let p = pe.bytes + raw in
    let placed : before_upper_bound Section.virtual_address va pe.sections_by_va ≡ some s =
      rw l.1 (in_memory headers.sections s va k lo hi) in
    let found : before_upper_bound Section.pointer_to_raw_data raw pe.sections_by_raw_data
        ≡ some s =
      rw l.2 (in_file headers.sections s raw k (omega arith) (omega arith)) in
    let forth : (pe.bytes + s.pointer_to_raw_data + va + (word - s.virtual_address)) % word ≡ p =
      omega arith in
    let offset : (p + (word - pe.bytes)) % word % 2 ^ 32 ≡ raw = omega arith in
    let back : (raw + (2 ^ 32 - s.pointer_to_raw_data) + s.virtual_address) % 2 ^ 32 ≡ va =
      omega arith in
    let section : get_section_by_raw_address pe p ≡ done s =
      rw (offset, get_section_by_raw_address, found) in
    (
      p,
      pe.bytes + s.pointer_to_raw_data,
      pe.bytes + s.pointer_to_raw_data + s.size_of_raw_data,
      rw (placed, virtual_to_raw_address, forth),
      rw (section, offset, back),
      rw section,
      rw section,
      omega arith,
      omega arith,
    )

-- The lookups in the sorted tables choose, of the table in the file's order, the last section at or
-- before the address, in memory or in the file; without one the conversion of a virtual address is
-- null, and that of a raw address throws.
pub section_lookup-LastAtMost :
    (read_function : ℕ → RuntimeFunction) (bytes : ℕ) (headers : Headers) (pe : Pe) (va raw : ℕ)
    → new_pe read_function bytes headers ≡ done pe
    → bytes < word
    → raw < 2 ^ 32
    → (o : Option Section) × LastAtMost Section.virtual_address va headers.sections o
      × (virtual_to_raw_address pe va ≡ elim o [
        | none ↦ none
        | some s ↦ some ((bytes + s.pointer_to_raw_data + va + (word - s.virtual_address)) % word)
      ])
      × ((q : Option Section) × LastAtMost Section.pointer_to_raw_data raw headers.sections q
          × (get_section_by_raw_address pe ((bytes + raw) % word)
              ≡ elim q [ none ↦ Run.fault | some s ↦ done s ]))
unfolding virtual_to_raw_address get_section_by_raw_address
section_lookup-LastAtMost read_function bytes headers pe va raw made w h =
    let l = new_pe-IsLoaded read_function bytes headers pe made in
    let l₀ = l.0 in
    let offset : ((bytes + raw) % word + (word - pe.bytes)) % word % 2 ^ 32 ≡ raw = omega arith in
    (
      before_upper_bound Section.virtual_address va pe.sections_by_va,
      rw l.1 (lookup-LastAtMost Section.virtual_address va headers.sections),
      rw l.0,
      (
        before_upper_bound Section.pointer_to_raw_data raw pe.sections_by_raw_data,
        rw l.2 (lookup-LastAtMost Section.pointer_to_raw_data raw headers.sections),
        rw (offset, get_section_by_raw_address),
      ),
    )
