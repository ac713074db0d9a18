-- ===== src/Tests/Image.antt =====
-- The theorems on the addresses of an image, applied.
use restruc.Base.{
  ℕ, ◌+◌, ◌-◌, ◌%◌, ◌≤◌, ◌<◌, ◌≡◌, refl, ap, arith, inl, inr, true, Option, none, some, [], ◌∷◌,
}
use restruc.Base.Run.{Run, done}
use restruc.Base.Lookup.{Among, Among-cases, nothing-Among, LastAtMost, sort_by}
use restruc.Hash.{word}
use restruc.Pe.{
  Section, RuntimeFunction, Headers, Pe, new_pe, virtual_to_raw_address, raw_to_virtual_address,
  get_section_by_raw_address, get_begin, get_end, runtime_functions, map_functions,
}
use restruc.Pe.Addresses.{IsClear, raw_to_virtual-virtual_to_raw, section_lookup-LastAtMost}

abbrev text_section : Section
text_section = record {
  virtual_address = 0x1000;
  pointer_to_raw_data = 0x400;
  size_of_raw_data = 0x200;
}

-- It has no bytes in the file.
abbrev bss_section : Section
bss_section = record { virtual_address = 0x3000; pointer_to_raw_data = 0; size_of_raw_data = 0 }

abbrev headers : Headers
headers = record {
  is_amd64 = true;
  sections = bss_section ∷ text_section ∷ [];
  exception_address = 0;
  exception_size = 0;
  entry_point = 0x1010;
}

abbrev read_function : ℕ → RuntimeFunction
read_function a = record { begin_address = a; end_address = a + 1 }

text_section-IsClear : IsClear headers.sections text_section
text_section-IsClear = record {
  known = Among.there (Among.here refl);
  memory_bound = omega arith;
  file_bound = omega arith;
  apart = λ t m. elim (Among-cases m) [
    | inl e ↦
        let at_va = ap Section.virtual_address e in
        let at_raw = ap Section.pointer_to_raw_data e in inr (inr (omega arith), inl (omega arith))
    | inr m' ↦ elim (Among-cases m') [
      | inl e ↦ inl e
      | inr none_left ↦ absurd (nothing-Among none_left)
    ]
  ];
}

abbrev pub image : Pe
image = record {
  bytes = 0x10000;
  headers = headers;
  sections_by_va = text_section ∷ bss_section ∷ [];
  sections_by_raw_data = bss_section ∷ text_section ∷ [];
  runtime_function_map = [];
}

image-new_pe : new_pe read_function 0x10000 headers ≡ done image
unfolding new_pe sort_by runtime_functions map_functions
image-new_pe = refl

raw_to_virtual-virtual_to_raw_example :
    (p : ℕ) × (begin : ℕ) × (end : ℕ) × (virtual_to_raw_address image 0x1010 ≡ some p)
    × (raw_to_virtual_address image p ≡ done 0x1010)
    × (get_begin image p ≡ done begin)
    × (get_end image p ≡ done end)
    × (begin ≤ p)
    × (p < end)
raw_to_virtual-virtual_to_raw_example =
    raw_to_virtual-virtual_to_raw read_function 0x10000 headers image text_section 0x1010
      image-new_pe (omega arith) text_section-IsClear (omega arith) (omega arith)

section_lookup-LastAtMost_example :
    (o : Option Section) × LastAtMost Section.virtual_address 0x3010 headers.sections o
    × (virtual_to_raw_address image 0x3010 ≡ elim o [
      | none ↦ none
      | some s ↦
          some ((0x10000 + s.pointer_to_raw_data + 0x3010 + (word - s.virtual_address)) % word)
    ])
    × ((q : Option Section) × LastAtMost Section.pointer_to_raw_data 0x410 headers.sections q
        × (get_section_by_raw_address image ((0x10000 + 0x410) % word)
            ≡ elim q [ none ↦ Run.fault | some s ↦ done s ]))
section_lookup-LastAtMost_example =
    section_lookup-LastAtMost read_function 0x10000 headers image 0x3010 0x410 image-new_pe
      (omega arith) (omega arith)
