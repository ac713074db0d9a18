-- ===== src/Registers/Widths.antt =====
-- What `set` stores, by the width of the value that is written.
use restruc.Base.{
  ℕ, ◌+◌, ◌-◌, ◌*◌, ◌/◌, ◌%◌, ◌^◌, ◌<◌, ◌≡◌, refl, arith, false, some, not, ◌&&◌, ◌||◌, ◌==◌,
  Option,
}
use restruc.Base.Masks.{low_mask, shifted_mask, disjoint_fields}
use restruc.Hash.{word}
use restruc.Trie.{Tree}
use restruc.Value.{Value, ValueContainer, make_value, is_symbolic_container}
use restruc.Zydis.{Register, HighByte, high8, low8}
use restruc.Registers.{
  merged_value, set, promote, high_byte_of, write_low_word, write_low_byte, is_narrow,
  merge_container,
}
use restruc.Registers.Names.{is_legacy_ho_part-promote}

write_low_word_lem :
    (old n : ℕ) → old < word → write_low_word old n ≡ old / 2 ^ 16 * 2 ^ 16 + n % 2 ^ 16
write_low_word_lem old n h =
    let kept : old / 2 ^ 16 % 2 ^ 48 ≡ old / 2 ^ 16 = omega arith in
    rw (shifted_mask 16 old (2 ^ 48 - 1), low_mask 48 (old / 2 ^ 16), low_mask 16 n, kept)
      (disjoint_fields 16 (old / 2 ^ 16) (n % 2 ^ 16) (omega arith))

write_low_byte_lem :
    (old n : ℕ) → old < word → write_low_byte old n ≡ old / 2 ^ 8 * 2 ^ 8 + n % 2 ^ 8
write_low_byte_lem old n h =
    let kept : old / 2 ^ 8 % 2 ^ 56 ≡ old / 2 ^ 8 = omega arith in
    rw (shifted_mask 8 old (2 ^ 56 - 1), low_mask 56 (old / 2 ^ 8), low_mask 8 n, kept)
      (disjoint_fields 8 (old / 2 ^ 8) (n % 2 ^ 8) (omega arith))

-- A word or a byte that is written over a known register replaces its low 16 or 8 bits and keeps
-- the others, whichever part of the register was named; the source is the written value's.
pub merged_value-narrow :
    (r : Register) (s s' n old z : ℕ)
    → old < word
    → (merged_value (promote r) (make_value s n 2) (some (make_value s' old z))
        ≡ make_value s (old / 2 ^ 16 * 2 ^ 16 + n % 2 ^ 16) 8)
      × (merged_value (promote r) (make_value s n 1) (some (make_value s' old z))
          ≡ make_value s (old / 2 ^ 8 * 2 ^ 8 + n % 2 ^ 8) 8)
unfolding merged_value make_value
merged_value-narrow r s s' n old z h =
    (rw (write_low_word_lem old n h), rw (is_legacy_ho_part-promote r, write_low_byte_lem old n h))

-- AH, BH, CH and DH are written as AL, BL, CL and DL are: the branch for the second byte of a
-- register is never taken, since the register was promoted before it is looked up.
pub set-high8 :
    (t : Tree Value) (h : HighByte) (v : Value)
    → set t (high8 h) v ≡ set t (low8 (high_byte_of h)) v
unfolding set promote
set-high8 t h v = refl

-- A symbol, and a number of any other width, is stored as it is.
pub merged_value-wide :
    (r : Register) (v : Value) (old : Option Value) → is_narrow v ≡ false → merged_value r v old ≡ v
unfolding is_narrow merged_value
merged_value-wide r v old h = wide v.container h
  where
    wide :
        (c : ValueContainer)
        → (not (is_symbolic_container c) && (v.size == 2 || v.size == 1)) ≡ false
        → merge_container r v old c ≡ v
    wide (ValueContainer.concrete n) e = ground arith
    wide (ValueContainer.symbolic s) e = refl
