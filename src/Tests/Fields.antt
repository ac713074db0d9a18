-- ===== src/Tests/Fields.antt =====
-- The theorems on structures, applied.
use restruc.Base.{ℕ, ◌≡◌, refl, arith, true, false, none}
use restruc.Struc.{
  Field, uint, new_struc, add_field, add_int_field, add_float_field, merge_fields, field_size,
  type_is, rank, target_size,
}
use restruc.Struc.Cover.{IsCovered, start, int_added, float_added, merged, Reachable-IsCovered}
use restruc.Struc.Repeat.{add_field-add_field, has_width}

-- Other structures take 16 bytes.
abbrev sixteen : ℕ → ℕ
sixteen i = 16

-- An array of three words of four bytes.
abbrev words : Field
words = record { type = uint; own_size = 4; count = 3; target = none }

Reachable-IsCovered_example : IsCovered sixteen (
    merge_fields sixteen 8 words
      (add_float_field sixteen 0 4 1 (add_int_field sixteen 0 4 false 2 new_struc)))
Reachable-IsCovered_example =
    Reachable-IsCovered sixteen
      (merge_fields sixteen 8 words
        (add_float_field sixteen 0 4 1 (add_int_field sixteen 0 4 false 2 new_struc)))
      (merged 8 words (float_added 0 4 1 (int_added 0 4 false 2 start)))

words-size : field_size sixteen words ≡ 4
unfolding field_size type_is rank target_size
words-size = refl

words-width : has_width words ≡ true
unfolding has_width type_is rank
words-width = refl

add_field-add_field_example :
    add_field sixteen 8 words (add_field sixteen 8 words new_struc)
    ≡ add_field sixteen 8 words new_struc
add_field-add_field_example =
    add_field-add_field sixteen 8 words new_struc words-width (omega (arith, words-size))
      (omega (arith, words-size))
