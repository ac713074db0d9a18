-- ===== src/Text.antt =====
-- The text that the code writes to streams: numbers in hexadecimal or decimal, with leading zeros up to
-- a width, and names. A text is the list of its characters' codes.
use Prim.Native.Char.{code}
use Prim.Native.String.{String}
use restruc.Base.{
  ℕ, zero, suc, ◌+◌, ◌-◌, ◌/◌, ◌%◌, Bool, true, false, ◌&&◌, List, [], ◌∷◌, ◌++◌, if◌then◌else◌,
  ltb, ◌==◌,
}

abbrev pub Text : Type 0
Text = List ℕ

abbrev pub codes : String → Text
codes String.[] = []
codes (String.◌∷◌ c s) = code c ∷ codes s

unfoldable pub same_text : Text → Text → Bool
same_text [] [] = true
same_text (c ∷ s) (d ∷ t) = c == d && same_text s t
same_text _ _ = false

-- `operator<` of strings.
unfoldable pub text_less : Text → Text → Bool
text_less s [] = false
text_less [] (d ∷ t) = true
text_less (c ∷ s) (d ∷ t) = let rest = text_less s t in if c == d then rest else ltb c d

-- The character of a digit below 16.
unfoldable pub digit : ℕ → ℕ
digit n = if ltb n 10 then b'0' + n else b'a' + (n - 10)

-- The digits of a number in front of a text; `fuel` is one less than the digits that there may be.
unfoldable pub digits : ℕ → ℕ → ℕ → Text → Text
digits zero base n after = digit (n % base) ∷ after
digits (suc fuel) base n after =
    let more = digits fuel base (n / base) (digit (n % base) ∷ after) in
    if ltb n base then digit n ∷ after else more

-- `std::hex` and `std::dec` of a 64-bit number.
unfoldable pub to_hex : ℕ → Text
to_hex n = digits 15 16 n []

unfoldable pub to_dec : ℕ → Text
to_dec n = digits 19 10 n []

unfoldable pub zeros : ℕ → Text
zeros zero = []
zeros (suc n) = b'0' ∷ zeros n

unfoldable pub width : Text → ℕ
width [] = 0
width (c ∷ s) = suc (width s)

-- `std::setfill('0') << std::setw(w)`, and the width of 4 that offsets have.
unfoldable pub padded_to : ℕ → Text → Text
padded_to w s = zeros (w - width s) ++ s

unfoldable pub padded : Text → Text
padded s = padded_to 4 s
