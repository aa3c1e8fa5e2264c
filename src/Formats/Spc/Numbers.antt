-- ===== src/Formats/Spc/Numbers.antt =====
-- `parseASCIIInt` of internal/formats/spc/spc.go reads what `strconv.Itoa` writes.
use chipfs.Base.{
  ℕ, ◌≤◌, ◌<◌, ◌≡◌, refl, ap, [], ◌∷◌, true, length, All, Bytes, some, pos, itoa, itoa-IsDigit,
  itoa-ne-nil, digits_value, digits_value-itoa, trim_space_visible, IsVisible, arith,
}
use chipfs.Formats.Parts.{IsNullPadded, null_padded_string-IsNullPadded}
use chipfs.Formats.Spc.{all_digits, digits, atoi, parse_ascii_int}

abbrev pub IsDigit : ℕ → Type 0
IsDigit d = (48 ≤ d) × (d < 58)

all_digits-true : (s : Bytes) → All IsDigit s → all_digits s ≡ true
all_digits-true [] h = refl
all_digits-true (b ∷ s) h = ground (arith, all_digits-true s h.1)

atoi-digits : (s : Bytes) → All IsDigit s → 0 < length s → atoi s ≡ some (pos (digits_value 0 s))
unfolding atoi digits
atoi-digits [] h k = absurd (omega arith)
atoi-digits (b ∷ s) h k = ground (arith, all_digits-true s h.1)

digits-IsVisible : (s : Bytes) → All IsDigit s → All IsVisible s
digits-IsVisible [] h = tt
digits-IsVisible (b ∷ s) h = (omega arith, digits-IsVisible s h.1)

-- The number in a field that holds its decimal digits and then nulls.
pub parse_ascii_int-itoa :
    (n : ℕ) {field : Bytes} {width : ℕ}
    → IsNullPadded field (itoa n) width
    → parse_ascii_int field ≡ pos n
unfolding parse_ascii_int
parse_ascii_int-itoa n {field} h =
    rw
      (
        parse_ascii_int,
        null_padded_string-IsNullPadded h,
        trim_space_visible (itoa n) (digits-IsVisible (itoa n) (itoa-IsDigit n)),
        atoi-digits (itoa n) (itoa-IsDigit n) (itoa-ne-nil n),
      )
      (ap pos (digits_value-itoa n))
