-- ===== src/Formats/Spc/Form.antt =====
-- `isBinaryFormat` of internal/formats/spc/spc.go, and where `Parse` finds the parts behind the
-- front of a file.
use chipfs.Base.{ℕ, ◌+◌, ◌<◌, ◌≡◌, ◌≢◌, ◌⊎◌, List, ◌∷◌, ◌++◌, true, false, length, Bytes, ok, arith}
use chipfs.Formats.{byte_at, slice}
use chipfs.Formats.Parts.{size, slice_part, byte_part}
use chipfs.Formats.Spc.{out_of_range, is_binary_format}
use chipfs.Formats.Spc.Numbers.{IsDigit}
use chipfs.Formats.Spc.Layout.{Front, Texts, IsFront, front_parts, spc_file, size-front_parts}

-- The form, from the separator of the date and the first byte of the seconds.
pub is_binary_format_text :
    (bytes : Bytes) {separator c : ℕ}
    → byte_at out_of_range bytes 160 ≡ ok separator
    → byte_at out_of_range bytes 169 ≡ ok c
    → IsDigit c
    → is_binary_format bytes ≡ ok false
unfolding is_binary_format
is_binary_format_text bytes h k digit = rw (h, k) (ground arith)

pub is_binary_format_binary :
    (bytes : Bytes) {separator c : ℕ}
    → byte_at out_of_range bytes 160 ≡ ok separator
    → byte_at out_of_range bytes 169 ≡ ok c
    → separator ≢ 47
    → (c < 48) ⊎ (57 < c)
    → is_binary_format bytes ≡ ok true
unfolding is_binary_format
is_binary_format_binary bytes h k other no_digit = rw (h, k) (ground arith)

module _ {p : Front} {t : Texts} (h : IsFront p t) (before : List Bytes) where
  -- Behind the front part a part is found under the size of the parts before it.
  pub slice_behind :
      (part : Bytes) (after : List Bytes) (i j : ℕ)
      → 169 + size before ≡ i
      → i + length part ≡ j
      → slice out_of_range (spc_file p (before ++ part ∷ after)) i j ≡ ok part
  slice_behind part after i j start end =
      slice_part out_of_range (front_parts p ++ before) part after i j
        (omega (arith, size-front_parts h before, start)) end

  pub byte_behind :
      (b : ℕ) (part : Bytes) (after : List Bytes) (i : ℕ)
      → 169 + size before ≡ i
      → byte_at out_of_range (spc_file p (before ++ (b ∷ part) ∷ after)) i ≡ ok b
  byte_behind b part after i start =
      byte_part out_of_range (front_parts p ++ before) b part after i
        (omega (arith, size-front_parts h before, start))
