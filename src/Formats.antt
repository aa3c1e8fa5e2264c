-- ===== src/Formats.antt =====
-- internal/formats: what the three parsers share. A Go expression that indexes or slices faults
-- out of range; here it gives the error `fault` of the caller's choice.
pub mod Slices
pub mod Parts
pub mod Samples
pub mod Gbs
pub mod Nsf
pub mod Spc
mod Tests
use chipfs.Base.{
  ℕ, zero, suc, ◌-◌, List, [], ◌∷◌, Bool, true, false, ◌&&◌, ◌==◌, leb, if◌then◌else◌, length,
  get_elem?, take, drop, Option, none, some, Bytes, Result, ok, err,
}
use mathlib.Core.Option

-- `bytes.Equal`
unfoldable pub equal : Bytes → Bytes → Bool
equal [] [] = true
equal (a ∷ x) (b ∷ y) = a == b && equal x y
equal _ _ = false

-- `bytes.IndexByte`
unfoldable pub index_byte : Bytes → ℕ → Option ℕ
index_byte [] c = none
index_byte (b ∷ s) c = if b == c then some 0 else Option.map suc (index_byte s c)

-- `nullPaddedString`, as the nsf and spc packages have it
unfoldable pub null_padded_string : Bytes → Bytes
unfolding index_byte
null_padded_string b = elim (index_byte b 0) [ some i ↦ take i b | none ↦ b ]

module _ {E : Type 0} (fault : E) where
  -- `data[i]`
  unfoldable pub byte_at : Bytes → ℕ → Result E ℕ
  byte_at s i = elim (get_elem? s i) [ some b ↦ ok b | none ↦ err fault ]

  -- `data[i:j]`
  unfoldable pub slice : Bytes → ℕ → ℕ → Result E Bytes
  slice s i j = if leb i j && leb j (length s) then ok (take (j - i) (drop i s)) else err fault
