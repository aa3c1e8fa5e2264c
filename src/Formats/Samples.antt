-- ===== src/Formats/Samples.antt =====
-- Texts and fields for runs of the parsers of internal/formats.
use chipfs.Base.{
  ℕ, ◌≡◌, ◌≢◌, refl, [], ◌∷◌, ◌++◌, Bool, true, not, ◌&&◌, ◌==◌, length, replicate, All, Bytes,
  arith,
}
use chipfs.Formats.Slices.{IsNotNull}
use chipfs.Formats.Parts.{IsNullPadded}

abbrev pub has_no_null : Bytes → Bool
has_no_null [] = true
has_no_null (b ∷ s) = not (b == 0) && has_no_null s

pub clean : (s : Bytes) → has_no_null s ≡ true → All IsNotNull s
clean [] h = tt
clean (b ∷ s) h =
    let (head, rest) : (b ≢ 0) × (has_no_null s ≡ true) = ground arith in (head, clean s rest)

pub null_padded :
    (s : Bytes) (nulls width : ℕ)
    → length (s ++ replicate nulls 0) ≡ width
    → has_no_null s ≡ true
    → IsNullPadded (s ++ replicate nulls 0) s width
null_padded s nulls width h k = record { nulls = nulls; layout = refl; size = h; clean = clean s k }
