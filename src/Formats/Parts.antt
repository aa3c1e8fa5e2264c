-- ===== src/Formats/Parts.antt =====
-- A file of internal/formats as the parts that it is written from, and where a parser finds them.
use chipfs.Base.{
  ℕ, ◌+◌, ◌≡◌, refl, sym, ap, ◌∙◌, List, [], ◌∷◌, ◌++◌, length, replicate, All, Bytes, ok,
  length-append,
}
use mathlib.Core.List.{append_assoc}
use chipfs.Formats.{byte_at, slice, null_padded_string}
use chipfs.Formats.Slices.{IsNotNull, null_padded_string-append, slice_field}

abbrev pub joined : List Bytes → Bytes
joined [] = []
joined (part ∷ parts) = part ++ joined parts

abbrev pub size : List Bytes → ℕ
size [] = 0
size (part ∷ parts) = length part + size parts

pub length-joined : (parts : List Bytes) → length (joined parts) ≡ size parts
length-joined [] = refl
length-joined (part ∷ parts) =
    length-append part (joined parts) ∙ ap (λ (n : ℕ). length part + n) (length-joined parts)

joined-append :
    (before after : List Bytes) → joined (before ++ after) ≡ joined before ++ joined after
joined-append [] after = refl
joined-append (part ∷ before) after =
    rw (joined-append before after) (sym (append_assoc part (joined before) (joined after)))

module _ {E : Type 0} (fault : E) where
  -- A slice with the bounds of a part is the part.
  pub slice_part :
      (before : List Bytes) (part : Bytes) (after : List Bytes) (i j : ℕ)
      → size before ≡ i
      → i + length part ≡ j
      → slice fault (joined (before ++ part ∷ after)) i j ≡ ok part
  slice_part before part after i j h k =
      rw (joined-append before (part ∷ after))
        (slice_field fault (joined before) part (joined after) i j (length-joined before ∙ h) k)

  byte_at-append :
      (front : Bytes) (b : ℕ) (rest : Bytes)
      → byte_at fault (front ++ b ∷ rest) (length front) ≡ ok b
  unfolding byte_at
  byte_at-append [] b rest = refl
  byte_at-append (c ∷ front) b rest = byte_at-append front b rest

  -- The first byte of a part.
  pub byte_part :
      (before : List Bytes) (b : ℕ) (part : Bytes) (after : List Bytes) (i : ℕ)
      → size before ≡ i
      → byte_at fault (joined (before ++ (b ∷ part) ∷ after)) i ≡ ok b
  byte_part before b part after i h =
      let start : i ≡ length (joined before) = sym (length-joined before ∙ h) in
      rw (joined-append before ((b ∷ part) ∷ after), start)
        (byte_at-append (joined before) b (part ++ joined after))

-- A field of `width` bytes that holds the text `s` and then nulls.
pub record IsNullPadded (field s : Bytes) (width : ℕ) : Type 0 where
  pub nulls : ℕ
  pub layout : field ≡ s ++ replicate nulls 0
  pub size : length field ≡ width
  pub clean : All IsNotNull s

pub null_padded_string-IsNullPadded :
    {field s : Bytes} {width : ℕ} → IsNullPadded field s width → null_padded_string field ≡ s
null_padded_string-IsNullPadded {s} h = rw h.layout (null_padded_string-append s h.nulls h.clean)
