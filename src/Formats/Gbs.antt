-- ===== src/Formats/Gbs.antt =====
-- internal/formats/gbs/gbs.go: the header of a GBS file.
pub mod Fields
use chipfs.Base.{
  ℕ, zero, suc, List, [], ◌∷◌, Bool, true, false, not, ◌&&◌, ◌==◌, ltb, if◌then◌else◌, length, take,
  Bytes, text, Result, ok, err, ◌>>=◌,
}
use chipfs.Formats.{equal, null_padded_string, byte_at, slice}

-- The errors of `Parse`. `out_of_range` is a run-time panic.
pub data Error : Type 0 where
  too_short : Error
  invalid_magic : Error
  truncated : ℕ → Error
  out_of_range : Error

-- `Header`
pub record Header : Type 0 where
  pub title : Bytes
  pub author : Bytes
  pub copyright : Bytes
  pub track_count : ℕ
  pub first_track : ℕ

-- `strings.TrimRight(s, " ")`, and its step: a space goes when all behind it went.
abbrev pub keep_left : ℕ → Bytes → Bytes
keep_left b [] = if b == 32 then [] else b ∷ []
keep_left b (c ∷ s) = b ∷ c ∷ s

unfoldable pub trim_right : Bytes → Bytes
trim_right [] = []
trim_right (b ∷ s) = keep_left b (trim_right s)

-- `nullPaddedString` of this package, which strips trailing spaces as well
unfoldable pub padded_string : Bytes → Bytes
padded_string b = trim_right (null_padded_string b)

-- The literal at the end of `Parse`.
unfoldable pub fields : Bytes → Result Error Header
fields bytes = do
  track_count ← byte_at out_of_range bytes 4
  first_track ← byte_at out_of_range bytes 5
  title ← slice out_of_range bytes 16 48
  author ← slice out_of_range bytes 48 80
  copyright ← slice out_of_range bytes 80 112
  ok (record {
    title = padded_string title;
    author = padded_string author;
    copyright = padded_string copyright;
    track_count = track_count;
    first_track = first_track;
  })

-- `Parse`
unfoldable pub parse : Bytes → Result Error Header
parse bytes =
    if ltb (length bytes) 3
    then err too_short
    else (slice out_of_range bytes 0 3 >>= λ front.
        if not (equal front (text "GBS"))
        then err invalid_magic
        else if ltb (length bytes) 112
        then err (truncated (length bytes))
        else fields bytes)
