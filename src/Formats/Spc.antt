-- ===== src/Formats/Spc.antt =====
-- internal/formats/spc/spc.go: the ID666 tag of an SPC file, in its text and its binary form.
pub mod Safe
pub mod Numbers
pub mod Layout
pub mod Form
pub mod TextTag
pub mod BinaryTag
pub mod Written
pub mod Tests
use chipfs.Base.{
  ℕ, zero, suc, ◌+◌, ◌*◌, ◌-◌, List, [], ◌∷◌, Bool, true, false, not, ◌&&◌, ◌||◌, ◌==◌, ltb, leb,
  if◌then◌else◌, length, take, Option, none, some, Bytes, text, trim_space, digits_value,
  read_uint32, ℤ, pos, negsuc, Result, ok, err, ◌>>=◌,
}
use chipfs.Formats.{equal, null_padded_string, byte_at, slice}

-- The errors of `Parse`. `out_of_range` is a run-time panic.
pub data Error : Type 0 where
  invalid_magic : Error
  truncated : ℕ → Error
  out_of_range : Error

-- `Header`
pub record Header : Type 0 where
  pub song_title : Bytes
  pub game_title : Bytes
  pub artist : Bytes
  pub dumper : Bytes
  pub comments : Bytes
  pub play_duration_ms : ℤ
  pub fade_duration_ms : ℤ

abbrev pub no_tag : Header
no_tag = record {
  song_title = [];
  game_title = [];
  artist = [];
  dumper = [];
  comments = [];
  play_duration_ms = pos 0;
  fade_duration_ms = pos 0;
}

-- `spcMagic`
abbrev pub spc_magic : Bytes
spc_magic = text "SNES-SPC700 Sound File Data v0."

-- `bytes.HasPrefix`
unfoldable pub has_prefix : Bytes → Bytes → Bool
has_prefix s prefix = equal (take (length prefix) s) prefix

-- `strconv.Atoi`. The fields have five bytes at most, so that nothing overflows; `none` is an
-- error. `-0` is 0.
abbrev pub is_digit : ℕ → Bool
is_digit b = leb 48 b && leb b 57

abbrev pub all_digits : Bytes → Bool
all_digits [] = true
all_digits (b ∷ s) = is_digit b && all_digits s

unfoldable pub digits : Bytes → Option ℕ
digits [] = none
digits (b ∷ s) = if all_digits (b ∷ s) then some (digits_value 0 (b ∷ s)) else none

abbrev pub negated : ℕ → ℤ
negated zero = pos 0
negated (suc n) = negsuc n

unfoldable pub atoi : Bytes → Option ℤ
atoi [] = none
atoi (b ∷ s) =
    if b == 45
    then elim (digits s) [ some n ↦ some (negated n) | none ↦ none ]
    else elim (digits (if b == 43 then s else b ∷ s)) [ some n ↦ some (pos n) | none ↦ none ]

-- `parseASCIIInt`; the empty string is no number for `atoi` either.
unfoldable pub parse_ascii_int : Bytes → ℤ
parse_ascii_int b = elim (atoi (trim_space (null_padded_string b))) [ some n ↦ n | none ↦ pos 0 ]

-- Seconds in milliseconds
abbrev pub thousand_times : ℤ → ℤ
thousand_times (pos n) = pos (n * 1000)
thousand_times (negsuc n) = negsuc (n * 1000 + 999)

-- `isBinaryFormat`
unfoldable pub is_binary_format : Bytes → Result Error Bool
is_binary_format bytes = byte_at out_of_range bytes 160 >>= λ date.
    if date == 47
    then ok false
    else (byte_at out_of_range bytes 169 >>= λ c. ok (not (leb 48 c && leb c 57)))

-- The durations of the binary form; above the limits they count as unknown.
abbrev pub max_binary_play_sec : ℕ
max_binary_play_sec = 8191

abbrev pub max_binary_fade_ms : ℕ
max_binary_fade_ms = 99999

abbrev pub binary_play : ℕ → ℤ
binary_play play_sec = if leb play_sec max_binary_play_sec then pos (play_sec * 1000) else pos 0

abbrev pub binary_fade : ℕ → ℤ
binary_fade fade_ms = if leb fade_ms max_binary_fade_ms then pos fade_ms else pos 0

-- The branch for the binary form. The three shifted bytes share no bit, so `|` is a sum.
unfoldable pub binary_fields : Header → Bytes → Result Error Header
binary_fields h bytes = do
  s_0 ← byte_at out_of_range bytes 169
  s_1 ← byte_at out_of_range bytes 170
  s_2 ← byte_at out_of_range bytes 171
  fade ← slice out_of_range bytes 172 176
  first ← byte_at out_of_range bytes 176
  artist ←
      if leb first 32 then slice out_of_range bytes 177 209 else slice out_of_range bytes 176 208
  ok (record h {
    play_duration_ms = binary_play (s_0 + 256 * s_1 + 65536 * s_2);
    fade_duration_ms = binary_fade (read_uint32 fade);
    artist = null_padded_string artist;
  })

-- The branch for the text form
unfoldable pub text_fields : Header → Bytes → Result Error Header
text_fields h bytes = do
  play ← slice out_of_range bytes 169 172
  fade ← slice out_of_range bytes 172 177
  artist ← slice out_of_range bytes 177 209
  ok (record h {
    play_duration_ms = thousand_times (parse_ascii_int play);
    fade_duration_ms = parse_ascii_int fade;
    artist = null_padded_string artist;
  })

-- The header with the texts that both forms share
unfoldable pub shared_fields : Bytes → Result Error Header
shared_fields bytes = do
  song_title ← slice out_of_range bytes 46 78
  game_title ← slice out_of_range bytes 78 110
  dumper ← slice out_of_range bytes 110 126
  comments ← slice out_of_range bytes 126 158
  ok (record no_tag {
    song_title = null_padded_string song_title;
    game_title = null_padded_string game_title;
    dumper = null_padded_string dumper;
    comments = null_padded_string comments;
  })

-- `Parse`
unfoldable pub parse : Bytes → Result Error Header
parse bytes =
    if ltb (length bytes) 33 || not (has_prefix bytes spc_magic)
    then err invalid_magic
    else if ltb (length bytes) 210
    then err (truncated (length bytes))
    else (byte_at out_of_range bytes 35 >>= λ tag.
        if tag == 27
        then ok no_tag
        else (shared_fields bytes >>= λ h. is_binary_format bytes >>= λ binary.
            if binary then binary_fields h bytes else text_fields h bytes))
