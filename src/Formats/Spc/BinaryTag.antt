-- ===== src/Formats/Spc/BinaryTag.antt =====
-- `Parse` of internal/formats/spc/spc.go on the binary form of the tag.
use chipfs.Base.{
  ℕ, ◌+◌, ◌*◌, ◌/◌, ◌%◌, ◌≤◌, ◌<◌, ◌≡◌, ◌≢◌, refl, ap, ◌∙◌, ◌⊎◌, List, [], ◌∷◌, ◌++◌, true, false,
  leb, length, Bytes, ok, le32, read_uint32, read_uint32-le32, if◌then◌else◌, pos, arith,
}
use mathlib.Core.List.{append-nil}
use chipfs.Formats.{byte_at, slice, null_padded_string}
use chipfs.Formats.Parts.{size, IsNullPadded, null_padded_string-IsNullPadded}
use chipfs.Formats.Spc.{out_of_range, Header, binary_fields, binary_play, binary_fade, parse}
use chipfs.Formats.Spc.Layout.{
  Front, Texts, IsFront, with_texts, spc_file, separator_at, parse_full,
}
use chipfs.Formats.Spc.Form.{is_binary_format_binary, slice_behind, byte_behind}

binary_fields_lem :
    (h : Header) (bytes : Bytes) {s_0 s_1 s_2 first : ℕ} {fade artist : Bytes}
    → byte_at out_of_range bytes 169 ≡ ok s_0
    → byte_at out_of_range bytes 170 ≡ ok s_1
    → byte_at out_of_range bytes 171 ≡ ok s_2
    → slice out_of_range bytes 172 176 ≡ ok fade
    → byte_at out_of_range bytes 176 ≡ ok first
    → (if leb first 32 then slice out_of_range bytes 177 209 else slice out_of_range bytes 176 208)
      ≡ ok artist
    → binary_fields h bytes
      ≡ ok (record h {
        play_duration_ms = binary_play (s_0 + 256 * s_1 + 65536 * s_2);
        fade_duration_ms = binary_fade (read_uint32 fade);
        artist = null_padded_string artist;
      })
unfolding binary_fields
binary_fields_lem h bytes h0 h1 h2 h3 h4 h5 = rw (h0, h1, h2, h3, h4, h5) refl

-- The artist of the binary form, in its place or one byte later behind a blank, and the end of the
-- file.
pub data IsArtist (name : Bytes) : List Bytes → Type 0 where
  in_place :
      (c : ℕ) (field memory : Bytes)
      → IsNullPadded (c ∷ field) name 32
      → 32 < c
      → 2 ≤ length memory
      → IsArtist name ((c ∷ field) ∷ memory ∷ [])
  behind_blank :
      (blank : ℕ) (field memory : Bytes)
      → IsNullPadded field name 32
      → blank ≤ 32
      → 1 ≤ length memory
      → IsArtist name ((blank ∷ []) ∷ field ∷ memory ∷ [])

-- The durations of the binary form: three bytes of seconds, four of milliseconds
abbrev pub binary_durations : ℕ → ℕ → List Bytes
binary_durations n m = (n % 256 ∷ []) ∷ (n / 256 % 256 ∷ []) ∷ (n / 65536 % 256 ∷ []) ∷ le32 m ∷ []

size-IsArtist : {name : Bytes} {parts : List Bytes} → IsArtist name parts → 34 ≤ size parts
size-IsArtist (in_place c field memory h _ long) = omega (arith, h.size, long)
size-IsArtist (behind_blank blank field memory h _ long) = omega (arith, h.size, long)

module _ {p : Front} {t : Texts} (h : IsFront p t) (n m : ℕ) where
  abbrev binary_file : List Bytes → Bytes
  binary_file parts = spc_file p (binary_durations n m ++ parts)

  artist_at :
      {name : Bytes} {parts : List Bytes}
      → IsArtist name parts
      → (first : ℕ) × (field : Bytes) × (byte_at out_of_range (binary_file parts) 176 ≡ ok first)
        × ((if leb first 32
              then slice out_of_range (binary_file parts) 177 209
              else slice out_of_range (binary_file parts) 176 208)
            ≡ ok field)
        × (null_padded_string field ≡ name)
  artist_at (in_place c field memory padded high long) =
      let letter : leb c 32 ≡ false = ground arith in
      (
        c,
        c ∷ field,
        byte_behind h (binary_durations n m) c field (memory ∷ []) 176 refl,
        rw letter (
            slice_behind h (binary_durations n m) (c ∷ field) (memory ∷ []) 176 208 refl
              (omega (arith, padded.size))),
        null_padded_string-IsNullPadded padded,
      )
  artist_at (behind_blank blank field memory padded low long) =
      let no_letter : leb blank 32 ≡ true = ground arith in
      (
        blank,
        field,
        byte_behind h (binary_durations n m) blank [] (field ∷ memory ∷ []) 176 refl,
        rw no_letter (
            slice_behind h (binary_durations n m ++ (blank ∷ []) ∷ []) field (memory ∷ []) 177 209
              refl (omega (arith, padded.size))),
        null_padded_string-IsNullPadded padded,
      )

  -- The binary form: `Parse` recovers the texts, the artist in either place, and the durations up
  -- to the limits, above which they count as unknown. The form is told from the date, which has
  -- no slash, and from the first byte of the seconds, which is no digit.
  pub parse-binary_tag :
      {name : Bytes} {parts : List Bytes}
      → n < 16777216
      → m < 4294967296
      → p.separator ≢ 47
      → (n % 256 < 48) ⊎ (57 < n % 256)
      → IsArtist name parts
      → parse (binary_file parts)
        ≡ ok (record (with_texts t) {
          play_duration_ms = if leb n 8191 then pos (n * 1000) else pos 0;
          fade_duration_ms = if leb m 99999 then pos m else pos 0;
          artist = name;
        })
  parse-binary_tag {name} {parts} hn hm no_slash no_digit made =
      let file = binary_file parts in
      let at_169 =
        byte_behind h [] (n % 256) []
          ((n / 256 % 256 ∷ []) ∷ (n / 65536 % 256 ∷ []) ∷ le32 m ∷ parts) 169 refl in
      let at_170 =
        byte_behind h ((n % 256 ∷ []) ∷ []) (n / 256 % 256) []
          ((n / 65536 % 256 ∷ []) ∷ le32 m ∷ parts) 170 refl in
      let at_171 =
        byte_behind h ((n % 256 ∷ []) ∷ (n / 256 % 256 ∷ []) ∷ []) (n / 65536 % 256) []
          (le32 m ∷ parts) 171 refl in
      let at_172 =
        slice_behind h ((n % 256 ∷ []) ∷ (n / 256 % 256 ∷ []) ∷ (n / 65536 % 256 ∷ []) ∷ [])
          (le32 m) parts 172 176 refl refl in
      let (first, field, at_176, chosen, same) = artist_at made in
      let fields =
        binary_fields_lem (with_texts t) file at_169 at_170 at_171 at_172 at_176 chosen in
      let seconds : n % 256 + 256 * (n / 256 % 256) + 65536 * (n / 65536 % 256) ≡ n = omega arith in
      let fade : read_uint32 (le32 m) ≡ m =
        ap read_uint32 (append-nil (le32 m)) ∙ read_uint32-le32 m [] hm in
      parse_full h (binary_durations n m ++ parts) (omega (arith, size-IsArtist made))
      ∙ rw
          (
            is_binary_format_binary file (separator_at h (binary_durations n m ++ parts)) at_169
                no_slash no_digit,
            fields,
            seconds,
            fade,
            same,
          )
          refl
